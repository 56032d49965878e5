-- ===== src/Processor/Addresses/Traces.antt =====
-- What address a trace is judged by, and which traces and queries are looked up.
use click_dog.Common.{
  ℕ, ◌==◌, Bool, false, ◌&&◌, not, String, str_eq, eq_iff, ◌≡◌, refl, ◌∙◌, Option, none, some, List,
  [], ◌∷◌, any, is_some, if◌then◌else◌, arith,
}
use click_dog.Common.Sets.{
  contains, insert, Distinct, contains-insert, nat_equality, string_equality,
}
use click_dog.Common.Maps.{lookup, put, lookup-put}
use click_dog.Model.{OpenTelemetrySpan}
use click_dog.Processor.Addresses.{
  QueryLogMap, attribute, fill, query_log_client_address, trace_client_addresses, missing_after,
  unresolved_trace_ids, resolve_span_client_address, ids_after, unique_query_ids,
}

abbrev pub or_else {ℓ} : {A : Type ℓ} → Option A → Option A → Option A
or_else none o = o
or_else (some a) o = some a

-- The address of the first span of a trace that has one.
abbrev pub first_address : (OpenTelemetrySpan → String) → ℕ → List OpenTelemetrySpan → Option String
first_address address id [] = none
first_address address id (s ∷ ss) =
    if s.trace_id == id && not (str_eq (address s) "")
    then some (address s)
    else first_address address id ss

lookup-fill :
    (address : OpenTelemetrySpan → String) (id : ℕ) (ss : List OpenTelemetrySpan)
    (addrs : List (ℕ × String))
    → lookup id (fill address ss addrs) ≡ or_else (lookup id addrs) (first_address address id ss)
unfolding fill
lookup-fill address id [] addrs = ground arith
lookup-fill address id (s ∷ ss) addrs = ground (
  arith,
  lookup-fill address id ss addrs,
  lookup-fill address id ss (put s.trace_id (address s) addrs),
  lookup-put s.trace_id id (address s) addrs,
)

-- A trace's address is that of the first of its spans that has a query_log row naming one, whatever
-- attributes come before it; only without such a span it is the first `client.address` attribute.
pub lookup-trace_client_addresses :
    (rows : QueryLogMap) (spans : List OpenTelemetrySpan) (id : ℕ)
    → lookup id (trace_client_addresses rows spans)
      ≡ or_else
          (first_address (query_log_client_address rows) id spans)
          (first_address (attribute "client.address") id spans)
unfolding trace_client_addresses lookup
lookup-trace_client_addresses rows spans id = ground (
  arith,
  lookup-fill (query_log_client_address rows) id spans [],
  lookup-fill (attribute "client.address") id spans (fill (query_log_client_address rows) spans []),
)

-- If one span of a page names its trace's client by a query_log row, every span of that trace, in
-- the page or not, is judged by one and the same address.
pub resolve_span_client_address-trace :
    (rows : QueryLogMap) (spans : List OpenTelemetrySpan) (a b : OpenTelemetrySpan) (addr : String)
    → a.trace_id ≡ b.trace_id
    → first_address (query_log_client_address rows) a.trace_id spans ≡ some addr
    → (resolve_span_client_address rows (trace_client_addresses rows spans) a ≡ addr)
      × (resolve_span_client_address rows (trace_client_addresses rows spans) b ≡ addr)
unfolding resolve_span_client_address
resolve_span_client_address-trace rows spans a b addr same found = ground (
  arith,
  lookup-trace_client_addresses rows spans a.trace_id,
  lookup-trace_client_addresses rows spans b.trace_id,
)

abbrev has_trace : ℕ → OpenTelemetrySpan → Bool
has_trace id s = s.trace_id == id

contains-missing_after :
    (seen : List ℕ) (spans : List OpenTelemetrySpan) (addrs : List (ℕ × String)) (id : ℕ)
    → contains (missing_after seen spans addrs) id
      ≡ any (λ s. s.trace_id == id) spans
        && not (is_some (lookup id addrs))
        && not (contains seen id)
unfolding missing_after contains
contains-missing_after seen [] addrs id = refl
contains-missing_after seen (s ∷ ss) addrs id = ground (
  arith,
  contains-missing_after (insert s.trace_id seen) ss addrs id,
  contains-insert s.trace_id id seen,
)

missing_after-Distinct :
    (seen : List ℕ) (spans : List OpenTelemetrySpan) (addrs : List (ℕ × String))
    → Distinct (missing_after seen spans addrs)
unfolding missing_after
missing_after-Distinct seen [] addrs = tt
missing_after-Distinct seen (s ∷ ss) addrs = ground (
  arith,
  missing_after-Distinct (insert s.trace_id seen) ss addrs,
  contains-missing_after (insert s.trace_id seen) ss addrs s.trace_id,
  contains-insert s.trace_id s.trace_id seen,
)

-- The traces that are looked up in the span log are, each once, those that a span of the page
-- belongs to and the address map does not resolve.
pub unresolved_trace_ids_lem :
    (spans : List OpenTelemetrySpan) (addrs : List (ℕ × String)) (id : ℕ)
    → Distinct (unresolved_trace_ids spans addrs)
      × (contains (unresolved_trace_ids spans addrs) id
          ≡ any (λ s. s.trace_id == id) spans && not (is_some (lookup id addrs)))
unfolding unresolved_trace_ids contains
unresolved_trace_ids_lem spans addrs id = (
  missing_after-Distinct [] spans addrs,
  ground (arith, contains-missing_after [] spans addrs id),
)

module _ (query_id : OpenTelemetrySpan → String) where
  contains-ids_after :
      (seen : List String) (spans : List OpenTelemetrySpan) (qid : String)
      → contains (ids_after query_id seen spans) qid
        ≡ any (λ s. str_eq (query_id s) qid) spans && not (str_eq qid "") && not (contains seen qid)
  unfolding ids_after contains
  contains-ids_after seen [] qid = refl
  contains-ids_after seen (s ∷ ss) qid = ground (
    arith,
    contains-ids_after seen ss qid,
    contains-ids_after (insert (query_id s) seen) ss qid,
    contains-insert (query_id s) qid seen,
    eq_iff (query_id s) "",
    eq_iff (query_id s) qid,
    eq_iff qid "",
  )

  ids_after-Distinct :
      (seen : List String) (spans : List OpenTelemetrySpan)
      → Distinct (ids_after query_id seen spans)
  unfolding ids_after
  ids_after-Distinct seen [] = tt
  ids_after-Distinct seen (s ∷ ss) = ground (
    arith,
    ids_after-Distinct seen ss,
    ids_after-Distinct (insert (query_id s) seen) ss,
    contains-ids_after (insert (query_id s) seen) ss (query_id s),
    contains-insert (query_id s) (query_id s) seen,
    eq_iff (query_id s) (query_id s),
  )

-- The enrichment asks, once each, for exactly the query IDs that the page's spans carry, and never
-- for the empty one.
pub unique_query_ids_lem :
    (spans : List OpenTelemetrySpan) (qid : String)
    → Distinct (unique_query_ids spans)
      × (contains (unique_query_ids spans) qid
          ≡ any (λ s. str_eq (attribute "clickhouse.query_id" s) qid) spans && not (str_eq qid ""))
unfolding unique_query_ids
unique_query_ids_lem spans qid =
    let ids = attribute "clickhouse.query_id" in
    (
      ids_after-Distinct ids [] spans,
      contains-ids_after ids [] spans qid
          ∙ unseen (any (λ s. str_eq (ids s) qid) spans) (str_eq qid "") (contains [] qid)
              (unfold contains in refl),
    )
  where
    unseen : (a b c : Bool) → c ≡ false → a && not b && not c ≡ a && not b
    unseen a b c h = ground arith
