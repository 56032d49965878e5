-- ===== src/Processor/Fetch.antt =====
-- internal/processor/live.go, fetchAndProcessSpans from the fetch on, and internal/processor/
-- enrichment.go, ResolveTraceAddressesFromSpanLog. The reader is taken by what it answers: `inl` is
-- an error. The order in which Go ranges over a map is the order of the list here.
pub mod Whitelist
use click_dog.Common.{
  ℕ, suc, Bool, true, false, ◌&&◌, ◌||◌, not, String, str_eq, ◌⊎◌, inl, inr, Option, none, some,
  List, [], ◌∷◌, ◌++◌, is_empty, if◌then◌else◌,
}
use click_dog.Common.Sets.{contains, insert, nat_equality, string_equality}
use click_dog.Common.Maps.{lookup, lookup_or, put}
use click_dog.Model.{Error, OpenTelemetrySpan, QueryLog}
use click_dog.Filter.{Netip, QueryFilter, should_filter}
use click_dog.Processor.Addresses.{
  QueryLogMap, attribute, originating_address, should_filter_span_by_user, trace_client_addresses,
  unresolved_trace_ids, resolve_span_client_address, unique_query_ids,
}
use click_dog.Processor.Live.{Lru, Cycle, Surroundings, new_page, process_page}

pub record LiveReader : Type 0 where
  pub fetch_live_spans : Error ⊎ List OpenTelemetrySpan
  pub fetch_query_log_by_query_ids : List String → Error ⊎ QueryLogMap
  pub fetch_trace_query_ids : List ℕ → Error ⊎ List (ℕ × List String)

-- The query IDs of all traces, each once.
pub distinct_ids : List String → List String → List String
distinct_ids seen [] = []
distinct_ids seen (q ∷ qs) =
    let rest = distinct_ids (insert q seen) qs in if contains seen q then rest else q ∷ rest

pub all_ids : List (ℕ × List String) → List String
all_ids [] = []
all_ids ((id, qids) ∷ more) = qids ++ all_ids more

-- The originating address of the first row found that names one.
first_row_address : QueryLogMap → List String → Option String
first_row_address rows [] = none
first_row_address rows (q ∷ qs) = elim (lookup q rows) [
  | none ↦ first_row_address rows qs
  | some ql ↦
      let addr = originating_address ql in
      if str_eq addr "" then first_row_address rows qs else some addr
]

resolve_each : List (ℕ × List String) → QueryLogMap → List ℕ → List (ℕ × String)
resolve_each by_trace rows [] = []
resolve_each by_trace rows (id ∷ ids) =
    let rest = resolve_each by_trace rows ids in
    elim (first_row_address rows (lookup_or [] id by_trace)) [
      | none ↦ rest
      | some addr ↦ put id addr rest
    ]

unfoldable pub resolve_trace_addresses_from_span_log :
    LiveReader → List ℕ → Error ⊎ List (ℕ × String)
unfolding resolve_each first_row_address distinct_ids all_ids
resolve_trace_addresses_from_span_log reader ids = elim (reader.fetch_trace_query_ids ids) [
  | inl e ↦ inl e
  | inr by_trace ↦
      let qids = distinct_ids [] (all_ids by_trace) in
      if is_empty qids then inr [] else elim (reader.fetch_query_log_by_query_ids qids) [
        | inl e ↦ inl e
        | inr rows ↦ inr (resolve_each by_trace rows ids)
      ]
]

-- `for id, addr := range resolved { traceAddrs[id] = addr }`
put_all : List (ℕ × String) → List (ℕ × String) → List (ℕ × String)
put_all [] addrs = addrs
put_all ((id, addr) ∷ more) addrs = put_all more (put id addr addrs)

-- The rows for the page's query IDs, and whether the lookup failed.
unfoldable pub enrichment_rows : LiveReader → Bool → List OpenTelemetrySpan → QueryLogMap × Bool
enrichment_rows reader enrich_from_query_log spans =
    let ids = unique_query_ids spans in
    if not (enrich_from_query_log && not (is_empty spans)) || is_empty ids
    then ([], false)
    else elim (reader.fetch_query_log_by_query_ids ids) [
      | inl e ↦ ([], true)
      | inr rows ↦ (rows, false)
    ]

-- The client addresses of the page's traces, and whether the lookup failed.
unfoldable pub page_addresses :
    LiveReader → QueryFilter → QueryLogMap → List OpenTelemetrySpan → List (ℕ × String) × Bool
unfolding put_all
page_addresses reader f rows spans =
    if not f.has_ip_whitelist
    then ([], false)
    else let addrs = trace_client_addresses rows spans in
      let missing = unresolved_trace_ids spans addrs in
      if is_empty missing
      then (addrs, false)
      else elim (resolve_trace_addresses_from_span_log reader missing) [
        | inl e ↦ (addrs, true)
        | inr found ↦ (put_all found addrs, false)
      ]

-- Both filters, in the order of the first pass: the client address is asked for under an IP
-- whitelist only.
unfoldable pub drops :
    Netip → QueryFilter → QueryLogMap → List (ℕ × String) → OpenTelemetrySpan → Bool
drops net f rows addrs span =
    let client = if f.has_ip_whitelist then resolve_span_client_address rows addrs span else "" in
    should_filter net f span.operation_name (attribute "db.statement" span) client
    || should_filter_span_by_user f rows span

-- `enrich` is what ExtractLogComment and EnrichSpanFromQueryLog make of a span.
module _ {C : Type 0} ⦃lru : Lru C⦄ (net : Netip) (f : QueryFilter)
    (enrich : QueryLogMap → OpenTelemetrySpan → OpenTelemetrySpan) where
  unfoldable pub fetch_and_process_spans : LiveReader → Surroundings → Bool → ℕ → C → Cycle C
  unfolding enrichment_rows page_addresses drops
  fetch_and_process_spans reader env enrich_from_query_log size cache =
      elim reader.fetch_live_spans [
        | inl e ↦ record {
          page = new_page cache;
          error = some e;
          heartbeat = true;
          committed = false;
        }
        | inr spans ↦
            let looked = enrichment_rows reader enrich_from_query_log spans in
            let resolved = page_addresses reader f looked.0 spans in
            process_page (drops net f looked.0 resolved.0) (enrich looked.0) env size
              ((looked.1 || resolved.1) && (f.has_ip_whitelist || f.has_user_whitelist)) cache spans
      ]
