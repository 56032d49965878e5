-- ===== src/Processor/Fetch/Whitelist.antt =====
-- A strict whitelist over a whole cycle: what is sent, and when the reader moves on.
use click_dog.Common.{
  ℕ, Bool, true, false, ◌&&◌, ◌||◌, String, ◌≡◌, ◌⊎◌, ◌≢◌, refl, sym, ap, ◌∙◌, inl, inr, none, List,
  [], ◌∷◌, length, is_empty, Bool-cases, All, arith,
}
use click_dog.Model.{Error, OpenTelemetrySpan}
use click_dog.Filter.{Netip, QueryFilter, should_filter, is_ip_whitelisted}
use click_dog.Processor.Addresses.{
  QueryLogMap, should_filter_span_by_user, resolve_span_client_address, unique_query_ids,
  trace_client_addresses, unresolved_trace_ids,
}
use click_dog.Processor.Live.{Lru, Surroundings, process_page}
use click_dog.Processor.Live.Counts.{handled}
use click_dog.Processor.Live.Commit.{Delivered, Passed, process_page-Passed, process_page-Commits}
use click_dog.Processor.Fetch.{
  LiveReader, distinct_ids, all_ids, enrichment_rows, page_addresses, drops,
  resolve_trace_addresses_from_span_log, fetch_and_process_spans,
}

-- The page's rows and the traces' addresses, as the cycle looks them up.
abbrev pub rows_of : LiveReader → Bool → List OpenTelemetrySpan → QueryLogMap
rows_of reader on spans = (enrichment_rows reader on spans).0

abbrev pub addresses_of :
    LiveReader → QueryFilter → Bool → List OpenTelemetrySpan → List (ℕ × String)
addresses_of reader f on spans = (page_addresses reader f (rows_of reader on spans) spans).0

abbrev pub lookups_failed : LiveReader → QueryFilter → Bool → List OpenTelemetrySpan → Bool
lookups_failed reader f on spans =
    (enrichment_rows reader on spans).1
    || (page_addresses reader f (rows_of reader on spans) spans).1

-- A span sent under an IP whitelist: its client's address, as resolved in the cycle, is allowed.
abbrev pub Allowed :
    Netip
    → QueryFilter
    → QueryLogMap
    → List (ℕ × String)
    → (OpenTelemetrySpan → OpenTelemetrySpan)
    → OpenTelemetrySpan
    → Type 0
Allowed net f rows addrs enrich t =
    (s : OpenTelemetrySpan) × (t ≡ enrich s)
    × (is_ip_whitelisted net f (resolve_span_client_address rows addrs s) ≡ true)
    × (should_filter_span_by_user f rows s ≡ false)

admitted :
    (net : Netip) (f : QueryFilter) (rows : QueryLogMap) (addrs : List (ℕ × String))
    (s : OpenTelemetrySpan)
    → f.has_ip_whitelist ≡ true
    → drops net f rows addrs s ≡ false
    → (is_ip_whitelisted net f (resolve_span_client_address rows addrs s) ≡ true)
      × (should_filter_span_by_user f rows s ≡ false)
unfolding drops should_filter
admitted net f rows addrs s on h = ground arith

drops-Allowed :
    (net : Netip) (f : QueryFilter) (rows : QueryLogMap) (addrs : List (ℕ × String))
    (enrich : OpenTelemetrySpan → OpenTelemetrySpan)
    → f.has_ip_whitelist ≡ true
    → (ts : List OpenTelemetrySpan) → All (Passed (drops net f rows addrs) enrich) ts
    → All (Allowed net f rows addrs enrich) ts
drops-Allowed net f rows addrs enrich on [] p = tt
drops-Allowed net f rows addrs enrich on (t ∷ ts) ((s, made, passes), p) =
    let ok = admitted net f rows addrs s on passes in
    ((s, made, ok.0, ok.1), drops-Allowed net f rows addrs enrich on ts p)

pub fetched_page :
    {C : Type 0} ⦃lru : Lru C⦄ (net : Netip) (f : QueryFilter)
    (enrich : QueryLogMap → OpenTelemetrySpan → OpenTelemetrySpan) (reader : LiveReader)
    (env : Surroundings) (on : Bool) (size : ℕ) (cache : C) (spans : List OpenTelemetrySpan)
    → reader.fetch_live_spans ≡ inr spans
    → fetch_and_process_spans net f enrich reader env on size cache
      ≡ process_page
          (drops net f (rows_of reader on spans) (addresses_of reader f on spans))
          (enrich (rows_of reader on spans))
          env
          size
          (lookups_failed reader f on spans && (f.has_ip_whitelist || f.has_user_whitelist))
          cache
          spans
unfolding fetch_and_process_spans resolve_trace_addresses_from_span_log
fetched_page net f enrich reader env on size cache spans fetched = rw fetched refl

-- Under an IP whitelist, a span is sent only if the address resolved for its trace is whitelisted
-- and the user filter admits it, whatever lookups fail: a trace with no address is not sent unless
-- the empty address is whitelisted.
pub fetch_and_process_spans-Allowed :
    {C : Type 0} ⦃lru : Lru C⦄ (net : Netip) (f : QueryFilter)
    (enrich : QueryLogMap → OpenTelemetrySpan → OpenTelemetrySpan) (reader : LiveReader)
    (env : Surroundings) (on : Bool) (size : ℕ) (cache : C) (spans : List OpenTelemetrySpan)
    → f.has_ip_whitelist ≡ true
    → reader.fetch_live_spans ≡ inr spans
    → All
        (Allowed net f
          (rows_of reader on spans)
          (addresses_of reader f on spans)
          (enrich (rows_of reader on spans)))
        (fetch_and_process_spans net f enrich reader env on size cache).page.sent
fetch_and_process_spans-Allowed net f enrich reader env on size cache spans listed fetched =
    rw (fetched_page net f enrich reader env on size cache spans fetched) (
      drops-Allowed net f (rows_of reader on spans) (addresses_of reader f on spans)
        (enrich (rows_of reader on spans)) listed _
        (process_page-Passed
          (drops net f (rows_of reader on spans) (addresses_of reader f on spans))
          (enrich (rows_of reader on spans)) env size
          (lookups_failed reader f on spans && (f.has_ip_whitelist || f.has_user_whitelist)) cache
          spans))

-- The lookup of the page's rows was answered, if there was one: query_log enrichment is on and the
-- page names a query.
abbrev pub RowsAnswered : LiveReader → Bool → List OpenTelemetrySpan → Type 0
RowsAnswered reader on spans =
    on ≡ true
    → is_empty (unique_query_ids spans) ≡ false
    → (found : QueryLogMap) × (reader.fetch_query_log_by_query_ids (unique_query_ids spans)
        ≡ inr found)

-- Both lookups for the traces `ids` were answered: their query IDs, and the rows of these, if any.
abbrev pub TracesAnswered : LiveReader → List ℕ → Type 0
TracesAnswered reader ids =
    (by_trace : List (ℕ × List String)) × (reader.fetch_trace_query_ids ids ≡ inr by_trace)
    × (is_empty (distinct_ids [] (all_ids by_trace)) ≡ false
        → (found : QueryLogMap) × (reader.fetch_query_log_by_query_ids
              (distinct_ids [] (all_ids by_trace))
            ≡ inr found))

-- The traces that no span of the page gave an address.
abbrev pub missing_of : LiveReader → Bool → List OpenTelemetrySpan → List ℕ
missing_of reader on spans =
    unresolved_trace_ids spans (trace_client_addresses (rows_of reader on spans) spans)

-- Whatever the cycle asked the reader for after the page was answered without an error.
abbrev pub Answered : LiveReader → QueryFilter → Bool → List OpenTelemetrySpan → Type 0
Answered reader f on spans =
    RowsAnswered reader on spans
    × (f.has_ip_whitelist ≡ true
        → is_empty (missing_of reader on spans) ≡ false
        → TracesAnswered reader (missing_of reader on spans))

answered :
    {A : Type 0} (answer : Error ⊎ A) → ((e : Error) → answer ≢ inl e) → (a : A) × (answer ≡ inr a)
answered (inl e) h = absurd (h e refl)
answered (inr a) h = (a, refl)

some_span :
    (spans : List OpenTelemetrySpan)
    → is_empty (unique_query_ids spans) ≡ false
    → is_empty spans ≡ false
unfolding unique_query_ids
some_span [] h = h
some_span (s ∷ ss) h = refl

rows_answered :
    (reader : LiveReader) (on : Bool) (spans : List OpenTelemetrySpan)
    → (enrichment_rows reader on spans).1 ≡ false
    → RowsAnswered reader on spans
unfolding enrichment_rows
rows_answered reader on spans h enriched named =
    answered (reader.fetch_query_log_by_query_ids (unique_query_ids spans)) fails
  where
    asked : is_empty spans ≡ false
    asked = some_span spans named

    withheld :
        (e : Error)
        → reader.fetch_query_log_by_query_ids (unique_query_ids spans) ≡ inl e
        → (enrichment_rows reader on spans).1 ≡ true
    withheld e failed = rw (enriched, asked, named, failed) refl

    fails : (e : Error) → reader.fetch_query_log_by_query_ids (unique_query_ids spans) ≢ inl e
    fails e failed = cc (sym h ∙ withheld e failed)

traces_answered :
    (reader : LiveReader) (ids : List ℕ)
    → ((e : Error) → resolve_trace_addresses_from_span_log reader ids ≢ inl e)
    → TracesAnswered reader ids
unfolding resolve_trace_addresses_from_span_log
traces_answered reader ids h =
    let (by_trace, known) =
      answered (reader.fetch_trace_query_ids ids)
        (λ e failed. h e (rw (resolve_trace_addresses_from_span_log, failed) refl)) in
    (
      by_trace,
      known,
      λ named.
          answered _ (λ e failed.
            h e (rw (resolve_trace_addresses_from_span_log, known, named, failed) refl)),
    )

addresses_answered :
    (reader : LiveReader) (f : QueryFilter) (rows : QueryLogMap) (spans : List OpenTelemetrySpan)
    → (page_addresses reader f rows spans).1 ≡ false
    → f.has_ip_whitelist ≡ true
    → is_empty (unresolved_trace_ids spans (trace_client_addresses rows spans)) ≡ false
    → TracesAnswered reader (unresolved_trace_ids spans (trace_client_addresses rows spans))
unfolding page_addresses
addresses_answered reader f rows spans h listed missing =
    traces_answered reader _ (λ e failed. cc (sym h ∙ withheld e failed))
  where
    withheld :
        (e : Error)
        → resolve_trace_addresses_from_span_log reader
            (unresolved_trace_ids spans (trace_client_addresses rows spans))
          ≡ inl e
        → (page_addresses reader f rows spans).1 ≡ true
    withheld e failed = rw (listed, missing, failed) refl

not_withheld :
    (reader : LiveReader) (f : QueryFilter) (on : Bool) (spans : List OpenTelemetrySpan)
    → lookups_failed reader f on spans && (f.has_ip_whitelist || f.has_user_whitelist) ≡ false
    → Answered reader f on spans ⊎ ((f.has_ip_whitelist ≡ false) × (f.has_user_whitelist ≡ false))
not_withheld reader f on spans h = elim (Bool-cases (lookups_failed reader f on spans)) [
  | inl failed ↦ inr (ground arith)
  | inr fine ↦ inl (
    rows_answered reader on spans (ground arith),
    addresses_answered reader f (rows_of reader on spans) spans (ground arith),
  )
]

-- The reader's walk moves past a page only if the page was fetched, the cycle returned no error,
-- every call to the exporter returned without one, and every span of the page was filtered, a
-- duplicate or sent; and under an IP or a user whitelist, only if the reader answered, without an
-- error, each lookup that the cycle needed: of the rows of the page's queries, and of the query IDs
-- and the rows of the traces without an address.
pub fetch_and_process_spans-Commits :
    {C : Type 0} ⦃lru : Lru C⦄ (net : Netip) (f : QueryFilter)
    (enrich : QueryLogMap → OpenTelemetrySpan → OpenTelemetrySpan) (reader : LiveReader)
    (env : Surroundings) (on : Bool) (size : ℕ) (cache : C)
    → (fetch_and_process_spans net f enrich reader env on size cache).committed ≡ true
    → (spans : List OpenTelemetrySpan) × (reader.fetch_live_spans ≡ inr spans)
      × (Answered reader f on spans
          ⊎ ((f.has_ip_whitelist ≡ false) × (f.has_user_whitelist ≡ false)))
      × ((fetch_and_process_spans net f enrich reader env on size cache).error ≡ none)
      × Delivered (fetch_and_process_spans net f enrich reader env on size cache).page.observed
      × (handled (fetch_and_process_spans net f enrich reader env on size cache).page
          ≡ length spans)
unfolding fetch_and_process_spans
fetch_and_process_spans-Commits net f enrich reader env on size cache done =
    go reader.fetch_live_spans refl
  where
    go :
        (fetched : Error ⊎ List OpenTelemetrySpan)
        → reader.fetch_live_spans ≡ fetched
        → (spans : List OpenTelemetrySpan) × (reader.fetch_live_spans ≡ inr spans)
          × (Answered reader f on spans
              ⊎ ((f.has_ip_whitelist ≡ false) × (f.has_user_whitelist ≡ false)))
          × ((fetch_and_process_spans net f enrich reader env on size cache).error ≡ none)
          × Delivered (fetch_and_process_spans net f enrich reader env on size cache).page.observed
          × (handled (fetch_and_process_spans net f enrich reader env on size cache).page
              ≡ length spans)
    go (inl e) h = absurd (ground arith)
    go (inr spans) h =
        let page = fetched_page net f enrich reader env on size cache spans h in
        let facts =
          (process_page-Commits
              (drops net f (rows_of reader on spans) (addresses_of reader f on spans))
              (enrich (rows_of reader on spans)) env size
              (lookups_failed reader f on spans && (f.has_ip_whitelist || f.has_user_whitelist))
              cache spans).0
            (sym (ap (λ c. c.committed) page) ∙ done) in
        rw page (spans, h, not_withheld reader f on spans facts.0, facts.1, facts.2, facts.3)
