-- ===== src/Tests/Processor.antt =====
-- The live path's theorems at a page of two spans of one trace, of which the root has a row.
use click_dog.Common.{
  ℕ, ◌≤◌, ◌≡◌, ◌⊎◌, ◌∙◌, ap, refl, inr, Bool, true, false, ◌&&◌, ◌||◌, String, str_eq, none, some,
  List, [], ◌∷◌, length, All, if◌then◌else◌, arith,
}
use click_dog.Common.Sets.{contains, Distinct, nat_equality, string_equality}
use click_dog.Common.Maps.{lookup, lookup_or, put}
use click_dog.Model.{SpanKey, key_equality, key_same_iff, OpenTelemetrySpan, no_result}
use click_dog.Filter.{
  Netip, QueryFilter, no_text, raw, shape_query_for_export, redact_query_for_export, redacted,
  shape_query_for_export-Private,
}
use click_dog.Processor.Addresses.{
  QueryLogMap, unique_query_ids, trace_client_addresses, unresolved_trace_ids,
}
use click_dog.Processor.Live.{Lru, Cycle, Surroundings, process_page}
use click_dog.Processor.Live.Counts.{handled, IsCounted, process_page-Counts}
use click_dog.Processor.Live.Keys.{keys, accepted_keys, process_page-Keys}
use click_dog.Processor.Live.Commit.{Delivered, AllWell, process_page-Commits}
use click_dog.Processor.Fetch.{
  LiveReader, enrichment_rows, page_addresses, drops, resolve_trace_addresses_from_span_log,
  fetch_and_process_spans,
}
use click_dog.Processor.Fetch.Whitelist.{
  Allowed, Answered, rows_of, addresses_of, lookups_failed, fetched_page,
  fetch_and_process_spans-Allowed, fetch_and_process_spans-Commits,
}
use click_dog.Tests.Rows.{row}

abbrev span : ℕ → List (String × String) → OpenTelemetrySpan
span id attributes = record {
  hostname = "h";
  trace_id = 7;
  span_id = id;
  parent_span_id = 0;
  operation_name = "query";
  kind = "SERVER";
  start_time_us = 10;
  finish_time_us = 20;
  attributes = attributes;
  string_slice_attributes = [];
}

abbrev root : OpenTelemetrySpan
root = span 1 (("clickhouse.query_id", "q") ∷ [])

abbrev child : OpenTelemetrySpan
child = span 2 []

abbrev page : List OpenTelemetrySpan
page = child ∷ root ∷ child ∷ []

abbrev rows : QueryLogMap
rows = ("q", row) ∷ []

newest : (k : SpanKey) (c : List SpanKey) → contains (k ∷ c) k ≡ true
unfolding contains
newest k c = ground (arith, key_same_iff k k)

older :
    (k j : SpanKey) (c : List SpanKey) → contains (k ∷ c) j ≡ true → (contains c j ≡ true) ⊎ (k ≡ j)
unfolding contains
older k j c h = ground (arith, key_same_iff k j)

-- A cache that forgets nothing.
instance abbrev cache : Lru (List SpanKey)
cache = record {
  holds = λ c k. contains c k;
  add = λ k c. k ∷ c;
  holds-add = λ k c. newest k c;
  add-holds = λ k j c h. older k j c h;
}

-- An exporter that accepts every span.
abbrev env : Surroundings
env = record {
  export_spans = λ n spans. (record no_result { accepted = keys spans }, none);
  interrupted = λ n. none;
}

abbrev lets_all : OpenTelemetrySpan → Bool
lets_all s = false

abbrev as_is : OpenTelemetrySpan → OpenTelemetrySpan
as_is s = s

abbrev cycle : Cycle (List SpanKey)
cycle = process_page lets_all as_is env 2 false [] page

process_page-Counts_example :
    (handled cycle.page ≤ 3) × (cycle.error ≡ none → handled cycle.page ≡ 3) × IsCounted cycle.page
process_page-Counts_example = process_page-Counts lets_all as_is env 2 false [] page

process_page-Keys_example :
    Distinct (keys cycle.page.sent)
    × ((k : SpanKey)
        → contains cycle.page.seen_spans k ≡ true
        → (contains [] k || accepted_keys cycle.page.observed k) ≡ true)
process_page-Keys_example = process_page-Keys lets_all as_is env 2 false [] page (λ s. refl)

process_page-Commits_example :
    (cycle.committed ≡ true
      → (false ≡ false)
        × (cycle.error ≡ none)
        × Delivered cycle.page.observed
        × (handled cycle.page ≡ 3))
    × (false ≡ false → AllWell env → cycle.committed ≡ true)
process_page-Commits_example = process_page-Commits lets_all as_is env 2 false [] page

abbrev unknown : List (ℕ × String)
unknown = []

-- Only the loopback address is whitelisted.
abbrev loopback : Netip
loopback = record {
  parse_addr = λ text. if str_eq text "::1" then some 1 else none;
  unmap = λ addr. addr;
}

abbrev strict : QueryFilter
strict = record {
  query_text_mode = no_text;
  operation_patterns = [];
  query_blacklist_patterns = [];
  redaction_rules = [];
  whitelist_ips = 1 ∷ [];
  whitelist_cidrs = [];
  whitelist_users = [];
  blacklist_users = [];
  has_operation_whitelist = false;
  has_ip_whitelist = true;
  has_user_whitelist = false;
  has_user_blacklist = false;
}

not_raw : no_text ≡ raw → ⊥
not_raw h = ground arith

shape_query_for_export-Private_example :
    (((shape_query_for_export strict row).query ≡ "")
      ⊎ ((no_text ≡ redacted)
          × ((redact_query_for_export strict "SELECT 1").1 ≡ true)
          × ((shape_query_for_export strict row).query
              ≡ (redact_query_for_export strict "SELECT 1").0)))
    × (((shape_query_for_export strict row).normalized_query ≡ "SELECT ?")
        ⊎ ((no_text ≡ no_text) × ((shape_query_for_export strict row).normalized_query ≡ "")))
    × (shape_query_for_export strict row ≡ record row {
      query = (shape_query_for_export strict row).query;
      normalized_query = (shape_query_for_export strict row).normalized_query;
    })
shape_query_for_export-Private_example = shape_query_for_export-Private strict row not_raw

abbrev reader : LiveReader
reader = record {
  fetch_live_spans = inr page;
  fetch_query_log_by_query_ids = λ ids. inr rows;
  fetch_trace_query_ids = λ ids. inr [];
}

abbrev unenriched : QueryLogMap → OpenTelemetrySpan → OpenTelemetrySpan
unenriched _ s = s

abbrev whole : Cycle (List SpanKey)
whole = fetch_and_process_spans loopback strict unenriched reader env true 2 []

abbrev looked_up : QueryLogMap
looked_up = (enrichment_rows reader true page).0

fetch_and_process_spans-Allowed_example :
    All
      (Allowed loopback strict looked_up (page_addresses reader strict looked_up page).0 as_is)
      whole.page.sent
fetch_and_process_spans-Allowed_example =
    fetch_and_process_spans-Allowed loopback strict unenriched reader env true 2 [] page refl refl

-- A page that also holds a span of a trace whose root is outside it.
abbrev split : List OpenTelemetrySpan
split = record child { trace_id = 9 } ∷ page

abbrev split_reader : LiveReader
split_reader = record {
  fetch_live_spans = inr split;
  fetch_query_log_by_query_ids = λ ids. inr rows;
  fetch_trace_query_ids = λ ids. inr ((9, "q" ∷ []) ∷ []);
}

abbrev split_cycle : Cycle (List SpanKey)
split_cycle = fetch_and_process_spans loopback strict unenriched split_reader env true 2 []

well : AllWell env
well = (λ n ss. refl, λ n. refl)

answers : lookups_failed split_reader strict true split ≡ false
unfolding enrichment_rows page_addresses resolve_trace_addresses_from_span_log unique_query_ids
    trace_client_addresses unresolved_trace_ids lookup_or contains lookup put
answers = refl

committed : split_cycle.committed ≡ true
committed =
    ap (λ c. c.committed)
      (fetched_page loopback strict unenriched split_reader env true 2 [] split refl)
    ∙ (process_page-Commits
          (drops loopback strict (rows_of split_reader true split)
            (addresses_of split_reader strict true split))
          as_is env 2 (lookups_failed split_reader strict true split && true) [] split).1
        (rw answers refl) well

fetch_and_process_spans-Commits_example :
    (spans : List OpenTelemetrySpan) × (split_reader.fetch_live_spans ≡ inr spans)
    × (Answered split_reader strict true spans ⊎ ((true ≡ false) × (false ≡ false)))
    × (split_cycle.error ≡ none)
    × Delivered split_cycle.page.observed
    × (handled split_cycle.page ≡ length spans)
fetch_and_process_spans-Commits_example =
    fetch_and_process_spans-Commits loopback strict unenriched split_reader env true 2 [] committed
