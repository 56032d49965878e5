-- ===== src/Processor/Addresses.antt =====
-- internal/processor/enrichment.go: which user and which client address a span is judged by.
pub mod Traces
use click_dog.Common.{
  ℕ, Bool, true, false, ◌&&◌, ◌||◌, not, String, str_eq, Option, none, some, List, [], ◌∷◌, is_some,
  is_empty, if◌then◌else◌,
}
use click_dog.Common.Sets.{contains, insert, nat_equality, string_equality}
use click_dog.Common.Maps.{lookup, lookup_or, put}
use click_dog.Model.{OpenTelemetrySpan, QueryLog}
use click_dog.Filter.{QueryFilter, has_user_filter, should_filter_user}

abbrev pub QueryLogMap : Type 0
QueryLogMap = List (String × QueryLog)

abbrev pub attribute : String → OpenTelemetrySpan → String
attribute key span = lookup_or "" key span.attributes

unfoldable pub originating_address : QueryLog → String
originating_address ql =
    if str_eq ql.initial_address ""
      || str_eq ql.initial_address "::"
      || str_eq ql.initial_address "0.0.0.0"
      || str_eq ql.initial_address "::ffff:0.0.0.0"
    then ql.client_address
    else ql.initial_address

-- The span's row, by its query ID if it has one.
abbrev row_of : QueryLogMap → OpenTelemetrySpan → Option QueryLog
row_of rows span =
    let qid = attribute "clickhouse.query_id" span in
    if str_eq qid "" then none else lookup qid rows

unfoldable pub query_log_client_address : QueryLogMap → OpenTelemetrySpan → String
unfolding originating_address
query_log_client_address rows span = elim (row_of rows span) [
  | none ↦ ""
  | some ql ↦ originating_address ql
]

unfoldable pub resolve_span_user : QueryLogMap → OpenTelemetrySpan → String
resolve_span_user rows span =
    let u = attribute "clickhouse.user" span in
    if not (str_eq u "") then u else elim (row_of rows span) [ none ↦ "" | some ql ↦ ql.user ]

unfoldable pub should_filter_span_by_user : QueryFilter → QueryLogMap → OpenTelemetrySpan → Bool
unfolding should_filter_user resolve_span_user
should_filter_span_by_user f rows span =
    has_user_filter f && should_filter_user f (resolve_span_user rows span)

-- One of the two passes: a trace gets the address of its first span that has one.
pub fill :
    (OpenTelemetrySpan → String) → List OpenTelemetrySpan → List (ℕ × String) → List (ℕ × String)
fill address [] addrs = addrs
fill address (s ∷ ss) addrs =
    let found = address s in
    fill address ss (
      if is_some (lookup s.trace_id addrs) || str_eq found ""
      then addrs
      else put s.trace_id found addrs)

unfoldable pub trace_client_addresses : QueryLogMap → List OpenTelemetrySpan → List (ℕ × String)
unfolding fill query_log_client_address
trace_client_addresses rows spans =
    fill (attribute "client.address") spans (fill (query_log_client_address rows) spans [])

pub missing_after : List ℕ → List OpenTelemetrySpan → List (ℕ × String) → List ℕ
missing_after seen [] addrs = []
missing_after seen (s ∷ ss) addrs =
    let rest = missing_after (insert s.trace_id seen) ss addrs in
    if contains seen s.trace_id || is_some (lookup s.trace_id addrs)
    then rest
    else s.trace_id ∷ rest

unfoldable pub unresolved_trace_ids : List OpenTelemetrySpan → List (ℕ × String) → List ℕ
unfolding missing_after
unresolved_trace_ids spans addrs = missing_after [] spans addrs

unfoldable pub resolve_span_client_address :
    QueryLogMap → List (ℕ × String) → OpenTelemetrySpan → String
unfolding query_log_client_address
resolve_span_client_address rows addrs span = elim (lookup span.trace_id addrs) [
  | some addr ↦ addr
  | none ↦
      let addr = query_log_client_address rows span in
      if not (str_eq addr "") then addr else attribute "client.address" span
]

-- `UniqueQueryIDs`, from the IDs seen so far on.
pub ids_after : (OpenTelemetrySpan → String) → List String → List OpenTelemetrySpan → List String
ids_after query_id seen [] = []
ids_after query_id seen (s ∷ ss) =
    let qid = query_id s in
    let rest = ids_after query_id (if str_eq qid "" then seen else insert qid seen) ss in
    if str_eq qid "" || contains seen qid then rest else qid ∷ rest

unfoldable pub unique_query_ids : List OpenTelemetrySpan → List String
unfolding ids_after
unique_query_ids spans = ids_after (attribute "clickhouse.query_id") [] spans
