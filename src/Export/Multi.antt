-- ===== src/Export/Multi.antt =====
-- internal/export/multi.go: the fan-out. The sinks run concurrently and are joined before their
-- outcomes are read, so each is a function from the call's input to its outcome, and the model
-- reduces the outcomes in configured order, as the code does.
pub mod Reduce
pub mod Spans
pub mod Queries
use Prim.Native.String.{◌++◌ as ◌⧺◌}
use click_dog.Common.{
  ℕ, ◌+◌, Bool, ◌&&◌, ◌||◌, not, String, Option, none, some, List, [], ◌∷◌, ◌++◌, length, is_empty,
  if◌then◌else◌,
}
use click_dog.Common.Decimal.{decimal}
use click_dog.Common.Sets.{contains, insert_all, keep}
use click_dog.Model.{
  Error, Errors, wrap, join, end, named, SpanKey, key_equality, OpenTelemetrySpan, QueryLog,
  ExportSinkStatus, ExportResult, no_result,
}

-- A policy that is neither of the two is replaced by the constructor of the exporter.
pub data MultiExporterPolicy : Type 0 where
  all_required any_success : MultiExporterPolicy

abbrev pub Outcome : Type 0
Outcome = ExportResult × Option Error

pub record SpanExporter : Type 0 where
  pub export_spans : List OpenTelemetrySpan → Outcome
  pub export_query : QueryLog → Outcome
  pub close : Option Error

-- `exporters` and `names` are slices of one length, kept here as one list of pairs.
pub record MultiExporter : Type 0 where
  pub sinks : List (String × SpanExporter)
  pub span_policy : MultiExporterPolicy

-- The names from position `i` on: those given, then fallback labels; extras are ignored.
normalize_exporter_names : ℕ → List SpanExporter → List String → List (String × SpanExporter)
normalize_exporter_names i [] names = []
normalize_exporter_names i (e ∷ es) [] =
    ("exporter_" ⧺ decimal (i + 1), e) ∷ normalize_exporter_names (i + 1) es []
normalize_exporter_names i (e ∷ es) (n ∷ ns) = (n, e) ∷ normalize_exporter_names (i + 1) es ns

-- `policy` is what the options set, `none` for an invalid value.
unfoldable pub new_multi_exporter :
    List SpanExporter → List String → Option MultiExporterPolicy → MultiExporter
unfolding normalize_exporter_names decimal
new_multi_exporter exporters names policy = record {
  sinks = normalize_exporter_names 0 exporters names;
  span_policy = elim policy [ none ↦ all_required | some p ↦ p ];
}

-- The variables of the loop over the outcomes. `intersection` is nil until a sink succeeds. The
-- union is kept under either policy and read under `any_success` only.
pub record Reduction : Type 0 where
  pub errors : List (String × Error)
  pub statuses : List ExportSinkStatus
  pub intersection : Option (List SpanKey)
  pub union : List SpanKey

abbrev pub status : String → ℕ → Outcome → ExportSinkStatus
status name sent o = record { name = name; sent = sent; accepted = o.0.total_accepted; error = o.1 }

abbrev pub narrow : Option (List SpanKey) → List SpanKey → Option (List SpanKey)
narrow none keys = some keys
narrow (some old) keys = some (keep (contains keys) old)

-- One round of the loop: a failed sink is recorded and skipped.
unfoldable pub reduce_one : String → ℕ → Outcome → Reduction → Reduction
reduce_one name sent (result, some e) r = record r {
  errors = r.errors ++ (name, e) ∷ [];
  statuses = r.statuses ++ status name sent (result, some e) ∷ [];
}
reduce_one name sent (result, none) r = record {
  errors = r.errors;
  statuses = r.statuses ++ status name sent (result, none) ∷ [];
  intersection = narrow r.intersection (insert_all result.accepted []);
  union = insert_all result.accepted r.union;
}

unfoldable pub reduce : ℕ → List (String × Outcome) → Reduction → Reduction
unfolding reduce_one
reduce sent [] r = r
reduce sent ((name, o) ∷ os) r = reduce sent os (reduce_one name sent o r)

abbrev pub fresh : Reduction
fresh = record { errors = []; statuses = []; intersection = none; union = [] }

abbrev pub joined : List (String × Error) → Errors
joined [] = end
joined ((n, e) ∷ es) = named n e (joined es)

-- The text of an error leaves out the counts of sinks.
abbrev pub span_failed : String
span_failed = "multi-exporter span export failed"

abbrev pub failure : String → List (String × Error) → Error
failure message es = wrap message (join (joined es))

abbrev pub set_of : Option (List SpanKey) → List SpanKey
set_of none = []
set_of (some s) = s

-- What the function returns after the loop. `spanKeysFromSet` lists a set in some order.
conclude : MultiExporterPolicy → ℕ → Reduction → Outcome
conclude any_success sent r =
    if not (is_empty r.errors) && is_empty r.union
    then (
      record no_result { total_sent = sent; sinks = r.statuses },
      some (failure span_failed r.errors),
    )
    else (
      record {
        accepted = r.union;
        total_sent = sent;
        total_accepted = length r.union;
        sinks = r.statuses;
      },
      none,
    )
conclude all_required sent r =
    if not (is_empty r.errors)
    then (
      record no_result { total_sent = sent; sinks = r.statuses },
      some (failure span_failed r.errors),
    )
    else (
      record {
        accepted = set_of r.intersection;
        total_sent = sent;
        total_accepted = length (set_of r.intersection);
        sinks = r.statuses;
      },
      none,
    )

-- Every sink is called with the same spans.
abbrev pub span_outcomes :
    List OpenTelemetrySpan → List (String × SpanExporter) → List (String × Outcome)
span_outcomes spans [] = []
span_outcomes spans ((name, e) ∷ es) = (name, e.export_spans spans) ∷ span_outcomes spans es

unfoldable pub export_spans : MultiExporter → List OpenTelemetrySpan → Outcome
unfolding reduce conclude
export_spans m spans =
    if is_empty spans || is_empty m.sinks
    then (no_result, none)
    else conclude m.span_policy (length spans)
        (reduce (length spans) (span_outcomes spans m.sinks) fresh)

abbrev pub query_outcomes : QueryLog → List (String × SpanExporter) → List (String × Outcome)
query_outcomes log [] = []
query_outcomes log ((name, e) ∷ es) = (name, e.export_query log) ∷ query_outcomes log es

-- `ExportQuery`: the loop keeps the errors and the statuses only.
unfoldable pub export_query : MultiExporter → QueryLog → Outcome
unfolding reduce
export_query m log =
    if is_empty m.sinks
    then (no_result, none)
    else let r = reduce 1 (query_outcomes log m.sinks) fresh in
      if is_empty r.errors
      then (record no_result { total_sent = 1; total_accepted = 1; sinks = r.statuses }, none)
      else (
        record no_result { total_sent = 1; sinks = r.statuses },
        some (failure "multi-exporter query export failed" r.errors),
      )

close_errors : List (String × SpanExporter) → List (String × Error)
close_errors [] = []
close_errors ((name, e) ∷ es) =
    let rest = close_errors es in elim e.close [ none ↦ rest | some err ↦ (name, err) ∷ rest ]

unfoldable pub close_all : MultiExporter → Option Error
unfolding close_errors
close_all m =
    let errors = close_errors m.sinks in
    if is_empty errors then none else some (failure "errors closing exporters" errors)
