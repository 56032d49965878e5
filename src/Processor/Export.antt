-- ===== src/Processor/Export.antt =====
-- internal/processor/export_deadline.go: the deadline around an export of spans or of a query_log row,
-- behind the shaping of its text.
pub mod Private
use click_dog.Common.{ℕ, zero, suc, Option, none, some, List, if◌then◌else◌}
use click_dog.Model.{
  Error, external, wrap, deadline_exceeded, is_error, QueryLog, OpenTelemetrySpan, no_result,
}
use click_dog.Family.Tokens.{Unicode}
use click_dog.Filter.{QueryFilter, shape_query_for_export}
use click_dog.Filter.Shape.{UrlText, shape_spans_for_export}
use click_dog.Export.Multi.{Outcome}

unfoldable pub wrap_export_deadline_error : Error → Error
wrap_export_deadline_error e =
    if is_error deadline_exceeded e then wrap "export deadline exceeded" e else e

-- `timeout` is `cfg.Monitor.ExportTimeoutS`, where 0 stands for no deadline.
unfoldable pub export_query_with_deadline :
    ℕ → (QueryLog → Outcome) → QueryFilter → QueryLog → Outcome
unfolding wrap_export_deadline_error
export_query_with_deadline zero export_query f query = export_query (shape_query_for_export f query)
export_query_with_deadline (suc timeout) export_query f query =
    let (result, error) = export_query (shape_query_for_export f query) in
    elim error [ none ↦ (result, none) | some e ↦ (result, some (wrap_export_deadline_error e)) ]

abbrev pub bounded_by : ℕ → Outcome → Outcome
bounded_by zero outcome = outcome
bounded_by (suc timeout) (result, none) = (result, none)
bounded_by (suc timeout) (result, some e) = (result, some (wrap_export_deadline_error e))

unfoldable pub export_spans_with_deadline :
    Unicode
    → UrlText
    → ℕ
    → (List OpenTelemetrySpan → Outcome)
    → Option QueryFilter
    → List OpenTelemetrySpan
    → Outcome
unfolding shape_spans_for_export wrap_export_deadline_error
export_spans_with_deadline u url timeout export_spans none spans =
    (no_result, some (external "query-text export boundary is not configured"))
export_spans_with_deadline u url timeout export_spans (some f) spans =
    bounded_by timeout (export_spans (shape_spans_for_export u url f spans))
