-- ===== src/Tests/Export.antt =====
-- The fan-out's theorems at two sinks, of which one accepts a span and the other fails.
use click_dog.Common.{◌≡◌, refl, ◌&&◌, not, none, some, List, [], ◌∷◌, is_some, is_empty, length}
use click_dog.Common.Sets.{contains, Distinct}
use click_dog.Model.{external, SpanKey, key_equality, OpenTelemetrySpan, no_result, key_of}
use click_dog.Export.Multi.{
  MultiExporter, MultiExporterPolicy, all_required, any_success, SpanExporter, export_spans,
}
use click_dog.Export.Multi.Reduce.{succeeded, accepts}
use click_dog.Export.Multi.Spans.{every, at_least_one, all_required_lem, any_success_lem}

abbrev span : OpenTelemetrySpan
span = record {
  hostname = "h";
  trace_id = 1;
  span_id = 2;
  parent_span_id = 0;
  operation_name = "query";
  kind = "SERVER";
  start_time_us = 10;
  finish_time_us = 20;
  attributes = [];
  string_slice_attributes = [];
}

abbrev works : SpanExporter
works = record {
  export_spans =
      λ spans. (record no_result { accepted = key_of span ∷ []; total_accepted = 1 }, none);
  export_query = λ log. (record no_result { total_accepted = 1 }, none);
  close = none;
}

abbrev fails : SpanExporter
fails = record {
  export_spans = λ spans. (no_result, some (external "refused"));
  export_query = λ log. (no_result, some (external "refused"));
  close = none;
}

abbrev fan_out : MultiExporterPolicy → MultiExporter
fan_out policy = record { sinks = ("a", works) ∷ ("b", fails) ∷ []; span_policy = policy }

abbrev strict : MultiExporter
strict = fan_out all_required

abbrev lenient : MultiExporter
lenient = fan_out any_success

abbrev batch : List OpenTelemetrySpan
batch = span ∷ []

all_required_lem_example :
    (is_some (export_spans strict batch).1 ≡ not (every succeeded batch strict))
    × ((k : SpanKey)
        → contains (export_spans strict batch).0.accepted k
          ≡ every succeeded batch strict && every (accepts k) batch strict)
    × ((export_spans strict batch).0.total_accepted ≡ length (export_spans strict batch).0.accepted)
    × Distinct (export_spans strict batch).0.accepted
all_required_lem_example = all_required_lem strict batch refl refl refl

any_success_lem_example :
    ((k : SpanKey)
      → contains (export_spans lenient batch).0.accepted k
        ≡ at_least_one (λ o. succeeded o && accepts k o) batch lenient)
    × (is_some (export_spans lenient batch).1
        ≡ not (every succeeded batch lenient) && is_empty (export_spans lenient batch).0.accepted)
    × ((export_spans lenient batch).0.total_accepted
        ≡ length (export_spans lenient batch).0.accepted)
    × Distinct (export_spans lenient batch).0.accepted
any_success_lem_example = any_success_lem lenient batch refl refl refl
