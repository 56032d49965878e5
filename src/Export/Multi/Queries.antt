-- ===== src/Export/Multi/Queries.antt =====
-- The query fan-out, the per-sink statuses of both fan-outs, and the construction of an exporter.
use click_dog.Common.{
  ℕ, ◌≡◌, ◌∙◌, refl, Bool, false, not, String, none, some, List, [], ◌∷◌, ◌++◌, map, is_some,
  is_empty, all, length, if◌then◌else◌, arith, Bool-cases, inl, inr,
}
use mathlib.Core.List.{append-nil, append_assoc}
use click_dog.Model.{OpenTelemetrySpan, QueryLog, ExportSinkStatus}
use click_dog.Export.Multi.{
  MultiExporter, MultiExporterPolicy, Outcome, all_required, any_success, Reduction, reduce_one,
  reduce, fresh, status, conclude, span_outcomes, query_outcomes, export_spans, export_query,
}
use click_dog.Export.Multi.Reduce.{succeeded, outcome, errors-reduce}

abbrev pub statuses_of : ℕ → List (String × Outcome) → List ExportSinkStatus
statuses_of sent = map (λ p. status p.0 sent p.1)

statuses-one :
    (sent : ℕ) (name : String) (o : Outcome) (r : Reduction)
    → (reduce_one name sent o r).statuses ≡ r.statuses ++ status name sent o ∷ []
unfolding reduce_one
statuses-one sent name (result, none) r = refl
statuses-one sent name (result, some e) r = refl

statuses-reduce :
    (sent : ℕ) (os : List (String × Outcome)) (r : Reduction)
    → (reduce sent os r).statuses ≡ r.statuses ++ statuses_of sent os
unfolding reduce
statuses-reduce sent [] r = rw append-nil
statuses-reduce sent ((name, o) ∷ os) r =
    rw (statuses-reduce sent os (reduce_one name sent o r), statuses-one sent name o r)
      (append_assoc r.statuses (status name sent o ∷ []) (statuses_of sent os))

conclude-sinks :
    (p : MultiExporterPolicy) (sent : ℕ) (r : Reduction) → (conclude p sent r).0.sinks ≡ r.statuses
unfolding conclude
conclude-sinks all_required sent r = ground arith
conclude-sinks any_success sent r = ground arith

-- Under either policy, and whether the call fails or not, a call with spans and sinks reports one
-- status for each sink, in configured order: its name, the number of spans, what the sink itself
-- accepted and its error.
pub statuses-export_spans :
    (m : MultiExporter) (spans : List OpenTelemetrySpan)
    → is_empty spans ≡ false
    → is_empty m.sinks ≡ false
    → (export_spans m spans).0.sinks ≡ statuses_of (length spans) (span_outcomes spans m.sinks)
unfolding export_spans
statuses-export_spans m spans work wired =
    rw (work, wired)
      (conclude-sinks m.span_policy (length spans) _
        ∙ statuses-reduce (length spans) (span_outcomes spans m.sinks) fresh)

abbrev pub every_query : QueryLog → MultiExporter → Bool
every_query log m = all (λ p. succeeded (outcome p)) (query_outcomes log m.sinks)

-- Whatever the policy, a query export over some sinks fails exactly if a sink failed; it counts
-- the row as accepted exactly if none did, and reports every sink's status in configured order.
pub export_query_lem :
    (m : MultiExporter) (log : QueryLog)
    → is_empty m.sinks ≡ false
    → (is_some (export_query m log).1 ≡ not (every_query log m))
      × ((export_query m log).0.total_accepted ≡ (if every_query log m then 1 else 0))
      × ((export_query m log).0.total_sent ≡ 1)
      × ((export_query m log).0.sinks ≡ statuses_of 1 (query_outcomes log m.sinks))
unfolding export_query
export_query_lem m log wired =
    let errors = errors-reduce 1 (query_outcomes log m.sinks) fresh in
    let statuses = statuses-reduce 1 (query_outcomes log m.sinks) fresh in
    elim (Bool-cases (every_query log m)) [
      | inl ok ↦ rw wired (
        ground (arith, errors),
        ground (arith, errors),
        ground (arith, errors),
        ground (arith, errors, statuses),
      )
      | inr bad ↦ rw wired (
        ground (arith, errors),
        ground (arith, errors),
        ground (arith, errors),
        ground (arith, errors, statuses),
      )
    ]
