-- ===== src/Export/Multi/Spans.antt =====
-- What the span fan-out reports, under each policy, for every list of sinks and their outcomes.
use click_dog.Common.{
  ◌≡◌, ◌∙◌, refl, Bool, true, false, ◌&&◌, not, String, List, is_some, is_empty, any, all, length,
  arith, Bool-cases, inl, inr,
}
use click_dog.Common.Sets.{contains, Distinct}
use click_dog.Model.{SpanKey, key_equality, OpenTelemetrySpan}
use click_dog.Export.Multi.{
  MultiExporter, MultiExporterPolicy, Outcome, conclude, all_required, any_success, Reduction,
  reduce, fresh, span_outcomes, export_spans, set_of,
}
use click_dog.Export.Multi.Reduce.{
  succeeded, accepts, outcome, errors-reduce, meets-reduce, union-reduce, some-reduce,
  Distinct-reduce, any_of_all, all_of_both, contains-set_of, empty-contains, span_outcomes-ne,
}

abbrev pub every : (Outcome → Bool) → List OpenTelemetrySpan → MultiExporter → Bool
every p spans m = all (λ o. p (outcome o)) (span_outcomes spans m.sinks)

abbrev pub at_least_one : (Outcome → Bool) → List OpenTelemetrySpan → MultiExporter → Bool
at_least_one p spans m = any (λ o. p (outcome o)) (span_outcomes spans m.sinks)

module _ (m : MultiExporter) (spans : List OpenTelemetrySpan) (work : is_empty spans ≡ false)
    (wired : is_empty m.sinks ≡ false) where
  abbrev os : List (String × Outcome)
  os = span_outcomes spans m.sinks

  abbrev r : Reduction
  r = reduce (length spans) os fresh

  ends :
      (p : MultiExporterPolicy)
      → m.span_policy ≡ p
      → export_spans m spans ≡ conclude p (length spans) r
  unfolding export_spans
  ends p policy = rw (work, wired, policy) refl

  errors_iff : is_empty r.errors ≡ every succeeded spans m
  errors_iff = ground (arith, errors-reduce (length spans) os fresh)

  all-met :
      (k : SpanKey)
      → every succeeded spans m ≡ true
      → contains (set_of r.intersection) k ≡ every (accepts k) spans m
  all-met k ok =
      let ne : is_empty os ≡ false = rw (span_outcomes-ne spans m.sinks) wired in
      let met = any_of_all (λ o. succeeded (outcome o)) os ne ok in
      let here : is_some r.intersection ≡ true =
        ground (arith, some-reduce (length spans) os fresh, met) in
      contains-set_of k r.intersection here
      ∙ meets-reduce (length spans) k os fresh
      ∙ all_of_both (λ o. succeeded (outcome o)) (λ o. accepts k (outcome o)) os ok

  -- Under the policy that requires every sink, a call with spans and sinks fails exactly if some
  -- sink failed; a key is reported as accepted exactly if no sink failed and every sink accepted
  -- it; the count is that of the keys, none of which is listed twice.
  pub all_required_lem :
      m.span_policy ≡ all_required
      → (is_some (export_spans m spans).1 ≡ not (every succeeded spans m))
        × ((k : SpanKey)
            → contains (export_spans m spans).0.accepted k
              ≡ every succeeded spans m && every (accepts k) spans m)
        × ((export_spans m spans).0.total_accepted ≡ length (export_spans m spans).0.accepted)
        × Distinct (export_spans m spans).0.accepted
  unfolding conclude contains
  all_required_lem policy =
      rw (ends all_required policy) (elim (Bool-cases (every succeeded spans m)) [
        | inl ok ↦ (
          ground (arith, errors_iff),
          λ k. ground (arith, errors_iff, all-met k ok),
          ground arith,
          ground (arith, errors_iff, Distinct-reduce (length spans) os fresh tt tt),
        )
        | inr bad ↦ (
          ground (arith, errors_iff),
          λ k. ground (arith, errors_iff),
          ground arith,
          ground (arith, errors_iff),
        )
      ])

  -- Under the policy that any success is enough, a key is reported as accepted exactly if some
  -- sink that did not fail accepted it, and the call fails exactly if some sink failed and no key
  -- is reported; the count is that of the keys, none of which is listed twice.
  pub any_success_lem :
      m.span_policy ≡ any_success
      → ((k : SpanKey)
          → contains (export_spans m spans).0.accepted k
            ≡ at_least_one (λ o. succeeded o && accepts k o) spans m)
        × (is_some (export_spans m spans).1
            ≡ not (every succeeded spans m) && is_empty (export_spans m spans).0.accepted)
        × ((export_spans m spans).0.total_accepted ≡ length (export_spans m spans).0.accepted)
        × Distinct (export_spans m spans).0.accepted
  unfolding conclude contains
  any_success_lem policy = rw (ends any_success policy) (
    λ k. ground (arith, union-reduce (length spans) k os fresh, empty-contains k r.union),
    ground (arith, errors_iff),
    ground arith,
    ground (arith, Distinct-reduce (length spans) os fresh tt tt),
  )
