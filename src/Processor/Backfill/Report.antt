-- ===== src/Processor/Backfill/Report.antt =====
-- The counts of a backfill batch, and what is reported of it.
use click_dog.Common.{
  ℕ, suc, ◌+◌, ◌≤◌, ◌≡◌, ap, refl, inl, inr, true, Option, none, some, List, [], ◌∷◌, length,
  length-append, is_some, is_empty, Option-cases, if◌then◌else◌, arith,
}
use click_dog.Model.{Error, QueryLog}
use click_dog.Filter.{Netip, QueryFilter}
use click_dog.Export.Multi.{Outcome}
use click_dog.Processor.Live.{batches, batch_size}
use click_dog.Processor.Live.Batches.{flatten, flatten-batches}
use click_dog.Processor.Backfill.{
  BatchResult, no_rows, first_of, process_query, process_rows, process_parts, process_queries_batch,
  report_backfill_outcome, backfill_failed, backfill_complete,
}

abbrev pub total : BatchResult → ℕ
total r = r.exported + r.filtered + r.failed

-- A failure has left its error.
abbrev pub IsTold : BatchResult → Type 0
IsTold r = 1 ≤ r.failed → is_some r.first_err ≡ true

-- What is returned when the context ends.
abbrev cut_short : Error → BatchResult → BatchResult
cut_short e done = record done { first_err = first_of done.first_err e }

told : (e : Error) (r : BatchResult) → is_some (first_of r.first_err e) ≡ true
told e r = elim (Option-cases r.first_err) [
  | inl none_yet ↦ rw none_yet refl
  | inr (old, had) ↦ rw had refl
]

module _ (net : Netip) (f : QueryFilter) (timeout : ℕ) (export_query : ℕ → QueryLog → Outcome)
    (interrupted : ℕ → Option Error) where
  total-query :
      (q : QueryLog) (r : BatchResult)
      → IsTold r
      → (total (process_query net f timeout export_query interrupted q r) ≡ total r + 1)
        × IsTold (process_query net f timeout export_query interrupted q r)
  unfolding process_query
  total-query q r t = ground arith

  total-rows :
      (qs : List QueryLog) (r : BatchResult)
      → IsTold r
      → (total (process_rows net f timeout export_query interrupted qs r) ≡ total r + length qs)
        × IsTold (process_rows net f timeout export_query interrupted qs r)
  unfolding process_rows
  total-rows [] r t = (omega arith, t)
  total-rows (q ∷ qs) r t =
      let one = total-query q r t in
      let more = total-rows qs (process_query net f timeout export_query interrupted q r) one.1 in
      (omega (arith, one.0, more.0), more.1)

  calm-stops :
      (n : ℕ) (bs : List (List QueryLog)) (e : Error)
      → ((k : ℕ) → interrupted k ≡ none)
      → (if is_empty bs then none else interrupted n) ≡ some e
      → ⊥
  calm-stops n bs e calm stopped = ground (arith, calm n, stopped)

  goes_on-parts :
      (b : List QueryLog) (bs : List (List QueryLog)) (n : ℕ) (r : BatchResult)
      → (if is_empty bs then none else interrupted n) ≡ none
      → process_parts net f timeout export_query interrupted n (b ∷ bs) r
        ≡ process_parts net f timeout export_query interrupted
            (suc n)
            bs
            (process_rows net f timeout export_query interrupted b r)
  unfolding process_parts
  goes_on-parts b bs n r h = rw (h, process_parts) refl

  stopped-parts :
      (b : List QueryLog) (bs : List (List QueryLog)) (n : ℕ) (r : BatchResult) (e : Error)
      → (if is_empty bs then none else interrupted n) ≡ some e
      → process_parts net f timeout export_query interrupted n (b ∷ bs) r
        ≡ cut_short e (process_rows net f timeout export_query interrupted b r)
  unfolding process_parts
  stopped-parts b bs n r e h = rw (h, process_parts) refl

  total-parts :
      (bs : List (List QueryLog)) (n : ℕ) (r : BatchResult)
      → IsTold r
      → (total (process_parts net f timeout export_query interrupted n bs r)
          ≤ total r + length (flatten bs))
        × (((k : ℕ) → interrupted k ≡ none)
            → total (process_parts net f timeout export_query interrupted n bs r)
              ≡ total r + length (flatten bs))
        × IsTold (process_parts net f timeout export_query interrupted n bs r)
  unfolding process_parts
  total-parts [] n r t = (omega arith, λ calm. omega arith, t)
  total-parts (b ∷ bs) n r t =
      let done = process_rows net f timeout export_query interrupted b r in
      let here = total-rows b r t in
      let more = total-parts bs (suc n) done here.1 in
      let l = length-append b (flatten bs) in
      elim (Option-cases (if is_empty bs then none else interrupted n)) [
        | inl goes_on ↦ rw (goes_on-parts b bs n r goes_on) (
          omega (arith, here.0, more.0, l),
          λ calm. omega (arith, here.0, more.1 calm, l),
          more.2,
        )
        | inr (e, stopped) ↦ rw (stopped-parts b bs n r e stopped) (
          omega (arith, here.0, l),
          λ calm. absurd (calm-stops n bs e calm stopped),
          λ h. told e done,
        )
      ]

  -- Every row of a batch is counted as exported, filtered or failed, and in one of these ways only, if
  -- the context does not end between two parts of it, and at most the batch is counted otherwise. If
  -- a row has failed, an error is recorded, and the report of the batch is then an error and a failure
  -- event, whether all exports failed or some.
  pub process_queries_batch_lem :
      (size : ℕ) (queries : List QueryLog)
      → let r = process_queries_batch net f timeout export_query interrupted size queries in
        (total r ≤ length queries)
        × (((k : ℕ) → interrupted k ≡ none) → total r ≡ length queries)
        × (1 ≤ r.failed
            → (is_some r.first_err ≡ true)
              × (is_some (report_backfill_outcome r).0 ≡ true)
              × ((report_backfill_outcome r).1 ≡ backfill_failed))
  unfolding process_queries_batch report_backfill_outcome
  process_queries_batch_lem size queries =
      let parts = batches (length queries) (batch_size size queries) queries in
      let t = total-parts parts 0 no_rows (λ h. ground arith) in
      let whole = ap length (flatten-batches size queries) in
      (
        omega (arith, t.0, whole),
        λ calm. omega (arith, t.1 calm, whole),
        λ h. (t.2 h, ground arith, ground arith),
      )

complete : (r : BatchResult) → r.failed ≡ 0 → report_backfill_outcome r ≡ (none, backfill_complete)
unfolding report_backfill_outcome
complete r h = rw h refl

-- A backfill whose context ends after its first part, none of whose rows failed, is reported as
-- complete and without an error, although the later rows were not looked at and an error is
-- recorded.
pub process_parts-interrupted :
    (net : Netip) (f : QueryFilter) (timeout : ℕ) (export_query : ℕ → QueryLog → Outcome)
    (interrupted : ℕ → Option Error) (e : Error) (first second : List QueryLog)
    (more : List (List QueryLog))
    → interrupted 0 ≡ some e
    → (process_rows net f timeout export_query interrupted first no_rows).failed ≡ 0
    → let r =
        process_parts net f timeout export_query interrupted 0 (first ∷ second ∷ more) no_rows in
      (is_some r.first_err ≡ true)
      × (total r ≡ length first)
      × (report_backfill_outcome r ≡ (none, backfill_complete))
process_parts-interrupted net f timeout export_query interrupted e first second more stopped ok =
    let done = process_rows net f timeout export_query interrupted first no_rows in
    let counts =
      total-rows net f timeout export_query interrupted first no_rows (λ h. ground arith) in
    rw
      (stopped-parts net f timeout export_query interrupted first (second ∷ more) 0 no_rows e
        stopped)
      (told e done, omega (arith, counts.0), complete (cut_short e done) ok)
