-- ===== src/Processor/Backfill.antt =====
-- internal/processor/backfill.go: one batch of query_log rows through filter and export, and the
-- report of its outcome. What the exporter answers when it is called for the n-th time, from 0, and
-- where the context ends are arguments.
pub mod Report
use click_dog.Common.{
  ℕ, zero, suc, ◌+◌, Bool, true, false, ◌&&◌, ◌||◌, String, Option, none, some, List, [], ◌∷◌,
  length, ltb, ◌==◌, is_empty, if◌then◌else◌,
}
use click_dog.Model.{Error, external, wrap, QueryLog}
use click_dog.Filter.{Netip, QueryFilter, should_filter, has_user_filter, should_filter_user}
use click_dog.Export.Multi.{Outcome}
use click_dog.Processor.Addresses.{originating_address}
use click_dog.Processor.Live.{batches, batch_size}
use click_dog.Processor.Export.{export_query_with_deadline}

pub record BatchResult : Type 0 where
  pub exported : ℕ
  pub filtered : ℕ
  pub failed : ℕ
  pub first_err : Option Error

abbrev pub has_failures : BatchResult → Bool
has_failures r = ltb 0 r.failed

abbrev pub all_failed : BatchResult → Bool
all_failed r = ltb 0 r.failed && r.exported == 0

abbrev pub no_rows : BatchResult
no_rows = record { exported = 0; filtered = 0; failed = 0; first_err = none }

-- `if result.FirstErr == nil { result.FirstErr = err }`
abbrev pub first_of : Option Error → Error → Option Error
first_of none e = some e
first_of (some old) e = some old

module _ (net : Netip) (f : QueryFilter) (timeout : ℕ) (export_query : ℕ → QueryLog → Outcome)
    (interrupted : ℕ → Option Error) where
  unfoldable pub skips : QueryLog → Bool
  skips query =
      should_filter net f "" query.query (originating_address query)
      || (has_user_filter f && should_filter_user f query.user)

  unfoldable pub process_query : QueryLog → BatchResult → BatchResult
  unfolding skips export_query_with_deadline
  process_query query r =
      if skips query
      then record r { filtered = r.filtered + 1 }
      else elim (export_query_with_deadline timeout (export_query (r.exported + r.failed)) f
          query).1 [
            | none ↦ record r { exported = r.exported + 1 }
            | some e ↦ record r { failed = r.failed + 1; first_err = first_of r.first_err e }
          ]

  unfoldable pub process_rows : List QueryLog → BatchResult → BatchResult
  unfolding process_query
  process_rows [] r = r
  process_rows (q ∷ qs) r = process_rows qs (process_query q r)

  -- The batches from the n-th on, with the delay between two of them.
  unfoldable pub process_parts : ℕ → List (List QueryLog) → BatchResult → BatchResult
  unfolding process_rows
  process_parts n [] r = r
  process_parts n (b ∷ bs) r =
      let done = process_rows b r in
      let rest = process_parts (suc n) bs done in
      elim (if is_empty bs then none else interrupted n) [
        | some e ↦ record done { first_err = first_of done.first_err e }
        | none ↦ rest
      ]

  unfoldable pub process_queries_batch : ℕ → List QueryLog → BatchResult
  unfolding process_parts batches batch_size
  process_queries_batch size queries =
      process_parts 0 (batches (length queries) (batch_size size queries) queries) no_rows

pub data WebhookEvent : Type 0 where
  backfill_failed backfill_complete : WebhookEvent

-- The returned error and the event; a text leaves out the counts. `%w` of a nil error is no cause.
abbrev cause : String → Option Error → Error
cause message none = external message
cause message (some e) = wrap message e

unfoldable pub report_backfill_outcome : BatchResult → Option Error × WebhookEvent
report_backfill_outcome r =
    if all_failed r
    then (some (cause "Backfill failed: all export attempts failed" r.first_err), backfill_failed)
    else if has_failures r
    then (some (cause "Backfill partial failure" r.first_err), backfill_failed)
    else (none, backfill_complete)
