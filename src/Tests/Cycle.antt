-- ===== src/Tests/Cycle.antt =====
-- The theorems of a whole cycle and of a backfill, at one failure from an open breaker.
use click_dog.Common.{
  ℕ, ◌≤◌, ◌≡◌, ◌≢◌, refl, true, false, Option, none, some, [], ◌∷◌, is_some, arith,
}
use click_dog.Model.{Error, external, sentinel, canceled, QueryLog, no_result}
use click_dog.Filter.{Netip, QueryFilter, no_text, should_filter, should_filter_user}
use click_dog.Export.Multi.{Outcome}
use click_dog.Resilience.Breaker.{CircuitBreaker, allow, closed, opened, record_failure}
use click_dog.Metrics.{Metrics}
use click_dog.Processor.Pipeline.{World, Pipeline, answer_of, process, process_admitted}
use click_dog.Processor.Pipeline.Cycles.{
  IsOneMore, IsConfirmed, process-IsOneMore, process-IsConfirmed,
}
use click_dog.Processor.Pipeline.Gauge.{IsSynced, process-IsSynced, canary_cycle-silent}
use click_dog.Processor.Backfill.{
  BatchResult, skips, process_query, process_rows, process_parts, process_queries_batch,
  report_backfill_outcome, backfill_failed, backfill_complete, no_rows,
}
use click_dog.Processor.Addresses.{originating_address}
use click_dog.Processor.Export.{export_query_with_deadline}
use click_dog.Processor.Backfill.Report.{
  total, process_queries_batch_lem, process_parts-interrupted,
}
use click_dog.Tests.Rows.{row}

abbrev breaker : CircuitBreaker
breaker = record {
  state = closed;
  failures = 2;
  successes = 0;
  last_failure = 10;
  failure_threshold = 3;
  success_threshold = 1;
  reset_timeout = 60;
}

abbrev zeros : Metrics
zeros = record {
  spans_exported = 0;
  spans_filtered = 0;
  spans_dupes = 0;
  cycles_error = 0;
  cycles_skipped = 0;
  cycles_success = 0;
  last_success_unix = 0;
  last_cycle = none;
  circuit_breaker_state = closed;
  leader = 1;
}

abbrev pipeline : Pipeline
pipeline = record {
  circuit_breaker = some breaker;
  metrics = zeros;
  server_version = record {
    last = "25.1";
    attempted_at = some 5;
    force = false;
    exported_version = "25.1";
  };
  notified = [];
}

abbrev world : World
world = record {
  now = 20;
  now_unix = 1;
  duration_ms = 3;
  leader_gate = none;
  elevated = false;
  canary_enabled = true;
  canary_query = some (external "timeout");
  canary_export = none;
  healthy = true;
  server_version = some "25.2";
  live_counts = (4, 1, 0);
  live_error = none;
}

process-IsOneMore_example :
    IsOneMore zeros (process world pipeline).0.metrics (process world pipeline).1
process-IsOneMore_example = process-IsOneMore world pipeline

no_gate : world.leader_gate ≢ some false
no_gate h = ground arith

process-IsConfirmed_example :
    IsConfirmed world pipeline.server_version (process world pipeline).0.server_version
process-IsConfirmed_example = process-IsConfirmed world pipeline no_gate

abbrev degraded : World
degraded = record world { elevated = true }

-- In the same backoff, a breaker that has been open for 10 of its 60 nanoseconds.
abbrev refusing : Pipeline
refusing = record pipeline {
  circuit_breaker = some (record breaker { state = opened; failures = 3 });
  metrics = record zeros { circuit_breaker_state = opened };
}

refuses_cycle : (answer_of 20 refusing.circuit_breaker).1 ≡ false
unfolding allow
refuses_cycle = refl

process-IsSynced_example : IsSynced (process degraded refusing).0
process-IsSynced_example =
    process-IsSynced degraded refusing (λ led admitted. ground (arith, admitted, refuses_cycle))
      refl

canary_cycle-silent_example :
    ((process_admitted degraded pipeline).0.circuit_breaker ≡ some (record_failure 20 breaker))
    × ((record_failure 20 breaker).state ≡ opened)
    × ((process_admitted degraded pipeline).0.metrics.circuit_breaker_state ≡ closed)
    × ((process_admitted degraded pipeline).0.notified ≡ [])
canary_cycle-silent_example =
    canary_cycle-silent degraded breaker pipeline (external "timeout") refl (ground arith) refl refl

abbrev no_addresses : Netip
no_addresses = record { parse_addr = λ text. none; unmap = λ addr. addr }

abbrev open_filter : QueryFilter
open_filter = record {
  query_text_mode = no_text;
  operation_patterns = [];
  query_blacklist_patterns = [];
  redaction_rules = [];
  whitelist_ips = [];
  whitelist_cidrs = [];
  whitelist_users = [];
  blacklist_users = [];
  has_operation_whitelist = false;
  has_ip_whitelist = false;
  has_user_whitelist = false;
  has_user_blacklist = false;
}

abbrev refuses : ℕ → QueryLog → Outcome
refuses n log = (no_result, some (external "refused"))

abbrev accepts : ℕ → QueryLog → Outcome
accepts n log = (record no_result { total_accepted = 1 }, none)

abbrev never : ℕ → Option Error
never n = none

abbrev at_once : ℕ → Option Error
at_once n = some (sentinel canceled)

abbrev refused : BatchResult
refused = process_queries_batch no_addresses open_filter 0 refuses never 1 (row ∷ row ∷ [])

process_queries_batch_lem_example :
    (total refused ≤ 2)
    × (((k : ℕ) → never k ≡ none) → total refused ≡ 2)
    × (1 ≤ refused.failed
        → (is_some refused.first_err ≡ true)
          × (is_some (report_backfill_outcome refused).0 ≡ true)
          × ((report_backfill_outcome refused).1 ≡ backfill_failed))
process_queries_batch_lem_example =
    process_queries_batch_lem no_addresses open_filter 0 refuses never 1 (row ∷ row ∷ [])

abbrev cut : BatchResult
cut =
    process_parts no_addresses open_filter 0 accepts at_once 0 ((row ∷ []) ∷ (row ∷ []) ∷ [])
      no_rows

one_accepted :
    (process_rows no_addresses open_filter 0 accepts at_once (row ∷ []) no_rows).failed ≡ 0
unfolding process_rows process_query skips export_query_with_deadline originating_address
    should_filter should_filter_user
one_accepted = refl

process_parts-interrupted_example :
    (is_some cut.first_err ≡ true)
    × (total cut ≡ 1)
    × (report_backfill_outcome cut ≡ (none, backfill_complete))
process_parts-interrupted_example =
    process_parts-interrupted no_addresses open_filter 0 accepts at_once (sentinel canceled)
      (row ∷ []) (row ∷ []) [] refl one_accepted
