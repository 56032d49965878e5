-- ===== src/Metrics.antt =====
-- internal/metrics/metrics.go: the counters of cycles and the gauges that a cycle sets. The counters
-- are kept unbounded; an error's text is left out, and so are the counters of the sinks, the poll
-- interval, the start time and the gauges of the span log and the topology.
use click_dog.Common.{ℕ, ◌+◌, Bool, true, false, Option, none, some, is_some, if◌then◌else◌}
use click_dog.Model.{Error}
use click_dog.Resilience.Breaker.{CircuitState}

pub data SkipReason : Type 0 where
  no_reason skip_leader_standby skip_circuit_open : SkipReason

pub record CycleSnapshot : Type 0 where
  pub exported : ℕ
  pub filtered : ℕ
  pub duplicates : ℕ
  pub duration_ms : ℕ
  pub failed : Bool
  pub skipped : Bool
  pub skip_reason : SkipReason
  pub at_unix : ℕ

pub record Metrics : Type 0 where
  pub spans_exported : ℕ
  pub spans_filtered : ℕ
  pub spans_dupes : ℕ
  pub cycles_error : ℕ
  pub cycles_skipped : ℕ
  pub cycles_success : ℕ
  pub last_success_unix : ℕ
  pub last_cycle : Option CycleSnapshot
  pub circuit_breaker_state : CircuitState
  pub leader : ℕ

-- What a cycle hands to the counters.
pub record Recorded : Type 0 where
  pub exported : ℕ
  pub filtered : ℕ
  pub dupes : ℕ
  pub error : Option Error
  pub skipped : Bool
  pub skip_reason : SkipReason

unfoldable pub record_cycle : ℕ → ℕ → Recorded → Metrics → Metrics
record_cycle now duration r m =
    let summed = record m {
      spans_exported = m.spans_exported + r.exported;
      spans_filtered = m.spans_filtered + r.filtered;
      spans_dupes = m.spans_dupes + r.dupes;
      last_cycle = some (record {
        exported = r.exported;
        filtered = r.filtered;
        duplicates = r.dupes;
        duration_ms = duration;
        failed = is_some r.error;
        skipped = r.skipped;
        skip_reason = r.skip_reason;
        at_unix = now;
      });
    } in
    if is_some r.error
    then record summed { cycles_error = m.cycles_error + 1 }
    else if r.skipped
    then record summed { cycles_skipped = m.cycles_skipped + 1 }
    else record summed { last_success_unix = now; cycles_success = m.cycles_success + 1 }

abbrev pub ran : ℕ → ℕ → ℕ → Option Error → Recorded
ran exported filtered dupes error = record {
  exported = exported;
  filtered = filtered;
  dupes = dupes;
  error = error;
  skipped = false;
  skip_reason = no_reason;
}

abbrev pub skipped_cycle : SkipReason → Recorded
skipped_cycle reason = record {
  exported = 0;
  filtered = 0;
  dupes = 0;
  error = none;
  skipped = true;
  skip_reason = reason;
}

abbrev pub set_leader : Bool → Metrics → Metrics
set_leader active m = record m { leader = if active then 1 else 0 }

abbrev pub set_circuit_breaker_state : CircuitState → Metrics → Metrics
set_circuit_breaker_state state m = record m { circuit_breaker_state = state }
