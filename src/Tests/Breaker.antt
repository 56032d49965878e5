-- ===== src/Tests/Breaker.antt =====
-- The circuit breaker's theorems at a breaker that opens after two failures, stays open for a
-- minute, and closes after two successes.
use click_dog.Common.{ℕ, ◌<◌, ◌≡◌, ◌↔◌, refl, true, [], ◌∷◌, arith}
use click_dog.Common.Int.{pos}
use click_dog.Resilience.Breaker.{
  CircuitBreaker, CircuitBreakerConfig, closed, opened, half_open, new_circuit_breaker, allow,
  record_success, record_failure, IsValid,
}
use click_dog.Resilience.Breaker.Trace.{success, failure_at, run, closed_iff_below}
use click_dog.Resilience.Breaker.Recovery.{succeed, recovery}

abbrev cfg : CircuitBreakerConfig
cfg = record { failure_threshold = pos 2; success_threshold = pos 2; reset_timeout_s = pos 60 }

abbrev open_breaker : CircuitBreaker
open_breaker = record {
  state = opened;
  failures = 2;
  successes = 0;
  last_failure = 100;
  failure_threshold = 2;
  success_threshold = 2;
  reset_timeout = 60;
}

abbrev probing_breaker : CircuitBreaker
probing_breaker = record open_breaker { state = half_open; successes = 1 }

closed_iff_below_example :
    (((run (failure_at 1 ∷ success ∷ failure_at 2 ∷ []) (new_circuit_breaker cfg)).state ≡ closed)
      ↔ (1 < (new_circuit_breaker cfg).failure_threshold))
    × ((run (failure_at 1 ∷ success ∷ failure_at 2 ∷ []) (new_circuit_breaker cfg)).failures ≡ 1)
unfolding run new_circuit_breaker record_success record_failure
closed_iff_below_example = closed_iff_below cfg (failure_at 1 ∷ []) (failure_at 2 ∷ []) refl tt

recovery_example :
    ((allow 160 open_breaker).1 ≡ true)
    × ((k : ℕ) → k < 2 → (succeed k (allow 160 open_breaker).0).state ≡ half_open)
    × ((succeed 2 (allow 160 open_breaker).0).state ≡ closed)
    × ((succeed 2 (allow 160 open_breaker).0).failures ≡ 0)
    × ((succeed 2 (allow 160 open_breaker).0).successes ≡ 0)
recovery_example = recovery open_breaker 160 open_valid refl (ground arith)
  where
    open_valid : IsValid open_breaker
    open_valid = ground arith
