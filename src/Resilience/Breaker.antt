-- ===== src/Resilience/Breaker.antt =====
-- internal/resilience/circuitbreaker.go: the circuit breaker. A method that locks and mutates the
-- breaker is a function from the breaker to the breaker; `clock.Now()` is an argument `now`, in
-- nanoseconds. The counters rise by one for each poll and are kept unbounded.
pub mod Trace
pub mod Recovery
use click_dog.Common.{ℕ, ◌+◌, ◌<◌, ◌≡◌, ◌≢◌, Bool, true, false, leb, if◌then◌else◌, arith}
use click_dog.Common.Int.{ℤ, seconds, positive_or, positive_or_pos}

pub data CircuitState : Type 0 where
  closed opened half_open : CircuitState

pub record CircuitBreakerConfig : Type 0 where
  pub failure_threshold : ℤ
  pub success_threshold : ℤ
  pub reset_timeout_s : ℤ

pub record CircuitBreaker : Type 0 where
  pub state : CircuitState
  pub failures : ℕ
  pub successes : ℕ
  pub last_failure : ℕ
  pub failure_threshold : ℕ
  pub success_threshold : ℕ
  pub reset_timeout : ℕ

unfoldable pub new_circuit_breaker : CircuitBreakerConfig → CircuitBreaker
unfolding positive_or seconds
new_circuit_breaker cfg = record {
  state = closed;
  failures = 0;
  successes = 0;
  last_failure = 0;
  failure_threshold = positive_or cfg.failure_threshold 3;
  success_threshold = positive_or cfg.success_threshold 1;
  reset_timeout = positive_or (seconds cfg.reset_timeout_s) 60_000_000_000;
}

abbrev pub set_state : CircuitState → CircuitBreaker → CircuitBreaker
set_state s cb = record cb { state = s }

-- The `switch` of `Allow`. `now.Sub(lastFailure) >= resetTimeout` is an inequality of integers and
-- is written without the subtraction.
allow_in : CircuitState → ℕ → CircuitBreaker → CircuitBreaker × Bool
allow_in closed now cb = (cb, true)
allow_in opened now cb =
    if leb (cb.last_failure + cb.reset_timeout) now
    then (set_state half_open cb, true)
    else (cb, false)
allow_in half_open now cb = (cb, true)

unfoldable pub allow : ℕ → CircuitBreaker → CircuitBreaker × Bool
unfolding allow_in
allow now cb = allow_in cb.state now cb

success_in : CircuitState → CircuitBreaker → CircuitBreaker
success_in half_open cb =
    if leb cb.success_threshold (cb.successes + 1)
    then record cb { state = closed; successes = 0 }
    else record cb { successes = cb.successes + 1 }
success_in closed cb = cb
success_in opened cb = cb

unfoldable pub record_success : CircuitBreaker → CircuitBreaker
unfolding success_in
record_success cb = success_in cb.state (record cb { failures = 0 })

failure_in : CircuitState → CircuitBreaker → CircuitBreaker
failure_in closed cb = if leb cb.failure_threshold cb.failures then set_state opened cb else cb
failure_in half_open cb = set_state opened cb
failure_in opened cb = cb

unfoldable pub record_failure : ℕ → CircuitBreaker → CircuitBreaker
unfolding failure_in
record_failure now cb =
    failure_in cb.state
      (record cb { failures = cb.failures + 1; last_failure = now; successes = 0 })

-- What holds of a breaker between two calls.
pub record IsValid (cb : CircuitBreaker) : Type 0 where
  pub failure_positive : 0 < cb.failure_threshold
  pub success_positive : 0 < cb.success_threshold
  pub timeout_positive : 0 < cb.reset_timeout
  pub closed_below : cb.state ≡ closed → cb.failures < cb.failure_threshold
  pub half_open_below : cb.state ≡ half_open → cb.successes < cb.success_threshold
  pub idle : cb.state ≢ half_open → cb.successes ≡ 0

pub new_circuit_breaker-IsValid : (cfg : CircuitBreakerConfig) → IsValid (new_circuit_breaker cfg)
unfolding new_circuit_breaker
new_circuit_breaker-IsValid cfg = ground (
  arith,
  positive_or_pos cfg.failure_threshold 3 (omega arith),
  positive_or_pos cfg.success_threshold 1 (omega arith),
  positive_or_pos (seconds cfg.reset_timeout_s) 60_000_000_000 (omega arith),
)

pub allow-IsValid : (now : ℕ) (cb : CircuitBreaker) → IsValid cb → IsValid (allow now cb).0
unfolding allow
allow-IsValid now cb v = ground arith

pub record_success-IsValid : (cb : CircuitBreaker) → IsValid cb → IsValid (record_success cb)
unfolding record_success
record_success-IsValid cb v = ground arith

pub record_failure-IsValid :
    (now : ℕ) (cb : CircuitBreaker) → IsValid cb → IsValid (record_failure now cb)
unfolding record_failure
record_failure-IsValid now cb v = ground arith
