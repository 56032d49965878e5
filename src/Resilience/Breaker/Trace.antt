-- ===== src/Resilience/Breaker/Trace.antt =====
-- The circuit breaker over every sequence of calls: when it is closed.
use click_dog.Common.{ℕ, suc, ◌+◌, ◌<◌, ◌≡◌, ◌↔◌, ◌⊎◌, refl, ◌∙◌, List, [], ◌∷◌, ◌++◌, arith}
use click_dog.Resilience.Breaker.{
  closed, CircuitBreaker, CircuitBreakerConfig, new_circuit_breaker, allow, record_success,
  record_failure, IsValid, new_circuit_breaker-IsValid, allow-IsValid, record_success-IsValid,
  record_failure-IsValid,
}

pub data Call : Type 0 where
  allow_at : ℕ → Call
  success : Call
  failure_at : ℕ → Call

unfoldable pub apply : Call → CircuitBreaker → CircuitBreaker
apply (allow_at t) cb = (allow t cb).0
apply success cb = record_success cb
apply (failure_at t) cb = record_failure t cb

unfoldable pub run : List Call → CircuitBreaker → CircuitBreaker
unfolding apply
run [] cb = cb
run (c ∷ cs) cb = run cs (apply c cb)

-- The failures among the calls.
abbrev pub failures_in : List Call → ℕ
failures_in [] = 0
failures_in (failure_at t ∷ cs) = suc (failures_in cs)
failures_in (allow_at t ∷ cs) = failures_in cs
failures_in (success ∷ cs) = failures_in cs

abbrev pub NoSuccess : List Call → Type 0
NoSuccess [] = Unit
NoSuccess (success ∷ cs) = ⊥
NoSuccess (failure_at t ∷ cs) = NoSuccess cs
NoSuccess (allow_at t ∷ cs) = NoSuccess cs

apply-IsValid : (c : Call) (cb : CircuitBreaker) → IsValid cb → IsValid (apply c cb)
unfolding apply
apply-IsValid (allow_at t) cb v = allow-IsValid t cb v
apply-IsValid success cb v = record_success-IsValid cb v
apply-IsValid (failure_at t) cb v = record_failure-IsValid t cb v

run-IsValid_of : (cs : List Call) (cb : CircuitBreaker) → IsValid cb → IsValid (run cs cb)
unfolding run
run-IsValid_of [] cb v = v
run-IsValid_of (c ∷ cs) cb v = run-IsValid_of cs (apply c cb) (apply-IsValid c cb v)

-- However it is configured, and after any sequence of calls, a breaker has positive thresholds and
-- a positive timeout, is closed only below its failure threshold, is half-open only below its
-- success threshold, and counts successes in the half-open state alone.
pub run-IsValid :
    (cfg : CircuitBreakerConfig) (cs : List Call) → IsValid (run cs (new_circuit_breaker cfg))
run-IsValid cfg cs = run-IsValid_of cs (new_circuit_breaker cfg) (new_circuit_breaker-IsValid cfg)

run-append : (xs ys : List Call) (cb : CircuitBreaker) → run (xs ++ ys) cb ≡ run ys (run xs cb)
unfolding run
run-append [] ys cb = refl
run-append (x ∷ xs) ys cb = run-append xs ys (apply x cb)

-- A call other than a success does not close a breaker, nor change its threshold.
allow_keeps :
    (t : ℕ) (cb : CircuitBreaker)
    → ((allow t cb).0.failure_threshold ≡ cb.failure_threshold)
      × ((allow t cb).0.failures ≡ cb.failures)
      × (((allow t cb).0.state ≡ closed) ↔ (cb.state ≡ closed))
unfolding allow
allow_keeps t cb = ground arith

failure_keeps :
    (t : ℕ) (cb : CircuitBreaker)
    → ((record_failure t cb).failure_threshold ≡ cb.failure_threshold)
      × ((record_failure t cb).failures ≡ cb.failures + 1)
      × (((record_failure t cb).state ≡ closed)
          ↔ ((cb.state ≡ closed) × (cb.failures + 1 < cb.failure_threshold)))
unfolding record_failure
failure_keeps t cb = ground arith

closed_iff_from :
    (cs : List Call) (cb : CircuitBreaker)
    → NoSuccess cs
    → ((run cs cb).state ≡ closed) ↔ (
        (cb.state ≡ closed)
        × ((failures_in cs ≡ 0) ⊎ (cb.failures + failures_in cs < cb.failure_threshold)))
unfolding run
closed_iff_from [] cb n = ground arith
closed_iff_from (success ∷ cs) cb n = elim n [ ]
closed_iff_from (allow_at t ∷ cs) cb n =
    ground (arith, allow_keeps t cb, closed_iff_from cs (allow t cb).0 n)
closed_iff_from (failure_at t ∷ cs) cb n =
    ground (arith, failure_keeps t cb, closed_iff_from cs (record_failure t cb) n)

failures-run :
    (cs : List Call) (cb : CircuitBreaker)
    → NoSuccess cs
    → (run cs cb).failures ≡ cb.failures + failures_in cs
unfolding run
failures-run [] cb n = omega arith
failures-run (success ∷ cs) cb n = elim n [ ]
failures-run (allow_at t ∷ cs) cb n =
    omega (arith, allow_keeps t cb, failures-run cs (allow t cb).0 n)
failures-run (failure_at t ∷ cs) cb n =
    omega (arith, failure_keeps t cb, failures-run cs (record_failure t cb) n)

threshold-apply :
    (c : Call) (cb : CircuitBreaker) → (apply c cb).failure_threshold ≡ cb.failure_threshold
unfolding apply allow record_success record_failure
threshold-apply (allow_at t) cb = ground arith
threshold-apply success cb = ground arith
threshold-apply (failure_at t) cb = ground arith

threshold-run :
    (cs : List Call) (cb : CircuitBreaker) → (run cs cb).failure_threshold ≡ cb.failure_threshold
unfolding run
threshold-run [] cb = refl
threshold-run (c ∷ cs) cb = threshold-run cs (apply c cb) ∙ threshold-apply c cb

success_clears : (cb : CircuitBreaker) → (record_success cb).failures ≡ 0
unfolding record_success
success_clears cb = ground arith

-- Whatever the configuration and the calls before it, take a success that leaves the breaker
-- closed, and then any calls with no further success. The breaker is then closed exactly if fewer
-- failures than the failure threshold were recorded since that success, and its failure counter is
-- the number of them.
pub closed_iff_below :
    (cfg : CircuitBreakerConfig) (before after : List Call)
    → (run (before ++ success ∷ []) (new_circuit_breaker cfg)).state ≡ closed
    → NoSuccess after
    → let cb = run (before ++ success ∷ after) (new_circuit_breaker cfg) in
      ((cb.state ≡ closed) ↔ (failures_in after < (new_circuit_breaker cfg).failure_threshold))
      × (cb.failures ≡ failures_in after)
unfolding run apply
closed_iff_below cfg before after shut n =
    let start = new_circuit_breaker cfg in
    let mid = run before start in
    let cb = record_success mid in
    let here : cb.state ≡ closed = rw (run-append before (success ∷ []) start) at shut in
    rw (run-append before (success ∷ after) start) (
      ground (
        arith,
        here,
        success_clears mid,
        closed_iff_from after cb n,
        (new_circuit_breaker-IsValid cfg).failure_positive,
        threshold-run before start,
        threshold-apply success mid,
      ),
      ground (arith, success_clears mid, failures-run after cb n),
    )
