-- ===== src/Resilience/Breaker/Recovery.antt =====
-- The circuit breaker after it opened: how long it blocks, and how it closes again.
use click_dog.Common.{
  ℕ, zero, suc, ◌+◌, ◌-◌, ◌<◌, ◌≤◌, ◌≡◌, refl, sym, subst, Bool, true, false, List, [], ◌∷◌, arith,
}
use click_dog.Resilience.Breaker.{
  closed, opened, half_open, CircuitBreaker, allow, record_success, record_failure, IsValid,
}

-- The answers to calls of `Allow`, and the breaker after them.
unfoldable pub ask : List ℕ → CircuitBreaker → CircuitBreaker × List Bool
ask [] cb = (cb, [])
ask (now ∷ nows) cb =
    let (cb', answer) = allow now cb in
    let (cb'', answers) = ask nows cb' in (cb'', answer ∷ answers)

abbrev pub AllBefore : ℕ → List ℕ → Type 0
AllBefore t [] = Unit
AllBefore t (n ∷ ns) = (n < t) × AllBefore t ns

abbrev pub refusals : List ℕ → List Bool
refusals [] = []
refusals (n ∷ ns) = false ∷ refusals ns

refuse :
    (cb : CircuitBreaker) (now : ℕ)
    → cb.state ≡ opened
    → now < cb.last_failure + cb.reset_timeout
    → allow now cb ≡ (cb, false)
unfolding allow
refuse cb now o h = ground arith

-- An open breaker refuses every request that comes before its reset timeout has passed since the
-- last failure, however many come, and stays as it is.
pub ask_opened :
    (cb : CircuitBreaker) (nows : List ℕ)
    → cb.state ≡ opened
    → AllBefore (cb.last_failure + cb.reset_timeout) nows
    → ask nows cb ≡ (cb, refusals nows)
unfolding ask
ask_opened cb [] o h = refl
ask_opened cb (now ∷ nows) o h = rw (refuse cb now o h.0) (rw (ask_opened cb nows o h.1))

unfoldable pub succeed : ℕ → CircuitBreaker → CircuitBreaker
succeed zero cb = cb
succeed (suc n) cb = succeed n (record_success cb)

probe :
    (cb : CircuitBreaker)
    → cb.state ≡ half_open
    → cb.successes + 1 < cb.success_threshold
    → ((record_success cb).state ≡ half_open)
      × ((record_success cb).successes ≡ cb.successes + 1)
      × ((record_success cb).success_threshold ≡ cb.success_threshold)
unfolding record_success
probe cb h l = ground arith

last_probe :
    (cb : CircuitBreaker)
    → cb.state ≡ half_open
    → cb.success_threshold ≤ cb.successes + 1
    → ((record_success cb).state ≡ closed)
      × ((record_success cb).failures ≡ 0)
      × ((record_success cb).successes ≡ 0)
unfolding record_success
last_probe cb h l = ground arith

-- `k` successes from a half-open breaker that needs more.
probing :
    (k : ℕ) (cb : CircuitBreaker)
    → cb.state ≡ half_open
    → cb.successes + k < cb.success_threshold
    → (succeed k cb).state ≡ half_open
unfolding succeed
probing zero cb h l = h
probing (suc k) cb h l =
    let p = probe cb h (omega arith) in probing k (record_success cb) p.0 (omega (arith, p.1, p.2))

closing :
    (k : ℕ) (cb : CircuitBreaker)
    → cb.state ≡ half_open
    → cb.successes + suc k ≡ cb.success_threshold
    → ((succeed (suc k) cb).state ≡ closed)
      × ((succeed (suc k) cb).failures ≡ 0)
      × ((succeed (suc k) cb).successes ≡ 0)
unfolding succeed
closing zero cb h e = last_probe cb h (omega arith)
closing (suc k) cb h e =
    let p = probe cb h (omega arith) in closing k (record_success cb) p.0 (omega (arith, p.1, p.2))

admit :
    (cb : CircuitBreaker) (now : ℕ)
    → cb.state ≡ opened
    → cb.last_failure + cb.reset_timeout ≤ now
    → allow now cb ≡ (record cb { state = half_open }, true)
unfolding allow
admit cb now o h = ground arith

-- Once the reset timeout has passed since the last failure, an open breaker admits a request, and
-- then needs its success threshold of successes in a row: fewer leave it half-open, that many
-- close it with both counters at zero.
pub recovery :
    (cb : CircuitBreaker) (now : ℕ)
    → IsValid cb
    → cb.state ≡ opened
    → cb.last_failure + cb.reset_timeout ≤ now
    → ((allow now cb).1 ≡ true)
      × ((k : ℕ) → k < cb.success_threshold → (succeed k (allow now cb).0).state ≡ half_open)
      × ((succeed cb.success_threshold (allow now cb).0).state ≡ closed)
      × ((succeed cb.success_threshold (allow now cb).0).failures ≡ 0)
      × ((succeed cb.success_threshold (allow now cb).0).successes ≡ 0)
recovery cb now v o h =
    let zero_successes : cb.successes ≡ 0 = v.idle (ground arith) in
    let tried = record cb { state = half_open } in
    let n = cb.success_threshold - 1 in
    let e : cb.success_threshold ≡ suc n = omega (arith, v.success_positive) in
    let c = closing n tried refl (omega arith) in
    rw (admit cb now o h) (
      refl,
      λ k l. probing k tried refl (omega arith),
      subst (λ m. (succeed m tried).state ≡ closed) (sym e) c.0,
      subst (λ m. (succeed m tried).failures ≡ 0) (sym e) c.1,
      subst (λ m. (succeed m tried).successes ≡ 0) (sym e) c.2,
    )

reopened :
    (cb : CircuitBreaker) (at : ℕ)
    → cb.state ≡ half_open
    → ((record_failure at cb).state ≡ opened)
      × ((record_failure at cb).successes ≡ 0)
      × ((record_failure at cb).last_failure ≡ at)
      × ((record_failure at cb).reset_timeout ≡ cb.reset_timeout)
unfolding record_failure
reopened cb at h = ground arith

-- A failure while the breaker probes opens it again, with all the successes counted so far lost,
-- and it refuses every request until the reset timeout has passed since that failure.
pub relapse :
    (cb : CircuitBreaker) (at : ℕ) (nows : List ℕ)
    → cb.state ≡ half_open
    → AllBefore (at + cb.reset_timeout) nows
    → ((record_failure at cb).successes ≡ 0)
      × (ask nows (record_failure at cb) ≡ (record_failure at cb, refusals nows))
relapse cb at nows h b =
    let r = reopened cb at h in (r.1, ask_opened (record_failure at cb) nows r.0 (rw (r.2, r.3) b))
