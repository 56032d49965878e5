-- ===== src/Resilience/Poller.antt =====
-- internal/resilience/backoff.go: the adaptive poller. Durations are nanoseconds. The base interval
-- is a check interval and a cap that is not positive is replaced, so neither is negative; the
-- current interval is signed, since a product that leaves int64 may come back negative. The backoff
-- factor is a float64, which enters through its operations.
pub mod Intervals
pub mod Growth
use click_dog.Common.{ℕ, ◌+◌, ◌*◌, ◌^◌, ◌≤◌, ◌≡◌, Bool, true, false, not, if◌then◌else◌}
use click_dog.Common.Int.{ℤ, pos, lt_int, same_int, AtLeast, seconds, positive_or}

-- What `float64` is used for. `times f d` is `time.Duration(float64(d) * f)`, and `fits f d` says
-- that the product lies within int64: where it does not, Go leaves the conversion's result to the
-- implementation, and no law says what `times` is. An integer up to 2 ^ 53 is exact as a float64;
-- where a product with a factor above 1 fits, it does not round below it.
pub record Scaling : Type 1 where
  pub Factor : Type 0
  pub at_most_one : Factor → Bool
  pub two : Factor
  pub fits : Factor → ℕ → Bool
  pub times : Factor → ℤ → ℤ
  pub two_above : at_most_one two ≡ false
  pub fits_below : (f : Factor) (d e : ℕ) → d ≤ e → fits f e ≡ true → fits f d ≡ true
  pub times_grows :
      (f : Factor) (d : ℕ)
      → at_most_one f ≡ false
      → fits f d ≡ true
      → d ≤ 2 ^ 53
      → AtLeast d (times f (pos d))
  pub times_two : (d : ℕ) → d ≤ 2 ^ 53 → times two (pos d) ≡ pos (2 * d)

pub record BackoffConfig (F : Type 0) : Type 0 where
  pub max_interval_s : ℤ
  pub backoff_factor : F

pub record AdaptivePoller (F : Type 0) : Type 0 where
  pub base_interval : ℕ
  pub max_interval : ℕ
  pub current_interval : ℤ
  pub backoff_factor : F
  pub consecutive_fails : ℕ

module _ (fl : Scaling) where
  open fl use {Factor, at_most_one, two, times}

  unfoldable pub new_adaptive_poller : ℕ → BackoffConfig Factor → AdaptivePoller Factor
  unfolding positive_or seconds
  new_adaptive_poller base cfg = record {
    base_interval = base;
    max_interval = positive_or (seconds cfg.max_interval_s) 300_000_000_000;
    current_interval = pos base;
    backoff_factor = if at_most_one cfg.backoff_factor then two else cfg.backoff_factor;
    consecutive_fails = 0;
  }

  unfoldable pub record_failure : AdaptivePoller Factor → AdaptivePoller Factor
  record_failure ap =
      let new = times ap.backoff_factor ap.current_interval in
      let capped = if lt_int (pos ap.max_interval) new then pos ap.max_interval else new in
      let counted = record ap { consecutive_fails = ap.consecutive_fails + 1 } in
      if not (same_int capped ap.current_interval)
      then record counted { current_interval = capped }
      else counted

unfoldable pub record_success : {F : Type 0} → AdaptivePoller F → AdaptivePoller F
record_success ap =
    let calm = record ap { consecutive_fails = 0 } in
    if lt_int (pos ap.base_interval) ap.current_interval
    then record calm { current_interval = pos ap.base_interval }
    else calm

unfoldable pub is_backed_off : {F : Type 0} → AdaptivePoller F → Bool
is_backed_off ap = lt_int (pos ap.base_interval) ap.current_interval
