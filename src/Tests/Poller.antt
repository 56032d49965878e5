-- ===== src/Tests/Poller.antt =====
-- The poller's theorems with the factors 1 and 2, exact on every duration.
use click_dog.Common.{ℕ, ◌*◌, ◌^◌, ◌≤◌, ◌≡◌, refl, Bool, true, false, not, ltb, [], ◌∷◌, arith}
use click_dog.Common.Int.{ℤ, pos, scale, AtLeast, AtMost}
use click_dog.Resilience.Poller.{Scaling, BackoffConfig, AdaptivePoller, new_adaptive_poller}
use click_dog.Resilience.Poller.Intervals.{polls, interval_bounds}

abbrev scaled : Bool → ℤ → ℤ
scaled true d = scale 2 d
scaled false d = d

-- The factor 2 doubles up to half of the int64.
abbrev within : Bool → ℕ → Bool
within true d = ltb (2 * d) (2 ^ 63)
within false d = true

abbrev exact : Scaling
exact = record {
  Factor = Bool;
  at_most_one = not;
  two = true;
  fits = within;
  times = scaled;
  two_above = refl;
  fits_below = below;
  times_grows = grows;
  times_two = λ d small. refl;
}
  where
    below : (f : Bool) (d e : ℕ) → d ≤ e → within f e ≡ true → within f d ≡ true
    below true d e less fits = ground arith
    below false d e less fits = refl

    grows :
        (f : Bool) (d : ℕ)
        → not f ≡ false
        → within f d ≡ true
        → d ≤ 2 ^ 53
        → AtLeast d (scaled f (pos d))
    grows true d above fits small = omega arith
    grows false d above fits small = omega arith

abbrev cfg : BackoffConfig Bool
cfg = record { max_interval_s = pos 300; backoff_factor = false }

abbrev base : ℕ
base = 30_000_000_000

abbrev start : AdaptivePoller Bool
start = new_adaptive_poller exact base cfg

interval_bounds_example :
    AtLeast base (polls exact (false ∷ false ∷ []) start).current_interval
    × AtMost start.max_interval (polls exact (false ∷ false ∷ []) start).current_interval
unfolding new_adaptive_poller
interval_bounds_example =
    interval_bounds exact base cfg (ground arith) (ground arith) (ground arith) (false ∷ false ∷ [])
