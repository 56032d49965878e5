-- ===== src/Resilience/Poller/Growth.antt =====
-- How the poller backs off: the closed form under the default factor, and a cap below the base.
use Prim.Native.Nat.{min}
use native.Mathlib.Nat.{pow-suc}
use click_dog.Common.{
  ℕ, zero, suc, ◌*◌, ◌^◌, ◌≤◌, ◌<◌, ◌≡◌, ◌∙◌, refl, if◌then◌else◌, Bool, true, false, List, [], ◌∷◌,
  replicate, arith,
}
use click_dog.Common.Int.{ℤ, pos, negsuc, lt_int}
use click_dog.Resilience.Poller.{
  Scaling, BackoffConfig, AdaptivePoller, new_adaptive_poller, record_failure, record_success,
  is_backed_off,
}
use click_dog.Resilience.Poller.Intervals.{observe, polls, shape-failure, shape-success}

pos_eq : {m n : ℕ} → m ≡ n → pos m ≡ pos n
pos_eq e = rw e refl

module _ (fl : Scaling) where
  open fl use {Factor, at_most_one, two, times}

  fail-two :
      (n : ℕ) (ap : AdaptivePoller Factor)
      → ap.backoff_factor ≡ two
      → n ≤ 2 ^ 53
      → ap.current_interval ≡ pos n
      → ((record_failure fl ap).current_interval ≡ pos (min ap.max_interval (2 * n)))
        × ((record_failure fl ap).backoff_factor ≡ two)
        × ((record_failure fl ap).max_interval ≡ ap.max_interval)
  fail-two n ap e h c =
      let s = shape-failure fl ap in (rw (s.0, e, c, fl.times_two n h) doubled, s.3 ∙ e, s.2)
    where
      doubled :
          (if lt_int (pos ap.max_interval) (pos (2 * n)) then pos ap.max_interval else pos (2 * n))
          ≡ pos (min ap.max_interval (2 * n))
      doubled = ground arith

  regroup : (k n : ℕ) → 2 * n * 2 ^ k ≡ n * 2 ^ suc k
  regroup k n = rw pow-suc (omega arith)

  doubling :
      (k n : ℕ) (ap : AdaptivePoller Factor)
      → ap.backoff_factor ≡ two
      → ap.max_interval ≤ 2 ^ 53
      → ap.current_interval ≡ pos (min ap.max_interval n)
      → (polls fl (replicate k false) ap).current_interval ≡ pos (min ap.max_interval (n * 2 ^ k))
  unfolding polls observe
  doubling zero n ap e h c = c ∙ pos_eq (omega arith)
  doubling (suc k) n ap e h c =
      let (now, still, same) = fail-two (min ap.max_interval n) ap e (omega arith) c in
      doubling k (2 * n) (record_failure fl ap) still (omega (arith, same))
        (now ∙ pos_eq (omega (arith, same)))
      ∙ pos_eq (omega (arith, same, regroup k n))

  module _ (base : ℕ) (cfg : BackoffConfig Factor) where
    abbrev start : AdaptivePoller Factor
    start = new_adaptive_poller fl base cfg

    start_fields :
        (start.current_interval ≡ pos base)
        × (at_most_one cfg.backoff_factor ≡ true → start.backoff_factor ≡ two)
    unfolding new_adaptive_poller
    start_fields = (refl, λ h. rw h)

    -- With a factor that is not above 1, so that the default of 2 is used, `k` failures in a row
    -- multiply the base interval by 2 ^ k, up to the cap.
    pub failures_double :
        (k : ℕ)
        → at_most_one cfg.backoff_factor ≡ true
        → base ≤ start.max_interval
        → start.max_interval ≤ 2 ^ 53
        → (polls fl (replicate k false) start).current_interval
          ≡ pos (min start.max_interval (base * 2 ^ k))
    failures_double k low fits small =
        doubling k base start (start_fields.1 low) small (start_fields.0 ∙ pos_eq (omega arith))

  -- A signed number below a natural number.
  abbrev pub Under : ℕ → ℤ → Type 0
  Under m (pos n) = n < m
  Under m (negsuc n) = Unit

  Under-next :
      (max base : ℕ) (z : ℤ) → max < base → Under base (if lt_int (pos max) z then pos max else z)
  Under-next max base (pos n) h = ground arith
  Under-next max base (negsuc n) h = tt

  Under-success :
      (base : ℕ) (z : ℤ) → Under base z → Under base (if lt_int (pos base) z then pos base else z)
  Under-success base (pos n) h = ground arith
  Under-success base (negsuc n) h = tt

  moved : {m n x : ℕ} (z : ℤ) → m ≡ n → Under m z × (x ≡ m) → Under n z × (x ≡ n)
  moved z e r = rw e at r

  stay_capped :
      (bs : List Bool) (ap : AdaptivePoller Factor)
      → ap.max_interval < ap.base_interval
      → Under ap.base_interval ap.current_interval
      → Under ap.base_interval (polls fl bs ap).current_interval
        × ((polls fl bs ap).base_interval ≡ ap.base_interval)
  unfolding polls observe
  stay_capped [] ap h c = (c, refl)
  stay_capped (true ∷ bs) ap h c =
      let s = shape-success fl ap in
      let rest =
        stay_capped bs (record_success ap) (rw (s.1, s.2) h)
          (rw (s.0, s.1) (Under-success ap.base_interval ap.current_interval c)) in
      moved _ s.1 rest
  stay_capped (false ∷ bs) ap h c =
      let s = shape-failure fl ap in
      let rest =
        stay_capped bs (record_failure fl ap) (rw (s.1, s.2) h)
          (rw (s.0, s.1) (Under-next ap.max_interval ap.base_interval _ h)) in
      moved _ s.1 rest

  -- If the cap is below the base interval, which the configuration does not rule out, a failed
  -- poll shortens the interval: after it, whatever the later outcomes, successes included, the
  -- poller polls more often than at its base interval and does not count as backed off.
  pub capped_below_base :
      (bs : List Bool) (ap : AdaptivePoller Factor)
      → ap.max_interval < ap.base_interval
      → Under ap.base_interval (polls fl (false ∷ bs) ap).current_interval
        × (is_backed_off (polls fl (false ∷ bs) ap) ≡ false)
  unfolding polls observe
  capped_below_base bs ap h =
      let s = shape-failure fl ap in
      let (low, base) =
        stay_capped bs (record_failure fl ap) (rw (s.1, s.2) h)
          (rw (s.0, s.1) (Under-next ap.max_interval ap.base_interval _ h)) in
      let here = moved _ s.1 (low, base) in (here.0, calm _ ap.base_interval here.1 here.0)
    where
      below : (m : ℕ) (z : ℤ) → Under m z → lt_int (pos m) z ≡ false
      below m (pos n) u = ground arith
      below m (negsuc n) u = refl

      calm :
          (q : AdaptivePoller Factor) (m : ℕ)
          → q.base_interval ≡ m
          → Under m q.current_interval
          → is_backed_off q ≡ false
      calm q m e u = unfold is_backed_off in rw e (below m q.current_interval u)
