-- ===== src/Resilience/Poller/Intervals.antt =====
-- The adaptive poller over every sequence of poll outcomes.
use native.Mathlib.Nat.{le_refl}
use click_dog.Common.{
  ℕ, ◌^◌, ◌≤◌, ◌≡◌, ◌∙◌, refl, sym, inl, inr, Bool, true, false, List, [], ◌∷◌, ◌++◌, if◌then◌else◌,
  Bool-cases, arith,
}
use click_dog.Common.Int.{ℤ, pos, negsuc, lt_int, same_int, same_int→eq, AtLeast, AtMost}
use click_dog.Resilience.Poller.{
  Scaling, BackoffConfig, AdaptivePoller, new_adaptive_poller, record_failure, record_success,
  is_backed_off,
}

module _ (fl : Scaling) where
  open fl use {Factor, at_most_one, two, fits, times}

  -- `true` is a poll that succeeded.
  unfoldable pub observe : Bool → AdaptivePoller Factor → AdaptivePoller Factor
  observe true ap = record_success ap
  observe false ap = record_failure fl ap

  unfoldable pub polls : List Bool → AdaptivePoller Factor → AdaptivePoller Factor
  unfolding observe
  polls [] ap = ap
  polls (b ∷ bs) ap = polls bs (observe b ap)

  pub record IsValid (base max : ℕ) (f : Factor) (ap : AdaptivePoller Factor) : Type 0 where
    pub base_is : ap.base_interval ≡ base
    pub max_is : ap.max_interval ≡ max
    pub factor_is : ap.backoff_factor ≡ f
    pub above : AtLeast base ap.current_interval
    pub below : AtMost max ap.current_interval

  -- What the next interval is, whether or not it is written.
  abbrev pub next : AdaptivePoller Factor → ℤ
  next ap =
      let new = times ap.backoff_factor ap.current_interval in
      if lt_int (pos ap.max_interval) new then pos ap.max_interval else new

  pub shape-failure :
      (ap : AdaptivePoller Factor)
      → ((record_failure fl ap).current_interval ≡ next ap)
        × ((record_failure fl ap).base_interval ≡ ap.base_interval)
        × ((record_failure fl ap).max_interval ≡ ap.max_interval)
        × ((record_failure fl ap).backoff_factor ≡ ap.backoff_factor)
  unfolding record_failure
  shape-failure ap = elim (Bool-cases (same_int (next ap) ap.current_interval)) [
    | inl same ↦ rw same (sym (same_int→eq (next ap) ap.current_interval same), refl, refl, refl)
    | inr other ↦ rw other (refl, refl, refl, refl)
  ]

  pub shape-success :
      (ap : AdaptivePoller Factor)
      → ((record_success ap).current_interval ≡ (
          if lt_int (pos ap.base_interval) ap.current_interval
          then pos ap.base_interval
          else ap.current_interval))
        × ((record_success ap).base_interval ≡ ap.base_interval)
        × ((record_success ap).max_interval ≡ ap.max_interval)
        × ((record_success ap).backoff_factor ≡ ap.backoff_factor)
  unfolding record_success
  shape-success ap = ground arith

  -- The product of an interval between the bounds, unless it overflows.
  grown :
      (base max : ℕ) (f : Factor) (d : ℤ)
      → at_most_one f ≡ false
      → fits f max ≡ true
      → max ≤ 2 ^ 53
      → AtLeast base d
      → AtMost max d
      → AtLeast base (times f d)
  grown base max f (pos n) grows room small above below =
      raise (times f (pos n))
        (fl.times_grows f n grows (fl.fits_below f n max below room) (omega arith))
    where
      raise : (z : ℤ) → AtLeast n z → AtLeast base z
      raise (pos m) h = omega arith
      raise (negsuc m) h = h
  grown base max f (negsuc n) grows room small above below = absurd above

  module _ (base max : ℕ) (f : Factor) (grows : at_most_one f ≡ false) (room : fits f max ≡ true)
      (ordered : base ≤ max) (small : max ≤ 2 ^ 53) where
    capped :
        (z : ℤ)
        → AtLeast base z
        → let c = if lt_int (pos max) z then pos max else z in AtLeast base c × AtMost max c
    capped (pos n) h = ground arith
    capped (negsuc n) h = absurd h

    -- A success leaves an interval that was at least the base interval at it.
    calmed : (z : ℤ) → AtLeast base z → (if lt_int (pos base) z then pos base else z) ≡ pos base
    calmed (pos n) h = ground arith
    calmed (negsuc n) h = absurd h

    pub restored :
        (ap : AdaptivePoller Factor)
        → IsValid base max f ap
        → (record_success ap).current_interval ≡ pos base
    restored ap v = rw ((shape-success ap).0, v.base_is) (calmed ap.current_interval v.above)

    observe-IsValid :
        (b : Bool) (ap : AdaptivePoller Factor)
        → IsValid base max f ap
        → IsValid base max f (observe b ap)
    unfolding observe
    observe-IsValid true ap v =
        let s = shape-success ap in
        let now = restored ap v in
        record {
          base_is = s.1 ∙ v.base_is;
          max_is = s.2 ∙ v.max_is;
          factor_is = s.3 ∙ v.factor_is;
          above = rw now (le_refl base);
          below = rw now ordered;
        }
    observe-IsValid false ap v =
        let s = shape-failure ap in
        let new = grown base max f ap.current_interval grows room small v.above v.below in
        let bounds = capped (times f ap.current_interval) new in
        record {
          base_is = s.1 ∙ v.base_is;
          max_is = s.2 ∙ v.max_is;
          factor_is = s.3 ∙ v.factor_is;
          above = rw (s.0, v.max_is, v.factor_is) bounds.0;
          below = rw (s.0, v.max_is, v.factor_is) bounds.1;
        }

    polls-IsValid :
        (bs : List Bool) (ap : AdaptivePoller Factor)
        → IsValid base max f ap
        → IsValid base max f (polls bs ap)
    unfolding polls
    polls-IsValid [] ap v = v
    polls-IsValid (b ∷ bs) ap v = polls-IsValid bs (observe b ap) (observe-IsValid b ap v)

  polls-append :
      (xs ys : List Bool) (ap : AdaptivePoller Factor)
      → polls (xs ++ ys) ap ≡ polls ys (polls xs ap)
  unfolding polls
  polls-append [] ys ap = refl
  polls-append (x ∷ xs) ys ap = polls-append xs ys (observe x ap)

  -- The factor that the constructor settles on is above 1.
  settled : (f : Factor) → at_most_one (if at_most_one f then two else f) ≡ false
  settled f = elim (Bool-cases (at_most_one f)) [
    | inl low ↦ rw low fl.two_above
    | inr high ↦ rw high high
  ]

  module _ (base : ℕ) (cfg : BackoffConfig Factor) where
    abbrev start : AdaptivePoller Factor
    start = new_adaptive_poller fl base cfg

    abbrev cap : ℕ
    cap = start.max_interval

    abbrev factor : Factor
    factor = if at_most_one cfg.backoff_factor then two else cfg.backoff_factor

    start-IsValid : base ≤ cap → IsValid base cap factor start
    unfolding new_adaptive_poller
    start-IsValid h = record {
      base_is = refl;
      max_is = refl;
      factor_is = refl;
      above = le_refl base;
      below = h;
    }

    module _ (ordered : base ≤ cap) (small : cap ≤ 2 ^ 53) (room : fits factor cap ≡ true) where
      polled : (bs : List Bool) → IsValid base cap factor (polls bs start)
      polled bs =
          polls-IsValid base cap factor (settled cfg.backoff_factor) room ordered small bs start
            (start-IsValid ordered)

      -- With a base interval of at most the cap, a cap of at most 2 ^ 53 ns and a factor whose
      -- product with the cap lies within int64, every sequence of poll outcomes leaves the interval
      -- between the base interval and the cap.
      pub interval_bounds :
          (bs : List Bool)
          → AtLeast base (polls bs start).current_interval
            × AtMost cap (polls bs start).current_interval
      interval_bounds bs = let v = polled bs in (v.above, v.below)

      -- Under the same bounds a single success, after any sequence of outcomes, brings the interval
      -- back to the base interval and the failure count to zero.
      pub success_restores :
          (bs : List Bool)
          → let ap = polls (bs ++ true ∷ []) start in
            (ap.current_interval ≡ pos base)
            × (ap.consecutive_fails ≡ 0)
            × (is_backed_off ap ≡ false)
      unfolding polls observe
      success_restores bs =
          let v = polled bs in
          let ap = polls bs start in
          rw (polls-append bs (true ∷ []) start) (
            back ap v,
            uncounted ap,
            at_base (record_success ap) (back ap v) ((shape-success ap).1 ∙ v.base_is),
          )
        where
          back :
              (ap : AdaptivePoller Factor)
              → IsValid base cap factor ap
              → (record_success ap).current_interval ≡ pos base
          back = restored base cap factor (settled cfg.backoff_factor) room ordered small

          uncounted : (ap : AdaptivePoller Factor) → (record_success ap).consecutive_fails ≡ 0
          uncounted ap = unfold record_success in ground arith

          at_base :
              (ap : AdaptivePoller Factor)
              → ap.current_interval ≡ pos base
              → ap.base_interval ≡ base
              → is_backed_off ap ≡ false
          at_base ap now same = unfold is_backed_off in rw (now, same) (ground arith)
