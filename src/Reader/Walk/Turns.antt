-- ===== src/Reader/Walk/Turns.antt =====
-- The loop of the forward walk: what every page keeps holds where it ends.
use click_dog.Common.{
  ℕ, zero, suc, ◌<◌, ◌≡◌, ◌⊎◌, refl, inl, inr, Bool, true, false, List, [], ◌∷◌, length, ltb, ◌==◌,
  is_empty, if◌then◌else◌, Bool-cases, arith,
}
use click_dog.Model.{Error, OpenTelemetrySpan}
use click_dog.Reader.Walk.{
  TraceKey, SpanSelection, SpanLog, Progress, Walked, stopped, caught_up, drained_by, drain,
  next_traces, with_page, forward, walk_forward,
}

pub answer-cases {ℓ} :
    {A : Type ℓ} (m : Error ⊎ A) → ((e : Error) × (m ≡ inl e)) ⊎ ((a : A) × (m ≡ inr a))
answer-cases (inl e) = inl (e, refl)
answer-cases (inr a) = inr (a, refl)

module _ (Inv Whole Head : Progress → Type 0) where
  -- A drained page: `Whole` says that it is the last page of the log.
  abbrev pub Drained : Progress → Error ⊎ (Bool × Progress) → Type 0
  Drained p (inl e) = Unit
  Drained p (inr (true, q)) = Inv q
  Drained p (inr (false, q)) = Inv q × (Whole p → Head q)

  abbrev pub Ended : Error ⊎ Walked → Type 0
  Ended (inl e) = Unit
  Ended (inr (stopped turns q)) = Inv q
  Ended (inr (caught_up turns q)) = Inv q × Head q

module _ (log : SpanLog) (sel wide : SpanSelection) where
  pub record Turns (Inv Whole Head : Progress → Type 0) : Type 0 where
    pub page_put :
        (p : Progress) (id : ℕ) (ids : List ℕ) (last : TraceKey)
        → Inv p
        → next_traces log sel wide p.walk.watermark p.remaining ≡ inr (id ∷ ids, last)
        → Inv (with_page (id ∷ ids) last p)
          × (length (id ∷ ids) < p.remaining → Whole (with_page (id ∷ ids) last p))
    pub none_left :
        (p : Progress) (last : TraceKey)
        → Inv p
        → 0 < p.remaining
        → next_traces log sel wide p.walk.watermark p.remaining ≡ inr ([], last)
        → Head p
    pub page_drained :
        (p : Progress)
        → Inv p
        → is_empty p.walk.page ≡ false
        → 0 < p.remaining
        → Drained Inv Whole Head p (drain log sel wide p)

  -- A drained page, by what each answer of the server makes of the walk.
  pub drain-Drained :
      (Inv Whole Head : Progress → Type 0) (p : Progress)
      → ((page : List OpenTelemetrySpan)
          → log.span_page wide p.walk.page p.walk.span_after true p.remaining ≡ inr page
          → Drained Inv Whole Head p (inr (drained_by page p)))
      → Drained Inv Whole Head p (drain log sel wide p)
  unfolding drain
  drain-Drained Inv Whole Head p k =
      elim (answer-cases (log.span_page wide p.walk.page p.walk.span_after true p.remaining)) [
        | inl (e, h) ↦ rw (h, drain) tt
        | inr (page, h) ↦ rw (h, drain) (k page h)
      ]

  module _ (Inv Whole Head : Progress → Type 0) (rule : Turns Inv Whole Head) where
    -- What the drained page decides of the turn: the end, the head, or the next turn.
    abbrev turn_ends :
        ℕ → Bool → Error ⊎ (Bool × Progress) → (Progress → Error ⊎ Walked) → Error ⊎ Walked
    turn_ends turns whole r rest = elim r [
      | inl e ↦ inl e
      | inr (true, q) ↦ inr (stopped turns q)
      | inr (false, q) ↦ if whole then inr (caught_up turns q) else rest q
    ]

    turn-Ended :
        (turns : ℕ) (whole : Bool) (p : Progress) (r : Error ⊎ (Bool × Progress))
        (rest : Progress → Error ⊎ Walked)
        → Drained Inv Whole Head p r
        → (whole ≡ true → Whole p)
        → ((q : Progress) → Inv q → Ended Inv Whole Head (rest q))
        → Ended Inv Whole Head (turn_ends turns whole r rest)
    turn-Ended turns whole p (inl e) rest d w k = tt
    turn-Ended turns whole p (inr (true, q)) rest d w k = d
    turn-Ended turns true p (inr (false, q)) rest d w k = (d.0, d.1 (w refl))
    turn-Ended turns false p (inr (false, q)) rest d w k = k q d.0

    pub forward-Ended :
        (turns : ℕ) (p : Progress) → Inv p → Ended Inv Whole Head (forward log sel wide turns p)
    unfolding forward
    forward-Ended zero p i = i
    forward-Ended (suc turns) p i = elim (Bool-cases (p.remaining == 0)) [
      | inl spent ↦ rw spent i
      | inr left ↦
          rw left (elim (answer-cases (next_traces log sel wide p.walk.watermark p.remaining)) [
            | inl (e, h) ↦ rw h tt
            | inr (([], last), h) ↦ rw h (i, rule.none_left p last i (ground arith) h)
            | inr ((id ∷ ids, last), h) ↦ rw h (
                let q = with_page (id ∷ ids) last p in
                let put = rule.page_put p id ids last i h in
                turn-Ended turns (ltb (length (id ∷ ids)) p.remaining) q (drain log sel wide q)
                  (forward log sel wide turns) (rule.page_drained q put.0 refl (ground arith))
                  (λ t. put.1 (ground arith)) (forward-Ended turns))
          ])
    ]

    pub walk_forward-Ended :
        (turns : ℕ) (p : Progress)
        → Inv p
        → Ended Inv Whole Head (walk_forward log sel wide turns p)
    unfolding walk_forward
    walk_forward-Ended turns p i = elim (Bool-cases (is_empty p.walk.page)) [
      | inl fresh ↦ rw fresh (forward-Ended turns p i)
      | inr carried ↦ elim (Bool-cases (p.remaining == 0)) [
        | inl spent ↦ rw (carried, spent) i
        | inr left ↦
            rw (carried, left)
              (turn-Ended turns false p (drain log sel wide p) (forward log sel wide turns)
                (rule.page_drained p i carried (ground arith)) (λ f. absurd (ground (arith, f)))
                (forward-Ended turns))
      ]
    ]
