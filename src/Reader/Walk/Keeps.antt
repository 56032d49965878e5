-- ===== src/Reader/Walk/Keeps.antt =====
-- What a whole fetch keeps of the walk that it began with: the rest of a page is behind it.
use mathlib.Core.List.{Memᴰ}
use click_dog.Common.{
  ℕ, zero, suc, ◌-◌, ◌≡◌, ◌⊎◌, refl, subst, inl, inr, false, Option, none, some, List, [], ◌∷◌,
  ◌++◌, length, ltb, ◌==◌, Bool-cases, arith, mem_append_left,
}
use click_dog.Model.{Error, OpenTelemetrySpan}
use click_dog.Reader.Walk.Turns.{answer-cases, Ended, walk_forward-Ended}
use click_dog.Reader.Walk.Pages.{Contents, Answers}
use click_dog.Reader.Walk.Covers.{Covers, Or, IsGood, IsWhole, IsComplete, turns}
use click_dog.Reader.Walk.{
  TraceKey, SpanSelection, LiveWalkSignature, LiveWalk, SpanLog, Progress, stopped, caught_up,
  walk_forward, reread, then_reread, walk_page, new_walk,
}

module _ (log : SpanLog) (sel : SpanSelection) (r : OpenTelemetrySpan) where
  Holds : Error ⊎ List OpenTelemetrySpan → Type 0
  Holds (inl e) = Unit
  Holds (inr spans) = Memᴰ r spans

  -- What is read again comes behind what was read.
  reread-Holds :
      (wide : SpanSelection) (turns : ℕ) (start : TraceKey) (before : Option TraceKey)
      (remaining : ℕ) (spans : List OpenTelemetrySpan)
      → Memᴰ r spans
      → Holds (reread log sel wide turns start before remaining spans)
  unfolding reread Holds
  reread-Holds wide zero start before remaining spans m = m
  reread-Holds wide (suc turns) start before remaining spans m =
      elim (Bool-cases (remaining == 0)) [
        | inl spent ↦ rw spent m
        | inr left ↦
            rw left
              (elim (answer-cases (
                log.trace_page sel
                  (record {
                    after = none;
                    before = before;
                    at_or_before = some start;
                    finished_from = none;
                  })
                  false remaining)) [
                    | inl (e, h) ↦ rw h tt
                    | inr (([], last), h) ↦ rw h m
                    | inr ((id ∷ ids, last), h) ↦
                        rw h
                          (elim (answer-cases (log.span_page sel (id ∷ ids) none false remaining)) [
                            | inl (e, k) ↦ rw k tt
                            | inr (page, k) ↦
                                elim (Bool-cases (ltb (length (id ∷ ids)) remaining)) [
                                  | inl head ↦ rw (k, head) (mem_append_left r spans page m)
                                  | inr more ↦
                                      rw (k, more)
                                        (reread-Holds wide turns start (some last)
                                          (remaining - length page) (spans ++ page)
                                          (mem_append_left r spans page m))
                                ]
                          ])
                  ])
      ]

  pub then_reread-Holds :
      (wide : SpanSelection) (turns : ℕ) (p : Progress) (watermark : Option TraceKey)
      (walk : LiveWalk) (spans : List OpenTelemetrySpan)
      → then_reread log sel wide turns p watermark ≡ inr (walk, spans)
      → Memᴰ r p.spans
      → Memᴰ r spans
  unfolding then_reread Holds
  then_reread-Holds wide turns p none walk spans h m =
      let same : p.spans ≡ spans = cc in subst (Memᴰ r) same m
  then_reread-Holds wide turns p (some start) walk spans h m =
      let held = reread-Holds wide turns start none p.remaining p.spans m in
      elim (answer-cases (reread log sel wide turns start none p.remaining p.spans)) [
        | inl (e, k) ↦ absurd (ground (arith, h, k))
        | inr (got, k) ↦
            let same : got ≡ spans = ground (arith, h, k) in
            subst (Memᴰ r) same (subst Holds k held)
      ]

then_reread-walk :
    (log : SpanLog) (sel wide : SpanSelection) (turns : ℕ) (p : Progress)
    (watermark : Option TraceKey) (walk : LiveWalk) (spans : List OpenTelemetrySpan)
    → then_reread log sel wide turns p watermark ≡ inr (walk, spans)
    → p.walk ≡ walk
unfolding then_reread
then_reread-walk log sel wide turns p none walk spans h = cc
then_reread-walk log sel wide turns p (some start) walk spans h =
    elim (answer-cases (reread log sel wide turns start none p.remaining p.spans)) [
      | inl (e, k) ↦ absurd (ground (arith, h, k))
      | inr (got, k) ↦ ground (arith, h, k)
    ]

module _ (db : Contents) where
  pub Covers_mono :
      (S T : OpenTelemetrySpan → Type 0) (v w : LiveWalk)
      → ((r : OpenTelemetrySpan) → S r → T r)
      → v ≡ w
      → Covers db v S
      → Covers db w T
  Covers_mono S T v w f e c =
      subst (λ u. Covers db u T) e
        (record {
          below = λ t m a r n k. f r (c.below t m a r n k);
          drained = λ r m k b. f r (c.drained r m k b);
          page_whole = c.page_whole;
        })

  pub Covers-new_walk :
      (s : LiveWalkSignature) (S : OpenTelemetrySpan → Type 0) → Covers db (new_walk s) S
  Covers-new_walk s S = record {
    below = λ t m a. absurd a;
    drained = λ r m k b. absurd b;
    page_whole = λ e. absurd (ground (arith, e));
  }

  module _ (Before : OpenTelemetrySpan → Type 0) (log : SpanLog) (sel wide : SpanSelection)
      (answers : Answers log sel wide db) (cap : ℕ) where
    abbrev pub start_of : LiveWalk → Progress
    start_of walk = record { walk = walk; remaining = cap; spans = [] }

    abbrev pub Kept : Error ⊎ (LiveWalk × List OpenTelemetrySpan) → Type 0
    Kept (inl e) = Unit
    Kept (inr (walk, spans)) = Covers db walk (Or db Before spans)

    pub walk_forward-start :
        (start : LiveWalk)
        → Covers db start Before
        → Ended
            (IsGood db Before)
            (IsWhole db)
            (IsComplete db Before)
            (walk_forward log sel wide 8 (start_of start))
    walk_forward-start start c =
        walk_forward-Ended log sel wide (IsGood db Before) (IsWhole db) (IsComplete db Before)
          (turns db Before log sel wide answers) 8 (start_of start)
          (Covers_mono Before (Or db Before []) start start (λ r b. inl b) refl c)

    pub walk_page-Kept :
        (start : LiveWalk) → Covers db start Before → Kept (walk_page log sel wide cap start)
    unfolding walk_page
    walk_page-Kept start c =
        let ended = walk_forward-start start c in
        elim (answer-cases (walk_forward log sel wide 8 (start_of start))) [
          | inl (e, h) ↦ rw (h, walk_page) tt
          | inr (stopped n q, h) ↦
              let g : IsGood db Before q =
                subst (Ended (IsGood db Before) (IsWhole db) (IsComplete db Before)) h ended in
              rw (h, walk_page) g
          | inr (caught_up n q, h) ↦
              let g : IsGood db Before q × IsComplete db Before q =
                subst (Ended (IsGood db Before) (IsWhole db) (IsComplete db Before)) h ended in
              rw (h, walk_page)
                (rest n q g.0 start.watermark
                  (answer-cases (then_reread log sel wide n q start.watermark)))
        ]
      where
        rest :
            (n : ℕ) (q : Progress)
            → IsGood db Before q
            → (watermark : Option TraceKey)
            → ((e : Error) × (then_reread log sel wide n q watermark ≡ inl e))
              ⊎ ((a : LiveWalk × List OpenTelemetrySpan) × (then_reread log sel wide n q watermark
                    ≡ inr a))
            → Kept (then_reread log sel wide n q watermark)
        rest n q g watermark (inl (e, h)) = rw h tt
        rest n q g watermark (inr ((walk, spans), h)) = rw h (
            Covers_mono (Or db Before q.spans) (Or db Before spans) q.walk walk
              (λ r o. elim o [
                | inl b ↦ inl b
                | inr m ↦ inr (then_reread-Holds log sel r wide n q watermark walk spans h m)
              ])
              (then_reread-walk log sel wide n q watermark walk spans h) g)
