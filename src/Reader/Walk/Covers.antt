-- ===== src/Reader/Walk/Covers.antt =====
-- What a walk has covered: every trace keyed at or below the watermark is delivered, and of the page
-- being drained every span up to the cursor. A page read from a walk extends what it covers.
use mathlib.Core.List.{Memᴰ}
use click_dog.Common.{
  ℕ, ◌-◌, ◌<◌, ◌≡◌, ◌⊎◌, refl, inl, inr, true, false, Option, none, some, List, [], ◌∷◌, ◌++◌,
  length, ◌==◌, is_empty, Bool-cases, arith, mem_append_left, mem_append_right,
}
use click_dog.Common.Sets.{contains, nat_equality}
use click_dog.Model.{OpenTelemetrySpan}
use click_dog.Reader.Walk.Turns.{Drained, drain-Drained, Turns}
use click_dog.Reader.Walk.{
  TraceKey, SpanSelection, LiveWalk, SpanLog, Progress, cursor_behind, advance, drained_by,
  next_traces, with_page,
}
use click_dog.Reader.Walk.Pages.{Contents, AtMost, Behind, IsTracePage, IsSpanPage, Answers}

not-contains : (k : ℕ) → contains [] k ≡ true → ⊥
unfolding contains
not-contains k h = ground (arith, h)

module _ (db : Contents) where
  -- All spans of a trace have been seen.
  abbrev pub Delivered : (OpenTelemetrySpan → Type 0) → TraceKey → Type 0
  Delivered Seen t = (r : OpenTelemetrySpan) → Memᴰ r db.rows → r.trace_id ≡ t.id → Seen r

  pub record Covers (walk : LiveWalk) (Seen : OpenTelemetrySpan → Type 0) : Type 0 where
    pub below : (t : TraceKey) → Memᴰ t db.traces → AtMost db t walk.watermark → Delivered Seen t
    pub drained :
        (r : OpenTelemetrySpan)
        → Memᴰ r db.rows
        → contains walk.page r.trace_id ≡ true
        → Behind db r walk.span_after
        → Seen r
    pub page_whole :
        is_empty walk.page ≡ false
        → (t : TraceKey) → Memᴰ t db.traces
        → db.trace_at_most t walk.page_last ≡ true
        → AtMost db t walk.watermark ⊎ (contains walk.page t.id ≡ true)

  abbrev pub Everything : (OpenTelemetrySpan → Type 0) → Type 0
  Everything Seen = (t : TraceKey) → Memᴰ t db.traces → Delivered Seen t

  -- What was seen before or is among the spans.
  abbrev pub Or : (OpenTelemetrySpan → Type 0) → List OpenTelemetrySpan → OpenTelemetrySpan → Type 0
  Or Before spans r = Before r ⊎ Memᴰ r spans

  grow :
      (Before : OpenTelemetrySpan → Type 0) (spans page : List OpenTelemetrySpan)
      (r : OpenTelemetrySpan)
      → Or Before spans r
      → Or Before (spans ++ page) r
  grow Before spans page r (inl b) = inl b
  grow Before spans page r (inr m) = inr (mem_append_left r spans page m)

  -- A page that ends the log holds what is left of it.
  abbrev pub IsWhole : Progress → Type 0
  IsWhole p =
      (t : TraceKey)
      → Memᴰ t db.traces
      → AtMost db t p.walk.watermark ⊎ (contains p.walk.page t.id ≡ true)

  module _ (Before : OpenTelemetrySpan → Type 0) where
    abbrev pub IsGood : Progress → Type 0
    IsGood p = Covers p.walk (Or Before p.spans)

    -- A page that spends the cap moves the cursor.
    full-IsGood :
        (p : Progress) (limit left : ℕ) (page : List OpenTelemetrySpan)
        → IsGood p
        → IsSpanPage db p.walk.page p.walk.span_after limit page
        → IsGood (record {
          walk = record p.walk { span_after = cursor_behind page };
          remaining = left;
          spans = p.spans ++ page;
        })
    full-IsGood p limit left page g s = record {
      below = λ t m a r n e. grow Before p.spans page r (g.below t m a r n e);
      drained = moved page s;
      page_whole = g.page_whole;
    }
      where
        moved :
            (page : List OpenTelemetrySpan)
            → IsSpanPage db p.walk.page p.walk.span_after limit page
            → (r : OpenTelemetrySpan) → Memᴰ r db.rows
            → contains p.walk.page r.trace_id ≡ true
            → Behind db r (cursor_behind page)
            → Or Before (p.spans ++ page) r
        moved [] s r m c b = absurd b
        moved (x ∷ xs) s r m c b = elim (s.up_to_last x xs refl r m c b) [
          | inl old ↦ grow Before p.spans (x ∷ xs) r (g.drained r m c old)
          | inr new ↦ inr (mem_append_right r p.spans (x ∷ xs) new)
        ]

    -- A page within the cap ends its traces.
    short-seen :
        (p : Progress) (limit : ℕ) (page : List OpenTelemetrySpan)
        → IsGood p
        → IsSpanPage db p.walk.page p.walk.span_after limit page
        → length page < limit
        → (t : TraceKey) → Memᴰ t db.traces
        → AtMost db t p.walk.watermark ⊎ (contains p.walk.page t.id ≡ true)
        → Delivered (Or Before (p.spans ++ page)) t
    short-seen p limit page g s short t m (inl low) r n e =
        grow Before p.spans page r (g.below t m low r n e)
    short-seen p limit page g s short t m (inr on_page) r n e =
        let c : contains p.walk.page r.trace_id ≡ true = rw e on_page in
        elim (s.all_if_short r n c short) [
          | inl old ↦ grow Before p.spans page r (g.drained r n c old)
          | inr new ↦ inr (mem_append_right r p.spans page new)
        ]

    short-IsGood :
        (p : Progress) (limit left : ℕ) (page : List OpenTelemetrySpan)
        → IsGood p
        → is_empty p.walk.page ≡ false
        → IsSpanPage db p.walk.page p.walk.span_after limit page
        → length page < limit
        → IsGood (record { walk = advance p.walk; remaining = left; spans = p.spans ++ page })
    short-IsGood p limit left page g ne s short = record {
      below = λ t m a. short-seen p limit page g s short t m (g.page_whole ne t m a);
      drained = λ r m c b. absurd (not-contains r.trace_id c);
      page_whole = λ h. absurd (ground (arith, h));
    }

    -- A page of traces put under the walk.
    with_page-IsGood :
        (p : Progress) (limit : ℕ) (ids : List ℕ) (last : TraceKey)
        → IsGood p
        → IsTracePage db p.walk.watermark limit ids last
        → IsGood (with_page ids last p)
    with_page-IsGood p limit ids last g t = record {
      below = g.below;
      drained = λ r m c b. absurd b;
      page_whole = λ ne k m a. t.up_to_last k m a;
    }

    abbrev pub IsComplete : Progress → Type 0
    IsComplete p = Everything (Or Before p.spans)

  module _ (Before : OpenTelemetrySpan → Type 0) (log : SpanLog) (sel wide : SpanSelection)
      (answers : Answers log sel wide db) where
    next_traces-IsTracePage :
        (watermark : Option TraceKey) (limit : ℕ) (ids : List ℕ) (last : TraceKey)
        → next_traces log sel wide watermark limit ≡ inr (ids, last)
        → IsTracePage db watermark limit ids last
    next_traces-IsTracePage none limit ids last h = answers.first_traces limit ids last h
    next_traces-IsTracePage (some w) limit ids last h = answers.later_traces w limit ids last h

    drained_by-Drained :
        (p : Progress) (page : List OpenTelemetrySpan)
        → IsGood Before p
        → is_empty p.walk.page ≡ false
        → IsSpanPage db p.walk.page p.walk.span_after p.remaining page
        → Drained (IsGood Before) IsWhole (IsComplete Before) p (inr (drained_by page p))
    unfolding drained_by
    drained_by-Drained p page g ne s = elim (Bool-cases (length page == p.remaining)) [
      | inl full ↦ rw full (full-IsGood Before p p.remaining 0 page g s)
      | inr left ↦
          let short : length page < p.remaining = ground (arith, s.bounded) in
          rw left (
            short-IsGood Before p p.remaining (p.remaining - length page) page g ne s short,
            λ whole t m. short-seen Before p p.remaining page g s short t m (whole t m),
          )
    ]

    pub turns : Turns log sel wide (IsGood Before) IsWhole (IsComplete Before)
    turns = record {
      page_put = λ p id ids last g h.
          let t = next_traces-IsTracePage p.walk.watermark p.remaining (id ∷ ids) last h in
          (
            with_page-IsGood Before p p.remaining (id ∷ ids) last g t,
            λ s k m. t.all_if_short k m s,
          );
      none_left = λ p last g r h t m.
          elim ((next_traces-IsTracePage p.walk.watermark p.remaining [] last h).all_if_short t m
            r) [ inl low ↦ g.below t m low | inr on ↦ absurd (not-contains t.id on) ];
      page_drained = λ p g ne r.
          drain-Drained log sel wide (IsGood Before) IsWhole (IsComplete Before) p (λ page h.
            drained_by-Drained p page g ne
              (answers.span_rows p.walk.page p.walk.span_after p.remaining page h));
    }
