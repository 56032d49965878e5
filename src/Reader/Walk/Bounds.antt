-- ===== src/Reader/Walk/Bounds.antt =====
-- The spans of a fetch against its cap.
use click_dog.Common.{
  ℕ, zero, suc, ◌+◌, ◌-◌, ◌≤◌, ◌*◌, ◌≡◌, ◌⊎◌, subst, inl, inr, Bool, true, false, Option, none,
  some, List, [], ◌∷◌, ◌++◌, length, length-append, ltb, ◌==◌, Bool-cases, arith,
}
use click_dog.Common.Int.{ℤ}
use click_dog.Model.{Error, OpenTelemetrySpan}
use click_dog.Reader.Walk.Turns.{
  answer-cases, Drained, drain-Drained, Ended, Turns, walk_forward-Ended,
}
use click_dog.Reader.Walk.{
  TraceKey, SpanPosition, FetchOpts, SpanSelection, LiveWalk, ClickHouseReader, SpanLog, Progress,
  stopped, caught_up, max_span_query_limit, resolve_span_limit, drained_by, walk_forward, reread,
  then_reread, walk_page, fetch_live_spans, starting_walk, signature_of, selection,
}

pub resolve_span_limit_bounds :
    (n : ℤ) → (1 ≤ resolve_span_limit n) × (resolve_span_limit n ≤ max_span_query_limit)
unfolding resolve_span_limit
resolve_span_limit_bounds (ℤ.pos n) = ground arith
resolve_span_limit_bounds (ℤ.negsuc n) = ground arith

-- What the server's `LIMIT` promises of the rows.
abbrev pub IsLimited : SpanLog → Type 0
IsLimited log =
    (sel : SpanSelection) (ids : List ℕ) (cursor : Option SpanPosition) (up : Bool) (limit : ℕ)
    (page : List OpenTelemetrySpan)
    → log.span_page sel ids cursor up limit ≡ inr page
    → length page ≤ limit

module _ (log : SpanLog) (sel wide : SpanSelection) (limited : IsLimited log) (cap : ℕ) where
  -- What is left and what is read make the cap.
  abbrev IsWithin : Progress → Type 0
  IsWithin p = length p.spans + p.remaining ≡ cap

  abbrev Any : Progress → Type 0
  Any p = Unit

  drained_by-IsWithin :
      (p : Progress) (page : List OpenTelemetrySpan)
      → IsWithin p
      → length page ≤ p.remaining
      → IsWithin (drained_by page p).1
  unfolding drained_by
  drained_by-IsWithin p page w short = ground (arith, length-append p.spans page)

  Drained-any :
      (p : Progress) (r : Bool × Progress) → IsWithin r.1 → Drained IsWithin Any Any p (inr r)
  Drained-any p (true, q) w = w
  Drained-any p (false, q) w = (w, λ a. tt)

  turns : Turns log sel wide IsWithin Any Any
  turns = record {
    page_put = λ p id ids last w h. (w, λ s. tt);
    none_left = λ p last w r h. tt;
    page_drained = λ p w f r. drain-Drained log sel wide IsWithin Any Any p (λ page h.
        Drained-any p (drained_by page p) (
          drained_by-IsWithin p page w
            (limited wide p.walk.page p.walk.span_after true p.remaining page h)));
  }

  abbrev IsShort : Error ⊎ List OpenTelemetrySpan → Type 0
  IsShort (inl e) = Unit
  IsShort (inr spans) = length spans ≤ cap

  reread-IsShort :
      (turns : ℕ) (start : TraceKey) (before : Option TraceKey) (remaining : ℕ)
      (spans : List OpenTelemetrySpan)
      → length spans + remaining ≡ cap
      → IsShort (reread log sel wide turns start before remaining spans)
  unfolding reread
  reread-IsShort zero start before remaining spans w = omega arith
  reread-IsShort (suc turns) start before remaining spans w = elim (Bool-cases (remaining == 0)) [
    | inl spent ↦ rw spent (omega arith)
    | inr left ↦
        rw left
          (elim (answer-cases (
            log.trace_page sel
              (record {
                after = none;
                before = before;
                at_or_before = some start;
                finished_from = none;
              })
              false remaining)) [
                | inl (e, h) ↦ rw h tt
                | inr (([], last), h) ↦ rw h (omega arith)
                | inr ((id ∷ ids, last), h) ↦
                    rw h (elim (answer-cases (log.span_page sel (id ∷ ids) none false remaining)) [
                      | inl (e, k) ↦ rw k tt
                      | inr (page, k) ↦
                          let short = limited sel (id ∷ ids) none false remaining page k in
                          let sum = length-append spans page in
                          elim (Bool-cases (ltb (length (id ∷ ids)) remaining)) [
                            | inl head ↦ rw (k, head) (omega arith)
                            | inr more ↦
                                rw (k, more)
                                  (reread-IsShort turns start (some last) (remaining - length page)
                                    (spans ++ page) (omega arith))
                          ]
                    ])
              ])
  ]

  abbrev IsShortPage : Error ⊎ (LiveWalk × List OpenTelemetrySpan) → Type 0
  IsShortPage (inl e) = Unit
  IsShortPage (inr (walk, spans)) = length spans ≤ cap

  walk_page-IsShortPage : (start : LiveWalk) → IsShortPage (walk_page log sel wide cap start)
  unfolding walk_page then_reread
  walk_page-IsShortPage start =
      let p : Progress = record { walk = start; remaining = cap; spans = [] } in
      let ended = walk_forward-Ended log sel wide IsWithin Any Any turns 8 p (omega arith) in
      elim (answer-cases (walk_forward log sel wide 8 p)) [
        | inl (e, h) ↦ rw (h, walk_page) tt
        | inr (stopped n q, h) ↦
            let w : IsWithin q = subst (Ended IsWithin Any Any) h ended in
            rw (h, walk_page) (omega arith)
        | inr (caught_up n q, h) ↦
            let w : IsWithin q × Unit = subst (Ended IsWithin Any Any) h ended in
            rw (h, walk_page) (rest n q w.0 start.watermark)
      ]
    where
      rest :
          (n : ℕ) (q : Progress)
          → IsWithin q
          → (watermark : Option TraceKey) → IsShortPage (then_reread log sel wide n q watermark)
      rest n q w none = omega arith
      rest n q w (some start) =
          let s = reread-IsShort n start none q.remaining q.spans w in
          elim (answer-cases (reread log sel wide n start none q.remaining q.spans)) [
            | inl (e, h) ↦ rw (h, then_reread) tt
            | inr (spans, h) ↦ rw (h, then_reread) (subst IsShort h s)
          ]

-- A fetch returns at most the effective limit of spans.
pub fetch_live_spans_bound :
    (log : SpanLog) (min_ms : ℤ) (lookback : ℕ) (limit : ℤ) (opts : FetchOpts)
    (c : ClickHouseReader) (spans : List OpenTelemetrySpan)
    → IsLimited log
    → (fetch_live_spans log min_ms lookback limit opts c).1 ≡ inr spans
    → (length spans ≤ resolve_span_limit limit) × (resolve_span_limit limit ≤ max_span_query_limit)
unfolding fetch_live_spans
fetch_live_spans_bound log min_ms lookback limit opts c spans limited h =
    let effective = resolve_span_limit limit in
    let start = starting_walk (signature_of min_ms lookback effective opts) c.live in
    let sel = selection min_ms lookback opts in
    let wide = selection min_ms (3 * lookback) opts in
    let s = walk_page-IsShortPage log sel wide limited effective start in
    elim (answer-cases (walk_page log sel wide effective start)) [
      | inl (e, k) ↦ absurd (ground (arith, k, h))
      | inr ((walk, got), k) ↦
          let short : length got ≤ effective =
            subst (IsShortPage log sel wide limited effective) k s in
          let same : got ≡ spans = ground (arith, k, h) in
          (subst (λ l. length l ≤ effective) same short, (resolve_span_limit_bounds limit).1)
    ]
