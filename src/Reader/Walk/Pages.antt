-- ===== src/Reader/Walk/Pages.antt =====
-- What the pages of a span log hold: the documented answers of the two queries on a log that does
-- not change, in the server's order of traces and of spans.
use mathlib.Core.List.{Memᴰ}
use click_dog.Common.{ℕ, ◌≤◌, ◌<◌, ◌≡◌, ◌⊎◌, inr, Bool, true, Option, none, some, List, ◌∷◌, length}
use click_dog.Common.Sets.{contains, nat_equality}
use click_dog.Model.{OpenTelemetrySpan}
use click_dog.Reader.Walk.{TraceKey, SpanPosition, position_of, SpanSelection, SpanLog, last_of}

-- The qualifying traces, the rows that the span filters leave, and the server's two orders.
pub record Contents : Type 0 where
  pub traces : List TraceKey
  pub rows : List OpenTelemetrySpan
  pub trace_at_most : TraceKey → TraceKey → Bool
  pub span_at_most : SpanPosition → SpanPosition → Bool

module _ (db : Contents) where
  abbrev pub AtMost : TraceKey → Option TraceKey → Type 0
  AtMost t none = ⊥
  AtMost t (some w) = db.trace_at_most t w ≡ true

  abbrev pub Behind : OpenTelemetrySpan → Option SpanPosition → Type 0
  Behind r none = ⊥
  Behind r (some c) = db.span_at_most (position_of r) c ≡ true

  -- A page of traces, oldest first, behind a bound: all up to the last one, and all there are if the
  -- page is short.
  pub record IsTracePage (after : Option TraceKey) (limit : ℕ) (ids : List ℕ) (last : TraceKey)
      : Type 0 where
    pub up_to_last :
        (t : TraceKey)
        → Memᴰ t db.traces
        → db.trace_at_most t last ≡ true
        → AtMost t after ⊎ (contains ids t.id ≡ true)
    pub all_if_short :
        (t : TraceKey)
        → Memᴰ t db.traces
        → length ids < limit
        → AtMost t after ⊎ (contains ids t.id ≡ true)

  -- A page of rows of some traces, oldest first, behind a cursor: all up to the last one, and all
  -- there are if the page is short. `LIMIT` bounds it.
  pub record IsSpanPage (ids : List ℕ) (cursor : Option SpanPosition) (limit : ℕ)
      (page : List OpenTelemetrySpan) : Type 0 where
    pub bounded : length page ≤ limit
    pub all_if_short :
        (r : OpenTelemetrySpan)
        → Memᴰ r db.rows
        → contains ids r.trace_id ≡ true
        → length page < limit
        → Behind r cursor ⊎ Memᴰ r page
    pub up_to_last :
        (s : OpenTelemetrySpan) (ss : List OpenTelemetrySpan)
        → page ≡ s ∷ ss
        → (r : OpenTelemetrySpan) → Memᴰ r db.rows
        → contains ids r.trace_id ≡ true
        → db.span_at_most (position_of r) (position_of (last_of s ss)) ≡ true
        → Behind r cursor ⊎ Memᴰ r page

-- The answers to the forward walk's queries are the pages of one log, whether asked with the lookback
-- or, from a watermark on, with the wider window.
pub record Answers (log : SpanLog) (sel wide : SpanSelection) (db : Contents) : Type 0 where
  pub first_traces :
      (limit : ℕ) (ids : List ℕ) (last : TraceKey)
      → log.trace_page sel
          (record { after = none; before = none; at_or_before = none; finished_from = none })
          true
          limit
        ≡ inr (ids, last)
      → IsTracePage db none limit ids last
  pub later_traces :
      (w : TraceKey) (limit : ℕ) (ids : List ℕ) (last : TraceKey)
      → log.trace_page wide
          (record {
            after = some w;
            before = none;
            at_or_before = none;
            finished_from = some w.finish;
          })
          true
          limit
        ≡ inr (ids, last)
      → IsTracePage db (some w) limit ids last
  pub span_rows :
      (ids : List ℕ) (cursor : Option SpanPosition) (limit : ℕ) (page : List OpenTelemetrySpan)
      → log.span_page wide ids cursor true limit ≡ inr page
      → IsSpanPage db ids cursor limit page
