-- ===== src/Tests/Walk.antt =====
-- The live walk on a log of one trace with one span, asked for a span at a time: the first fetch spends
-- its cap, the second one drains the carried page and reaches the head.
use mathlib.Core.List.{Memᴰ}
use click_dog.Common.{
  ℕ, zero, suc, ◌≤◌, ◌≡◌, ◌⊎◌, refl, inl, inr, true, Option, none, some, List, [], ◌∷◌, length, leb,
  Bool-cases, if◌then◌else◌, subst, arith,
}
use click_dog.Common.Int.{pos}
use click_dog.Common.Sets.{contains, nat_equality}
use click_dog.Model.{Error, external, OpenTelemetrySpan}
use click_dog.Reader.Walk.Bounds.{IsLimited, fetch_live_spans_bound}
use click_dog.Reader.Walk.Pages.{Contents, AtMost, Behind, IsTracePage, Answers}
use click_dog.Reader.Walk.History.{Call, fetch, commit, fresh, run, committed-covers-watermark}
use click_dog.Reader.Walk.Head.{fetch_live_spans-again, committed-Everything}
use click_dog.Reader.Walk.{
  signature_of, selection, fetch_live_spans, commit_live_spans, max_span_query_limit, TraceKey,
  SpanPosition, FetchOpts, SpanSelection, LiveWalkSignature, SpanLog, Progress,
}

abbrev row : OpenTelemetrySpan
row = record {
  hostname = "db1";
  trace_id = 7;
  span_id = 70;
  parent_span_id = 0;
  operation_name = "query";
  kind = "SERVER";
  start_time_us = 1;
  finish_time_us = 5;
  attributes = [];
  string_slice_attributes = [];
}

abbrev key : TraceKey
key = record { finish = 5; id = 7 }

abbrev db : Contents
db = record {
  traces = key ∷ [];
  rows = row ∷ [];
  trace_at_most = λ s t. leb s.finish t.finish;
  span_at_most = λ s t. leb s.finish t.finish;
}

abbrev traces_behind : Option TraceKey → ℕ → Error ⊎ (List ℕ × TraceKey)
traces_behind after zero = inl (external "limit")
traces_behind none (suc n) = inr (7 ∷ [], key)
traces_behind (some w) (suc n) = if leb 5 w.finish then inr ([], w) else inr (7 ∷ [], key)

abbrev rows_behind : Option SpanPosition → List ℕ → ℕ → Error ⊎ List OpenTelemetrySpan
rows_behind after ids zero = inl (external "limit")
rows_behind none ids (suc n) = inr (if contains ids 7 then row ∷ [] else [])
rows_behind (some c) ids (suc n) =
    inr (if contains ids 7 then (if leb 5 c.finish then [] else row ∷ []) else [])

abbrev log : SpanLog
log = record {
  trace_page = λ sel b up limit. traces_behind b.after limit;
  span_page = λ sel ids cursor up limit. rows_behind cursor ids limit;
}

only_key : (t : TraceKey) → Memᴰ t (key ∷ []) → t ≡ key
only_key t (Memᴰ.head e) = e
only_key t (Memᴰ.tail m) = elim m [ ]

only_row : (r : OpenTelemetrySpan) → Memᴰ r (row ∷ []) → r ≡ row
only_row r (Memᴰ.head e) = e
only_row r (Memᴰ.tail m) = elim m [ ]

key_behind :
    (after : Option TraceKey) (limit : ℕ) (ids : List ℕ) (last t : TraceKey)
    → traces_behind after limit ≡ inr (ids, last)
    → t ≡ key
    → AtMost db t after ⊎ (contains ids t.id ≡ true)
unfolding contains
key_behind after zero ids last t h e = absurd (ground (arith, h))
key_behind none (suc n) ids last t h e = inr (ground (arith, h, e))
key_behind (some w) (suc n) ids last t h e = elim (Bool-cases (leb 5 w.finish)) [
  | inl old ↦ inl (ground (arith, h, e))
  | inr new ↦ inr (ground (arith, h, e))
]

traces_behind-IsTracePage :
    (after : Option TraceKey) (limit : ℕ) (ids : List ℕ) (last : TraceKey)
    → traces_behind after limit ≡ inr (ids, last)
    → IsTracePage db after limit ids last
traces_behind-IsTracePage after limit ids last h = record {
  up_to_last = λ t m a. key_behind after limit ids last t h (only_key t m);
  all_if_short = λ t m a. key_behind after limit ids last t h (only_key t m);
}

row-Behind :
    (after : Option SpanPosition) (ids : List ℕ) (limit : ℕ) (page : List OpenTelemetrySpan)
    (r : OpenTelemetrySpan)
    → rows_behind after ids limit ≡ inr page
    → r ≡ row
    → contains ids r.trace_id ≡ true
    → Behind db r after ⊎ Memᴰ r page
row-Behind after ids zero page r h e c = absurd (ground (arith, h))
row-Behind none ids (suc n) page r h e c =
    let p : row ∷ [] ≡ page = ground (arith, h, e, c) in inr (subst (Memᴰ r) p (Memᴰ.head e))
row-Behind (some w) ids (suc n) page r h e c = elim (Bool-cases (leb 5 w.finish)) [
  | inl old ↦ inl (ground (arith, h, e))
  | inr new ↦
      let p : row ∷ [] ≡ page = ground (arith, h, e, c) in inr (subst (Memᴰ r) p (Memᴰ.head e))
]

rows_behind_limited :
    (after : Option SpanPosition) (ids : List ℕ) (limit : ℕ) (page : List OpenTelemetrySpan)
    → rows_behind after ids limit ≡ inr page
    → length page ≤ limit
rows_behind_limited after ids zero page h = absurd (ground (arith, h))
rows_behind_limited none ids (suc n) page h = ground (arith, h)
rows_behind_limited (some w) ids (suc n) page h = ground (arith, h)

log-Answers : (sel wide : SpanSelection) → Answers log sel wide db
log-Answers sel wide = record {
  first_traces = λ limit ids last h. traces_behind-IsTracePage none limit ids last h;
  later_traces = λ w limit ids last h. traces_behind-IsTracePage (some w) limit ids last h;
  span_rows = λ ids cursor limit page h. record {
    bounded = rows_behind_limited cursor ids limit page h;
    all_if_short = λ r m c s. row-Behind cursor ids limit page r h (only_row r m) c;
    up_to_last = λ s ss e r m c b. row-Behind cursor ids limit page r h (only_row r m) c;
  };
}

log-IsLimited : IsLimited log
log-IsLimited sel ids cursor up limit page h = rows_behind_limited cursor ids limit page h

abbrev opts : FetchOpts
opts = record {
  max_trace_duration_ms = pos 0;
  min_span_duration_ms = pos 0;
  max_span_duration_ms = pos 0;
  blacklist_operations = [];
}

abbrev at_start : LiveWalkSignature
at_start = signature_of (pos 0) 0 0 opts

fetch_live_spans_bound_example : (1 ≤ 1) × (1 ≤ max_span_query_limit)
unfolding fetch_live_spans contains
fetch_live_spans_bound_example =
    fetch_live_spans_bound log (pos 1000) 40 (pos 1) opts (fresh at_start).reader (row ∷ [])
      log-IsLimited refl

fetch_live_spans-again_example :
    fetch_live_spans log
      (pos 1000)
      40
      (pos 1)
      opts
      (fetch_live_spans log (pos 1000) 40 (pos 1) opts (fresh at_start).reader).0
    ≡ fetch_live_spans log (pos 1000) 40 (pos 1) opts (fresh at_start).reader
fetch_live_spans-again_example =
    fetch_live_spans-again (pos 1000) 40 (pos 1) opts log log (fresh at_start).reader

answered : Answers log (selection (pos 1000) 40 opts) (selection (pos 1000) 120 opts) db
answered = log-Answers (selection (pos 1000) 40 opts) (selection (pos 1000) 120 opts)

abbrev two_cycles : List Call
two_cycles = fetch log ∷ commit ∷ fetch log ∷ commit ∷ []

-- The key lies at the watermark of the second commit.
committed-covers-watermark_example :
    Memᴰ row (run (pos 1000) 40 (pos 1) opts two_cycles (fresh at_start)).committed
unfolding fetch_live_spans commit_live_spans contains
committed-covers-watermark_example =
    committed-covers-watermark (pos 1000) 40 (pos 1) opts db at_start two_cycles
      (answered, (tt, (answered, (tt, tt)))) key (Memᴰ.head refl) refl row (Memᴰ.head refl) refl

abbrev at_head : Progress
at_head = record {
  walk = record {
    signature = signature_of (pos 1000) 40 1 opts;
    watermark = some key;
    page = [];
    page_last = key;
    span_after = none;
  };
  remaining = 1;
  spans = [];
}

-- The second of two fetches, each of one span.
committed-Everything_example :
    Memᴰ row (run (pos 1000) 40 (pos 1) opts two_cycles (fresh at_start)).committed
unfolding fetch_live_spans commit_live_spans contains
committed-Everything_example =
    committed-Everything (pos 1000) 40 (pos 1) opts db at_start (fetch log ∷ commit ∷ []) log 7
      at_head [] (answered, (tt, tt)) answered refl refl key (Memᴰ.head refl) row (Memᴰ.head refl)
      refl
