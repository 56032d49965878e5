-- ===== src/Reader/Walk.antt =====
-- internal/clickhouse/reader.go: the scheduled mode's walk through the span log, FetchLiveSpans and
-- CommitLiveSpans. The SQL of a page is text for the server: `queryTracePage` and `querySpanPage`
-- are taken by what the server answers to their arguments.
pub mod Pages
pub mod Turns
pub mod Bounds
pub mod Covers
pub mod Keeps
pub mod History
pub mod Head
use Prim.Native.Char.{nul}
use Prim.Native.String.{String, ◌++◌ as ◌⧺◌}
use click_dog.Common.{
  ℕ, zero, suc, ◌-◌, ◌*◌, Bool, true, false, ◌&&◌, ◌||◌, not, str_eq, ◌⊎◌, inl, inr, Option, none,
  some, List, [], ◌∷◌, ◌++◌, length, ltb, ◌==◌, is_empty, is_some, if◌then◌else◌,
}
use click_dog.Common.Int.{ℤ, pos, negsuc}
use click_dog.Model.{Error, OpenTelemetrySpan}

-- A trace's newest qualifying finish time, and its ID.
pub record TraceKey : Type 0 where
  pub finish : ℕ
  pub id : ℕ

pub record SpanPosition : Type 0 where
  pub finish : ℕ
  pub trace : ℕ
  pub span : ℕ

abbrev pub position_of : OpenTelemetrySpan → SpanPosition
position_of s = record { finish = s.finish_time_us; trace = s.trace_id; span = s.span_id }

-- A nil bound is open.
pub record TraceBounds : Type 0 where
  pub after : Option TraceKey
  pub before : Option TraceKey
  pub at_or_before : Option TraceKey
  pub finished_from : Option ℕ

pub record FetchOpts : Type 0 where
  pub max_trace_duration_ms : ℤ
  pub min_span_duration_ms : ℤ
  pub max_span_duration_ms : ℤ
  pub blacklist_operations : List String

-- The selection that a page is asked for, its lookback in nanoseconds.
pub record SpanSelection : Type 0 where
  pub lookback : ℕ
  pub min_trace_duration_ms : ℤ
  pub opts : FetchOpts

pub record LiveWalkSignature : Type 0 where
  pub min_trace_duration_ms : ℤ
  pub max_trace_duration_ms : ℤ
  pub min_span_duration_ms : ℤ
  pub max_span_duration_ms : ℤ
  pub lookback : ℕ
  pub limit : ℕ
  pub blacklist : String

-- A nil page is the empty one: an empty page is never kept.
pub record LiveWalk : Type 0 where
  pub signature : LiveWalkSignature
  pub watermark : Option TraceKey
  pub page : List ℕ
  pub page_last : TraceKey
  pub span_after : Option SpanPosition

pub record ClickHouseReader : Type 0 where
  pub live : LiveWalk
  pub live_pending : Option LiveWalk

-- The server's answers: to a selection, bounds, whether the oldest come first, and a limit, the IDs
-- and the key of the last; to a selection, trace IDs, a cursor, the order and a limit, the rows.
pub record SpanLog : Type 0 where
  pub trace_page : SpanSelection → TraceBounds → Bool → ℕ → Error ⊎ (List ℕ × TraceKey)
  pub span_page :
      SpanSelection → List ℕ → Option SpanPosition → Bool → ℕ → Error ⊎ List OpenTelemetrySpan

abbrev pub max_span_query_limit : ℕ
max_span_query_limit = 100_000

unfoldable pub resolve_span_limit : ℤ → ℕ
resolve_span_limit (negsuc n) = max_span_query_limit
resolve_span_limit (pos n) =
    if n == 0 || ltb max_span_query_limit n then max_span_query_limit else n

-- `strings.Join(…, "\x00")`
abbrev pub join_nul : List String → String
join_nul [] = ""
join_nul (s ∷ []) = s
join_nul (s ∷ t ∷ ss) = s ⧺ String.◌∷◌ nul (join_nul (t ∷ ss))

abbrev pub int_same : ℤ → ℤ → Bool
int_same (pos m) (pos n) = m == n
int_same (negsuc m) (negsuc n) = m == n
int_same (pos m) (negsuc n) = false
int_same (negsuc m) (pos n) = false

abbrev pub signature_same : LiveWalkSignature → LiveWalkSignature → Bool
signature_same a b =
    int_same a.min_trace_duration_ms b.min_trace_duration_ms
    && int_same a.max_trace_duration_ms b.max_trace_duration_ms
    && int_same a.min_span_duration_ms b.min_span_duration_ms
    && int_same a.max_span_duration_ms b.max_span_duration_ms
    && a.lookback == b.lookback
    && a.limit == b.limit
    && str_eq a.blacklist b.blacklist

abbrev pub no_key : TraceKey
no_key = record { finish = 0; id = 0 }

abbrev pub new_walk : LiveWalkSignature → LiveWalk
new_walk s = record {
  signature = s;
  watermark = none;
  page = [];
  page_last = no_key;
  span_after = none;
}

-- `page[len(page)-1]`, asked for a page that is not empty.
abbrev pub last_of : OpenTelemetrySpan → List OpenTelemetrySpan → OpenTelemetrySpan
last_of s [] = s
last_of s (t ∷ ts) = last_of t ts

-- The cursor behind a page; an empty page has none.
abbrev pub cursor_behind : List OpenTelemetrySpan → Option SpanPosition
cursor_behind [] = none
cursor_behind (s ∷ ss) = some (position_of (last_of s ss))

-- The variables of the loops. `tracePages` is counted down by their turns.
pub record Progress : Type 0 where
  pub walk : LiveWalk
  pub remaining : ℕ
  pub spans : List OpenTelemetrySpan

-- How a loop over the pages ends: with the cap or the turns spent, or at the head of the log; in
-- both cases with the turns that are left.
pub data Walked : Type 0 where
  stopped : ℕ → Progress → Walked
  caught_up : ℕ → Progress → Walked

abbrev pub advance : LiveWalk → LiveWalk
advance w = record w { watermark = some w.page_last; page = []; span_after = none }

abbrev pub with_page : List ℕ → TraceKey → Progress → Progress
with_page ids last p = record p {
  walk = record p.walk { page = ids; page_last = last; span_after = none };
}

-- What a page of spans makes of the walk, and whether it spends the cap.
unfoldable pub drained_by : List OpenTelemetrySpan → Progress → Bool × Progress
drained_by page p =
    if length page == p.remaining
    then (
      true,
      record {
        walk = record p.walk { span_after = cursor_behind page };
        remaining = 0;
        spans = p.spans ++ page;
      },
    )
    else (
      false,
      record {
        walk = advance p.walk;
        remaining = p.remaining - length page;
        spans = p.spans ++ page;
      },
    )

module _ (log : SpanLog) (sel wide : SpanSelection) where
  -- One page of the spans of the walk's trace page.
  unfoldable pub drain : Progress → Error ⊎ (Bool × Progress)
  unfolding drained_by
  drain p = elim (log.span_page wide p.walk.page p.walk.span_after true p.remaining) [
    | inl e ↦ inl e
    | inr page ↦ inr (drained_by page p)
  ]

  -- The next page of traces behind a watermark.
  abbrev pub next_traces : Option TraceKey → ℕ → Error ⊎ (List ℕ × TraceKey)
  next_traces none limit =
      log.trace_page sel
        (record { after = none; before = none; at_or_before = none; finished_from = none }) true
        limit
  next_traces (some w) limit =
      log.trace_page wide
        (record {
          after = some w;
          before = none;
          at_or_before = none;
          finished_from = some w.finish;
        })
        true limit

  -- The loop from a walk with no page on.
  unfoldable pub forward : ℕ → Progress → Error ⊎ Walked
  unfolding drain
  forward zero p = inr (stopped zero p)
  forward (suc turns) p =
      if p.remaining == 0
      then inr (stopped (suc turns) p)
      else elim (next_traces p.walk.watermark p.remaining) [
        | inl e ↦ inl e
        | inr ([], last) ↦ inr (caught_up turns p)
        | inr (id ∷ ids, last) ↦ elim (drain (with_page (id ∷ ids) last p)) [
          | inl e ↦ inl e
          | inr (true, q) ↦ inr (stopped turns q)
          | inr (false, q) ↦
              if ltb (length (id ∷ ids)) p.remaining
              then inr (caught_up turns q)
              else forward turns q
        ]
      ]

  -- The whole forward walk: a page carried over from an earlier fetch is drained first.
  unfoldable pub walk_forward : ℕ → Progress → Error ⊎ Walked
  unfolding forward drain
  walk_forward turns p =
      if is_empty p.walk.page
      then forward turns p
      else if p.remaining == 0
      then inr (stopped turns p)
      else elim (drain p) [
        | inl e ↦ inl e
        | inr (true, q) ↦ inr (stopped turns q)
        | inr (false, q) ↦ forward turns q
      ]

  -- The rest of the cap, newest first, among what earlier fetches delivered.
  unfoldable pub reread :
      ℕ → TraceKey → Option TraceKey → ℕ → List OpenTelemetrySpan → Error ⊎ List OpenTelemetrySpan
  reread zero start before remaining spans = inr spans
  reread (suc turns) start before remaining spans =
      if remaining == 0
      then inr spans
      else elim (log.trace_page sel
          (record {
            after = none;
            before = before;
            at_or_before = some start;
            finished_from = none;
          })
          false remaining) [
            | inl e ↦ inl e
            | inr ([], last) ↦ inr spans
            | inr (id ∷ ids, last) ↦ elim (log.span_page sel (id ∷ ids) none false remaining) [
              | inl e ↦ inl e
              | inr page ↦
                  if ltb (length (id ∷ ids)) remaining
                  then inr (spans ++ page)
                  else reread turns start (some last) (remaining - length page) (spans ++ page)
            ]
          ]

abbrev pub signature_of : ℤ → ℕ → ℕ → FetchOpts → LiveWalkSignature
signature_of min_ms lookback limit opts = record {
  min_trace_duration_ms = min_ms;
  max_trace_duration_ms = opts.max_trace_duration_ms;
  min_span_duration_ms = opts.min_span_duration_ms;
  max_span_duration_ms = opts.max_span_duration_ms;
  lookback = lookback;
  limit = limit;
  blacklist = join_nul opts.blacklist_operations;
}

abbrev pub selection : ℤ → ℕ → FetchOpts → SpanSelection
selection min_ms lookback opts = record {
  lookback = lookback;
  min_trace_duration_ms = min_ms;
  opts = opts;
}

-- The committed walk, or a new one if the selection has changed.
abbrev pub starting_walk : LiveWalkSignature → LiveWalk → LiveWalk
starting_walk s live = if signature_same live.signature s then live else new_walk s

-- The rest of a fetch at the head: a walk that began behind a watermark reads again.
unfoldable pub then_reread :
    SpanLog
    → SpanSelection
    → SpanSelection
    → ℕ
    → Progress
    → Option TraceKey
    → Error ⊎ (LiveWalk × List OpenTelemetrySpan)
unfolding reread
then_reread log sel wide turns p none = inr (p.walk, p.spans)
then_reread log sel wide turns p (some start) =
    elim (reread log sel wide turns start none p.remaining p.spans) [
      | inl e ↦ inl e
      | inr spans ↦ inr (p.walk, spans)
    ]

-- The walk to hold pending and the spans, for a selection and its cap.
unfoldable pub walk_page :
    SpanLog
    → SpanSelection
    → SpanSelection
    → ℕ
    → LiveWalk
    → Error ⊎ (LiveWalk × List OpenTelemetrySpan)
unfolding walk_forward then_reread
walk_page log sel wide limit start =
    elim (walk_forward log sel wide 8 (record { walk = start; remaining = limit; spans = [] })) [
      | inl e ↦ inl e
      | inr (stopped turns p) ↦ inr (p.walk, p.spans)
      | inr (caught_up turns p) ↦ then_reread log sel wide turns p start.watermark
    ]

-- A fetch that fails leaves nothing pending.
abbrev pub held_pending :
    ClickHouseReader
    → Error ⊎ (LiveWalk × List OpenTelemetrySpan)
    → ClickHouseReader × (Error ⊎ List OpenTelemetrySpan)
held_pending c (inl e) = (record c { live_pending = none }, inl e)
held_pending c (inr (walk, spans)) = (record c { live_pending = some walk }, inr spans)

unfoldable pub fetch_live_spans :
    SpanLog
    → ℤ
    → ℕ
    → ℤ
    → FetchOpts
    → ClickHouseReader
    → ClickHouseReader × (Error ⊎ List OpenTelemetrySpan)
unfolding walk_page resolve_span_limit
fetch_live_spans log min_ms lookback limit opts c =
    let effective = resolve_span_limit limit in
    let start = starting_walk (signature_of min_ms lookback effective opts) c.live in
    held_pending c (
      walk_page log (selection min_ms lookback opts) (selection min_ms (3 * lookback) opts)
        effective start)

unfoldable pub commit_live_spans : ClickHouseReader → ClickHouseReader
commit_live_spans c = elim c.live_pending [
  | none ↦ c
  | some walk ↦ record { live = walk; live_pending = none }
]
