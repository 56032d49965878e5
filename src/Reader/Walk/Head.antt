-- ===== src/Reader/Walk/Head.antt =====
-- A fetch that reaches the head of the log, and a fetch that nobody commits.
use mathlib.Core.List.{Memᴰ}
use click_dog.Common.{
  ℕ, ◌≡◌, ◌⊎◌, refl, sym, ap, ◌∙◌, subst, inl, inr, List, [], ◌∷◌, All, arith, mem_append_left,
  mem_append_right,
}
use click_dog.Common.Int.{ℤ}
use click_dog.Model.{Error, OpenTelemetrySpan}
use click_dog.Reader.Walk.Turns.{Ended}
use click_dog.Reader.Walk.Pages.{Contents, Answers}
use click_dog.Reader.Walk.Covers.{Everything, IsGood, IsWhole, IsComplete}
use click_dog.Reader.Walk.Keeps.{walk_forward-start, then_reread-Holds}
use click_dog.Reader.Walk.History.{
  Call, fetch, commit, spans_of, InCommitted, fresh, run, within_lookback, wide, walk_of,
  AnswersCall, walk_of-Covers, run-IsTracked, fresh-IsTracked,
}
use click_dog.Reader.Walk.{
  FetchOpts, LiveWalkSignature, SpanSelection, LiveWalk, ClickHouseReader, SpanLog, Progress,
  caught_up, resolve_span_limit, walk_forward, then_reread, walk_page, held_pending,
  fetch_live_spans, starting_walk, signature_of,
}

held_pending-spans :
    (c : ClickHouseReader) (m : Error ⊎ (LiveWalk × List OpenTelemetrySpan))
    (spans : List OpenTelemetrySpan)
    → (held_pending c m).1 ≡ inr spans
    → (walk : LiveWalk) × (m ≡ inr (walk, spans))
held_pending-spans c (inl e) spans h = absurd (ground (arith, h))
held_pending-spans c (inr (walk, got)) spans h =
    let same : got ≡ spans = ground (arith, h) in (walk, ap (λ l. inr (walk, l)) same)

held_pending-twice :
    (c : ClickHouseReader) (m n : Error ⊎ (LiveWalk × List OpenTelemetrySpan))
    → held_pending (held_pending c m).0 n ≡ held_pending c n
held_pending-twice c (inl e) (inl f) = refl
held_pending-twice c (inl e) (inr (w, s)) = refl
held_pending-twice c (inr (v, r)) (inl f) = refl
held_pending-twice c (inr (v, r)) (inr (w, s)) = refl

held_pending-live :
    (c : ClickHouseReader) (m : Error ⊎ (LiveWalk × List OpenTelemetrySpan))
    → (held_pending c m).0.live ≡ c.live
held_pending-live c (inl e) = refl
held_pending-live c (inr (w, s)) = refl

module _ (min_ms : ℤ) (lookback : ℕ) (limit : ℤ) (opts : FetchOpts) where
  abbrev first : SpanSelection
  first = within_lookback min_ms lookback limit opts

  abbrev reach : SpanSelection
  reach = wide min_ms lookback limit opts

  walk_page-caught_up :
      (log : SpanLog) (start : LiveWalk) (n : ℕ) (q : Progress)
      → walk_forward log first reach 8
          (record { walk = start; remaining = resolve_span_limit limit; spans = [] })
        ≡ inr (caught_up n q)
      → walk_page log first reach (resolve_span_limit limit) start
        ≡ then_reread log first reach n q start.watermark
  unfolding walk_page
  walk_page-caught_up log start n q h = rw (h, walk_page)

  -- A fetch that no commit follows is forgotten by the next one: that one returns the same spans, or
  -- the same error, and leaves the same reader as if it were the first.
  pub fetch_live_spans-again :
      (log log' : SpanLog) (c : ClickHouseReader)
      → fetch_live_spans log' min_ms lookback limit opts
          (fetch_live_spans log min_ms lookback limit opts c).0
        ≡ fetch_live_spans log' min_ms lookback limit opts c
  unfolding fetch_live_spans
  fetch_live_spans-again log log' c =
      let effective = resolve_span_limit limit in
      let sig = signature_of min_ms lookback effective opts in
      let m = walk_page log first reach effective (starting_walk sig c.live) in
      let n = λ (live : LiveWalk). walk_page log' first reach effective (starting_walk sig live) in
      ap (λ live. held_pending (held_pending c m).0 (n live)) (held_pending-live c m)
      ∙ held_pending-twice c m (n c.live)

  module _ (db : Contents) where
    -- When the forward walk of a fetch reaches the head of the log and the fetch returns spans, then
    -- after its commit every span of every qualifying trace is among the spans of the fetches that
    -- were committed, whatever fetches and commits came before, failed ones among them. The fetches
    -- have one selection, and the server answers with the pages of one log.
    pub committed-Everything :
        (sig : LiveWalkSignature) (cs : List Call) (log : SpanLog) (n : ℕ) (q : Progress)
        (spans : List OpenTelemetrySpan)
        → All (AnswersCall min_ms lookback limit opts db) cs
        → Answers log first reach db
        → walk_forward log first reach 8 (record {
          walk = walk_of min_ms lookback limit opts (run min_ms lookback limit opts cs (fresh sig));
          remaining = resolve_span_limit limit;
          spans = [];
        })
          ≡ inr (caught_up n q)
        → (fetch_live_spans log min_ms lookback limit opts
            (run min_ms lookback limit opts cs (fresh sig)).reader).1
          ≡ inr spans
        → Everything db (
            InCommitted (
              run min_ms lookback limit opts
                (fetch log ∷ commit ∷ [])
                (run min_ms lookback limit opts cs (fresh sig))))
    unfolding fetch_live_spans
    committed-Everything sig cs log n q spans a answers h f t m r k e =
        let s = run min_ms lookback limit opts cs (fresh sig) in
        let effective = resolve_span_limit limit in
        let start = walk_of min_ms lookback limit opts s in
        let tracked =
          run-IsTracked min_ms lookback limit opts db cs (fresh sig) a
            (fresh-IsTracked min_ms lookback limit opts db sig) in
        let ended =
          walk_forward-start db (InCommitted s) log first reach answers effective start
            (walk_of-Covers min_ms lookback limit opts db s tracked) in
        let g : IsGood db (InCommitted s) q × IsComplete db (InCommitted s) q =
          subst (Ended (IsGood db (InCommitted s)) (IsWhole db) (IsComplete db (InCommitted s))) h
            ended in
        let page = walk_page log first reach effective start in
        let got = held_pending-spans s.reader page spans f in
        let held = sym (walk_page-caught_up log start n q h) ∙ got.1 in
        let all : spans_of (held_pending s.reader page).1 ≡ spans = ap spans_of f in
        elim (g.1 t m r k e) [
          | inl old ↦ mem_append_left r s.committed (spans_of (held_pending s.reader page).1) old
          | inr new ↦ mem_append_right r s.committed (spans_of (held_pending s.reader page).1) (
              subst (Memᴰ r) (sym all)
                (then_reread-Holds log first r reach n q start.watermark got.0 spans held new))
        ]
