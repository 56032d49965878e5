-- ===== src/Reader/Walk/History.antt =====
-- Fetches and commits in any order, and the spans that have been handled.
use mathlib.Core.List.{Memᴰ}
use click_dog.Common.{
  ℕ, ◌*◌, ◌≡◌, ◌⊎◌, refl, inl, inr, Option, none, some, List, [], ◌∷◌, ◌++◌, Bool-cases, All, arith,
  mem_append_left, mem_append_right,
}
use click_dog.Common.Int.{ℤ}
use click_dog.Model.{Error, OpenTelemetrySpan}
use click_dog.Reader.Walk.Pages.{Contents, AtMost, Answers}
use click_dog.Reader.Walk.Covers.{Covers, Delivered, Or}
use click_dog.Reader.Walk.Keeps.{Covers_mono, Covers-new_walk, Kept, walk_page-Kept}
use click_dog.Reader.Walk.{
  TraceKey, FetchOpts, SpanSelection, LiveWalkSignature, LiveWalk, ClickHouseReader, SpanLog,
  resolve_span_limit, walk_page, held_pending, fetch_live_spans, commit_live_spans, starting_walk,
  new_walk, signature_same, signature_of, selection,
}

-- A call of the scheduled mode; each fetch meets the span log as it then answers.
pub data Call : Type 0 where
  fetch : SpanLog → Call
  commit : Call

-- The reader, the spans of its last fetch, and the spans of the fetches that were committed.
pub record Scheduled : Type 0 where
  pub reader : ClickHouseReader
  pub fetched : List OpenTelemetrySpan
  pub committed : List OpenTelemetrySpan

abbrev pub spans_of : Error ⊎ List OpenTelemetrySpan → List OpenTelemetrySpan
spans_of (inl e) = []
spans_of (inr spans) = spans

abbrev pub InCommitted : Scheduled → OpenTelemetrySpan → Type 0
InCommitted s r = Memᴰ r s.committed

abbrev pub fresh : LiveWalkSignature → Scheduled
fresh s = record {
  reader = record { live = new_walk s; live_pending = none };
  fetched = [];
  committed = [];
}

module _ (min_ms : ℤ) (lookback : ℕ) (limit : ℤ) (opts : FetchOpts) where
  abbrev pub call : Call → Scheduled → Scheduled
  call (fetch log) s =
      let r = fetch_live_spans log min_ms lookback limit opts s.reader in
      record s { reader = r.0; fetched = spans_of r.1 }
  call commit s = record {
    reader = commit_live_spans s.reader;
    fetched = [];
    committed = s.committed ++ s.fetched;
  }

  abbrev pub run : List Call → Scheduled → Scheduled
  run [] s = s
  run (c ∷ cs) s = run cs (call c s)

  abbrev pub within_lookback : SpanSelection
  within_lookback = selection min_ms lookback opts

  abbrev pub wide : SpanSelection
  wide = selection min_ms (3 * lookback) opts

  abbrev pub walk_of : Scheduled → LiveWalk
  walk_of s =
      starting_walk (signature_of min_ms lookback (resolve_span_limit limit) opts) s.reader.live

  module _ (db : Contents) where
    abbrev pub AnswersCall : Call → Type 0
    AnswersCall (fetch log) = Answers log within_lookback wide db
    AnswersCall commit = Unit

    pub record IsTracked (s : Scheduled) : Type 0 where
      pub live_covered : Covers db s.reader.live (InCommitted s)
      pub pending_covered :
          (w : LiveWalk)
          → s.reader.live_pending ≡ some w
          → Covers db w (Or db (InCommitted s) s.fetched)

    pub walk_of-Covers : (s : Scheduled) → IsTracked s → Covers db (walk_of s) (InCommitted s)
    walk_of-Covers s t =
        let sig = signature_of min_ms lookback (resolve_span_limit limit) opts in
        elim (Bool-cases (signature_same s.reader.live.signature sig)) [
          | inl same ↦ rw same t.live_covered
          | inr new ↦ rw new (Covers-new_walk db sig (InCommitted s))
        ]

    held_pending-IsTracked :
        (s : Scheduled) (log : SpanLog) (answers : Answers log within_lookback wide db)
        (m : Error ⊎ (LiveWalk × List OpenTelemetrySpan))
        → IsTracked s
        → Kept db (InCommitted s) log within_lookback wide answers (resolve_span_limit limit) m
        → IsTracked (record s {
          reader = (held_pending s.reader m).0;
          fetched = spans_of (held_pending s.reader m).1;
        })
    held_pending-IsTracked s log answers (inl e) t k = record {
      live_covered = t.live_covered;
      pending_covered = λ w h. absurd (ground (arith, h));
    }
    held_pending-IsTracked s log answers (inr (walk, spans)) t k = record {
      live_covered = t.live_covered;
      pending_covered = λ w h.
          Covers_mono db (Or db (InCommitted s) spans) (Or db (InCommitted s) spans) walk w
            (λ r o. o) (cc) k;
    }

    call-IsTracked : (c : Call) (s : Scheduled) → AnswersCall c → IsTracked s → IsTracked (call c s)
    unfolding fetch_live_spans commit_live_spans
    call-IsTracked (fetch log) s answers t =
        held_pending-IsTracked s log answers
          (walk_page log within_lookback wide (resolve_span_limit limit) (walk_of s)) t
          (walk_page-Kept db (InCommitted s) log within_lookback wide answers
            (resolve_span_limit limit) (walk_of s) (walk_of-Covers s t))
    call-IsTracked commit s answers t =
        commit-IsTracked s.reader.live s.reader.live_pending refl refl
      where
        later : (r : OpenTelemetrySpan) → InCommitted s r → Memᴰ r (s.committed ++ s.fetched)
        later r m = mem_append_left r s.committed s.fetched m

        commit-IsTracked :
            (live : LiveWalk) (pending : Option LiveWalk)
            → s.reader.live ≡ live
            → s.reader.live_pending ≡ pending
            → IsTracked (record {
              reader = commit_live_spans (record { live = live; live_pending = pending });
              fetched = [];
              committed = s.committed ++ s.fetched;
            })
        commit-IsTracked live none e h = record {
          live_covered =
              Covers_mono db (InCommitted s) (λ r. Memᴰ r (s.committed ++ s.fetched)) s.reader.live
                live later e t.live_covered;
          pending_covered = λ w k. absurd (ground (arith, k));
        }
        commit-IsTracked live (some w) e h = record {
          live_covered =
              Covers_mono db (Or db (InCommitted s) s.fetched)
                (λ r. Memᴰ r (s.committed ++ s.fetched)) w w
                (λ r o. elim o [
                  | inl m ↦ later r m
                  | inr m ↦ mem_append_right r s.committed s.fetched m
                ])
                refl (t.pending_covered w h);
          pending_covered = λ v k. absurd (ground (arith, k));
        }

    pub run-IsTracked :
        (cs : List Call) (s : Scheduled) → All AnswersCall cs → IsTracked s → IsTracked (run cs s)
    run-IsTracked [] s a t = t
    run-IsTracked (c ∷ cs) s a t = run-IsTracked cs (call c s) a.1 (call-IsTracked c s a.0 t)

    pub fresh-IsTracked : (sig : LiveWalkSignature) → IsTracked (fresh sig)
    fresh-IsTracked sig = record {
      live_covered = Covers-new_walk db sig (InCommitted (fresh sig));
      pending_covered = λ w k. absurd (ground (arith, k));
    }

    -- After any fetches and commits, failed fetches and fetches without a commit among them, every span
    -- of a trace that is keyed at or below the watermark of the committed walk was returned by a fetch
    -- that was committed: the walk moves past no span that was not handled. The fetches have one
    -- selection, and the server answers with the pages of one log.
    pub committed-covers-watermark :
        (sig : LiveWalkSignature) (cs : List Call)
        → All AnswersCall cs
        → (t : TraceKey) → Memᴰ t db.traces
        → AtMost db t (run cs (fresh sig)).reader.live.watermark
        → Delivered db (InCommitted (run cs (fresh sig))) t
    committed-covers-watermark sig cs a t m low =
        (run-IsTracked cs (fresh sig) a (fresh-IsTracked sig)).live_covered.below t m low
