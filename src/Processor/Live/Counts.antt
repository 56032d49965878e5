-- ===== src/Processor/Live/Counts.antt =====
-- The counters of a cycle against the spans it read, sent and had accepted.
use click_dog.Common.{
  ℕ, suc, ◌+◌, ◌≤◌, ◌≡◌, ◌⊎◌, refl, ap, inl, inr, Bool, true, false, Option, none, some, List, [],
  ◌∷◌, ◌++◌, length, length-append, is_empty, is_some, Option-cases, if◌then◌else◌, arith,
}
use click_dog.Common.Sets.{insert}
use click_dog.Model.{Error, SpanKey, key_equality, OpenTelemetrySpan, key_of, ExportResult}
use click_dog.Export.Multi.{Outcome}
use click_dog.Processor.Live.{
  Lru, Page, Surroundings, collect, batches, batch_size, new_page, after_export, process_batch,
  process_batches, process_page,
}
use click_dog.Processor.Live.Batches.{flatten, flatten-batches}

-- The spans accepted in the calls that returned no error.
abbrev pub accepted_in : List Outcome → ℕ
accepted_in [] = 0
accepted_in ((result, none) ∷ os) = length result.accepted + accepted_in os
accepted_in ((result, some e) ∷ os) = accepted_in os

accepted-snoc :
    (os : List Outcome) (result : ExportResult) (error : Option Error)
    → accepted_in (os ++ (result, error) ∷ [])
      ≡ accepted_in os + (if is_some error then 0 else length result.accepted)
accepted-snoc [] result none = omega arith
accepted-snoc [] result (some e) = omega arith
accepted-snoc ((r, none) ∷ os) result error = omega (arith, accepted-snoc os result error)
accepted-snoc ((r, some e) ∷ os) result error = accepted-snoc os result error

abbrev pub handled : {C : Type 0} → Page C → ℕ
handled page = page.filtered + page.duplicate + length page.sent

abbrev pub IsCounted : {C : Type 0} → Page C → Type 0
IsCounted page = page.exported ≡ accepted_in page.observed

length-collect :
    (filters : OpenTelemetrySpan → Bool) (enrich : OpenTelemetrySpan → OpenTelemetrySpan)
    (held : SpanKey → Bool) (seen : List SpanKey) (ss : List OpenTelemetrySpan)
    → (collect filters enrich held seen ss).filtered
        + (collect filters enrich held seen ss).duplicate
        + length (collect filters enrich held seen ss).to_export
      ≡ length ss
unfolding collect
length-collect filters enrich held seen [] = refl
length-collect filters enrich held seen (s ∷ ss) = ground (
  arith,
  length-collect filters enrich held seen ss,
  length-collect filters enrich held (insert (key_of s) seen) ss,
)

module _ {C : Type 0} ⦃lru : Lru C⦄ (filters : OpenTelemetrySpan → Bool)
    (enrich : OpenTelemetrySpan → OpenTelemetrySpan) (env : Surroundings) where
  handled-batch :
      (n : ℕ) (b : List OpenTelemetrySpan) (page : Page C)
      → handled (process_batch filters enrich env n b page).0 ≡ handled page + length b
  unfolding process_batch after_export
  handled-batch n b page =
      let pass = collect filters enrich (lru.holds page.seen_spans) page.seen_this_cycle b in
      ground (
        arith,
        length-collect filters enrich (lru.holds page.seen_spans) page.seen_this_cycle b,
        length-append page.sent pass.to_export,
      )

  batch-IsCounted :
      (n : ℕ) (b : List OpenTelemetrySpan) (page : Page C)
      → IsCounted page
      → IsCounted (process_batch filters enrich env n b page).0
  unfolding process_batch after_export
  batch-IsCounted n b page c =
      let pass = collect filters enrich (lru.holds page.seen_spans) page.seen_this_cycle b in
      let answer = env.export_spans n pass.to_export in
      ground (arith, accepted-snoc page.observed answer.0 answer.1)

  module _ (n : ℕ) (b : List OpenTelemetrySpan) (bs : List (List OpenTelemetrySpan))
      (page : Page C) where
    abbrev pub next : Page C
    next = (process_batch filters enrich env n b page).0

    abbrev pub Ends : Type 0
    Ends =
        (e : Error) × (told : Bool) × (process_batches filters enrich env n (b ∷ bs) page
          ≡ (next, some e, told))

    abbrev pub GoesOn : Type 0
    GoesOn =
        ((process_batch filters enrich env n b page).1 ≡ none)
        × (process_batches filters enrich env n (b ∷ bs) page
            ≡ process_batches filters enrich env (suc n) bs next)

    pub step-cases : Ends ⊎ GoesOn
    unfolding process_batches
    step-cases = elim (Option-cases (process_batch filters enrich env n b page).1) [
      | inr (e, failed) ↦ inl (e, true, ground arith)
      | inl sent ↦ elim (Option-cases (if is_empty bs then none else env.interrupted n)) [
        | inr (e, stopped) ↦ inl (e, false, ground arith)
        | inl goes_on ↦ inr (sent, ground arith)
      ]
    ]

  -- A property that every batch keeps is kept by the loop, wherever it ends.
  pub batches-keep :
      (P : Page C → Type 0)
      → ((n : ℕ) (b : List OpenTelemetrySpan) (page : Page C)
          → P page
          → P (process_batch filters enrich env n b page).0)
      → (bs : List (List OpenTelemetrySpan)) (n : ℕ) (page : Page C) → P page
      → P (process_batches filters enrich env n bs page).0
  batches-keep P keeps [] n page p = unfold process_batches in p
  batches-keep P keeps (b ∷ bs) n page p =
      let kept = keeps n b page p in
      elim (step-cases n b bs page) [
        | inl (e, told, ends) ↦ rw ends kept
        | inr (sent, goes_on) ↦ rw goes_on (batches-keep P keeps bs (suc n) (next n b bs page) kept)
      ]

  handled-batches :
      (bs : List (List OpenTelemetrySpan)) (n : ℕ) (page : Page C)
      → (handled (process_batches filters enrich env n bs page).0
          ≤ handled page + length (flatten bs))
        × ((process_batches filters enrich env n bs page).1 ≡ none
            → handled (process_batches filters enrich env n bs page).0
              ≡ handled page + length (flatten bs))
  handled-batches [] n page = unfold process_batches in (omega arith, λ h. omega arith)
  handled-batches (b ∷ bs) n page =
      let h = handled-batch n b page in
      let l = length-append b (flatten bs) in
      elim (step-cases n b bs page) [
        | inl (e, told, ends) ↦ rw ends (omega (arith, h, l), λ x. ground arith)
        | inr (sent, goes_on) ↦ rw goes_on (
            let r = handled-batches bs (suc n) (next n b bs page) in
            (omega (arith, h, l, r.0), λ x. omega (arith, h, l, r.1 x)))
      ]

-- Every span of a page is counted as filtered, counted as a duplicate, or sent, and in one of these
-- ways only, if the cycle returns no error; a cycle cut short has dealt with at most the page. The
-- cycle's count of exported spans is what the exporter accepted in its calls without an error.
pub process_page-Counts :
    {C : Type 0} ⦃lru : Lru C⦄ (filters : OpenTelemetrySpan → Bool)
    (enrich : OpenTelemetrySpan → OpenTelemetrySpan) (env : Surroundings) (size : ℕ)
    (withheld : Bool) (cache : C) (spans : List OpenTelemetrySpan)
    → (handled (process_page filters enrich env size withheld cache spans).page ≤ length spans)
      × ((process_page filters enrich env size withheld cache spans).error ≡ none
          → handled (process_page filters enrich env size withheld cache spans).page ≡ length spans)
      × IsCounted (process_page filters enrich env size withheld cache spans).page
unfolding process_page
process_page-Counts filters enrich env size withheld cache spans =
    let split = batches (length spans) (batch_size size spans) spans in
    let h = handled-batches filters enrich env split 0 (new_page cache) in
    let whole = ap length (flatten-batches size spans) in
    (
      omega (arith, h.0, whole),
      λ x. omega (arith, h.1 x, whole),
      batches-keep filters enrich env IsCounted (batch-IsCounted filters enrich env) split 0
          (new_page cache) refl,
    )
