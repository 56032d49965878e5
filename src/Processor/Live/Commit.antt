-- ===== src/Processor/Live/Commit.antt =====
-- What the commit of a page means, and that no span is sent that the filters drop.
use click_dog.Common.{
  ℕ, suc, ◌≡◌, refl, sym, ap, ◌∙◌, inl, inr, Bool, true, false, ◌&&◌, ◌||◌, not, Option, none, some,
  List, [], ◌∷◌, ◌++◌, length, is_empty, is_some, Bool-cases, All, arith,
}
use click_dog.Common.Sets.{contains, insert}
use click_dog.Model.{Error, SpanKey, key_equality, OpenTelemetrySpan, key_of}
use click_dog.Export.Multi.{Outcome}
use click_dog.Processor.Live.{
  Lru, Page, Surroundings, collect, batches, batch_size, new_page, counted, after_export,
  process_batch, process_batches, process_page,
}
use click_dog.Processor.Live.Counts.{batches-keep, step-cases, next, handled, process_page-Counts}
use click_dog.Processor.Live.Keys.{same-after_export}

pub append-All {ℓ κ} :
    {A : Type ℓ} (P : A → Type κ) (xs ys : List A) → All P xs → All P ys → All P (xs ++ ys)
append-All P [] ys p q = q
append-All P (x ∷ xs) ys p q = (p.0, append-All P xs ys p.1 q)

abbrev pub Delivered : List Outcome → Type 0
Delivered = All (λ o. o.1 ≡ none)

-- Where a span that was sent comes from.
abbrev pub Passed :
    (OpenTelemetrySpan → Bool)
    → (OpenTelemetrySpan → OpenTelemetrySpan)
    → OpenTelemetrySpan
    → Type 0
Passed filters enrich t = (s : OpenTelemetrySpan) × (t ≡ enrich s) × (filters s ≡ false)

module _ (filters : OpenTelemetrySpan → Bool) (enrich : OpenTelemetrySpan → OpenTelemetrySpan)
    (held : SpanKey → Bool) where
  collect-Passed :
      (seen : List SpanKey) (ss : List OpenTelemetrySpan)
      → All (Passed filters enrich) (collect filters enrich held seen ss).to_export
  unfolding collect
  collect-Passed seen [] = tt
  collect-Passed seen (s ∷ ss) = elim (Bool-cases (held (key_of s) || contains seen (key_of s))) [
    | inl again ↦ rw again (collect-Passed seen ss)
    | inr new ↦ elim (Bool-cases (filters s)) [
      | inl dropped ↦ rw (new, dropped) (collect-Passed (insert (key_of s) seen) ss)
      | inr passes ↦
          rw (new, passes) ((s, refl, passes), collect-Passed (insert (key_of s) seen) ss)
    ]
  ]

observed-after :
    {C : Type 0} ⦃lru : Lru C⦄ (page : Page C) (spans : List OpenTelemetrySpan) (answer : Outcome)
    → (after_export page spans answer).observed ≡ page.observed ++ answer ∷ []
unfolding after_export
observed-after page spans (result, none) = refl
observed-after page spans (result, some e) = refl

-- The exporter returns no error, and the context does not end between two batches.
abbrev pub AllWell : Surroundings → Type 0
AllWell env =
    ((n : ℕ) (ss : List OpenTelemetrySpan) → (env.export_spans n ss).1 ≡ none)
    × ((n : ℕ) → env.interrupted n ≡ none)

module _ {C : Type 0} ⦃lru : Lru C⦄ (filters : OpenTelemetrySpan → Bool)
    (enrich : OpenTelemetrySpan → OpenTelemetrySpan) (env : Surroundings) where
  abbrev AllPassed : Page C → Type 0
  AllPassed page = All (Passed filters enrich) page.sent

  batch-AllPassed :
      (n : ℕ) (b : List OpenTelemetrySpan) (page : Page C)
      → AllPassed page
      → AllPassed (process_batch filters enrich env n b page).0
  unfolding process_batch
  batch-AllPassed n b page p =
      let held = lru.holds page.seen_spans in
      let seen = page.seen_this_cycle in
      let out = (collect filters enrich held seen b).to_export in
      let after =
        same-after_export (counted page (collect filters enrich held seen b)) out
          (env.export_spans n out) in
      elim (Bool-cases (is_empty out)) [
        | inl none_left ↦ rw none_left p
        | inr some_left ↦
            rw (some_left, after.0)
              (append-All (Passed filters enrich) page.sent out p
                (collect-Passed filters enrich held seen b))
      ]

  batch-Delivered :
      (n : ℕ) (b : List OpenTelemetrySpan) (page : Page C)
      → Delivered page.observed
      → (process_batch filters enrich env n b page).1 ≡ none
      → Delivered (process_batch filters enrich env n b page).0.observed
  unfolding process_batch
  batch-Delivered n b page d ok =
      let pass = collect filters enrich (lru.holds page.seen_spans) page.seen_this_cycle b in
      let answer = env.export_spans n pass.to_export in
      let after = observed-after (counted page pass) pass.to_export answer in
      elim (Bool-cases (is_empty pass.to_export)) [
        | inl none_left ↦ rw none_left d
        | inr some_left ↦
            rw (some_left, after)
              (append-All (λ o. o.1 ≡ none) page.observed (answer ∷ []) d (rw some_left at ok, tt))
      ]

  batches-Delivered :
      (bs : List (List OpenTelemetrySpan)) (n : ℕ) (page : Page C)
      → Delivered page.observed
      → (process_batches filters enrich env n bs page).1 ≡ none
      → Delivered (process_batches filters enrich env n bs page).0.observed
  batches-Delivered [] n page d ok = unfold process_batches in d
  batches-Delivered (b ∷ bs) n page d ok = elim (step-cases filters enrich env n b bs page) [
    | inl (e, told, ends) ↦ absurd (some-none e (ap (λ r. r.1) (sym ends) ∙ ok))
    | inr (sent, goes_on) ↦ rw goes_on (
        batches-Delivered bs (suc n) _ (batch-Delivered n b page d sent)
          (sym (ap (λ r. r.1) goes_on) ∙ ok))
  ]
    where
      some-none : (e : Error) → some e ≡ none → ⊥
      some-none e h = ground arith

  batch-sent :
      AllWell env
      → (n : ℕ) (b : List OpenTelemetrySpan) (page : Page C)
      → (process_batch filters enrich env n b page).1 ≡ none
  unfolding process_batch
  batch-sent well n b page =
      let out =
        (collect filters enrich (lru.holds page.seen_spans) page.seen_this_cycle b).to_export in
      elim (Bool-cases (is_empty out)) [
        | inl none_left ↦ rw none_left refl
        | inr some_left ↦ rw some_left (well.0 n out)
      ]

  batches-AllWell :
      AllWell env
      → (bs : List (List OpenTelemetrySpan)) (n : ℕ) (page : Page C)
      → (process_batches filters enrich env n bs page).1 ≡ none
  unfolding process_batches
  batches-AllWell well [] n page = refl
  batches-AllWell well (b ∷ bs) n page = ground (
    arith,
    batch-sent well n b page,
    well.1 n,
    batches-AllWell well bs (suc n) (next filters enrich env n b bs page),
  )

-- Whatever the exporter does, every span that was sent is one that the filters let through, as the
-- enrichment made it.
pub process_page-Passed :
    {C : Type 0} ⦃lru : Lru C⦄ (filters : OpenTelemetrySpan → Bool)
    (enrich : OpenTelemetrySpan → OpenTelemetrySpan) (env : Surroundings) (size : ℕ)
    (withheld : Bool) (cache : C) (spans : List OpenTelemetrySpan)
    → All
        (Passed filters enrich)
        (process_page filters enrich env size withheld cache spans).page.sent
unfolding process_page
process_page-Passed filters enrich env size withheld cache spans =
    batches-keep filters enrich env (AllPassed filters enrich env)
      (batch-AllPassed filters enrich env) (batches (length spans) (batch_size size spans) spans) 0
      (new_page cache) tt

-- A committed page was not withheld, the cycle returned no error, every call to the exporter
-- returned without one, and every span was filtered, a duplicate or sent. Conversely, a page that
-- is not withheld is committed if the exporter returns no error and the context does not end
-- between two batches.
pub process_page-Commits :
    {C : Type 0} ⦃lru : Lru C⦄ (filters : OpenTelemetrySpan → Bool)
    (enrich : OpenTelemetrySpan → OpenTelemetrySpan) (env : Surroundings) (size : ℕ)
    (withheld : Bool) (cache : C) (spans : List OpenTelemetrySpan)
    → ((process_page filters enrich env size withheld cache spans).committed ≡ true
        → (withheld ≡ false)
          × ((process_page filters enrich env size withheld cache spans).error ≡ none)
          × Delivered (process_page filters enrich env size withheld cache spans).page.observed
          × (handled (process_page filters enrich env size withheld cache spans).page
              ≡ length spans))
      × (withheld ≡ false
          → AllWell env
          → (process_page filters enrich env size withheld cache spans).committed ≡ true)
unfolding process_page
process_page-Commits filters enrich env size withheld cache spans = (there, back)
  where
    split : List (List OpenTelemetrySpan)
    split = batches (length spans) (batch_size size spans) spans

    there :
        (process_page filters enrich env size withheld cache spans).committed ≡ true
        → (withheld ≡ false)
          × ((process_page filters enrich env size withheld cache spans).error ≡ none)
          × Delivered (process_page filters enrich env size withheld cache spans).page.observed
          × (handled (process_page filters enrich env size withheld cache spans).page
              ≡ length spans)
    there h =
        let ok =
          no_error (process_batches filters enrich env 0 split (new_page cache)).1 withheld h in
        (
          ok.1,
          ok.0,
          batches-Delivered filters enrich env split 0 (new_page cache) tt ok.0,
          (process_page-Counts filters enrich env size withheld cache spans).1 ok.0,
        )
      where
        no_error :
            (o : Option Error) (w : Bool)
            → not (is_some o) && not w ≡ true
            → (o ≡ none) × (w ≡ false)
        no_error o w e = ground (arith, e)

    back :
        withheld ≡ false
        → AllWell env
        → (process_page filters enrich env size withheld cache spans).committed ≡ true
    back w well =
        let ok = batches-AllWell filters enrich env well split 0 (new_page cache) in
        ground (arith, ok, w)
