-- ===== src/Processor/Live/Keys.antt =====
-- Which spans a cycle sends, and which it marks as seen.
use click_dog.Common.{
  ℕ, ◌≡◌, refl, inl, inr, Bool, true, false, ◌&&◌, ◌||◌, not, Option, none, some, List, [], ◌∷◌,
  ◌++◌, is_empty, is_some, length, Bool-cases, arith,
}
use click_dog.Common.Sets.{contains, insert, contains-insert, Distinct}
use click_dog.Model.{
  Error, SpanKey, key_equality, key_same_iff, OpenTelemetrySpan, key_of, ExportResult,
}
use click_dog.Export.Multi.{Outcome}
use click_dog.Processor.Live.{
  Lru, Page, Surroundings, collect, add_all, batches, batch_size, new_page, counted, after_export,
  process_batch, process_page,
}
use click_dog.Processor.Live.Counts.{batches-keep}

abbrev pub keys : List OpenTelemetrySpan → List SpanKey
keys [] = []
keys (s ∷ ss) = key_of s ∷ keys ss

keys-append : (ss ts : List OpenTelemetrySpan) → keys (ss ++ ts) ≡ keys ss ++ keys ts
keys-append [] ts = refl
keys-append (s ∷ ss) ts = rw (keys-append ss ts) refl

contains-append :
    (ks js : List SpanKey) (k : SpanKey) → contains (ks ++ js) k ≡ contains ks k || contains js k
unfolding contains
contains-append [] js k = refl
contains-append (j ∷ ks) js k = ground (arith, contains-append ks js k)

contains_self : (k : SpanKey) (ks : List SpanKey) → contains (k ∷ ks) k ≡ true
unfolding contains
contains_self k ks = ground (arith, key_same_iff k k)

contains-rest :
    (k j : SpanKey) (ks : List SpanKey) → contains (k ∷ ks) j ≡ false → contains ks j ≡ false
unfolding contains
contains-rest k j ks h = ground (arith, h)

append-Distinct :
    (ks js : List SpanKey)
    → Distinct ks
    → Distinct js
    → ((k : SpanKey) → contains js k ≡ true → contains ks k ≡ false)
    → Distinct (ks ++ js)
append-Distinct [] js d e apart = e
append-Distinct (k ∷ ks) js d e apart = (
  ground (arith, d.0, contains-append ks js k, apart k, contains_self k ks),
  append-Distinct ks js d.1 e (λ j h. contains-rest k j ks (apart j h)),
)

-- What enrichment may not change: the span's identity.
abbrev pub KeepsKeys : (OpenTelemetrySpan → OpenTelemetrySpan) → Type 0
KeepsKeys enrich = (s : OpenTelemetrySpan) → key_of (enrich s) ≡ key_of s

module _ (filters : OpenTelemetrySpan → Bool) (enrich : OpenTelemetrySpan → OpenTelemetrySpan)
    (same : KeepsKeys enrich) (held : SpanKey → Bool) where
  collect-seen :
      (seen : List SpanKey) (ss : List OpenTelemetrySpan) (k : SpanKey)
      → (contains seen k ≡ true
          → contains (collect filters enrich held seen ss).seen_this_cycle k ≡ true)
        × (contains (keys (collect filters enrich held seen ss).to_export) k ≡ true
            → (contains seen k ≡ false)
              × (contains (collect filters enrich held seen ss).seen_this_cycle k ≡ true))
  unfolding collect contains
  collect-seen seen [] k = (λ h. h, λ h. absurd (ground (arith, h)))
  collect-seen seen (s ∷ ss) k = ground (
    arith,
    collect-seen seen ss k,
    collect-seen (insert (key_of s) seen) ss k,
    contains-insert (key_of s) k seen,
    key_same_iff (key_of s) k,
    same s,
  )

  collect-Distinct :
      (seen : List SpanKey) (ss : List OpenTelemetrySpan)
      → Distinct (keys (collect filters enrich held seen ss).to_export)
  unfolding collect contains
  collect-Distinct seen [] = tt
  collect-Distinct seen (s ∷ ss) = ground (
    arith,
    collect-Distinct seen ss,
    collect-Distinct (insert (key_of s) seen) ss,
    collect-seen (insert (key_of s) seen) ss (key_of s),
    contains-insert (key_of s) (key_of s) seen,
    key_same_iff (key_of s) (key_of s),
    same s,
  )

-- The spans sent so far are distinct and noted in the cycle's own set.
abbrev Once : {C : Type 0} → Page C → Type 0
Once page =
    Distinct (keys page.sent)
    × ((k : SpanKey) → contains (keys page.sent) k ≡ true → contains page.seen_this_cycle k ≡ true)

-- The keys that the exporter accepted in its calls without an error.
abbrev pub accepted_keys : List Outcome → SpanKey → Bool
accepted_keys [] k = false
accepted_keys ((result, none) ∷ os) k = contains result.accepted k || accepted_keys os k
accepted_keys ((result, some e) ∷ os) k = accepted_keys os k

accepted_keys-snoc :
    (os : List Outcome) (result : ExportResult) (error : Option Error) (k : SpanKey)
    → accepted_keys (os ++ (result, error) ∷ []) k
      ≡ accepted_keys os k || not (is_some error) && contains result.accepted k
accepted_keys-snoc [] result none k = ground arith
accepted_keys-snoc [] result (some e) k = refl
accepted_keys-snoc ((r, none) ∷ os) result error k =
    ground (arith, accepted_keys-snoc os result error k)
accepted_keys-snoc ((r, some e) ∷ os) result error k = accepted_keys-snoc os result error k

holds-add_all :
    {C : Type 0} ⦃lru : Lru C⦄ (ks : List SpanKey) (c : C) (k : SpanKey)
    → lru.holds (add_all ks c) k ≡ true
    → (lru.holds c k || contains ks k) ≡ true
unfolding add_all contains
holds-add_all [] c k h = ground arith
holds-add_all ⦃lru⦄ (j ∷ ks) c k h =
    ground (arith, holds-add_all ks (lru.add j c) k h, lru.add-holds j k c, key_same_iff j k)

pub same-after_export :
    {C : Type 0} ⦃lru : Lru C⦄ (page : Page C) (spans : List OpenTelemetrySpan) (answer : Outcome)
    → ((after_export page spans answer).sent ≡ page.sent ++ spans)
      × ((after_export page spans answer).seen_this_cycle ≡ page.seen_this_cycle)
unfolding after_export
same-after_export page spans (result, none) = (refl, refl)
same-after_export page spans (result, some e) = (refl, refl)

module _ {C : Type 0} ⦃lru : Lru C⦄ (filters : OpenTelemetrySpan → Bool)
    (enrich : OpenTelemetrySpan → OpenTelemetrySpan) (env : Surroundings) where
  batch-Once :
      KeepsKeys enrich
      → (n : ℕ) (b : List OpenTelemetrySpan) (page : Page C) → Once page
      → Once (process_batch filters enrich env n b page).0
  unfolding process_batch
  batch-Once same n b page (d, noted) =
      let held = lru.holds page.seen_spans in
      let seen = page.seen_this_cycle in
      let out = (collect filters enrich held seen b).to_export in
      let facts = collect-seen filters enrich same held seen b in
      let more =
        append-Distinct (keys page.sent) (keys out) d
          (collect-Distinct filters enrich same held seen b)
          (λ k h. elim (Bool-cases (contains (keys page.sent) k)) [
            | inl sent ↦ absurd (ground (arith, noted k sent, (facts k).1 h))
            | inr new ↦ new
          ]) in
      let after =
        same-after_export (counted page (collect filters enrich held seen b)) out
          (env.export_spans n out) in
      elim (Bool-cases (is_empty out)) [
        | inl none_left ↦ rw none_left (d, λ k h. (facts k).0 (noted k h))
        | inr some_left ↦
            rw (some_left, after.0, after.1, keys-append page.sent out)
              (
                more,
                λ k h.
                    ground
                      (arith, noted k, facts k, contains-append (keys page.sent) (keys out) k, h),
              )
      ]

  -- Every key held was held at the start or accepted since.
  abbrev Marked : C → Page C → Type 0
  Marked start page =
      (k : SpanKey)
      → lru.holds page.seen_spans k ≡ true
      → (lru.holds start k || accepted_keys page.observed k) ≡ true

  batch-Marked :
      (start : C) (n : ℕ) (b : List OpenTelemetrySpan) (page : Page C)
      → Marked start page
      → Marked start (process_batch filters enrich env n b page).0
  unfolding process_batch after_export
  batch-Marked start n b page m k h =
      let pass = collect filters enrich (lru.holds page.seen_spans) page.seen_this_cycle b in
      let answer = env.export_spans n pass.to_export in
      ground (
        arith,
        m k,
        h,
        accepted_keys-snoc page.observed answer.0 answer.1 k,
        holds-add_all answer.0.accepted page.seen_spans k,
      )

-- With an enrichment that keeps a span's identity, and whatever the batches, the cache and the
-- exporter do: no two spans sent in one cycle have the same trace and span ID, and a span that the
-- cache holds after the cycle was held before it or accepted in a call without an error.
pub process_page-Keys :
    {C : Type 0} ⦃lru : Lru C⦄ (filters : OpenTelemetrySpan → Bool)
    (enrich : OpenTelemetrySpan → OpenTelemetrySpan) (env : Surroundings) (size : ℕ)
    (withheld : Bool) (cache : C) (spans : List OpenTelemetrySpan)
    → KeepsKeys enrich
    → Distinct (keys (process_page filters enrich env size withheld cache spans).page.sent)
      × ((k : SpanKey)
          → lru.holds (process_page filters enrich env size withheld cache spans).page.seen_spans k
            ≡ true
          → (lru.holds cache k
              || accepted_keys
                  (process_page filters enrich env size withheld cache spans).page.observed
                  k)
            ≡ true)
unfolding process_page
process_page-Keys filters enrich env size withheld cache spans same =
    let split = batches (length spans) (batch_size size spans) spans in
    let start = new_page cache in
    (
      (batches-keep filters enrich env Once (batch-Once filters enrich env same) split 0 start
          (tt, λ k h. h)).0,
      batches-keep filters enrich env (Marked filters enrich env cache)
          (batch-Marked filters enrich env cache) split 0 start (λ k h. ground (arith, h)),
    )
