-- ===== src/Processor/Live.antt =====
-- internal/processor/live.go, fetchAndProcessSpans: a page of spans from its fetch to its commit.
-- The cache of seen spans is third-party and taken by its interface; so are the exporter, by what
-- the n-th call returns, and the reader, by what it answers.
pub mod Batches
pub mod Counts
pub mod Keys
pub mod Commit
use click_dog.Common.{
  ℕ, zero, suc, ◌+◌, Bool, true, false, ◌&&◌, ◌||◌, not, ◌≡◌, ◌⊎◌, inl, inr, Option, none, some,
  List, [], ◌∷◌, ◌++◌, length, take, drop, is_empty, is_some, map, if◌then◌else◌,
}
use click_dog.Common.Sets.{contains, insert, insert_all}
use click_dog.Common.Maps.{lookup, put}
use click_dog.Model.{
  Error, SpanKey, key_equality, key_same, OpenTelemetrySpan, QueryLog, key_of, ExportResult,
}
use click_dog.Filter.{Netip, QueryFilter, should_filter}
use click_dog.Export.Multi.{Outcome}
use click_dog.Processor.Addresses.{
  QueryLogMap, attribute, should_filter_span_by_user, resolve_span_client_address,
}

-- hashicorp's LRU: a key just added is held, and adding holds no other key that was not held.
pub record Lru (C : Type 0) : Type 0 where
  pub holds : C → SpanKey → Bool
  pub add : SpanKey → C → C
  pub holds-add : (k : SpanKey) (c : C) → holds (add k c) k ≡ true
  pub add-holds : (k j : SpanKey) (c : C) → holds (add k c) j ≡ true → (holds c j ≡ true) ⊎ (k ≡ j)

-- What the first pass over a batch leaves.
pub record Pass : Type 0 where
  pub seen_this_cycle : List SpanKey
  pub filtered : ℕ
  pub duplicate : ℕ
  pub to_export : List OpenTelemetrySpan

-- `filters` is the judgment of a span and `enrich` what the pass writes on one that it lets through.
module _ (filters : OpenTelemetrySpan → Bool) (enrich : OpenTelemetrySpan → OpenTelemetrySpan) where
  unfoldable pub collect : (SpanKey → Bool) → List SpanKey → List OpenTelemetrySpan → Pass
  collect held seen [] = record {
    seen_this_cycle = seen;
    filtered = 0;
    duplicate = 0;
    to_export = [];
  }
  collect held seen (s ∷ ss) =
      let key = key_of s in
      let again = held key || contains seen key in
      let rest = collect held (if again then seen else insert key seen) ss in
      if again
      then record rest { duplicate = rest.duplicate + 1 }
      else if filters s
      then record rest { filtered = rest.filtered + 1 }
      else record rest { to_export = enrich s ∷ rest.to_export }

-- `spans[batchStart:batchEnd]` for each turn of the loop; `size` is positive, and each turn takes
-- one span at least, so that as many turns as spans are enough.
unfoldable pub batches {ℓ} : {A : Type ℓ} → ℕ → ℕ → List A → List (List A)
batches turns size [] = []
batches zero size (s ∷ ss) = []
batches (suc turns) size (s ∷ ss) = take size (s ∷ ss) ∷ batches turns size (drop size (s ∷ ss))

-- `cfg.Monitor.BatchSize`, with all spans in one batch for 0.
unfoldable pub batch_size {ℓ} : {A : Type ℓ} → ℕ → List A → ℕ
batch_size zero spans = length spans
batch_size (suc n) spans = suc n

-- The variables of the loop over the batches, and what went to the exporter and came back.
pub record Page (C : Type 0) : Type 0 where
  pub seen_spans : C
  pub seen_this_cycle : List SpanKey
  pub exported : ℕ
  pub filtered : ℕ
  pub duplicate : ℕ
  pub sent : List OpenTelemetrySpan
  pub observed : List Outcome

abbrev pub new_page : {C : Type 0} → C → Page C
new_page cache = record {
  seen_spans = cache;
  seen_this_cycle = [];
  exported = 0;
  filtered = 0;
  duplicate = 0;
  sent = [];
  observed = [];
}

-- What a cycle ends with: its counts, the error it returns, what it recorded with the heartbeat
-- (nothing when the context ends between two batches), and whether the reader's walk was committed.
pub record Cycle (C : Type 0) : Type 0 where
  pub page : Page C
  pub error : Option Error
  pub heartbeat : Bool
  pub committed : Bool

-- The rest of the world during the loop: what the exporter answers to its n-th call, and the error
-- of a context that ends in the delay after the n-th batch.
pub record Surroundings : Type 0 where
  pub export_spans : ℕ → List OpenTelemetrySpan → Outcome
  pub interrupted : ℕ → Option Error

unfoldable pub add_all : {C : Type 0} ⦃lru : Lru C⦄ → List SpanKey → C → C
add_all [] c = c
add_all ⦃lru⦄ (k ∷ ks) c = add_all ks (lru.add k c)

-- The accounts of a page after the first pass over a batch.
abbrev pub counted : {C : Type 0} → Page C → Pass → Page C
counted page pass = record page {
  seen_this_cycle = pass.seen_this_cycle;
  filtered = page.filtered + pass.filtered;
  duplicate = page.duplicate + pass.duplicate;
}

-- The accounts of a page after the exporter's answer to a batch.
unfoldable pub after_export :
    {C : Type 0} ⦃lru : Lru C⦄ → Page C → List OpenTelemetrySpan → Outcome → Page C
unfolding add_all
after_export page spans (result, error) =
    let told = record page {
      sent = page.sent ++ spans;
      observed = page.observed ++ (result, error) ∷ [];
    } in
    if is_some error then told else record told {
      seen_spans = add_all result.accepted page.seen_spans;
      exported = page.exported + length result.accepted;
    }

module _ {C : Type 0} ⦃lru : Lru C⦄ (filters : OpenTelemetrySpan → Bool)
    (enrich : OpenTelemetrySpan → OpenTelemetrySpan) (env : Surroundings) where
  unfoldable pub process_batch : ℕ → List OpenTelemetrySpan → Page C → Page C × Option Error
  unfolding collect after_export
  process_batch n batch page =
      let pass = collect filters enrich (lru.holds page.seen_spans) page.seen_this_cycle batch in
      if is_empty pass.to_export
      then (counted page pass, none)
      else let answer = env.export_spans n pass.to_export in
        (after_export (counted page pass) pass.to_export answer, answer.1)

  -- The batches from the n-th on. The flag of the result says whether the heartbeat is told.
  unfoldable pub process_batches :
      ℕ → List (List OpenTelemetrySpan) → Page C → Page C × Option Error × Bool
  unfolding process_batch
  process_batches n [] page = (page, none, true)
  process_batches n (b ∷ bs) page =
      let (done, error) = process_batch n b page in
      let rest = process_batches (suc n) bs done in
      elim error [
        | some e ↦ (done, some e, true)
        | none ↦ elim (if is_empty bs then none else env.interrupted n) [
          | some e ↦ (done, some e, false)
          | none ↦ rest
        ]
      ]

  -- From the fetched page on. `withheld`: a lookup that a strict whitelist relies on has failed.
  unfoldable pub process_page : ℕ → Bool → C → List OpenTelemetrySpan → Cycle C
  unfolding batches batch_size process_batches
  process_page size withheld cache spans =
      let split = batches (length spans) (batch_size size spans) spans in
      let (page, error, told) = process_batches 0 split (new_page cache) in
      record {
        page = page;
        error = error;
        heartbeat = told;
        committed = not (is_some error) && not withheld;
      }
