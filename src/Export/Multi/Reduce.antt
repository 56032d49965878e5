-- ===== src/Export/Multi/Reduce.antt =====
-- The loop over the outcomes of the sinks, as Boolean functions of the outcomes.
use click_dog.Common.{
  ℕ, ◌≡◌, refl, Bool, true, false, ◌&&◌, ◌||◌, not, String, Option, none, some, List, [], ◌∷◌,
  is_some, is_empty, is_empty-snoc, any, all, arith,
}
use click_dog.Common.Sets.{
  contains, insert_all, contains-insert_all, contains-keep, Distinct, keep-Distinct,
  insert_all-Distinct,
}
use click_dog.Model.{SpanKey, key_equality, OpenTelemetrySpan}
use click_dog.Export.Multi.{
  SpanExporter, Outcome, Reduction, reduce_one, reduce, narrow, span_outcomes, set_of,
}

abbrev pub succeeded : Outcome → Bool
succeeded o = not (is_some o.1)

abbrev pub accepts : SpanKey → Outcome → Bool
accepts k o = contains o.0.accepted k

abbrev pub outcome : String × Outcome → Outcome
outcome p = p.1

-- Membership in the running intersection, where nil stands for all keys.
abbrev pub meets : SpanKey → Option (List SpanKey) → Bool
meets k none = true
meets k (some s) = contains s k

pub Distinct-narrow :
    (old : Option (List SpanKey)) (keys : List SpanKey)
    → Distinct (set_of old)
    → Distinct keys
    → Distinct (set_of (narrow old keys))
Distinct-narrow none keys d e = e
Distinct-narrow (some old) keys d e = keep-Distinct (contains keys) old d

module _ (sent : ℕ) where
  pub errors-one :
      (name : String) (o : Outcome) (r : Reduction)
      → is_empty (reduce_one name sent o r).errors ≡ is_empty r.errors && succeeded o
  unfolding reduce_one
  errors-one name (result, none) r = ground arith
  errors-one name (result, some e) r = ground (arith, is_empty-snoc r.errors (name, e))

  pub meets-one :
      (k : SpanKey) (name : String) (o : Outcome) (r : Reduction)
      → meets k (reduce_one name sent o r).intersection
        ≡ meets k r.intersection && (not (succeeded o) || accepts k o)
  unfolding reduce_one contains
  meets-one k name (result, some e) r = ground arith
  meets-one k name (result, none) r = ground (
    arith,
    contains-insert_all result.accepted [] k,
    contains-keep (contains (insert_all result.accepted [])) (set_of r.intersection) k,
  )

  pub union-one :
      (k : SpanKey) (name : String) (o : Outcome) (r : Reduction)
      → contains (reduce_one name sent o r).union k
        ≡ contains r.union k || (succeeded o && accepts k o)
  unfolding reduce_one
  union-one k name (result, some e) r = ground arith
  union-one k name (result, none) r = ground (arith, contains-insert_all result.accepted r.union k)

  pub some-one :
      (name : String) (o : Outcome) (r : Reduction)
      → is_some (reduce_one name sent o r).intersection ≡ is_some r.intersection || succeeded o
  unfolding reduce_one
  some-one name (result, some e) r = ground arith
  some-one name (result, none) r = ground arith

  pub Distinct-one :
      (name : String) (o : Outcome) (r : Reduction)
      → Distinct (set_of r.intersection)
      → Distinct r.union
      → Distinct (set_of (reduce_one name sent o r).intersection)
        × Distinct (reduce_one name sent o r).union
  unfolding reduce_one
  Distinct-one name (result, some e) r i u = (i, u)
  Distinct-one name (result, none) r i u = (
    Distinct-narrow r.intersection (insert_all result.accepted []) i
        (insert_all-Distinct result.accepted [] tt),
    insert_all-Distinct result.accepted r.union u,
  )

  pub errors-reduce :
      (os : List (String × Outcome)) (r : Reduction)
      → is_empty (reduce sent os r).errors
        ≡ is_empty r.errors && all (λ p. succeeded (outcome p)) os
  unfolding reduce
  errors-reduce [] r = ground arith
  errors-reduce ((name, o) ∷ os) r =
      ground (arith, errors-one name o r, errors-reduce os (reduce_one name sent o r))

  pub meets-reduce :
      (k : SpanKey) (os : List (String × Outcome)) (r : Reduction)
      → meets k (reduce sent os r).intersection
        ≡ meets k r.intersection
          && all (λ p. not (succeeded (outcome p)) || accepts k (outcome p)) os
  unfolding reduce
  meets-reduce k [] r = ground arith
  meets-reduce k ((name, o) ∷ os) r =
      ground (arith, meets-one k name o r, meets-reduce k os (reduce_one name sent o r))

  pub union-reduce :
      (k : SpanKey) (os : List (String × Outcome)) (r : Reduction)
      → contains (reduce sent os r).union k
        ≡ contains r.union k || any (λ p. succeeded (outcome p) && accepts k (outcome p)) os
  unfolding reduce
  union-reduce k [] r = ground arith
  union-reduce k ((name, o) ∷ os) r =
      ground (arith, union-one k name o r, union-reduce k os (reduce_one name sent o r))

  pub some-reduce :
      (os : List (String × Outcome)) (r : Reduction)
      → is_some (reduce sent os r).intersection
        ≡ is_some r.intersection || any (λ p. succeeded (outcome p)) os
  unfolding reduce
  some-reduce [] r = ground arith
  some-reduce ((name, o) ∷ os) r =
      ground (arith, some-one name o r, some-reduce os (reduce_one name sent o r))

  pub Distinct-reduce :
      (os : List (String × Outcome)) (r : Reduction)
      → Distinct (set_of r.intersection)
      → Distinct r.union
      → Distinct (set_of (reduce sent os r).intersection) × Distinct (reduce sent os r).union
  unfolding reduce
  Distinct-reduce [] r i u = (i, u)
  Distinct-reduce ((name, o) ∷ os) r i u =
      let (i', u') = Distinct-one name o r i u in
      Distinct-reduce os (reduce_one name sent o r) i' u'

pub any_of_all {ℓ} :
    {A : Type ℓ} (p : A → Bool) (xs : List A)
    → is_empty xs ≡ false
    → all p xs ≡ true
    → any p xs ≡ true
any_of_all p [] e h = cc
any_of_all p (x ∷ xs) e h = ground arith

pub all_of_both {ℓ} :
    {A : Type ℓ} (p q : A → Bool) (xs : List A)
    → all p xs ≡ true
    → all (λ x. not (p x) || q x) xs ≡ all q xs
all_of_both p q [] h = refl
all_of_both p q (x ∷ xs) h = ground (arith, all_of_both p q xs)

pub contains-set_of :
    (k : SpanKey) (s : Option (List SpanKey)) → is_some s ≡ true → contains (set_of s) k ≡ meets k s
contains-set_of k none h = cc
contains-set_of k (some s) h = refl

pub empty-contains : (k : SpanKey) (s : List SpanKey) → is_empty s ≡ true → contains s k ≡ false
unfolding contains
empty-contains k [] h = refl
empty-contains k (x ∷ xs) h = cc

pub span_outcomes-ne :
    (spans : List OpenTelemetrySpan) (sinks : List (String × SpanExporter))
    → is_empty (span_outcomes spans sinks) ≡ is_empty sinks
span_outcomes-ne spans [] = refl
span_outcomes-ne spans (s ∷ ss) = refl
