-- ===== src/Common/Sets.antt =====
-- Finite sets over a type with a Boolean equality: Go's `map[K]struct{}`.
-- A set is a list without repetition. Maps are in the module Maps.
use click_dog.Common.Tests.{◌==◌ as nat_same, ==_iff, if◌then◌else◌}
use Prim.Native.Nat.{ℕ}
use Prim.Native.String.{String}
use mathlib.Core.Path.{◌≡◌, refl}
use mathlib.Core.Logic.{◌↔◌}
use mathlib.Core.Bool.{Bool, true, false, ◌&&◌, ◌||◌}
use mathlib.Core.List.{List, [], ◌∷◌}
use native.Mathlib.Omega.{arith}
use text.Mathlib.Text.{◌==◌ as str_eq}
use text.Mathlib.TextEquality.{eq_iff}

pub record Equality {ℓ} (A : Type ℓ) : Type ℓ where
  pub same : A → A → Bool
  pub same_iff : (a b : A) → (same a b ≡ true) ↔ (a ≡ b)

instance abbrev pub nat_equality : Equality ℕ
nat_equality = record { same = nat_same; same_iff = ==_iff }

instance abbrev pub string_equality : Equality String
string_equality = record { same = str_eq; same_iff = eq_iff }

module _ {ℓ} {A : Type ℓ} ⦃q : Equality A⦄ where
  unfoldable pub contains : List A → A → Bool
  contains [] a = false
  contains (x ∷ xs) a = q.same x a || contains xs a

  unfoldable pub insert : A → List A → List A
  insert a xs = if contains xs a then xs else a ∷ xs

  unfoldable pub insert_all : List A → List A → List A
  insert_all [] xs = xs
  insert_all (a ∷ as_) xs = insert_all as_ (insert a xs)

  unfoldable pub keep : (A → Bool) → List A → List A
  keep p [] = []
  keep p (x ∷ xs) = let rest = keep p xs in if p x then x ∷ rest else rest

  abbrev pub Distinct : List A → Type 0
  Distinct [] = Unit
  Distinct (x ∷ xs) = (contains xs x ≡ false) × Distinct xs

  pub contains-insert :
      (a b : A) (xs : List A) → contains (insert a xs) b ≡ q.same a b || contains xs b
  unfolding contains insert
  contains-insert a b xs = ground (arith, q.same_iff a b)

  pub contains-insert_all :
      (as_ xs : List A) (b : A) → contains (insert_all as_ xs) b ≡ contains as_ b || contains xs b
  unfolding contains insert_all
  contains-insert_all [] xs b = refl
  contains-insert_all (a ∷ as_) xs b =
      ground (arith, contains-insert_all as_ (insert a xs) b, contains-insert a b xs)

  pub contains-keep :
      (p : A → Bool) (xs : List A) (b : A) → contains (keep p xs) b ≡ p b && contains xs b
  unfolding contains keep
  contains-keep p [] b = ground arith
  contains-keep p (x ∷ xs) b = ground (arith, contains-keep p xs b, q.same_iff x b)

  pub insert-Distinct : (a : A) (xs : List A) → Distinct xs → Distinct (insert a xs)
  unfolding insert
  insert-Distinct a xs d = ground arith

  pub insert_all-Distinct : (as_ xs : List A) → Distinct xs → Distinct (insert_all as_ xs)
  unfolding insert_all
  insert_all-Distinct [] xs d = d
  insert_all-Distinct (a ∷ as_) xs d =
      insert_all-Distinct as_ (insert a xs) (insert-Distinct a xs d)

  pub keep-Distinct : (p : A → Bool) (xs : List A) → Distinct xs → Distinct (keep p xs)
  unfolding keep contains
  keep-Distinct p [] d = d
  keep-Distinct p (x ∷ xs) d = ground (arith, keep-Distinct p xs d.1, contains-keep p xs x, d.0)
