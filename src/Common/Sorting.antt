-- ===== src/Common/Sorting.antt =====
-- Sorting by a comparison, as `sort.Slice` and `sort.Strings` promise it: a sorted permutation.
use mathlib.Core.Path.{◌≡◌, refl, sym, ◌∙◌, subst}
use mathlib.Core.Logic.{inl, inr}
use mathlib.Core.Bool.{Bool, true, false, ◌||◌}
use mathlib.Core.List.{List, [], ◌∷◌, Permᴰ}
use native.Mathlib.Omega.{arith}
use click_dog.Common.Tests.{if◌then◌else◌, Bool-cases}
use click_dog.Common.Lists.{All}
use click_dog.Common.Sets.{Equality, contains, Distinct}

-- `R` between each element and those behind it.
abbrev pub Pairs {ℓ κ} : {A : Type ℓ} → (A → A → Type κ) → List A → Type κ
Pairs R [] = Unit
Pairs R (x ∷ xs) = All (R x) xs × Pairs R xs

module _ {ℓ} {A : Type ℓ} where
  unfoldable pub insert_by : (A → A → Bool) → A → List A → List A
  insert_by less x [] = x ∷ []
  insert_by less x (y ∷ ys) = if less y x then y ∷ insert_by less x ys else x ∷ y ∷ ys

  unfoldable pub sort_by : (A → A → Bool) → List A → List A
  unfolding insert_by
  sort_by less [] = []
  sort_by less (x ∷ xs) = insert_by less x (sort_by less xs)

  pub perm_refl : (xs : List A) → Permᴰ xs xs
  perm_refl [] = Permᴰ.nil
  perm_refl (x ∷ xs) = Permᴰ.cons refl (perm_refl xs)

  pub perm_symm : {xs ys : List A} → Permᴰ xs ys → Permᴰ ys xs
  perm_symm Permᴰ.nil = Permᴰ.nil
  perm_symm (Permᴰ.cons e d) = Permᴰ.cons (sym e) (perm_symm d)
  perm_symm (Permᴰ.swap e f) = Permᴰ.swap (sym f) (sym e)
  perm_symm (Permᴰ.trans d e) = Permᴰ.trans (perm_symm e) (perm_symm d)

  pub All-perm {κ} : (P : A → Type κ) {xs ys : List A} → Permᴰ xs ys → All P xs → All P ys
  All-perm P Permᴰ.nil h = h
  All-perm P (Permᴰ.cons e d) h = (subst P e h.0, All-perm P d h.1)
  All-perm P (Permᴰ.swap e f) h = (subst P f h.1.0, (subst P e h.0, h.1.1))
  All-perm P (Permᴰ.trans d e) h = All-perm P e (All-perm P d h)

  pub Pairs-perm {κ} :
      (R : A → A → Type κ)
      → ((a b : A) → R a b → R b a)
      → {xs ys : List A} → Permᴰ xs ys
      → Pairs R xs
      → Pairs R ys
  Pairs-perm R flip Permᴰ.nil h = h
  Pairs-perm R flip (Permᴰ.cons {a} {b} {l₂ = l} e d) h =
      (subst (λ x. All (R x) l) e (All-perm (R a) d h.0), Pairs-perm R flip d h.1)
  Pairs-perm R flip (Permᴰ.swap {a} {b} {a' = a'} {b' = b'} {l = l} e f) h = (
    (subst (λ x. R x b') f (subst (R b) e (flip a b h.0.0)), subst (λ x. All (R x) l) f h.1.0),
    (subst (λ x. All (R x) l) e h.0.1, h.1.1),
  )
  Pairs-perm R flip (Permᴰ.trans d e) h = Pairs-perm R flip e (Pairs-perm R flip d h)

-- A strict weak order: a comparison by a key.
pub record WeakOrder {ℓ} {A : Type ℓ} (less : A → A → Bool) : Type ℓ where
  pub asym : (x y : A) → less x y ≡ true → less y x ≡ false
  pub between : (x y z : A) → less z y ≡ false → less z x ≡ true → less y x ≡ true

module _ {ℓ} {A : Type ℓ} (less : A → A → Bool) (order : WeakOrder less) where
  -- One of the two comes first.
  abbrev pub Apart : A → A → Type 0
  Apart x y = (less x y || less y x) ≡ true

  abbrev pub NotAfter : A → A → Type 0
  NotAfter x y = less y x ≡ false

  insert_by-swap :
      (x y : A) (zs : List A)
      → Apart x y
      → insert_by less x (insert_by less y zs) ≡ insert_by less y (insert_by less x zs)
  unfolding insert_by
  insert_by-swap x y [] h = ground (arith, order.asym x y, order.asym y x)
  insert_by-swap x y (z ∷ zs) h = ground (
    arith,
    insert_by-swap x y zs h,
    order.asym x y,
    order.asym y x,
    order.between x y z,
    order.between y x z,
  )

  -- Where no two elements tie, the result of sorting does not depend on the order before.
  pub sort_by-perm :
      {xs ys : List A} → Permᴰ xs ys → Pairs Apart xs → sort_by less xs ≡ sort_by less ys
  unfolding sort_by
  sort_by-perm Permᴰ.nil h = refl
  sort_by-perm (Permᴰ.cons e d) h = rw (e, sort_by-perm d h.1)
  sort_by-perm (Permᴰ.swap {a} {b} {l = l} e f) h =
      insert_by-swap a b (sort_by less l) h.0.0
      ∙ (λ i. insert_by less (f i) (insert_by less (e i) (sort_by less l)))
  sort_by-perm (Permᴰ.trans d e) h =
      sort_by-perm d h ∙ sort_by-perm e (Pairs-perm Apart (λ a b k. ground (arith, k)) d h)

  insert_by-Perm : (x : A) (ys : List A) → Permᴰ (insert_by less x ys) (x ∷ ys)
  unfolding insert_by
  insert_by-Perm x [] = Permᴰ.cons refl Permᴰ.nil
  insert_by-Perm x (y ∷ ys) = elim (Bool-cases (less y x)) [
    | inl before ↦
        rw before (Permᴰ.trans (Permᴰ.cons refl (insert_by-Perm x ys)) (Permᴰ.swap refl refl))
    | inr behind ↦ rw behind (perm_refl (x ∷ y ∷ ys))
  ]

  pub sort_by-Perm : (xs : List A) → Permᴰ (sort_by less xs) xs
  unfolding sort_by
  sort_by-Perm [] = Permᴰ.nil
  sort_by-Perm (x ∷ xs) =
      Permᴰ.trans (insert_by-Perm x (sort_by less xs)) (Permᴰ.cons refl (sort_by-Perm xs))

  NotAfter-trans : (x y z : A) → NotAfter x y → NotAfter y z → NotAfter x z
  NotAfter-trans x y z p q = ground (arith, order.between x y z)

  All-NotAfter : (x y : A) (zs : List A) → NotAfter x y → All (NotAfter y) zs → All (NotAfter x) zs
  All-NotAfter x y [] p h = tt
  All-NotAfter x y (z ∷ zs) p h = (NotAfter-trans x y z p h.0, All-NotAfter x y zs p h.1)

  All-insert_by :
      (P : A → Type 0) (x : A) (ys : List A) → P x → All P ys → All P (insert_by less x ys)
  unfolding insert_by
  All-insert_by P x [] p h = (p, tt)
  All-insert_by P x (y ∷ ys) p h = elim (Bool-cases (less y x)) [
    | inl before ↦ rw before (h.0, All-insert_by P x ys p h.1)
    | inr behind ↦ rw behind (p, h)
  ]

  insert_by-Sorted :
      (x : A) (ys : List A) → Pairs NotAfter ys → Pairs NotAfter (insert_by less x ys)
  unfolding insert_by
  insert_by-Sorted x [] s = (tt, tt)
  insert_by-Sorted x (y ∷ ys) s = elim (Bool-cases (less y x)) [
    | inl before ↦
        rw before
          (All-insert_by (NotAfter y) x ys (order.asym y x before) s.0, insert_by-Sorted x ys s.1)
    | inr behind ↦ rw behind ((behind, All-NotAfter x y ys behind s.0), s)
  ]

  pub sort_by-Sorted : (xs : List A) → Pairs NotAfter (sort_by less xs)
  unfolding sort_by
  sort_by-Sorted [] = tt
  sort_by-Sorted (x ∷ xs) = insert_by-Sorted x (sort_by less xs) (sort_by-Sorted xs)

module _ {ℓ} {A : Type ℓ} ⦃q : Equality A⦄ where
  pub contains-perm : (a : A) {xs ys : List A} → Permᴰ xs ys → contains xs a ≡ contains ys a
  unfolding contains
  contains-perm a Permᴰ.nil = refl
  contains-perm a (Permᴰ.cons e d) = rw (e, contains-perm a d)
  contains-perm a (Permᴰ.swap {a = x} {b = y} {l = l} e f) = rw (sym e, sym f) (ground arith)
  contains-perm a (Permᴰ.trans d e) = contains-perm a d ∙ contains-perm a e

  pub Distinct-perm : {xs ys : List A} → Permᴰ xs ys → Distinct xs → Distinct ys
  unfolding contains
  Distinct-perm Permᴰ.nil h = h
  Distinct-perm (Permᴰ.cons {a = a} {b = b} {l₂ = l} e d) h =
      (subst (λ x. contains l x ≡ false) e (sym (contains-perm a d) ∙ h.0), Distinct-perm d h.1)
  Distinct-perm (Permᴰ.swap {a = x} {b = y} {l = l} e f) h =
      ground (arith, h.0, h.1.0, h.1.1, e, f, q.same_iff x y, q.same_iff y x)
  Distinct-perm (Permᴰ.trans d e) h = Distinct-perm e (Distinct-perm d h)
