-- ===== src/Family/Rollup/Partition.antt =====
-- The families are the coalesced groups, none lost and none twice.
use mathlib.Core.List.{Permᴰ, append-nil}
use click_dog.Common.{refl, ap, subst, List, [], ◌∷◌, ◌++◌, map, ltb, arith}
use click_dog.Common.Int.{ℤ}
use click_dog.Common.Sets.{nat_equality}
use click_dog.Common.Sorting.{sort_by, WeakOrder, sort_by-Perm, perm_refl}
use click_dog.Family.Tokens.{Unicode}
use click_dog.Family.Similarity.{Float64}
use click_dog.Family.Stats.{QueryFamilyExactGroup}
use click_dog.Family.Rollup.{FamilyBuilder, busier, place, place_all, families}
use click_dog.Family.Rollup.Links.{place_by}

-- Adding an element before or between.
pub append_perm_right {ℓ} :
    {A : Type ℓ} (xs : List A) {ys zs : List A} → Permᴰ ys zs → Permᴰ (xs ++ ys) (xs ++ zs)
append_perm_right [] p = p
append_perm_right (x ∷ xs) p = Permᴰ.cons refl (append_perm_right xs p)

pub perm_between {ℓ} :
    {A : Type ℓ} (xs : List A) (y : A) (ys : List A) → Permᴰ (xs ++ y ∷ ys) (y ∷ xs ++ ys)
perm_between [] y ys = perm_refl (y ∷ ys)
perm_between (x ∷ xs) y ys =
    Permᴰ.trans (Permᴰ.cons refl (perm_between xs y ys)) (Permᴰ.swap refl refl)

perm_snoc {ℓ} :
    {A : Type ℓ} (xs : List A) (y : A) (ys : List A) → Permᴰ ((xs ++ y ∷ []) ++ ys) (y ∷ (xs ++ ys))
perm_snoc [] y ys = perm_refl (y ∷ ys)
perm_snoc (x ∷ xs) y ys = Permᴰ.trans (Permᴰ.cons refl (perm_snoc xs y ys)) (Permᴰ.swap refl refl)

pub perm_map {ℓ κ} :
    {A : Type ℓ} {B : Type κ} (f : A → B) {xs ys : List A}
    → Permᴰ xs ys
    → Permᴰ (map f xs) (map f ys)
perm_map f Permᴰ.nil = Permᴰ.nil
perm_map f (Permᴰ.cons e p) = Permᴰ.cons (ap f e) (perm_map f p)
perm_map f (Permᴰ.swap d e) = Permᴰ.swap (ap f d) (ap f e)
perm_map f (Permᴰ.trans p q) = Permᴰ.trans (perm_map f p) (perm_map f q)

pub number_order : WeakOrder ltb
number_order = record {
  asym = λ a b h. ground (arith, h);
  between = λ a b c h k. ground (arith, h, k);
}

pub busier_order : {F : Type 0} → WeakOrder {A = QueryFamilyExactGroup F} busier
busier_order = record {
  asym = λ a b h. ground (arith, h);
  between = λ a b c h k. ground (arith, h, k);
}

module _ (fl : Float64) (u : Unicode) (threshold : fl.F) (max_len : ℤ) where
  open fl use {F}

  abbrev pub grouped : List (FamilyBuilder F) → List (QueryFamilyExactGroup F)
  grouped [] = []
  grouped (b ∷ bs) = b.groups ++ grouped bs

  place-Perm :
      (g : QueryFamilyExactGroup F) (bs : List (FamilyBuilder F))
      → Permᴰ (grouped (place fl u threshold max_len g bs)) (g ∷ grouped bs)
  unfolding place
  place-Perm g [] = perm_refl (g ∷ [])
  place-Perm g (b ∷ bs) =
      place_by fl u threshold max_len (λ cs. Permᴰ (grouped cs) (g ∷ (b.groups ++ grouped bs))) g b
        bs
        (λ n.
          Permᴰ.trans (append_perm_right b.groups (place-Perm g bs))
            (perm_between b.groups g (grouped bs)))
        (λ reasons y. perm_snoc b.groups g (grouped bs))

  place_all-Perm :
      (gs : List (QueryFamilyExactGroup F)) (bs : List (FamilyBuilder F))
      → Permᴰ (grouped (place_all fl u threshold max_len gs bs)) (gs ++ grouped bs)
  unfolding place_all
  place_all-Perm [] bs = perm_refl (grouped bs)
  place_all-Perm (g ∷ gs) bs =
      Permᴰ.trans (place_all-Perm gs (place fl u threshold max_len g bs))
        (Permᴰ.trans (append_perm_right gs (place-Perm g bs)) (perm_between gs g (grouped bs)))

  -- The families' groups are the groups that were to be clustered.
  pub families-Perm :
      (gs : List (QueryFamilyExactGroup F))
      → Permᴰ (grouped (families fl u threshold max_len gs)) gs
  unfolding families
  families-Perm gs =
      let sorted = sort_by busier gs in
      Permᴰ.trans
        (subst (λ l. Permᴰ (grouped (place_all fl u threshold max_len sorted [])) l)
          (append-nil sorted) (place_all-Perm sorted []))
        (sort_by-Perm busier busier_order gs)
