-- ===== src/Family/Rollup/Order.antt =====
-- The families do not depend on the order of Go's map.
use mathlib.Core.List.{Permᴰ}
use click_dog.Common.{
  ℕ, suc, ◌+◌, ◌≡◌, refl, sym, ap, ◌∙◌, false, Option, List, [], ◌∷◌, map, length, All, is_empty,
  ◌==◌, arith,
}
use click_dog.Common.Int.{ℤ, pos}
use click_dog.Common.Sets.{contains, Distinct, nat_equality}
use click_dog.Common.Sorting.{Pairs, Apart, sort_by, sort_by-perm, perm_symm, Distinct-perm}
use click_dog.Model.{Error}
use click_dog.Family.Tokens.{Unicode}
use click_dog.Family.Similarity.{Float64, valid_threshold}
use click_dog.Family.Stats.{QueryFamilyExactGroup}
use click_dog.Family.Preview.{preview_length}
use click_dog.Family.Rollup.{
  Options, hash_of, busier, busier_family, build_rollup, coalesce_exact_groups, place_all, families,
  first_error, returns, rollup,
}
use click_dog.Family.Rollup.Partition.{perm_map, busier_order}
use click_dog.Family.Rollup.Hashes.{hashes-coalesce_exact_groups}

length-perm {ℓ} : {A : Type ℓ} {xs ys : List A} → Permᴰ xs ys → length xs ≡ length ys
length-perm Permᴰ.nil = refl
length-perm (Permᴰ.cons e p) = ap suc (length-perm p)
length-perm (Permᴰ.swap d e) = refl
length-perm (Permᴰ.trans p q) = length-perm p ∙ length-perm q

is_empty-length {ℓ} : {A : Type ℓ} (xs : List A) → is_empty xs ≡ (length xs == 0)
is_empty-length [] = refl
is_empty-length (x ∷ xs) = ground arith

module _ {F : Type 0} where
  All-Apart :
      (g : QueryFamilyExactGroup F) (gs : List (QueryFamilyExactGroup F))
      → contains (map hash_of gs) (hash_of g) ≡ false
      → All (Apart busier busier_order g) gs
  unfolding contains
  All-Apart g [] h = tt
  All-Apart g (x ∷ xs) h = (ground (arith, h), All-Apart g xs (ground (arith, h)))

  Pairs-Apart :
      (gs : List (QueryFamilyExactGroup F))
      → Distinct (map hash_of gs)
      → Pairs (Apart busier busier_order) gs
  Pairs-Apart [] d = tt
  Pairs-Apart (g ∷ gs) d = (All-Apart g gs d.0, Pairs-Apart gs d.1)

module _ (fl : Float64) (u : Unicode) (threshold : fl.F) (max_len : ℤ) where
  open fl use {F}

  families-perm :
      {xs ys : List (QueryFamilyExactGroup F)}
      → Permᴰ xs ys
      → Distinct (map hash_of xs)
      → families fl u threshold max_len xs ≡ families fl u threshold max_len ys
  unfolding families
  families-perm {xs = xs} p d =
      ap (λ l. place_all fl u threshold max_len l [])
        (sort_by-perm busier busier_order p (Pairs-Apart xs d))

-- A rollup is the same, families, members, statistics, order and errors, in whatever order Go's map
-- hands out the coalesced groups.
pub rollup-ranged :
    (fl : Float64) (u : Unicode) (ctx : ℕ → Option Error)
    (ranged ranged' : List (QueryFamilyExactGroup fl.F) → List (QueryFamilyExactGroup fl.F))
    (gs : List (QueryFamilyExactGroup fl.F)) (opts : Options fl.F)
    → ((l : List (QueryFamilyExactGroup fl.F)) → Permᴰ (ranged l) l)
    → ((l : List (QueryFamilyExactGroup fl.F)) → Permᴰ (ranged' l) l)
    → rollup fl u ctx ranged gs opts ≡ rollup fl u ctx ranged' gs opts
unfolding rollup
rollup-ranged fl u ctx ranged ranged' gs opts order order' =
    let threshold = valid_threshold fl opts.similarity_threshold in
    let max_len = pos (preview_length opts.max_preview_length) in
    let coalesced = coalesce_exact_groups fl u threshold max_len gs in
    let p = Permᴰ.trans (order coalesced) (perm_symm (order' coalesced)) in
    let whole = hashes-coalesce_exact_groups fl u threshold max_len gs in
    let d = Distinct-perm (perm_symm (perm_map hash_of (order coalesced))) whole.0 in
    let same = families-perm fl u threshold max_len p d in
    let size : length (ranged coalesced) ≡ length (ranged' coalesced) = length-perm p in
    let none_ : is_empty (ranged coalesced) ≡ is_empty (ranged' coalesced) =
      is_empty-length (ranged coalesced)
      ∙ ap (λ n. n == 0) size
      ∙ sym (is_empty-length (ranged' coalesced)) in
    λ i.
      returns (first_error ctx 0 1) (none_ i)
        (first_error ctx 1 (size i + size i + length (same i)))
        (sort_by busier_family (map (build_rollup fl u threshold max_len) (same i)))
