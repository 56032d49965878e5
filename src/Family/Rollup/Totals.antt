-- ===== src/Family/Rollup/Totals.antt =====
-- The executions of the families are those of the input.
use mathlib.Core.List.{Permᴰ}
use click_dog.Common.{
  ℕ, ◌+◌, ◌%◌, ◌≡◌, refl, ap, ◌∙◌, Option, List, [], ◌∷◌, ◌++◌, map, length, is_empty, Bool-cases,
  inl, inr, ◌==◌, if◌then◌else◌, arith,
}
use click_dog.Common.Int.{ℤ, pos}
use click_dog.Common.Maps.{lookup_or, put}
use click_dog.Common.Sets.{nat_equality}
use click_dog.Common.Sorting.{sort_by, sort_by-Perm}
use click_dog.Model.{Error}
use click_dog.Family.Tokens.{Unicode}
use click_dog.Family.Similarity.{Float64, valid_threshold}
use click_dog.Family.Stats.{
  u64, QueryFamilyExactGroup, QueryFamilyStats, no_stats, add_group, add_groups, aggregate_stats,
}
use click_dog.Family.Preview.{truncate_preview, preview_length}
use click_dog.Family.Rollup.{
  Options, FamilyBuilder, QueryFamilyRollup, hash_of, busier, busier_family, by_hash, coalesce_same,
  coalesce_all, coalesce_exact_groups, families, build_rollup, first_error, rollup,
}
use click_dog.Family.Rollup.Partition.{busier_order, grouped, families-Perm}
use click_dog.Family.Rollup.Hashes.{busier_family_order, in_order, in_order-empty, returns-eq}

abbrev pub total {ℓ} : {A : Type ℓ} → (A → ℕ) → List A → ℕ
total f [] = 0
total f (x ∷ xs) = f x + total f xs

total-append {ℓ} :
    {A : Type ℓ} (f : A → ℕ) (xs ys : List A) → total f (xs ++ ys) ≡ total f xs + total f ys
total-append f [] ys = omega arith
total-append f (x ∷ xs) ys = omega (arith, total-append f xs ys)

total-perm {ℓ} : {A : Type ℓ} (f : A → ℕ) {xs ys : List A} → Permᴰ xs ys → total f xs ≡ total f ys
total-perm f Permᴰ.nil = refl
total-perm f (Permᴰ.cons e p) = omega (arith, ap f e, total-perm f p)
total-perm f (Permᴰ.swap d e) = omega (arith, ap f d, ap f e)
total-perm f (Permᴰ.trans p q) = total-perm f p ∙ total-perm f q

-- Equal as 64-bit counters.
infix 4 ◌≡₆₄◌
abbrev pub ◌≡₆₄◌ : ℕ → ℕ → Type 0
a ≡₆₄ b = a % u64 ≡ b % u64

module _ (fl : Float64) (u : Unicode) where
  open fl use {F}

  abbrev pub executions : List (QueryFamilyExactGroup F) → ℕ
  executions gs = total (λ g. g.execution_count) gs

  add_groups-executions :
      (stats : QueryFamilyStats F) (gs : List (QueryFamilyExactGroup F))
      → (add_groups fl stats gs).execution_count ≡₆₄ stats.execution_count + executions gs
  unfolding add_groups add_group
  add_groups-executions stats [] = omega arith
  add_groups-executions stats (g ∷ gs) =
      let rest = add_groups-executions (add_group fl stats g) gs in omega (arith, rest)

  aggregate_stats-executions :
      (gs : List (QueryFamilyExactGroup F))
      → (aggregate_stats fl u gs).execution_count ≡₆₄ executions gs
  unfolding aggregate_stats
  aggregate_stats-executions gs = omega (arith, add_groups-executions (no_stats fl) gs)

  module _ (threshold : F) (max_len : ℤ) where
    abbrev entries : List (ℕ × List (QueryFamilyExactGroup F)) → ℕ
    entries m = total (λ e. executions e.1) m

    executions-coalesce_same :
        (g : QueryFamilyExactGroup F) (gs : List (QueryFamilyExactGroup F))
        → (coalesce_same fl u threshold max_len g gs).execution_count ≡₆₄ executions (g ∷ gs)
    unfolding coalesce_same
    executions-coalesce_same g [] = omega arith
    executions-coalesce_same g (h ∷ hs) = aggregate_stats-executions (g ∷ h ∷ hs)

    executions-coalesce_all :
        (m : List (ℕ × List (QueryFamilyExactGroup F)))
        → executions (coalesce_all fl u threshold max_len m) ≡₆₄ entries m
    unfolding coalesce_all
    executions-coalesce_all [] = refl
    executions-coalesce_all ((h, []) ∷ m) = omega (arith, executions-coalesce_all m)
    executions-coalesce_all ((h, g ∷ gs) ∷ m) =
        omega (arith, executions-coalesce_same g gs, executions-coalesce_all m)

    put-entries :
        (k : ℕ) (v : List (QueryFamilyExactGroup F)) (m : List (ℕ × List (QueryFamilyExactGroup F)))
        → entries (put k v m) + executions (lookup_or [] k m) ≡ entries m + executions v
    unfolding put lookup_or
    put-entries k v [] = omega arith
    put-entries k v ((i, gs) ∷ m) = elim (Bool-cases (i == k)) [
      | inl same ↦ rw same (omega arith)
      | inr other ↦ rw other (omega (arith, put-entries k v m))
    ]

    entries-put :
        (k : ℕ) (g : QueryFamilyExactGroup F) (m : List (ℕ × List (QueryFamilyExactGroup F)))
        → entries (put k (lookup_or [] k m ++ g ∷ []) m) ≡ entries m + g.execution_count
    entries-put k g m =
        let old = lookup_or [] k m in
        omega (
          arith,
          put-entries k (old ++ g ∷ []) m,
          total-append (λ x. x.execution_count) old (g ∷ []),
        )

    -- The executions of the groups that have a hash.
    abbrev pub hashed_executions : List (QueryFamilyExactGroup F) → ℕ
    hashed_executions gs = total (λ g. if hash_of g == 0 then 0 else g.execution_count) gs

    entries-by_hash :
        (gs : List (QueryFamilyExactGroup F)) (m : List (ℕ × List (QueryFamilyExactGroup F)))
        → entries (by_hash fl u threshold max_len gs m) ≡ entries m + hashed_executions gs
    entries-by_hash [] m = omega arith
    entries-by_hash (g ∷ gs) m = elim (Bool-cases (hash_of g == 0)) [
      | inl none_ ↦ rw none_ (omega (arith, entries-by_hash gs m))
      | inr some_ ↦
          let cut : QueryFamilyExactGroup F = record g {
            normalized_query = truncate_preview u g.normalized_query max_len;
          } in
          let v = lookup_or [] (hash_of g) m ++ cut ∷ [] in
          rw some_
            (omega (arith, entries-by_hash gs (put (hash_of g) v m), entries-put (hash_of g) cut m))
    ]

    executions-build_rollup :
        (bs : List (FamilyBuilder F))
        → total (λ r. r.stats.execution_count) (map (build_rollup fl u threshold max_len) bs)
          ≡₆₄ executions (grouped fl u threshold max_len bs)
    unfolding build_rollup
    executions-build_rollup [] = refl
    executions-build_rollup (b ∷ bs) = omega (
      arith,
      aggregate_stats-executions (sort_by busier b.groups),
      total-perm (λ g. g.execution_count) (sort_by-Perm busier busier_order b.groups),
      total-append (λ g. g.execution_count) b.groups (grouped fl u threshold max_len bs),
      executions-build_rollup bs,
    )

-- A rollup that is not canceled loses no execution: the families' execution counts add up to those of
-- the input's groups with a hash, as 64-bit counters, in whatever order Go's map hands out the
-- coalesced groups.
pub rollup-executions :
    (fl : Float64) (u : Unicode) (ctx : ℕ → Option Error)
    (ranged : List (QueryFamilyExactGroup fl.F) → List (QueryFamilyExactGroup fl.F))
    (gs : List (QueryFamilyExactGroup fl.F)) (opts : Options fl.F)
    (rs : List (QueryFamilyRollup fl.F))
    → ((l : List (QueryFamilyExactGroup fl.F)) → Permᴰ (ranged l) l)
    → rollup fl u ctx ranged gs opts ≡ inr rs
    → total (λ r. r.stats.execution_count) rs
      ≡₆₄ total (λ g. if hash_of g == 0 then 0 else g.execution_count) gs
unfolding rollup coalesce_exact_groups
rollup-executions fl u ctx ranged gs opts rs order h =
    let threshold = valid_threshold fl opts.similarity_threshold in
    let max_len = pos (preview_length opts.max_preview_length) in
    let index = by_hash fl u threshold max_len gs [] in
    let coalesced = coalesce_all fl u threshold max_len index in
    let groups = ranged coalesced in
    let bs = families fl u threshold max_len groups in
    let rollups = map (build_rollup fl u threshold max_len) bs in
    let e : in_order fl u threshold max_len groups ≡ rs =
      returns-eq (first_error ctx 0 1) (is_empty groups)
        (first_error ctx 1 (length groups + length groups + length bs))
        (in_order fl u threshold max_len groups) rs (in_order-empty fl u threshold max_len groups)
        h in
    omega (
      arith,
      ap (total (λ r. r.stats.execution_count)) e,
      total-perm (λ r. r.stats.execution_count)
          (sort_by-Perm busier_family (busier_family_order fl u threshold max_len) rollups),
      executions-build_rollup fl u threshold max_len bs,
      total-perm (λ g. g.execution_count) (families-Perm fl u threshold max_len groups),
      total-perm (λ g. g.execution_count) (order coalesced),
      executions-coalesce_all fl u threshold max_len index,
      entries-by_hash fl u threshold max_len gs [],
    )
