-- ===== src/Family/Rollup/Hashes.antt =====
-- The hashes of the families are those of the input, each once.
use mathlib.Core.List.{Permᴰ, map-append}
use click_dog.Common.{
  ℕ, zero, suc, ◌+◌, ◌≡◌, refl, sym, ◌∙◌, subst, Bool, true, false, not, ◌&&◌, ◌||◌, Option, none,
  some, List, [], ◌∷◌, ◌++◌, map, length, All, Bool-cases, inl, inr, ltb, ◌==◌, is_empty, arith,
}
use click_dog.Common.Int.{ℤ, pos}
use click_dog.Common.Maps.{lookup_or, put}
use click_dog.Common.Sets.{contains, Distinct, nat_equality}
use click_dog.Common.Sorting.{
  sort_by, WeakOrder, sort_by-Perm, perm_refl, perm_symm, contains-perm, Distinct-perm,
}
use click_dog.Common.Text.{bytes_lt_asym, bytes_lt_between}
use click_dog.Model.{Error}
use click_dog.Family.Tokens.{Unicode}
use click_dog.Family.Similarity.{Float64, valid_threshold}
use click_dog.Family.Stats.{QueryFamilyExactGroup}
use click_dog.Family.Preview.{truncate_preview, preview_length}
use click_dog.Family.Rollup.{
  Options, FamilyBuilder, QueryFamilyRollup, hash_of, busier, busier_family, byte_len,
  representative, by_hash, coalesce_same, coalesce_all, coalesce_exact_groups, families,
  build_rollup, place_all, first_error, returns, rollup,
}
use click_dog.Family.Rollup.Partition.{
  append_perm_right, perm_between, perm_map, number_order, busier_order, grouped, families-Perm,
}

abbrev pub keys {ℓ} : {V : Type ℓ} → List (ℕ × V) → List ℕ
keys [] = []
keys ((k, v) ∷ m) = k ∷ keys m

contains-keys-put {ℓ} :
    {V : Type ℓ} (k j : ℕ) (v : V) (m : List (ℕ × V))
    → contains (keys (put k v m)) j ≡ (k == j) || contains (keys m) j
unfolding contains put
contains-keys-put k j v [] = ground arith
contains-keys-put k j v ((i, w) ∷ m) = ground (arith, contains-keys-put k j v m)

Distinct-keys-put {ℓ} :
    {V : Type ℓ} (k : ℕ) (v : V) (m : List (ℕ × V))
    → Distinct (keys m)
    → Distinct (keys (put k v m))
unfolding contains put
Distinct-keys-put k v [] d = ground arith
Distinct-keys-put k v ((i, w) ∷ m) d =
    ground (arith, Distinct-keys-put k v m d.1, contains-keys-put k i v m, d.0)

representative-hash :
    {F : Type 0} (h : ℕ) (r : QueryFamilyExactGroup F) (gs : List (QueryFamilyExactGroup F))
    → hash_of r ≡ h
    → All (λ g. hash_of g ≡ h) gs
    → hash_of (representative r gs) ≡ h
unfolding representative
representative-hash h r [] e a = e
representative-hash h r (g ∷ gs) e a =
    elim (Bool-cases (
      ltb r.execution_count g.execution_count
      || (g.execution_count == r.execution_count
          && ltb (byte_len g.normalized_query) (byte_len r.normalized_query)))) [
            | inl better ↦ rw better (representative-hash h g gs a.0 a.1)
            | inr worse ↦ rw worse (representative-hash h r gs e a.1)
          ]

abbrev pub flat {ℓ κ} : {A : Type ℓ} {B : Type κ} → (A → List B) → List A → List B
flat f [] = []
flat f (x ∷ xs) = f x ++ flat f xs

append_perm_left {ℓ} :
    {A : Type ℓ} {xs ys : List A} (zs : List A) → Permᴰ xs ys → Permᴰ (xs ++ zs) (ys ++ zs)
append_perm_left zs Permᴰ.nil = perm_refl zs
append_perm_left zs (Permᴰ.cons e p) = Permᴰ.cons e (append_perm_left zs p)
append_perm_left zs (Permᴰ.swap d e) = Permᴰ.swap d e
append_perm_left zs (Permᴰ.trans p q) = Permᴰ.trans (append_perm_left zs p) (append_perm_left zs q)

perm_swap_front {ℓ} : {A : Type ℓ} (xs ys zs : List A) → Permᴰ (xs ++ (ys ++ zs)) (ys ++ (xs ++ zs))
perm_swap_front [] ys zs = perm_refl (ys ++ zs)
perm_swap_front (x ∷ xs) ys zs =
    Permᴰ.trans (Permᴰ.cons refl (perm_swap_front xs ys zs))
      (perm_symm (perm_between ys x (xs ++ zs)))

perm_flat {ℓ κ} :
    {A : Type ℓ} {B : Type κ} (f : A → List B) {xs ys : List A}
    → Permᴰ xs ys
    → Permᴰ (flat f xs) (flat f ys)
perm_flat f Permᴰ.nil = Permᴰ.nil
perm_flat f (Permᴰ.cons {a = a} {l₂ = l} e p) =
    Permᴰ.trans (append_perm_right (f a) (perm_flat f p))
      (subst (λ r. Permᴰ (f a ++ flat f l) (f r ++ flat f l)) e (perm_refl (f a ++ flat f l)))
perm_flat f (Permᴰ.swap {a = a} {b = b} {b' = b'} {l = l} d e) =
    subst (λ r. Permᴰ (f a ++ (f b ++ flat f l)) (f r ++ (f b' ++ flat f l))) e
      (subst (λ r. Permᴰ (f a ++ (f b ++ flat f l)) (f b ++ (f r ++ flat f l))) d
        (perm_swap_front (f a) (f b) (flat f l)))
perm_flat f (Permᴰ.trans p q) = Permᴰ.trans (perm_flat f p) (perm_flat f q)

abbrev pub member_hashes : {F : Type 0} → List (QueryFamilyRollup F) → List ℕ
member_hashes rs = flat (λ r. r.member_hashes_sorted) rs

module _ (fl : Float64) (u : Unicode) (threshold : fl.F) (max_len : ℤ) where
  open fl use {F}

  abbrev IsEntry : ℕ × List (QueryFamilyExactGroup F) → Type 0
  IsEntry (h, []) = ⊥
  IsEntry (h, g ∷ gs) = (hash_of g ≡ h) × All (λ x. hash_of x ≡ h) gs

  hash-coalesce_same :
      (h : ℕ) (g : QueryFamilyExactGroup F) (gs : List (QueryFamilyExactGroup F))
      → hash_of g ≡ h
      → All (λ x. hash_of x ≡ h) gs
      → hash_of (coalesce_same fl u threshold max_len g gs) ≡ h
  unfolding coalesce_same
  hash-coalesce_same h g [] e a = e
  hash-coalesce_same h g (x ∷ xs) e a = representative-hash h g (x ∷ xs) e a

  hashes-coalesce_all :
      (m : List (ℕ × List (QueryFamilyExactGroup F)))
      → All IsEntry m
      → map hash_of (coalesce_all fl u threshold max_len m) ≡ keys m
  unfolding coalesce_all
  hashes-coalesce_all [] a = refl
  hashes-coalesce_all ((h, []) ∷ m) a = absurd a.0
  hashes-coalesce_all ((h, g ∷ gs) ∷ m) a =
      rw (hash-coalesce_same h g gs a.0.0 a.0.1, hashes-coalesce_all m a.1)

  All-put :
      (P : ℕ × List (QueryFamilyExactGroup F) → Type 0) (k : ℕ) (v : List (QueryFamilyExactGroup F))
      (m : List (ℕ × List (QueryFamilyExactGroup F)))
      → P (k, v)
      → All P m
      → All P (put k v m)
  unfolding put
  All-put P k v [] p a = (p, tt)
  All-put P k v ((i, w) ∷ m) p a = elim (Bool-cases (i == k)) [
    | inl same ↦ rw same (p, a.1)
    | inr other ↦ rw other (a.0, All-put P k v m p a.1)
  ]

  IsEntry-add :
      (h : ℕ) (g : QueryFamilyExactGroup F) (m : List (ℕ × List (QueryFamilyExactGroup F)))
      → hash_of g ≡ h
      → All IsEntry m
      → IsEntry (h, lookup_or [] h m ++ g ∷ [])
  unfolding lookup_or
  IsEntry-add h g [] e a = (e, tt)
  IsEntry-add h g ((i, []) ∷ m) e a = absurd a.0
  IsEntry-add h g ((i, x ∷ xs) ∷ m) e a = elim (Bool-cases (i == h)) [
    | inl same ↦
        rw same (let k : i ≡ h = ground (arith, same) in (a.0.0 ∙ k, snoc xs (λ y p. p ∙ k) a.0.1))
    | inr other ↦ rw other (IsEntry-add h g m e a.1)
  ]
    where
      snoc :
          (xs : List (QueryFamilyExactGroup F))
          → ((y : QueryFamilyExactGroup F) → hash_of y ≡ i → hash_of y ≡ h)
          → All (λ y. hash_of y ≡ i) xs
          → All (λ y. hash_of y ≡ h) (xs ++ g ∷ [])
      snoc [] f b = (e, tt)
      snoc (y ∷ ys) f b = (f y b.0, snoc ys f b.1)

  pub record IsIndex (m : List (ℕ × List (QueryFamilyExactGroup F))) : Type 0 where
    pub distinct : Distinct (keys m)
    pub entries : All IsEntry m

  by_hash-IsIndex :
      (gs : List (QueryFamilyExactGroup F)) (m : List (ℕ × List (QueryFamilyExactGroup F)))
      → IsIndex m
      → IsIndex (by_hash fl u threshold max_len gs m)
        × ((j : ℕ)
            → contains (keys (by_hash fl u threshold max_len gs m)) j
              ≡ contains (keys m) j || (not (j == 0) && contains (map hash_of gs) j))
  unfolding contains
  by_hash-IsIndex [] m i = (i, λ j. ground arith)
  by_hash-IsIndex (g ∷ gs) m i = elim (Bool-cases (hash_of g == 0)) [
    | inl none_ ↦
        let rest = by_hash-IsIndex gs m i in
        rw none_ (rest.0, λ j. rest.1 j ∙ ground (arith, none_))
    | inr some_ ↦
        let cut : QueryFamilyExactGroup F = record g {
          normalized_query = truncate_preview u g.normalized_query max_len;
        } in
        let v = lookup_or [] (hash_of g) m ++ cut ∷ [] in
        let rest = by_hash-IsIndex gs (put (hash_of g) v m) (record {
          distinct = Distinct-keys-put (hash_of g) v m i.distinct;
          entries =
              All-put IsEntry (hash_of g) v m (IsEntry-add (hash_of g) cut m refl i.entries)
                i.entries;
        }) in
        rw some_
          (rest.0, λ j. rest.1 j ∙ ground (arith, some_, contains-keys-put (hash_of g) j v m))
  ]

  pub hashes-coalesce_exact_groups :
      (gs : List (QueryFamilyExactGroup F))
      → Distinct (map hash_of (coalesce_exact_groups fl u threshold max_len gs))
        × ((j : ℕ)
            → contains (map hash_of (coalesce_exact_groups fl u threshold max_len gs)) j
              ≡ not (j == 0) && contains (map hash_of gs) j)
  unfolding coalesce_exact_groups contains
  hashes-coalesce_exact_groups gs =
      let index = by_hash-IsIndex gs [] (record { distinct = tt; entries = tt }) in
      rw (hashes-coalesce_all (by_hash fl u threshold max_len gs []) index.0.entries)
        (index.0.distinct, λ j. index.1 j)

  pub busier_family_order : WeakOrder {A = QueryFamilyRollup F} busier_family
  busier_family_order = record {
    asym = λ a b h. ground (arith, h, bytes_lt_asym a.family_id b.family_id);
    between =
        λ a b c h k. ground (arith, h, k, bytes_lt_between a.family_id b.family_id c.family_id);
  }

  hashes-build_rollup :
      (bs : List (FamilyBuilder F))
      → Permᴰ
          (member_hashes (map (build_rollup fl u threshold max_len) bs))
          (map hash_of (grouped fl u threshold max_len bs))
  unfolding build_rollup
  hashes-build_rollup [] = Permᴰ.nil
  hashes-build_rollup (b ∷ bs) =
      let sorted = sort_by busier b.groups in
      let one =
        Permᴰ.trans (sort_by-Perm ltb number_order (map hash_of sorted))
          (perm_map hash_of (sort_by-Perm busier busier_order b.groups)) in
      subst
        (λ l.
          Permᴰ
            (sort_by ltb (map (λ g. hash_of g) sorted)
              ++ member_hashes (map (build_rollup fl u threshold max_len) bs))
            l)
        (sym (map-append hash_of b.groups (grouped fl u threshold max_len bs)))
        (Permᴰ.trans
          (append_perm_left (member_hashes (map (build_rollup fl u threshold max_len) bs)) one)
          (append_perm_right (map hash_of b.groups) (hashes-build_rollup bs)))

  hashes-families :
      (gs : List (QueryFamilyExactGroup F))
      → Permᴰ
          (member_hashes (
            sort_by busier_family
              (map (build_rollup fl u threshold max_len) (families fl u threshold max_len gs))))
          (map hash_of gs)
  hashes-families gs =
      let bs = families fl u threshold max_len gs in
      Permᴰ.trans
        (perm_flat (λ r. r.member_hashes_sorted)
          (sort_by-Perm busier_family busier_family_order
            (map (build_rollup fl u threshold max_len) bs)))
        (Permᴰ.trans (hashes-build_rollup bs)
          (perm_map (λ g. hash_of g) (families-Perm fl u threshold max_len gs)))

  abbrev pub in_order : List (QueryFamilyExactGroup F) → List (QueryFamilyRollup F)
  in_order groups =
      sort_by busier_family
        (map (build_rollup fl u threshold max_len) (families fl u threshold max_len groups))

  pub in_order-empty :
      (groups : List (QueryFamilyExactGroup F)) → is_empty groups ≡ true → in_order groups ≡ []
  unfolding families sort_by place_all
  in_order-empty [] h = refl
  in_order-empty (g ∷ gs) h = absurd (ground (arith, h))

pub returns-eq :
    {R : Type 0} (early : Option Error) (nothing : Bool) (later : Option Error) (out rs : List R)
    → (nothing ≡ true → out ≡ [])
    → returns early nothing later out ≡ inr rs
    → out ≡ rs
returns-eq (some e) nothing later out rs f h = absurd (ground (arith, h))
returns-eq none true later out rs f h = f refl ∙ ground (arith, h)
returns-eq none false (some e) out rs f h = absurd (ground (arith, h))
returns-eq none false none out rs f h = ground (arith, h)

-- A rollup that is not canceled has every hash of the input but 0 in exactly one family, once, and no
-- other hash, in whatever order Go's map hands out the coalesced groups, and whatever the options.
pub rollup-hashes :
    (fl : Float64) (u : Unicode) (ctx : ℕ → Option Error)
    (ranged : List (QueryFamilyExactGroup fl.F) → List (QueryFamilyExactGroup fl.F))
    (gs : List (QueryFamilyExactGroup fl.F)) (opts : Options fl.F)
    (rs : List (QueryFamilyRollup fl.F))
    → ((l : List (QueryFamilyExactGroup fl.F)) → Permᴰ (ranged l) l)
    → rollup fl u ctx ranged gs opts ≡ inr rs
    → Distinct (member_hashes rs)
      × ((j : ℕ) → contains (member_hashes rs) j ≡ not (j == 0) && contains (map hash_of gs) j)
unfolding rollup
rollup-hashes fl u ctx ranged gs opts rs order h =
    let threshold = valid_threshold fl opts.similarity_threshold in
    let max_len = pos (preview_length opts.max_preview_length) in
    let coalesced = coalesce_exact_groups fl u threshold max_len gs in
    let groups = ranged coalesced in
    let out = in_order fl u threshold max_len groups in
    let whole = hashes-coalesce_exact_groups fl u threshold max_len gs in
    let p : Permᴰ (member_hashes out) (map hash_of coalesced) =
      Permᴰ.trans (hashes-families fl u threshold max_len groups)
        (perm_map hash_of (order coalesced)) in
    let e : out ≡ rs =
      returns-eq (first_error ctx 0 1) (is_empty groups)
        (first_error ctx 1
          (length groups + length groups + length (families fl u threshold max_len groups)))
        out rs (in_order-empty fl u threshold max_len groups) h in
    subst
      (λ l.
        Distinct (member_hashes l)
        × ((j : ℕ) → contains (member_hashes l) j ≡ not (j == 0) && contains (map hash_of gs) j))
      e (Distinct-perm (perm_symm p) whole.0, λ j. contains-perm j p ∙ whole.1 j)

first_error-never :
    (ctx : ℕ → Option Error) → ((k : ℕ) → ctx k ≡ none) → (k n : ℕ) → first_error ctx k n ≡ none
unfolding first_error
first_error-never ctx never k zero = refl
first_error-never ctx never k (suc n) = cc (never k, first_error-never ctx never (k + 1) n)

returns-inr :
    {R : Type 0} (nothing : Bool) (out : List R)
    → (rs : List R) × (returns none nothing none out ≡ inr rs)
returns-inr true out = ([], refl)
returns-inr false out = (out, refl)

-- A rollup whose context is never canceled returns families.
pub rollup-uncanceled :
    (fl : Float64) (u : Unicode) (ctx : ℕ → Option Error)
    (ranged : List (QueryFamilyExactGroup fl.F) → List (QueryFamilyExactGroup fl.F))
    (gs : List (QueryFamilyExactGroup fl.F)) (opts : Options fl.F)
    → ((k : ℕ) → ctx k ≡ none)
    → (rs : List (QueryFamilyRollup fl.F)) × (rollup fl u ctx ranged gs opts ≡ inr rs)
unfolding rollup
rollup-uncanceled fl u ctx ranged gs opts never =
    let threshold = valid_threshold fl opts.similarity_threshold in
    let max_len = pos (preview_length opts.max_preview_length) in
    let groups = ranged (coalesce_exact_groups fl u threshold max_len gs) in
    let turns = length groups + length groups + length (families fl u threshold max_len groups) in
    let out = in_order fl u threshold max_len groups in
    let done = returns-inr (is_empty groups) out in
    (
      done.0,
      (λ i.
            returns (first_error-never ctx never 0 1 i) (is_empty groups)
              (first_error-never ctx never 1 turns i) out)
          ∙ done.1,
    )
