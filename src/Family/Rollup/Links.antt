-- ===== src/Family/Rollup/Links.antt =====
-- The families are linked within and apart from one another.
use click_dog.Common.{
  ◌≡◌, refl, Bool, true, not, ◌||◌, Option, none, some, List, [], ◌∷◌, ◌++◌, any, All, Bool-cases,
  Option-cases, inl, inr, subst, arith,
}
use click_dog.Common.Int.{ℤ}
use click_dog.Common.Sorting.{Pairs, sort_by}
use click_dog.Family.Tokens.{Unicode}
use click_dog.Family.Similarity.{Float64}
use click_dog.Family.Stats.{QueryFamilyExactGroup}
use click_dog.Family.Rollup.{
  FamilyBuilder, QueryFamilyMergeReason, busier, merges, complete_link_reasons, place, place_all,
  families,
}

All-snoc {ℓ κ} :
    {A : Type ℓ} (P : A → Type κ) (xs : List A) (y : A) → All P xs → P y → All P (xs ++ y ∷ [])
All-snoc P [] y h p = (p, tt)
All-snoc P (x ∷ xs) y h p = (h.0, All-snoc P xs y h.1 p)

Pairs-snoc {ℓ κ} :
    {A : Type ℓ} (R : A → A → Type κ) (xs : List A) (y : A)
    → Pairs R xs
    → All (λ x. R x y) xs
    → Pairs R (xs ++ y ∷ [])
Pairs-snoc R [] y p h = (tt, tt)
Pairs-snoc R (x ∷ xs) y p h = (All-snoc (R x) xs y p.0 h.0, Pairs-snoc R xs y p.1 h.1)

any-append {ℓ} :
    {A : Type ℓ} (p : A → Bool) (xs ys : List A) → any p (xs ++ ys) ≡ any p xs || any p ys
any-append p [] ys = refl
any-append p (x ∷ xs) ys = ground (arith, any-append p xs ys)

module _ (fl : Float64) (u : Unicode) (threshold : fl.F) (max_len : ℤ) where
  open fl use {F}

  abbrev pub Merges : QueryFamilyExactGroup F → QueryFamilyExactGroup F → Type 0
  Merges x y = merges fl u threshold max_len x y ≡ true

  -- A member that does not merge with the group.
  abbrev pub refuses : List (QueryFamilyExactGroup F) → QueryFamilyExactGroup F → Bool
  refuses members g = any (λ m. not (merges fl u threshold max_len m g)) members

  -- The family refuses the group that began the other one.
  abbrev pub Refuses : FamilyBuilder F → List (QueryFamilyExactGroup F) → Type 0
  Refuses b [] = ⊥
  Refuses b (g ∷ gs) = refuses b.groups g ≡ true

  abbrev pub Linked :
      QueryFamilyExactGroup F
      → List (QueryFamilyExactGroup F)
      → Option (List (QueryFamilyMergeReason F))
      → Type 0
  Linked g members none = refuses members g ≡ true
  Linked g members (some reasons) = All (λ m. Merges m g) members

  complete_link_reasons-Linked :
      (g : QueryFamilyExactGroup F) (members : List (QueryFamilyExactGroup F))
      → Linked g members (complete_link_reasons fl u threshold max_len g members)
  unfolding complete_link_reasons
  complete_link_reasons-Linked g [] = tt
  complete_link_reasons-Linked g (m ∷ ms) =
      let later = complete_link_reasons-Linked g ms in
      elim (Option-cases (complete_link_reasons fl u threshold max_len g ms)) [
        | inl nothing ↦
            let refused : refuses ms g ≡ true = subst (Linked g ms) nothing later in
            rw nothing (ground (arith, refused))
        | inr (reasons, found) ↦ elim (Bool-cases (merges fl u threshold max_len m g)) [
          | inl joins ↦ rw (found, joins) (joins, subst (Linked g ms) found later)
          | inr apart ↦ rw (found, apart) (rw apart refl)
        ]
      ]

  -- The families are complete-linked, and each one refuses what began a later one.
  pub record IsClustered (bs : List (FamilyBuilder F)) : Type 0 where
    pub linked : All (λ b. Pairs Merges b.groups) bs
    pub refused : Pairs (λ b c. Refuses b c.groups) bs

  abbrev pub joined :
      FamilyBuilder F → QueryFamilyExactGroup F → List (QueryFamilyMergeReason F) → FamilyBuilder F
  joined b g reasons = record { groups = b.groups ++ g ∷ []; reasons = b.reasons ++ reasons }

  Refuses-snoc :
      (b : FamilyBuilder F) (c : List (QueryFamilyExactGroup F)) (g : QueryFamilyExactGroup F)
      → Refuses b c
      → Refuses b (c ++ g ∷ [])
  Refuses-snoc b [] g h = absurd h
  Refuses-snoc b (x ∷ c) g h = h

  Refuses-joined :
      (b : FamilyBuilder F) (g : QueryFamilyExactGroup F)
      (reasons : List (QueryFamilyMergeReason F)) (c : List (QueryFamilyExactGroup F))
      → Refuses b c
      → Refuses (joined b g reasons) c
  Refuses-joined b g reasons [] h = absurd h
  Refuses-joined b g reasons (x ∷ c) h =
      ground (arith, any-append (λ m. not (merges fl u threshold max_len m x)) b.groups (g ∷ []), h)

  All-Refuses-joined :
      (b : FamilyBuilder F) (g : QueryFamilyExactGroup F)
      (reasons : List (QueryFamilyMergeReason F)) (cs : List (FamilyBuilder F))
      → All (λ c. Refuses b c.groups) cs
      → All (λ c. Refuses (joined b g reasons) c.groups) cs
  All-Refuses-joined b g reasons [] h = tt
  All-Refuses-joined b g reasons (c ∷ cs) h =
      (Refuses-joined b g reasons c.groups h.0, All-Refuses-joined b g reasons cs h.1)

  -- `place`, by what the link of the first family says.
  pub place_by :
      (P : List (FamilyBuilder F) → Type 0) (g : QueryFamilyExactGroup F) (b : FamilyBuilder F)
      (bs : List (FamilyBuilder F))
      → (refuses b.groups g ≡ true → P (b ∷ place fl u threshold max_len g bs))
      → ((reasons : List (QueryFamilyMergeReason F))
          → All (λ m. Merges m g) b.groups
          → P (joined b g reasons ∷ bs))
      → P (place fl u threshold max_len g (b ∷ bs))
  unfolding place
  place_by P g b bs no_ yes_ =
      let linked = complete_link_reasons-Linked g b.groups in
      elim (Option-cases (complete_link_reasons fl u threshold max_len g b.groups)) [
        | inl nothing ↦ rw (nothing, place) (no_ (subst (Linked g b.groups) nothing linked))
        | inr (reasons, found) ↦
            rw (found, place) (yes_ reasons (subst (Linked g b.groups) found linked))
      ]

  All-Refuses-place :
      (b : FamilyBuilder F) (g : QueryFamilyExactGroup F) (bs : List (FamilyBuilder F))
      → refuses b.groups g ≡ true
      → All (λ c. Refuses b c.groups) bs
      → All (λ c. Refuses b c.groups) (place fl u threshold max_len g bs)
  unfolding place
  All-Refuses-place b g [] r h = (r, tt)
  All-Refuses-place b g (c ∷ cs) r h =
      place_by (All (λ c. Refuses b c.groups)) g c cs (λ n. (h.0, All-Refuses-place b g cs r h.1))
        (λ reasons y. (Refuses-snoc b c.groups g h.0, h.1))

  place-IsClustered :
      (g : QueryFamilyExactGroup F) (bs : List (FamilyBuilder F))
      → IsClustered bs
      → IsClustered (place fl u threshold max_len g bs)
  unfolding place
  place-IsClustered g [] c = record { linked = ((tt, tt), tt); refused = (tt, tt) }
  place-IsClustered g (b ∷ bs) c =
      place_by IsClustered g b bs
        (λ n.
          let rest =
            place-IsClustered g bs (record { linked = c.linked.1; refused = c.refused.1 }) in
          record {
            linked = (c.linked.0, rest.linked);
            refused = (All-Refuses-place b g bs n c.refused.0, rest.refused);
          })
        (λ reasons y. record {
          linked = (Pairs-snoc Merges b.groups g c.linked.0 y, c.linked.1);
          refused = (All-Refuses-joined b g reasons bs c.refused.0, c.refused.1);
        })

  place_all-IsClustered :
      (gs : List (QueryFamilyExactGroup F)) (bs : List (FamilyBuilder F))
      → IsClustered bs
      → IsClustered (place_all fl u threshold max_len gs bs)
  unfolding place_all
  place_all-IsClustered [] bs c = c
  place_all-IsClustered (g ∷ gs) bs c =
      place_all-IsClustered gs (place fl u threshold max_len g bs) (place-IsClustered g bs c)

  -- In every family each two members pass the similarity test, whatever the groups; and of each two
  -- families, in the order in which they were begun, the earlier one has a member that fails the test
  -- with the group that began the later one, so that no group begins a family that it could have
  -- joined.
  pub families-IsClustered :
      (gs : List (QueryFamilyExactGroup F)) → IsClustered (families fl u threshold max_len gs)
  unfolding families
  families-IsClustered gs =
      place_all-IsClustered (sort_by busier gs) [] (record { linked = tt; refused = tt })
