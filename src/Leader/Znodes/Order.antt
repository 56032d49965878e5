-- ===== src/Leader/Znodes/Order.antt =====
-- The order of sequence numbers, and what sorting by it gives.
use mathlib.Core.List.{Memᴰ}
use click_dog.Common.{◌≡◌, sym, subst, inl, inr, true, false, List, [], ◌∷◌, Bool-cases, All}
pub use click_dog.Common.Text.{
  bytes_lt_irrefl, bytes_lt_trans, bytes_same→eq, bytes_same_refl, bytes_lt_antisym,
}
use click_dog.Leader.Znodes.{Name, bytes_lt, znode_seq, insert_by_seq, sort_by_seq}

-- `a` does not come behind `b`.
abbrev pub NotAfter : Name → Name → Type 0
NotAfter a b = bytes_lt (znode_seq b) (znode_seq a) ≡ false

pub NotAfter-trans : (a b c : Name) → NotAfter a b → NotAfter b c → NotAfter a c
NotAfter-trans a b c p q = go (znode_seq a) (znode_seq b) (znode_seq c) p q
  where
    go : (x y z : Name) → bytes_lt y x ≡ false → bytes_lt z y ≡ false → bytes_lt z x ≡ false
    go x y z p q = elim (Bool-cases (bytes_lt z x)) [
      | inr no_ ↦ no_
      | inl yes_ ↦ elim (Bool-cases (bytes_lt x y)) [
        | inl less ↦ cc (bytes_lt_trans z x y yes_ less)
        | inr not_less ↦ let e = bytes_lt_antisym x y not_less p in rw e q
      ]
    ]

abbrev pub Sorted : List Name → Type 0
Sorted [] = Unit
Sorted (c ∷ cs) = All (NotAfter c) cs × Sorted cs

All-trans : (a b : Name) (cs : List Name) → NotAfter a b → All (NotAfter b) cs → All (NotAfter a) cs
All-trans a b [] p h = tt
All-trans a b (c ∷ cs) p h = (NotAfter-trans a b c p h.0, All-trans a b cs p h.1)

All-insert :
    (a c : Name) (ds : List Name)
    → NotAfter a c
    → All (NotAfter a) ds
    → All (NotAfter a) (insert_by_seq c ds)
unfolding insert_by_seq
All-insert a c [] p h = (p, tt)
All-insert a c (d ∷ ds) p h = elim (Bool-cases (bytes_lt (znode_seq d) (znode_seq c))) [
  | inl before ↦ rw before (h.0, All-insert a c ds p h.1)
  | inr behind ↦ rw behind (p, h)
]

NotAfter-of_lt : (a b : Name) → bytes_lt (znode_seq a) (znode_seq b) ≡ true → NotAfter a b
NotAfter-of_lt a b h = elim (Bool-cases (bytes_lt (znode_seq b) (znode_seq a))) [
  | inr no_ ↦ no_
  | inl yes_ ↦ cc (
    bytes_lt_trans (znode_seq a) (znode_seq b) (znode_seq a) h yes_,
    bytes_lt_irrefl (znode_seq a),
  )
]

insert-Sorted : (c : Name) (ds : List Name) → Sorted ds → Sorted (insert_by_seq c ds)
unfolding insert_by_seq
insert-Sorted c [] s = (tt, tt)
insert-Sorted c (d ∷ ds) s = elim (Bool-cases (bytes_lt (znode_seq d) (znode_seq c))) [
  | inl before ↦
      rw before (All-insert d c ds (NotAfter-of_lt d c before) s.0, insert-Sorted c ds s.1)
  | inr behind ↦ rw behind ((behind, All-trans c d ds behind s.0), s)
]

pub sort-Sorted : (cs : List Name) → Sorted (sort_by_seq cs)
unfolding sort_by_seq
sort-Sorted [] = tt
sort-Sorted (c ∷ cs) = insert-Sorted c (sort_by_seq cs) (sort-Sorted cs)

under {ℓ} : {A : Type ℓ} {a c d : A} {es : List A} → Memᴰ a (c ∷ es) → Memᴰ a (c ∷ d ∷ es)
under (Memᴰ.head e) = Memᴰ.head e
under (Memᴰ.tail m) = Memᴰ.tail (Memᴰ.tail m)

past {ℓ} :
    {A : Type ℓ} {a c d : A} {ds es : List A}
    → (Memᴰ a ds → Memᴰ a (c ∷ es))
    → Memᴰ a (d ∷ ds)
    → Memᴰ a (c ∷ d ∷ es)
past f (Memᴰ.head e) = Memᴰ.tail (Memᴰ.head e)
past f (Memᴰ.tail m) = under (f m)

back {ℓ} :
    {A : Type ℓ} {a c d : A} {ds es : List A}
    → (Memᴰ a (c ∷ es) → Memᴰ a ds)
    → Memᴰ a (c ∷ d ∷ es)
    → Memᴰ a (d ∷ ds)
back f (Memᴰ.head e) = Memᴰ.tail (f (Memᴰ.head e))
back f (Memᴰ.tail (Memᴰ.head e)) = Memᴰ.head e
back f (Memᴰ.tail (Memᴰ.tail m)) = Memᴰ.tail (f (Memᴰ.tail m))

mem-insert : (a c : Name) (ds : List Name) → Memᴰ a (insert_by_seq c ds) → Memᴰ a (c ∷ ds)
unfolding insert_by_seq
mem-insert a c [] m = m
mem-insert a c (d ∷ ds) m = elim (Bool-cases (bytes_lt (znode_seq d) (znode_seq c))) [
  | inl before ↦ past (mem-insert a c ds) (rw before at m)
  | inr behind ↦ rw behind at m
]

insert-mem : (a c : Name) (ds : List Name) → Memᴰ a (c ∷ ds) → Memᴰ a (insert_by_seq c ds)
unfolding insert_by_seq
insert-mem a c [] m = m
insert-mem a c (d ∷ ds) m = elim (Bool-cases (bytes_lt (znode_seq d) (znode_seq c))) [
  | inl before ↦ rw before (back (insert-mem a c ds) m)
  | inr behind ↦ rw behind m
]

over {ℓ} :
    {A : Type ℓ} {a c : A} {ds es : List A}
    → (Memᴰ a ds → Memᴰ a es)
    → Memᴰ a (c ∷ ds)
    → Memᴰ a (c ∷ es)
over f (Memᴰ.head e) = Memᴰ.head e
over f (Memᴰ.tail m) = Memᴰ.tail (f m)

-- Sorting keeps the members.
pub mem-sort : (a : Name) (cs : List Name) → Memᴰ a (sort_by_seq cs) → Memᴰ a cs
unfolding sort_by_seq
mem-sort a [] m = m
mem-sort a (c ∷ cs) m = over (mem-sort a cs) (mem-insert a c (sort_by_seq cs) m)

pub sort-mem : (a : Name) (cs : List Name) → Memᴰ a cs → Memᴰ a (sort_by_seq cs)
unfolding sort_by_seq
sort-mem a [] m = m
sort-mem a (c ∷ cs) m = insert-mem a c (sort_by_seq cs) (over (sort-mem a cs) m)

pub All-mem {ℓ κ} : {A : Type ℓ} (P : A → Type κ) {a : A} (cs : List A) → All P cs → Memᴰ a cs → P a
All-mem P [] h m = elim m [ ]
All-mem P (c ∷ cs) h (Memᴰ.head e) = subst P (sym e) h.0
All-mem P (c ∷ cs) h (Memᴰ.tail m) = All-mem P cs h.1 m
