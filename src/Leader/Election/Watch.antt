-- ===== src/Leader/Election/Watch.antt =====
-- Which znode an instance watches.
use mathlib.Core.List.{Memᴰ}
use click_dog.Common.{
  ◌≡◌, ◌≢◌, refl, sym, ap, ◌∙◌, inl, inr, Bool, true, false, ◌||◌, none, some, List, [], ◌∷◌,
  Bool-cases, arith,
}
use click_dog.Leader.Znodes.{Name, bytes_lt, bytes_same, znode_seq, sort_by_seq}
use click_dog.Leader.Znodes.Order.{
  NotAfter, Sorted, sort-Sorted, mem-sort, sort-mem, bytes_same→eq, bytes_same_refl,
  bytes_lt_irrefl, bytes_lt_antisym,
}
use click_dog.Leader.Election.{
  LeaderElection, WatchTarget, own_node, predecessor, failed, not_found, find_from,
  get_watch_target,
}
use click_dog.Leader.Election.Leadership.{IsLowest, first_lowest, IsLowest-first}

-- The candidates come before `me`, and `q` is the last that does.
abbrev pub IsPredecessor : Name → Name → List Name → Type 0
IsPredecessor q me cs =
    Memᴰ q cs
    × (bytes_lt (znode_seq q) (znode_seq me) ≡ true)
    × ((c : Name) → Memᴰ c cs → bytes_lt (znode_seq c) (znode_seq me) ≡ true → NotAfter c q)

abbrev pub Watches : Name → List Name → WatchTarget → Type 0
Watches me cs own_node = IsLowest me cs
Watches me cs (predecessor q) = IsPredecessor q me cs
Watches me cs (failed e) = (e ≡ not_found) × ((c : Name) → Memᴰ c cs → znode_seq c ≢ znode_seq me)

-- The same behind a first candidate that is not ours.
abbrev Finds : Name → List Name → WatchTarget → Type 0
Finds me cs own_node = ⊥
Finds me cs (predecessor q) = IsPredecessor q me cs
Finds me cs (failed e) = (e ≡ not_found) × ((c : Name) → Memᴰ c cs → znode_seq c ≢ znode_seq me)

abbrev hit : Name → Name → Bool
hit c me = bytes_same c me || bytes_same (znode_seq c) (znode_seq me)

hit→eq : (c me : Name) → hit c me ≡ true → znode_seq c ≡ znode_seq me
hit→eq c me h = elim (Bool-cases (bytes_same c me)) [
  | inl whole ↦ ap znode_seq (bytes_same→eq c me whole)
  | inr not_whole ↦ bytes_same→eq (znode_seq c) (znode_seq me) (ground arith)
]

miss→ne : (c me : Name) → hit c me ≡ false → znode_seq c ≢ znode_seq me
miss→ne c me h e = cc (sym h ∙ same)
  where
    same : hit c me ≡ true
    same = rw (e, bytes_same_refl (znode_seq me)) (ground arith)

previous_is :
    (me p c : Name) (cs : List Name)
    → Sorted (p ∷ c ∷ cs)
    → znode_seq p ≢ znode_seq me
    → znode_seq c ≡ znode_seq me
    → IsPredecessor p me (p ∷ c ∷ cs)
previous_is me p c cs s ne e = (Memᴰ.head refl, before, last)
  where
    before : bytes_lt (znode_seq p) (znode_seq me) ≡ true
    before = elim (Bool-cases (bytes_lt (znode_seq p) (znode_seq me))) [
      | inl less ↦ less
      | inr not_less ↦
          absurd (ne (bytes_lt_antisym (znode_seq p) (znode_seq me) not_less (rw e at s.0.0)))
    ]

    last :
        (x : Name)
        → Memᴰ x (p ∷ c ∷ cs)
        → bytes_lt (znode_seq x) (znode_seq me) ≡ true
        → NotAfter x p
    last x (Memᴰ.head h) less = rw h (bytes_lt_irrefl (znode_seq p))
    last x (Memᴰ.tail m) less = cc (less, rw e at (first_lowest c cs s.1 x m))

extend :
    (me p : Name) (cs : List Name) (w : WatchTarget)
    → Sorted (p ∷ cs)
    → znode_seq p ≢ znode_seq me
    → Finds me cs w
    → Finds me (p ∷ cs) w
extend me p cs own_node s ne f = f
extend me p cs (predecessor q) s ne (m, less, last) = (Memᴰ.tail m, less, all_of)
  where
    all_of :
        (c : Name) → Memᴰ c (p ∷ cs) → bytes_lt (znode_seq c) (znode_seq me) ≡ true → NotAfter c q
    all_of c (Memᴰ.head h) l = rw h (first_lowest p cs s q (Memᴰ.tail m))
    all_of c (Memᴰ.tail t) l = last c t l
extend me p cs (failed x) s ne (e, others) = (e, all_of)
  where
    all_of : (c : Name) → Memᴰ c (p ∷ cs) → znode_seq c ≢ znode_seq me
    all_of c (Memᴰ.head h) = rw h ne
    all_of c (Memᴰ.tail t) = others c t

find_from-Finds :
    (me p : Name) (cs : List Name)
    → Sorted (p ∷ cs)
    → znode_seq p ≢ znode_seq me
    → Finds me (p ∷ cs) (find_from me (some p) cs)
unfolding find_from
find_from-Finds me p [] s ne = (refl, only)
  where
    only : (c : Name) → Memᴰ c (p ∷ []) → znode_seq c ≢ znode_seq me
    only c (Memᴰ.head h) = rw h ne
    only c (Memᴰ.tail t) = elim t [ ]
find_from-Finds me p (c ∷ cs) s ne = elim (Bool-cases (hit c me)) [
  | inl here ↦ rw here (previous_is me p c cs s ne (hit→eq c me here))
  | inr not_here ↦ rw not_here (
      extend me p (c ∷ cs) (find_from me (some c) cs) s ne
        (find_from-Finds me c cs s.1 (miss→ne c me not_here)))
]

Finds→Watches : (me : Name) (cs : List Name) (w : WatchTarget) → Finds me cs w → Watches me cs w
Finds→Watches me cs own_node f = absurd f
Finds→Watches me cs (predecessor q) f = f
Finds→Watches me cs (failed e) f = f

find_from-Watches : (me : Name) (cs : List Name) → Sorted cs → Watches me cs (find_from me none cs)
unfolding find_from
find_from-Watches me [] s = (refl, λ c m. elim m [ ])
find_from-Watches me (c ∷ cs) s = elim (Bool-cases (hit c me)) [
  | inl here ↦
      rw here
        ((IsLowest-first me c cs s).0 (rw (hit→eq c me here) (bytes_same_refl (znode_seq me))))
  | inr not_here ↦ rw not_here (
      Finds→Watches me (c ∷ cs) (find_from me (some c) cs)
        (find_from-Finds me c cs s (miss→ne c me not_here)))
]

unsort :
    (me : Name) (cs : List Name) (w : WatchTarget) → Watches me (sort_by_seq cs) w → Watches me cs w
unsort me cs own_node ((c, m, e), low) = ((c, mem-sort c cs m, e), λ d t. low d (sort-mem d cs t))
unsort me cs (predecessor q) (m, less, last) =
    (mem-sort q cs m, less, λ c t. last c (sort-mem c cs t))
unsort me cs (failed x) (e, others) = (e, λ c t. others c (sort-mem c cs t))

-- Whatever the candidates and their order: an instance watches its own node exactly when it is the
-- lowest candidate; otherwise it watches the candidate that comes last among those before it; and
-- it reports an error when no candidate has its sequence number.
pub get_watch_target-Watches :
    (children : List Name) (le : LeaderElection)
    → Watches le.my_seq children (get_watch_target (some children) le)
unfolding get_watch_target
get_watch_target-Watches children le =
    unsort le.my_seq children _
      (find_from-Watches le.my_seq (sort_by_seq children) (sort-Sorted children))
