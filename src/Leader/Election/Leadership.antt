-- ===== src/Leader/Election/Leadership.antt =====
-- Who is leader after a check, what the callbacks are told, and the fencing token.
use mathlib.Core.List.{Memᴰ}
use click_dog.Common.{
  ◌≡◌, ◌≢◌, ◌↔◌, refl, subst, inl, inr, Bool, true, false, some, List, [], ◌∷◌, Bool-cases, arith,
}
use click_dog.Leader.Znodes.{Name, bytes_same, znode_seq, sort_by_seq}
use click_dog.Leader.Znodes.Order.{
  NotAfter, Sorted, sort-Sorted, mem-sort, sort-mem, All-mem, bytes_same→eq, bytes_same_refl,
  bytes_lt_irrefl, bytes_lt_antisym,
}
use click_dog.Leader.Election.{
  LeaderElection, check_sorted, settle, check_leadership, handle_demotion,
}

-- The candidate's sequence number is among the children's, and none is lower.
abbrev pub IsLowest : Name → List Name → Type 0
IsLowest me children =
    ((c : Name) × Memᴰ c children × (znode_seq c ≡ znode_seq me))
    × ((c : Name) → Memᴰ c children → NotAfter me c)

pub leader-settle :
    (was now : Bool) (le : LeaderElection)
    → le.is_leader ≡ now
    → (settle was now le).is_leader ≡ now
unfolding settle handle_demotion
leader-settle false true le h = h
leader-settle true false le h = ground arith
leader-settle true true le h = h
leader-settle false false le h = h

leader-check_sorted :
    (first : Name) (rest : List Name) (le : LeaderElection)
    → (check_sorted (first ∷ rest) le).0.is_leader
      ≡ bytes_same (znode_seq first) (znode_seq le.my_seq)
unfolding check_sorted
leader-check_sorted first rest le = leader-settle le.is_leader _ _ refl

pub first_lowest :
    (first : Name) (rest : List Name)
    → Sorted (first ∷ rest)
    → (c : Name) → Memᴰ c (first ∷ rest)
    → NotAfter first c
first_lowest first rest s c m =
    All-mem (NotAfter first) (first ∷ rest) (bytes_lt_irrefl (znode_seq first), s.0) m

pub IsLowest-first :
    (me first : Name) (rest : List Name)
    → Sorted (first ∷ rest)
    → (bytes_same (znode_seq first) (znode_seq me) ≡ true) ↔ IsLowest me (first ∷ rest)
IsLowest-first me first rest s = (there, back)
  where
    there : bytes_same (znode_seq first) (znode_seq me) ≡ true → IsLowest me (first ∷ rest)
    there h =
        let e = bytes_same→eq (znode_seq first) (znode_seq me) h in
        ((first, Memᴰ.head refl, e), λ c m. rw e at (first_lowest first rest s c m))

    back : IsLowest me (first ∷ rest) → bytes_same (znode_seq first) (znode_seq me) ≡ true
    back ((c, m, e), low) =
        let above = rw e at (first_lowest first rest s c m) in
        let same =
          bytes_lt_antisym (znode_seq first) (znode_seq me) (low first (Memᴰ.head refl)) above in
        rw same (bytes_same_refl (znode_seq me))

IsLowest-sort : (me : Name) (cs : List Name) → IsLowest me (sort_by_seq cs) ↔ IsLowest me cs
IsLowest-sort me cs = (
  λ l. ((l.0.0, mem-sort l.0.0 cs l.0.1, l.0.2), λ c m. l.1 c (sort-mem c cs m)),
  λ l. ((l.0.0, sort-mem l.0.0 cs l.0.1, l.0.2), λ c m. l.1 c (mem-sort c cs m)),
)

check-IsLowest :
    (sorted : List Name) (le : LeaderElection)
    → Sorted sorted
    → sorted ≢ []
    → ((check_sorted sorted le).0.is_leader ≡ true) ↔ IsLowest le.my_seq sorted
check-IsLowest [] le s ne = absurd (ne refl)
check-IsLowest (first ∷ rest) le s ne =
    rw (leader-check_sorted first rest le) (IsLowest-first le.my_seq first rest s)

pub sort-ne : (cs : List Name) → cs ≢ [] → sort_by_seq cs ≢ []
sort-ne [] ne e = absurd (ne refl)
sort-ne (c ∷ cs) ne e = elim (subst (Memᴰ c) e (sort-mem c (c ∷ cs) (Memᴰ.head refl))) [ ]

-- After a check that saw some candidates, in any order, the instance is leader exactly if its own
-- sequence number is among theirs and no candidate has a lower one.
pub check_leadership-IsLowest :
    (children : List Name) (le : LeaderElection)
    → children ≢ []
    → ((check_leadership (some children) le).0.is_leader ≡ true) ↔ IsLowest le.my_seq children
unfolding check_leadership
check_leadership-IsLowest children le ne =
    let checked =
      check-IsLowest (sort_by_seq children) le (sort-Sorted children) (sort-ne children ne) in
    let sorting = IsLowest-sort le.my_seq children in
    (λ h. sorting.0 (checked.0 h), λ l. checked.1 (sorting.1 l))

-- Two instances that saw the same candidates, and whose own sequence numbers differ, are not both
-- leader after their checks.
pub one_leader :
    (children : List Name) (a b : LeaderElection)
    → children ≢ []
    → znode_seq a.my_seq ≢ znode_seq b.my_seq
    → (check_leadership (some children) a).0.is_leader ≡ true
    → (check_leadership (some children) b).0.is_leader ≡ false
one_leader children a b ne apart h =
    elim (Bool-cases (check_leadership (some children) b).0.is_leader) [
      | inr follower ↦ follower
      | inl also ↦
          let la = (check_leadership-IsLowest children a ne).0 h in
          let lb = (check_leadership-IsLowest children b ne).0 also in absurd (apart (meet la lb))
    ]
  where
    meet :
        IsLowest a.my_seq children
        → IsLowest b.my_seq children
        → znode_seq a.my_seq ≡ znode_seq b.my_seq
    meet la lb =
        bytes_lt_antisym (znode_seq a.my_seq) (znode_seq b.my_seq)
          (rw la.0.2 at (lb.1 la.0.0 la.0.1)) (rw lb.0.2 at (la.1 lb.0.0 lb.0.1))
