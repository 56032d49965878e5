-- ===== src/Leader/Election/Interleaving/Races.antt =====
-- A check that nothing disturbs, and one that a resignation comes into.
use click_dog.Common.{◌≡◌, ◌≢◌, ◌∙◌, refl, sym, ap, Bool, true, false, some, List, [], ◌∷◌, arith}
use click_dog.Leader.Znodes.{Name, sort_by_seq}
use click_dog.Leader.Election.{
  LeaderElection, joined, handle_demotion, settle, check_sorted, check_leadership,
}
use click_dog.Leader.Election.Leadership.{
  IsLowest, leader-settle, sort-ne, check_leadership-IsLowest,
}
use click_dog.Leader.Election.Gate.{exports, exports-joined}
use click_dog.Leader.Election.Interleaving.{
  idle, ResignPhase, not_called, done, System, is_first, store, list, load, store_flag,
  settle_change, close, give_up, Reach, start, later,
}

abbrev at_rest : LeaderElection → ResignPhase → System
at_rest le r = record { election = le; check = idle; resignation = r }

settled :
    (cs : List Name) (le : LeaderElection)
    → cs ≢ []
    → let now = is_first cs le.my_seq in
      settle le.is_leader now (store now le) ≡ (check_sorted cs le).0
unfolding is_first check_sorted
settled [] le ne = absurd (ne refl)
settled (first ∷ rest) le ne = refl

-- The turns of a check in a row, with none of a resignation between them, are the check as one
-- operation.
pub undisturbed :
    (children : List Name) (le : LeaderElection) (r : ResignPhase)
    → children ≢ []
    → Reach (at_rest le r) (at_rest (check_leadership (some children) le).0 r)
unfolding check_leadership
undisturbed children le r ne =
    let now = is_first (sort_by_seq children) le.my_seq in
    rw (sym (settled (sort_by_seq children) le (sort-ne children ne))) (
      later
        (later (later (later start (list children ne refl)) (load now refl))
          (store_flag le.is_leader now refl))
        (settle_change le.is_leader now refl))

lowest-is_first :
    (cs : List Name) (le : LeaderElection)
    → cs ≢ []
    → IsLowest le.my_seq cs
    → is_first (sort_by_seq cs) le.my_seq ≡ true
unfolding check_leadership
lowest-is_first cs le ne low =
    let now = is_first (sort_by_seq cs) le.my_seq in
    let checked = (check_leadership-IsLowest cs le ne).1 low in
    sym (leader-settle le.is_leader now (store now le) refl)
    ∙ ap (λ e. e.is_leader) (settled (sort_by_seq cs) le (sort-ne cs ne))
    ∙ checked

-- The instance at the end: resigned in the middle of a check that finds it first.
abbrev overtaken : LeaderElection → LeaderElection
overtaken le = settle le.is_leader true (store true (handle_demotion (record le { closed = true })))

overtaken_lem :
    (le : LeaderElection)
    → ((overtaken le).closed ≡ true)
      × ((overtaken le).is_leader ≡ true)
      × (joined (overtaken le) ≡ joined le)
unfolding settle handle_demotion
overtaken_lem le = ground arith

-- A resignation can come between the load and the store of a check that finds the instance first:
-- it is then done, and the instance, which is closed, still counts as leader and exports.
pub resigned_leader :
    (children : List Name) (le : LeaderElection)
    → children ≢ []
    → IsLowest le.my_seq children
    → le.closed ≡ false
    → joined le ≡ true
    → (t : System) × Reach (at_rest le not_called) t
      × (t.check ≡ idle)
      × (t.resignation ≡ done)
      × (t.election.closed ≡ true)
      × (exports t.election ≡ true)
resigned_leader children le ne low live j =
    let facts = overtaken_lem le in
    (
      at_rest (overtaken le) done,
      rw (lowest-is_first children le ne low) at overtakes,
      refl,
      refl,
      facts.0,
      exports-joined (overtaken le) (facts.2 ∙ j) ∙ facts.1,
    )
  where
    now : Bool
    now = is_first (sort_by_seq children) le.my_seq

    overtakes : Reach (at_rest le not_called) (
        at_rest
          (settle le.is_leader now (store now (handle_demotion (record le { closed = true }))))
          done)
    overtakes =
        later
          (later
            (later
              (later (later (later start (list children ne refl)) (load now refl))
                (close refl live))
              (give_up refl))
            (store_flag le.is_leader now refl))
          (settle_change le.is_leader now refl)
