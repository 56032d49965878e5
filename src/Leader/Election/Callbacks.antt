-- ===== src/Leader/Election/Callbacks.antt =====
-- What a check tells the callbacks of a demotion.
use click_dog.Common.{◌≡◌, ◌≢◌, refl, inl, inr, Bool, true, false, some, List, [], ◌∷◌, Bool-cases}
use click_dog.Leader.Znodes.{Name, sort_by_seq}
use click_dog.Leader.Election.{
  LeaderElection, check_sorted, settle, check_leadership, handle_demotion,
}
use click_dog.Leader.Election.Leadership.{IsLowest, check_leadership-IsLowest}

settle-silent :
    (was now : Bool) (le : LeaderElection)
    → (settle was now (record le { is_leader = now })).demoted ≡ le.demoted
unfolding settle handle_demotion
settle-silent false true le = refl
settle-silent true false le = refl
settle-silent true true le = refl
settle-silent false false le = refl

silent_sorted : (cs : List Name) (le : LeaderElection) → (check_sorted cs le).0.demoted ≡ le.demoted
unfolding check_sorted
silent_sorted [] le = refl
silent_sorted (first ∷ rest) le = settle-silent le.is_leader _ le

-- A leader whose check finds it no longer the lowest candidate stops leading, but its demotion is
-- not reported: the flag has been stored before the handler that swaps it and looks for a change.
pub check_leadership-silent :
    (children : List Name) (le : LeaderElection)
    → children ≢ []
    → le.is_leader ≡ true
    → ¬ IsLowest le.my_seq children
    → ((check_leadership (some children) le).0.is_leader ≡ false)
      × ((check_leadership (some children) le).0.demoted ≡ le.demoted)
check_leadership-silent children le ne led high = (stops, silent)
  where
    stops : (check_leadership (some children) le).0.is_leader ≡ false
    stops = elim (Bool-cases (check_leadership (some children) le).0.is_leader) [
      | inl still ↦ absurd (high ((check_leadership-IsLowest children le ne).0 still))
      | inr not_now ↦ not_now
    ]

    silent : (check_leadership (some children) le).0.demoted ≡ le.demoted
    silent = unfold check_leadership in silent_sorted (sort_by_seq children) le
