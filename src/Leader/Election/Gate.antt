-- ===== src/Leader/Election/Gate.antt =====
-- export_gate.go: newLeaderGate, the decision whether this instance exports in a cycle.
use click_dog.Common.{
  ◌≡◌, ◌≢◌, ◌↔◌, ◌∙◌, refl, sym, Bool, true, false, not, Option, none, some, List, [], ◌∷◌,
  if◌then◌else◌, arith,
}
use click_dog.Leader.Znodes.{Name, znode_seq, sort_by_seq}
use click_dog.Leader.Election.{
  LeaderElection, joined, settle, check_sorted, check_leadership, handle_demotion, drop_candidate,
  fail_open, resign,
}
use click_dog.Leader.Election.Rejoin.{
  Attempt, Rejoin, rejoined, gave_up, retrying, rejoin_with_retry,
}
use click_dog.Leader.Election.Rejoin.Outcomes.{LeavesOpen, rejoin_with_retry-LeavesOpen}
use click_dog.Leader.Election.Leadership.{IsLowest, check_leadership-IsLowest, one_leader}

-- The gate asks the election anew in each cycle; `none` is the nil gate.
abbrev gate : Option LeaderElection → Bool
gate none = true
gate (some le) = if not (joined le) then true else le.is_leader

unfoldable pub new_leader_gate : Bool → Option LeaderElection → Option Bool
new_leader_gate false el = none
new_leader_gate true el = some (gate el)

-- `exportGateAllows` of internal/processor/pipeline.go: a nil gate always exports.
unfoldable pub export_gate_allows : Option Bool → Bool
export_gate_allows none = true
export_gate_allows (some decision) = decision

abbrev pub exports : LeaderElection → Bool
exports le = export_gate_allows (new_leader_gate true (some le))

joined-settle : (was now : Bool) (le : LeaderElection) → joined (settle was now le) ≡ joined le
unfolding settle handle_demotion
joined-settle false true le = refl
joined-settle true false le = ground arith
joined-settle true true le = refl
joined-settle false false le = refl

joined-check_sorted :
    (cs : List Name) (le : LeaderElection) → joined (check_sorted cs le).0 ≡ joined le
unfolding check_sorted
joined-check_sorted [] le = refl
joined-check_sorted (first ∷ rest) le = joined-settle le.is_leader _ _

joined-check :
    (children : Option (List Name)) (le : LeaderElection)
    → joined (check_leadership children le).0 ≡ joined le
unfolding check_leadership
joined-check none le = refl
joined-check (some children) le = joined-check_sorted (sort_by_seq children) le

pub exports-joined : (le : LeaderElection) → joined le ≡ true → exports le ≡ le.is_leader
unfolding new_leader_gate export_gate_allows
exports-joined le h = rw h refl

exports_alone : (le : LeaderElection) → joined le ≡ false → exports le ≡ true
unfolding new_leader_gate export_gate_allows
exports_alone le h = rw h refl

-- After a check that saw some candidates, a joined instance in cluster mode exports exactly if no
-- candidate has a sequence number lower than its own, which is one of theirs.
pub exports-check_leadership :
    (children : List Name) (le : LeaderElection)
    → children ≢ []
    → joined le ≡ true
    → (exports (check_leadership (some children) le).0 ≡ true) ↔ IsLowest le.my_seq children
exports-check_leadership children le ne j =
    rw
      (exports-joined (check_leadership (some children) le).0 (joined-check (some children) le ∙ j))
      (check_leadership-IsLowest children le ne)

-- No duplication in the steady state: of two joined instances that saw the same candidates and
-- have different sequence numbers, the second does not export if the first does.
pub one_exporter :
    (children : List Name) (a b : LeaderElection)
    → children ≢ []
    → joined a ≡ true
    → joined b ≡ true
    → znode_seq a.my_seq ≢ znode_seq b.my_seq
    → exports (check_leadership (some children) a).0 ≡ true
    → exports (check_leadership (some children) b).0 ≡ false
one_exporter children a b ne ja jb apart h =
    exports-joined _ (joined-check (some children) b ∙ jb)
    ∙ one_leader children a b ne apart
        (sym (exports-joined _ (joined-check (some children) a ∙ ja)) ∙ h)

abbrev pub ExportsOutside : Rejoin → Type 0
ExportsOutside (rejoined le) = Unit
ExportsOutside (gave_up le) = exports le ≡ true
ExportsOutside (retrying le) = exports le ≡ true

outside : (le : LeaderElection) (r : Rejoin) → LeavesOpen le r → ExportsOutside r
outside le (rejoined le') l = tt
outside le (gave_up le') l = exports_alone le' l.0
outside le (retrying le') l = exports_alone le' l.0

fail_open-alone : (le : LeaderElection) → le.closed ≡ false → joined (fail_open le) ≡ false
unfolding fail_open handle_demotion drop_candidate
fail_open-alone le live = ground arith

resign-joined : (le : LeaderElection) → joined (resign le) ≡ joined le
unfolding resign handle_demotion
resign-joined le = ground arith

resign-follower : (le : LeaderElection) → le.closed ≡ false → (resign le).is_leader ≡ false
unfolding resign handle_demotion
resign-follower le live = ground arith

-- An instance that has not resigned exports after its election has failed open, and while it tries
-- to rejoin and when it gives that up, whatever happens in the attempts; a joined one that resigns
-- does not.
pub exports_without_election :
    (sleep_first reconnect : Bool) (script : List Attempt) (le : LeaderElection)
    → le.closed ≡ false
    → (exports (fail_open le) ≡ true)
      × ExportsOutside (rejoin_with_retry sleep_first reconnect script le)
      × (joined le ≡ true → exports (resign le) ≡ false)
exports_without_election sleep_first reconnect script le live = (
  exports_alone (fail_open le) (fail_open-alone le live),
  outside le _ (rejoin_with_retry-LeavesOpen sleep_first reconnect script le live),
  λ j. exports-joined (resign le) (resign-joined le ∙ j) ∙ resign-follower le live,
)
