-- ===== src/Leader/Election.antt =====
-- internal/leader/election.go: the state of one instance and the operations on it. Keeper is
-- third-party: what its calls return is an argument. Callbacks are counted, since a panic in one is
-- recovered. Each operation here runs undisturbed; checkLeadership takes the lock for `mySeq` only,
-- and how a Resign comes between its accesses is in Interleaving.
pub mod Leadership
pub mod Watch
pub mod Callbacks
pub mod Interleaving
pub mod Rejoin
pub mod Gate
use click_dog.Common.{
  ℕ, suc, ◌+◌, ◌%◌, ◌^◌, Bool, true, false, ◌&&◌, ◌||◌, not, Option, none, some, List, [], ◌∷◌,
  is_empty, if◌then◌else◌,
}
use click_dog.Leader.Znodes.{Name, bytes_same, znode_seq, sort_by_seq, base}

pub record LeaderElection : Type 0 where
  pub my_node : Name
  pub my_seq : Name
  pub is_leader : Bool
  pub epoch : ℕ  -- uint64
  pub promoted : ℕ
  pub demoted : ℕ
  pub reconnect_attempts : ℕ
  pub closed : Bool

pub data ElectionError : Type 0 where
  list_failed no_candidates not_found : ElectionError

abbrev pub joined : LeaderElection → Bool
joined le = not (is_empty le.my_node)

unfoldable pub handle_demotion : LeaderElection → LeaderElection
handle_demotion le =
    if le.is_leader then record le { is_leader = false; demoted = le.demoted + 1 } else le

unfoldable pub drop_candidate : LeaderElection → LeaderElection
drop_candidate le = record le { my_node = []; my_seq = [] }

-- `wasLeader` and `isNowLeader`, after the latter has been stored.
pub settle : Bool → Bool → LeaderElection → LeaderElection
unfolding handle_demotion
settle false true le = record le { epoch = (le.epoch + 1) % 2 ^ 64; promoted = le.promoted + 1 }
settle true false le = handle_demotion le
settle true true le = le
settle false false le = le

-- `children` is what `conn.Children` returned, `none` for an error.
check_sorted : List Name → LeaderElection → LeaderElection × Option ElectionError
unfolding settle
check_sorted [] le = (le, some no_candidates)
check_sorted (first ∷ rest) le =
    let now = bytes_same (znode_seq first) (znode_seq le.my_seq) in
    (settle le.is_leader now (record le { is_leader = now }), none)

unfoldable pub check_leadership :
    Option (List Name) → LeaderElection → LeaderElection × Option ElectionError
unfolding check_sorted
check_leadership none le = (le, some list_failed)
check_leadership (some children) le = check_sorted (sort_by_seq children) le

-- What `getWatchTarget` returns: the path of the predecessor by its child name.
pub data WatchTarget : Type 0 where
  own_node : WatchTarget
  predecessor : Name → WatchTarget
  failed : ElectionError → WatchTarget

-- The search for our position; `previous` is the child at the index before.
find_from : Name → Option Name → List Name → WatchTarget
find_from my_seq previous [] = failed not_found
find_from my_seq previous (c ∷ cs) =
    let rest = find_from my_seq (some c) cs in
    if bytes_same c my_seq || bytes_same (znode_seq c) (znode_seq my_seq)
    then elim previous [ none ↦ own_node | some p ↦ predecessor p ]
    else rest

unfoldable pub get_watch_target : Option (List Name) → LeaderElection → WatchTarget
unfolding find_from
get_watch_target none le = failed list_failed
get_watch_target (some children) le = find_from le.my_seq none (sort_by_seq children)

unfoldable pub resign : LeaderElection → LeaderElection
unfolding handle_demotion
resign le = if le.closed then le else handle_demotion (record le { closed = true })

unfoldable pub fail_open : LeaderElection → LeaderElection
unfolding handle_demotion
fail_open le =
    if le.closed
    then le
    else let idle = handle_demotion le in if joined idle then drop_candidate idle else idle

unfoldable pub create_candidate : Name → LeaderElection → LeaderElection
create_candidate created le = record le { my_node = created; my_seq = base created }
