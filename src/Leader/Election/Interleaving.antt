-- ===== src/Leader/Election/Interleaving.antt =====
-- internal/leader/election.go, checkLeadership beside Resign: the election's goroutine goes through
-- a check one access of the atomics at a time, and another goroutine resigns in between. All that
-- makes or ends a candidate runs on the election's goroutine, when no check is under way. A count of
-- callbacks grows with the access that decides on the callback.
pub mod Fencing
pub mod Races
use click_dog.Common.{◌≡◌, ◌≢◌, Bool, true, false, List, [], ◌∷◌}
use click_dog.Leader.Znodes.{Name, bytes_same, znode_seq, sort_by_seq}
use click_dog.Leader.Election.{
  LeaderElection, handle_demotion, drop_candidate, create_candidate, settle,
}

-- Where the check is: none is under way; `now` is known; `was` is loaded; `now` is stored.
pub data CheckPhase : Type 0 where
  idle : CheckPhase
  read : (now : Bool) → CheckPhase
  loaded : (was now : Bool) → CheckPhase
  stored : (was now : Bool) → CheckPhase

-- Where Resign is: not called; `closed` is set and the flag not yet swapped; done.
pub data ResignPhase : Type 0 where
  not_called closing done : ResignPhase

pub record System : Type 0 where
  pub election : LeaderElection
  pub check : CheckPhase
  pub resignation : ResignPhase

-- `isNowLeader`, from the sorted children and `mySeq`.
unfoldable pub is_first : List Name → Name → Bool
is_first [] me = false
is_first (first ∷ rest) me = bytes_same (znode_seq first) (znode_seq me)

abbrev pub store : Bool → LeaderElection → LeaderElection
store now le = record le { is_leader = now }

-- A turn of one of the two goroutines.
pub data Move (s : System) : System → Type 0 where
  -- checkLeadership: the candidates, the load, the store, and what follows a change
  list :
      (children : List Name)
      → children ≢ []
      → s.check ≡ idle
      → Move s (record s { check = read (is_first (sort_by_seq children) s.election.my_seq) })
  load :
      (now : Bool)
      → s.check ≡ read now
      → Move s (record s { check = loaded s.election.is_leader now })
  store_flag :
      (was now : Bool)
      → s.check ≡ loaded was now
      → Move s (record s { election = store now s.election; check = stored was now })
  settle_change :
      (was now : Bool)
      → s.check ≡ stored was now
      → Move s (record s { election = settle was now s.election; check = idle })
  -- the rest of the election's goroutine
  demote : s.check ≡ idle → Move s (record s { election = handle_demotion s.election })
  drop : s.check ≡ idle → Move s (record s { election = drop_candidate s.election })
  create :
      (node : Name)
      → s.check ≡ idle
      → Move s (record s { election = create_candidate node s.election })
  -- Resign, on another goroutine
  close :
      s.resignation ≡ not_called
      → s.election.closed ≡ false
      → Move s (record s { election = record s.election { closed = true }; resignation = closing })
  give_up :
      s.resignation ≡ closing
      → Move s (record s { election = handle_demotion s.election; resignation = done })

-- The systems reached from one, by any order of turns.
pub data Reach (from : System) : System → Type 0 where
  start : Reach from from
  later : {s t : System} → Reach from s → Move s t → Reach from t
