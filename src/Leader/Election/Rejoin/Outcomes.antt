-- ===== src/Leader/Election/Rejoin/Outcomes.antt =====
-- What the retry loop leaves behind, when it rejoins, and how it meets a resignation.
use click_dog.Common.{
  ℕ, ◌+◌, ◌≡◌, inl, inr, Bool, true, false, List, [], ◌∷◌, Bool-cases, if◌then◌else◌, ◌&&◌, ◌||◌,
  arith,
}
use click_dog.Leader.Election.{
  LeaderElection, joined, handle_demotion, drop_candidate, create_candidate, resign,
}
use click_dog.Leader.Election.Rejoin.{
  Attempt, Rejoin, rejoined, gave_up, retrying, sleep, resign_if, connect_and_create, rejoin_loop,
  rejoin_with_retry,
}

abbrev pub bit : Bool → ℕ
bit true = 1
bit false = 0

-- Not leader, with one report of a demotion more than before if there was one to report.
pub record IsDemoted (before le : LeaderElection) : Type 0 where
  pub follows : le.is_leader ≡ false
  pub reported : le.demoted ≡ before.demoted + bit before.is_leader
  pub promotions : le.promoted ≡ before.promoted
  pub token : le.epoch ≡ before.epoch

abbrev pub LeavesOpen : LeaderElection → Rejoin → Type 0
LeavesOpen before (rejoined le) = (le.reconnect_attempts ≡ 0) × IsDemoted before le
LeavesOpen before (gave_up le) = (joined le ≡ false) × IsDemoted before le
LeavesOpen before (retrying le) = (joined le ≡ false) × IsDemoted before le

module _ (start : LeaderElection) where
  abbrev Idle : LeaderElection → Type 0
  Idle le = (le.my_node ≡ []) × IsDemoted start le

  resign-Idle : (b : Bool) (le : LeaderElection) → Idle le → Idle (resign_if b le)
  unfolding resign handle_demotion
  resign-Idle true le i = ground arith
  resign-Idle false le i = i

  sleep-Idle : (b : Bool) (le : LeaderElection) → Idle le → Idle (if b then sleep le else le)
  sleep-Idle b le i = ground arith

  module _ (reconnect : Bool) (a : Attempt) (le : LeaderElection) where
    abbrev tried : Bool × LeaderElection
    tried = connect_and_create reconnect a le

    attempt-Idle : Idle le → tried.0 ≡ false → Idle tried.1
    unfolding connect_and_create drop_candidate
    attempt-Idle i h = ground arith

    attempt_done :
        Idle le → tried.0 ≡ true → (tried.1.reconnect_attempts ≡ 0) × IsDemoted start tried.1
    unfolding connect_and_create drop_candidate create_candidate
    attempt_done i h = ground arith

  loop-LeavesOpen :
      (script : List Attempt) (backoff reconnect : Bool) (le : LeaderElection)
      → Idle le
      → LeavesOpen start (rejoin_loop backoff reconnect script le)
  unfolding rejoin_loop
  loop-LeavesOpen [] backoff reconnect le i = (rw i.0, i.1)
  loop-LeavesOpen (a ∷ more) backoff reconnect le i =
      elim (Bool-cases (backoff && a.canceled_asleep || a.canceled)) [
        | inl canceled ↦ rw canceled (rw s.0, s.1)
        | inr going ↦ elim (Bool-cases slept.closed) [
          | inl shut ↦ rw (going, shut) (rw s.0, s.1)
          | inr live ↦ elim (Bool-cases (tried reconnect a late).0) [
            | inl done ↦ rw (going, live, done) (attempt_done reconnect a late l done)
            | inr not_done ↦
                rw (going, live, not_done)
                  (loop-LeavesOpen more true true (tried reconnect a late).1
                    (attempt-Idle reconnect a late l not_done))
          ]
        ]
      ]
    where
      slept : LeaderElection
      slept = resign_if a.resigned_asleep (if backoff then sleep le else le)

      s : Idle slept
      s = resign-Idle a.resigned_asleep _ (sleep-Idle backoff le i)

      late : LeaderElection
      late = resign_if a.resigned_late slept

      l : Idle late
      l = resign-Idle a.resigned_late slept s

pub enters_loop :
    (sleep_first reconnect : Bool) (script : List Attempt) (le : LeaderElection)
    → le.closed ≡ false
    → rejoin_with_retry sleep_first reconnect script le
      ≡ rejoin_loop sleep_first reconnect script (drop_candidate (handle_demotion le))
unfolding rejoin_with_retry
enters_loop sleep_first reconnect script le live = ground arith

-- From an instance that has not resigned, whatever happens in the attempts, canceled and resigned
-- ones included: the instance no longer leads, its demotion was reported exactly if it led, and
-- promotions and the fencing token are as before; unless it rejoined, in which case the backoff
-- ladder starts anew, it is not joined.
pub rejoin_with_retry-LeavesOpen :
    (sleep_first reconnect : Bool) (script : List Attempt) (le : LeaderElection)
    → le.closed ≡ false
    → LeavesOpen le (rejoin_with_retry sleep_first reconnect script le)
rejoin_with_retry-LeavesOpen sleep_first reconnect script le live =
    rw (enters_loop sleep_first reconnect script le live)
      (loop-LeavesOpen le script sleep_first reconnect _ (idle le))
  where
    idle : (le : LeaderElection) → Idle le (drop_candidate (handle_demotion le))
    idle le = unfold drop_candidate handle_demotion in ground arith
