-- ===== src/Leader/Election/Rejoin.antt =====
-- internal/leader/election.go, rejoinWithRetry, backoffSleep and reconnect: the retry loop, against
-- a script of what the environment does in each attempt.
pub mod Outcomes
pub mod Resignation
use click_dog.Common.{
  ℕ, ◌+◌, Bool, true, false, ◌&&◌, ◌||◌, not, Option, none, some, List, [], ◌∷◌, if◌then◌else◌,
}
use click_dog.Leader.Znodes.{Name}
use click_dog.Leader.Election.{
  LeaderElection, handle_demotion, drop_candidate, create_candidate, resign,
}

-- One attempt. `Resign` runs on another goroutine: during the sleep, or behind the loop's last look
-- at `closed`. A canceled context ends the sleep early, or is seen right after it.
pub record Attempt : Type 0 where
  pub canceled_asleep : Bool
  pub resigned_asleep : Bool
  pub canceled : Bool
  pub resigned_late : Bool
  pub reconnected : Bool
  pub base_path_ready : Bool
  pub created : Option Name

pub data Rejoin : Type 0 where
  rejoined : LeaderElection → Rejoin
  gave_up : LeaderElection → Rejoin
  retrying : LeaderElection → Rejoin

-- `backoffSleep`: the index into the ladder is capped, the counter is not.
abbrev pub sleep : LeaderElection → LeaderElection
sleep le = record le { reconnect_attempts = le.reconnect_attempts + 1 }

abbrev pub resign_if : Bool → LeaderElection → LeaderElection
resign_if b le = if b then resign le else le

-- The rest of an attempt once it has passed the loop's look at `closed`: the joined instance, or
-- the instance to retry with.
pub connect_and_create : Bool → Attempt → LeaderElection → Bool × LeaderElection
connect_and_create reconnect a le =
    let fresh = if reconnect then drop_candidate le else le in
    if reconnect && not a.reconnected
    then (false, fresh)
    else if not a.base_path_ready
    then (false, fresh)
    else elim a.created [
      | none ↦ (false, fresh)
      | some node ↦ (true, record (create_candidate node fresh) { reconnect_attempts = 0 })
    ]

-- `retrying` is reached when the script is over. A failed attempt sets `reconnect` for the next.
unfoldable pub rejoin_loop : Bool → Bool → List Attempt → LeaderElection → Rejoin
unfolding connect_and_create
rejoin_loop backoff reconnect [] le = retrying le
rejoin_loop backoff reconnect (a ∷ more) le =
    let slept = resign_if a.resigned_asleep (if backoff then sleep le else le) in
    if backoff && a.canceled_asleep || a.canceled
    then gave_up slept
    else if slept.closed
    then gave_up slept
    else let (done, le') = connect_and_create reconnect a (resign_if a.resigned_late slept) in
      let again = rejoin_loop true true more le' in if done then rejoined le' else again

unfoldable pub rejoin_with_retry : Bool → Bool → List Attempt → LeaderElection → Rejoin
unfolding rejoin_loop
rejoin_with_retry sleep_first reconnect script le =
    if le.closed
    then gave_up le
    else rejoin_loop sleep_first reconnect script (drop_candidate (handle_demotion le))
