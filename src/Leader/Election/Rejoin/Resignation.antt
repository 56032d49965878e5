-- ===== src/Leader/Election/Rejoin/Resignation.antt =====
-- The retry loop and a resignation, and when the loop succeeds.
use click_dog.Common.{
  ◌≡◌, ◌∙◌, inl, inr, Bool, true, false, ◌&&◌, ◌||◌, none, some, List, [], ◌∷◌, ◌++◌, All,
  Bool-cases, if◌then◌else◌, arith,
}
use click_dog.Leader.Znodes.{Name, base}
use click_dog.Leader.Election.{
  LeaderElection, handle_demotion, drop_candidate, create_candidate, resign,
}
use click_dog.Leader.Election.Rejoin.{
  Attempt, Rejoin, rejoined, gave_up, retrying, sleep, resign_if, connect_and_create, rejoin_loop,
  rejoin_with_retry,
}
use click_dog.Leader.Election.Rejoin.Outcomes.{enters_loop}

abbrev pub RejoinedLive : Rejoin → Type 0
RejoinedLive (rejoined le) = le.closed ≡ false
RejoinedLive (gave_up le) = Unit
RejoinedLive (retrying le) = Unit

abbrev pub InTime : Attempt → Type 0
InTime a = a.resigned_late ≡ false

closed-attempt :
    (reconnect : Bool) (a : Attempt) (le : LeaderElection)
    → (connect_and_create reconnect a le).1.closed ≡ le.closed
unfolding connect_and_create drop_candidate create_candidate
closed-attempt reconnect a le = ground arith

loop-RejoinedLive :
    (script : List Attempt) (backoff reconnect : Bool) (le : LeaderElection)
    → All InTime script
    → RejoinedLive (rejoin_loop backoff reconnect script le)
unfolding rejoin_loop
loop-RejoinedLive [] backoff reconnect le t = tt
loop-RejoinedLive (a ∷ more) backoff reconnect le t =
    elim (Bool-cases (backoff && a.canceled_asleep || a.canceled)) [
      | inl canceled ↦ rw canceled tt
      | inr going ↦ elim (Bool-cases slept.closed) [
        | inl shut ↦ rw (going, shut) tt
        | inr live ↦ elim (Bool-cases tried.0) [
          | inl done ↦ rw (going, live, done) (closed-attempt reconnect a late ∙ in_time ∙ live)
          | inr not_done ↦ rw (going, live, not_done) (loop-RejoinedLive more true true tried.1 t.1)
        ]
      ]
    ]
  where
    slept : LeaderElection
    slept = resign_if a.resigned_asleep (if backoff then sleep le else le)

    late : LeaderElection
    late = resign_if a.resigned_late slept

    in_time : late.closed ≡ slept.closed
    in_time = ground (arith, t.0)

    tried : Bool × LeaderElection
    tried = connect_and_create reconnect a late

stays_out :
    (sleep_first reconnect : Bool) (script : List Attempt) (le : LeaderElection)
    → le.closed ≡ true
    → rejoin_with_retry sleep_first reconnect script le ≡ gave_up le
unfolding rejoin_with_retry
stays_out sleep_first reconnect script le shut = ground arith

-- Provided that no resignation falls between an attempt's last look at the closed flag and the
-- creation of its candidate, an instance that has rejoined has not resigned, neither before the
-- loop nor during any of its waits.
pub rejoin_with_retry-RejoinedLive :
    (sleep_first reconnect : Bool) (script : List Attempt) (le : LeaderElection)
    → All InTime script
    → RejoinedLive (rejoin_with_retry sleep_first reconnect script le)
rejoin_with_retry-RejoinedLive sleep_first reconnect script le t = elim (Bool-cases le.closed) [
  | inl shut ↦ rw (stays_out sleep_first reconnect script le shut) tt
  | inr live ↦
      rw (enters_loop sleep_first reconnect script le live)
        (loop-RejoinedLive script sleep_first reconnect _ t)
]

-- An attempt in which nothing cancels or resigns.
abbrev pub IsCalm : Attempt → Type 0
IsCalm a =
    (a.canceled_asleep ≡ false)
    × (a.resigned_asleep ≡ false)
    × (a.canceled ≡ false)
    × (a.resigned_late ≡ false)

abbrev pub HasNode : Name → Rejoin → Type 0
HasNode node (rejoined le) =
    (le.my_node ≡ node) × (le.my_seq ≡ base node) × (le.reconnect_attempts ≡ 0)
HasNode node (gave_up le) = ⊥
HasNode node (retrying le) = ⊥

abbrev pub IsFailing : Attempt → Type 0
IsFailing a = IsCalm a × (a.created ≡ none)

abbrev pub IsWorking : Name → Attempt → Type 0
IsWorking node a =
    IsCalm a × (a.reconnected ≡ true) × (a.base_path_ready ≡ true) × (a.created ≡ some node)

-- A resignation falls behind the attempt's last look at the closed flag, and nothing else does.
abbrev pub IsLate : Attempt → Type 0
IsLate a =
    (a.canceled_asleep ≡ false)
    × (a.resigned_asleep ≡ false)
    × (a.canceled ≡ false)
    × (a.resigned_late ≡ true)

abbrev pub IsStranded : Name → Rejoin → Type 0
IsStranded node (rejoined le) = (le.closed ≡ true) × (le.my_node ≡ node) × (resign le ≡ le)
IsStranded node (gave_up le) = ⊥
IsStranded node (retrying le) = ⊥

fails :
    (reconnect : Bool) (a : Attempt) (le : LeaderElection)
    → a.created ≡ none
    → (connect_and_create reconnect a le).0 ≡ false
unfolding connect_and_create
fails reconnect a le h = ground arith

works :
    (reconnect : Bool) (a : Attempt) (le : LeaderElection) (node : Name)
    → a.reconnected ≡ true
    → a.base_path_ready ≡ true
    → a.created ≡ some node
    → ((connect_and_create reconnect a le).0 ≡ true)
      × HasNode node (rejoined (connect_and_create reconnect a le).1)
unfolding connect_and_create create_candidate
works reconnect a le node r b c = ground arith

step_fails :
    (backoff reconnect : Bool) (a : Attempt) (more : List Attempt) (le : LeaderElection)
    → IsFailing a
    → le.closed ≡ false
    → rejoin_loop backoff reconnect (a ∷ more) le
      ≡ rejoin_loop true true more
          (connect_and_create reconnect a (if backoff then sleep le else le)).1
unfolding rejoin_loop
step_fails backoff reconnect a more le f live =
    ground (arith, fails reconnect a (if backoff then sleep le else le) f.1)

step_works :
    (backoff reconnect : Bool) (a : Attempt) (more : List Attempt) (le : LeaderElection)
    (node : Name)
    → IsWorking node a
    → le.closed ≡ false
    → rejoin_loop backoff reconnect (a ∷ more) le
      ≡ rejoined (connect_and_create reconnect a (if backoff then sleep le else le)).1
unfolding rejoin_loop
step_works backoff reconnect a more le node w live =
    ground (arith, works reconnect a (if backoff then sleep le else le) node w.1 w.2 w.3)

loop-HasNode :
    (failed : List Attempt) (a : Attempt) (more : List Attempt) (node : Name)
    (backoff reconnect : Bool) (le : LeaderElection)
    → All IsFailing failed
    → IsWorking node a
    → le.closed ≡ false
    → HasNode node (rejoin_loop backoff reconnect (failed ++ a ∷ more) le)
loop-HasNode [] a more node backoff reconnect le f w live =
    rw (step_works backoff reconnect a more le node w live)
      (works reconnect a (if backoff then sleep le else le) node w.1 w.2 w.3).1
loop-HasNode (x ∷ xs) a more node backoff reconnect le f w live =
    let awake = if backoff then sleep le else le in
    rw (step_fails backoff reconnect x (xs ++ a ∷ more) le f.0 live) (
      loop-HasNode xs a more node true true (connect_and_create reconnect x awake).1 f.1 w
        (closed-attempt reconnect x awake ∙ ground arith))

-- After any number of failed attempts, the first attempt that connects, has the base path and gets
-- a znode ends the loop, if nothing cancels it and no resignation comes: the instance then holds
-- that znode as its candidate, and its backoff ladder starts anew.
pub rejoin_with_retry-HasNode :
    (sleep_first reconnect : Bool) (failed : List Attempt) (a : Attempt) (more : List Attempt)
    (node : Name) (le : LeaderElection)
    → All IsFailing failed
    → IsWorking node a
    → le.closed ≡ false
    → HasNode node (rejoin_with_retry sleep_first reconnect (failed ++ a ∷ more) le)
rejoin_with_retry-HasNode sleep_first reconnect failed a more node le f w live =
    rw (enters_loop sleep_first reconnect (failed ++ a ∷ more) le live)
      (loop-HasNode failed a more node sleep_first reconnect _ f w (still_live le live))
  where
    still_live :
        (le : LeaderElection)
        → le.closed ≡ false
        → (drop_candidate (handle_demotion le)).closed ≡ false
    still_live le live = unfold drop_candidate handle_demotion in ground arith

already : (le : LeaderElection) → le.closed ≡ true → resign le ≡ le
unfolding resign
already le shut = ground arith

step_late :
    (a : Attempt) (more : List Attempt) (le : LeaderElection)
    → IsLate a
    → le.closed ≡ false
    → (connect_and_create true a (resign (sleep le))).0 ≡ true
    → rejoin_loop true true (a ∷ more) le
      ≡ rejoined (connect_and_create true a (resign (sleep le))).1
unfolding rejoin_loop
step_late a more le l live done = ground (arith, done)

-- A resignation that falls between the last look at the closed flag and the creation of the
-- candidate does not stop the attempt: if Keeper still grants the znode, the resigned instance has
-- rejoined, closed and joined at once, and a further resignation changes nothing.
pub late_resignation :
    (script : List Attempt) (a : Attempt) (le : LeaderElection) (node : Name)
    → le.closed ≡ false
    → IsLate a
    → a.reconnected ≡ true
    → a.base_path_ready ≡ true
    → a.created ≡ some node
    → IsStranded node (rejoin_with_retry true true (a ∷ script) le)
late_resignation script a le node live late r b n =
    rw (enters_loop true true (a ∷ script) le live, step_late a script start late still_live done.0)
      (stranded, done.1.0, already (connect_and_create true a (resign (sleep start))).1 stranded)
  where
    start : LeaderElection
    start = drop_candidate (handle_demotion le)

    still_live : start.closed ≡ false
    still_live = unfold drop_candidate handle_demotion in ground arith

    done :
        ((connect_and_create true a (resign (sleep start))).0 ≡ true)
        × HasNode node (rejoined (connect_and_create true a (resign (sleep start))).1)
    done = works true a (resign (sleep start)) node r b n

    stranded : (connect_and_create true a (resign (sleep start))).1.closed ≡ true
    stranded =
        closed-attempt true a (resign (sleep start)) ∙ unfold resign handle_demotion in ground arith
