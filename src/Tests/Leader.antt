-- ===== src/Tests/Leader.antt =====
-- The election's theorems at two candidates whose sequence numbers are 1 and 2.
use mathlib.Core.List.{Memᴰ}
use click_dog.Common.{
  ◌≡◌, ◌≢◌, ◌↔◌, refl, Bool, true, false, Option, none, some, List, [], ◌∷◌, arith,
}
use click_dog.Leader.Znodes.{Name, znode_seq, sort_by_seq, bytes_lt, bytes_same}
use click_dog.Leader.Election.{
  LeaderElection, joined, check_leadership, settle, handle_demotion, resign, fail_open,
}
use click_dog.Leader.Election.Leadership.{IsLowest, check_leadership-IsLowest}
use click_dog.Leader.Election.Callbacks.{check_leadership-silent}
use click_dog.Leader.Election.Interleaving.{
  idle, not_called, done, System, is_first, store, list, load, store_flag, settle_change, close,
  give_up, Reach, start, later,
}
use click_dog.Leader.Election.Interleaving.Fencing.{IsFenced, reach-IsFenced}
use click_dog.Leader.Election.Rejoin.{Attempt, rejoin_with_retry}
use click_dog.Leader.Election.Rejoin.Outcomes.{LeavesOpen, rejoin_with_retry-LeavesOpen}
use click_dog.Leader.Election.Rejoin.Resignation.{
  RejoinedLive, HasNode, IsStranded, rejoin_with_retry-RejoinedLive, rejoin_with_retry-HasNode,
  late_resignation,
}
use click_dog.Leader.Election.Gate.{
  exports, ExportsOutside, exports-check_leadership, one_exporter, exports_without_election,
}

abbrev first : Name
first = b'1' ∷ []

abbrev second : Name
second = b'2' ∷ []

abbrev both : List Name
both = second ∷ first ∷ []

abbrev candidate : Name → Bool → LeaderElection
candidate seq leads = record {
  my_node = b'/' ∷ seq;
  my_seq = seq;
  is_leader = leads;
  epoch = 1;
  promoted = 1;
  demoted = 0;
  reconnect_attempts = 0;
  closed = false;
}

abbrev a : LeaderElection
a = candidate first true

abbrev b : LeaderElection
b = candidate second true

both_ne : both ≢ []
both_ne h = ground arith

apart : znode_seq first ≢ znode_seq second
unfolding znode_seq
apart h = ground (arith, h)

check_leadership-IsLowest_example :
    ((check_leadership (some both) a).0.is_leader ≡ true) ↔ IsLowest first both
check_leadership-IsLowest_example = check_leadership-IsLowest both a both_ne

leads : (check_leadership (some both) a).0.is_leader ≡ true
unfolding check_leadership sort_by_seq znode_seq bytes_lt bytes_same
leads = refl

second_high : ¬ IsLowest second both
unfolding znode_seq bytes_lt
second_high low = ground (arith, low.1 first (Memᴰ.tail (Memᴰ.head refl)))

-- The first candidate leads; it resigns between the load and the store of its check.
abbrev now : Bool
now = is_first (sort_by_seq both) first

abbrev leading : System
leading = record { election = a; check = idle; resignation = not_called }

abbrev overtaken : System
overtaken = record {
  election = settle true now (store now (handle_demotion (record a { closed = true })));
  check = idle;
  resignation = done;
}

overtakes : Reach leading overtaken
overtakes =
    later
      (later
        (later
          (later (later (later start (list both both_ne refl)) (load now refl)) (close refl refl))
          (give_up refl))
        (store_flag true now refl))
      (settle_change true now refl)

reach-IsFenced_example : IsFenced overtaken
reach-IsFenced_example =
    reach-IsFenced overtakes (record { token = refl; reported = ground arith; remembered = tt })

check_leadership-silent_example :
    ((check_leadership (some both) (candidate second true)).0.is_leader ≡ false)
    × ((check_leadership (some both) (candidate second true)).0.demoted ≡ 0)
check_leadership-silent_example =
    check_leadership-silent both (candidate second true) both_ne refl second_high

abbrev attempt : Bool → Option Name → Attempt
attempt late node = record {
  canceled_asleep = false;
  resigned_asleep = false;
  canceled = false;
  resigned_late = late;
  reconnected = true;
  base_path_ready = true;
  created = node;
}

abbrev failing : Attempt
failing = attempt false none

abbrev working : Attempt
working = attempt false (some first)

abbrev script : List Attempt
script = failing ∷ working ∷ []

rejoin_with_retry-LeavesOpen_example : LeavesOpen a (rejoin_with_retry true true script a)
rejoin_with_retry-LeavesOpen_example = rejoin_with_retry-LeavesOpen true true script a refl

rejoin_with_retry-RejoinedLive_example : RejoinedLive (rejoin_with_retry true true script a)
rejoin_with_retry-RejoinedLive_example =
    rejoin_with_retry-RejoinedLive true true script a (refl, (refl, tt))

rejoin_with_retry-HasNode_example : HasNode first (rejoin_with_retry true true script a)
rejoin_with_retry-HasNode_example =
    rejoin_with_retry-HasNode true true (failing ∷ []) working [] first a
      (((refl, refl, refl, refl), refl), tt) ((refl, refl, refl, refl), refl, refl, refl) refl

late_resignation_example :
    IsStranded first (rejoin_with_retry true true (attempt true (some first) ∷ []) a)
late_resignation_example =
    late_resignation [] (attempt true (some first)) a first refl (refl, refl, refl, refl) refl refl
      refl

one_exporter_example : exports (check_leadership (some both) b).0 ≡ false
one_exporter_example = one_exporter both a b both_ne refl refl apart (
    (exports-check_leadership both a both_ne refl).1
      ((check_leadership-IsLowest both a both_ne).0 leads))

exports_without_election_example :
    (exports (fail_open b) ≡ true)
    × ExportsOutside (rejoin_with_retry true true script b)
    × (joined b ≡ true → exports (resign b) ≡ false)
exports_without_election_example = exports_without_election true true script b refl
