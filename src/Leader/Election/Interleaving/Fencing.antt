-- ===== src/Leader/Election/Interleaving/Fencing.antt =====
-- The fencing token and the callbacks, over every order of the turns of a check and a resignation.
use click_dog.Common.{ℕ, ◌+◌, ◌%◌, ◌^◌, ◌≤◌, ◌≡◌, refl, Bool, true, false, arith}
use click_dog.Leader.Election.{
  LeaderElection, handle_demotion, drop_candidate, create_candidate, settle,
}
use click_dog.Leader.Election.Interleaving.{
  CheckPhase, idle, read, loaded, stored, ResignPhase, closing, done, System, store, Move, list,
  load, store_flag, settle_change, demote, drop, create, close, give_up, Reach, start, later,
}

abbrev pub bit : Bool → ℕ
bit true = 1
bit false = 0

-- A promotion whose flag is stored and whose callback has not been called.
abbrev pub pending : CheckPhase → ℕ
pending (stored false true) = 1
pending _ = 0

abbrev pub resigned : ResignPhase → ℕ
resigned done = 1
resigned _ = 0

-- What a loaded `true` still allows for.
abbrev pub Remembers : CheckPhase → ℕ → ℕ → Type 0
Remembers (loaded was now) demotions limit = demotions + bit was ≤ limit
Remembers _ demotions limit = Unit

pub record IsFenced (s : System) : Type 0 where
  pub token : s.election.epoch ≡ s.election.promoted % 2 ^ 64
  pub reported :
      s.election.demoted + bit s.election.is_leader
      ≤ s.election.promoted + pending s.check + resigned s.resignation
  pub remembered :
      Remembers s.check s.election.demoted (s.election.promoted + resigned s.resignation)

-- A demotion takes the flag or changes nothing.
same-demotion :
    (le : LeaderElection)
    → ((handle_demotion le).demoted + bit (handle_demotion le).is_leader
        ≡ le.demoted + bit le.is_leader)
      × ((handle_demotion le).demoted ≤ le.demoted + 1)
      × ((handle_demotion le).promoted ≡ le.promoted)
      × ((handle_demotion le).epoch ≡ le.epoch)
unfolding handle_demotion
same-demotion le = ground arith

-- The three facts of a system whose check is in a known phase.
abbrev Bounds : LeaderElection → CheckPhase → ResignPhase → Type 0
Bounds le c r =
    (le.epoch ≡ le.promoted % 2 ^ 64)
    × (le.demoted + bit le.is_leader ≤ le.promoted + pending c + resigned r)
    × Remembers c le.demoted (le.promoted + resigned r)

bounds :
    (s : System) (c : CheckPhase) → s.check ≡ c → IsFenced s → Bounds s.election c s.resignation
bounds s c at f = (f.token, rw at at f.reported, rw at at f.remembered)

fenced : (s : System) → Bounds s.election s.check s.resignation → IsFenced s
fenced s (token, reported, remembered) = record {
  token = token;
  reported = reported;
  remembered = remembered;
}

Bounds-demotion :
    (le : LeaderElection) (c : CheckPhase) (r : ResignPhase)
    → pending c ≡ 0
    → Bounds le c r
    → Bounds (handle_demotion le) idle r
Bounds-demotion le c r none_due (token, reported, remembered) =
    let d = same-demotion le in (ground (arith, token, d), omega (arith, d, reported, none_due), tt)

-- The flag as it is stored, after a load of `was`.
Bounds-store :
    (was now : Bool) (le : LeaderElection) (r : ResignPhase)
    → Bounds le (loaded was now) r
    → Bounds (store now le) (stored was now) r
Bounds-store false true le r (token, reported, remembered) = (token, omega arith, tt)
Bounds-store false false le r (token, reported, remembered) = (token, omega arith, tt)
Bounds-store true true le r (token, reported, remembered) = (token, omega arith, tt)
Bounds-store true false le r (token, reported, remembered) = (token, omega arith, tt)

Bounds-settle :
    (was now : Bool) (le : LeaderElection) (r : ResignPhase)
    → Bounds le (stored was now) r
    → Bounds (settle was now le) idle r
unfolding settle
Bounds-settle false true le r (token, reported, remembered) = (ground arith, omega arith, tt)
Bounds-settle false false le r b = b
Bounds-settle true true le r b = b
Bounds-settle true false le r b = Bounds-demotion le (stored true false) r refl b

Bounds-give_up :
    (le : LeaderElection) (c : CheckPhase)
    → Bounds le c closing
    → Bounds (handle_demotion le) c done
Bounds-give_up le (loaded was now) (token, reported, remembered) =
    let d = same-demotion le in
    (ground (arith, token, d), omega (arith, d, reported), omega (arith, d, remembered))
Bounds-give_up le c (token, reported, remembered) =
    let d = same-demotion le in (ground (arith, token, d), omega (arith, d, reported), tt)

Move-IsFenced : {s t : System} → Move s t → IsFenced s → IsFenced t
unfolding drop_candidate create_candidate
Move-IsFenced {s} (list children ne at) f = fenced _ (bounds s idle at f)
Move-IsFenced {s} (load now at) f =
    let (token, reported, remembered) = bounds s (read now) at f in
    fenced _ (token, reported, omega (arith, reported))
Move-IsFenced {s} (store_flag was now at) f =
    fenced _ (Bounds-store was now s.election s.resignation (bounds s (loaded was now) at f))
Move-IsFenced {s} (settle_change was now at) f =
    fenced _ (Bounds-settle was now s.election s.resignation (bounds s (stored was now) at f))
Move-IsFenced {s} (demote at) f =
    fenced _ (rw at (Bounds-demotion s.election idle s.resignation refl (bounds s idle at f)))
Move-IsFenced {s} (drop at) f = fenced _ (rw at (bounds s idle at f))
Move-IsFenced {s} (create node at) f = fenced _ (rw at (bounds s idle at f))
Move-IsFenced {s} (close called live) f =
    fenced _ (f.token, rw called at f.reported, rw called at f.remembered)
Move-IsFenced {s} (give_up at) f =
    fenced _
      (Bounds-give_up s.election s.check (f.token, rw at at f.reported, rw at at f.remembered))

-- Along every order of the turns of the election's goroutine and of one resignation: the fencing
-- token stays the number of promotions modulo 2 ^ 64; and the demotions reported, with one more
-- while the instance leads, are at most the promotions, or one more than these while a promotion
-- is stored and not yet reported, or one more after the resignation, or two more after both.
pub reach-IsFenced : {s t : System} → Reach s t → IsFenced s → IsFenced t
reach-IsFenced start f = f
reach-IsFenced (later r m) f = Move-IsFenced m (reach-IsFenced r f)
