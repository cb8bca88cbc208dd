-- ===== src/Flight/Budget.antt =====
-- Stubs with a limit, under a schedule: requests in flight at the same time never take more answers
-- from the store than its limits allow.
use partly_proxy.Base.{ℕ, zero, suc, ◌+◌, ◌≤◌, arith, List, [], ◌∷◌, All, All-append}
use partly_proxy.Http.{Http}
use partly_proxy.Storage.{SnapshotStorage}
use partly_proxy.Stub.{StubEntry, StubStore, take_match}
use partly_proxy.Stub
use partly_proxy.Stub.Capacity.{
  IsLimited, allowed, capacity, fired, capacity-append, take_match-capacity,
}
use partly_proxy.Forwarder.{Client}
use partly_proxy.Listener.{World}
use partly_proxy.Flight.{
  Flight, at_gate, at_stubs, at_replay, at_upstream, at_end, at_recorder, answered,
}
use partly_proxy.Flight.Effect.{stubs_after, advance-Effect}
use partly_proxy.Flight.Schedule.{
  Choice, arrive, go_on, set_pause, add_stub, clear_stubs, clear_recordings, elsewhere, System,
  pick, perform, run,
}

module _ (http : Http) where
  -- The answers that the stubs allow which a schedule adds.
  abbrev pub added : Choice http → ℕ
  added (add_stub e) = allowed http e.times
  added _ = 0

  abbrev pub all_added : List (Choice http) → ℕ
  all_added [] = 0
  all_added (c ∷ later) = added c + all_added later

  abbrev pub AddsLimited : Choice http → Type 0
  AddsLimited (add_stub e) = IsLimited http e
  AddsLimited _ = Unit

module _ (http : Http) (client : Client http) (medium : SnapshotStorage) where
  -- The answers that the next step of a request takes from the store.
  abbrev fires : Flight http → World http client medium → ℕ
  fires (at_stubs env original req ctx k) w = fired http (take_match http req w.runtime.stubs).0
  fires _ w = 0

  abbrev fires_at : ℕ → List (Flight http) → World http client medium → ℕ
  fires_at i [] w = 0
  fires_at zero (f ∷ fs) w = fires f w
  fires_at (suc i) (f ∷ fs) w = fires_at i fs w

  abbrev pub taken : Choice http → System http client medium → ℕ
  taken (go_on i) s = fires_at i s.flights s.world
  taken _ s = 0

  -- The answers that a schedule takes from stubs.
  unfoldable pub all_taken : List (Choice http) → System http client medium → ℕ
  unfolding perform
  all_taken [] s = 0
  all_taken (c ∷ later) s = taken c s + all_taken later (perform http client medium c s)

  -- The capacity of the store and what it gave, against what it had.
  abbrev Within : StubStore http → ℕ → StubStore http → Type 0
  Within before n after =
      (n + capacity http after ≤ capacity http before) × All (IsLimited http) after

  stubs_after-Within :
      (f : Flight http) (w : World http client medium)
      → All (IsLimited http) w.runtime.stubs
      → Within w.runtime.stubs (fires f w) (stubs_after http client medium f w)
  stubs_after-Within (at_gate env head body) w h = (omega arith, h)
  stubs_after-Within (at_stubs env original req ctx k) w h =
      let (same, limited) = take_match-capacity http req w.runtime.stubs h in (omega arith, limited)
  stubs_after-Within (at_replay env original req ctx k) w h = (omega arith, h)
  stubs_after-Within (at_upstream env original req ctx k) w h = (omega arith, h)
  stubs_after-Within (at_end env original res ctx) w h = (omega arith, h)
  stubs_after-Within (at_recorder e resp) w h = (omega arith, h)
  stubs_after-Within (answered resp) w h = (omega arith, h)

  pick-Within :
      (i : ℕ) (fs : List (Flight http)) (w : World http client medium)
      → All (IsLimited http) w.runtime.stubs
      → Within w.runtime.stubs (fires_at i fs w) (pick http client medium i fs w).1.runtime.stubs
  unfolding pick
  pick-Within i [] w h = (omega arith, h)
  pick-Within zero (f ∷ fs) w h =
      rw (advance-Effect http client medium f w).stubs (stubs_after-Within f w h)
  pick-Within (suc i) (f ∷ fs) w h = pick-Within i fs w h

  perform-Within :
      (c : Choice http) (s : System http client medium)
      → AddsLimited http c
      → All (IsLimited http) s.world.runtime.stubs
      → let s' = perform http client medium c s in
        (taken c s + capacity http s'.world.runtime.stubs
          ≤ capacity http s.world.runtime.stubs + added http c)
        × All (IsLimited http) s'.world.runtime.stubs
  unfolding perform Stub.add Stub.clear
  perform-Within (arrive env head body) s l h = (omega arith, h)
  perform-Within (go_on i) s l h =
      let (within, limited) = pick-Within i s.flights s.world h in (omega arith, limited)
  perform-Within (set_pause b) s l h = (omega arith, h)
  perform-Within (add_stub e) s l h =
      let sum = capacity-append http s.world.runtime.stubs (e ∷ []) in
      (omega arith, All-append (IsLimited http) s.world.runtime.stubs (e ∷ []) h (l, tt))
  perform-Within clear_stubs s l h = (omega arith, tt)
  perform-Within clear_recordings s l h = (omega arith, h)
  perform-Within (elsewhere e) s l h = (omega arith, h)

  -- Where all stubs have a limit, those at the start and those that come to it, no interleaving of
  -- requests takes more answers from stubs than the limits allow, where a limit of zero allows one:
  -- the answers that were taken, with those that the store still allows in the end, are at most
  -- those that it allowed at the start and those that were added.
  pub run_fires :
      (schedule : List (Choice http)) (s : System http client medium)
      → All (AddsLimited http) schedule
      → All (IsLimited http) s.world.runtime.stubs
      → all_taken schedule s + capacity http (run http client medium schedule s).world.runtime.stubs
        ≤ capacity http s.world.runtime.stubs + all_added http schedule
  unfolding run all_taken
  run_fires [] s l h = omega arith
  run_fires (c ∷ later) s (l, ls) h =
      let s' = perform http client medium c s in
      let (one, limited) = perform-Within c s l h in
      let rest = run_fires later s' ls limited in omega arith
