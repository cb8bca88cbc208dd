-- ===== src/Flight/Recording.antt =====
-- The shared recorder under a schedule: it takes the calls one after another, in the order in which
-- the requests get its lock.
use partly_proxy.Base.{
  ℕ, zero, suc, true, ◌≤◌, List, [], ◌∷◌, ◌++◌, ◌≡◌, refl, sym, ap, ◌∙◌, Map, length, last_n,
}
use partly_proxy.Http.{Http}
use partly_proxy.Types.Recorded.{RecordedExchange}
use partly_proxy.Config.{RecordingConfig}
use partly_proxy.Storage.{SnapshotStorage}
use partly_proxy.Forwarder.{Client}
use partly_proxy.Recorder.{Recorder, with_routes}
use partly_proxy.Recorder.History.{Operation, operate, operate_all, recorder-IsRing}
use partly_proxy.Listener.{World}
use partly_proxy.Flight.{Flight}
use partly_proxy.Flight.Effect.{advance-Effect}
use partly_proxy.Flight.Schedule.{
  Choice, arrive, go_on, set_pause, add_stub, clear_stubs, clear_recordings, elsewhere, System,
  pick, perform, run, handed_at, calls, all_calls,
}

module _ (medium : SnapshotStorage) where
  operate_all-append :
      (ops later : List (Operation medium)) (r : Recorder medium) (history : List RecordedExchange)
      → let (r', history') = operate_all medium ops r history in
        operate_all medium (ops ++ later) r history ≡ operate_all medium later r' history'
  unfolding operate_all
  operate_all-append [] later r history = refl
  operate_all-append (o ∷ ops) later r history =
      let (r', history') = operate medium o r history in operate_all-append ops later r' history'

module _ (http : Http) (client : Client http) (medium : SnapshotStorage) where
  pick-recorder :
      (i : ℕ) (fs : List (Flight http)) (w : World http client medium)
      (history : List RecordedExchange)
      → (pick http client medium i fs w).1.recorder
        ≡ (operate_all medium (handed_at http client medium i fs) w.recorder history).0
  unfolding pick handed_at operate_all
  pick-recorder i [] w history = refl
  pick-recorder zero (f ∷ fs) w history = (advance-Effect http client medium f w).recorder history
  pick-recorder (suc i) (f ∷ fs) w history = pick-recorder i fs w history

  perform-recorder :
      (c : Choice http) (s : System http client medium) (history : List RecordedExchange)
      → (perform http client medium c s).world.recorder
        ≡ (operate_all medium (calls http client medium c s) s.world.recorder history).0
  unfolding perform calls operate_all operate
  perform-recorder (arrive env head body) s history = refl
  perform-recorder (go_on i) s history = pick-recorder i s.flights s.world history
  perform-recorder (set_pause b) s history = refl
  perform-recorder (add_stub entry) s history = refl
  perform-recorder clear_stubs s history = refl
  perform-recorder clear_recordings s history = refl
  perform-recorder (elsewhere e) s history = refl

  -- Whatever the schedule is, the recorder is as after its calls, one by one.
  pub run-recorder :
      (schedule : List (Choice http)) (s : System http client medium)
      (history : List RecordedExchange)
      → (run http client medium schedule s).world.recorder
        ≡ (operate_all medium (all_calls http client medium schedule s) s.world.recorder history).0
  unfolding run all_calls operate_all
  run-recorder [] s history = refl
  run-recorder (c ∷ later) s history =
      let ops = calls http client medium c s in
      let s' = perform http client medium c s in
      let (r', history') = operate_all medium ops s.world.recorder history in
      run-recorder later s' history'
      ∙ ap (λ r. (operate_all medium (all_calls http client medium later s') r history').0)
          (perform-recorder c s history)
      ∙ ap (λ (p : Recorder medium × List RecordedExchange). p.0)
          (sym (
            operate_all-append medium ops (all_calls http client medium later s') s.world.recorder
              history))

  -- However the requests of all upstreams interleave with each other and with the commands: on a
  -- recorder that was fresh and enabled, the buffer holds exactly the newest of the exchanges that
  -- it accepted since the last clear, in the order in which the requests got its lock, and no more
  -- than its capacity.
  pub run-IsRing :
      (schedule : List (Choice http)) (s : System http client medium) (config : RecordingConfig)
      (storage : Map medium.State)
      → s.world.recorder ≡ with_routes medium config storage
      → config.enabled ≡ true
      → let r = (run http client medium schedule s).world.recorder in
        let (_, history) =
          operate_all medium
            (all_calls http client medium schedule s)
            (with_routes medium config storage)
            [] in
        (r.buffer ≡ last_n config.max_in_memory history) × (length r.buffer ≤ config.max_in_memory)
  run-IsRing schedule s config storage fresh on =
      let ops = all_calls http client medium schedule s in
      let same =
        run-recorder schedule s []
        ∙ ap (λ (r : Recorder medium). (operate_all medium ops r []).0) fresh in
      rw same (recorder-IsRing medium config storage ops on)
