-- ===== src/Flight/Schedule.antt =====
-- crates/partly-proxy-lib/src/listener.rs: `accept_loop` gives each connection a task of its own, and
-- the tests drive the upstream meanwhile. A schedule says what happens next: a request arrives, one
-- of the requests goes on, a command changes the upstream, or the listener of another upstream hands
-- an exchange to the shared recorder.
use partly_proxy.Base.{ℕ, zero, suc, Bytes, Bool, Option, List, [], ◌∷◌, ◌++◌}
use partly_proxy.Http.{Http}
use partly_proxy.Types.ProxyIo.{ProxyRequest}
use partly_proxy.Types.Recorded.{RecordedExchange}
use partly_proxy.Storage.{SnapshotStorage}
use partly_proxy.Stub.{StubEntry}
use partly_proxy.Stub
use partly_proxy.Forwarder.{Client}
use partly_proxy.Recorder.{record_exchange}
use partly_proxy.Recorder
use partly_proxy.Recorder.History.{Operation, record_op, clear_op}
use partly_proxy.Listener.{World, Ambient}
use partly_proxy.Flight.{Flight, at_gate, advance}
use partly_proxy.Flight.Effect.{handed}

module _ (http : Http) where
  pub data Choice : Type 0 where
    arrive : Ambient → ProxyRequest http → Option Bytes → Choice
    go_on : ℕ → Choice
    set_pause : Bool → Choice
    add_stub : StubEntry http → Choice
    clear_stubs clear_recordings : Choice
    elsewhere : RecordedExchange → Choice

module _ (http : Http) (client : Client http) (medium : SnapshotStorage) where
  pub record System : Type 0 where
    pub world : World http client medium
    pub flights : List (Flight http)

  -- The request at the position `i` makes one step; a position without a request does nothing.
  unfoldable pub pick :
      ℕ
      → List (Flight http)
      → World http client medium
      → List (Flight http) × World http client medium
  unfolding advance
  pick i [] w = ([], w)
  pick zero (f ∷ fs) w = let (f', w') = advance http client medium f w in (f' ∷ fs, w')
  pick (suc i) (f ∷ fs) w = let (fs', w') = pick i fs w in (f ∷ fs', w')

  unfoldable pub perform : Choice http → System → System
  unfolding pick Stub.add Stub.clear Recorder.clear record_exchange
  perform (arrive env head body) s = record s { flights = s.flights ++ at_gate env head body ∷ [] }
  perform (go_on i) s =
      let (flights, world) = pick i s.flights s.world in record { world = world; flights = flights }
  perform (set_pause b) s = record s {
    world = record s.world { runtime = record s.world.runtime { pause = b } };
  }
  perform (add_stub entry) s = record s {
    world = record s.world {
      runtime = record s.world.runtime { stubs = Stub.add http entry s.world.runtime.stubs };
    };
  }
  perform clear_stubs s = record s {
    world = record s.world {
      runtime = record s.world.runtime { stubs = Stub.clear http s.world.runtime.stubs };
    };
  }
  perform clear_recordings s = record s {
    world = record s.world { recorder = Recorder.clear medium s.world.recorder };
  }
  perform (elsewhere e) s = record s {
    world = record s.world { recorder = (record_exchange medium s.world.recorder e).1 };
  }

  unfoldable pub run : List (Choice http) → System → System
  unfolding perform
  run [] s = s
  run (c ∷ later) s = run later (perform c s)

  -- The call of the recorder that the request at a position makes next.
  unfoldable pub handed_at : ℕ → List (Flight http) → List (Operation medium)
  handed_at i [] = []
  handed_at zero (f ∷ fs) = handed http medium f
  handed_at (suc i) (f ∷ fs) = handed_at i fs

  -- The calls of the recorder that a schedule makes, in their order.
  unfoldable pub calls : Choice http → System → List (Operation medium)
  unfolding handed_at
  calls (go_on i) s = handed_at i s.flights
  calls clear_recordings s = clear_op ∷ []
  calls (elsewhere e) s = record_op e ∷ []
  calls _ s = []

  unfoldable pub all_calls : List (Choice http) → System → List (Operation medium)
  unfolding calls perform
  all_calls [] s = []
  all_calls (c ∷ later) s = calls c s ++ all_calls later (perform c s)
