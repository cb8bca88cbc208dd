-- ===== src/Tests/Flights.antt =====
-- Requests in flight at the same time.
use partly_proxy.Base.{
  inl, ℕ, true, ◌≤◌, ◌+◌, Option, none, some, List, [], ◌∷◌, ◌≡◌, refl, length, last_n, get_elem?,
  lookup, map, All, arith,
}
use partly_proxy.Types.ProxyIo.{ProxyResponse, http_11}
use partly_proxy.Types.Recorded.{RecordedExchange}
use partly_proxy.Config.{Mode, record_mode, replay_mode, in_memory}
use partly_proxy.Storage.Memory.{in_memory_storage}
use partly_proxy.Replay
use partly_proxy.Replay.{IndexKey, ReplayState, find_exchange, key_of}
use partly_proxy.Replay.Index.{Refines, new-Refines, first_answer}
use partly_proxy.Recorder.{with_routes, evict}
use partly_proxy.Stub.{take_match, matches, StubEntry, new_matcher, new_stubbed}
use partly_proxy.Stub.Capacity.{capacity}
use partly_proxy.Flight.Budget.{all_taken, all_added, run_fires}
use partly_proxy.Forwarder.{forward}
use partly_proxy.Recorder.History.{operate_all}
use partly_proxy.Listener.{Ambient}
use partly_proxy.Flight.{Flight, answered}
use partly_proxy.Flight.Schedule.{
  Choice, add_stub, arrive, go_on, set_pause, System, run, all_calls,
}
use partly_proxy.Flight.Recording.{run-IsRing}
use partly_proxy.Flight.Indexing.{OfUpstream, run-Refines}
use partly_proxy.Flight.Offline.{IsOffline, run-IsOffline}
use partly_proxy.Flight.Progress.{run-answered}
use partly_proxy.Tests.Sample.{
  sample_http, sample_client, request_to, world_of, ambient, exchange_of,
}

abbrev second : Ambient
second = record { id = 2; now = 6; elapsed = 3; stamp = record { id = 10; timestamp = 6 } }

abbrev start : Mode → System sample_http sample_client in_memory_storage
start mode = record {
  world = record (world_of mode (some (Replay.new sample_http []))) {
    recorder = with_routes in_memory_storage (in_memory 2) [];
  };
  flights = [];
}

abbrev turns_of : List ℕ → List (Choice sample_http)
turns_of picks = map go_on picks

-- Two equal requests that both miss, and are both forwarded; the first is promoted first, and
-- recorded last.
abbrev race : List (Choice sample_http)
race =
    arrive ambient (request_to "/a") (some [])
    ∷ arrive second (request_to "/a") (some [])
    ∷ turns_of (0 ∷ 1 ∷ 0 ∷ 1 ∷ 0 ∷ 1 ∷ 0 ∷ 1 ∷ 0 ∷ 1 ∷ 1 ∷ 0 ∷ [])

abbrev raced : System sample_http sample_client in_memory_storage
raced = run sample_http sample_client in_memory_storage race (start record_mode)

abbrev id_of : Option RecordedExchange → ℕ
id_of none = 0
id_of (some e) = e.id

abbrev answer_of : Option ReplayState → Option RecordedExchange
answer_of none = none
answer_of (some state) = find_exchange (key_of sample_http (exchange_of "/a").request) state

-- Both requests are sent; the live index answers with the first exchange, an index that is loaded
-- from what was recorded with the second.
race_runs :
    (raced.world.net ≡ 2)
    × (id_of (answer_of raced.world.runtime.replay) ≡ 9)
    × (id_of (answer_of (some (Replay.new sample_http raced.world.recorder.buffer))) ≡ 10)
    × (length raced.world.recorder.buffer ≡ 2)
unfolding run take_match Replay.lookup Replay.new forward with_routes in_memory Replay.insert
    Replay.path_and_query_of_str lookup evict Replay.or_insert
race_runs = (refl, refl, refl, refl)

run-IsRing_example :
    let (_, history) =
      operate_all in_memory_storage
        (all_calls sample_http sample_client in_memory_storage race (start record_mode))
        (with_routes in_memory_storage (in_memory 2) [])
        [] in
    (raced.world.recorder.buffer ≡ last_n 2 history) × (length raced.world.recorder.buffer ≤ 2)
unfolding in_memory
run-IsRing_example =
    run-IsRing sample_http sample_client in_memory_storage race (start record_mode) (in_memory 2) []
      refl refl

run-Refines_example :
    (later : List RecordedExchange) × (state : ReplayState) × (raced.world.runtime.replay
      ≡ some state)
    × All (OfUpstream sample_http sample_client in_memory_storage (start record_mode).world) later
    × Refines sample_http state later
    × ((k : IndexKey)
        → find_exchange k state ≡ elim (find_exchange k (Replay.new sample_http [])) [
          | some x ↦ some x
          | none ↦ first_answer sample_http k later
        ])
run-Refines_example =
    run-Refines sample_http sample_client in_memory_storage race (start record_mode)
      (Replay.new sample_http []) [] refl (new-Refines sample_http [])

run-IsOffline_example :
    let s = run sample_http sample_client in_memory_storage race (start replay_mode) in
    IsOffline sample_http sample_client in_memory_storage s × (s.world.net ≡ 0)
run-IsOffline_example =
    run-IsOffline sample_http sample_client in_memory_storage race (start replay_mode)
      (record { mode = refl; local = tt })

-- Two requests, the first behind the gate.
abbrev entered : System sample_http sample_client in_memory_storage
entered =
    run sample_http sample_client in_memory_storage
      (arrive ambient (request_to "/a") (some [])
        ∷ arrive second (request_to "/a") (some [])
        ∷ turns_of (0 ∷ []))
      (start record_mode)

abbrev flight_of : Option (Flight sample_http) → Flight sample_http
flight_of none = answered (record { status = 0; headers = []; body = []; version = http_11 })
flight_of (some f) = f

-- The upstream is paused in between, and the other request waits at the gate.
abbrev paused_meanwhile : List (Choice sample_http)
paused_meanwhile = set_pause true ∷ turns_of (0 ∷ 1 ∷ 0 ∷ 0 ∷ 1 ∷ 0 ∷ 0 ∷ [])

run-answered_example :
    (resp : ProxyResponse sample_http) × (get_elem?
        (run sample_http sample_client in_memory_storage paused_meanwhile entered).flights
        0
      ≡ some (answered resp))
unfolding run
run-answered_example =
    run-answered sample_http sample_client in_memory_storage paused_meanwhile 0 entered
      (flight_of (get_elem? entered.flights 0)) refl (inl (omega arith)) (omega arith)

-- A stub that fires once, and two requests that it matches.
abbrev once : StubEntry sample_http
once = record { matcher = new_matcher sample_http; response = new_stubbed 204; times = some 1 }

abbrev two_for_one : List (Choice sample_http)
two_for_one = add_stub once ∷ race

run_fires_example :
    all_taken sample_http sample_client in_memory_storage two_for_one (start record_mode)
      + capacity sample_http
          (run sample_http sample_client in_memory_storage two_for_one
            (start record_mode)).world.runtime.stubs
    ≤ 0 + all_added sample_http two_for_one
run_fires_example =
    run_fires sample_http sample_client in_memory_storage two_for_one (start record_mode)
      (tt, (tt, (tt, (tt, (tt, (tt, (tt, (tt, (tt, (tt, (tt, (tt, (tt, (tt, (tt, tt)))))))))))))))
      tt

two_for_one_runs :
    (all_taken sample_http sample_client in_memory_storage two_for_one (start record_mode) ≡ 1)
    × ((run sample_http sample_client in_memory_storage two_for_one (start record_mode)).world.net
        ≡ 1)
unfolding run all_taken take_match matches with_routes in_memory Replay.lookup Replay.new forward
    lookup
two_for_one_runs = (refl, refl)
