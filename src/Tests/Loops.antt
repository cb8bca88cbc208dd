-- ===== src/Tests/Loops.antt =====
-- The accept loop of a listener, and the loop of the command processor.
use partly_proxy.Base.{ℕ, true, false, none, some, List, [], ◌∷◌, ◌++◌, ◌≡◌, refl, map, lookup}
use partly_proxy.Types.Error.{ok, err, command}
use partly_proxy.Storage.Memory.{in_memory_storage}
use partly_proxy.Traffic.{new_filter}
use partly_proxy.Command.{done, pause, assert_seen}
use partly_proxy.Command.Processor.{
  CommandEnvelope, Wake, send, receive, stop, process, spawn_processor,
}
use partly_proxy.Command.Processor.Serial.{IsSerial, ids, reply_ids, all_sent}
use partly_proxy.Command.Processor.Fifo.{process-IsSerial}
use partly_proxy.Listener.Accepting.{
  Connection, handshake_done, ended, Event, shutdown_is, accepted, accept_failed, interrupted,
  is_fatal_accept, serve_one, accept_from, accept_loop, over, handshake_cut, dropped, drained,
}
use partly_proxy.Listener.Accepting.Exits.{connections, final, accept_loop_exits}
use partly_proxy.Tests.Sample.{sample_http, api, control}

-- A handshake that is cut, a connection that ends in the drain, and one that does not.
abbrev three : List Connection
three =
    record { tls = true; before_drain = []; in_drain = handshake_done ∷ [] }
    ∷ record { tls = true; before_drain = handshake_done ∷ []; in_drain = ended ∷ [] }
    ∷ record { tls = false; before_drain = []; in_drain = [] }
    ∷ []

abbrev events : List (Event Connection)
events = accept_failed interrupted none ∷ map accepted three

accept_loop_exits_example :
    (accept_loop sample_http events api ≡ none)
    × (accept_from none [] (events ++ shutdown_is (some 100) ∷ [])
        ≡ some (record { tracked = connections events; deadline = 100 }))
    × (accept_loop sample_http (events ++ shutdown_is (some 100) ∷ []) api
        ≡ some (record api { pause = false }, map final (map serve_one (connections events))))
unfolding is_fatal_accept
accept_loop_exits_example =
    accept_loop_exits sample_http events (shutdown_is (some 100)) [] api
      (refl, (refl, (refl, (refl, tt)))) refl

three_runs :
    map final (map serve_one (connections events))
    ≡ over handshake_cut ∷ over drained ∷ over dropped ∷ []
unfolding serve_one
three_runs = refl

abbrev envelope : ℕ → CommandEnvelope sample_http in_memory_storage
envelope id = record { reply = id; cmd = pause (some "api"); rounds = [] }

-- Two commands before the shutdown, of which one is handled, and one behind it.
abbrev wakes : List (Wake sample_http in_memory_storage)
wakes = send (envelope 1) ∷ send (envelope 2) ∷ receive ∷ stop ∷ send (envelope 3) ∷ []

process-IsSerial_example :
    let p =
      process sample_http in_memory_storage wakes
        (spawn_processor sample_http in_memory_storage control) in
    IsSerial sample_http in_memory_storage control (all_sent sample_http in_memory_storage wakes) p
    × (reply_ids sample_http in_memory_storage p.replies
          ++ ids sample_http in_memory_storage p.queue
        ≡ ids sample_http in_memory_storage (all_sent sample_http in_memory_storage wakes))
process-IsSerial_example = process-IsSerial sample_http in_memory_storage control wakes

process_runs :
    (process sample_http in_memory_storage wakes
      (spawn_processor sample_http in_memory_storage control)).replies
    ≡ (1, ok done)
      ∷ (2, err (command "command reply dropped"))
      ∷ (3, err (command "command channel closed"))
      ∷ []
unfolding process spawn_processor lookup
process_runs = refl

-- An assertion that waits: the shutdown is not seen, and nobody has an answer.
abbrev stuck : List (Wake sample_http in_memory_storage)
stuck =
    send (record { reply = 1; cmd = assert_seen new_filter 9; rounds = [] })
    ∷ send (envelope 2)
    ∷ receive
    ∷ stop
    ∷ receive
    ∷ []

stuck_runs :
    (process sample_http in_memory_storage stuck
      (spawn_processor sample_http in_memory_storage control)).replies
    ≡ []
unfolding process spawn_processor
stuck_runs = refl
