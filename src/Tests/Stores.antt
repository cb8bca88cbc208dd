-- ===== src/Tests/Stores.antt =====
-- The recorder, its media and the replay index.
use partly_proxy.Base.{◌≤◌, List, [], ◌∷◌, ◌++◌, ◌≡◌, refl, length, last_n, lookup, insert}
use partly_proxy.Types.Recorded.{RecordedExchange}
use partly_proxy.Config.{in_memory}
use partly_proxy.Storage.Memory.{InMemoryStorage, in_memory_storage, in_memory_laws}
use partly_proxy.Storage.Memory
use partly_proxy.Recorder.{with_routes, record_exchange}
use partly_proxy.Recorder.History.{record_op, flush_op, operate_all, recorder-IsRing}
use partly_proxy.Recorder.Durable.{Holds, of_upstream, record_all, recorder-Holds}
use partly_proxy.Replay
use partly_proxy.Replay.{find_exchange, key_of}
use partly_proxy.Replay.Index.{first_answer, insert_all, insert_all-new}
use partly_proxy.Tests.Sample.{sample_http, exchange_of}

recorder-IsRing_example :
    let (r, history) =
      operate_all in_memory_storage
        (record_op (exchange_of "/a") ∷ flush_op ∷ record_op (exchange_of "/b") ∷ [])
        (with_routes in_memory_storage (in_memory 1) [])
        [] in
    (r.buffer ≡ last_n 1 history) × (length r.buffer ≤ 1)
unfolding in_memory
recorder-IsRing_example =
    recorder-IsRing in_memory_storage (in_memory 1) []
      (record_op (exchange_of "/a") ∷ flush_op ∷ record_op (exchange_of "/b") ∷ []) refl

abbrev stored : List RecordedExchange
stored = exchange_of "/a" ∷ exchange_of "/b" ∷ []

recorder-Holds_example :
    let r =
      (record_all in_memory_storage in_memory_laws stored
        (with_routes in_memory_storage (in_memory 1) (("api", Memory.new) ∷ []))).1 in
    Holds in_memory_storage in_memory_laws Memory.new
      (lookup "api" r.storage)
      (of_upstream "api" stored)
    × (before : List RecordedExchange) × (of_upstream "api" stored
        ≡ before ++ of_upstream "api" r.buffer)
unfolding lookup insert in_memory in_memory_laws record_all record_exchange with_routes
    Memory.append
recorder-Holds_example =
    recorder-Holds in_memory_storage in_memory_laws (in_memory 1) (("api", Memory.new) ∷ []) stored
      "api" Memory.new refl refl tt refl

insert_all-new_example :
    let k = key_of sample_http (exchange_of "/b").request in
    let live =
      insert_all sample_http
        (exchange_of "/b" ∷ [])
        (Replay.new sample_http (exchange_of "/a" ∷ [])) in
    (find_exchange k live ≡ find_exchange k (Replay.new sample_http stored))
    × (find_exchange k live ≡ first_answer sample_http k stored)
insert_all-new_example =
    insert_all-new sample_http (exchange_of "/a" ∷ []) (exchange_of "/b" ∷ [])
      (key_of sample_http (exchange_of "/b").request)
