-- ===== src/Tests/Requests.antt =====
-- Requests through the listener and the chain.
use partly_proxy.Base.{
  true, false, String, ◌+◌, ℕ, ◌+◌, Option, none, some, [], ◌∷◌, ◌++◌, ◌≡◌, refl, ◌⊎◌, as_bytes,
  format,
}
use partly_proxy.Types.Error.{Result, ok, err, other, upstream_request}
use partly_proxy.Types.ProxyIo.{ProxyResponse, http_11}
use partly_proxy.Types.Context.{new_context, response_source}
use partly_proxy.Config.{record_mode}
use partly_proxy.Storage.Memory.{in_memory_storage}
use partly_proxy.Stub.{take_match}
use partly_proxy.Middleware.{redact_request, finish, ProxyMiddleware, Terminal, run_chain}
use partly_proxy.Middleware.Chain.{run_chain_once, RanOnce}
use partly_proxy.Forwarder.{forward}
use partly_proxy.Recorder.{record_exchange}
use partly_proxy.Replay
use partly_proxy.Replay.Index.{new-Refines}
use partly_proxy.Replay.Headers.{build_header_map-last_value}
use partly_proxy.Listener.Gate.{pause_gate, flag_is, sender_dropped, pause_gate_blocks}
use partly_proxy.Listener.{World, handle_request, invoke, into_hyper, build_recorded}
use partly_proxy.Listener.Records.{AtMostOne, handle_request-AtMostOne}
use partly_proxy.Listener.Replayed.{kept, handle_request_replayed, handle_request_twice}
use partly_proxy.Listener.Answers.{Unframed, Answers, Refused, handle_request-Answers}
use partly_proxy.Forwarder.{Outbound, outbound_of}
use partly_proxy.Forwarder.Outgoing.{HostValues, FreeOf, outbound_of_lem}
use partly_proxy.Tests.Laws.{sample_laws}
use partly_proxy.Tests.Sample.{
  sample_forwarder, sample_http, sample_client, redactor, request_to, response_of, world_of,
  ambient,
}

abbrev live : World sample_http sample_client in_memory_storage
live = world_of record_mode (some (Replay.new sample_http []))

abbrev warm : World sample_http sample_client in_memory_storage
warm =
    (handle_request sample_http sample_client in_memory_storage ambient (request_to "/a") (some [])
      live).1

abbrev state_of : World sample_http sample_client in_memory_storage → Replay.ReplayState
state_of w = elim w.runtime.replay [ none ↦ Replay.new sample_http [] | some state ↦ state ]

abbrev replay_of : Option (ProxyResponse sample_http) → ProxyResponse sample_http
replay_of none = response_of 500
replay_of (some resp) = resp

-- What the upstream answers.
abbrev hello : ProxyResponse sample_http
hello = record { status = 200; headers = []; body = as_bytes "hello"; version = http_11 }

-- A terminal that counts its runs.
abbrev counter : Terminal sample_http ℕ
counter req ctx n = (ok (response_of 200), ctx, n + 1)

-- A middleware that refuses every request.
abbrev refuser : ProxyMiddleware sample_http
refuser = record {
  handle = λ req ctx. finish (err (other "no")) ctx;
  redact_request_for_snapshot = λ req. req;
  redact_response_for_snapshot = λ resp. resp;
}

-- A request that was built.
abbrev outgoing : Result (Outbound sample_http) → Outbound sample_http
outgoing (ok out) = out
outgoing (err e) = record { method = ""; uri = ""; headers = []; body = []; version = http_11 }

handle_request-AtMostOne_example :
    AtMostOne sample_http sample_client in_memory_storage live
      (handle_request sample_http sample_client in_memory_storage ambient
        (request_to "/a")
        (some (as_bytes "hi"))
        live).1
handle_request-AtMostOne_example =
    handle_request-AtMostOne sample_http sample_client in_memory_storage ambient (request_to "/a")
      (some (as_bytes "hi")) live

handle_request_replayed_example :
    let hit = Replay.lookup sample_http (state_of warm) (request_to "/a") (redactor ∷ []) in
    handle_request sample_http sample_client in_memory_storage ambient
      (request_to "/a")
      (some [])
      warm
    ≡ (into_hyper sample_http (replay_of hit), warm)
unfolding Replay.lookup handle_request run_chain invoke take_match Replay.new forward
    response_source Replay.insert Replay.path_and_query_of_str
handle_request_replayed_example =
    handle_request_replayed sample_http sample_client in_memory_storage ambient (request_to "/a") []
      warm (state_of warm)
      (replay_of (Replay.lookup sample_http (state_of warm) (request_to "/a") (redactor ∷ [])))
      ((λ req ctx. refl), tt) refl refl refl

handle_request_twice_example :
    let (answer, w) =
      handle_request sample_http sample_client in_memory_storage ambient
        (request_to "/a")
        (some [])
        live in
    (answer ≡ into_hyper sample_http hello)
    × (w.net ≡ 1)
    × (w.recorder
        ≡ (record_exchange in_memory_storage live.recorder (
            kept sample_http sample_client in_memory_storage ambient
              (request_to "/a")
              hello
              live)).1)
    × (w.runtime ≡ record live.runtime {
      replay = some (
          Replay.insert sample_http
            (kept sample_http sample_client in_memory_storage ambient (request_to "/a") hello live)
            (Replay.new sample_http []));
    })
    × (handle_request sample_http sample_client in_memory_storage ambient
          (request_to "/a")
          (some [])
          w
        ≡ (
          into_hyper sample_http (
              Replay.replayed sample_http
                (build_recorded sample_http live.runtime (request_to "/a") hello).1),
          w,
        ))
unfolding take_match Replay.new Replay.lookup forward redact_request
handle_request_twice_example =
    handle_request_twice sample_http sample_client in_memory_storage ambient ambient
      (request_to "/a") [] live (Replay.new sample_http []) hello 1 ((λ req ctx. refl), tt) refl
      refl refl refl (new-Refines sample_http []).indexed refl refl refl

run_chain_once_example :
    let s =
      (run_chain sample_http
        (redactor ∷ [])
        counter
        (request_to "/a")
        (new_context sample_http 1 2)
        7).2 in
    (s ≡ 7) ⊎ RanOnce sample_http counter 7 s
run_chain_once_example =
    run_chain_once sample_http (redactor ∷ []) counter (request_to "/a")
      (new_context sample_http 1 2) 7

handle_request-Answers_example :
    let chain =
      run_chain sample_http live.runtime.middleware
        (invoke sample_http sample_client in_memory_storage)
        (request_to "/a")
        (new_context sample_http 1 5)
        live in
    let answer =
      (handle_request sample_http sample_client in_memory_storage ambient
        (request_to "/a")
        (some [])
        live).0 in
    let refused =
      (handle_request sample_http sample_client in_memory_storage ambient
        (request_to "/a")
        none
        live).0 in
    (Unframed sample_http sample_laws sample_client in_memory_storage answer.headers
      × Answers sample_http sample_laws sample_client in_memory_storage chain.0 answer)
    × Unframed sample_http sample_laws sample_client in_memory_storage refused.headers
    × Refused sample_http sample_laws sample_client in_memory_storage
        (upstream_request "inbound body read failed")
        refused
handle_request-Answers_example =
    handle_request-Answers sample_http sample_laws sample_client in_memory_storage ambient
      (request_to "/a") [] live

outbound_of_lem_example :
    let out = outgoing (outbound_of sample_http sample_forwarder (request_to "/a")) in
    (out.method ≡ "GET")
    × (out.body ≡ [])
    × (out.version ≡ http_11)
    × (sample_http.build_uri sample_forwarder.base.scheme sample_forwarder.base.authority
          (format (sample_forwarder.base.path_prefix ∷ "/a" ∷ []))
        ≡ some out.uri)
    × HostValues sample_http sample_laws none (sample_http.get_all out.headers "host")
    × (sample_http.get_all out.headers "content-length" ≡ [])
    × (sample_http.get_all out.headers "transfer-encoding" ≡ [])
    × ((name : String)
        → FreeOf sample_http sample_laws name
        → sample_http.get_all out.headers name ≡ [])
unfolding outbound_of
outbound_of_lem_example =
    outbound_of_lem sample_http sample_laws sample_forwarder (request_to "/a")
      (outgoing (outbound_of sample_http sample_forwarder (request_to "/a"))) refl

-- Two cookies were recorded, and one is replayed.
build_header_map-last_value_example :
    sample_http.get_all
      (Replay.build_header_map sample_http (("set-cookie", "a=1") ∷ ("set-cookie", "b=2") ∷ []))
      "x-sample"
    ≡ as_bytes "b=2" ∷ []
unfolding as_bytes
build_header_map-last_value_example =
    build_header_map-last_value sample_http sample_laws
      (("set-cookie", "a=1") ∷ ("set-cookie", "b=2") ∷ []) "x-sample"

-- A request that waits through one change.
pause_gate_blocks_example :
    let before = flag_is true ∷ [] in
    (pause_gate true before ≡ none)
    × (pause_gate true (before ++ flag_is false ∷ []) ≡ some [])
    × (pause_gate true (before ++ sender_dropped ∷ []) ≡ some [])
    × (pause_gate false before ≡ some before)
pause_gate_blocks_example = pause_gate_blocks (flag_is true ∷ []) [] (refl, tt)
