-- ===== src/Listener/Replayed.antt =====
-- The second of two equal requests in record mode: what the first one recorded answers it.
use partly_proxy.Base.{
  ℕ, apply_some, Bytes, true, Option, none, some, ◌≡◌, refl, ap, ◌∙◌, inl, inr, Bool-cases, if_true,
  if_false, not, All,
}
use partly_proxy.Http.{Http}
use partly_proxy.Types.Error.{Result, ok}
use partly_proxy.Types.ProxyIo.{ProxyRequest, ProxyResponse}
use partly_proxy.Types.Recorded.{RecordedExchange, response, new_exchange}
use partly_proxy.Types.Context.{
  RequestContext, snapshot, upstream, new_context, response_source, insert_source,
}
use partly_proxy.Config.{record_mode}
use partly_proxy.Storage.{SnapshotStorage}
use partly_proxy.Stub.{StubbedResponse, StubStore, take_match}
use partly_proxy.Middleware.{Outcome, redact_request}
use partly_proxy.Forwarder.{Client, forward}
use partly_proxy.Recorder.{record_exchange}
use partly_proxy.Replay
use partly_proxy.Replay.{
  IndexKey, ReplayState, same_key, key_of, lookup_key, path_and_query_of_str, replay_outcome,
  replayed, find_exchange, outcome_response, parsed_or,
}
use partly_proxy.Replay.Index.{IsIndexed}
use partly_proxy.Listener.{
  World, Ambient, invoke, on_stub, on_replay, on_miss, consult, respond, handle_request, into_hyper,
  build_recorded, record_success_exchange, persist, promote,
}
use partly_proxy.Replay.Found.{key_of-lookup_key, insert-answer}
use partly_proxy.Middleware.Chain.{IsTransparent, run_chain-IsTransparent}

module _ (http : Http) (client : Client http) (medium : SnapshotStorage) where
  -- The terminal where no stub matches, by what the replay source says.
  invoke-unstubbed :
      (req : ProxyRequest http) (ctx : RequestContext http) (w : World http client medium)
      (state : ReplayState) (o : Option (ProxyResponse http))
      → take_match http req w.runtime.stubs ≡ (none, w.runtime.stubs)
      → w.runtime.replay ≡ some state
      → Replay.lookup http state req w.runtime.middleware ≡ o
      → invoke http client medium req ctx w ≡ on_replay http client medium o req ctx w
  unfolding invoke on_stub consult
  invoke-unstubbed req ctx w state o unmatched source says =
      let go : Option (StubbedResponse × Option ℕ) × StubStore http
          → Outcome http (World http client medium) =
        λ (found, stubs).
          on_stub http client medium found req ctx
            (record w { runtime = record w.runtime { stubs = stubs } }) in
      ap go unmatched
      ∙ ap
          (λ s.
            on_replay http client medium (consult http client medium s req w.runtime.middleware) req
              ctx w)
          source
      ∙ ap (λ a. on_replay http client medium a req ctx w) says

  -- A request through a chain that hands everything on, with a body that was read.
  handled :
      (env : Ambient) (head : ProxyRequest http) (body : Bytes) (w : World http client medium)
      → All (IsTransparent http) w.runtime.middleware
      → let original = record head { body = body } in
        handle_request http client medium env head (some body) w
        ≡ respond http client medium env original
            (invoke http client medium original (new_context http env.id env.now) w)
  unfolding handle_request
  handled env head body w transparent =
      let original = record head { body = body } in
      ap (respond http client medium env original) (
        run_chain-IsTransparent http w.runtime.middleware (invoke http client medium) original
          (new_context http env.id env.now) w transparent)

  -- Where no stub matches and the index has an answer, the answer goes to the caller, and nothing at
  -- all changes: no stub is used, nothing is recorded or sent. The middleware is one that hands
  -- requests and outcomes on as they are.
  pub handle_request_replayed :
      (env : Ambient) (head : ProxyRequest http) (body : Bytes) (w : World http client medium)
      (state : ReplayState) (resp : ProxyResponse http)
      → let original = record head { body = body } in
        All (IsTransparent http) w.runtime.middleware
        → take_match http original w.runtime.stubs ≡ (none, w.runtime.stubs)
        → w.runtime.replay ≡ some state
        → Replay.lookup http state original w.runtime.middleware ≡ some resp
        → handle_request http client medium env head (some body) w ≡ (into_hyper http resp, w)
  unfolding respond on_replay insert_source response_source record_success_exchange
  handle_request_replayed env head body w state resp transparent unmatched source hit =
      let original = record head { body = body } in
      let ctx = new_context http env.id env.now in
      let skipped : record_success_exchange http client medium original resp (some snapshot)
            env.elapsed env.stamp w
          ≡ w =
        elim (Bool-cases w.recorder.config.enabled) [
          | inl on ↦ if_false _ _ (ap not on)
          | inr off ↦ if_true _ _ (ap not off)
        ] in
      handled env head body w transparent
      ∙ ap (respond http client medium env original)
          (invoke-unstubbed original ctx w state (some resp) unmatched source hit)
      ∙ ap (λ (v : World http client medium). (into_hyper http resp, v)) skipped

  -- What the listener keeps of a response to the original request.
  abbrev pub kept :
      Ambient → ProxyRequest http → ProxyResponse http → World http client medium → RecordedExchange
  kept env original resp w =
      let (req, recorded) = build_recorded http w.runtime original resp in
      new_exchange env.stamp (some w.runtime.name) req (response recorded) env.elapsed

  forwarded :
      (env : Ambient) (head : ProxyRequest http) (body : Bytes) (w : World http client medium)
      (state : ReplayState) (resp : ProxyResponse http) (net : client.Net)
      → let original = record head { body = body } in
        All (IsTransparent http) w.runtime.middleware
        → w.runtime.mode ≡ record_mode
        → w.recorder.config.enabled ≡ true
        → take_match http original w.runtime.stubs ≡ (none, w.runtime.stubs)
        → w.runtime.replay ≡ some state
        → Replay.lookup http state original w.runtime.middleware ≡ none
        → forward http client w.runtime.forwarder original w.net ≡ (ok resp, net)
        → let e = kept env original resp w in
          handle_request http client medium env head (some body) w ≡ (
            into_hyper http resp,
            record {
              runtime = record w.runtime { replay = some (Replay.insert http e state) };
              recorder = (record_exchange medium w.recorder e).1;
              net = net;
            },
          )
  unfolding respond on_replay on_miss insert_source response_source record_success_exchange persist
      promote
  forwarded env head body w state resp net transparent mode on unmatched source missed answer =
      let original = record head { body = body } in
      let ctx = new_context http env.id env.now in
      let e = kept env original resp w in
      let go : Result (ProxyResponse http) × client.Net → Outcome http (World http client medium) =
        λ (res, n). (res, insert_source http ctx upstream, record w { net = n }) in
      let v : World http client medium = record w { net = net } in
      handled env head body w transparent
      ∙ ap (respond http client medium env original) (
          invoke-unstubbed original ctx w state none unmatched source missed
          ∙ ap (λ m. on_miss http client medium m original ctx w) mode
          ∙ ap go answer)
      ∙ ap (λ (s : World http client medium). (into_hyper http resp, s))
          (if_false _ _ (ap not on)
            ∙ ap
                (λ (o : Option ReplayState). persist http client medium e (
                  apply_some o
                    (λ st (u : World http client medium). record u {
                      runtime = record u.runtime { replay = some (Replay.insert http e st) };
                    })
                    v))
                source)

  -- The first of two equal requests is forwarded, its exchange is handed to the recorder and inserted
  -- into the live index, and nothing else of the upstream changes; the second is then answered with
  -- the recorded response, and changes nothing: no stub is used, nothing is recorded or sent.
  -- This is in record mode with recording on and an index that has no answer yet, where no stub
  -- matches, the upstream answers, the middleware hands requests and outcomes on as they are, and
  -- the text of the redacted request's address is read back as that address.
  pub handle_request_twice :
      (env env' : Ambient) (head : ProxyRequest http) (body : Bytes) (w : World http client medium)
      (state : ReplayState) (resp : ProxyResponse http) (net : client.Net)
      → let original = record head { body = body } in
        let redacted = redact_request http w.runtime.middleware original in
        All (IsTransparent http) w.runtime.middleware
        → w.runtime.mode ≡ record_mode
        → w.recorder.config.enabled ≡ true
        → take_match http original w.runtime.stubs ≡ (none, w.runtime.stubs)
        → w.runtime.replay ≡ some state
        → IsIndexed http state
        → Replay.lookup http state original w.runtime.middleware ≡ none
        → forward http client w.runtime.forwarder original w.net ≡ (ok resp, net)
        → http.parse_uri (http.uri_text redacted.uri) ≡ some redacted.uri
        → let (answer, w') = handle_request http client medium env head (some body) w in
          (answer ≡ into_hyper http resp)
          × (w'.net ≡ net)
          × (w'.recorder ≡ (record_exchange medium w.recorder (kept env original resp w)).1)
          × (w'.runtime ≡ record w.runtime {
            replay = some (Replay.insert http (kept env original resp w) state);
          })
          × (handle_request http client medium env' head (some body) w' ≡ (
            into_hyper http (replayed http (build_recorded http w.runtime original resp).1),
            w',
          ))
  unfolding build_recorded Replay.lookup replay_outcome outcome_response
  handle_request_twice env env' head body w state resp net transparent mode on unmatched source h
        missed answer text =
      let original = record head { body = body } in
      let redacted = redact_request http w.runtime.middleware original in
      let e = kept env original resp w in
      let state' = Replay.insert http e state in
      let w' : World http client medium = record {
        runtime = record w.runtime { replay = some state' };
        recorder = (record_exchange medium w.recorder e).1;
        net = net;
      } in
      let first =
        forwarded env head body w state resp net transparent mode on unmatched source missed
          answer in
      let found =
        insert-answer http state (lookup_key http redacted) e h missed refl
          (key_of-lookup_key http redacted text) in
      let second =
        handle_request_replayed env' head body w' state'
          (replayed http (build_recorded http w.runtime original resp).1) transparent unmatched refl
          (ap (replay_outcome http) found) in
      rw first (refl, refl, refl, refl, second)
