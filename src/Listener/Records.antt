-- ===== src/Listener/Records.antt =====
-- What a request leaves behind in the recorder and in the live index.
use partly_proxy.Base.{
  ℕ, arith, [], Bytes, true, Option, none, some, ◌≡◌, refl, ap, ◌∙◌, ◌⊎◌, inl, inr, Bool-cases,
  if_true, if_false, not,
}
use partly_proxy.Http.{Http}
use partly_proxy.Types.Error.{ProxyError, ok, err, upstream_request}
use partly_proxy.Types.ProxyIo.{ProxyRequest, ProxyResponse}
use partly_proxy.Types.Recorded.{Stamp, RecordedExchange, response, new_exchange}
use partly_proxy.Types.Context.{
  RequestContext, ResponseSource, stub, snapshot, replay_miss, upstream, new_context,
  response_source,
}
use partly_proxy.Config.{Mode, record_mode, replay_mode}
use partly_proxy.Storage.{SnapshotStorage}
use partly_proxy.Stub.{StubbedResponse, take_match}
use partly_proxy.Middleware.{Outcome, run_chain}
use partly_proxy.Middleware.Chain.{run_chain_once}
use partly_proxy.Forwarder.{Client}
use partly_proxy.Recorder.{record_exchange}
use partly_proxy.Replay
use partly_proxy.Replay.{ReplayState}
use partly_proxy.Listener.{
  World, Ambient, invoke, on_stub, on_replay, on_miss, consult, respond, handle_request,
  record_success_exchange, record_error_exchange, persist, promote, is_snapshot, build_recorded,
}

module _ (http : Http) (client : Client http) (medium : SnapshotStorage) where
  -- The live index with one more exchange.
  abbrev pub promoted : RecordedExchange → Option ReplayState → Option ReplayState
  promoted e none = none
  promoted e (some state) = some (Replay.insert http e state)

  -- The terminal takes stubs and nothing else of what the upstream keeps.
  Untouched : World http client medium → World http client medium → Type 0
  Untouched w w' =
      (w'.recorder ≡ w.recorder)
      × (w'.runtime.name ≡ w.runtime.name)
      × (w'.runtime.replay ≡ w.runtime.replay)

  -- Nothing is recorded, or one exchange of this upstream is: the recorder takes it, and the live
  -- index, if there is one, is as it was or has it too.
  pub record One (w w' : World http client medium) (e : RecordedExchange) : Type 0 where
    pub of_upstream : e.upstream ≡ some w.runtime.name
    pub enabled : w.recorder.config.enabled ≡ true
    pub taken : w'.recorder ≡ (record_exchange medium w.recorder e).1
    pub index :
        (w'.runtime.replay ≡ w.runtime.replay) ⊎ (w'.runtime.replay ≡ promoted e w.runtime.replay)

  abbrev pub Keeps : World http client medium → World http client medium → Type 0
  Keeps w w' = (w'.recorder ≡ w.recorder) × (w'.runtime.replay ≡ w.runtime.replay)

  abbrev pub AtMostOne : World http client medium → World http client medium → Type 0
  AtMostOne w w' = Keeps w w' ⊎ ((e : RecordedExchange) × One w w' e)

  on_miss-Untouched :
      (m : Mode) (req : ProxyRequest http) (ctx : RequestContext http)
      (w : World http client medium)
      → Untouched w (on_miss http client medium m req ctx w).2
  unfolding on_miss Untouched
  on_miss-Untouched replay_mode req ctx w = (refl, refl, refl)
  on_miss-Untouched record_mode req ctx w = (refl, refl, refl)

  on_replay-Untouched :
      (o : Option (ProxyResponse http)) (req : ProxyRequest http) (ctx : RequestContext http)
      (w : World http client medium)
      → Untouched w (on_replay http client medium o req ctx w).2
  unfolding on_replay Untouched
  on_replay-Untouched (some resp) req ctx w = (refl, refl, refl)
  on_replay-Untouched none req ctx w = on_miss-Untouched w.runtime.mode req ctx w

  on_stub-Untouched :
      (o : Option (StubbedResponse × Option ℕ)) (req : ProxyRequest http)
      (ctx : RequestContext http) (w : World http client medium)
      → Untouched w (on_stub http client medium o req ctx w).2
  unfolding on_stub Untouched
  on_stub-Untouched (some (canned, delay)) req ctx w = (refl, refl, refl)
  on_stub-Untouched none req ctx w =
      on_replay-Untouched (consult http client medium w.runtime.replay req w.runtime.middleware) req
        ctx w

  invoke-Untouched :
      (req : ProxyRequest http) (ctx : RequestContext http) (w : World http client medium)
      → Untouched w (invoke http client medium req ctx w).2
  unfolding invoke Untouched
  invoke-Untouched req ctx w =
      let (found, stubs) = take_match http req w.runtime.stubs in
      on_stub-Untouched found req ctx (record w { runtime = record w.runtime { stubs = stubs } })

  chain-Untouched :
      (req : ProxyRequest http) (ctx : RequestContext http) (w : World http client medium)
      → Untouched w (run_chain http w.runtime.middleware (invoke http client medium) req ctx w).2
  unfolding Untouched
  chain-Untouched req ctx w =
      elim (run_chain_once http w.runtime.middleware (invoke http client medium) req ctx w) [
        | inl same ↦ rw same (refl, refl, refl)
        | inr (req', ctx', ran) ↦ rw ran (invoke-Untouched req' ctx' w)
      ]

  -- What the listener records of a response, by what it would promote.
  promote_index :
      (source : Option ResponseSource) (e : RecordedExchange) (w : World http client medium)
      → let w' = promote http client medium source e w in
        (w'.recorder ≡ w.recorder)
        × ((w'.runtime.replay ≡ w.runtime.replay)
            ⊎ (w'.runtime.replay ≡ promoted e w.runtime.replay))
  unfolding promote
  promote_index (some upstream) e w = ground arith
  promote_index (some stub) e w = (refl, inl refl)
  promote_index (some snapshot) e w = (refl, inl refl)
  promote_index (some replay_miss) e w = (refl, inl refl)
  promote_index none e w = (refl, inl refl)

  record_success-AtMostOne :
      (original : ProxyRequest http) (final : ProxyResponse http) (source : Option ResponseSource)
      (duration : ℕ) (stamp : Stamp) (w : World http client medium)
      → AtMostOne w
          (record_success_exchange http client medium original final source duration stamp w)
  unfolding record_success_exchange persist
  record_success-AtMostOne original final source duration stamp w =
      elim (Bool-cases w.recorder.config.enabled) [
        | inl on ↦ elim (Bool-cases (is_snapshot http client medium source)) [
          | inl hit ↦ rw (on, not, hit) (inl (refl, refl))
          | inr live ↦
              let (req, resp) = build_recorded http w.runtime original final in
              let e = new_exchange stamp (some w.runtime.name) req (response resp) duration in
              let (same, index) = promote_index source e w in
              rw (if_false _ _ (ap not on), if_false _ _ live)
                (inr
                  (e, record { of_upstream = refl; enabled = on; taken = rw same; index = index }))
        ]
        | inr off ↦ rw (if_true _ _ (ap not off)) (inl (refl, refl))
      ]

  record_error-AtMostOne :
      (original : ProxyRequest http) (x : ProxyError) (duration : ℕ) (stamp : Stamp)
      (w : World http client medium)
      → AtMostOne w (record_error_exchange http client medium original x duration stamp w)
  unfolding record_error_exchange persist
  record_error-AtMostOne original x duration stamp w = elim (Bool-cases w.recorder.config.enabled) [
    | inl on ↦
        rw (if_false _ _ (ap not on))
          (inr (_, record { of_upstream = refl; enabled = on; taken = refl; index = inl refl }))
    | inr off ↦ rw (if_true _ _ (ap not off)) (inl (refl, refl))
  ]

  respond-AtMostOne :
      (env : Ambient) (original : ProxyRequest http) (o : Outcome http (World http client medium))
      → AtMostOne o.2 (respond http client medium env original o).1
  unfolding respond response_source
  respond-AtMostOne env original (ok resp, ctx, w) =
      record_success-AtMostOne original resp ctx.source env.elapsed env.stamp w
  respond-AtMostOne env original (err x, ctx, w) =
      record_error-AtMostOne original x env.elapsed env.stamp w

  Untouched-AtMostOne :
      (w v w' : World http client medium) → Untouched w v → AtMostOne v w' → AtMostOne w w'
  unfolding Untouched
  Untouched-AtMostOne w v w' (recorder, name, replay) (inl (a, b)) = inl (a ∙ recorder, b ∙ replay)
  Untouched-AtMostOne w v w' (recorder, name, replay) (inr (e, one)) = inr (
    e,
    record {
      of_upstream = one.of_upstream ∙ ap some name;
      enabled = rw recorder at one.enabled;
      taken = rw recorder at one.taken;
      index = rw replay at one.index;
    },
  )

  -- A request, whatever the middleware does with it, records nothing and changes no index, or it
  -- hands exactly one exchange of its upstream to the recorder, which is enabled; the live index, if
  -- there is one, is then as before or has that same exchange inserted.
  pub handle_request-AtMostOne :
      (env : Ambient) (head : ProxyRequest http) (body : Option Bytes)
      (w : World http client medium)
      → AtMostOne w (handle_request http client medium env head body w).1
  unfolding handle_request
  handle_request-AtMostOne env head none w =
      record_error-AtMostOne (record head { body = [] })
        (upstream_request "inbound body read failed") env.elapsed env.stamp w
  handle_request-AtMostOne env head (some body) w =
      let original = record head { body = body } in
      let ctx = new_context http env.id env.now in
      let o = run_chain http w.runtime.middleware (invoke http client medium) original ctx w in
      Untouched-AtMostOne w o.2 (respond http client medium env original o).1
        (chain-Untouched original ctx w) (respond-AtMostOne env original o)
