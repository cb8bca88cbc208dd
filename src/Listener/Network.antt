-- ===== src/Listener/Network.antt =====
-- When a request reaches the upstream.
use partly_proxy.Base.{ℕ, arith, ap, Option, none, some, Bytes, ◌≡◌, refl, ◌⊎◌, inl, inr, ◌∙◌}
use partly_proxy.Http.{Http}
use partly_proxy.Types.Error.{ok, err}
use partly_proxy.Types.ProxyIo.{ProxyRequest, ProxyResponse}
use partly_proxy.Types.Recorded.{Stamp}
use partly_proxy.Types.Context.{RequestContext, ResponseSource, new_context, response_source}
use partly_proxy.Config.{Mode, record_mode, replay_mode}
use partly_proxy.Storage.{SnapshotStorage}
use partly_proxy.Stub.{StubbedResponse, take_match}
use partly_proxy.Middleware.{Outcome, run_chain}
use partly_proxy.Middleware.Chain.{run_chain_once}
use partly_proxy.Forwarder.{Client, forward}
use partly_proxy.Listener.{
  World, Ambient, invoke, on_stub, on_replay, on_miss, consult, respond, handle_request,
  record_success_exchange, record_error_exchange, persist, promote,
}

module _ (http : Http) (client : Client http) (medium : SnapshotStorage) where
  -- The request went out, once: the upstream is in record mode, no stub matches the request and the
  -- replay source, where there is one, has no answer.
  pub record Forwards (w : World http client medium) (req : ProxyRequest http) (net : client.Net)
      : Type 0 where
    pub in_record_mode : w.runtime.mode ≡ record_mode
    pub no_stub : (take_match http req w.runtime.stubs).0 ≡ none
    pub no_snapshot : consult http client medium w.runtime.replay req w.runtime.middleware ≡ none
    pub sent : net ≡ (forward http client w.runtime.forwarder req w.net).1

  on_miss_net :
      (m : Mode) (req : ProxyRequest http) (ctx : RequestContext http)
      (w : World http client medium)
      → ((on_miss http client medium m req ctx w).2.net ≡ w.net)
        ⊎ ((m ≡ record_mode)
            × ((on_miss http client medium m req ctx w).2.net
                ≡ (forward http client w.runtime.forwarder req w.net).1))
  unfolding on_miss
  on_miss_net replay_mode req ctx w = inl refl
  on_miss_net record_mode req ctx w = inr (refl, refl)

  on_replay_net :
      (o : Option (ProxyResponse http)) (req : ProxyRequest http) (ctx : RequestContext http)
      (w : World http client medium)
      → ((on_replay http client medium o req ctx w).2.net ≡ w.net)
        ⊎ ((o ≡ none)
            × (w.runtime.mode ≡ record_mode)
            × ((on_replay http client medium o req ctx w).2.net
                ≡ (forward http client w.runtime.forwarder req w.net).1))
  unfolding on_replay
  on_replay_net (some resp) req ctx w = inl refl
  on_replay_net none req ctx w = elim (on_miss_net w.runtime.mode req ctx w) [
    | inl same ↦ inl same
    | inr (mode, sent) ↦ inr (refl, mode, sent)
  ]

  on_stub_net :
      (o : Option (StubbedResponse × Option ℕ)) (req : ProxyRequest http)
      (ctx : RequestContext http) (w : World http client medium)
      → ((on_stub http client medium o req ctx w).2.net ≡ w.net)
        ⊎ ((o ≡ none)
            × (consult http client medium w.runtime.replay req w.runtime.middleware ≡ none)
            × (w.runtime.mode ≡ record_mode)
            × ((on_stub http client medium o req ctx w).2.net
                ≡ (forward http client w.runtime.forwarder req w.net).1))
  unfolding on_stub
  on_stub_net (some (canned, delay)) req ctx w = inl refl
  on_stub_net none req ctx w =
      elim (on_replay_net (consult http client medium w.runtime.replay req w.runtime.middleware) req
        ctx w) [ inl same ↦ inl same | inr (missed, mode, sent) ↦ inr (refl, missed, mode, sent) ]

  invoke_net :
      (req : ProxyRequest http) (ctx : RequestContext http) (w : World http client medium)
      → ((invoke http client medium req ctx w).2.net ≡ w.net)
        ⊎ Forwards w req (invoke http client medium req ctx w).2.net
  unfolding invoke
  invoke_net req ctx w =
      let (found, stubs) = take_match http req w.runtime.stubs in
      elim (on_stub_net found req ctx (record w { runtime = record w.runtime { stubs = stubs } })) [
        | inl same ↦ inl same
        | inr (unmatched, missed, mode, sent) ↦ inr (record {
          in_record_mode = mode;
          no_stub = unmatched;
          no_snapshot = missed;
          sent = sent;
        })
      ]

  record_success_net :
      (original : ProxyRequest http) (final : ProxyResponse http) (source : Option ResponseSource)
      (duration : ℕ) (stamp : Stamp) (w : World http client medium)
      → (record_success_exchange http client medium original final source duration stamp w).net
        ≡ w.net
  unfolding record_success_exchange persist promote
  record_success_net original final source duration stamp w = ground arith

  respond_net :
      (env : Ambient) (original : ProxyRequest http) (o : Outcome http (World http client medium))
      → (respond http client medium env original o).1.net ≡ o.2.net
  unfolding respond record_error_exchange persist response_source
  respond_net env original (ok resp, ctx, w) =
      record_success_net original resp ctx.source env.elapsed env.stamp w
  respond_net env original (err e, ctx, w) = ground arith

  pub handle_request-Forwards :
      (env : Ambient) (head : ProxyRequest http) (body : Option Bytes)
      (w : World http client medium)
      → let net = (handle_request http client medium env head body w).1.net in
        (net ≡ w.net) ⊎ ((req : ProxyRequest http) × Forwards w req net)
  unfolding handle_request record_error_exchange persist
  handle_request-Forwards env head none w = inl (ground arith)
  handle_request-Forwards env head (some body) w =
      let original = record head { body = body } in
      let ctx = new_context http env.id env.now in
      let o = run_chain http w.runtime.middleware (invoke http client medium) original ctx w in
      elim (run_chain_once http w.runtime.middleware (invoke http client medium) original ctx w) [
        | inl untouched ↦
            inl
              (respond_net env original o ∙ ap (λ (s : World http client medium). s.net) untouched)
        | inr (req, c, ran) ↦
            let e = respond_net env original o ∙ ap (λ (s : World http client medium). s.net) ran in
            elim (invoke_net req c w) [
              | inl same ↦ inl (e ∙ same)
              | inr goes ↦ inr (req, rw e goes)
            ]
      ]

  -- In replay mode no request ever reaches the upstream, whatever the stubs, the index, the
  -- middleware and the body are.
  handle_request_offline :
      (env : Ambient) (head : ProxyRequest http) (body : Option Bytes)
      (w : World http client medium)
      → w.runtime.mode ≡ replay_mode
      → (handle_request http client medium env head body w).1.net ≡ w.net
  handle_request_offline env head body w h = elim (handle_request-Forwards env head body w) [
    | inl same ↦ same
    | inr (req, goes) ↦ absurd (cc goes.in_record_mode)
  ]
