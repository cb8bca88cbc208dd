-- ===== src/Listener.antt =====
-- crates/partly-proxy-lib/src/listener.rs: the life of one request. The state is the upstream's
-- runtime, the shared recorder and the network behind the forwarder; the time that passes, the
-- identifiers and the artificial delay of a stub are inputs, or left out where nothing depends on
-- them.
pub mod Gate
pub mod Accepting
pub mod Network
pub mod Records
pub mod Replayed
pub mod Answers
use partly_proxy.Base.{
  ℕ, String, Bytes, Bool, true, false, not, Option, none, some, List, [], ◌∷◌, if◌then◌else◌,
  apply_some, as_bytes,
}
use partly_proxy.Http.{Http}
use partly_proxy.Types.Error.{
  ProxyError, Result, ok, err, to_string, bind, upstream_connect, upstream_request, middleware,
  command, recording, tls, unknown_upstream, shutdown, other,
}
use partly_proxy.Types.ProxyIo.{ProxyRequest, ProxyResponse, Version, http_11}
use partly_proxy.Types.Recorded.{
  Stamp, RecordedRequest, RecordedResponse, RecordedExchange, ExchangeOutcome, response, error,
  new_exchange, request_from_parts, response_from_parts,
}
use partly_proxy.Types.Context.{
  RequestContext, ResponseSource, stub, snapshot, replay_miss, upstream, new_context, insert_source,
  response_source,
}
use partly_proxy.Config.{Mode, record_mode, replay_mode}
use partly_proxy.Storage.{SnapshotStorage}
use partly_proxy.Stub.{StubbedResponse, take_match, into_proxy}
use partly_proxy.Middleware.{
  ProxyMiddleware, Outcome, Terminal, run_chain, redact_request, redact_response,
}
use partly_proxy.Forwarder.{Client, forward, strip_framing}
use partly_proxy.Recorder.{Recorder, record_exchange}
use partly_proxy.Replay
use partly_proxy.Replay.{ReplayState}
use partly_proxy.Upstream.{UpstreamRuntime}

pub record World (http : Http) (client : Client http) (medium : SnapshotStorage) : Type 0 where
  pub runtime : UpstreamRuntime http
  pub recorder : Recorder medium
  pub net : client.Net

-- What the environment supplies for one request: the identifiers and times.
pub record Ambient : Type 0 where
  pub id : ℕ
  pub now : ℕ
  pub elapsed : ℕ
  pub stamp : Stamp

-- `error_kind`
unfoldable pub error_kind : ProxyError → String
error_kind (bind e) = "bind"
error_kind (upstream_connect c) = "upstream-connect"
error_kind (upstream_request c) = "upstream-request"
error_kind (middleware e) = "middleware"
error_kind (command m) = "command"
error_kind (recording e) = "recording"
error_kind (tls m) = "tls"
error_kind (unknown_upstream n) = "unknown-upstream"
error_kind (shutdown m) = "shutdown"
error_kind (other e) = "other"

module _ (http : Http) where
  -- `into_hyper`
  unfoldable pub into_hyper : ProxyResponse http → ProxyResponse http
  into_hyper resp = record resp {
    headers = http.remove (http.remove resp.headers "content-length") "transfer-encoding";
  }

  -- `bad_gateway`
  unfoldable pub bad_gateway : ProxyError → ProxyResponse http
  unfolding to_string error_kind as_bytes
  bad_gateway e = record {
    status = 502;
    headers =
        http.insert
          (http.insert http.no_headers "content-type" (as_bytes "text/plain; charset=utf-8"))
          "x-proxy-error" (as_bytes (error_kind e));
    body = as_bytes (to_string e);
    version = http_11;
  }

  -- `build_recorded`: the original request and the final response, redacted.
  unfoldable pub build_recorded :
      UpstreamRuntime http
      → ProxyRequest http
      → ProxyResponse http
      → RecordedRequest × RecordedResponse
  unfolding redact_request redact_response request_from_parts response_from_parts
  build_recorded runtime original final =
      let req = redact_request http runtime.middleware original in
      let resp = redact_response http runtime.middleware final in
      (
        request_from_parts http req.method req.uri req.headers req.body,
        response_from_parts http resp.status resp.headers resp.body,
      )

module _ (http : Http) (client : Client http) (medium : SnapshotStorage) where
  -- The arms of the terminal, from the last to the first.
  unfoldable pub on_miss : Mode → Terminal http (World http client medium)
  on_miss replay_mode req ctx w =
      (ok (w.runtime.replay_miss_handler req), insert_source http ctx replay_miss, w)
  on_miss record_mode req ctx w =
      let (res, net) = forward http client w.runtime.forwarder req w.net in
      (res, insert_source http ctx upstream, record w { net = net })

  unfoldable pub consult :
      Option ReplayState
      → ProxyRequest http
      → List (ProxyMiddleware http)
      → Option (ProxyResponse http)
  consult none req chain = none
  consult (some source) req chain = Replay.lookup http source req chain

  unfoldable pub on_replay : Option (ProxyResponse http) → Terminal http (World http client medium)
  unfolding on_miss
  on_replay (some resp) req ctx w = (ok resp, insert_source http ctx snapshot, w)
  on_replay none req ctx w = on_miss w.runtime.mode req ctx w

  unfoldable pub on_stub :
      Option (StubbedResponse × Option ℕ) → Terminal http (World http client medium)
  unfolding on_replay consult
  on_stub (some (canned, delay)) req ctx w =
      (ok (into_proxy http canned), insert_source http ctx stub, w)
  on_stub none req ctx w = on_replay (consult w.runtime.replay req w.runtime.middleware) req ctx w

  -- `LiveTerminal::invoke`
  unfoldable pub invoke : Terminal http (World http client medium)
  unfolding on_stub insert_source
  invoke req ctx w =
      let (found, stubs) = take_match http req w.runtime.stubs in
      on_stub found req ctx (record w { runtime = record w.runtime { stubs = stubs } })

  -- An error of the recorder is only logged.
  unfoldable pub persist : RecordedExchange → World http client medium → World http client medium
  persist e w = record w { recorder = (record_exchange medium w.recorder e).1 }

  -- Only a forwarded exchange is promoted into the live index.
  unfoldable pub promote :
      Option ResponseSource → RecordedExchange → World http client medium → World http client medium
  promote (some upstream) e w =
      apply_some w.runtime.replay
        (λ state (w' : World http client medium). record w' {
          runtime = record w'.runtime { replay = some (Replay.insert http e state) };
        })
        w
  promote _ e w = w

  abbrev pub is_snapshot : Option ResponseSource → Bool
  is_snapshot (some snapshot) = true
  is_snapshot _ = false

  -- `record_success_exchange`
  unfoldable pub record_success_exchange :
      ProxyRequest http
      → ProxyResponse http
      → Option ResponseSource
      → ℕ
      → Stamp
      → World http client medium
      → World http client medium
  unfolding build_recorded persist promote
  record_success_exchange original final source duration stamp w =
      if not w.recorder.config.enabled
      then w
      else if is_snapshot source
      then w
      else (let (req, resp) = build_recorded http w.runtime original final in
          let e = new_exchange stamp (some w.runtime.name) req (response resp) duration in
          persist e (promote source e w))

  -- `record_error_exchange`, with `persist_exchange`.
  unfoldable pub record_error_exchange :
      ProxyRequest http
      → ProxyError
      → ℕ
      → Stamp
      → World http client medium
      → World http client medium
  unfolding persist redact_request request_from_parts to_string
  record_error_exchange original e duration stamp w =
      if not w.recorder.config.enabled
      then w
      else (let req =
            redact_request http w.runtime.middleware (record original { version = http_11 }) in
          persist
            (new_exchange stamp (some w.runtime.name)
              (request_from_parts http req.method req.uri req.headers req.body)
              (error (to_string e)) duration)
            w)

  -- What follows the chain: the record of the exchange and the response to the caller.
  unfoldable pub respond :
      Ambient
      → ProxyRequest http
      → Outcome http (World http client medium)
      → ProxyResponse http × World http client medium
  unfolding into_hyper bad_gateway record_success_exchange record_error_exchange
  respond env original (ok resp, ctx, w) = (
    into_hyper http resp,
    record_success_exchange original resp (response_source http ctx) env.elapsed env.stamp w,
  )
  respond env original (err e, ctx, w) =
      (bad_gateway http e, record_error_exchange original e env.elapsed env.stamp w)

  -- `handle_request` behind the pause gate. The body of the request is `none` where its collection
  -- failed; the other fields are those of the head.
  unfoldable pub handle_request :
      Ambient
      → ProxyRequest http
      → Option Bytes
      → World http client medium
      → ProxyResponse http × World http client medium
  unfolding respond
  handle_request env head none w =
      let e = upstream_request "inbound body read failed" in
      (
        bad_gateway http e,
        record_error_exchange (record head { body = [] }) e env.elapsed env.stamp w,
      )
  handle_request env head (some body) w =
      let original = record head { body = body } in
      respond env original
        (run_chain http w.runtime.middleware invoke original (new_context http env.id env.now) w)
