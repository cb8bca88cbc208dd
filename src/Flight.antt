-- ===== src/Flight.antt =====
-- crates/partly-proxy-lib/src/listener.rs: requests in flight at the same time. A request is the place
-- where its future waits; between two such places it runs alone. The shared state of a step is the
-- `World` of the listener: the stub store, the index and the recorder each have a lock of their own,
-- so a request that goes on from the stubs to the index, to the upstream and to the recorder lets
-- others in between. A delay of a stub is a request that is not picked for a while.
pub mod Sequential
pub mod Effect
pub mod Schedule
pub mod Recording
pub mod Indexing
pub mod Offline
pub mod Budget
pub mod Rank
pub mod Progress
use partly_proxy.Base.{
  ℕ, suc, zero, Bytes, Bool, not, Option, none, some, List, [], ◌∷◌, if◌then◌else◌,
}
use partly_proxy.Http.{Http}
use partly_proxy.Types.Error.{ProxyError, Result, ok, err, to_string, upstream_request}
use partly_proxy.Types.ProxyIo.{ProxyRequest, ProxyResponse, http_11}
use partly_proxy.Types.Recorded.{
  RecordedExchange, response, error, new_exchange, request_from_parts,
}
use partly_proxy.Types.Context.{
  RequestContext, ResponseSource, stub, snapshot, replay_miss, upstream, new_context, insert_source,
  response_source,
}
use partly_proxy.Config.{Mode, record_mode, replay_mode}
use partly_proxy.Storage.{SnapshotStorage}
use partly_proxy.Stub.{StubbedResponse, take_match, into_proxy}
use partly_proxy.Middleware.{Handling, finish, proceed, redact_request}
use partly_proxy.Middleware.Descent.{Behind, descend}
use partly_proxy.Forwarder.{Client, forward}
use partly_proxy.Listener.{
  World, Ambient, into_hyper, bad_gateway, build_recorded, consult, persist, promote, is_snapshot,
}

-- Where a request waits.
pub data Flight (http : Http) : Type 0 where
  -- At the pause gate, and for its body, which is `none` where its collection fails.
  at_gate : Ambient → ProxyRequest http → Option Bytes → Flight http
  -- For the lock of the stub store, with the original request, that of the terminal, and the rest of
  -- the chain.
  at_stubs :
      Ambient
      → ProxyRequest http
      → ProxyRequest http
      → RequestContext http
      → Behind http
      → Flight http
  -- In front of the lookup, where no stub matched.
  at_replay :
      Ambient
      → ProxyRequest http
      → ProxyRequest http
      → RequestContext http
      → Behind http
      → Flight http
  -- For the upstream, after a miss in record mode.
  at_upstream :
      Ambient
      → ProxyRequest http
      → ProxyRequest http
      → RequestContext http
      → Behind http
      → Flight http
  -- Behind the chain.
  at_end :
      Ambient → ProxyRequest http → Result (ProxyResponse http) → RequestContext http → Flight http
  -- For the lock of the recorder, with the exchange to record and the answer to give.
  at_recorder : RecordedExchange → ProxyResponse http → Flight http
  answered : ProxyResponse http → Flight http

module _ (http : Http) (client : Client http) (medium : SnapshotStorage) where
  abbrev pub Moved : Type 0
  Moved = Flight http × World http client medium

  -- The way back through the chain.
  unfoldable pub ascend :
      Ambient
      → ProxyRequest http
      → Behind http
      → Result (ProxyResponse http)
      → RequestContext http
      → Flight http
  ascend env original k res ctx = let (res', ctx') = k res ctx in at_end env original res' ctx'

  -- The way to the terminal, or to the end of the chain.
  unfoldable pub descended : Ambient → ProxyRequest http → Handling http → Flight http
  descended env original (finish res ctx) = at_end env original res ctx
  descended env original (proceed req ctx k) = at_stubs env original req ctx k

  -- `record_error_exchange` up to the recorder.
  unfoldable pub fail :
      Ambient → ProxyRequest http → ProxyError → World http client medium → Flight http
  unfolding bad_gateway redact_request request_from_parts to_string
  fail env original e w =
      if not w.recorder.config.enabled
      then answered (bad_gateway http e)
      else (let req =
            redact_request http w.runtime.middleware (record original { version = http_11 }) in
          at_recorder
            (new_exchange env.stamp (some w.runtime.name)
              (request_from_parts http req.method req.uri req.headers req.body)
              (error (to_string e)) env.elapsed)
            (bad_gateway http e))

  unfoldable pub start :
      Ambient → ProxyRequest http → Option Bytes → World http client medium → Flight http
  unfolding fail descended descend
  start env head none w =
      fail env (record head { body = [] }) (upstream_request "inbound body read failed") w
  start env head (some body) w =
      let original = record head { body = body } in
      descended env original
        (descend http w.runtime.middleware original (new_context http env.id env.now))

  -- The step behind the lock of the stubs.
  unfoldable pub scanned :
      Ambient
      → ProxyRequest http
      → ProxyRequest http
      → RequestContext http
      → Behind http
      → Option (StubbedResponse × Option ℕ)
      → Flight http
  unfolding ascend insert_source
  scanned env original req ctx k none = at_replay env original req ctx k
  scanned env original req ctx k (some (canned, delay)) =
      ascend env original k (ok (into_proxy http canned)) (insert_source http ctx stub)

  -- The terminal miss: the answer of the handler, or the way to the upstream, which is marked first.
  unfoldable pub missed :
      Ambient
      → ProxyRequest http
      → ProxyRequest http
      → RequestContext http
      → Behind http
      → Mode
      → World http client medium
      → Flight http
  unfolding ascend insert_source
  missed env original req ctx k replay_mode w =
      ascend env original k (ok (w.runtime.replay_miss_handler req))
        (insert_source http ctx replay_miss)
  missed env original req ctx k record_mode w =
      at_upstream env original req (insert_source http ctx upstream) k

  unfoldable pub looked_up :
      Ambient
      → ProxyRequest http
      → ProxyRequest http
      → RequestContext http
      → Behind http
      → Option (ProxyResponse http)
      → World http client medium
      → Flight http
  unfolding missed ascend insert_source
  looked_up env original req ctx k (some resp) w =
      ascend env original k (ok resp) (insert_source http ctx snapshot)
  looked_up env original req ctx k none w = missed env original req ctx k w.runtime.mode w

  -- `record_success_exchange` up to the recorder, with the promotion into the index.
  unfoldable pub succeed :
      Ambient
      → ProxyRequest http
      → ProxyResponse http
      → Option ResponseSource
      → World http client medium
      → Moved
  unfolding into_hyper build_recorded promote
  succeed env original final source w =
      if not w.recorder.config.enabled
      then (answered (into_hyper http final), w)
      else if is_snapshot http client medium source
      then (answered (into_hyper http final), w)
      else (let (req, resp) = build_recorded http w.runtime original final in
          let e = new_exchange env.stamp (some w.runtime.name) req (response resp) env.elapsed in
          (at_recorder e (into_hyper http final), promote http client medium source e w))

  unfoldable pub concluded :
      Ambient
      → ProxyRequest http
      → Result (ProxyResponse http)
      → RequestContext http
      → World http client medium
      → Moved
  unfolding succeed fail response_source
  concluded env original (ok final) ctx w = succeed env original final (response_source http ctx) w
  concluded env original (err e) ctx w = (fail env original e w, w)

  -- One step of a request.
  unfoldable pub advance : Flight http → World http client medium → Moved
  unfolding start scanned looked_up ascend concluded consult persist
  advance (at_gate env head body) w =
      if w.runtime.pause then (at_gate env head body, w) else (start env head body w, w)
  advance (at_stubs env original req ctx k) w =
      let (found, stubs) = take_match http req w.runtime.stubs in
      (
        scanned env original req ctx k found,
        record w { runtime = record w.runtime { stubs = stubs } },
      )
  advance (at_replay env original req ctx k) w = (
    looked_up env original req ctx k
        (consult http client medium w.runtime.replay req w.runtime.middleware) w,
    w,
  )
  advance (at_upstream env original req ctx k) w =
      let (res, net) = forward http client w.runtime.forwarder req w.net in
      (ascend env original k res ctx, record w { net = net })
  advance (at_end env original res ctx) w = concluded env original res ctx w
  advance (at_recorder e resp) w = (answered resp, persist http client medium e w)
  advance (answered resp) w = (answered resp, w)

  -- So many steps of one request, with no other in between.
  unfoldable pub settle : ℕ → Flight http → World http client medium → Moved
  unfolding advance
  settle zero f w = (f, w)
  settle (suc n) f w = let (f', w') = advance f w in settle n f' w'
