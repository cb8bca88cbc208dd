-- ===== src/Flight/Sequential.antt =====
-- A request that nothing interrupts: its steps against `handle_request`, which stands for the whole
-- life of a request in the modules of the listener.
use partly_proxy.Base.{
  ℕ, suc, zero, Bytes, false, not, Option, none, some, [], ◌≡◌, refl, ap, ◌∙◌, inl, inr, Bool-cases,
  if_false,
}
use partly_proxy.Http.{Http}
use partly_proxy.Types.Error.{ProxyError, Result, ok, err, upstream_request}
use partly_proxy.Types.ProxyIo.{ProxyRequest, ProxyResponse}
use partly_proxy.Types.Context.{
  RequestContext, stub, snapshot, replay_miss, upstream, insert_source, new_context,
  response_source,
}
use partly_proxy.Config.{Mode, record_mode, replay_mode}
use partly_proxy.Storage.{SnapshotStorage}
use partly_proxy.Stub.{StubbedResponse, take_match, into_proxy}
use partly_proxy.Middleware.{Handling, finish, proceed, after, run_handling}
use partly_proxy.Middleware.Descent.{Behind, descend, run_handling-descend}
use partly_proxy.Forwarder.{Client, forward}
use partly_proxy.Listener.{
  World, Ambient, respond, invoke, on_stub, on_replay, on_miss, consult, handle_request,
  is_snapshot, record_success_exchange, record_error_exchange, persist,
}
use partly_proxy.Flight.{
  at_gate, at_upstream, at_end, answered, Moved, ascend, descended, fail, start, scanned, missed,
  looked_up, succeed, concluded, advance, settle,
}

module _ (http : Http) (client : Client http) (medium : SnapshotStorage) where
  -- A request that is through.
  abbrev through : ProxyResponse http × World http client medium → Moved http client medium
  through (resp, w) = (answered resp, w)

  settle-answered :
      (n : ℕ) (resp : ProxyResponse http) (w : World http client medium)
      → settle http client medium n (answered resp) w ≡ (answered resp, w)
  unfolding settle advance
  settle-answered zero resp w = refl
  settle-answered (suc n) resp w = settle-answered n resp w

  settle-fail :
      (n : ℕ) (env : Ambient) (original : ProxyRequest http) (e : ProxyError)
      (ctx : RequestContext http) (w : World http client medium)
      → settle http client medium (suc n) (fail http client medium env original e w) w
        ≡ through (respond http client medium env original (err e, ctx, w))
  unfolding settle advance fail respond record_error_exchange persist
  settle-fail n env original e ctx w = elim (Bool-cases w.recorder.config.enabled) [
    | inl on ↦ rw (on, not) (settle-answered n _ _)
    | inr off ↦ rw (off, not) (settle-answered n _ _)
  ]

  settle-succeed :
      (n : ℕ) (env : Ambient) (original : ProxyRequest http) (final : ProxyResponse http)
      (ctx : RequestContext http) (w : World http client medium)
      → let (f, w') = succeed http client medium env original final (response_source http ctx) w in
        settle http client medium (suc n) f w'
        ≡ through (respond http client medium env original (ok final, ctx, w))
  unfolding settle advance succeed respond record_success_exchange persist
  settle-succeed n env original final ctx w = elim (Bool-cases w.recorder.config.enabled) [
    | inl on ↦ elim (Bool-cases (is_snapshot http client medium (response_source http ctx))) [
      | inl hit ↦ rw (on, not, hit) (settle-answered n _ _)
      | inr live ↦ rw (on, not, live) (settle-answered n _ _)
    ]
    | inr off ↦ rw (off, not) (settle-answered n _ _)
  ]

  settle-at_end :
      (n : ℕ) (env : Ambient) (original : ProxyRequest http) (res : Result (ProxyResponse http))
      (ctx : RequestContext http) (w : World http client medium)
      → settle http client medium (suc (suc n)) (at_end env original res ctx) w
        ≡ through (respond http client medium env original (res, ctx, w))
  unfolding settle advance concluded
  settle-at_end n env original (ok final) ctx w = settle-succeed n env original final ctx w
  settle-at_end n env original (err e) ctx w = settle-fail n env original e ctx w

  settle-at_upstream :
      (n : ℕ) (env : Ambient) (original req : ProxyRequest http) (ctx : RequestContext http)
      (k : Behind http) (w : World http client medium)
      → let (res, net) = forward http client w.runtime.forwarder req w.net in
        settle http client medium (suc (suc (suc n))) (at_upstream env original req ctx k) w
        ≡ through (
            respond http client medium env original
              (after http k (res, ctx, record w { net = net })))
  unfolding settle advance ascend
  settle-at_upstream n env original req ctx k w =
      let (res, net) = forward http client w.runtime.forwarder req w.net in
      let (res', ctx') = k res ctx in
      settle-at_end n env original res' ctx' (record w { net = net })

  settle-missed :
      (n : ℕ) (env : Ambient) (original req : ProxyRequest http) (ctx : RequestContext http)
      (k : Behind http) (m : Mode) (w : World http client medium)
      → settle http client medium
          (suc (suc (suc n)))
          (missed http client medium env original req ctx k m w)
          w
        ≡ through (
            respond http client medium env original
              (after http k (on_miss http client medium m req ctx w)))
  unfolding missed on_miss ascend
  settle-missed n env original req ctx k replay_mode w =
      let (res', ctx') =
        k (ok (w.runtime.replay_miss_handler req)) (insert_source http ctx replay_miss) in
      settle-at_end (suc n) env original res' ctx' w
  settle-missed n env original req ctx k record_mode w =
      settle-at_upstream n env original req (insert_source http ctx upstream) k w

  settle-looked_up :
      (n : ℕ) (env : Ambient) (original req : ProxyRequest http) (ctx : RequestContext http)
      (k : Behind http) (o : Option (ProxyResponse http)) (w : World http client medium)
      → settle http client medium
          (suc (suc (suc n)))
          (looked_up http client medium env original req ctx k o w)
          w
        ≡ through (
            respond http client medium env original
              (after http k (on_replay http client medium o req ctx w)))
  unfolding looked_up on_replay ascend
  settle-looked_up n env original req ctx k (some resp) w =
      let (res', ctx') = k (ok resp) (insert_source http ctx snapshot) in
      settle-at_end (suc n) env original res' ctx' w
  settle-looked_up n env original req ctx k none w =
      settle-missed n env original req ctx k w.runtime.mode w

  settle-scanned :
      (n : ℕ) (env : Ambient) (original req : ProxyRequest http) (ctx : RequestContext http)
      (k : Behind http) (o : Option (StubbedResponse × Option ℕ)) (w : World http client medium)
      → settle http client medium
          (suc (suc (suc (suc n))))
          (scanned http client medium env original req ctx k o)
          w
        ≡ through (
            respond http client medium env original
              (after http k (on_stub http client medium o req ctx w)))
  unfolding scanned on_stub ascend settle advance
  settle-scanned n env original req ctx k none w =
      settle-looked_up n env original req ctx k
        (consult http client medium w.runtime.replay req w.runtime.middleware) w
  settle-scanned n env original req ctx k (some (canned, delay)) w =
      let (res', ctx') = k (ok (into_proxy http canned)) (insert_source http ctx stub) in
      settle-at_end (suc (suc n)) env original res' ctx' w

  settle-descended :
      (n : ℕ) (env : Ambient) (original : ProxyRequest http) (h : Handling http)
      (w : World http client medium)
      → settle http client medium
          (suc (suc (suc (suc (suc n)))))
          (descended http client medium env original h)
          w
        ≡ through (
            respond http client medium env original
              (run_handling http h (invoke http client medium) w))
  unfolding descended settle advance invoke
  settle-descended n env original (finish res ctx) w =
      settle-at_end (suc (suc (suc n))) env original res ctx w
  settle-descended n env original (proceed req ctx k) w =
      let (found, stubs) = take_match http req w.runtime.stubs in
      settle-scanned n env original req ctx k found
        (record w { runtime = record w.runtime { stubs = stubs } })

  settle-start :
      (n : ℕ) (env : Ambient) (head : ProxyRequest http) (body : Option Bytes)
      (w : World http client medium)
      → settle http client medium
          (suc (suc (suc (suc (suc n)))))
          (start http client medium env head body w)
          w
        ≡ through (handle_request http client medium env head body w)
  unfolding start handle_request
  settle-start n env head none w =
      settle-fail (suc (suc (suc (suc n)))) env (record head { body = [] })
        (upstream_request "inbound body read failed") (new_context http env.id env.now) w
  settle-start n env head (some body) w =
      let original = record head { body = body } in
      let ctx = new_context http env.id env.now in
      settle-descended n env original (descend http w.runtime.middleware original ctx) w
      ∙ ap (λ o. through (respond http client medium env original o))
          (run_handling-descend http (invoke http client medium) w w.runtime.middleware original
            ctx)

  -- An upstream that is not paused answers a request that no other interrupts within six steps,
  -- whatever its middleware, stubs, index and recorder are, and the answer and the state behind it
  -- are those of `handle_request`.
  settle-handle_request :
      (env : Ambient) (head : ProxyRequest http) (body : Option Bytes)
      (w : World http client medium)
      → w.runtime.pause ≡ false
      → let (resp, w') = handle_request http client medium env head body w in
        settle http client medium 6 (at_gate env head body) w ≡ (answered resp, w')
  unfolding settle advance
  settle-handle_request env head body w running =
      ap (λ (m : Moved http client medium). settle http client medium 5 m.0 m.1)
        (if_false _ _ running)
      ∙ settle-start 0 env head body w
