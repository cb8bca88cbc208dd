-- ===== src/Flight/Rank.antt =====
-- How far a request in flight is from its answer, and that each of its steps brings it closer.
use partly_proxy.Base.{
  ℕ, ◌-◌, ◌≤◌, arith, Option, none, some, [], ◌≡◌, refl, ap, inl, inr, Bool-cases, not, if_true,
  if_false, ◌⊎◌, false, Bytes,
}
use partly_proxy.Http.{Http}
use partly_proxy.Types.Error.{ok, err, ProxyError, upstream_request}
use partly_proxy.Types.ProxyIo.{ProxyRequest, ProxyResponse}
use partly_proxy.Types.Context.{RequestContext, ResponseSource, response_source, new_context}
use partly_proxy.Config.{Mode, record_mode, replay_mode}
use partly_proxy.Storage.{SnapshotStorage}
use partly_proxy.Stub.{StubbedResponse, take_match}
use partly_proxy.Middleware.Descent.{Behind, descend}
use partly_proxy.Middleware.{Handling, finish, proceed}
use partly_proxy.Forwarder.{Client}
use partly_proxy.Listener.{World, Ambient, is_snapshot, consult}
use partly_proxy.Flight.{
  Flight, at_gate, at_stubs, at_replay, at_upstream, at_end, at_recorder, answered, fail, scanned,
  missed, looked_up, succeed, concluded, advance, ascend, start, descended,
}

module _ (http : Http) where
  -- How many steps of its own are in front of a request, at most.
  abbrev pub rank : Flight http → ℕ
  rank (at_gate env head body) = 6
  rank (at_stubs env original req ctx k) = 5
  rank (at_replay env original req ctx k) = 4
  rank (at_upstream env original req ctx k) = 3
  rank (at_end env original res ctx) = 2
  rank (at_recorder e resp) = 1
  rank (answered resp) = 0

module _ (http : Http) (client : Client http) (medium : SnapshotStorage) where
  rank-fail :
      (env : Ambient) (original : ProxyRequest http) (e : ProxyError) (w : World http client medium)
      → rank http (fail http client medium env original e w) ≤ 1
  unfolding fail
  rank-fail env original e w = elim (Bool-cases w.recorder.config.enabled) [
    | inl on ↦ rw (if_false _ _ (ap not on)) (omega arith)
    | inr off ↦ rw (if_true _ _ (ap not off)) (omega arith)
  ]

  rank-succeed :
      (env : Ambient) (original : ProxyRequest http) (final : ProxyResponse http)
      (source : Option ResponseSource) (w : World http client medium)
      → rank http (succeed http client medium env original final source w).0 ≤ 1
  unfolding succeed
  rank-succeed env original final source w = elim (Bool-cases w.recorder.config.enabled) [
    | inl on ↦ elim (Bool-cases (is_snapshot http client medium source)) [
      | inl hit ↦ rw (if_false _ _ (ap not on), if_true _ _ hit) (omega arith)
      | inr live ↦ rw (if_false _ _ (ap not on), if_false _ _ live) (omega arith)
    ]
    | inr off ↦ rw (if_true _ _ (ap not off)) (omega arith)
  ]

  rank-missed :
      (env : Ambient) (original req : ProxyRequest http) (ctx : RequestContext http)
      (k : Behind http) (m : Mode) (w : World http client medium)
      → rank http (missed http client medium env original req ctx k m w) ≤ 3
  unfolding missed ascend
  rank-missed env original req ctx k record_mode w = omega arith
  rank-missed env original req ctx k replay_mode w = omega arith

  rank-looked_up :
      (env : Ambient) (original req : ProxyRequest http) (ctx : RequestContext http)
      (k : Behind http) (o : Option (ProxyResponse http)) (w : World http client medium)
      → rank http (looked_up http client medium env original req ctx k o w) ≤ 3
  unfolding looked_up ascend
  rank-looked_up env original req ctx k (some resp) w = omega arith
  rank-looked_up env original req ctx k none w = rank-missed env original req ctx k w.runtime.mode w

  rank-scanned :
      (env : Ambient) (original req : ProxyRequest http) (ctx : RequestContext http)
      (k : Behind http) (o : Option (StubbedResponse × Option ℕ))
      → rank http (scanned http client medium env original req ctx k o) ≤ 4
  unfolding scanned ascend
  rank-scanned env original req ctx k none = omega arith
  rank-scanned env original req ctx k (some found) = omega arith

  rank-descended :
      (env : Ambient) (original : ProxyRequest http) (h : Handling http)
      → rank http (descended http client medium env original h) ≤ 5
  unfolding descended
  rank-descended env original (finish res ctx) = omega arith
  rank-descended env original (proceed req ctx k) = omega arith

  rank-start :
      (env : Ambient) (head : ProxyRequest http) (body : Option Bytes)
      (w : World http client medium)
      → rank http (start http client medium env head body w) ≤ 5
  unfolding start
  rank-start env head none w =
      let few =
        rank-fail env (record head { body = [] }) (upstream_request "inbound body read failed") w in
      omega arith
  rank-start env head (some body) w =
      let original = record head { body = body } in
      rank-descended env original
        (descend http w.runtime.middleware original (new_context http env.id env.now))

  pub rank-advance :
      (f : Flight http) (w : World http client medium)
      → (rank http f ≤ 5) ⊎ (w.runtime.pause ≡ false)
      → rank http (advance http client medium f w).0 ≤ rank http f - 1
  unfolding advance concluded ascend
  rank-advance (at_gate env head body) w (inl past) = absurd (omega arith)
  rank-advance (at_gate env head body) w (inr running) =
      rw (if_false _ _ running) (rank-start env head body w)
  rank-advance (at_stubs env original req ctx k) w h =
      rank-scanned env original req ctx k (take_match http req w.runtime.stubs).0
  rank-advance (at_replay env original req ctx k) w h =
      rank-looked_up env original req ctx k
        (consult http client medium w.runtime.replay req w.runtime.middleware) w
  rank-advance (at_upstream env original req ctx k) w h = omega arith
  rank-advance (at_end env original (ok final) ctx) w h =
      rank-succeed env original final (response_source http ctx) w
  rank-advance (at_end env original (err x) ctx) w h = rank-fail env original x w
  rank-advance (at_recorder e resp) w h = omega arith
  rank-advance (answered resp) w h = omega arith

  pub rank_zero :
      (f : Flight http) → rank http f ≤ 0 → (resp : ProxyResponse http) × (f ≡ answered resp)
  rank_zero (at_gate env head body) h = absurd (omega arith)
  rank_zero (at_stubs env original req ctx k) h = absurd (omega arith)
  rank_zero (at_replay env original req ctx k) h = absurd (omega arith)
  rank_zero (at_upstream env original req ctx k) h = absurd (omega arith)
  rank_zero (at_end env original res ctx) h = absurd (omega arith)
  rank_zero (at_recorder e resp) h = absurd (omega arith)
  rank_zero (answered resp) h = (resp, refl)
