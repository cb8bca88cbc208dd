-- ===== src/Flight/Offline.antt =====
-- An upstream in replay mode and its forwarder, with requests in flight at the same time.
use partly_proxy.Base.{
  ℕ, zero, suc, Bytes, Option, none, some, List, [], ◌∷◌, ◌≡◌, refl, ◌∙◌, inl, inr, All, All-append,
  Bool-cases, not, if_true, if_false, ap,
}
use partly_proxy.Http.{Http}
use partly_proxy.Types.Error.{ok, err, ProxyError, upstream_request}
use partly_proxy.Types.ProxyIo.{ProxyRequest, ProxyResponse}
use partly_proxy.Types.Context.{RequestContext, ResponseSource, new_context, response_source}
use partly_proxy.Config.{replay_mode}
use partly_proxy.Storage.{SnapshotStorage}
use partly_proxy.Stub.{StubbedResponse, take_match}
use partly_proxy.Middleware.{Handling, finish, proceed}
use partly_proxy.Middleware.Descent.{Behind, descend}
use partly_proxy.Forwarder.{Client}
use partly_proxy.Listener.{World, Ambient, is_snapshot, consult}
use partly_proxy.Flight.{
  Flight, at_gate, at_stubs, at_replay, at_upstream, at_end, at_recorder, answered, descended, fail,
  start, scanned, missed, looked_up, succeed, concluded, advance, ascend,
}
use partly_proxy.Flight.Effect.{IsAtUpstream, advance-Effect}
use partly_proxy.Flight.Schedule.{
  Choice, arrive, go_on, set_pause, add_stub, clear_stubs, clear_recordings, elsewhere, System,
  pick, perform, run,
}

module _ (http : Http) where
  abbrev pub IsLocal : Flight http → Type 0
  IsLocal f = ¬ IsAtUpstream http f

module _ (http : Http) (client : Client http) (medium : SnapshotStorage) where
  fail-IsLocal :
      (env : Ambient) (original : ProxyRequest http) (e : ProxyError) (w : World http client medium)
      → IsLocal http (fail http client medium env original e w)
  unfolding fail
  fail-IsLocal env original e w = elim (Bool-cases w.recorder.config.enabled) [
    | inl on ↦ rw (if_false _ _ (ap not on)) (λ b. b)
    | inr off ↦ rw (if_true _ _ (ap not off)) (λ b. b)
  ]

  descended-IsLocal :
      (env : Ambient) (original : ProxyRequest http) (h : Handling http)
      → IsLocal http (descended http client medium env original h)
  unfolding descended
  descended-IsLocal env original (finish res ctx) b = b
  descended-IsLocal env original (proceed req ctx k) b = b

  scanned-IsLocal :
      (env : Ambient) (original req : ProxyRequest http) (ctx : RequestContext http)
      (k : Behind http) (o : Option (StubbedResponse × Option ℕ))
      → IsLocal http (scanned http client medium env original req ctx k o)
  unfolding scanned ascend
  scanned-IsLocal env original req ctx k none b = b
  scanned-IsLocal env original req ctx k (some found) b = b

  looked_up-IsLocal :
      (env : Ambient) (original req : ProxyRequest http) (ctx : RequestContext http)
      (k : Behind http) (o : Option (ProxyResponse http)) (w : World http client medium)
      → w.runtime.mode ≡ replay_mode
      → IsLocal http (looked_up http client medium env original req ctx k o w)
  unfolding looked_up missed ascend
  looked_up-IsLocal env original req ctx k (some resp) w h = λ b. b
  looked_up-IsLocal env original req ctx k none w h = rw h (λ b. b)

  succeed-IsLocal :
      (env : Ambient) (original : ProxyRequest http) (final : ProxyResponse http)
      (source : Option ResponseSource) (w : World http client medium)
      → IsLocal http (succeed http client medium env original final source w).0
  unfolding succeed
  succeed-IsLocal env original final source w = elim (Bool-cases w.recorder.config.enabled) [
    | inl on ↦ elim (Bool-cases (is_snapshot http client medium source)) [
      | inl hit ↦ rw (if_false _ _ (ap not on), if_true _ _ hit) (λ b. b)
      | inr live ↦ rw (if_false _ _ (ap not on), if_false _ _ live) (λ b. b)
    ]
    | inr off ↦ rw (if_true _ _ (ap not off)) (λ b. b)
  ]

  start-IsLocal :
      (env : Ambient) (head : ProxyRequest http) (body : Option Bytes)
      (w : World http client medium)
      → IsLocal http (start http client medium env head body w)
  unfolding start
  start-IsLocal env head none w =
      fail-IsLocal env (record head { body = [] }) (upstream_request "inbound body read failed") w
  start-IsLocal env head (some body) w =
      let original = record head { body = body } in
      descended-IsLocal env original
        (descend http w.runtime.middleware original (new_context http env.id env.now))

  advance-IsLocal :
      (f : Flight http) (w : World http client medium)
      → w.runtime.mode ≡ replay_mode
      → IsLocal http f
      → IsLocal http (advance http client medium f w).0
  unfolding advance concluded
  advance-IsLocal (at_gate env head body) w h local = elim (Bool-cases w.runtime.pause) [
    | inl paused ↦ rw (if_true _ _ paused) (λ b. b)
    | inr running ↦ rw (if_false _ _ running) (start-IsLocal env head body w)
  ]
  advance-IsLocal (at_stubs env original req ctx k) w h local =
      scanned-IsLocal env original req ctx k (take_match http req w.runtime.stubs).0
  advance-IsLocal (at_replay env original req ctx k) w h local =
      looked_up-IsLocal env original req ctx k
        (consult http client medium w.runtime.replay req w.runtime.middleware) w h
  advance-IsLocal (at_upstream env original req ctx k) w h local = absurd (local tt)
  advance-IsLocal (at_end env original (ok final) ctx) w h local =
      succeed-IsLocal env original final (response_source http ctx) w
  advance-IsLocal (at_end env original (err x) ctx) w h local = fail-IsLocal env original x w
  advance-IsLocal (at_recorder e resp) w h local = λ b. b
  advance-IsLocal (answered resp) w h local = λ b. b

  -- The upstream is in replay mode, and no request waits for it.
  pub record IsOffline (s : System http client medium) : Type 0 where
    pub mode : s.world.runtime.mode ≡ replay_mode
    pub local : All (IsLocal http) s.flights

  -- The step of one request, which leaves the network alone.
  pick-IsLocal :
      (i : ℕ) (fs : List (Flight http)) (w : World http client medium)
      → w.runtime.mode ≡ replay_mode
      → All (IsLocal http) fs
      → let (fs', w') = pick http client medium i fs w in
        All (IsLocal http) fs' × (w'.runtime.mode ≡ replay_mode) × (w'.net ≡ w.net)
  unfolding pick
  pick-IsLocal i [] w h all = (tt, h, refl)
  pick-IsLocal zero (f ∷ fs) w h (local, all) =
      let step = advance-Effect http client medium f w in
      (
        (advance-IsLocal f w h local, all),
        step.same_mode ∙ h,
        elim step.net [ inl same ↦ same | inr calls ↦ absurd (local calls) ],
      )
  pick-IsLocal (suc i) (f ∷ fs) w h (local, all) =
      let (all', mode, net) = pick-IsLocal i fs w h all in ((local, all'), mode, net)

  perform-IsOffline :
      (c : Choice http) (s : System http client medium)
      → IsOffline s
      → let s' = perform http client medium c s in IsOffline s' × (s'.world.net ≡ s.world.net)
  unfolding perform
  perform-IsOffline (arrive env head body) s h = (
    record { mode = h.mode; local = All-append (IsLocal http) s.flights _ h.local ((λ b. b), tt) },
    refl,
  )
  perform-IsOffline (go_on i) s h =
      let (all, mode, net) = pick-IsLocal i s.flights s.world h.mode h.local in
      (record { mode = mode; local = all }, net)
  perform-IsOffline (set_pause b) s h = (record { mode = h.mode; local = h.local }, refl)
  perform-IsOffline (add_stub entry) s h = (record { mode = h.mode; local = h.local }, refl)
  perform-IsOffline clear_stubs s h = (record { mode = h.mode; local = h.local }, refl)
  perform-IsOffline clear_recordings s h = (record { mode = h.mode; local = h.local }, refl)
  perform-IsOffline (elsewhere e) s h = (record { mode = h.mode; local = h.local }, refl)

  -- An upstream in replay mode is never called: from a state in which no request waits for it, no
  -- schedule of requests in flight and commands touches the network, and no request ever comes to
  -- wait for it.
  pub run-IsOffline :
      (schedule : List (Choice http)) (s : System http client medium)
      → IsOffline s
      → let s' = run http client medium schedule s in IsOffline s' × (s'.world.net ≡ s.world.net)
  unfolding run
  run-IsOffline [] s h = (h, refl)
  run-IsOffline (c ∷ later) s h =
      let s' = perform http client medium c s in
      let (h', net) = perform-IsOffline c s h in
      let (h'', net') = run-IsOffline later s' h' in (h'', net' ∙ net)
