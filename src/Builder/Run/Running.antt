-- ===== src/Builder/Run/Running.antt =====
-- What a run leaves open, and what runs after it.
use text.Mathlib.TextPositions.{eq_refl}
use partly_proxy.Base.{
  arith, String, false, Option, none, some, List, [], ◌∷◌, ◌++◌, ◌≡◌, refl, ap, ◌∙◌, ◌⊎◌, inl, inr,
  ◌==◌, any, eq_iff, Map,
}
use partly_proxy.Http.{Http}
use partly_proxy.Types.Error.{ProxyError, Result, ok, err, bind_ok, ◌>>◌}
use partly_proxy.Storage.{SnapshotStorage}
use partly_proxy.Middleware.{ProxyMiddleware}
use partly_proxy.Forwarder
use partly_proxy.Recorder.{Recorder, with_routes}
use partly_proxy.Replay.{ReplayState}
use partly_proxy.Upstream.{UpstreamRuntime, UpstreamRegistry, register}
use partly_proxy.Builder.{System, IsFresh, UpstreamSpec, ProxyClusterBuilder}
use partly_proxy.Builder.Run.{
  Spawned, close, spawn_listener, spawned, tls_of, spawn_all, with_control, control, run_resolved,
  run_checked, run, resolve_all, check_names,
}

pub Spawn-cases :
    {A : Type 0} {B : Type 0} (r : Result (A × B))
    → ((a : A) × (b : B) × (r ≡ ok (a, b))) ⊎ ((e : ProxyError) × (r ≡ err e))
Spawn-cases (ok (a, b)) = inl (a, b, refl)
Spawn-cases (err e) = inr (e, refl)

module _ (http : Http) (medium : SnapshotStorage) where
  -- A socket that was bound now is the one that a teardown of it closes in addition.
  close-bound :
      (running open_addrs : List String) (bound : String)
      → any (λ a. a == bound) open_addrs ≡ false
      → close http medium (bound ∷ running) (open_addrs ++ bound ∷ [])
        ≡ close http medium running open_addrs
  unfolding close
  close-bound running [] bound h = rw eq_refl
  close-bound running (a ∷ open_addrs) bound h =
      ground (arith, h, eq_iff a bound, eq_iff bound a, close-bound running open_addrs bound)

  spawn_listener_fresh :
      (system : System) (spec : UpstreamSpec http medium) (replay : Option ReplayState)
      (global : List (ProxyMiddleware http)) (open_addrs : List String) (up : UpstreamRuntime http)
      (bound : String)
      → IsFresh system
      → spawn_listener http medium system spec replay global open_addrs ≡ ok (up, bound)
      → any (λ a. a == bound) open_addrs ≡ false
  unfolding spawn_listener
  spawn_listener_fresh system spec replay global open_addrs up bound fresh h =
      let tls = tls_of http medium system spec.config.inbound_tls in
      let (addr, bound_first, made) =
        bind_ok (tls >> system.bind spec.config.bind_addr open_addrs) _ (up, bound) h in
      let (_, _, binds) = bind_ok tls _ addr bound_first in
      let (forwarder, _, same) =
        bind_ok (Forwarder.new http (system.tls_client spec.config.upstream) spec.config.upstream) _
          (up, bound) made in
      let e : addr ≡ bound = ground (arith, same) in
      fresh spec.config.bind_addr open_addrs bound (rw e at binds)

  -- What is open behind a step that started from `at_first`.
  Closed : List String → Result (Spawned http medium) → List String → Type 0
  Closed at_first (err e) open_addrs = open_addrs ≡ at_first
  Closed at_first (ok (registry, running)) open_addrs =
      close http medium running open_addrs ≡ at_first

  spawn_all-Closed :
      (system : System) (global : List (ProxyMiddleware http))
      (specs : List (UpstreamSpec http medium × Option ReplayState))
      (registry : UpstreamRegistry http) (running open_addrs at_first : List String)
      → IsFresh system
      → close http medium running open_addrs ≡ at_first
      → let (res, open_addrs') =
          spawn_all http medium system global specs registry running open_addrs in
        Closed at_first res open_addrs'
  unfolding spawn_all Closed
  spawn_all-Closed system global [] registry running open_addrs at_first fresh h = h
  spawn_all-Closed system global ((spec, replay) ∷ rest) registry running open_addrs at_first fresh
        h =
      elim (Spawn-cases (spawn_listener http medium system spec replay global open_addrs)) [
        | inl (up, bound, done) ↦
            let unused =
              spawn_listener_fresh system spec replay global open_addrs up bound fresh done in
            rw (done, spawned)
              (spawn_all-Closed system global rest (register http registry up) (bound ∷ running)
                (open_addrs ++ bound ∷ []) at_first fresh
                (close-bound running open_addrs bound unused ∙ h))
        | inr (e, failed) ↦ rw (failed, spawned) h
      ]

  with_control_closes :
      (r : Result String) (recorder : Recorder medium) (registry : UpstreamRegistry http)
      (running open_addrs at_first : List String) (e : ProxyError)
      → close http medium running open_addrs ≡ at_first
      → (with_control http medium r recorder registry running open_addrs).0 ≡ err e
      → (with_control http medium r recorder registry running open_addrs).1 ≡ at_first
  unfolding with_control
  with_control_closes (err x) recorder registry running open_addrs at_first e h failed = h
  with_control_closes (ok b) recorder registry running open_addrs at_first e h failed =
      absurd (cc failed)

  control_closes :
      (system : System) (addr : Option String) (recorder : Recorder medium)
      (res : Result (Spawned http medium)) (open_addrs at_first : List String) (e : ProxyError)
      → Closed at_first res open_addrs
      → (control http medium system addr recorder (res, open_addrs)).0 ≡ err e
      → (control http medium system addr recorder (res, open_addrs)).1 ≡ at_first
  unfolding control Closed
  control_closes system addr recorder (err x) open_addrs at_first e h failed = h
  control_closes system none recorder (ok (registry, running)) open_addrs at_first e h failed =
      absurd (cc failed)
  control_closes system (some addr) recorder (ok (registry, running)) open_addrs at_first e h
        failed =
      with_control_closes (system.bind addr open_addrs) recorder registry running open_addrs
        at_first e h failed

  close_none : (open_addrs : List String) → close http medium [] open_addrs ≡ open_addrs
  unfolding close
  close_none [] = refl
  close_none (a ∷ open_addrs) = ap (λ later. a ∷ later) (close_none open_addrs)

  run_resolved_closes :
      (system : System) (b : ProxyClusterBuilder http medium) (open_addrs : List String)
      (r : Result (List (UpstreamSpec http medium × Option ReplayState) × Map medium.State))
      (e : ProxyError)
      → IsFresh system
      → (run_resolved http medium system b open_addrs r).0 ≡ err e
      → (run_resolved http medium system b open_addrs r).1 ≡ open_addrs
  unfolding run_resolved
  run_resolved_closes system b open_addrs (err x) e fresh failed = refl
  run_resolved_closes system b open_addrs (ok (resolved, routes)) e fresh failed =
      let (res, open_addrs') =
        spawn_all http medium system b.global_middleware resolved [] [] open_addrs in
      control_closes system b.tcp_control_addr (with_routes medium b.recording routes) res
        open_addrs' open_addrs e
        (spawn_all-Closed system b.global_middleware resolved [] [] open_addrs open_addrs fresh
          (close_none open_addrs))
        failed

  run_checked_closes :
      (system : System) (b : ProxyClusterBuilder http medium) (open_addrs : List String)
      (r : Result (Unit {0})) (e : ProxyError)
      → IsFresh system
      → (run_checked http medium system b open_addrs r).0 ≡ err e
      → (run_checked http medium system b open_addrs r).1 ≡ open_addrs
  unfolding run_checked
  run_checked_closes system b open_addrs (err x) e fresh failed = refl
  run_checked_closes system b open_addrs (ok u) e fresh failed =
      run_resolved_closes system b open_addrs (resolve_all http medium b.upstreams []) e fresh
        failed

  -- A run that fails leaves no socket open: whether two upstreams have one name, a storage cannot be
  -- loaded, or a listener or the control plane cannot start, exactly the addresses are open that were
  -- before, given that an address that is bound was not open.
  pub run_closes :
      (system : System) (b : ProxyClusterBuilder http medium) (open_addrs : List String)
      (e : ProxyError)
      → IsFresh system
      → (run http medium system b open_addrs).0 ≡ err e
      → (run http medium system b open_addrs).1 ≡ open_addrs
  unfolding run
  run_closes system b open_addrs e fresh failed =
      run_checked_closes system b open_addrs (check_names http medium [] b.upstreams) e fresh failed
