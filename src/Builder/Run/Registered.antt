-- ===== src/Builder/Run/Registered.antt =====
-- The runtimes of a cluster that came up, against what the builder was told.
use partly_proxy.Base.{
  arith, String, false, Option, none, some, List, [], ◌∷◌, ◌++◌, ◌≡◌, refl, ap, Map, All, lookup,
}
use partly_proxy.Http.{Http}
use partly_proxy.Types.Error.{Result, ok, err}
use partly_proxy.Storage.{SnapshotStorage}
use partly_proxy.Middleware.{ProxyMiddleware}
use partly_proxy.Forwarder
use partly_proxy.Recorder.{Recorder, with_routes}
use partly_proxy.Replay.{ReplayState}
use partly_proxy.Upstream.{UpstreamRegistry, new_runtime}
use partly_proxy.Builder.{System, UpstreamSpec, ProxyClusterBuilder}
use partly_proxy.Builder.Run.{
  ClusterHandle, Spawned, spawn_all, with_control, control, run_resolved, run_checked, run,
  resolve_all, check_names,
}
use partly_proxy.Builder.Run.Spawning.{Reaches, Runs, spawn_all-Runs}
use partly_proxy.Builder.Run.Resolved.{
  Resolved, Loaded, Matches, check_names-DistinctFrom, resolve_all-Matches,
}

module _ (http : Http) (medium : SnapshotStorage) where
  -- The upstream runs as it was registered: under its name, with the global chain in front of its
  -- own, with its mode and its handler of misses, with what its storage holds as replay index, with
  -- no stub and not paused.
  abbrev pub Serves :
      List (ProxyMiddleware http) → UpstreamRegistry http → UpstreamSpec http medium → Type 0
  Serves global registry spec =
      (forwarder : Forwarder.Forwarder) × (replay : Option ReplayState) × Reaches http medium
        spec.config.upstream forwarder
      × Loaded http medium spec.storage replay
      × (lookup spec.name registry
          ≡ some (record {
            name = spec.name;
            forwarder = forwarder;
            middleware = global ++ spec.middleware;
            stubs = [];
            pause = false;
            replay = replay;
            mode = spec.mode;
            replay_miss_handler = spec.replay_miss_handler;
          }))

  All-Serves :
      (global : List (ProxyMiddleware http)) (registry : UpstreamRegistry http)
      (specs : List (UpstreamSpec http medium)) (resolved : List (Resolved http medium))
      → Matches http medium specs resolved
      → All (Runs http medium global registry) resolved
      → All (Serves global registry) specs
  unfolding new_runtime
  All-Serves global registry [] rs m h = tt
  All-Serves global registry (s ∷ ss) [] m h = absurd m
  All-Serves global registry (s ∷ ss) ((s', replay) ∷ rs) (same, loaded, m)
        ((f, reaches, runs), h) =
      (
        (f, replay, rw same at reaches, loaded, rw same at runs),
        All-Serves global registry ss rs m h,
      )

  bound_registry :
      (r : Result String) (recorder : Recorder medium) (registry : UpstreamRegistry http)
      (running open_addrs : List String) (handle : ClusterHandle http medium)
      → (with_control http medium r recorder registry running open_addrs).0 ≡ ok handle
      → (registry ≡ handle.registry) × (handle.recorder ≡ recorder)
  unfolding with_control
  bound_registry (err x) recorder registry running open_addrs handle h = absurd (cc h)
  bound_registry (ok bound) recorder registry running open_addrs handle h =
      (ground (arith, h), ground (arith, h))

  control_registry :
      (system : System) (addr : Option String) (recorder : Recorder medium)
      (res : Result (Spawned http medium)) (open_addrs : List String)
      (handle : ClusterHandle http medium)
      → (control http medium system addr recorder (res, open_addrs)).0 ≡ ok handle
      → (running : List String) × (res ≡ ok (handle.registry, running))
        × (handle.recorder ≡ recorder)
  unfolding control with_control
  control_registry system addr recorder (err x) open_addrs handle h = absurd (cc h)
  control_registry system none recorder (ok (registry, running)) open_addrs handle h =
      (running, ground (arith, h), ground (arith, h))
  control_registry system (some addr) recorder (ok (registry, running)) open_addrs handle h =
      let (same, kept) =
        bound_registry (system.bind addr open_addrs) recorder registry running open_addrs handle
          h in
      (running, ap (λ r. ok (r, running)) same, kept)

  run_resolved-Serves :
      (system : System) (b : ProxyClusterBuilder http medium) (open_addrs : List String)
      (r : Result (List (Resolved http medium) × Map medium.State))
      (handle : ClusterHandle http medium)
      → check_names http medium [] b.upstreams ≡ ok tt
      → resolve_all http medium b.upstreams [] ≡ r
      → (run_resolved http medium system b open_addrs r).0 ≡ ok handle
      → All (Serves b.global_middleware handle.registry) b.upstreams
        × (handle.recorder.config ≡ b.recording)
  unfolding run_resolved with_routes
  run_resolved-Serves system b open_addrs (err x) handle names loads h = absurd (cc h)
  run_resolved-Serves system b open_addrs (ok (resolved, routes)) handle names loads h =
      let (res, open_addrs') =
        spawn_all http medium system b.global_middleware resolved [] [] open_addrs in
      let recorder = with_routes medium b.recording routes in
      let (running, came_up, same) =
        control_registry system b.tcp_control_addr recorder res open_addrs' handle h in
      let m = resolve_all-Matches http medium b.upstreams [] routes resolved loads in
      let (_, all_run) =
        spawn_all-Runs http medium system b.global_middleware resolved [] handle.registry [] running
          open_addrs [] (check_names-DistinctFrom http medium [] b.upstreams resolved names m)
          came_up in
      (
        All-Serves b.global_middleware handle.registry b.upstreams resolved m all_run,
        ap (λ (r : Recorder medium). r.config) same,
      )

  run_checked-Serves :
      (system : System) (b : ProxyClusterBuilder http medium) (open_addrs : List String)
      (r : Result (Unit {0})) (handle : ClusterHandle http medium)
      → check_names http medium [] b.upstreams ≡ r
      → (run_checked http medium system b open_addrs r).0 ≡ ok handle
      → All (Serves b.global_middleware handle.registry) b.upstreams
        × (handle.recorder.config ≡ b.recording)
  unfolding run_checked
  run_checked-Serves system b open_addrs (err x) handle names h = absurd (cc h)
  run_checked-Serves system b open_addrs (ok u) handle names h =
      run_resolved-Serves system b open_addrs (resolve_all http medium b.upstreams []) handle names
        refl h

  -- After a run that succeeds every upstream of the builder stands in the registry under its name:
  -- with a forwarder for the target of its configuration, the global middleware in front of its own,
  -- its mode, its handler of misses, an index of what its storage holds, all of which could be loaded
  -- (none without a storage), no stub, and not paused; and the recorder has the builder's configuration.
  pub run-Serves :
      (system : System) (b : ProxyClusterBuilder http medium) (open_addrs : List String)
      (handle : ClusterHandle http medium)
      → (run http medium system b open_addrs).0 ≡ ok handle
      → All (Serves b.global_middleware handle.registry) b.upstreams
        × (handle.recorder.config ≡ b.recording)
  unfolding run
  run-Serves system b open_addrs handle h =
      run_checked-Serves system b open_addrs (check_names http medium [] b.upstreams) handle refl h
