-- ===== src/Builder/Run.antt =====
-- `ProxyClusterBuilder::run` of crates/partly-proxy-lib/src/builder.rs, with `spawn_listener` of
-- listener.rs: the check of the names, the loads of the storages, then the listeners one after
-- another and the control plane, and the teardown at the first error.
pub mod Running
pub mod Resolved
pub mod Spawning
pub mod Registered
use partly_proxy.Base.{
  ℕ, ◌≡◌, String, Bytes, Bool, true, false, not, ◌||◌, Option, none, some, List, [], ◌∷◌, ◌++◌, Map,
  insert, ◌==◌, if◌then◌else◌, any, select, format, as_bytes, length,
}
use partly_proxy.Http.{Http}
use partly_proxy.Types.Error.{ProxyError, Result, ok, err, command, ◌>>=◌, ◌>>◌}
use partly_proxy.Types.ProxyIo.{ProxyRequest, ProxyResponse, new_response, with_header, with_body}
use partly_proxy.Config.{
  InboundTlsConfig, UpstreamTarget, new_target, ProxyConfig, http_config, RecordingConfig,
  default_recording, disabled, Mode, record_mode, replay_mode,
}
use partly_proxy.Storage.{SnapshotStorage}
use partly_proxy.Middleware.{ProxyMiddleware}
use partly_proxy.Forwarder
use partly_proxy.Forwarder.{Forwarder}
use partly_proxy.Recorder.{Recorder, with_routes}
use partly_proxy.Replay.{ReplayState, from_storage}
use partly_proxy.Upstream.{UpstreamRuntime, UpstreamRegistry, new_runtime, register}
use partly_proxy.Builder.{System, UpstreamSpec, ProxyClusterBuilder}

module _ (http : Http) (medium : SnapshotStorage) where
  -- The check of the names: the first one that an earlier upstream has.
  unfoldable pub check_names : List String → List (UpstreamSpec http medium) → Result (Unit {0})
  unfolding format
  check_names seen [] = ok tt
  check_names seen (spec ∷ specs) =
      let later = check_names (spec.name ∷ seen) specs in
      if any (λ n. n == spec.name) seen
      then err (command (format ("duplicate upstream name in cluster: " ∷ spec.name ∷ [])))
      else later

  -- The storage of one upstream: its contents for the replay, and its route.
  load_storage :
      String
      → Option medium.State
      → Map medium.State
      → Result (Option ReplayState × Map medium.State)
  unfolding from_storage
  load_storage name none routes = ok (none, routes)
  load_storage name (some s) routes = do
    replay ← from_storage http medium s
    ok (some replay, insert name s routes)

  unfoldable pub resolve_all :
      List (UpstreamSpec http medium)
      → Map medium.State
      → Result (List (UpstreamSpec http medium × Option ReplayState) × Map medium.State)
  unfolding load_storage
  resolve_all [] routes = ok ([], routes)
  resolve_all (spec ∷ specs) routes =
      load_storage spec.name spec.storage routes >>= λ (replay, routes').
      resolve_all specs routes' >>= λ (resolved, routes''). ok ((spec, replay) ∷ resolved, routes'')

  tls_of : System → Option InboundTlsConfig → Result (Unit {0})
  tls_of system none = ok tt
  tls_of system (some cfg) = system.tls_acceptor cfg

  -- `spawn_listener`: the runtime and its address, which the caller puts among the open ones; where
  -- the forwarder cannot be made the listener is dropped, and its address is not open.
  unfoldable pub spawn_listener :
      System
      → UpstreamSpec http medium
      → Option ReplayState
      → List (ProxyMiddleware http)
      → List String
      → Result (UpstreamRuntime http × String)
  unfolding tls_of Forwarder.new new_runtime
  spawn_listener system spec replay global open_addrs =
      tls_of system spec.config.inbound_tls
      >> system.bind spec.config.bind_addr open_addrs
      >>= λ bound.
          Forwarder.new http (system.tls_client spec.config.upstream) spec.config.upstream
          >>= λ forwarder. ok (
            new_runtime http spec.name forwarder (global ++ spec.middleware) replay spec.mode
                spec.replay_miss_handler,
            bound,
          )

  -- The addresses of the listeners that were told to stop are open no longer.
  close : List String → List String → List String
  close running open_addrs = select (λ a. not (any (λ r. r == a) running)) open_addrs

  pub record ClusterHandle : Type 0 where
    pub registry : UpstreamRegistry http
    pub recorder : Recorder medium
    pub addrs : List String
    pub tcp_control : Option String

  abbrev pub Spawned : Type 0
  Spawned = UpstreamRegistry http × List String

  spawned :
      Result (UpstreamRuntime http × String)
      → UpstreamRegistry http
      → List String
      → List String
      → (UpstreamRegistry http → List String → List String → Result Spawned × List String)
      → Result Spawned × List String
  unfolding close register
  spawned (err e) registry running open_addrs next = (err e, close running open_addrs)
  spawned (ok (up, bound)) registry running open_addrs next =
      next (register http registry up) (bound ∷ running) (open_addrs ++ bound ∷ [])

  -- The loop over the upstreams, with the teardown of those that run at the first error.
  pub spawn_all :
      System
      → List (ProxyMiddleware http)
      → List (UpstreamSpec http medium × Option ReplayState)
      → UpstreamRegistry http
      → List String
      → List String
      → Result Spawned × List String
  unfolding spawned spawn_listener
  spawn_all system global [] registry running open_addrs = (ok (registry, running), open_addrs)
  spawn_all system global ((spec, replay) ∷ rest) registry running open_addrs =
      spawned (spawn_listener system spec replay global open_addrs) registry running open_addrs
        (λ registry' running' open'. spawn_all system global rest registry' running' open')

  -- The control plane, after the upstreams.
  with_control :
      Result String
      → Recorder medium
      → UpstreamRegistry http
      → List String
      → List String
      → Result ClusterHandle × List String
  unfolding close
  with_control (err e) recorder registry running open_addrs = (err e, close running open_addrs)
  with_control (ok bound) recorder registry running open_addrs = (
    ok (record {
      registry = registry;
      recorder = recorder;
      addrs = running;
      tcp_control = some bound;
    }),
    open_addrs ++ bound ∷ [],
  )

  control :
      System
      → Option String
      → Recorder medium
      → Result Spawned × List String
      → Result ClusterHandle × List String
  unfolding with_control
  control system addr recorder (err e, open_addrs) = (err e, open_addrs)
  control system none recorder (ok (registry, running), open_addrs) = (
    ok (record { registry = registry; recorder = recorder; addrs = running; tcp_control = none }),
    open_addrs,
  )
  control system (some addr) recorder (ok (registry, running), open_addrs) =
      with_control (system.bind addr open_addrs) recorder registry running open_addrs

  run_resolved :
      System
      → ProxyClusterBuilder http medium
      → List String
      → Result (List (UpstreamSpec http medium × Option ReplayState) × Map medium.State)
      → Result ClusterHandle × List String
  unfolding control spawn_all
  run_resolved system b open_addrs (err e) = (err e, open_addrs)
  run_resolved system b open_addrs (ok (resolved, routes)) =
      control system b.tcp_control_addr (with_routes medium b.recording routes)
        (spawn_all system b.global_middleware resolved [] [] open_addrs)

  run_checked :
      System
      → ProxyClusterBuilder http medium
      → List String
      → Result (Unit {0})
      → Result ClusterHandle × List String
  unfolding run_resolved resolve_all
  run_checked system b open_addrs (err e) = (err e, open_addrs)
  run_checked system b open_addrs (ok _) =
      run_resolved system b open_addrs (resolve_all b.upstreams [])

  -- `ProxyClusterBuilder::run`, over the addresses that are open.
  unfoldable pub run :
      System → ProxyClusterBuilder http medium → List String → Result ClusterHandle × List String
  unfolding run_checked check_names
  run system b open_addrs = run_checked system b open_addrs (check_names [] b.upstreams)
