-- ===== src/Builder.antt =====
-- crates/partly-proxy-lib/src/builder.rs, with `spawn_listener` of listener.rs and
-- `spawn_tcp_control_plane` of control_plane.rs. The sockets and the files with certificates are a
-- parameter; what the run does to them is the list of addresses that are open. A task that is told to
-- stop closes its socket before its join returns.
pub mod Run
use partly_proxy.Base.{
  ℕ, ◌≡◌, String, Bytes, Bool, true, false, not, ◌||◌, Option, none, some, List, [], ◌∷◌, ◌++◌, Map,
  insert, ◌==◌, if◌then◌else◌, any, select, format, as_bytes, length,
}
use partly_proxy.Http.{Http}
use partly_proxy.Types.Error.{ProxyError, Result, ok, err, command, ◌>>=◌, ◌>>◌}
use partly_proxy.Types.ProxyIo.{ProxyRequest, ProxyResponse, new_response, with_header, with_body}
use partly_proxy.Config.{
  InboundTlsConfig, UpstreamTarget, new_target, ProxyConfig, http_config, RecordingConfig,
  default_recording, disabled, Mode, record_mode, replay_mode,
}
use partly_proxy.Storage.{SnapshotStorage}
use partly_proxy.Middleware.{ProxyMiddleware}
use partly_proxy.Forwarder
use partly_proxy.Forwarder.{Forwarder}
use partly_proxy.Recorder.{Recorder, with_routes}
use partly_proxy.Replay.{ReplayState, from_storage}
use partly_proxy.Upstream.{UpstreamRuntime, UpstreamRegistry, new_runtime, register}

-- The operating system.
pub record System : Type 0 where
  -- `build_tls_acceptor`
  pub tls_acceptor : InboundTlsConfig → Result (Unit {0})
  -- The TLS configuration of a client.
  pub tls_client : UpstreamTarget → Result (Unit {0})
  -- `TcpListener::bind` and `local_addr`, with the addresses that are open.
  pub bind : String → List String → Result String

-- An address that is bound was not open.
abbrev pub IsFresh : System → Type 0
IsFresh system =
    (addr : String) (open_addrs : List String) (bound : String)
    → system.bind addr open_addrs ≡ ok bound
    → any (λ a. a == bound) open_addrs ≡ false

module _ (http : Http) (medium : SnapshotStorage) where
  pub record UpstreamSpec : Type 0 where
    pub name : String
    pub config : ProxyConfig
    pub middleware : List (ProxyMiddleware http)
    pub storage : Option medium.State
    pub mode : Mode
    pub replay_miss_handler : ProxyRequest http → ProxyResponse http

  pub record ProxyClusterBuilder : Type 0 where
    pub recording : RecordingConfig
    pub default_mode : Mode
    pub upstreams : List UpstreamSpec
    pub global_middleware : List (ProxyMiddleware http)
    pub tcp_control_addr : Option String
    pub replay_miss_handler : ProxyRequest http → ProxyResponse http

  unfoldable pub default_replay_miss_handler : ProxyRequest http → ProxyResponse http
  unfolding with_header with_body
  default_replay_miss_handler req =
      with_body http
        (with_header http (new_response http 503) "content-type" (as_bytes "application/json"))
        (as_bytes "{}")

  -- `ProxyClusterBuilder::new`
  unfoldable pub new_builder : ProxyClusterBuilder
  unfolding default_replay_miss_handler
  new_builder = record {
    recording = default_recording;
    default_mode = record_mode;
    upstreams = [];
    global_middleware = [];
    tcp_control_addr = none;
    replay_miss_handler = default_replay_miss_handler;
  }

  unfoldable pub set_recording : ProxyClusterBuilder → RecordingConfig → ProxyClusterBuilder
  set_recording b cfg = record b { recording = cfg }

  abbrev recording_of : Mode → RecordingConfig
  recording_of record_mode = default_recording
  recording_of replay_mode = disabled

  -- `default_mode`
  unfoldable pub set_default_mode : ProxyClusterBuilder → Mode → ProxyClusterBuilder
  set_default_mode b mode = record b { recording = recording_of mode; default_mode = mode }

  unfoldable pub on_replay_miss :
      ProxyClusterBuilder → (ProxyRequest http → ProxyResponse http) → ProxyClusterBuilder
  on_replay_miss b f = record b { replay_miss_handler = f }

  -- `add_upstream_with_mode`
  unfoldable pub add_upstream_with_mode :
      ProxyClusterBuilder
      → String
      → ProxyConfig
      → List (ProxyMiddleware http)
      → Option medium.State
      → Mode
      → ProxyClusterBuilder
  add_upstream_with_mode b name config middleware storage mode =
      let spec : UpstreamSpec = record {
        name = name;
        config = config;
        middleware = middleware;
        storage = storage;
        mode = mode;
        replay_miss_handler = b.replay_miss_handler;
      } in
      record b { upstreams = b.upstreams ++ spec ∷ [] }

  -- `add_upstream_with`, and `add_upstream_with_middleware` without a storage.
  unfoldable pub add_upstream_with :
      ProxyClusterBuilder
      → String
      → ProxyConfig
      → List (ProxyMiddleware http)
      → Option medium.State
      → ProxyClusterBuilder
  unfolding add_upstream_with_mode
  add_upstream_with b name config middleware storage =
      add_upstream_with_mode b name config middleware storage b.default_mode

  unfoldable pub add_stub :
      ProxyClusterBuilder → String → String → List (ProxyMiddleware http) → ProxyClusterBuilder
  unfolding add_upstream_with_mode http_config new_target
  add_stub b name bind_addr middleware =
      add_upstream_with_mode b name (http_config bind_addr (new_target "http://stub.internal:0"))
        middleware none replay_mode

  unfoldable pub add_middleware : ProxyClusterBuilder → ProxyMiddleware http → ProxyClusterBuilder
  add_middleware b mw = record b { global_middleware = b.global_middleware ++ mw ∷ [] }

  unfoldable pub tcp_control_plane : ProxyClusterBuilder → String → ProxyClusterBuilder
  tcp_control_plane b addr = record b { tcp_control_addr = some addr }
