-- ===== src/Upstream.antt =====
-- crates/partly-proxy-lib/src/upstream.rs: the state of one upstream, and the registry.
use partly_proxy.Base.{String, Bool, false, Option, List, [], Map, lookup, insert, keys}
use partly_proxy.Http.{Http}
use partly_proxy.Types.ProxyIo.{ProxyRequest, ProxyResponse}
use partly_proxy.Config.{Mode}
use partly_proxy.Stub.{StubStore}
use partly_proxy.Middleware.{ProxyMiddleware}
use partly_proxy.Forwarder.{Forwarder}
use partly_proxy.Replay.{ReplayState}

-- `UpstreamRuntime`. The recorder, which all upstreams share, stands beside it in the states of the
-- listener and of the command processor.
pub record UpstreamRuntime (http : Http) : Type 0 where
  pub name : String
  pub forwarder : Forwarder
  pub middleware : List (ProxyMiddleware http)
  pub stubs : StubStore http
  pub pause : Bool
  pub replay : Option ReplayState
  pub mode : Mode
  pub replay_miss_handler : ProxyRequest http → ProxyResponse http

module _ (http : Http) where
  -- `UpstreamRuntime::new`
  unfoldable pub new_runtime :
      String
      → Forwarder
      → List (ProxyMiddleware http)
      → Option ReplayState
      → Mode
      → (ProxyRequest http → ProxyResponse http)
      → UpstreamRuntime http
  new_runtime name forwarder middleware replay mode handler = record {
    name = name;
    forwarder = forwarder;
    middleware = middleware;
    stubs = [];
    pause = false;
    replay = replay;
    mode = mode;
    replay_miss_handler = handler;
  }

  -- `UpstreamRegistry`: the runtimes under their names.
  abbrev pub UpstreamRegistry : Type 0
  UpstreamRegistry = Map (UpstreamRuntime http)

  unfoldable pub register : UpstreamRegistry → UpstreamRuntime http → UpstreamRegistry
  register registry runtime = insert runtime.name runtime registry

  unfoldable pub get_runtime : UpstreamRegistry → String → Option (UpstreamRuntime http)
  get_runtime registry name = lookup name registry

  unfoldable pub names : UpstreamRegistry → List String
  names registry = keys registry
