-- ===== src/Tests/Clusters.antt =====
-- A cluster of two upstreams.
use partly_proxy.Base.{String, Bool, true, false, none, [], ◌∷◌, ◌≡◌, refl, All, arith, any, ◌==◌}
use partly_proxy.Types.Error.{Result, ok, err, bind}
use partly_proxy.Config.{http_config, new_target, default_recording}
use partly_proxy.Storage.Memory.{in_memory_storage}
use partly_proxy.Forwarder
use partly_proxy.Builder.{System, ProxyClusterBuilder, new_builder, add_stub, IsFresh}
use partly_proxy.Builder.Run.{ClusterHandle, run}
use partly_proxy.Builder.Run.Running.{run_closes}
use partly_proxy.Builder.Run.Registered.{Serves, run-Serves}
use partly_proxy.Tests.Sample.{sample_http, redactor, recorder_of}

-- An address can be bound once.
bind_once : Bool → String → Result String
bind_once true addr = err (bind "address in use")
bind_once false addr = ok addr

abbrev system : System
system = record {
  tls_acceptor = λ cfg. ok tt;
  tls_client = λ target. ok tt;
  bind = λ addr open_addrs. bind_once (any (λ a. a == addr) open_addrs) addr;
}

bind_once_fresh :
    (b : Bool) (addr bound : String) → bind_once b addr ≡ ok bound → (b ≡ false) × (addr ≡ bound)
unfolding bind_once
bind_once_fresh true addr bound h = absurd (cc h)
bind_once_fresh false addr bound h = (refl, ground (arith, h))

system-IsFresh : IsFresh system
system-IsFresh addr open_addrs bound h =
    let (unused, same) = bind_once_fresh (any (λ a. a == addr) open_addrs) addr bound h in
    rw same at unused

-- Two upstreams, and two on one address.
abbrev two : ProxyClusterBuilder sample_http in_memory_storage
two =
    add_stub sample_http in_memory_storage (new_builder sample_http in_memory_storage) "api"
      "127.0.0.1:1" (redactor ∷ [])

abbrev clash : ProxyClusterBuilder sample_http in_memory_storage
clash = add_stub sample_http in_memory_storage two "web" "127.0.0.1:1" []

run_closes_example :
    (run sample_http in_memory_storage system clash ("127.0.0.1:9" ∷ [])).1 ≡ "127.0.0.1:9" ∷ []
unfolding run add_stub new_builder http_config new_target Forwarder.new bind_once
run_closes_example =
    run_closes sample_http in_memory_storage system clash ("127.0.0.1:9" ∷ [])
      (bind "address in use") system-IsFresh refl

abbrev handle_of :
    Result (ClusterHandle sample_http in_memory_storage)
    → ClusterHandle sample_http in_memory_storage
handle_of (ok handle) = handle
handle_of (err e) = record {
  registry = [];
  recorder = recorder_of [];
  addrs = [];
  tcp_control = none;
}

run-Serves_example :
    let handle = handle_of (run sample_http in_memory_storage system two []).0 in
    All (Serves sample_http in_memory_storage [] handle.registry) two.upstreams
    × (handle.recorder.config ≡ default_recording)
unfolding run add_stub new_builder http_config new_target Forwarder.new bind_once
run-Serves_example =
    run-Serves sample_http in_memory_storage system two []
      (handle_of (run sample_http in_memory_storage system two []).0) refl
