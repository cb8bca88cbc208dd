-- ===== src/Builder/Run/Spawning.antt =====
-- The loop over the upstreams: the runtimes that it registers.
use text.Mathlib.TextPositions.{eq_refl}
use partly_proxy.Base.{
  arith, String, Bool, true, false, ◌||◌, Option, some, List, [], ◌∷◌, ◌++◌, ◌≡◌, refl, sym, ap,
  ◌∙◌, inl, inr, ◌==◌, any, Bool-cases, eq_iff, All, lookup, insert, lookup-insert,
  lookup-insert_self, if_false,
}
use partly_proxy.Http.{Http}
use partly_proxy.Types.Error.{Result, ok, bind_ok, ◌>>◌}
use partly_proxy.Storage.{SnapshotStorage}
use partly_proxy.Middleware.{ProxyMiddleware}
use partly_proxy.Forwarder
use partly_proxy.Replay.{ReplayState}
use partly_proxy.Upstream.{UpstreamRuntime, UpstreamRegistry, register, new_runtime}
use partly_proxy.Config.{UpstreamTarget}
use partly_proxy.Builder.{System, UpstreamSpec}
use partly_proxy.Builder.Run.{spawn_listener, spawned, tls_of, spawn_all}
use partly_proxy.Builder.Run.Running.{Spawn-cases}
use partly_proxy.Builder.Run.Resolved.{Resolved, DistinctFrom}

module _ (http : Http) (medium : SnapshotStorage) where
  -- The forwarder has the target of the configuration, with the parts of its base address.
  abbrev pub Reaches : UpstreamTarget → Forwarder.Forwarder → Type 0
  Reaches target forwarder =
      (forwarder.target ≡ target)
      × (Forwarder.parse_base_url http target.base_url ≡ ok forwarder.base)

  new-Reaches :
      (tls : Result (Unit {0})) (target : UpstreamTarget) (forwarder : Forwarder.Forwarder)
      → Forwarder.new http tls target ≡ ok forwarder
      → Reaches target forwarder
  unfolding Forwarder.new
  new-Reaches tls target forwarder h =
      let (base, parsed, rest) =
        bind_ok (Forwarder.parse_base_url http target.base_url) _ forwarder h in
      let (u, ready, made) = bind_ok tls _ forwarder rest in
      let same : Forwarder.Forwarder.target forwarder ≡ target = ground (arith, made) in
      (same, ground (arith, parsed, made))

  -- The runtime that the upstream has in the registry.
  abbrev pub Runs :
      List (ProxyMiddleware http) → UpstreamRegistry http → (Resolved http medium) → Type 0
  Runs global registry (spec, replay) =
      (forwarder : Forwarder.Forwarder) × Reaches spec.config.upstream forwarder
      × (lookup spec.name registry
          ≡ some (
              new_runtime http spec.name forwarder (global ++ spec.middleware) replay spec.mode
                spec.replay_miss_handler))

  spawn_listener_made :
      (system : System) (spec : UpstreamSpec http medium) (replay : Option ReplayState)
      (global : List (ProxyMiddleware http)) (open_addrs : List String) (up : UpstreamRuntime http)
      (bound : String)
      → spawn_listener http medium system spec replay global open_addrs ≡ ok (up, bound)
      → (forwarder : Forwarder.Forwarder) × Reaches spec.config.upstream forwarder
        × (up
            ≡ new_runtime http spec.name forwarder
                (global ++ spec.middleware)
                replay
                spec.mode
                spec.replay_miss_handler)
  unfolding spawn_listener
  spawn_listener_made system spec replay global open_addrs up bound h =
      let tls = tls_of http medium system spec.config.inbound_tls in
      let (addr, _, made) =
        bind_ok (tls >> system.bind spec.config.bind_addr open_addrs) _ (up, bound) h in
      let (forwarder, made_by, same) =
        bind_ok (Forwarder.new http (system.tls_client spec.config.upstream) spec.config.upstream) _
          (up, bound) made in
      (
        forwarder,
        new-Reaches (system.tls_client spec.config.upstream) spec.config.upstream forwarder made_by,
        ground (arith, same),
      )

  apart :
      (seen : List String) (a b : String)
      → any (λ n. n == a) seen ≡ false
      → any (λ n. n == b) seen ≡ true
      → (a == b) ≡ false
  apart seen a b h k = elim (Bool-cases (a == b)) [
    | inl same ↦
        let e : any (λ n. n == a) seen ≡ any (λ n. n == b) seen =
          ap (λ c. any (λ n. n == c) seen) ((eq_iff a b).0 same) in
        absurd (cc (h, k, e))
    | inr other ↦ other
  ]

  or_true : (b : Bool) → (b || true) ≡ true
  or_true true = refl
  or_true false = refl

  registers :
      (spec : UpstreamSpec http medium) (forwarder : Forwarder.Forwarder)
      (global : List (ProxyMiddleware http)) (replay : Option ReplayState)
      (registry : UpstreamRegistry http)
      → let runtime =
          new_runtime http spec.name forwarder
            (global ++ spec.middleware)
            replay
            spec.mode
            spec.replay_miss_handler in
        register http registry runtime ≡ insert spec.name runtime registry
  unfolding register new_runtime
  registers spec forwarder global replay registry = refl

  pub spawn_all-Runs :
      (system : System) (global : List (ProxyMiddleware http)) (specs : List (Resolved http medium))
      (registry registry' : UpstreamRegistry http) (running running' open_addrs : List String)
      (seen : List String)
      → DistinctFrom http medium seen specs
      → (spawn_all http medium system global specs registry running open_addrs).0
        ≡ ok (registry', running')
      → ((name : String)
          → any (λ n. n == name) seen ≡ true
          → lookup name registry' ≡ lookup name registry)
        × All (Runs global registry') specs
  unfolding spawn_all
  spawn_all-Runs system global [] registry registry' running running' open_addrs seen d h =
      let e : registry ≡ registry' = ground (arith, h) in
      (λ name k. ap (λ r. lookup name r) (sym e), tt)
  spawn_all-Runs system global ((spec, replay) ∷ rest) registry registry' running running'
        open_addrs seen (new_name, d) h =
      elim (Spawn-cases (spawn_listener http medium system spec replay global open_addrs)) [
        | inl (up, bound, done) ↦
            let (forwarder, reaches, made) =
              spawn_listener_made system spec replay global open_addrs up bound done in
            let runtime =
              new_runtime http spec.name forwarder (global ++ spec.middleware) replay spec.mode
                spec.replay_miss_handler in
            let (keeps, all_run) =
              spawn_all-Runs system global rest (register http registry up) registry'
                (bound ∷ running) running' (open_addrs ++ bound ∷ []) (spec.name ∷ seen) d
                (rw (done, spawned) at h) in
            let registered : register http registry up ≡ insert spec.name runtime registry =
              ap (register http registry) made ∙ registers spec forwarder global replay registry in
            (
              λ name k.
                  keeps name (ap (λ b. (spec.name == name) || b) k ∙ or_true (spec.name == name))
                  ∙ ap (λ r. lookup name r) registered
                  ∙ lookup-insert spec.name name runtime registry
                  ∙ if_false _ _ (apart seen spec.name name new_name k),
              (
                (
                  forwarder,
                  reaches,
                  keeps spec.name
                        (ap (λ b. b || any (λ n. n == spec.name) seen) (eq_refl spec.name))
                      ∙ ap (λ r. lookup spec.name r) registered
                      ∙ lookup-insert_self spec.name runtime registry,
                ),
                all_run,
              ),
            )
        | inr (e, failed) ↦ absurd (cc (rw (failed, spawned) at h))
      ]
