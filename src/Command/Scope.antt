-- ===== src/Command/Scope.antt =====
-- What a command changes: the upstreams that it names, and nothing where it fails.
use text.Mathlib.TextPositions.{eq_refl}
use partly_proxy.Base.{
  ℕ, arith, String, true, false, Option, none, some, List, [], ◌∷◌, ◌++◌, ◌≡◌, refl, ap, ◌∙◌, ◌↔◌,
  inl, inr, All, lookup, lookup-insert, lookup-insert_self, ◌==◌, Option-cases, if_true, if_false,
}
use partly_proxy.Http.{Http}
use partly_proxy.Types.Error.{Result, ok, err}
use partly_proxy.Types.ProxyIo.{ProxyRequest}
use partly_proxy.Storage.{SnapshotStorage}
use partly_proxy.Stub
use partly_proxy.Stub.{RequestMatcher, StubbedResponse, StubEntry, take_match, matches}
use partly_proxy.Stub.Firing.{Passes, take_match_first}
use partly_proxy.Upstream.{UpstreamRuntime, UpstreamRegistry, get_runtime, names}
use partly_proxy.Command
use partly_proxy.Command.{ControlState, Round, dispatch}
use partly_proxy.Command.Targets.{change_scope}

module _ (http : Http) where
  -- Without a name a command that needs one upstream finds it exactly where there is just one.
  pub resolve_upstream_only :
      (upstreams : UpstreamRegistry http)
      → ((name : String) × (up : UpstreamRuntime http) × (Command.resolve_upstream http upstreams
              none
            ≡ ok (name, up)))
        ↔ ((name : String) × (up : UpstreamRuntime http) × (upstreams ≡ (name, up) ∷ []))
  unfolding Command.resolve_upstream Command.only Command.found names get_runtime lookup
  resolve_upstream_only [] = (λ (n, up, h). absurd (cc h), λ (n, up, h). absurd (cc h))
  resolve_upstream_only ((n, up) ∷ []) =
      (λ h. (n, up, refl), λ h. (n, up, ap (Command.found http n) (if_true _ _ (eq_refl n))))
  resolve_upstream_only ((n, up) ∷ (n', up') ∷ rest) =
      (λ (k, u, h). absurd (cc h), λ (k, u, h). absurd (cc h))

module _ (http : Http) (medium : SnapshotStorage) where
  changed :
      (f : UpstreamRuntime http → UpstreamRuntime http) (s : ControlState http medium)
      (target : Option String) (m : String)
      → some (Command.change http f s.upstreams target).0 ≡ some (Command.error m)
      → record s { upstreams = (Command.change http f s.upstreams target).1 } ≡ s
  changed f s target m h = elim (change_scope http f s.upstreams target) [
    | inl (_, fine, _) ↦ absurd (cc (h, fine))
    | inr (_, _, _, same, _) ↦ ap (λ u. record s { upstreams = u }) same
  ]

  add_stub_error :
      (entry : StubEntry http) (s : ControlState http medium)
      (r : Result (String × UpstreamRuntime http)) (m : String)
      → some (Command.add_stub http entry s.upstreams r).0 ≡ some (Command.error m)
      → record s { upstreams = (Command.add_stub http entry s.upstreams r).1 } ≡ s
  unfolding Command.add_stub
  add_stub_error entry s (err x) m h = refl
  add_stub_error entry s (ok (name, up)) m h = absurd (cc h)

  -- A command that is answered with an error has changed nothing.
  pub dispatch_error :
      (cmd : Command.Command http) (rounds : List (Round medium)) (s : ControlState http medium)
      (m : String)
      → (dispatch http medium cmd rounds s).0 ≡ some (Command.error m)
      → (dispatch http medium cmd rounds s).1 ≡ s
  unfolding Command.dispatch Command.on_upstreams Command.set_pause
  dispatch_error (Command.stub target matcher response times) rounds s m h =
      add_stub_error (record { matcher = matcher; response = response; times = times }) s
        (Command.resolve_upstream http s.upstreams target) m h
  dispatch_error (Command.clear_stubs target) rounds s m h =
      changed (Command.without_stubs http) s target m h
  dispatch_error (Command.pause target) rounds s m h =
      changed (Command.with_pause http true) s target m h
  dispatch_error (Command.resume target) rounds s m h =
      changed (Command.with_pause http false) s target m h
  dispatch_error (Command.query_traffic filter) rounds s m h = refl
  dispatch_error Command.clear_recordings rounds s m h = absurd (cc h)
  dispatch_error (Command.assert_seen filter timeout) rounds s m h = refl
  dispatch_error (Command.assert_count filter expected timeout) rounds s m h = refl

  resolve-lookup :
      (upstreams : UpstreamRegistry http) (target : Option String) (name : String)
      (up : UpstreamRuntime http)
      → Command.resolve_upstream http upstreams target ≡ ok (name, up)
      → lookup name upstreams ≡ some up
  unfolding Command.resolve_upstream Command.found get_runtime
  resolve-lookup upstreams (some n) name up h = elim (Option-cases (lookup n upstreams)) [
    | inl unknown ↦ absurd (cc (rw (unknown, Command.found) at h))
    | inr (u, known) ↦ ground (arith, known, rw (known, Command.found) at h)
  ]
  resolve-lookup upstreams none name up h =
      let (n, u, e) = (resolve_upstream_only http upstreams).0 (name, up, h) in ground (arith, e, h)

  -- A stub that is registered on an upstream answers the first request that its matcher accepts and
  -- no earlier stub of that upstream does, with its response and its delay; every other upstream, the
  -- recorder, and all of this upstream but its stubs are as before.
  pub dispatch_stub_answers :
      (target : Option String) (matcher : RequestMatcher http) (response : StubbedResponse)
      (times : Option ℕ) (rounds : List (Round medium)) (s : ControlState http medium)
      (name : String) (up : UpstreamRuntime http) (req : ProxyRequest http)
      → Command.resolve_upstream http s.upstreams target ≡ ok (name, up)
      → All (Passes http req) up.stubs
      → matches http matcher req ≡ true
      → let (answer, s') =
          dispatch http medium (Command.stub target matcher response times) rounds s in
        (answer ≡ some Command.done)
        × (s'.recorder ≡ s.recorder)
        × ((other : String)
            → (name == other) ≡ false
            → lookup other s'.upstreams ≡ lookup other s.upstreams)
        × (stubs : Stub.StubStore http) × (lookup name s'.upstreams
            ≡ some (record up { stubs = stubs }))
        × ((take_match http req stubs).0 ≡ some (response, response.delay))
  unfolding Command.dispatch Command.on_upstreams Command.add_stub Command.with_stub Stub.add
  dispatch_stub_answers target matcher response times rounds s name up req resolved passes hit =
      let entry : StubEntry http = record {
        matcher = matcher;
        response = response;
        times = times;
      } in
      let up' = record up { stubs = up.stubs ++ entry ∷ [] } in
      let (fires, _) = take_match_first http req up.stubs [] entry passes in
      rw (resolved, Command.add_stub)
        (
          refl,
          refl,
          λ other apart. lookup-insert name other up' s.upstreams ∙ if_false _ _ apart,
          up.stubs ++ entry ∷ [],
          lookup-insert_self name up' s.upstreams,
          rw (fires hit),
        )
