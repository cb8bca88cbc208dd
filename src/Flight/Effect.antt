-- ===== src/Flight/Effect.antt =====
-- What one step of a request in flight does to the shared state.
use partly_proxy.Base.{
  not, Option, none, some, List, [], ◌∷◌, ◌≡◌, refl, ap, ◌⊎◌, inl, inr, Bool-cases, if_true,
  if_false, Option-cases,
}
use partly_proxy.Http.{Http}
use partly_proxy.Types.Error.{Result, ok, err}
use partly_proxy.Types.ProxyIo.{ProxyRequest, ProxyResponse}
use partly_proxy.Types.Recorded.{RecordedExchange, response, new_exchange}
use partly_proxy.Types.Context.{
  RequestContext, ResponseSource, stub, snapshot, replay_miss, upstream, response_source,
}
use partly_proxy.Storage.{SnapshotStorage}
use partly_proxy.Stub.{StubStore, take_match}
use partly_proxy.Forwarder.{Client}
use partly_proxy.Recorder.History.{Operation, record_op, operate, operate_all}
use partly_proxy.Listener.{World, Ambient, promote, persist, is_snapshot, build_recorded}
use partly_proxy.Listener.Records.{promoted}
use partly_proxy.Flight.{
  Flight, at_gate, at_stubs, at_replay, at_upstream, at_end, at_recorder, answered, succeed,
  concluded, advance,
}

module _ (http : Http) where
  -- The call that a request makes of the recorder in its next step.
  abbrev pub handed : (medium : SnapshotStorage) → Flight http → List (Operation medium)
  handed medium (at_recorder e resp) = record_op e ∷ []
  handed medium _ = []

  abbrev pub IsAtUpstream : Flight http → Type 0
  IsAtUpstream (at_upstream env original req ctx k) = Unit
  IsAtUpstream _ = ⊥

module _ (http : Http) (client : Client http) (medium : SnapshotStorage) where
  -- The stubs behind the next step of a request.
  abbrev pub stubs_after : Flight http → World http client medium → StubStore http
  stubs_after (at_stubs env original req ctx k) w = (take_match http req w.runtime.stubs).1
  stubs_after _ w = w.runtime.stubs

  -- One step of `f` from `w` to `w'`.
  pub record Effect (f : Flight http) (w w' : World http client medium) : Type 0 where
    pub same_name : w'.runtime.name ≡ w.runtime.name
    pub same_mode : w'.runtime.mode ≡ w.runtime.mode
    pub same_pause : w'.runtime.pause ≡ w.runtime.pause
    pub stubs : w'.runtime.stubs ≡ stubs_after f w
    -- The recorder takes the call that the request makes, whatever the history is.
    pub recorder :
        (history : List RecordedExchange)
        → w'.recorder ≡ (operate_all medium (handed http medium f) w.recorder history).0
    -- The index stays, or an exchange of this upstream is inserted.
    pub index :
        (w'.runtime.replay ≡ w.runtime.replay)
        ⊎ ((e : RecordedExchange) × (e.upstream ≡ some w.runtime.name)
            × (w'.runtime.replay ≡ promoted http client medium e w.runtime.replay))
    pub net : (w'.net ≡ w.net) ⊎ IsAtUpstream http f

  -- A step that changes nothing, of a request that does not call the recorder.
  still-Effect :
      (f : Flight http) (w : World http client medium)
      → handed http medium f ≡ []
      → stubs_after f w ≡ w.runtime.stubs
      → Effect f w w
  unfolding operate_all
  still-Effect f w quiet untouched = record {
    same_name = refl;
    same_mode = refl;
    same_pause = refl;
    stubs = rw untouched refl;
    recorder = λ history. rw quiet refl;
    index = inl refl;
    net = inl refl;
  }

  promote-Effect :
      (env : Ambient) (original : ProxyRequest http) (res : Result (ProxyResponse http))
      (ctx : RequestContext http) (source : Option ResponseSource) (e : RecordedExchange)
      (w : World http client medium)
      → e.upstream ≡ some w.runtime.name
      → Effect (at_end env original res ctx) w (promote http client medium source e w)
  unfolding promote operate_all
  promote-Effect env original res ctx (some upstream) e w named =
      elim (Option-cases w.runtime.replay) [
        | inl absent ↦ rw absent (still-Effect (at_end env original res ctx) _ refl refl)
        | inr (state, present) ↦ rw present (record {
          same_name = refl;
          same_mode = refl;
          same_pause = refl;
          stubs = refl;
          recorder = λ history. refl;
          index = inr (e, named, refl);
          net = inl refl;
        })
      ]
  promote-Effect env original res ctx (some stub) e w named = still-Effect _ w refl refl
  promote-Effect env original res ctx (some snapshot) e w named = still-Effect _ w refl refl
  promote-Effect env original res ctx (some replay_miss) e w named = still-Effect _ w refl refl
  promote-Effect env original res ctx none e w named = still-Effect _ w refl refl

  succeed-Effect :
      (env : Ambient) (original : ProxyRequest http) (res : Result (ProxyResponse http))
      (final : ProxyResponse http) (ctx : RequestContext http) (source : Option ResponseSource)
      (w : World http client medium)
      → Effect
          (at_end env original res ctx)
          w
          (succeed http client medium env original final source w).1
  unfolding succeed
  succeed-Effect env original res final ctx source w =
      let f : Flight http = at_end env original res ctx in
      elim (Bool-cases w.recorder.config.enabled) [
        | inl on ↦ elim (Bool-cases (is_snapshot http client medium source)) [
          | inl hit ↦ rw (if_false _ _ (ap not on), if_true _ _ hit) (still-Effect f w refl refl)
          | inr live ↦
              let (req, resp) = build_recorded http w.runtime original final in
              rw (if_false _ _ (ap not on), if_false _ _ live)
                (promote-Effect env original res ctx source
                  (new_exchange env.stamp (some w.runtime.name) req (response resp) env.elapsed) w
                  refl)
        ]
        | inr off ↦ rw (if_true _ _ (ap not off)) (still-Effect f w refl refl)
      ]

  pub advance-Effect :
      (f : Flight http) (w : World http client medium)
      → Effect f w (advance http client medium f w).1
  unfolding advance concluded persist operate_all operate
  advance-Effect (at_gate env head body) w = elim (Bool-cases w.runtime.pause) [
    | inl paused ↦ rw paused (still-Effect _ _ refl refl)
    | inr running ↦ rw running (still-Effect _ _ refl refl)
  ]
  advance-Effect (at_stubs env original req ctx k) w = record {
    same_name = refl;
    same_mode = refl;
    same_pause = refl;
    stubs = refl;
    recorder = λ history. refl;
    index = inl refl;
    net = inl refl;
  }
  advance-Effect (at_replay env original req ctx k) w = still-Effect _ w refl refl
  advance-Effect (at_upstream env original req ctx k) w = record {
    same_name = refl;
    same_mode = refl;
    same_pause = refl;
    stubs = refl;
    recorder = λ history. refl;
    index = inl refl;
    net = inr tt;
  }
  advance-Effect (at_end env original (ok final) ctx) w =
      succeed-Effect env original (ok final) final ctx (response_source http ctx) w
  advance-Effect (at_end env original (err x) ctx) w = still-Effect _ w refl refl
  advance-Effect (at_recorder e resp) w = record {
    same_name = refl;
    same_mode = refl;
    same_pause = refl;
    stubs = refl;
    recorder = λ history. refl;
    index = inl refl;
    net = inl refl;
  }
  advance-Effect (answered resp) w = still-Effect _ w refl refl
