-- ===== src/Recorder/Durable.antt =====
-- The media behind the recorder, over any medium that keeps its contract.
use mathlib.Core.List.{append-nil, append_assoc, map-append}
use partly_proxy.Base.{
  take, take-append-drop, drop-nil, ℕ, ◌-◌, String, Bool, true, false, Option, none, some, List, [],
  ◌∷◌, ◌++◌, ◌≡◌, map, refl, ap, sym, ◌∙◌, inl, inr, arith, eq_iff, ◌==◌, Map, lookup,
  lookup-insert, if_true, if_false, Bool-cases, select, select-append, drop, length,
}
use partly_proxy.Types.Error.{Result, ok, err, Result-cases}
use partly_proxy.Types.Recorded.{RecordedExchange}
use partly_proxy.Config.{RecordingConfig}
use partly_proxy.Storage.{SnapshotStorage, StorageLaws}
use partly_proxy.Recorder.{Recorder, retain_if_ok, appended, persist, record_exchange, with_routes}
use partly_proxy.Recorder.Ring.{IsRing, Records, record_exchange-Records, config-record_exchange}

-- Whether an exchange carries the name of an upstream.
abbrev pub is_named : String → Option String → Bool
is_named name none = false
is_named name (some n) = n == name

abbrev pub has_upstream : String → RecordedExchange → Bool
has_upstream name e = is_named name e.upstream

abbrev pub of_upstream : String → List RecordedExchange → List RecordedExchange
of_upstream name es = select (has_upstream name) es

of_upstream-other :
    (name : String) (es : List RecordedExchange) (e : RecordedExchange)
    → has_upstream name e ≡ false
    → of_upstream name (es ++ e ∷ []) ≡ of_upstream name es
of_upstream-other name es e other =
    select-append (has_upstream name) es (e ∷ []) ∙ rw (if_false _ _ other) (append-nil _)

of_upstream-own :
    (name : String) (es : List RecordedExchange) (e : RecordedExchange)
    → has_upstream name e ≡ true
    → of_upstream name (es ++ e ∷ []) ≡ of_upstream name es ++ e ∷ []
of_upstream-own name es e own = select-append (has_upstream name) es (e ∷ []) ∙ rw (if_true _ _ own)

module _ (medium : SnapshotStorage) (laws : StorageLaws medium) where
  -- The medium of an upstream is there, is sound, and holds behind its first contents `s` the
  -- exchanges `es`, as the medium keeps them.
  abbrev pub Holds : medium.State → Option medium.State → List RecordedExchange → Type 0
  Holds s none es = ⊥
  Holds s (some s') es =
      laws.Good s' × (medium.load s' ≡ medium.load s ++ map (λ e. ok (laws.kept e)) es)

  Holds-append :
      (name : String) (s s' : medium.State) (es : List RecordedExchange) (e : RecordedExchange)
      → has_upstream name e ≡ true
      → (medium.append s' e).0 ≡ ok tt
      → Holds s (some s') (of_upstream name es)
      → Holds s (some (medium.append s' e).1) (of_upstream name (es ++ e ∷ []))
  Holds-append name s s' es e own done (good, loaded) = (
    laws.Good-append s' e good done,
    rw (laws.load-append s' e good done, loaded, of_upstream-own name es e own, map-append)
        (append_assoc (medium.load s) (map (λ x. ok (laws.kept x)) (of_upstream name es))
          (ok (laws.kept e) ∷ [])),
  )

  -- The append to the medium `s'` of the upstream `n`, which may be the one in question.
  appended-Holds :
      (name n : String) (s : medium.State) (storage : Map medium.State) (o : Option medium.State)
      (es : List RecordedExchange) (e : RecordedExchange)
      → lookup n storage ≡ o
      → e.upstream ≡ some n
      → (appended medium storage n o e).0 ≡ ok tt
      → Holds s (lookup name storage) (of_upstream name es)
      → Holds s (lookup name (appended medium storage n o e).1) (of_upstream name (es ++ e ∷ []))
  unfolding appended
  appended-Holds name n s storage none es e at named done h = elim (Bool-cases (n == name)) [
    | inl same ↦ absurd (rw (← (eq_iff n name).0 same, at) at h)
    | inr other ↦ rw (of_upstream-other name es e (ap (is_named name) named ∙ other)) h
  ]
  appended-Holds name n s storage (some s') es e at named done h = elim (Bool-cases (n == name)) [
    | inl same ↦
        let at' : lookup name storage ≡ some s' = rw (← (eq_iff n name).0 same) at in
        rw (lookup-insert, if_true _ _ same)
          (Holds-append name s s' es e (ap (is_named name) named ∙ same) done (rw at' at h))
    | inr other ↦
        rw
          (
            lookup-insert,
            if_false _ _ other,
            of_upstream-other name es e (ap (is_named name) named ∙ other),
          )
          h
  ]

  persist-Holds :
      (name : String) (s : medium.State) (storage : Map medium.State) (o : Option String)
      (es : List RecordedExchange) (e : RecordedExchange)
      → e.upstream ≡ o
      → (persist medium storage o e).0 ≡ ok tt
      → Holds s (lookup name storage) (of_upstream name es)
      → Holds s (lookup name (persist medium storage o e).1) (of_upstream name (es ++ e ∷ []))
  unfolding persist
  persist-Holds name s storage none es e named done h =
      rw (of_upstream-other name es e (ap (is_named name) named)) h
  persist-Holds name s storage (some n) es e named done h =
      appended-Holds name n s storage (lookup n storage) es e refl named done h

  -- A successful `record` of an enabled recorder has appended.
  retain_if_ok-inverted :
      (e : RecordedExchange) (res : Result (Unit {0})) (r : Recorder medium)
      → (retain_if_ok medium e res r).0 ≡ ok tt
      → (res ≡ ok tt) × ((retain_if_ok medium e res r).1.storage ≡ r.storage)
  unfolding retain_if_ok
  retain_if_ok-inverted e (ok u) r h = (refl, ground arith)
  retain_if_ok-inverted e (err x) r h = cc

  record_exchange-Holds :
      (name : String) (s : medium.State) (r : Recorder medium) (es : List RecordedExchange)
      (e : RecordedExchange)
      → r.config.enabled ≡ true
      → (record_exchange medium r e).0 ≡ ok tt
      → Holds s (lookup name r.storage) (of_upstream name es)
      → Holds s
          (lookup name (record_exchange medium r e).1.storage)
          (of_upstream name (es ++ e ∷ []))
  unfolding record_exchange
  record_exchange-Holds name s r es e on done h =
      let (res, storage) = persist medium r.storage e.upstream e in
      let (appended_ok, kept) =
        retain_if_ok-inverted e res (record r { storage = storage })
          (rw (if_true _ _ on) at done) in
      rw (if_true _ _ on, kept) (persist-Holds name s r.storage e.upstream es e refl appended_ok h)

  go_on :
      Result (Unit {0})
      → Recorder medium
      → Result (Unit {0}) × Recorder medium
      → Result (Unit {0}) × Recorder medium
  go_on (ok _) r later = later
  go_on (err x) r later = (err x, r)

  -- Calls of `record` one after another, up to the first error.
  unfoldable pub record_all :
      List RecordedExchange → Recorder medium → Result (Unit {0}) × Recorder medium
  unfolding go_on
  record_all [] r = (ok tt, r)
  record_all (e ∷ es) r =
      let (res, r') = record_exchange medium r e in go_on res r' (record_all es r')

  record_all-Holds :
      (name : String) (s : medium.State) (es : List RecordedExchange) (r : Recorder medium)
      (passed : List RecordedExchange)
      → r.config.enabled ≡ true
      → (record_all es r).0 ≡ ok tt
      → IsRing medium r passed
      → Holds s (lookup name r.storage) (of_upstream name passed)
      → let r' = (record_all es r).1 in
        IsRing medium r' (passed ++ es)
        × Holds s (lookup name r'.storage) (of_upstream name (passed ++ es))
  unfolding record_all
  record_all-Holds name s [] r passed on done ring h = rw append-nil (ring, h)
  record_all-Holds name s (e ∷ es) r passed on done ring h =
      let r' = (record_exchange medium r e).1 in
      let records = record_exchange-Records medium r passed e on ring in
      elim (Result-cases (record_exchange medium r e).0) [
        | inl stored ↦ rw stored (
            rw append_assoc at (
              record_all-Holds name s es r' (passed ++ e ∷ []) (rw config-record_exchange on)
                (rw (stored, go_on) at done) (rw (stored, Records) at records).0
                (record_exchange-Holds name s r passed e on stored h)))
        | inr (x, failed) ↦ absurd (cc (rw (failed, go_on) at done))
      ]

  select-drop :
      (p : RecordedExchange → Bool) (n : ℕ) (xs : List RecordedExchange)
      → select p xs ≡ select p (take n xs) ++ select p (drop n xs)
  select-drop p n xs =
      ap (select p) (sym (take-append-drop n xs)) ∙ select-append p (take n xs) (drop n xs)

  -- After a run of successful `record` calls on a fresh, enabled recorder, the medium that was
  -- registered for an upstream holds, behind what it held at first, exactly that upstream's exchanges
  -- in the order of the calls, as the medium keeps them; and what the ring buffer holds of that upstream is the end of them.
  pub recorder-Holds :
      (config : RecordingConfig) (storage : Map medium.State) (es : List RecordedExchange)
      (name : String) (s : medium.State)
      → config.enabled ≡ true
      → lookup name storage ≡ some s
      → laws.Good s
      → (record_all es (with_routes medium config storage)).0 ≡ ok tt
      → let r = (record_all es (with_routes medium config storage)).1 in
        Holds s (lookup name r.storage) (of_upstream name es)
        × (before : List RecordedExchange) × (of_upstream name es
            ≡ before ++ of_upstream name r.buffer)
  unfolding with_routes
  recorder-Holds config storage es name s on route good done =
      let r0 = with_routes medium config storage in
      let fresh : Holds s (lookup name storage) [] = rw (route, append-nil) (good, refl) in
      let (ring, held) =
        record_all-Holds name s es r0 [] on done (sym (drop-nil (0 - config.max_in_memory)))
          fresh in
      let r = (record_all es r0).1 in
      let n = length es - r.config.max_in_memory in
      (held, of_upstream name (take n es), rw ring (select-drop (has_upstream name) n es))
