-- ===== src/Builder/Run/Resolved.antt =====
-- The upstreams behind the check of their names and the loads of their storages.
use partly_proxy.Base.{
  arith, String, false, Option, none, some, List, [], ◌∷◌, ◌≡◌, refl, sym, inl, inr, ◌==◌, any,
  Bool-cases, Map, map, ap, ◌∙◌, if_true, if_false,
}
use partly_proxy.Http.{Http}
use partly_proxy.Types.Error.{Result, ok, err, bind_ok}
use partly_proxy.Storage.{SnapshotStorage}
use partly_proxy.Types.Recorded.{RecordedExchange}
use partly_proxy.Replay
use partly_proxy.Replay.{ReplayState, from_storage}
use partly_proxy.Builder.{UpstreamSpec}
use partly_proxy.Builder.Run.{resolve_all, check_names, load_storage}

module _ (http : Http) (medium : SnapshotStorage) where
  abbrev pub Resolved : Type 0
  Resolved = UpstreamSpec http medium × Option ReplayState

  -- What a storage gives the upstream: the index of its contents, all of which could be loaded.
  abbrev pub Loaded : Option medium.State → Option ReplayState → Type 0
  Loaded none replay = replay ≡ none
  Loaded (some s) replay =
      (es : List RecordedExchange) × (medium.load s ≡ map ok es)
      × (replay ≡ some (Replay.new http es))

  abbrev pub Matches : List (UpstreamSpec http medium) → List Resolved → Type 0
  Matches [] [] = Unit
  Matches [] (r ∷ rs) = ⊥
  Matches (s ∷ ss) [] = ⊥
  Matches (s ∷ ss) ((s', replay) ∷ rs) = (s' ≡ s) × Loaded s.storage replay × Matches ss rs

  -- The names differ from each other and from those that were seen.
  abbrev pub DistinctFrom : List String → List Resolved → Type 0
  DistinctFrom seen [] = Unit
  DistinctFrom seen ((spec, replay) ∷ rest) =
      (any (λ n. n == spec.name) seen ≡ false) × DistinctFrom (spec.name ∷ seen) rest

  pub check_names-DistinctFrom :
      (seen : List String) (specs : List (UpstreamSpec http medium)) (resolved : List Resolved)
      → check_names http medium seen specs ≡ ok tt
      → Matches specs resolved
      → DistinctFrom seen resolved
  unfolding check_names
  check_names-DistinctFrom seen [] [] h m = tt
  check_names-DistinctFrom seen [] (r ∷ rs) h m = absurd m
  check_names-DistinctFrom seen (s ∷ ss) [] h m = absurd m
  check_names-DistinctFrom seen (s ∷ ss) ((s', replay) ∷ rs) h (same, loaded, m) =
      elim (Bool-cases (any (λ n. n == s.name) seen)) [
        | inl known ↦ absurd (cc (rw (if_true _ _ known) at h))
        | inr unknown ↦ rw same (
          unknown,
          check_names-DistinctFrom (s.name ∷ seen) ss rs (rw (if_false _ _ unknown) at h) m,
        )
      ]

  collected :
      (e : RecordedExchange) (r : Result (List RecordedExchange)) (es : List RecordedExchange)
      → (elim r [ err x ↦ err x | ok es' ↦ ok (e ∷ es') ]) ≡ ok es
      → (rest : List RecordedExchange) × (r ≡ ok rest) × (es ≡ e ∷ rest)
  collected e (err x) es h = absurd (cc h)
  collected e (ok rest) es h = (rest, refl, ground (arith, h))

  collect_all :
      (items : List (Result RecordedExchange)) (es : List RecordedExchange)
      → Replay.collect http items ≡ ok es
      → items ≡ map ok es
  collect_all [] es h = let e : [] ≡ es = ground (arith, h) in ap (map ok) e
  collect_all (err x ∷ items) es h = absurd (cc h)
  collect_all (ok e ∷ items) es h =
      let (rest, done, same) = collected e (Replay.collect http items) es h in
      ap (λ l. ok e ∷ l) (collect_all items rest done) ∙ ap (map ok) (sym same)

  indexed :
      (r : Result (List RecordedExchange)) (state : ReplayState)
      → (elim r [ err x ↦ err x | ok es ↦ ok (Replay.new http es) ]) ≡ ok state
      → (es : List RecordedExchange) × (r ≡ ok es) × (state ≡ Replay.new http es)
  indexed (err x) state h = absurd (cc h)
  indexed (ok es) state h = (es, refl, ground (arith, h))

  from_storage_loads :
      (s : medium.State) (state : ReplayState)
      → from_storage http medium s ≡ ok state
      → (es : List RecordedExchange) × (medium.load s ≡ map ok es) × (state ≡ Replay.new http es)
  unfolding from_storage
  from_storage_loads s state h =
      let (es, done, made) = indexed (Replay.collect http (medium.load s)) state h in
      (es, collect_all (medium.load s) es done, made)

  load_storage-Loaded :
      (name : String) (storage : Option medium.State) (routes routes' : Map medium.State)
      (replay : Option ReplayState)
      → load_storage http medium name storage routes ≡ ok (replay, routes')
      → Loaded storage replay
  unfolding load_storage
  load_storage-Loaded name none routes routes' replay h = ground (arith, h)
  load_storage-Loaded name (some s) routes routes' replay h =
      let (state, loads, e) = bind_ok (from_storage http medium s) _ (replay, routes') h in
      let (es, holds, made) = from_storage_loads s state loads in
      let same : replay ≡ some state = ground (arith, e) in (es, holds, same ∙ ap some made)

  pub resolve_all-Matches :
      (specs : List (UpstreamSpec http medium)) (routes routes' : Map medium.State)
      (resolved : List Resolved)
      → resolve_all http medium specs routes ≡ ok (resolved, routes')
      → Matches specs resolved
  unfolding resolve_all
  resolve_all-Matches [] routes routes' resolved h =
      let e : [] ≡ resolved = ground (arith, h) in rw (sym e) tt
  resolve_all-Matches (s ∷ ss) routes routes' resolved h =
      let ((replay, routes1), loads, rest) =
        bind_ok (load_storage http medium s.name s.storage routes) _ (resolved, routes') h in
      let ((later, routes2), resolves, made) =
        bind_ok (resolve_all http medium ss routes1) _ (resolved, routes') rest in
      let e : (s, replay) ∷ later ≡ resolved = ground (arith, made) in
      rw (sym e) (
        refl,
        load_storage-Loaded s.name s.storage routes routes1 replay loads,
        resolve_all-Matches ss routes1 routes2 later resolves,
      )
