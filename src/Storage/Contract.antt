-- ===== src/Storage/Contract.antt =====
-- Calls of `append` one after another, over any medium that keeps its contract.
use mathlib.Core.List.{append-nil, append_assoc}
use partly_proxy.Base.{List, [], ◌∷◌, ◌++◌, ◌≡◌, refl, ap, ◌∙◌, map, inl, inr}
use partly_proxy.Types.Error.{Result, ok, err, Result-cases}
use partly_proxy.Types.Recorded.{RecordedExchange}
use partly_proxy.Storage.{SnapshotStorage, StorageLaws}

module _ (medium : SnapshotStorage) where
  go_on :
      Result (Unit {0})
      → medium.State
      → Result (Unit {0}) × medium.State
      → Result (Unit {0}) × medium.State
  go_on (ok _) s later = later
  go_on (err x) s later = (err x, s)

  -- Up to the first error.
  unfoldable pub append_all :
      List RecordedExchange → medium.State → Result (Unit {0}) × medium.State
  unfolding go_on
  append_all [] s = (ok tt, s)
  append_all (e ∷ es) s = let (res, s') = medium.append s e in go_on res s' (append_all es s')

module _ (medium : SnapshotStorage) (laws : StorageLaws medium) where
  pub load-append_all :
      (es : List RecordedExchange) (s : medium.State)
      → laws.Good s
      → (append_all medium es s).0 ≡ ok tt
      → let s' = (append_all medium es s).1 in
        laws.Good s' × (medium.load s' ≡ medium.load s ++ map (λ e. ok (laws.kept e)) es)
  unfolding append_all
  load-append_all [] s good done = rw append-nil (good, refl)
  load-append_all (e ∷ es) s good done =
      let (res, s') = medium.append s e in
      elim (Result-cases res) [
        | inl stored ↦
            let (good', loaded) =
              load-append_all es s' (laws.Good-append s e good stored)
                (rw (stored, go_on) at done) in
            rw (stored, go_on)
              (
                good',
                loaded
                    ∙ ap (λ l. l ++ map (λ x. ok (laws.kept x)) es)
                        (laws.load-append s e good stored)
                    ∙ append_assoc (medium.load s) (ok (laws.kept e) ∷ [])
                        (map (λ x. ok (laws.kept x)) es),
              )
        | inr (x, failed) ↦ absurd (cc (rw (failed, go_on) at done))
      ]
