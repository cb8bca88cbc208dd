-- ===== src/Recorder/Ring.antt =====
-- The ring buffer: the newest exchanges of the history, up to the capacity.
use partly_proxy.Base.{
  ℕ, suc, ◌+◌, ◌-◌, ◌<◌, true, List, [], ◌∷◌, ◌++◌, ◌≡◌, refl, arith, if_true, Map, Bool-cases, leb,
  eqb, length, drop, last_n, length-append, length-drop, drop-append, drop-drop, drop-nil,
  last_n-zero, sym, ◌∙◌, inl, inr,
}
use partly_proxy.Types.Error.{Result, ok, err}
use partly_proxy.Types.Recorded.{RecordedExchange}
use partly_proxy.Storage.{SnapshotStorage}
use partly_proxy.Recorder.{Recorder, evict, retain, retain_if_ok, persist, record_exchange}

-- The loop of `record` drops what is too much for one more.
evict-drop :
    (cap : ℕ) (xs : List RecordedExchange) → 0 < cap → evict cap xs ≡ drop (length xs + 1 - cap) xs
unfolding evict
evict-drop cap [] h = rw drop-nil
evict-drop cap (x ∷ xs) h = elim (Bool-cases (leb cap (length (x ∷ xs)))) [
  | inl full ↦
      let e : suc (length xs) + 1 - cap ≡ suc (length xs + 1 - cap) = ground arith in
      rw (full, e) (evict-drop cap xs h)
  | inr room ↦ let e : suc (length xs) + 1 - cap ≡ 0 = ground arith in rw (room, e)
]

-- The loop makes room for one more, and drops the oldest only.
evict-last_n :
    (cap : ℕ) (history : List RecordedExchange) (e : RecordedExchange)
    → 0 < cap
    → evict cap (last_n cap history) ++ e ∷ [] ≡ last_n cap (history ++ e ∷ [])
evict-last_n cap history e h =
    let n = length history in
    let k : (n - cap) + ((n - (n - cap)) + 1 - cap) ≡ n + 1 - cap = omega arith in
    rw (
      evict-drop cap (last_n cap history) h,
      drop-drop,
      length-drop,
      k,
      length-append,
      drop-append (n + 1 - cap) history (e ∷ []) (omega arith),
    )

module _ (medium : SnapshotStorage) where
  -- The buffer holds the newest exchanges of the history, as many as the capacity allows.
  abbrev pub IsRing : Recorder medium → List RecordedExchange → Type 0
  IsRing r history = r.buffer ≡ last_n r.config.max_in_memory history

  -- The configuration never changes.
  pub config-record_exchange :
      (r : Recorder medium) (e : RecordedExchange)
      → (record_exchange medium r e).1.config ≡ r.config
  unfolding record_exchange
  config-record_exchange r e = ground arith

  retain-IsRing :
      (r : Recorder medium) (history : List RecordedExchange) (e : RecordedExchange)
      → IsRing r history
      → IsRing (retain medium e r) (history ++ e ∷ [])
  unfolding retain
  retain-IsRing r history e h = elim (Bool-cases (eqb r.config.max_in_memory 0)) [
    | inl none_kept ↦
        let z : r.config.max_in_memory ≡ 0 = ground arith in
        rw none_kept (
          h
          ∙ last_n-zero r.config.max_in_memory history z
          ∙ sym (last_n-zero r.config.max_in_memory (history ++ e ∷ []) z))
    | inr some_kept ↦
        rw some_kept (rw h (evict-last_n r.config.max_in_memory history e (ground arith)))
  ]

  -- What `record` does to the ring: with `Ok` the exchange is the newest of the history and the
  -- waiters are notified once; with an error of the medium the buffer and the waiters are as before.
  abbrev pub Records :
      Recorder medium
      → List RecordedExchange
      → RecordedExchange
      → Result (Unit {0}) × Recorder medium
      → Type 0
  Records r history e (ok _, r') = IsRing r' (history ++ e ∷ []) × (r'.on_insert ≡ r.on_insert + 1)
  Records r history e (err x, r') = (r'.buffer ≡ r.buffer) × (r'.on_insert ≡ r.on_insert)

  on_insert-retain :
      (r : Recorder medium) (e : RecordedExchange) → (retain medium e r).on_insert ≡ r.on_insert + 1
  unfolding retain
  on_insert-retain r e = ground arith

  retain_if_ok-Records :
      (r : Recorder medium) (history : List RecordedExchange) (e : RecordedExchange)
      (res : Result (Unit {0})) (storage : Map medium.State)
      → IsRing r history
      → Records r history e (retain_if_ok medium e res (record r { storage = storage }))
  unfolding retain_if_ok
  retain_if_ok-Records r history e (ok u) storage h =
      let r' = record r { storage = storage } in
      (retain-IsRing r' history e h, on_insert-retain r' e)
  retain_if_ok-Records r history e (err x) storage h = (refl, refl)

  pub record_exchange-Records :
      (r : Recorder medium) (history : List RecordedExchange) (e : RecordedExchange)
      → r.config.enabled ≡ true
      → IsRing r history
      → Records r history e (record_exchange medium r e)
  unfolding record_exchange
  record_exchange-Records r history e h ring =
      let (res, storage) = persist medium r.storage e.upstream e in
      rw (if_true _ _ h) (retain_if_ok-Records r history e res storage ring)
