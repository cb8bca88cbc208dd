-- ===== src/Recorder.antt =====
-- crates/partly-proxy-lib/src/recorder.rs. The recorder is shared by every listener and the command
-- processor; its lock is held for each whole operation, so an operation takes the state and returns
-- it. `on_insert` is the number of times that the waiters were notified.
pub mod Ring
pub mod History
pub mod Durable
use partly_proxy.Base.{
  ℕ, zero, suc, ◌+◌, String, Bool, true, false, Option, none, some, List, [], ◌∷◌, ◌++◌, Map,
  lookup, insert, leb, eqb, if◌then◌else◌, length, select, find, any,
}
use partly_proxy.Types.Error.{Result, ok, err}
use partly_proxy.Types.Recorded.{RecordedExchange}
use partly_proxy.Config.{RecordingConfig}
use partly_proxy.Storage.{SnapshotStorage}

pub record Recorder (medium : SnapshotStorage) : Type 0 where
  pub config : RecordingConfig
  pub buffer : List RecordedExchange
  pub storage : Map medium.State
  pub on_insert : ℕ

-- `while state.buffer.len() >= max { state.buffer.pop_front(); }`
unfoldable pub evict : ℕ → List RecordedExchange → List RecordedExchange
evict cap [] = []
evict cap (x ∷ xs) = let rest = evict cap xs in if leb cap (length (x ∷ xs)) then rest else x ∷ xs

module _ (medium : SnapshotStorage) where
  -- `Recorder::with_routes`; `Recorder::new` has no routes.
  unfoldable pub with_routes : RecordingConfig → Map medium.State → Recorder medium
  with_routes config storage = record {
    config = config;
    buffer = [];
    storage = storage;
    on_insert = 0;
  }

  unfoldable pub storage_for : Recorder medium → String → Option medium.State
  storage_for r upstream = lookup upstream r.storage

  -- The append to the medium of the exchange's upstream, if it has one.
  appended :
      Map medium.State
      → String
      → Option medium.State
      → RecordedExchange
      → Result (Unit {0}) × Map medium.State
  appended storage name none e = (ok tt, storage)
  appended storage name (some s) e =
      let (res, s') = medium.append s e in (res, insert name s' storage)

  persist :
      Map medium.State → Option String → RecordedExchange → Result (Unit {0}) × Map medium.State
  unfolding appended
  persist storage none e = (ok tt, storage)
  persist storage (some name) e = appended storage name (lookup name storage) e

  -- The insertion into the ring, and the notification.
  retain : RecordedExchange → Recorder medium → Recorder medium
  retain e r =
      let cap = r.config.max_in_memory in
      if eqb cap 0
      then record r { on_insert = r.on_insert + 1 }
      else record r { buffer = evict cap r.buffer ++ e ∷ []; on_insert = r.on_insert + 1 }

  retain_if_ok :
      RecordedExchange → Result (Unit {0}) → Recorder medium → Result (Unit {0}) × Recorder medium
  unfolding retain
  retain_if_ok e (err x) r = (err x, r)
  retain_if_ok e (ok _) r = (ok tt, retain e r)

  -- `Recorder::record`
  unfoldable pub record_exchange :
      Recorder medium → RecordedExchange → Result (Unit {0}) × Recorder medium
  unfolding persist retain_if_ok
  record_exchange r e =
      if r.config.enabled
      then (let (res, storage) = persist r.storage e.upstream e in
          retain_if_ok e res (record r { storage = storage }))
      else (ok tt, r)

  -- The loop of `Recorder::flush`, which ends at the first error.
  flush_all : Map medium.State → Result (Unit {0}) × Map medium.State
  flush_all [] = (ok tt, [])
  flush_all ((name, s) ∷ rest) =
      let (res, s') = medium.flush s in
      let (later, rest') = flush_all rest in
      elim res [ err x ↦ (err x, (name, s') ∷ rest) | ok _ ↦ (later, (name, s') ∷ rest') ]

  unfoldable pub flush : Recorder medium → Result (Unit {0}) × Recorder medium
  unfolding flush_all
  flush r = let (res, storage) = flush_all r.storage in (res, record r { storage = storage })

  -- `exchanges`, `len`, `clear` and the scans.
  unfoldable pub exchanges : Recorder medium → List RecordedExchange
  exchanges r = r.buffer

  unfoldable pub len : Recorder medium → ℕ
  len r = length r.buffer

  unfoldable pub clear : Recorder medium → Recorder medium
  clear r = record r { buffer = [] }

  unfoldable pub any_matching : (RecordedExchange → Bool) → Recorder medium → Bool
  any_matching pred r = any pred r.buffer

  unfoldable pub count_matching : (RecordedExchange → Bool) → Recorder medium → ℕ
  count_matching pred r = length (select pred r.buffer)

  unfoldable pub find_matching :
      (RecordedExchange → Bool) → Recorder medium → Option RecordedExchange
  find_matching pred r = find pred r.buffer
