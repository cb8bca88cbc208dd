-- ===== src/Storage.antt =====
-- crates/partly-proxy-types/src/storage.rs: the interface of a snapshot medium, `SnapshotStorage`.
-- A medium is its state; an operation returns its result and the state afterwards, also when it
-- fails.
pub mod Memory
pub mod Jsonl
pub mod Contract
pub mod Sqlite
pub mod Conformance
use partly_proxy.Base.{List, ◌++◌, [], ◌∷◌, ◌≡◌}
use partly_proxy.Types.Error.{Result, ok}
use partly_proxy.Types.Recorded.{RecordedExchange}

pub record SnapshotStorage : Type 1 where
  pub State : Type 0
  pub append : State → RecordedExchange → Result (Unit {0}) × State
  pub flush : State → Result (Unit {0}) × State
  -- The items of the stream.
  pub load : State → List (Result RecordedExchange)

-- The contract of a medium: what is appended is loaded, last and once, as the medium keeps it, and a
-- flush changes nothing that is loaded. `Good` is what holds of a medium that was opened and that
-- nobody else writes; a call that fails may break it.
pub record StorageLaws (medium : SnapshotStorage) : Type 1 where
  pub Good : medium.State → Type 0
  pub kept : RecordedExchange → RecordedExchange
  pub Good-append :
      (s : medium.State) (e : RecordedExchange)
      → Good s
      → (medium.append s e).0 ≡ ok tt
      → Good (medium.append s e).1
  pub load-append :
      (s : medium.State) (e : RecordedExchange)
      → Good s
      → (medium.append s e).0 ≡ ok tt
      → medium.load (medium.append s e).1 ≡ medium.load s ++ ok (kept e) ∷ []
  pub Good-flush : (s : medium.State) → Good s → Good (medium.flush s).1
  pub load-flush : (s : medium.State) → Good s → medium.load (medium.flush s).1 ≡ medium.load s
