-- ===== src/Storage/Memory.antt =====
-- crates/partly-proxy-types/src/storage.rs: `InMemoryStorage`.
use partly_proxy.Base.{List, [], ◌∷◌, ◌++◌, ◌≡◌, refl, map}
use mathlib.Core.List.{map-append}
use partly_proxy.Types.Error.{Result, ok}
use partly_proxy.Types.Recorded.{RecordedExchange}
use partly_proxy.Storage.{SnapshotStorage, StorageLaws}

pub record InMemoryStorage : Type 0 where
  pub exchanges : List RecordedExchange

-- `InMemoryStorage::new`, and `from` a vector.
abbrev pub new : InMemoryStorage
new = record { exchanges = [] }

unfoldable pub from_exchanges : List RecordedExchange → InMemoryStorage
from_exchanges exchanges = record { exchanges = exchanges }

unfoldable pub append : InMemoryStorage → RecordedExchange → Result (Unit {0}) × InMemoryStorage
append s e = (ok tt, record { exchanges = s.exchanges ++ e ∷ [] })

unfoldable pub flush : InMemoryStorage → Result (Unit {0}) × InMemoryStorage
flush s = (ok tt, s)

unfoldable pub load : InMemoryStorage → List (Result RecordedExchange)
load s = map ok s.exchanges

abbrev pub in_memory_storage : SnapshotStorage
in_memory_storage = record { State = InMemoryStorage; append = append; flush = flush; load = load }

pub load-append_lem :
    (s : InMemoryStorage) (e : RecordedExchange) → load (append s e).1 ≡ load s ++ ok e ∷ []
unfolding load append
load-append_lem s e = rw map-append

pub load-flush_lem : (s : InMemoryStorage) → load (flush s).1 ≡ load s
unfolding flush
load-flush_lem s = refl

-- The in-memory store keeps the contract, with no condition on its state.
unfoldable pub in_memory_laws : StorageLaws in_memory_storage
in_memory_laws = record {
  Good = λ s. Unit;
  kept = λ e. e;
  Good-append = λ s e h ok. tt;
  Good-flush = λ s h. tt;
  load-append = λ s e h ok. load-append_lem s e;
  load-flush = λ s h. load-flush_lem s;
}
