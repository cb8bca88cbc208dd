-- ===== src/Storage/Sqlite.antt =====
-- crates/partly-proxy-storage-sqlite/src/lib.rs. The database (sqlx) and the text of a document
-- (serde_json) are a parameter: a statement gives its result and the database afterwards, and a fixed
-- text stands for that of an error of serde_json.
pub mod Rows
use partly_proxy.Base.{
  ℕ, ◌-◌, ◌/◌, ◌^◌, min, String, Bytes, Bool, true, false, Option, none, some, List, [], ◌∷◌, map,
}
use partly_proxy.Types.Error.{ProxyError, Result, ok, err, Fallible, fine, failed, recording, ◌>>=◌}
use partly_proxy.Types.Recorded.{RecordedExchange}
use partly_proxy.Types.Encoding.{Serde, to_vec, from_text}
use partly_proxy.Storage.{SnapshotStorage}

-- `SqliteConnectOptions` and `SqlitePoolOptions`; no file name stands for `sqlite::memory:`.
pub record ConnectOptions : Type 0 where
  pub filename : Option String
  pub create_if_missing : Bool
  pub wal : Bool
  pub synchronous_normal : Bool
  pub max_connections : ℕ

-- The columns of an inserted row but `seq`, which the database counts.
pub record Row : Type 0 where
  pub id : String
  pub upstream : Option String
  pub timestamp : String
  pub duration_ms : ℕ
  pub method : String
  pub uri : String
  pub body_sha256 : String
  pub payload : Bytes

pub data Statement : Type 0 where
  create_table create_index : Statement
  insert_row : Row → Statement

pub record Sqlx : Type 1 where
  pub Pool : Type 0
  pub connect_with : ConnectOptions → Fallible Pool
  pub execute : Pool → Statement → Fallible (Unit {0}) × Pool
  -- `SELECT payload FROM exchanges ORDER BY seq`, with `try_get` on each row
  pub fetch_payloads : Pool → List (Fallible Bytes)
  pub serde : Serde
  pub uuid_text : ℕ → String
  pub to_rfc3339 : ℕ → String

-- `into_recording`
unfoldable pub into_recording : String → ProxyError
into_recording e = recording e

-- `.map_err(into_recording)`
unfoldable pub map_err : {A : Type 0} → Fallible A → Result A
unfolding into_recording
map_err (fine a) = ok a
map_err (failed e) = err (into_recording e)

unfoldable pub or_failed : {A : Type 0} → String → Option A → Fallible A
or_failed message none = failed message
or_failed message (some a) = fine a

-- `i64::try_from(millis).unwrap_or(i64::MAX)`
unfoldable pub whole_ms : ℕ → ℕ
whole_ms d = min (d / 1_000_000) (2 ^ 63 - 1)

module _ (sqlx : Sqlx) where
  unfoldable pub row_of : RecordedExchange → Bytes → Row
  unfolding whole_ms
  row_of e payload = record {
    id = sqlx.uuid_text e.id;
    upstream = e.upstream;
    timestamp = sqlx.to_rfc3339 e.timestamp;
    duration_ms = whole_ms e.duration;
    method = e.request.method;
    uri = e.request.uri;
    body_sha256 = e.request.body_sha256;
    payload = payload;
  }

  unfoldable pub insert_payload :
      RecordedExchange → Fallible Bytes → sqlx.Pool → Result (Unit {0}) × sqlx.Pool
  unfolding map_err row_of into_recording
  insert_payload e (failed x) pool = (err (into_recording x), pool)
  insert_payload e (fine payload) pool =
      let (res, pool') = sqlx.execute pool (insert_row (row_of e payload)) in (map_err res, pool')

  -- `append`
  unfoldable pub append : sqlx.Pool → RecordedExchange → Result (Unit {0}) × sqlx.Pool
  unfolding insert_payload or_failed to_vec
  append pool e = insert_payload e (or_failed "serialization failed" (to_vec sqlx.serde e)) pool

  -- `flush`
  unfoldable pub flush : sqlx.Pool → Result (Unit {0}) × sqlx.Pool
  flush pool = (ok tt, pool)

  -- One item of the stream, which goes on behind an error.
  unfoldable pub load_row : Fallible Bytes → Result RecordedExchange
  unfolding map_err into_recording or_failed from_text
  load_row (failed x) = err (into_recording x)
  load_row (fine payload) = map_err (or_failed "invalid JSON" (from_text sqlx.serde payload))

  -- `load`
  unfoldable pub load : sqlx.Pool → List (Result RecordedExchange)
  unfolding load_row
  load pool = map load_row (sqlx.fetch_payloads pool)

  abbrev pub sqlite_storage : SnapshotStorage
  sqlite_storage = record { State = sqlx.Pool; append = append; flush = flush; load = load }

  unfoldable pub migrate_index : Fallible (Unit {0}) → sqlx.Pool → Result sqlx.Pool
  unfolding map_err
  migrate_index (failed x) pool = err (into_recording x)
  migrate_index (fine u) pool =
      let (res, pool') = sqlx.execute pool create_index in map_err res >>= λ done. ok pool'

  -- `run_migration`
  unfoldable pub run_migration : sqlx.Pool → Result sqlx.Pool
  unfolding migrate_index
  run_migration pool = let (res, pool') = sqlx.execute pool create_table in migrate_index res pool'

  abbrev pub file_options : String → ConnectOptions
  file_options path = record {
    filename = some path;
    create_if_missing = true;
    wal = true;
    synchronous_normal = true;
    max_connections = 4;
  }

  -- `open`
  unfoldable pub open_file : String → Result sqlx.Pool
  unfolding run_migration map_err
  open_file path = map_err (sqlx.connect_with (file_options path)) >>= run_migration

  -- `in_memory`
  unfoldable pub open_in_memory : Result sqlx.Pool
  unfolding run_migration map_err
  open_in_memory =
      map_err (
        sqlx.connect_with (record {
          filename = none;
          create_if_missing = false;
          wal = true;
          synchronous_normal = true;
          max_connections = 1;
        }))
      >>= run_migration
