-- ===== src/Tests/Databases.antt =====
-- A database without its table, with a serializer that knows one exchange. A database is its table,
-- if there is one.
use partly_proxy.Base.{
  String, Bytes, Bool, true, false, Option, none, some, List, [], ◌∷◌, ◌++◌, ◌≡◌, refl, map, ◌⊎◌,
  if◌then◌else◌,
}
use partly_proxy.Types.Error.{ok, err, recording, Fallible, fine, failed}
use partly_proxy.Types.Encoding.{as_stored, to_vec, serialize_exchange, serialize_ms}
use partly_proxy.Storage.Contract.{append_all}
use partly_proxy.Storage.Sqlite.{
  Statement, create_table, create_index, insert_row, Row, Sqlx, sqlite_storage, load, append,
  open_file,
}
use partly_proxy.Storage.Sqlite.Rows.{SqlxLaws, open_file-append_all}
use partly_proxy.Tests.Documents.{sample_serde, serde_laws, known, text_if, write, encode}
use partly_proxy.Tests.Sample.{exchange_of}

abbrev Database : Type 0
Database = Option (List Bytes)

abbrev execute : Database → Statement → Fallible (Unit {0}) × Database
execute none create_table = (fine tt, some [])
execute (some rows) create_table = (fine tt, some rows)
execute none create_index = (failed "no such table", none)
execute (some rows) create_index = (fine tt, some rows)
execute none (insert_row row) = (failed "no such table", none)
execute (some rows) (insert_row row) = (fine tt, some (rows ++ row.payload ∷ []))

abbrev fetch_payloads : Database → List (Fallible Bytes)
fetch_payloads none = failed "no such table" ∷ []
fetch_payloads (some rows) = map fine rows

abbrev has_table : Database → Bool
has_table none = false
has_table (some rows) = true

abbrev HasTable : Database → Type 0
HasTable db = has_table db ≡ true

abbrev sample_sqlx : Sqlx
sample_sqlx = record {
  Pool = Database;
  connect_with = λ options. fine none;
  execute = execute;
  fetch_payloads = fetch_payloads;
  serde = sample_serde;
  uuid_text = λ id. "id";
  to_rfc3339 = λ t. "time";
}

payload-snoc :
    (rows : List Bytes) (payload : Bytes)
    → map fine (rows ++ payload ∷ []) ≡ map fine rows ++ fine payload ∷ []
payload-snoc [] payload = refl
payload-snoc (row ∷ rows) payload = rw (payload-snoc rows payload) refl

sqlx_laws : SqlxLaws sample_sqlx
sqlx_laws = record {
  Migrated = HasTable;
  has_table = has_table;
  no_table = no_table;
  table = table;
  index = index;
  inserted = inserted;
  read_back = serde_laws;
}
  where
    no_table :
        (db : Database)
        → has_table db ≡ false
        → (message : String) × (fetch_payloads db ≡ failed message ∷ [])
    no_table none h = ("no such table", refl)
    no_table (some rows) h = absurd (cc h)

    table :
        (db : Database)
        → (execute db create_table).0 ≡ fine tt
        → let db' = (execute db create_table).1 in
          HasTable db' × (fetch_payloads db' ≡ (if has_table db then fetch_payloads db else []))
    table none h = (refl, refl)
    table (some rows) h = (refl, refl)

    index :
        (db : Database)
        → HasTable db
        → let db' = (execute db create_index).1 in
          HasTable db' × (fetch_payloads db' ≡ fetch_payloads db)
    index none h = absurd (cc h)
    index (some rows) h = (refl, refl)

    inserted :
        (db : Database) (row : Row)
        → HasTable db
        → (execute db (insert_row row)).0 ≡ fine tt
        → let db' = (execute db (insert_row row)).1 in
          HasTable db' × (fetch_payloads db' ≡ fetch_payloads db ++ fine row.payload ∷ [])
    inserted none row h done = absurd (cc h)
    inserted (some rows) row h done = (refl, payload-snoc rows row.payload)

open_file-append_all_example :
    let loaded =
      load sample_sqlx
        (append_all (sqlite_storage sample_sqlx) (exchange_of "/a" ∷ []) (some [])).1 in
    (db : Database) × (fine none ≡ fine db)
    × (((has_table db ≡ true)
          × (loaded ≡ load sample_sqlx db ++ map (λ e. ok (as_stored e)) (exchange_of "/a" ∷ [])))
        ⊎ ((message : String) × (load sample_sqlx db ≡ err (recording message) ∷ [])
            × (loaded ≡ map (λ e. ok (as_stored e)) (exchange_of "/a" ∷ []))))
unfolding open_file append_all append to_vec serialize_exchange serialize_ms write known text_if
    encode sqlx_laws
open_file-append_all_example =
    open_file-append_all sample_sqlx sqlx_laws "snapshots.db" (some []) (exchange_of "/a" ∷ []) refl
      refl
