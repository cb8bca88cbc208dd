-- ===== src/Storage/Sqlite/Rows.antt =====
-- What is loaded from a database, against what it held when it was opened and what was appended.
use mathlib.Core.List.{map-append}
use partly_proxy.Base.{
  ℕ, String, Bool, true, false, Option, none, some, List, [], ◌∷◌, ◌++◌, ◌≡◌, refl, ap, ◌∙◌, map,
  ◌⊎◌, inl, inr, Bool-cases, if◌then◌else◌, if_true, if_false,
}
use partly_proxy.Types.Error.{ok, err, recording, bind_ok, Fallible, fine, failed}
use partly_proxy.Types.Recorded.{RecordedExchange}
use partly_proxy.Types.Encoding.{SerdeLaws, as_stored, to_vec}
use partly_proxy.Types.Encoding.Reading.{from_text-to_vec}
use partly_proxy.Storage.{StorageLaws}
use partly_proxy.Storage.Contract.{append_all, load-append_all}
use partly_proxy.Storage.Sqlite.{
  Sqlx, Row, create_table, create_index, insert_row, sqlite_storage, row_of, insert_payload, append,
  flush, load, load_row, migrate_index, run_migration, open_file, file_options, map_err, or_failed,
  into_recording,
}

-- What the crates document. `Migrated` says that the table is there and nobody else writes it, and
-- `has_table` whether a database has the table; without it a `SELECT` gives an error. The first
-- statement of the migration leaves the rows of a table that is there and makes an empty one
-- otherwise, the second touches no row, a row that was inserted is the last one, and what was
-- written or encoded is read back.
pub record SqlxLaws (sqlx : Sqlx) : Type 1 where
  pub Migrated : sqlx.Pool → Type 0
  pub has_table : sqlx.Pool → Bool
  pub no_table :
      (pool : sqlx.Pool)
      → has_table pool ≡ false
      → (message : String) × (sqlx.fetch_payloads pool ≡ failed message ∷ [])
  pub table :
      (pool : sqlx.Pool)
      → (sqlx.execute pool create_table).0 ≡ fine tt
      → let pool' = (sqlx.execute pool create_table).1 in
        Migrated pool'
        × (sqlx.fetch_payloads pool' ≡ (if has_table pool then sqlx.fetch_payloads pool else []))
  pub index :
      (pool : sqlx.Pool)
      → Migrated pool
      → let pool' = (sqlx.execute pool create_index).1 in
        Migrated pool' × (sqlx.fetch_payloads pool' ≡ sqlx.fetch_payloads pool)
  pub inserted :
      (pool : sqlx.Pool) (row : Row)
      → Migrated pool
      → (sqlx.execute pool (insert_row row)).0 ≡ fine tt
      → let pool' = (sqlx.execute pool (insert_row row)).1 in
        Migrated pool'
        × (sqlx.fetch_payloads pool' ≡ sqlx.fetch_payloads pool ++ fine row.payload ∷ [])
  pub read_back : SerdeLaws sqlx.serde

map_err_ok : {A : Type 0} (r : Fallible A) (a : A) → map_err r ≡ ok a → r ≡ fine a
unfolding map_err
map_err_ok (fine b) a h = let e : b ≡ a = cc h in ap fine e
map_err_ok (failed x) a h = absurd (cc h)

module _ (sqlx : Sqlx) (laws : SqlxLaws sqlx) where
  load_row-payload :
      (e : RecordedExchange) (payload : List ℕ)
      → to_vec sqlx.serde e ≡ some payload
      → load_row sqlx (fine payload) ≡ ok (as_stored e)
  unfolding load_row map_err or_failed
  load_row-payload e payload text =
      ap (λ o. map_err (or_failed "invalid JSON" o))
        (from_text-to_vec sqlx.serde laws.read_back e payload text)

  pub insert_payload-load :
      (pool : sqlx.Pool) (e : RecordedExchange) (r : Option (List ℕ))
      → to_vec sqlx.serde e ≡ r
      → laws.Migrated pool
      → (insert_payload sqlx e (or_failed "serialization failed" r) pool).0 ≡ ok tt
      → let pool' = (insert_payload sqlx e (or_failed "serialization failed" r) pool).1 in
        laws.Migrated pool' × (load sqlx pool' ≡ load sqlx pool ++ ok (as_stored e) ∷ [])
  unfolding insert_payload load map_err row_of or_failed
  insert_payload-load pool e none text good done = absurd (cc done)
  insert_payload-load pool e (some payload) text good done =
      let row = row_of sqlx e payload in
      let (good', rows) =
        laws.inserted pool row good (map_err_ok (sqlx.execute pool (insert_row row)).0 tt done) in
      (
        good',
        ap (map (load_row sqlx)) rows
            ∙ map-append (load_row sqlx) (sqlx.fetch_payloads pool) (fine payload ∷ [])
            ∙ ap (λ r. map (load_row sqlx) (sqlx.fetch_payloads pool) ++ r ∷ [])
                (load_row-payload e payload text),
      )

  -- The database keeps the contract of a medium.
  unfoldable pub sqlite_laws : StorageLaws (sqlite_storage sqlx)
  unfolding append flush
  sqlite_laws = record {
    Good = laws.Migrated;
    kept = as_stored;
    Good-append =
        λ pool e good done. (insert_payload-load pool e (to_vec sqlx.serde e) refl good done).0;
    load-append =
        λ pool e good done. (insert_payload-load pool e (to_vec sqlx.serde e) refl good done).1;
    Good-flush = λ pool good. good;
    load-flush = λ pool good. refl;
  }

  migrate_index-load :
      (r : Fallible (Unit {0})) (pool pool' : sqlx.Pool)
      → (r ≡ fine tt → laws.Migrated pool)
      → migrate_index sqlx r pool ≡ ok pool'
      → (r ≡ fine tt) × laws.Migrated pool' × (sqlx.fetch_payloads pool' ≡ sqlx.fetch_payloads pool)
  unfolding migrate_index
  migrate_index-load (failed x) pool pool' good done = absurd (cc done)
  migrate_index-load (fine u) pool pool' good done =
      let next = (sqlx.execute pool create_index).1 in
      let (_, _, same) = bind_ok (map_err (sqlx.execute pool create_index).0) _ pool' done in
      let e : next ≡ pool' = cc same in
      let (still, kept) = rw e at (laws.index pool (good refl)) in (refl, still, kept)

  -- A database that was opened at a path and to which `append` was called any number of times, each
  -- with success, holds the exchanges of these calls, in order, but for the part of each duration below
  -- a millisecond. Where its table was there before, they stand behind what it held; otherwise, where
  -- a load was an error, they are all that it holds.
  pub open_file-append_all :
      (path : String) (pool : sqlx.Pool) (es : List RecordedExchange)
      → open_file sqlx path ≡ ok pool
      → (append_all (sqlite_storage sqlx) es pool).0 ≡ ok tt
      → let loaded = load sqlx (append_all (sqlite_storage sqlx) es pool).1 in
        (db : sqlx.Pool) × (sqlx.connect_with (file_options sqlx path) ≡ fine db)
        × (((laws.has_table db ≡ true) × (loaded ≡ load sqlx db ++ map (λ e. ok (as_stored e)) es))
            ⊎ ((message : String) × (load sqlx db ≡ err (recording message) ∷ [])
                × (loaded ≡ map (λ e. ok (as_stored e)) es)))
  unfolding open_file run_migration load sqlite_laws load_row into_recording
  open_file-append_all path pool es opened done =
      let (db, connected, migrated) =
        bind_ok (map_err (sqlx.connect_with (file_options sqlx path))) (run_migration sqlx) pool
          opened in
      let (res, with_table) = sqlx.execute db create_table in
      let (created, good, same) =
        migrate_index-load res with_table pool (λ created. (laws.table db created).0) migrated in
      let (_, kept) = laws.table db created in
      let (_, loaded) = load-append_all (sqlite_storage sqlx) sqlite_laws es pool good done in
      let held = same ∙ kept in
      let behind = λ (rows : List (Fallible (List ℕ))).
        map (load_row sqlx) rows ++ map (λ (e : RecordedExchange). ok (as_stored e)) es in
      (
        db,
        map_err_ok (sqlx.connect_with (file_options sqlx path)) db connected,
        elim (Bool-cases (laws.has_table db)) [
          | inl there ↦ inl (there, loaded ∙ ap behind (held ∙ if_true _ _ there))
          | inr missing ↦
              let (message, fails) = laws.no_table db missing in
              inr (
                message,
                ap (map (load_row sqlx)) fails,
                loaded ∙ ap behind (held ∙ if_false _ _ missing),
              )
        ],
      )
