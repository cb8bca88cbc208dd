-- ===== src/Storage/Jsonl.antt =====
-- crates/partly-proxy-storage-jsonl/src/lib.rs. The state is the contents of the file. The text of a
-- document (serde_json), the blank lines (`trim`) and the writes of the operating system are a parameter;
-- where an error carries the text of another crate's error, a fixed text stands for it.
pub mod Lines
pub mod Contract
use partly_proxy.Base.{
  ℕ, suc, ◌+◌, ◌-◌, ◌*◌, ◌/◌, ◌^◌, min, String, Bytes, Bool, true, false, Option, none, some, List,
  [], ◌∷◌, ◌++◌, ◌≡◌, eqb, if◌then◌else◌, format, decimal,
}
use partly_proxy.Types.Error.{ProxyError, Result, ok, err, recording}
use partly_proxy.Types.Recorded.{RecordedExchange}
use partly_proxy.Types.Encoding.{Serde, to_vec, from_text}
use partly_proxy.Storage.{SnapshotStorage}

pub record FileCodec : Type 0 where
  pub serde : Serde
  -- `line.trim().is_empty()`
  pub is_blank : Bytes → Bool
  -- `write_all` and `flush` of the writer on a file: the result and the contents afterwards.
  pub write_all : Bytes → Bytes → Result (Unit {0}) × Bytes
  -- `sync_data`
  pub sync_data : Bytes → Result (Unit {0})

-- `lines()`: the pieces in front of each line feed, and what is behind the last one, if anything.
push : ℕ → List Bytes → List Bytes
push b [] = (b ∷ []) ∷ []
push b (line ∷ lines) = (b ∷ line) ∷ lines

unfoldable pub lines_of : Bytes → List Bytes
unfolding push
lines_of [] = []
lines_of (b ∷ bytes) = let rest = lines_of bytes in if eqb b 10 then [] ∷ rest else push b rest

-- A carriage return in front of the line feed belongs to it.
unfoldable pub strip_cr : Bytes → Bytes
strip_cr [] = []
strip_cr (b ∷ []) = if eqb b 13 then [] else b ∷ []
strip_cr (b ∷ c ∷ bytes) = b ∷ strip_cr (c ∷ bytes)

module _ (codec : FileCodec) where
  unfoldable pub append_vec : Bytes → Option Bytes → Result (Unit {0}) × Bytes
  append_vec file none = (err (recording "serialization failed"), file)
  append_vec file (some line) = codec.write_all file (line ++ 10 ∷ [])

  -- `append`
  unfoldable pub append : Bytes → RecordedExchange → Result (Unit {0}) × Bytes
  unfolding append_vec to_vec
  append file e = append_vec file (to_vec codec.serde e)

  -- `flush`
  unfoldable pub flush : Bytes → Result (Unit {0}) × Bytes
  flush file = (codec.sync_data file, file)

  parsed : ℕ → Option RecordedExchange → Result RecordedExchange
  unfolding format decimal
  parsed lineno none =
      err (recording (format ("line " ∷ decimal (lineno + 1) ∷ ": invalid JSON" ∷ [])))
  parsed lineno (some e) = ok e

  -- `parse_ndjson_line`
  unfoldable pub parse_ndjson_line : Bytes → ℕ → Result RecordedExchange
  unfolding parsed from_text
  parse_ndjson_line line lineno = parsed lineno (from_text codec.serde line)

  -- The stream ends at its first error.
  yield_item :
      Result RecordedExchange → List (Result RecordedExchange) → List (Result RecordedExchange)
  yield_item (ok e) later = ok e ∷ later
  yield_item (err x) later = err x ∷ []

  load_lines : ℕ → List Bytes → List (Result RecordedExchange)
  unfolding parse_ndjson_line yield_item strip_cr
  load_lines lineno [] = []
  load_lines lineno (raw ∷ lines) =
      let line = strip_cr raw in
      let later = load_lines (suc lineno) lines in
      if codec.is_blank line then later else yield_item (parse_ndjson_line line lineno) later

  -- `load`
  unfoldable pub load : Bytes → List (Result RecordedExchange)
  unfolding load_lines lines_of
  load file = load_lines 0 (lines_of file)

  abbrev pub jsonl_storage : SnapshotStorage
  jsonl_storage = record { State = Bytes; append = append; flush = flush; load = load }
