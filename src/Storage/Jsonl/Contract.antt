-- ===== src/Storage/Jsonl/Contract.antt =====
-- The file of lines keeps the contract of a medium, so the recorder's theorems hold over it.
use mathlib.Core.List.{map-append}
use partly_proxy.Base.{Bytes, List, [], ◌∷◌, ◌++◌, ◌≡◌, refl, sym, ap, ◌∙◌}
use partly_proxy.Types.Error.{ok}
use partly_proxy.Types.Recorded.{RecordedExchange}
use partly_proxy.Types.Encoding.{as_stored, to_vec}
use partly_proxy.Storage.{StorageLaws}
use partly_proxy.Storage.Jsonl.{FileCodec, append, append_vec, flush, load, jsonl_storage}
use partly_proxy.Storage.Jsonl.Lines.{FileLaws, Written, append_vec-Written, load-Written}

module _ (codec : FileCodec) (laws : FileLaws codec) where
  -- A file that this program alone wrote, by calls that succeeded.
  abbrev pub IsWritten : Bytes → Type 0
  IsWritten file = (es : List RecordedExchange) × Written codec laws es file

  append-IsWritten :
      (file : Bytes) (e : RecordedExchange)
      → IsWritten file
      → (append codec file e).0 ≡ ok tt
      → IsWritten (append codec file e).1
  unfolding append
  append-IsWritten file e (es, written) done = (
    es ++ e ∷ [],
    append_vec-Written codec laws es file e (to_vec codec.serde e) refl written done,
  )

  load-append_kept :
      (file : Bytes) (e : RecordedExchange)
      → IsWritten file
      → (append codec file e).0 ≡ ok tt
      → load codec (append codec file e).1 ≡ load codec file ++ ok (as_stored e) ∷ []
  unfolding append
  load-append_kept file e (es, written) done =
      let file' = (append_vec codec file (to_vec codec.serde e)).1 in
      let more = append_vec-Written codec laws es file e (to_vec codec.serde e) refl written done in
      load-Written codec laws (es ++ e ∷ []) file' more
      ∙ map-append (λ x. ok (as_stored x)) es (e ∷ [])
      ∙ ap (λ l. l ++ ok (as_stored e) ∷ []) (sym (load-Written codec laws es file written))

  unfoldable pub jsonl_laws : StorageLaws (jsonl_storage codec)
  unfolding append-IsWritten load-append_kept flush
  jsonl_laws = record {
    Good = IsWritten;
    kept = as_stored;
    Good-append = append-IsWritten;
    load-append = load-append_kept;
    Good-flush = λ file good. good;
    load-flush = λ file good. refl;
  }
