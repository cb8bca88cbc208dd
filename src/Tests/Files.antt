-- ===== src/Tests/Files.antt =====
-- A file of lines, with a serializer that knows one exchange.
use partly_proxy.Base.{Bytes, Bool, true, false, some, [], ◌∷◌, ◌++◌, ◌≡◌, refl, map}
use partly_proxy.Types.Error.{ok}
use partly_proxy.Types.Encoding.{as_stored, to_vec, from_text, serialize_exchange, serialize_ms}
use partly_proxy.Types.Encoding.Reading.{from_text-to_vec}
use partly_proxy.Storage.Jsonl.{FileCodec, strip_cr, load, append}
use partly_proxy.Storage.Jsonl.Lines.{FileLaws, append_all, append_all-load}
use partly_proxy.Tests.Documents.{
  sample_serde, serde_laws, known, text_if, write, write_lem, encode,
}
use partly_proxy.Tests.Sample.{exchange_of}

abbrev is_empty : Bytes → Bool
is_empty [] = true
is_empty (x ∷ xs) = false

abbrev codec : FileCodec
codec = record {
  serde = sample_serde;
  is_blank = λ line. is_empty line;
  write_all = λ file bytes. (ok tt, file ++ bytes);
  sync_data = λ file. ok tt;
}

codec_laws : FileLaws codec
unfolding strip_cr
codec_laws = record {
  one_line = λ d line h. rw (write_lem d line h).1 refl;
  no_return = λ d line h. rw (write_lem d line h).1 refl;
  not_blank = λ d line h. rw (write_lem d line h).1 refl;
  read_back = serde_laws;
  writes = λ file bytes h. refl;
}

from_text-to_vec_example : from_text sample_serde (65 ∷ []) ≡ some (as_stored (exchange_of "/a"))
unfolding to_vec serialize_exchange serialize_ms write known text_if encode
from_text-to_vec_example =
    from_text-to_vec sample_serde serde_laws (exchange_of "/a") (65 ∷ []) refl

append_all-load_example :
    load codec (append_all codec codec_laws (exchange_of "/a" ∷ exchange_of "/a" ∷ []) []).1
    ≡ map (λ e. ok (as_stored e)) (exchange_of "/a" ∷ exchange_of "/a" ∷ [])
unfolding append_all append to_vec serialize_exchange serialize_ms write known text_if encode
append_all-load_example =
    append_all-load codec codec_laws (exchange_of "/a" ∷ exchange_of "/a" ∷ []) refl
