-- ===== src/Replay/Headers.antt =====
-- The header map of a replayed response, against the pairs that were recorded.
use partly_proxy.Base.{
  String, Bytes, Option, none, some, List, [], ◌∷◌, ◌≡◌, refl, ◌∙◌, ap, ◌==◌, if◌then◌else◌,
  as_bytes,
}
use partly_proxy.Http.{Http, HeaderLaws}
use partly_proxy.Replay.{header_pair, insert_valid, header_pairs_into, build_header_map}

module _ (http : Http) (laws : HeaderLaws http) where
  -- The values of `name` after one more pair: its value in place of the earlier ones, if the pair is
  -- a header of this name.
  abbrev after_value : String → String → Option Bytes → List Bytes → List Bytes
  after_value name k none values = values
  after_value name k (some v) values = if k == name then v ∷ [] else values

  abbrev after_pair : String → Option String → Option Bytes → List Bytes → List Bytes
  after_pair name none value values = values
  after_pair name (some k) value values = after_value name k value values

  -- The value of the last pair that is a header of the name `name`, or the earlier values.
  abbrev pub last_value : String → List (String × String) → List Bytes → List Bytes
  last_value name [] values = values
  last_value name ((k, v) ∷ pairs) values =
      last_value name pairs
        (after_pair name (http.header_name (as_bytes k)) (http.header_value (as_bytes v)) values)

  get_all-insert_valid :
      (headers : http.HeaderMap) (k : Option String) (v : Option Bytes) (name : String)
      → http.get_all (insert_valid http headers k v) name
        ≡ after_pair name k v (http.get_all headers name)
  unfolding insert_valid
  get_all-insert_valid headers (some k) (some v) name = laws.all_insert headers k name v
  get_all-insert_valid headers (some k) none name = refl
  get_all-insert_valid headers none v name = refl

  header_pairs_into-last_value :
      (pairs : List (String × String)) (headers : http.HeaderMap) (name : String)
      → http.get_all (header_pairs_into http pairs headers) name
        ≡ last_value name pairs (http.get_all headers name)
  unfolding header_pairs_into header_pair
  header_pairs_into-last_value [] headers name = refl
  header_pairs_into-last_value ((k, v) ∷ pairs) headers name =
      header_pairs_into-last_value pairs (header_pair http headers k v) name
      ∙ ap (last_value name pairs) (
          get_all-insert_valid headers (http.header_name (as_bytes k))
            (http.header_value (as_bytes v)) name)

  -- A replayed response has at most one value under a name, that of the last recorded pair that is a
  -- valid header of this name: of a header that was recorded several times the others are lost.
  pub build_header_map-last_value :
      (pairs : List (String × String)) (name : String)
      → http.get_all (build_header_map http pairs) name ≡ last_value name pairs []
  unfolding build_header_map
  build_header_map-last_value pairs name =
      header_pairs_into-last_value pairs http.no_headers name
      ∙ ap (last_value name pairs) (laws.all_no_headers name)
