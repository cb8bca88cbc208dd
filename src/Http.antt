-- ===== src/Http.antt =====
-- What the program takes from the crates http, regex, sha2, hex and from `std::fmt`, as parameters.
-- Methods and header names stand for their texts, header values for their bytes and status codes
-- for their numbers; addresses, header maps and compiled patterns stay abstract.
use partly_proxy.Base.{ℕ, String, Bytes, Bool, Option, List, ◌≡◌, [], ◌∷◌, ◌==◌, if◌then◌else◌}
use mathlib.Core.List.{head?}

pub record Http : Type 1 where
  -- `Method::from_bytes` behind `parse`; `none` is `InvalidMethod`.
  pub parse_method : String → Option String
  -- `StatusCode::from_u16`
  pub status_from_u16 : ℕ → Option ℕ
  -- `HeaderName::from_bytes`, which also puts a name in lower case, and `HeaderValue::from_bytes`.
  pub header_name : Bytes → Option String
  pub header_value : Bytes → Option Bytes
  -- `HeaderValue::to_str`
  pub value_text : Bytes → Option String
  pub Uri : Type 0
  pub parse_uri : String → Option Uri
  pub uri_text : Uri → String
  pub uri_path : Uri → String
  pub uri_path_and_query : Uri → Option String
  pub uri_scheme : Uri → Option String
  pub uri_authority : Uri → Option String
  -- `Uri::builder().scheme(s).authority(a).path_and_query(p).build()`
  pub build_uri : String → String → String → Option Uri
  pub HeaderMap : Type 0
  pub no_headers : HeaderMap
  -- `HeaderMap::insert`, `remove`, `get_all` and `iter`
  pub insert : HeaderMap → String → Bytes → HeaderMap
  pub remove : HeaderMap → String → HeaderMap
  pub get_all : HeaderMap → String → List Bytes
  pub iter : HeaderMap → List (String × Bytes)
  pub Regex : Type 0
  -- `Regex::new` and `Regex::is_match`
  pub compile : String → Option Regex
  pub is_match : Regex → String → Bool
  -- `Extensions`, without the slot of the type `ResponseSource`
  pub Extensions : Type 0
  pub no_extensions : Extensions
  -- `hex::encode` of the SHA-256 digest
  pub digest_hex : Bytes → String
  -- `String::from_utf8_lossy`
  pub utf8_lossy : Bytes → String
  -- `Debug` of a `Duration`
  pub debug_duration : ℕ → String

-- The values under a name among the pairs of an iteration.
abbrev pub values_of : String → List (String × Bytes) → List Bytes
values_of name [] = []
values_of name ((k, v) ∷ pairs) =
    let rest = values_of name pairs in if k == name then v ∷ rest else rest

module _ (http : Http) where
  open http use {HeaderMap, no_headers, insert, remove, get_all, iter}

  -- `HeaderMap::get`: the first value of a name.
  abbrev pub get : HeaderMap → String → Option Bytes
  get m name = head? (get_all m name)

  -- What the documentation of `HeaderMap` says of these operations: an insertion replaces all values
  -- of its name, a removal drops them, and an iteration visits every value.
  pub record HeaderLaws : Type 0 where
    pub all_no_headers : (k : String) → get_all no_headers k ≡ []
    pub all_insert :
        (m : HeaderMap) (k j : String) (v : Bytes)
        → get_all (insert m k v) j ≡ (if k == j then v ∷ [] else get_all m j)
    pub all_remove :
        (m : HeaderMap) (k j : String)
        → get_all (remove m k) j ≡ (if k == j then [] else get_all m j)
    pub all_iter : (m : HeaderMap) (k : String) → values_of k (iter m) ≡ get_all m k
