-- ===== src/Types/Encoding.antt =====
-- crates/partly-proxy-types/src/encoding.rs, and how the derives of recorded.rs use it: an exchange
-- as a document of serde's data model, and back. A document is the fields of a struct by their
-- names. Its text (serde_json), base64, and the texts of an identifier and of a time are a parameter;
-- the parser also refuses a field name that stands twice, and a number out of the range of its type.
pub mod Reading
use partly_proxy.Base.{
  ℕ, ◌-◌, ◌*◌, ◌/◌, ◌^◌, min, String, Bytes, Option, none, some, List, [], ◌∷◌, ◌==◌, Map, lookup,
  if◌then◌else◌, ◌≡◌, refl, ◌∙◌, ap,
}
use partly_proxy.Types.Recorded.{
  RecordedRequest, RecordedResponse, RecordedExchange, ExchangeOutcome, response, error,
}

pub data Leaf : Type 0 where
  str : String → Leaf
  u16 u64 : ℕ → Leaf
  pairs : List (String × String) → Leaf
  texts : Map String → Leaf

pub data Value : Type 0 where
  leaf : Leaf → Value
  struct : Map Leaf → Value

abbrev pub Document : Type 0
Document = Map Value

pub record Serde : Type 0 where
  -- `serde_json::to_vec`, and `from_slice` or `from_str`
  pub write : Document → Option Bytes
  pub parse : Bytes → Option Document
  pub encode_base64 : Bytes → String
  pub decode_base64 : String → Option Bytes
  pub uuid_text : ℕ → String
  pub parse_uuid : String → Option ℕ
  pub time_text : ℕ → String
  pub parse_time : String → Option ℕ

-- What the crates document: what was written or encoded is read back.
pub record SerdeLaws (serde : Serde) : Type 0 where
  pub parse-write :
      (d : Document) (bytes : Bytes) → serde.write d ≡ some bytes → serde.parse bytes ≡ some d
  pub decode-encode : (bytes : Bytes) → serde.decode_base64 (serde.encode_base64 bytes) ≡ some bytes
  pub parse-uuid_text : (id : ℕ) → serde.parse_uuid (serde.uuid_text id) ≡ some id
  pub parse-time_text : (t : ℕ) → serde.parse_time (serde.time_text t) ≡ some t

-- `duration_ms`: whole milliseconds, at most `u64::MAX` of them.
unfoldable pub serialize_ms : ℕ → ℕ
serialize_ms d = min (d / 1_000_000) (2 ^ 64 - 1)

unfoldable pub deserialize_ms : ℕ → ℕ
deserialize_ms ms = ms * 1_000_000

-- An exchange with its duration cut to whole milliseconds, at most `u64::MAX` of them.
unfoldable pub as_stored : RecordedExchange → RecordedExchange
as_stored e = record e { duration = min (e.duration / 1_000_000) (2 ^ 64 - 1) * 1_000_000 }

-- `and_then`
infixl 5 ◌>>=◌
abbrev pub ◌>>=◌ : {A B : Type 0} → Option A → (A → Option B) → Option B
none >>= f = none
some a >>= f = f a

unfoldable pub text_in : Leaf → Option String
text_in (str s) = some s
text_in _ = none

unfoldable pub u16_in : Leaf → Option ℕ
u16_in (u16 n) = some n
u16_in _ = none

unfoldable pub u64_in : Leaf → Option ℕ
u64_in (u64 n) = some n
u64_in _ = none

unfoldable pub pairs_in : Leaf → Option (List (String × String))
pairs_in (pairs ps) = some ps
pairs_in _ = none

unfoldable pub texts_in : Leaf → Option (Map String)
texts_in (texts m) = some m
texts_in _ = none

unfoldable pub leaf_in : Value → Option Leaf
leaf_in (leaf l) = some l
leaf_in (struct fields) = none

unfoldable pub struct_in : Value → Option (Map Leaf)
struct_in (leaf l) = none
struct_in (struct fields) = some fields

-- `default` and `skip_serializing_if`
unfoldable pub upstream_field : Option String → Document → Document
upstream_field none rest = rest
upstream_field (some name) rest = ("upstream", leaf (str name)) ∷ rest

unfoldable pub labels_field : Map String → Document
labels_field [] = []
labels_field (label ∷ labels) = ("labels", leaf (texts (label ∷ labels))) ∷ []

unfoldable pub upstream_in : Option Value → Option (Option String)
unfolding leaf_in text_in
upstream_in none = some none
upstream_in (some v) = leaf_in v >>= λ l. text_in l >>= λ name. some (some name)

unfoldable pub labels_in : Option Value → Option (Map String)
unfolding leaf_in texts_in
labels_in none = some []
labels_in (some v) = leaf_in v >>= texts_in

module _ (serde : Serde) where
  -- `base64_bytes`
  unfoldable pub serialize_bytes : Bytes → Leaf
  serialize_bytes bytes = str (serde.encode_base64 bytes)

  unfoldable pub deserialize_bytes : Leaf → Option Bytes
  unfolding text_in
  deserialize_bytes l = text_in l >>= serde.decode_base64

  unfoldable pub serialize_request : RecordedRequest → Map Leaf
  unfolding serialize_bytes
  serialize_request r =
      ("method", str r.method)
      ∷ ("uri", str r.uri)
      ∷ ("headers", pairs r.headers)
      ∷ ("body", serialize_bytes r.body)
      ∷ ("body_sha256", str r.body_sha256)
      ∷ []

  unfoldable pub deserialize_request : Map Leaf → Option RecordedRequest
  unfolding text_in pairs_in deserialize_bytes lookup
  deserialize_request m = do
    method ← lookup "method" m >>= text_in
    uri ← lookup "uri" m >>= text_in
    headers ← lookup "headers" m >>= pairs_in
    body ← lookup "body" m >>= deserialize_bytes
    body_sha256 ← lookup "body_sha256" m >>= text_in
    some (record {
      method = method;
      uri = uri;
      headers = headers;
      body = body;
      body_sha256 = body_sha256;
    })

  -- `tag = "kind", rename_all = "snake_case"`
  unfoldable pub serialize_outcome : ExchangeOutcome → Map Leaf
  unfolding serialize_bytes
  serialize_outcome (response r) =
      ("kind", str "response")
      ∷ ("status", u16 r.status)
      ∷ ("headers", pairs r.headers)
      ∷ ("body", serialize_bytes r.body)
      ∷ []
  serialize_outcome (error message) = ("kind", str "error") ∷ ("message", str message) ∷ []

  unfoldable pub deserialize_response : Map Leaf → Option ExchangeOutcome
  unfolding u16_in pairs_in deserialize_bytes lookup
  deserialize_response m = do
    status ← lookup "status" m >>= u16_in
    headers ← lookup "headers" m >>= pairs_in
    body ← lookup "body" m >>= deserialize_bytes
    some (response (record { status = status; headers = headers; body = body }))

  unfoldable pub deserialize_error : Map Leaf → Option ExchangeOutcome
  unfolding text_in lookup
  deserialize_error m = do message ← lookup "message" m >>= text_in; some (error message)

  unfoldable pub deserialize_outcome : Map Leaf → Option ExchangeOutcome
  unfolding text_in deserialize_response deserialize_error lookup
  deserialize_outcome m = do
    kind ← lookup "kind" m >>= text_in
    if kind == "response"
        then deserialize_response m
        else if kind == "error"
        then deserialize_error m
        else none

  unfoldable pub serialize_exchange : RecordedExchange → Document
  unfolding upstream_field labels_field serialize_request serialize_outcome serialize_ms
  serialize_exchange e =
      ("id", leaf (str (serde.uuid_text e.id)))
      ∷ upstream_field e.upstream (
          ("timestamp", leaf (str (serde.time_text e.timestamp)))
          ∷ ("duration_ms", leaf (u64 (serialize_ms e.duration)))
          ∷ ("request", struct (serialize_request e.request))
          ∷ ("outcome", struct (serialize_outcome e.outcome))
          ∷ labels_field e.labels)

  unfoldable pub deserialize_exchange : Document → Option RecordedExchange
  unfolding leaf_in struct_in text_in u64_in upstream_in labels_in deserialize_request
      deserialize_outcome deserialize_ms lookup
  deserialize_exchange d = do
    id ← lookup "id" d >>= leaf_in >>= text_in >>= serde.parse_uuid
    upstream ← upstream_in (lookup "upstream" d)
    timestamp ← lookup "timestamp" d >>= leaf_in >>= text_in >>= serde.parse_time
    ms ← lookup "duration_ms" d >>= leaf_in >>= u64_in
    request ← lookup "request" d >>= struct_in >>= deserialize_request
    outcome ← lookup "outcome" d >>= struct_in >>= deserialize_outcome
    labels ← labels_in (lookup "labels" d)
    some (record {
      id = id;
      upstream = upstream;
      timestamp = timestamp;
      duration = deserialize_ms ms;
      request = request;
      outcome = outcome;
      labels = labels;
    })

  -- `serde_json::to_vec(exchange)`
  unfoldable pub to_vec : RecordedExchange → Option Bytes
  unfolding serialize_exchange
  to_vec e = serde.write (serialize_exchange e)

  -- `serde_json::from_str` and `from_slice` at `RecordedExchange`
  unfoldable pub from_text : Bytes → Option RecordedExchange
  unfolding deserialize_exchange
  from_text bytes = serde.parse bytes >>= deserialize_exchange
