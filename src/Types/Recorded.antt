-- ===== src/Types/Recorded.antt =====
-- crates/partly-proxy-types/src/recorded.rs and hash.rs
use partly_proxy.Base.{ℕ, String, Bytes, Bool, true, false, Option, none, some, List, [], ◌∷◌, Map}
use partly_proxy.Http.{Http}

pub record RecordedRequest : Type 0 where
  pub method : String
  pub uri : String
  pub headers : List (String × String)
  pub body : Bytes
  pub body_sha256 : String

pub record RecordedResponse : Type 0 where
  pub status : ℕ
  pub headers : List (String × String)
  pub body : Bytes

pub data ExchangeOutcome : Type 0 where
  response : RecordedResponse → ExchangeOutcome
  error : String → ExchangeOutcome

-- A fresh identifier (`Uuid::new_v4`) and the time (`Utc::now`), which the environment supplies.
pub record Stamp : Type 0 where
  pub id : ℕ
  pub timestamp : ℕ

-- A duration is a number of nanoseconds.
pub record RecordedExchange : Type 0 where
  pub id : ℕ
  pub upstream : Option String
  pub timestamp : ℕ
  pub duration : ℕ
  pub request : RecordedRequest
  pub outcome : ExchangeOutcome
  pub labels : Map String

-- `RecordedExchange::new`
abbrev pub new_exchange :
    Stamp → Option String → RecordedRequest → ExchangeOutcome → ℕ → RecordedExchange
new_exchange stamp upstream request outcome duration = record {
  id = stamp.id;
  upstream = upstream;
  timestamp = stamp.timestamp;
  duration = duration;
  request = request;
  outcome = outcome;
  labels = [];
}

unfoldable pub as_response : ExchangeOutcome → Option RecordedResponse
as_response (response r) = some r
as_response (error _) = none

-- `matches!(e.outcome, ExchangeOutcome::Response(_))`
abbrev pub is_response : ExchangeOutcome → Bool
is_response (response _) = true
is_response (error _) = false

module _ (http : Http) where
  unfoldable pub sha256_hex : Bytes → String
  sha256_hex body = http.digest_hex body

  abbrev text_of : Option String → String
  text_of none = "<binary>"
  text_of (some s) = s

  pairs_of : List (String × Bytes) → List (String × String)
  pairs_of [] = []
  pairs_of ((k, v) ∷ rest) = (k, text_of (http.value_text v)) ∷ pairs_of rest

  unfoldable pub header_pairs : http.HeaderMap → List (String × String)
  unfolding pairs_of
  header_pairs headers = pairs_of (http.iter headers)

  -- `RecordedRequest::from_parts`
  unfoldable pub request_from_parts : String → http.Uri → http.HeaderMap → Bytes → RecordedRequest
  unfolding header_pairs sha256_hex
  request_from_parts method uri headers body = record {
    method = method;
    uri = http.uri_text uri;
    headers = header_pairs headers;
    body = body;
    body_sha256 = sha256_hex body;
  }

  unfoldable pub recompute_hash : RecordedRequest → RecordedRequest
  recompute_hash r = record r { body_sha256 = sha256_hex r.body }

  -- `RecordedResponse::from_parts`
  unfoldable pub response_from_parts : ℕ → http.HeaderMap → Bytes → RecordedResponse
  unfolding header_pairs
  response_from_parts status headers body = record {
    status = status;
    headers = header_pairs headers;
    body = body;
  }

  -- `RecordedResponse::status`, with `StatusCode::BAD_GATEWAY` for a number out of range.
  unfoldable pub status_of : RecordedResponse → ℕ
  status_of r = elim (http.status_from_u16 r.status) [ some s ↦ s | none ↦ 502 ]
