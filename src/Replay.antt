-- ===== src/Replay.antt =====
-- crates/partly-proxy-lib/src/replay.rs: the index of recorded exchanges. Its lock is held for each
-- whole operation.
pub mod Index
pub mod Headers
pub mod Found
use partly_proxy.Base.{
  ℕ, zero, suc, String, Bytes, Bool, true, false, ◌&&◌, Option, none, some, List, [], ◌∷◌, ◌++◌,
  ◌==◌, if◌then◌else◌, is_some, length, get_elem?, find_after, find_from, as_bytes,
}
use partly_proxy.Http.{Http}
use partly_proxy.Types.Error.{Result, ok, err}
use partly_proxy.Types.ProxyIo.{ProxyRequest, ProxyResponse, http_11}
use partly_proxy.Types.Recorded.{
  RecordedRequest, RecordedResponse, RecordedExchange, ExchangeOutcome, response, error,
  is_response, sha256_hex, status_of,
}
use partly_proxy.Storage.{SnapshotStorage}
use partly_proxy.Middleware.{ProxyMiddleware, redact_request}

pub record IndexKey : Type 0 where
  pub method : String
  pub path_and_query : String
  pub body_sha256 : String

abbrev pub same_key : IndexKey → IndexKey → Bool
same_key a b =
    a.method == b.method && (a.path_and_query == b.path_and_query && a.body_sha256 == b.body_sha256)

-- `HashMap<IndexKey, usize>`
abbrev pub KeyIndex : Type 0
KeyIndex = List (IndexKey × ℕ)

unfoldable pub find_key : IndexKey → KeyIndex → Option ℕ
find_key k [] = none
find_key k ((j, i) ∷ rest) = let later = find_key k rest in if same_key j k then some i else later

-- `entry(key).or_insert(i)`
unfoldable pub or_insert : IndexKey → ℕ → KeyIndex → KeyIndex
unfolding find_key
or_insert k i index = if is_some (find_key k index) then index else index ++ (k, i) ∷ []

pub record ReplayState : Type 0 where
  pub exchanges : List RecordedExchange
  pub index : KeyIndex

-- `index.get(&key).and_then(|&i| exchanges.get(i))`
abbrev at_index : Option ℕ → List RecordedExchange → Option RecordedExchange
at_index none exchanges = none
at_index (some i) exchanges = get_elem? exchanges i

unfoldable pub find_exchange : IndexKey → ReplayState → Option RecordedExchange
unfolding find_key
find_exchange k state = at_index (find_key k state.index) state.exchanges

abbrev root_or : Option String → String
root_or none = "/"
root_or (some s) = s

module _ (http : Http) where
  abbrev path_or : http.Uri → Option String → String
  path_or uri none = http.uri_path uri
  path_or uri (some pq) = pq

  unfoldable pub path_and_query_of_uri : http.Uri → String
  path_and_query_of_uri uri = path_or uri (http.uri_path_and_query uri)

  -- The fallback for a text that is no address: what stands behind the scheme and the authority.
  fallback : String → Option String → String
  unfolding find_from
  fallback uri none = uri
  fallback uri (some rest) = root_or (find_from b'/' rest)

  unfoldable pub parsed_or : String → Option http.Uri → String
  unfolding path_and_query_of_uri find_after fallback
  parsed_or uri (some u) = path_and_query_of_uri u
  parsed_or uri none = fallback uri (find_after uri "://")

  unfoldable pub path_and_query_of_str : String → String
  unfolding parsed_or
  path_and_query_of_str uri = parsed_or uri (http.parse_uri uri)

  -- The key of a recorded exchange.
  unfoldable pub key_of : RecordedRequest → IndexKey
  key_of r = record {
    method = r.method;
    path_and_query = path_and_query_of_str r.uri;
    body_sha256 = r.body_sha256;
  }

  -- The loop of `build_index` from the position `i` on.
  index_from : ℕ → List RecordedExchange → KeyIndex → KeyIndex
  index_from i [] index = index
  index_from i (e ∷ rest) index =
      index_from (suc i) rest
        (if is_response e.outcome then or_insert (key_of e.request) i index else index)

  unfoldable pub build_index : List RecordedExchange → KeyIndex
  unfolding index_from
  build_index exchanges = index_from 0 exchanges []

  -- `ReplaySource::new`
  unfoldable pub new : List RecordedExchange → ReplayState
  unfolding build_index
  new exchanges = record { exchanges = exchanges; index = build_index exchanges }

  -- The loop of `from_storage`, which ends at the first error of the stream.
  abbrev pub collect : List (Result RecordedExchange) → Result (List RecordedExchange)
  collect [] = ok []
  collect (err x ∷ items) = err x
  collect (ok e ∷ items) = elim (collect items) [ err x ↦ err x | ok es ↦ ok (e ∷ es) ]

  unfoldable pub from_storage : (medium : SnapshotStorage) → medium.State → Result ReplayState
  unfolding new
  from_storage medium s = elim (collect (medium.load s)) [ err x ↦ err x | ok es ↦ ok (new es) ]

  -- `ReplaySource::insert`
  unfoldable pub insert : RecordedExchange → ReplayState → ReplayState
  unfolding key_of
  insert e state =
      if is_response e.outcome
      then (if is_some (find_key (key_of e.request) state.index) then state else record {
        exchanges = state.exchanges ++ e ∷ [];
        index = state.index ++ (key_of e.request, length state.exchanges) ∷ [];
      })
      else state

  -- One round of `build_header_map`: a pair that is no header is dropped.
  insert_valid : http.HeaderMap → Option String → Option Bytes → http.HeaderMap
  insert_valid headers (some name) (some value) = http.insert headers name value
  insert_valid headers (some name) none = headers
  insert_valid headers none value = headers

  header_pair : http.HeaderMap → String → String → http.HeaderMap
  unfolding insert_valid
  header_pair headers k v =
      insert_valid headers (http.header_name (as_bytes k)) (http.header_value (as_bytes v))

  header_pairs_into : List (String × String) → http.HeaderMap → http.HeaderMap
  unfolding header_pair
  header_pairs_into [] headers = headers
  header_pairs_into ((k, v) ∷ rest) headers = header_pairs_into rest (header_pair headers k v)

  unfoldable pub build_header_map : List (String × String) → http.HeaderMap
  unfolding header_pairs_into
  build_header_map pairs = header_pairs_into pairs http.no_headers

  -- The key of a live request, after redaction.
  unfoldable pub lookup_key : ProxyRequest http → IndexKey
  unfolding path_and_query_of_uri sha256_hex
  lookup_key req = record {
    method = req.method;
    path_and_query = path_and_query_of_uri req.uri;
    body_sha256 = sha256_hex http req.body;
  }

  unfoldable pub replayed : RecordedResponse → ProxyResponse http
  unfolding build_header_map status_of
  replayed r = record {
    status = status_of http r;
    headers = build_header_map r.headers;
    body = r.body;
    version = http_11;
  }

  unfoldable pub outcome_response : ExchangeOutcome → Option (ProxyResponse http)
  unfolding replayed
  outcome_response (response r) = some (replayed r)
  outcome_response (error m) = none

  unfoldable pub replay_outcome : Option RecordedExchange → Option (ProxyResponse http)
  unfolding outcome_response
  replay_outcome none = none
  replay_outcome (some e) = outcome_response e.outcome

  -- `ReplaySource::lookup`
  unfoldable pub lookup :
      ReplayState → ProxyRequest http → List (ProxyMiddleware http) → Option (ProxyResponse http)
  unfolding lookup_key find_exchange replay_outcome redact_request
  lookup state req chain =
      replay_outcome (find_exchange (lookup_key (redact_request http chain req)) state)
