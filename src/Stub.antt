-- ===== src/Stub.antt =====
-- crates/partly-proxy-lib/src/stub.rs: the matcher, the canned response and the stub store of one
-- upstream. The store's lock is held for each whole operation, so an operation is a function.
pub mod Firing
pub mod Capacity
use partly_proxy.Base.{
  ℕ, ◌-◌, length, String, Bytes, Bool, true, false, ◌&&◌, Option, none, some, List, [], ◌∷◌, ◌++◌,
  Map, insert, ◌==◌, eqb, if◌then◌else◌, contains, as_bytes, to_ascii_lowercase, position,
  get_elem?, set, remove,
}
use partly_proxy.Http.{Http, get}
use partly_proxy.Types.ProxyIo.{ProxyRequest, ProxyResponse, http_11}

pub data PathPattern (http : Http) : Type 0 where
  regex : http.Regex → PathPattern http
  exact : String → PathPattern http

pub record RequestMatcher (http : Http) : Type 0 where
  pub method : Option String
  pub path_pattern : Option (PathPattern http)
  pub header_contains : Map String
  pub body_contains : Option Bytes

pub record StubbedResponse : Type 0 where
  pub status : ℕ
  pub headers : List (String × String)
  pub body : Bytes
  pub delay : Option ℕ

-- `times` is `none` for a stub without a limit.
pub record StubEntry (http : Http) : Type 0 where
  pub matcher : RequestMatcher http
  pub response : StubbedResponse
  pub times : Option ℕ

-- The contents of the store behind its lock.
abbrev pub StubStore : Http → Type 0
StubStore http = List (StubEntry http)

-- `StubbedResponse::new` and its fluent setters.
abbrev pub new_stubbed : ℕ → StubbedResponse
new_stubbed status = record { status = status; headers = []; body = []; delay = none }

unfoldable pub add_header : StubbedResponse → String → String → StubbedResponse
add_header r name value = record r { headers = r.headers ++ (name, value) ∷ [] }

unfoldable pub set_body : StubbedResponse → Bytes → StubbedResponse
set_body r body = record r { body = body }

unfoldable pub set_delay : StubbedResponse → ℕ → StubbedResponse
set_delay r d = record r { delay = some d }

module _ (http : Http) where
  abbrev pub new_matcher : RequestMatcher http
  new_matcher = record {
    method = none;
    path_pattern = none;
    header_contains = [];
    body_contains = none;
  }

  -- The fluent setters `method`, `path`, `header` and `body_contains`.
  unfoldable pub match_method : RequestMatcher http → String → RequestMatcher http
  match_method m method = record m { method = some method }

  unfoldable pub match_path : RequestMatcher http → String → RequestMatcher http
  match_path m raw = record m {
    path_pattern = some (elim (http.compile raw) [ some r ↦ regex r | none ↦ exact raw ]);
  }

  unfoldable pub match_header : RequestMatcher http → String → String → RequestMatcher http
  unfolding to_ascii_lowercase
  match_header m name value = record m {
    header_contains = insert (to_ascii_lowercase name) value m.header_contains;
  }

  unfoldable pub match_body : RequestMatcher http → Bytes → RequestMatcher http
  match_body m needle = record m { body_contains = some needle }

  method_agrees : Option String → ProxyRequest http → Bool
  method_agrees none req = true
  method_agrees (some m) req = req.method == m

  path_agrees : Option (PathPattern http) → ProxyRequest http → Bool
  path_agrees none req = true
  path_agrees (some (regex r)) req = http.is_match r (http.uri_path req.uri)
  path_agrees (some (exact s)) req = http.uri_path req.uri == s

  -- `get(name).and_then(|v| v.to_str().ok()).is_some_and(|v| v.contains(needle))`
  text_contains : Option String → String → Bool
  text_contains none needle = false
  text_contains (some v) needle = contains v needle

  header_agrees : Option Bytes → String → Bool
  header_agrees none needle = false
  header_agrees (some v) needle = text_contains (http.value_text v) needle

  headers_agree : Map String → ProxyRequest http → Bool
  unfolding header_agrees text_contains
  headers_agree [] req = true
  headers_agree ((name, needle) ∷ rest) req =
      header_agrees (get http req.headers name) needle && headers_agree rest req

  body_agrees : Option Bytes → ProxyRequest http → Bool
  body_agrees none req = true
  body_agrees (some needle) req = contains (http.utf8_lossy req.body) (http.utf8_lossy needle)

  -- `RequestMatcher::matches`
  unfoldable pub matches : RequestMatcher http → ProxyRequest http → Bool
  unfolding method_agrees path_agrees headers_agree body_agrees
  matches m req =
      method_agrees m.method req
      && path_agrees m.path_pattern req
      && headers_agree m.header_contains req
      && body_agrees m.body_contains req

  -- One round of the loop of `into_proxy`: a pair that is no header is dropped.
  insert_pair : http.HeaderMap → String → String → http.HeaderMap
  insert_pair headers n v = elim (http.header_name (as_bytes n)) [
    | none ↦ headers
    | some name ↦ elim (http.header_value (as_bytes v)) [
      | none ↦ headers
      | some val ↦ http.insert headers name val
    ]
  ]

  insert_pairs : List (String × String) → http.HeaderMap → http.HeaderMap
  unfolding insert_pair
  insert_pairs [] headers = headers
  insert_pairs ((n, v) ∷ rest) headers = insert_pairs rest (insert_pair headers n v)

  unfoldable pub into_proxy : StubbedResponse → ProxyResponse http
  unfolding insert_pairs
  into_proxy r = record {
    status = r.status;
    headers = insert_pairs r.headers http.no_headers;
    body = r.body;
    version = http_11;
  }

  -- `StubStore::add`
  unfoldable pub add : StubEntry http → StubStore http → StubStore http
  add entry stubs = stubs ++ entry ∷ []

  -- `StubStore::clear` and `len`
  unfoldable pub clear : StubStore http → StubStore http
  clear stubs = []

  unfoldable pub len : StubStore http → ℕ
  len stubs = length stubs

  -- The entry at `idx` fires: its counter goes down (`saturating_sub`), and at zero it is removed.
  count_down : StubStore http → ℕ → StubEntry http → Option ℕ → StubStore http
  count_down stubs idx e none = stubs
  count_down stubs idx e (some remaining) =
      let left = remaining - 1 in
      if eqb left 0 then remove stubs idx else set stubs idx (record e { times = some left })

  -- `stubs[idx]`, which is in range at an index from `position`.
  fire_at :
      StubStore http
      → ℕ
      → Option (StubEntry http)
      → Option (StubbedResponse × Option ℕ) × StubStore http
  fire_at stubs idx none = (none, stubs)
  fire_at stubs idx (some e) = (some (e.response, e.response.delay), count_down stubs idx e e.times)

  take_at : StubStore http → Option ℕ → Option (StubbedResponse × Option ℕ) × StubStore http
  unfolding fire_at
  take_at stubs none = (none, stubs)
  take_at stubs (some idx) = fire_at stubs idx (get_elem? stubs idx)

  -- `StubStore::take_match`: the response of the first match with its delay, and the store
  -- afterwards.
  unfoldable pub take_match :
      ProxyRequest http → StubStore http → Option (StubbedResponse × Option ℕ) × StubStore http
  unfolding count_down take_at
  take_match req stubs =
      take_at stubs (position (λ (e : StubEntry http). matches e.matcher req) stubs)
