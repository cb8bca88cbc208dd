-- ===== src/Traffic.antt =====
-- crates/partly-proxy-lib/src/assertions.rs: the filter of assertions and traffic queries.
use partly_proxy.Base.{
  ℕ, String, Bool, true, false, ◌&&◌, Option, none, some, [], ◌∷◌, Map, lookup, insert, ◌==◌, eqb,
  find_after, find_from, before,
}
use partly_proxy.Http.{Http}
use partly_proxy.Types.Recorded.{RecordedExchange, RecordedResponse, as_response}

pub record TrafficFilter : Type 0 where
  pub upstream : Option String
  pub method : Option String
  pub path_pattern : Option String
  pub status : Option ℕ
  pub labels : Map String

abbrev pub new_filter : TrafficFilter
new_filter = record {
  upstream = none;
  method = none;
  path_pattern = none;
  status = none;
  labels = [];
}

-- The fluent setters.
unfoldable pub on_upstream : TrafficFilter → String → TrafficFilter
on_upstream f name = record f { upstream = some name }

unfoldable pub on_method : TrafficFilter → String → TrafficFilter
on_method f m = record f { method = some m }

unfoldable pub on_path_pattern : TrafficFilter → String → TrafficFilter
on_path_pattern f p = record f { path_pattern = some p }

unfoldable pub on_status : TrafficFilter → ℕ → TrafficFilter
on_status f s = record f { status = some s }

unfoldable pub on_label : TrafficFilter → String → String → TrafficFilter
on_label f key value = record f { labels = insert key value f.labels }

-- `o.as_deref() == Some(name)`
abbrev pub holds_text : Option String → String → Bool
holds_text none name = false
holds_text (some s) name = s == name

abbrev root_or : Option String → String
root_or none = "/"
root_or (some s) = s

-- The fallback of `parse_path`: without the query, and without scheme and authority.
strip : String → String
strip uri =
    let no_query = before b'?' uri in
    elim (find_after no_query "://") [ none ↦ no_query | some rest ↦ root_or (find_from b'/' rest) ]

module _ (http : Http) where
  unfoldable pub parse_path : String → String
  unfolding strip before find_after find_from
  parse_path uri = elim (http.parse_uri uri) [ some u ↦ http.uri_path u | none ↦ strip uri ]

  upstream_agrees : Option String → RecordedExchange → Bool
  upstream_agrees none e = true
  upstream_agrees (some name) e = holds_text e.upstream name

  method_agrees : Option String → RecordedExchange → Bool
  method_agrees none e = true
  method_agrees (some m) e = e.request.method == m

  path_agrees : Option String → RecordedExchange → Bool
  path_agrees none e = true
  path_agrees (some p) e =
      let path = parse_path e.request.uri in
      elim (http.compile p) [ some r ↦ http.is_match r path | none ↦ path == p ]

  has_status : Option RecordedResponse → ℕ → Bool
  has_status none want = false
  has_status (some r) want = eqb r.status want

  status_agrees : Option ℕ → RecordedExchange → Bool
  unfolding has_status as_response
  status_agrees none e = true
  status_agrees (some want) e = has_status (as_response e.outcome) want

  labels_agree : Map String → RecordedExchange → Bool
  labels_agree [] e = true
  labels_agree ((k, v) ∷ rest) e = holds_text (lookup k e.labels) v && labels_agree rest e

  -- `TrafficFilter::matches`
  unfoldable pub matches : TrafficFilter → RecordedExchange → Bool
  unfolding upstream_agrees method_agrees path_agrees status_agrees labels_agree
  matches f e =
      upstream_agrees f.upstream e
      && method_agrees f.method e
      && path_agrees f.path_pattern e
      && status_agrees f.status e
      && labels_agree f.labels e
