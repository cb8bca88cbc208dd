-- ===== src/Forwarder.antt =====
-- crates/partly-proxy-lib/src/forwarder.rs. The client (hyper) and the upstream behind it are a
-- parameter: a function of the request that is sent, over a state `net` that keeps what it likes. Where
-- an error only carries the text of another crate's error, a fixed text stands for it.
use Prim.Native.Char.{code}
pub mod Outgoing
use partly_proxy.Base.{
  ℕ, String, Bytes, Bool, true, false, ◌&&◌, Option, none, some, [], ◌∷◌, ◌==◌, eqb, if◌then◌else◌,
  format, ◌||◌, as_bytes,
}
use partly_proxy.Http.{Http}
use partly_proxy.Types.Error.{
  Result, ok, err, ◌>>=◌, ◌>>◌, ok_or, ensure, ProxyError, upstream_connect, upstream_request,
  other,
}
use partly_proxy.Types.ProxyIo.{ProxyRequest, ProxyResponse, Version}
use partly_proxy.Config.{UpstreamTarget}

pub record BaseUri : Type 0 where
  pub scheme : String
  pub authority : String
  pub path_prefix : String

pub record Forwarder : Type 0 where
  pub target : UpstreamTarget
  pub base : BaseUri

-- `trim_end_matches(c)`
unfoldable pub trim_end_matches : ℕ → String → String
trim_end_matches k String.[] = ""
trim_end_matches k (String.◌∷◌ c s) =
    let rest = trim_end_matches k s in
    if eqb (code c) k && rest == "" then "" else String.◌∷◌ c rest

-- What the client answers: the head of a response and its body, whose reading may fail.
pub data Answer (http : Http) : Type 0 where
  answered : ℕ → http.HeaderMap → Version → Option Bytes → Answer http
  timed_out : Answer http
  -- An error of the client, with `is_connect()` and its text.
  failed : Bool → String → Answer http

-- The request that is handed to the client.
pub record Outbound (http : Http) : Type 0 where
  pub method : String
  pub uri : http.Uri
  pub headers : http.HeaderMap
  pub body : Bytes
  pub version : Version

-- The client with its pool, the network and the upstream.
pub record Client (http : Http) : Type 1 where
  pub Net : Type 0
  pub request : Outbound http → Net → Answer http × Net

module _ (http : Http) where
  unfoldable pub parse_base_url : String → Result BaseUri
  unfolding format trim_end_matches
  parse_base_url s = do
    uri ← ok_or (http.parse_uri s) (other "invalid uri")
    scheme ←
        ok_or (http.uri_scheme uri)
          (upstream_connect (format ("base_url missing scheme: " ∷ s ∷ [])))
    ensure (scheme == "http" || scheme == "https")
        (upstream_connect (format ("unsupported scheme " ∷ scheme ∷ " in base_url: " ∷ s ∷ [])))
    authority ←
        ok_or (http.uri_authority uri)
          (upstream_connect (format ("base_url missing authority: " ∷ s ∷ [])))
    ok (record {
      scheme = scheme;
      authority = authority;
      path_prefix = trim_end_matches b'/' (http.uri_path uri);
    })

  -- `Forwarder::new`; the TLS configuration of the client is a parameter, its failure.
  unfoldable pub new : Result (Unit {0}) → UpstreamTarget → Result Forwarder
  unfolding parse_base_url
  new tls_config target = do
    base ← parse_base_url target.base_url
    tls_config
    ok (record { target = target; base = base })

  abbrev slash_or : Option String → String
  slash_or none = "/"
  slash_or (some pq) = pq

  unfoldable pub build_outbound_uri : Forwarder → http.Uri → Result http.Uri
  unfolding format
  build_outbound_uri f inbound =
      let path_and_query = slash_or (http.uri_path_and_query inbound) in
      ok_or
        (http.build_uri f.base.scheme f.base.authority
          (format (f.base.path_prefix ∷ path_and_query ∷ [])))
        (upstream_request "URI build failed")

  -- The `Host` header: the override, or none, for the client to compute.
  unfoldable pub set_host : Option String → http.HeaderMap → Result http.HeaderMap
  set_host none headers = ok (http.remove headers "host")
  set_host (some host) headers = do
    value ←
        ok_or (http.header_value (as_bytes host)) (upstream_request "invalid host_header override")
    ok (http.insert headers "host" value)

  unfoldable pub strip_framing : http.HeaderMap → http.HeaderMap
  strip_framing headers = http.remove (http.remove headers "content-length") "transfer-encoding"

  unfoldable pub outbound_of : Forwarder → ProxyRequest http → Result (Outbound http)
  unfolding build_outbound_uri set_host strip_framing
  outbound_of f req = do
    uri ← build_outbound_uri f req.uri
    headers ← set_host f.target.host_header req.headers
    ok (record {
      method = req.method;
      uri = uri;
      headers = strip_framing headers;
      body = req.body;
      version = req.version;
    })

  -- `classify_legacy_error`
  unfoldable pub classify : http.Uri → Bool → String → ProxyError
  unfolding format
  classify uri true e = upstream_connect (format ("connect to " ∷ http.uri_text uri ∷ []))
  classify uri false e = upstream_request (format ("request to " ∷ http.uri_text uri ∷ []))

  unfoldable pub receive : Forwarder → http.Uri → Answer http → Result (ProxyResponse http)
  unfolding format classify
  receive f uri timed_out = err (
      upstream_request (
        format (
          "request to "
          ∷ http.uri_text uri
          ∷ " timed out after "
          ∷ http.debug_duration f.target.request_timeout
          ∷ [])))
  receive f uri (failed is_connect e) = err (classify uri is_connect e)
  receive f uri (answered status headers version none) =
      err (upstream_request "response body read failed")
  receive f uri (answered status headers version (some body)) =
      ok (record { status = status; headers = headers; body = body; version = version })

  module _ (client : Client http) where
    -- The request goes out only if it could be built.
    send :
        Forwarder → Result (Outbound http) → client.Net → Result (ProxyResponse http) × client.Net
    unfolding receive
    send f (err e) net = (err e, net)
    send f (ok out) net =
        let (answer, net') = client.request out net in (receive f out.uri answer, net')

    -- `Forwarder::forward`
    unfoldable pub forward :
        Forwarder → ProxyRequest http → client.Net → Result (ProxyResponse http) × client.Net
    unfolding outbound_of send
    forward f req net = send f (outbound_of f req) net
