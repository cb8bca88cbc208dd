-- ===== src/Echo.antt =====
-- crates/partly-proxy-echo/src/lib.rs: the echo server that the integration tests have as an upstream.
pub mod Answers
use partly_proxy.Base.{
  ℕ, ◌-◌, ◌^◌, String, Bytes, Bool, true, false, not, Option, none, some, List, [], ◌∷◌, ◌++◌, ◌≡◌,
  refl, map, ◌==◌, if◌then◌else◌, as_bytes, decimal, format, strip_prefix, parse_unsigned, ◌⊎◌, inl,
  inr,
}
use partly_proxy.Http.{Http}
use partly_proxy.Listener.Accepting.{
  ErrorKind, connection_reset, connection_aborted, interrupted, other_kind,
}

pub data EchoPayload : Type 0 where
  utf8_payload : String → EchoPayload
  base64_payload : String → EchoPayload

pub record EchoBody : Type 0 where
  pub method : String
  pub path : String
  pub query : Option String
  pub headers : List (String × String)
  pub body : EchoPayload

pub record EchoResponse : Type 0 where
  pub status : ℕ
  pub headers : List (String × String)
  pub body : Bytes

-- `Request<Incoming>`; a body that cannot be read is `none`.
pub record EchoRequest (http : Http) : Type 0 where
  pub method : String
  pub uri : http.Uri
  pub headers : http.HeaderMap
  pub body : Option Bytes

-- `Uri::query`, `str::from_utf8`, the encoder of base64, and `serde_json::to_vec`.
pub record EchoCodec (http : Http) : Type 0 where
  pub uri_query : http.Uri → Option String
  pub from_utf8 : Bytes → Option String
  pub base64 : Bytes → String
  pub to_json : EchoBody → Bytes

unfoldable pub is_fatal_accept : ErrorKind → Bool
is_fatal_accept connection_reset = false
is_fatal_accept connection_aborted = false
is_fatal_accept interrupted = false
is_fatal_accept other_kind = true

-- `serve`: the connections that were given a task, and the error that ended it; `none` is a loop that
-- goes on.
unfoldable pub serve : {C : Type 0} → List C → List (C ⊎ ErrorKind) → List C × Option ErrorKind
unfolding is_fatal_accept
serve spawned [] = (spawned, none)
serve spawned (inl c ∷ events) = serve (spawned ++ c ∷ []) events
serve spawned (inr kind ∷ events) =
    let later = serve spawned events in if is_fatal_accept kind then (spawned, some kind) else later

unfoldable pub simple_response : ℕ → String → EchoResponse
unfolding as_bytes
simple_response status body = record {
  status = status;
  headers = ("content-type", "text/plain; charset=utf-8") ∷ ("x-echo", "true") ∷ [];
  body = as_bytes body;
}

-- `sleep_response`: the time that it sleeps, in milliseconds, and the response.
unfoldable pub slept : ℕ → ℕ × EchoResponse
unfolding simple_response decimal format
slept millis = (millis, simple_response 200 (format ("slept=" ∷ decimal millis ∷ [])))

unfoldable pub slept_or_zero : Option ℕ → ℕ × EchoResponse
unfolding slept
slept_or_zero none = slept 0
slept_or_zero (some n) = slept n

unfoldable pub sleep_response : String → ℕ × EchoResponse
unfolding slept_or_zero parse_unsigned
sleep_response ms = slept_or_zero (parse_unsigned (2 ^ 64 - 1) ms)

unfoldable pub number_response : ℕ → EchoResponse
unfolding simple_response decimal format
number_response status = simple_response status (format ("status=" ∷ decimal status ∷ []))

module _ (http : Http) (codec : EchoCodec http) where
  unfoldable pub valid_or_400 : Option ℕ → ℕ
  valid_or_400 none = 400
  valid_or_400 (some c) = elim (http.status_from_u16 c) [ some s ↦ s | none ↦ 400 ]

  unfoldable pub status_response : String → EchoResponse
  unfolding valid_or_400 number_response parse_unsigned
  status_response code = number_response (valid_or_400 (parse_unsigned (2 ^ 16 - 1) code))

  text_of : String × Bytes → String × String
  text_of (k, v) = (k, elim (http.value_text v) [ some t ↦ t | none ↦ "<binary>" ])

  payload_of_bytes : Bytes → EchoPayload
  payload_of_bytes bytes = elim (codec.from_utf8 bytes) [
    | some s ↦ utf8_payload s
    | none ↦ base64_payload (codec.base64 bytes)
  ]

  payload_of : Option Bytes → EchoPayload
  unfolding payload_of_bytes
  payload_of none = payload_of_bytes []
  payload_of (some bytes) = payload_of_bytes bytes

  unfoldable pub echo_response : EchoRequest http → EchoResponse
  unfolding text_of payload_of
  echo_response req =
      let payload : EchoBody = record {
        method = req.method;
        path = http.uri_path req.uri;
        query = codec.uri_query req.uri;
        headers = map text_of (http.iter req.headers);
        body = payload_of req.body;
      } in
      record {
        status = 200;
        headers = ("content-type", "application/json") ∷ ("x-echo", "true") ∷ [];
        body = codec.to_json payload;
      }

  -- `handle`: the time before the response, and the response, by the path behind `/_status/` and
  -- the path behind `/_sleep/`.
  unfoldable pub routed : EchoRequest http → Option String → Option String → ℕ × EchoResponse
  unfolding status_response sleep_response simple_response echo_response
  routed req (some code) sleep = (0, status_response code)
  routed req none (some ms) = sleep_response ms
  routed req none none =
      if http.uri_path req.uri == "/_kill"
      then (0, simple_response 500 "killed")
      else (0, echo_response req)

  unfoldable pub handle : EchoRequest http → ℕ × EchoResponse
  unfolding routed strip_prefix
  handle req =
      let path = http.uri_path req.uri in
      routed req (strip_prefix path "/_status/") (strip_prefix path "/_sleep/")
