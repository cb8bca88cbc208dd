-- ===== src/Wire.antt =====
-- crates/partly-proxy-lib/src/wire.rs: the commands and responses of the JSON Lines protocol. The
-- text form (serde) is a parameter of the control plane. Where an error carries the text of another
-- crate's error, a fixed text stands for it.
pub mod Fields
use partly_proxy.Base.{
  ℕ, String, Bool, Option, none, some, List, [], ◌∷◌, Map, apply_some, as_bytes, format,
}
use partly_proxy.Http.{Http}
use partly_proxy.Types.Recorded.{RecordedExchange}
use partly_proxy.Config.{from_millis}
use partly_proxy.Stub
use partly_proxy.Stub.{RequestMatcher, StubbedResponse}
use partly_proxy.Traffic
use partly_proxy.Traffic.{TrafficFilter}
use partly_proxy.Command
use partly_proxy.Command.{Command, CommandResponse}

pub record WireFilter : Type 0 where
  pub upstream : Option String
  pub method : Option String
  pub path_pattern : Option String
  pub status : Option ℕ
  pub labels : Map String

pub record StubFields : Type 0 where
  pub upstream : Option String
  pub method : Option String
  pub path_pattern : Option String
  pub header_contains : Map String
  pub body_contains : Option String
  pub status : ℕ
  pub response_headers : Map String
  pub body : String
  pub delay_ms : Option ℕ
  pub times : Option ℕ

pub data WireCommand : Type 0 where
  stub : StubFields → WireCommand
  clear_stubs pause resume : Option String → WireCommand
  assert_seen : WireFilter → ℕ → WireCommand
  assert_count : WireFilter → ℕ → ℕ → WireCommand
  query_traffic : WireFilter → WireCommand
  clear_recordings : WireCommand

pub data WireResponse : Type 0 where
  fine : WireResponse
  error : String → WireResponse
  exchanges : List RecordedExchange → WireResponse
  assertion_result : Bool → String → WireResponse

-- `Result<Command, WireError>`, with the error as it is displayed.
pub data Lowered (http : Http) : Type 0 where
  lowered : Command http → Lowered http
  refused : String → Lowered http

abbrev with_labels : Map String → TrafficFilter → TrafficFilter
with_labels [] f = f
with_labels ((k, v) ∷ rest) f = with_labels rest (Traffic.on_label f k v)

-- `WireFilter::into_filter`
unfoldable pub into_filter : WireFilter → TrafficFilter
unfolding Traffic.on_upstream Traffic.on_method Traffic.on_path_pattern Traffic.on_status
    Traffic.on_label
into_filter w =
    let f1 = apply_some w.upstream (λ u f. Traffic.on_upstream f u) Traffic.new_filter in
    let f2 = apply_some w.method (λ m f. Traffic.on_method f m) f1 in
    let f3 = apply_some w.path_pattern (λ p f. Traffic.on_path_pattern f p) f2 in
    let f4 = apply_some w.status (λ s f. Traffic.on_status f s) f3 in with_labels w.labels f4

-- `WireResponse::from_response`
unfoldable pub from_response : CommandResponse → WireResponse
from_response Command.done = fine
from_response (Command.error message) = error message
from_response (Command.exchanges es) = exchanges es
from_response (Command.assertion_result passed message) = assertion_result passed message

module _ (http : Http) where
  with_headers : Map String → RequestMatcher http → RequestMatcher http
  with_headers [] m = m
  with_headers ((k, v) ∷ rest) m = with_headers rest (Stub.match_header http m k v)

  with_response_headers : Map String → StubbedResponse → StubbedResponse
  with_response_headers [] r = r
  with_response_headers ((k, v) ∷ rest) r = with_response_headers rest (Stub.add_header r k v)

  -- The parsed method, `none` where the field is absent; the outer `none` is an invalid method.
  some_method : Option String → Option (Option String)
  some_method none = none
  some_method (some k) = some (some k)

  parsed_method : Option String → Option (Option String)
  unfolding some_method
  parsed_method none = some none
  parsed_method (some m) = some_method (http.parse_method m)

  matcher_of : StubFields → Option String → RequestMatcher http
  unfolding with_headers Stub.match_method Stub.match_path Stub.match_header Stub.match_body
  matcher_of s method =
      let m1 = apply_some method (λ k m. Stub.match_method http m k) (Stub.new_matcher http) in
      let m2 = apply_some s.path_pattern (λ p m. Stub.match_path http m p) m1 in
      let m3 = with_headers s.header_contains m2 in
      apply_some s.body_contains (λ b m. Stub.match_body http m (as_bytes b)) m3

  response_of : StubFields → ℕ → StubbedResponse
  unfolding with_response_headers Stub.set_body Stub.add_header Stub.set_delay
  response_of s status =
      let r1 = Stub.set_body (Stub.new_stubbed status) (as_bytes s.body) in
      let r2 = with_response_headers s.response_headers r1 in
      apply_some s.delay_ms (λ ms r. Stub.set_delay r (from_millis ms)) r2

  -- The command of a stub, by the method and the status that were parsed.
  lower_stub : StubFields → Option (Option String) → Option ℕ → Lowered http
  unfolding matcher_of response_of format
  lower_stub s none status = refused "wire decode: invalid method: invalid HTTP method"
  lower_stub s (some method) none = refused "wire decode: invalid status: invalid status code"
  lower_stub s (some method) (some status) =
      lowered (Command.stub s.upstream (matcher_of s method) (response_of s status) s.times)

  -- `WireCommand::into_command`
  unfoldable pub into_command : WireCommand → Lowered http
  unfolding lower_stub parsed_method into_filter
  into_command (stub s) = lower_stub s (parsed_method s.method) (http.status_from_u16 s.status)
  into_command (clear_stubs upstream) = lowered (Command.clear_stubs upstream)
  into_command (pause upstream) = lowered (Command.pause upstream)
  into_command (resume upstream) = lowered (Command.resume upstream)
  into_command (assert_seen filter timeout_ms) =
      lowered (Command.assert_seen (into_filter filter) (from_millis timeout_ms))
  into_command (assert_count filter expected timeout_ms) =
      lowered (Command.assert_count (into_filter filter) expected (from_millis timeout_ms))
  into_command (query_traffic filter) = lowered (Command.query_traffic (into_filter filter))
  into_command clear_recordings = lowered Command.clear_recordings
