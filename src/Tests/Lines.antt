-- ===== src/Tests/Lines.antt =====
-- Lines of the control plane.
use partly_proxy.Base.{
  true, none, ◌↔◌, ℕ, some, List, [], ◌∷◌, ◌++◌, ◌≡◌, refl, ◌==◌, if◌then◌else◌, inl, inr,
}
use partly_proxy.Types.Error.{command}
use partly_proxy.Storage.Memory.{in_memory_storage}
use partly_proxy.Command.{Command, dispatch}
use partly_proxy.Wire
use partly_proxy.Wire.Fields.{ValidMethod, into_command_stub}
use partly_proxy.ControlPlane.{
  Codec, Event, line_read, shutdown_is, processed, undelivered, closed, decoded, invalid,
  handle_line, serve_connection,
}
use partly_proxy.ControlPlane.Lines.{requests, Answered, serve_connection_exits}
use partly_proxy.Tests.Sample.{sample_http, control}

-- Two commands by their names; all other texts are no JSON.
abbrev codec : Codec
codec = record {
  trim = λ s. s;
  from_str = λ s.
      if s == "pause web"
      then decoded (Wire.pause (some "web"))
      else if s == "clear"
      then decoded Wire.clear_recordings
      else invalid "expected value";
}

-- Two lines and a blank one. By the second the command channel is closed.
abbrev three_lines : List (Event in_memory_storage)
three_lines =
    line_read "clear" (processed []) true
    ∷ line_read "" (processed []) true
    ∷ shutdown_is none
    ∷ line_read "pause web" (undelivered (command "command channel closed")) true
    ∷ []

serve_connection_exits_example :
    let served =
      serve_connection sample_http in_memory_storage codec
        (three_lines ++ shutdown_is (some 9) ∷ line_read "clear" (processed []) true ∷ [])
        control in
    (served.exit ≡ some closed)
    × Answered sample_http in_memory_storage codec
        (requests sample_http in_memory_storage codec three_lines)
        control
        served.responses
        served.state
unfolding handle_line Wire.into_command dispatch
serve_connection_exits_example =
    serve_connection_exits sample_http in_memory_storage codec three_lines (shutdown_is (some 9))
      (line_read "clear" (processed []) true ∷ []) control closed
      (inr (refl, λ s. refl), (inl refl, (tt, (inr (refl, λ s. refl), tt)))) refl

abbrev fields : Wire.StubFields
fields = record {
  upstream = none;
  method = some "GET";
  path_pattern = none;
  header_contains = [];
  body_contains = none;
  status = 404;
  response_headers = [];
  body = "";
  delay_ms = none;
  times = none;
}

into_command_stub_example :
    ((cmd : Command sample_http) × (Wire.into_command sample_http (Wire.stub fields)
        ≡ Wire.lowered cmd))
    ↔ (ValidMethod sample_http fields.method × (n : ℕ) × (sample_http.status_from_u16 404 ≡ some n))
into_command_stub_example = into_command_stub sample_http fields
