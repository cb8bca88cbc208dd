-- ===== src/ControlPlane.antt =====
-- crates/partly-proxy-lib/src/control_plane.rs: the lines of one connection. The codec of JSON
-- (serde_json) and `str::trim` are a parameter. What a connection sees is a sequence, one event for
-- each turn of its loop: while a line is handled it sees nothing else. `none` as a response is an
-- assertion that still waits, behind which the connection is not read.
pub mod Lines
pub mod Accepting
use partly_proxy.Base.{
  ℕ, true, false, String, Bool, Option, none, some, List, [], ◌∷◌, ◌==◌, if◌then◌else◌, format,
}
use partly_proxy.Http.{Http}
use partly_proxy.Types.Error.{ProxyError, to_string}
use partly_proxy.Storage.{SnapshotStorage}
use partly_proxy.Command.{Command, CommandResponse, ControlState, Round, dispatch}
use partly_proxy.Wire.{
  WireCommand, WireResponse, error, from_response, Lowered, lowered, refused, into_command,
}

pub data Decoded : Type 0 where
  decoded : WireCommand → Decoded
  -- The text of the error.
  invalid : String → Decoded

pub record Codec : Type 0 where
  pub trim : String → String
  -- `serde_json::from_str`
  pub from_str : String → Decoded

-- How a connection ends: with `Ok`, or with an error of a read or of a write.
pub data Exit : Type 0 where
  closed broken : Exit

module _ (medium : SnapshotStorage) where
  -- What becomes of a command that is sent: the processor handles it, and an assertion sees these
  -- rounds; or the channel is closed or the reply dropped, and the command is not handled.
  pub data Delivery : Type 0 where
    processed : List (Round medium) → Delivery
    undelivered : ProxyError → Delivery

  pub data Event : Type 0 where
    -- The shutdown channel changed, and has this value; or its sender is gone.
    shutdown_is : Option ℕ → Event
    sender_lost : Event
    -- A line, what becomes of its command, and whether the response can be written and flushed.
    line_read : String → Delivery → Bool → Event
    read_failed end_of_input : Event

module _ (http : Http) (medium : SnapshotStorage) (codec : Codec) where
  -- A response that `CommandSender::send` returns.
  answer :
      Option CommandResponse × ControlState http medium
      → Option WireResponse × ControlState http medium
  unfolding from_response
  answer (none, s) = (none, s)
  answer (some response, s) = (some (from_response response), s)

  send_lowered :
      Lowered http
      → Delivery medium
      → ControlState http medium
      → Option WireResponse × ControlState http medium
  unfolding answer to_string
  send_lowered (refused message) delivery s = (some (error message), s)
  send_lowered (lowered cmd) (processed rounds) s = answer (dispatch http medium cmd rounds s)
  send_lowered (lowered cmd) (undelivered e) s = (some (error (to_string e)), s)

  handle_decoded :
      Decoded
      → Delivery medium
      → ControlState http medium
      → Option WireResponse × ControlState http medium
  unfolding send_lowered format
  handle_decoded (invalid e) delivery s = (some (error (format ("invalid JSON: " ∷ e ∷ []))), s)
  handle_decoded (decoded wire) delivery s = send_lowered (into_command http wire) delivery s

  -- `handle_line`
  unfoldable pub handle_line :
      String
      → Delivery medium
      → ControlState http medium
      → Option WireResponse × ControlState http medium
  unfolding handle_decoded
  handle_line line delivery s = handle_decoded (codec.from_str line) delivery s

  -- What a connection has done: the responses that it wrote, the state behind it, and its end; `none`
  -- is a connection that is still served.
  pub record Served : Type 0 where
    pub responses : List WireResponse
    pub state : ControlState http medium
    pub exit : Option Exit

  unfoldable pub served : ControlState http medium → Option Exit → Served
  served s exit = record { responses = []; state = s; exit = exit }

  -- What the connection does behind a response; `later` is what it does with the events behind.
  go_on : Option WireResponse → Bool → ControlState http medium → Served → Served
  unfolding served
  go_on none written s later = served s none
  go_on (some response) false s later = served s (some broken)
  go_on (some response) true s later = record later { responses = response ∷ later.responses }

  -- `serve_connection`
  unfoldable pub serve_connection : List (Event medium) → ControlState http medium → Served
  unfolding go_on served
  serve_connection [] s = served s none
  serve_connection (shutdown_is (some d) ∷ events) s = served s (some closed)
  serve_connection (shutdown_is none ∷ events) s = serve_connection events s
  serve_connection (sender_lost ∷ events) s = served s (some closed)
  serve_connection (read_failed ∷ events) s = served s (some broken)
  serve_connection (end_of_input ∷ events) s = served s (some closed)
  serve_connection (line_read line delivery written ∷ events) s =
      let trimmed = codec.trim line in
      let skipped = serve_connection events s in
      let (response, s') = handle_line trimmed delivery s in
      let answered = go_on response written s' (serve_connection events s') in
      if trimmed == "" then skipped else answered
