-- ===== src/ControlPlane/Lines.antt =====
-- The responses of a connection against its lines.
use partly_proxy.Base.{
  arith, String, true, Option, none, some, List, [], ◌∷◌, ◌++◌, ◌≡◌, ◌⊎◌, if◌then◌else◌, refl, ap,
  ◌∙◌, inl, inr, ◌==◌, Bool-cases, Option-cases, is_some, All,
}
use partly_proxy.Http.{Http}
use partly_proxy.Storage.{SnapshotStorage}
use partly_proxy.Command
use partly_proxy.Command.{Command, CommandResponse, ControlState, dispatch}
use partly_proxy.Command.Scope.{dispatch_error}
use partly_proxy.Wire.{WireResponse, error, from_response, Lowered, lowered, refused, into_command}
use partly_proxy.ControlPlane.{
  Codec, Exit, closed, broken, Delivery, processed, undelivered, Event, shutdown_is, sender_lost,
  line_read, read_failed, end_of_input, served, Decoded, decoded, invalid, answer, send_lowered,
  handle_decoded, handle_line, go_on, serve_connection,
}

from_response_error :
    (r : CommandResponse) (m : String) → from_response r ≡ error m → r ≡ Command.error m
unfolding from_response
from_response_error Command.done m h = absurd (cc h)
from_response_error (Command.error k) m h = ground (arith, h)
from_response_error (Command.exchanges es) m h = absurd (cc h)
from_response_error (Command.assertion_result passed k) m h = absurd (cc h)

module _ (http : Http) (medium : SnapshotStorage) (codec : Codec) where
  answer_error :
      (o : Option CommandResponse) (s' s : ControlState http medium) (m : String)
      → (o ≡ some (Command.error m) → s' ≡ s)
      → (answer http medium codec (o, s')).0 ≡ some (error m)
      → s' ≡ s
  unfolding answer
  answer_error none s' s m unchanged h = absurd (cc h)
  answer_error (some r) s' s m unchanged h =
      unchanged (ap some (from_response_error r m (ground (arith, h))))

  answer-state :
      (o : Option CommandResponse) (s : ControlState http medium)
      → (answer http medium codec (o, s)).1 ≡ s
  unfolding answer
  answer-state none s = refl
  answer-state (some r) s = refl

  send_lowered_error :
      (l : Lowered http) (delivery : Delivery medium) (s : ControlState http medium) (m : String)
      → (send_lowered http medium codec l delivery s).0 ≡ some (error m)
      → (send_lowered http medium codec l delivery s).1 ≡ s
  unfolding send_lowered
  send_lowered_error (refused message) delivery s m h = refl
  send_lowered_error (lowered cmd) (undelivered e) s m h = refl
  send_lowered_error (lowered cmd) (processed rounds) s m h =
      let (o, s') = dispatch http medium cmd rounds s in
      answer-state o s' ∙ answer_error o s' s m (dispatch_error http medium cmd rounds s m) h

  handle_decoded_error :
      (d : Decoded) (delivery : Delivery medium) (s : ControlState http medium) (m : String)
      → (handle_decoded http medium codec d delivery s).0 ≡ some (error m)
      → (handle_decoded http medium codec d delivery s).1 ≡ s
  unfolding handle_decoded
  handle_decoded_error (invalid e) delivery s m h = refl
  handle_decoded_error (decoded wire) delivery s m h =
      send_lowered_error (into_command http wire) delivery s m h

  -- A line that is answered with an error has changed nothing, whether it is no JSON, no command, a
  -- command that cannot be sent, or one that fails.
  handle_line_error :
      (line : String) (delivery : Delivery medium) (s : ControlState http medium) (m : String)
      → (handle_line http medium codec line delivery s).0 ≡ some (error m)
      → (handle_line http medium codec line delivery s).1 ≡ s
  unfolding handle_line
  handle_line_error line delivery s m h = handle_decoded_error (codec.from_str line) delivery s m h

  -- The lines that are not blank, without the white space around them.
  abbrev pub requests : List (Event medium) → List (String × Delivery medium)
  requests [] = []
  requests (line_read line delivery written ∷ events) =
      if codec.trim line == ""
      then requests events
      else (codec.trim line, delivery) ∷ requests events
  requests (_ ∷ events) = requests events

  -- The events behind which the connection goes on: a change of the channel that is no signal, a blank
  -- line, and a line that is answered in every state (no assertion on it waits beyond its rounds) and
  -- whose response can be written.
  abbrev pub GoesOn : Event medium → Type 0
  GoesOn (shutdown_is none) = Unit
  GoesOn (line_read line delivery written) =
      ((codec.trim line == "") ≡ true)
      ⊎ ((written ≡ true)
          × ((s : ControlState http medium)
              → is_some (handle_line http medium codec (codec.trim line) delivery s).0 ≡ true))
  GoesOn _ = ⊥

  -- How an event ends the connection.
  abbrev pub exit_of : Event medium → Option Exit
  exit_of (shutdown_is (some d)) = some closed
  exit_of (shutdown_is none) = none
  exit_of sender_lost = some closed
  exit_of end_of_input = some closed
  exit_of read_failed = some broken
  exit_of (line_read line delivery written) = none

  -- The requests are answered one after another, each with one response, on the state that those in
  -- front of it left.
  abbrev pub Answered :
      List (String × Delivery medium)
      → ControlState http medium
      → List WireResponse
      → ControlState http medium
      → Type 0
  Answered [] s [] s' = s' ≡ s
  Answered [] s (r ∷ rs) s' = ⊥
  Answered (l ∷ ls) s [] s' = ⊥
  Answered ((line, delivery) ∷ ls) s (r ∷ rs) s' =
      (next : ControlState http medium) × (handle_line http medium codec line delivery s
        ≡ (some r, next))
      × Answered ls next rs s'

  -- The connection, for as long as it goes on, answers the lines that are not blank, in their order,
  -- each once and on the state that the earlier ones left. It ends at the first signal of the shutdown,
  -- at the loss of its sender and at the end of the input with `Ok`, and with an error where a read
  -- fails; nothing that would come behind is read.
  pub serve_connection_exits :
      (before : List (Event medium)) (stop : Event medium) (later : List (Event medium))
      (s : ControlState http medium) (exit : Exit)
      → All GoesOn before
      → exit_of stop ≡ some exit
      → let served = serve_connection http medium codec (before ++ stop ∷ later) s in
        (served.exit ≡ some exit) × Answered (requests before) s served.responses served.state
  unfolding serve_connection served go_on
  serve_connection_exits [] (shutdown_is (some d)) later s exit h e = (e, refl)
  serve_connection_exits [] (shutdown_is none) later s exit h e = absurd (cc e)
  serve_connection_exits [] sender_lost later s exit h e = (e, refl)
  serve_connection_exits [] end_of_input later s exit h e = (e, refl)
  serve_connection_exits [] read_failed later s exit h e = (e, refl)
  serve_connection_exits [] (line_read line delivery written) later s exit h e = absurd (cc e)
  serve_connection_exits (shutdown_is none ∷ before) stop later s exit (_, h) e =
      serve_connection_exits before stop later s exit h e
  serve_connection_exits (shutdown_is (some d) ∷ before) stop later s exit (g, h) e = absurd g
  serve_connection_exits (sender_lost ∷ before) stop later s exit (g, h) e = absurd g
  serve_connection_exits (end_of_input ∷ before) stop later s exit (g, h) e = absurd g
  serve_connection_exits (read_failed ∷ before) stop later s exit (g, h) e = absurd g
  serve_connection_exits (line_read line delivery written ∷ before) stop later s exit (g, h) e =
      elim (Bool-cases (codec.trim line == "")) [
        | inl blank ↦ rw blank (serve_connection_exits before stop later s exit h e)
        | inr full ↦ elim g [
          | inl blank ↦ absurd (cc (blank, full))
          | inr (fits, ends) ↦
              let (o, s') = handle_line http medium codec (codec.trim line) delivery s in
              elim (Option-cases o) [
                | inl waits ↦ absurd (cc (ends s, waits))
                | inr (r, answered) ↦
                    let (out, rest) = serve_connection_exits before stop later s' exit h e in
                    rw (full, answered, fits, go_on) (out, (s', ap (λ a. (a, s')) answered, rest))
              ]
        ]
      ]
