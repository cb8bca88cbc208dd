-- ===== src/Listener/Accepting.antt =====
-- crates/partly-proxy-lib/src/listener.rs: `accept_loop`, `serve_one` and `is_fatal_accept`. What the
-- loop sees is a sequence: a change of the shutdown channel with the value that is borrowed behind
-- it, the loss of its sender, a connection or an error of `accept`. What a connection does is a
-- sequence too, up to the drain signal and from there to the deadline.
pub mod Exits
use partly_proxy.Base.{
  ℕ, Bool, true, false, Option, none, some, List, [], ◌∷◌, ◌++◌, ◌≡◌, refl, ap, ◌∙◌, inl, inr,
  Bool-cases, if◌then◌else◌, if_true, if_false, is_some, All, map, ◌&&◌,
}
use partly_proxy.Http.{Http}
use partly_proxy.Upstream.{UpstreamRuntime}

-- `std::io::ErrorKind`, as far as the loop tells the kinds apart.
pub data ErrorKind : Type 0 where
  connection_reset connection_aborted interrupted other_kind : ErrorKind

unfoldable pub is_fatal_accept : ErrorKind → Bool
is_fatal_accept other_kind = true
is_fatal_accept _ = false

-- What a connection does of its own accord.
pub data Own : Type 0 where
  handshake_done handshake_failed ended : Own

-- How its task ends: with the handshake, by itself, in the drain, or by the abort.
pub data Ending : Type 0 where
  handshake_error handshake_cut done drained dropped : Ending

-- Where the task of a connection stands.
pub data Phase : Type 0 where
  handshaking serving draining : Phase
  over : Ending → Phase

unfoldable pub on_own : Own → Phase → Phase
on_own handshake_done handshaking = serving
on_own handshake_failed handshaking = over handshake_error
on_own ended serving = over done
on_own ended draining = over drained
on_own _ phase = phase

-- A half-finished handshake does not outlive the drain signal.
unfoldable pub on_drain : Phase → Phase
on_drain handshaking = over handshake_cut
on_drain serving = draining
on_drain phase = phase

unfoldable pub on_abort : Phase → Phase
on_abort draining = over dropped
on_abort phase = phase

unfoldable pub run_own : List Own → Phase → Phase
unfolding on_own
run_own [] phase = phase
run_own (own ∷ later) phase = run_own later (on_own own phase)

pub record Connection : Type 0 where
  pub tls : Bool
  pub before_drain : List Own
  pub in_drain : List Own

-- `serve_one`, up to the deadline of the drain.
unfoldable pub serve_one : Connection → Phase
unfolding run_own on_drain
serve_one c =
    run_own c.in_drain (on_drain (run_own c.before_drain (if c.tls then handshaking else serving)))

unfoldable pub is_over : Phase → Bool
is_over (over e) = true
is_over phase = false

unfoldable pub all_over : List Phase → Bool
unfolding is_over
all_over [] = true
all_over (phase ∷ phases) = let rest = all_over phases in is_over phase && rest

-- The tracked tasks at the exit of the loop: where one of them is not over at the deadline, all are
-- told to abort, and the loop waits for them.
unfoldable pub wait_or_abort : List Phase → List Phase
unfolding all_over on_abort
wait_or_abort phases = if all_over phases then phases else map on_abort phases

-- What an accept loop sees, with what it accepts.
pub data Event (C : Type 0) : Type 0 where
  shutdown_is : Option ℕ → Event C
  sender_lost : Event C
  accepted : C → Event C
  -- With the value that the shutdown channel has when the loop has ended with it.
  accept_failed : ErrorKind → Option ℕ → Event C

-- The loop at its end: the connections that it tracks, and the deadline of the drain.
pub record Stopped : Type 0 where
  pub tracked : List Connection
  pub deadline : ℕ

-- `shutdown.borrow().unwrap_or(Duration::from_secs(5))`
unfoldable pub deadline_of : Option ℕ → ℕ
deadline_of none = 5_000_000_000
deadline_of (some d) = d

-- The loop, with the value of the shutdown channel and the connections so far; `none` is a loop that
-- goes on.
unfoldable pub accept_from : Option ℕ → List Connection → List (Event Connection) → Option Stopped
unfolding is_fatal_accept deadline_of
accept_from value tracked [] = none
accept_from value tracked (shutdown_is (some d) ∷ events) =
    some (record { tracked = tracked; deadline = deadline_of (some d) })
accept_from value tracked (shutdown_is none ∷ events) = accept_from none tracked events
accept_from value tracked (sender_lost ∷ events) =
    some (record { tracked = tracked; deadline = deadline_of value })
accept_from value tracked (accepted c ∷ events) = accept_from value (tracked ++ c ∷ []) events
accept_from value tracked (accept_failed kind now ∷ events) =
    let later = accept_from value tracked events in
    if is_fatal_accept kind
    then some (record { tracked = tracked; deadline = deadline_of now })
    else later

module _ (http : Http) where
  -- `accept_loop`: the runtime, whose pause is lifted for the drain, and the tasks at the exit.
  unfoldable pub left :
      Option Stopped → UpstreamRuntime http → Option (UpstreamRuntime http × List Phase)
  unfolding wait_or_abort serve_one
  left none runtime = none
  left (some stopped) runtime =
      some (record runtime { pause = false }, wait_or_abort (map serve_one stopped.tracked))

  unfoldable pub accept_loop :
      List (Event Connection) → UpstreamRuntime http → Option (UpstreamRuntime http × List Phase)
  unfolding left accept_from
  accept_loop events runtime = left (accept_from none [] events) runtime
