-- ===== src/ControlPlane/Accepting.antt =====
-- `accept_loop` of crates/partly-proxy-lib/src/control_plane.rs. Unlike that of a listener it returns
-- at once, and leaves its connections to see the shutdown signal for themselves.
use partly_proxy.Base.{
  true, Option, none, some, List, [], ◌∷◌, ◌++◌, ◌≡◌, refl, ◌∙◌, if◌then◌else◌, if_false, All,
}
use mathlib.Core.List.{append_assoc, append-nil}
use partly_proxy.Listener.Accepting.{
  Event, shutdown_is, sender_lost, accepted, accept_failed, connection_reset, connection_aborted,
  interrupted, other_kind, is_fatal_accept,
}
use partly_proxy.Listener.Accepting.Exits.{stops, GoesOn, connections}

module _ {C : Type 0} where
  -- The connections that were given a task; `none` is a loop that goes on.
  unfoldable pub accept_control : List C → List (Event C) → Option (List C)
  unfolding is_fatal_accept
  accept_control spawned [] = none
  accept_control spawned (shutdown_is (some d) ∷ events) = some spawned
  accept_control spawned (shutdown_is none ∷ events) = accept_control spawned events
  accept_control spawned (sender_lost ∷ events) = some spawned
  accept_control spawned (accepted c ∷ events) = accept_control (spawned ++ c ∷ []) events
  accept_control spawned (accept_failed kind value ∷ events) =
      let later = accept_control spawned events in
      if is_fatal_accept kind then some spawned else later

  -- It ends at the events at which that of a listener ends, with the connections from before.
  accept_control_stop :
      (before : List (Event C)) (stop : Event C) (later : List (Event C)) (spawned : List C)
      → All GoesOn before
      → stops stop ≡ true
      → accept_control spawned (before ++ stop ∷ later) ≡ some (spawned ++ connections before)
  unfolding accept_control is_fatal_accept
  accept_control_stop [] (shutdown_is none) later spawned h s = absurd (cc s)
  accept_control_stop [] (shutdown_is (some d)) later spawned h s = rw append-nil refl
  accept_control_stop [] sender_lost later spawned h s = rw append-nil refl
  accept_control_stop [] (accepted c) later spawned h s = absurd (cc s)
  accept_control_stop [] (accept_failed other_kind value) later spawned h s = rw append-nil refl
  accept_control_stop [] (accept_failed connection_reset value) later spawned h s = absurd (cc s)
  accept_control_stop [] (accept_failed connection_aborted value) later spawned h s = absurd (cc s)
  accept_control_stop [] (accept_failed interrupted value) later spawned h s = absurd (cc s)
  accept_control_stop (shutdown_is none ∷ before) stop later spawned (_, h) s =
      accept_control_stop before stop later spawned h s
  accept_control_stop (shutdown_is (some d) ∷ before) stop later spawned (e, h) s = absurd (cc e)
  accept_control_stop (sender_lost ∷ before) stop later spawned (e, h) s = absurd (cc e)
  accept_control_stop (accepted c ∷ before) stop later spawned (_, h) s =
      accept_control_stop before stop later (spawned ++ c ∷ []) h s ∙ rw append_assoc refl
  accept_control_stop (accept_failed kind value ∷ before) stop later spawned (e, h) s =
      if_false _ _ e ∙ accept_control_stop before stop later spawned h s
