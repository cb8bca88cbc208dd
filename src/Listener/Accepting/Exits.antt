-- ===== src/Listener/Accepting/Exits.antt =====
-- The end of the accept loop: when it stops, and what became of the connections.
use partly_proxy.Base.{
  ℕ, Bool, true, false, none, some, List, [], ◌∷◌, ◌++◌, ◌≡◌, refl, ap, ◌∙◌, inl, inr, Bool-cases,
  if◌then◌else◌, if_true, if_false, All, map, arith,
}
use mathlib.Core.List.{append_assoc, append-nil}
use partly_proxy.Http.{Http}
use partly_proxy.Upstream.{UpstreamRuntime}
use partly_proxy.Listener.Accepting.{
  connection_reset, connection_aborted, interrupted, other_kind, is_fatal_accept, Own,
  handshake_done, handshake_failed, ended, Ending, dropped, Phase, handshaking, serving, draining,
  over, on_own, on_drain, on_abort, run_own, Connection, serve_one, is_over, all_over,
  wait_or_abort, Event, shutdown_is, sender_lost, accepted, accept_failed, deadline_of, accept_from,
  accept_loop, left,
}

-- The loop ends at this event.
abbrev pub stops : {C : Type 0} → Event C → Bool
stops (shutdown_is none) = false
stops (shutdown_is (some d)) = true
stops sender_lost = true
stops (accepted c) = false
stops (accept_failed kind value) = is_fatal_accept kind

abbrev pub GoesOn : {C : Type 0} → Event C → Type 0
GoesOn e = stops e ≡ false

-- How long the connections have from there.
abbrev pub deadline_at : {C : Type 0} → Event C → ℕ
deadline_at (shutdown_is (some d)) = d
deadline_at (accept_failed kind (some d)) = d
deadline_at _ = 5_000_000_000

abbrev pub connections : {C : Type 0} → List (Event C) → List C
connections [] = []
connections (accepted c ∷ events) = c ∷ connections events
connections (_ ∷ events) = connections events

-- A connection that is not over at the deadline is dropped.
abbrev pub final : Phase → Phase
final (over e) = over e
final _ = over dropped

-- Behind the drain signal a task waits for its connection alone, or is over.
data IsSettling : Phase → Type 0 where
  draining_is : IsSettling draining
  over_is : {e : Ending} → IsSettling (over e)

on_own-IsSettling : (own : Own) (phase : Phase) → IsSettling phase → IsSettling (on_own own phase)
unfolding on_own
on_own-IsSettling handshake_done _ draining_is = draining_is
on_own-IsSettling handshake_failed _ draining_is = draining_is
on_own-IsSettling ended _ draining_is = over_is
on_own-IsSettling handshake_done _ over_is = over_is
on_own-IsSettling handshake_failed _ over_is = over_is
on_own-IsSettling ended _ over_is = over_is

run_own-IsSettling :
    (events : List Own) (phase : Phase) → IsSettling phase → IsSettling (run_own events phase)
unfolding run_own
run_own-IsSettling [] phase h = h
run_own-IsSettling (own ∷ later) phase h =
    run_own-IsSettling later (on_own own phase) (on_own-IsSettling own phase h)

on_drain-IsSettling : (phase : Phase) → IsSettling (on_drain phase)
unfolding on_drain
on_drain-IsSettling handshaking = over_is
on_drain-IsSettling serving = draining_is
on_drain-IsSettling draining = draining_is
on_drain-IsSettling (over e) = over_is

serve_one-IsSettling : (c : Connection) → IsSettling (serve_one c)
unfolding serve_one
serve_one-IsSettling c =
    run_own-IsSettling c.in_drain _
      (on_drain-IsSettling (run_own c.before_drain (if c.tls then handshaking else serving)))

on_abort-final : (phase : Phase) → IsSettling phase → on_abort phase ≡ final phase
unfolding on_abort
on_abort-final _ draining_is = refl
on_abort-final _ over_is = refl

is_over-final : (phase : Phase) → is_over phase ≡ true → phase ≡ final phase
unfolding is_over
is_over-final (over e) h = refl
is_over-final handshaking h = absurd (cc h)
is_over-final serving h = absurd (cc h)
is_over-final draining h = absurd (cc h)

map-on_abort :
    (cs : List Connection) → map on_abort (map serve_one cs) ≡ map final (map serve_one cs)
map-on_abort [] = refl
map-on_abort (c ∷ cs) =
    rw (on_abort-final (serve_one c) (serve_one-IsSettling c), map-on_abort cs) refl

all_over-final : (phases : List Phase) → all_over phases ≡ true → phases ≡ map final phases
unfolding all_over
all_over-final [] h = refl
all_over-final (phase ∷ phases) h =
    let one : is_over phase ≡ true = ground arith in
    let rest : all_over phases ≡ true = ground arith in
    cc (is_over-final phase one, all_over-final phases rest)

wait_or_abort-final :
    (cs : List Connection) → wait_or_abort (map serve_one cs) ≡ map final (map serve_one cs)
unfolding wait_or_abort
wait_or_abort-final cs = elim (Bool-cases (all_over (map serve_one cs))) [
  | inl all ↦ if_true _ _ all ∙ all_over-final (map serve_one cs) all
  | inr some_left ↦ if_false _ _ some_left ∙ map-on_abort cs
]

accept_from-stop :
    (before : List (Event Connection)) (stop : Event Connection) (later : List (Event Connection))
    (tracked : List Connection)
    → All GoesOn before
    → stops stop ≡ true
    → accept_from none tracked (before ++ stop ∷ later)
      ≡ some (record { tracked = tracked ++ connections before; deadline = deadline_at stop })
unfolding accept_from deadline_of is_fatal_accept
accept_from-stop [] (shutdown_is none) later tracked h s = absurd (cc s)
accept_from-stop [] (shutdown_is (some d)) later tracked h s = rw append-nil refl
accept_from-stop [] sender_lost later tracked h s = rw append-nil refl
accept_from-stop [] (accepted c) later tracked h s = absurd (cc s)
accept_from-stop [] (accept_failed other_kind none) later tracked h s = rw append-nil refl
accept_from-stop [] (accept_failed other_kind (some d)) later tracked h s = rw append-nil refl
accept_from-stop [] (accept_failed connection_reset value) later tracked h s = absurd (cc s)
accept_from-stop [] (accept_failed connection_aborted value) later tracked h s = absurd (cc s)
accept_from-stop [] (accept_failed interrupted value) later tracked h s = absurd (cc s)
accept_from-stop (shutdown_is none ∷ before) stop later tracked (_, h) s =
    accept_from-stop before stop later tracked h s
accept_from-stop (shutdown_is (some d) ∷ before) stop later tracked (e, h) s = absurd (cc e)
accept_from-stop (sender_lost ∷ before) stop later tracked (e, h) s = absurd (cc e)
accept_from-stop (accepted c ∷ before) stop later tracked (_, h) s =
    accept_from-stop before stop later (tracked ++ c ∷ []) h s ∙ rw append_assoc refl
accept_from-stop (accept_failed kind value ∷ before) stop later tracked (e, h) s =
    if_false _ _ e ∙ accept_from-stop before stop later tracked h s

accept_from-GoesOn :
    (before : List (Event Connection)) (tracked : List Connection)
    → All GoesOn before
    → accept_from none tracked before ≡ none
unfolding accept_from
accept_from-GoesOn [] tracked h = refl
accept_from-GoesOn (shutdown_is none ∷ before) tracked (_, h) = accept_from-GoesOn before tracked h
accept_from-GoesOn (shutdown_is (some d) ∷ before) tracked (e, h) = absurd (cc e)
accept_from-GoesOn (sender_lost ∷ before) tracked (e, h) = absurd (cc e)
accept_from-GoesOn (accepted c ∷ before) tracked (_, h) =
    accept_from-GoesOn before (tracked ++ c ∷ []) h
accept_from-GoesOn (accept_failed kind value ∷ before) tracked (e, h) =
    if_false _ _ e ∙ accept_from-GoesOn before tracked h

module _ (http : Http) where
  -- The accept loop goes on through transient errors, and ends at the first shutdown signal, at the
  -- loss of its sender or at the first fatal error. It then lifts the pause, takes no connection
  -- more, and gives those it took the time of the signal, also of one that came with the fatal error, or
  -- five seconds; at the exit each of them
  -- is over: as it ended by then of its own accord or in its handshake, and dropped otherwise.
  pub accept_loop_exits :
      (before : List (Event Connection)) (stop : Event Connection) (later : List (Event Connection))
      (runtime : UpstreamRuntime http)
      → All GoesOn before
      → stops stop ≡ true
      → (accept_loop http before runtime ≡ none)
        × (accept_from none [] (before ++ stop ∷ later)
            ≡ some (record { tracked = connections before; deadline = deadline_at stop }))
        × (accept_loop http (before ++ stop ∷ later) runtime
            ≡ some
                (record runtime { pause = false }, map final (map serve_one (connections before))))
  unfolding accept_loop left
  accept_loop_exits before stop later runtime h s =
      let ends = accept_from-stop before stop later [] h s in
      (
        ap (λ o. left http o runtime) (accept_from-GoesOn before [] h),
        ends,
        ap (λ o. left http o runtime) ends
            ∙ ap (λ phases. some ((record runtime { pause = false }), phases))
                (wait_or_abort-final (connections before)),
      )
