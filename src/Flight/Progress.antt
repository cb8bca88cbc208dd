-- ===== src/Flight/Progress.antt =====
-- A request that is past the pause gate, or that finds it open, is answered after so many steps of
-- its own as are in front of it, whatever else happens in between.
use partly_proxy.Base.{
  ℕ, zero, suc, ◌+◌, ◌-◌, ◌≤◌, ◌≢◌, arith, some, List, [], ◌∷◌, ◌≡◌, refl, ap, ◌∙◌, inl, inr,
  Bool-cases, eqb, if◌then◌else◌, get_elem?, get_elem?-append, ◌⊎◌, true, false, All,
}
use partly_proxy.Http.{Http}
use partly_proxy.Types.ProxyIo.{ProxyResponse}
use partly_proxy.Storage.{SnapshotStorage}
use partly_proxy.Forwarder.{Client}
use partly_proxy.Listener.{World}
use partly_proxy.Flight.{Flight, at_gate, answered, advance}
use partly_proxy.Flight.Schedule.{
  Choice, arrive, go_on, set_pause, add_stub, clear_stubs, clear_recordings, elsewhere, System,
  pick, perform, run,
}
use partly_proxy.Flight.Rank.{rank, rank-advance, rank_zero}
use partly_proxy.Flight.Effect.{advance-Effect}

module _ (http : Http) where
  -- How many steps a schedule gives to the request at the position `i`.
  abbrev pub turn : ℕ → Choice http → ℕ
  turn i (go_on j) = if eqb j i then 1 else 0
  turn i _ = 0

  abbrev pub turns : ℕ → List (Choice http) → ℕ
  turns i [] = 0
  turns i (c ∷ later) = turn i c + turns i later

  -- The choice does not pause the upstream.
  abbrev pub LeavesRunning : Choice http → Type 0
  LeavesRunning (set_pause true) = ⊥
  LeavesRunning _ = Unit

module _ (http : Http) (client : Client http) (medium : SnapshotStorage) where
  -- A request with at most `n` steps in front of it is not held by the gate.
  abbrev pub MovesOn : ℕ → World http client medium → List (Choice http) → Type 0
  MovesOn n w schedule = (n ≤ 5) ⊎ ((w.runtime.pause ≡ false) × All (LeavesRunning http) schedule)

  pick-pause :
      (i : ℕ) (fs : List (Flight http)) (w : World http client medium)
      → (pick http client medium i fs w).1.runtime.pause ≡ w.runtime.pause
  unfolding pick
  pick-pause i [] w = refl
  pick-pause zero (f ∷ fs) w = (advance-Effect http client medium f w).same_pause
  pick-pause (suc i) (f ∷ fs) w = pick-pause i fs w

  perform-pause :
      (c : Choice http) (s : System http client medium)
      → LeavesRunning http c
      → s.world.runtime.pause ≡ false
      → (perform http client medium c s).world.runtime.pause ≡ false
  unfolding perform
  perform-pause (arrive env head body) s h running = running
  perform-pause (go_on i) s h running = pick-pause i s.flights s.world ∙ running
  perform-pause (set_pause true) s h running = absurd h
  perform-pause (set_pause false) s h running = refl
  perform-pause (add_stub entry) s h running = running
  perform-pause clear_stubs s h running = running
  perform-pause clear_recordings s h running = running
  perform-pause (elsewhere e) s h running = running

  perform-MovesOn :
      (i n : ℕ) (c : Choice http) (later : List (Choice http)) (s : System http client medium)
      → MovesOn n s.world (c ∷ later)
      → MovesOn (n - turn http i c) (perform http client medium c s).world later
  perform-MovesOn i n c later s (inl past) = inl (omega arith)
  perform-MovesOn i n c later s (inr (running, (leaves, all))) =
      inr (perform-pause c s leaves running, all)

  pick-hit :
      (i : ℕ) (fs : List (Flight http)) (w : World http client medium) (f : Flight http)
      → get_elem? fs i ≡ some f
      → get_elem? (pick http client medium i fs w).0 i ≡ some (advance http client medium f w).0
  unfolding pick
  pick-hit i [] w f at = absurd (cc at)
  pick-hit zero (g ∷ fs) w f at =
      let e : g ≡ f = cc at in ap (λ h. some (advance http client medium h w).0) e
  pick-hit (suc i) (g ∷ fs) w f at = pick-hit i fs w f at

  pick-miss :
      (i j : ℕ) (fs : List (Flight http)) (w : World http client medium)
      → j ≢ i
      → get_elem? (pick http client medium j fs w).0 i ≡ get_elem? fs i
  unfolding pick
  pick-miss i j [] w other = refl
  pick-miss zero zero (g ∷ fs) w other = absurd (other refl)
  pick-miss zero (suc j) (g ∷ fs) w other = refl
  pick-miss (suc i) zero (g ∷ fs) w other = refl
  pick-miss (suc i) (suc j) (g ∷ fs) w other = pick-miss i j fs w (λ e. other (ap suc e))

  -- The request at the position `i`, as far as it has come.
  abbrev pub Reaches : ℕ → System http client medium → ℕ → Type 0
  Reaches i s n = (f : Flight http) × (get_elem? s.flights i ≡ some f) × (rank http f ≤ n)

  free :
      (f : Flight http) (n : ℕ) (s : System http client medium)
      → rank http f ≤ n
      → (n ≤ 5) ⊎ (s.world.runtime.pause ≡ false)
      → (rank http f ≤ 5) ⊎ (s.world.runtime.pause ≡ false)
  free f n s h (inl past) = inl (omega arith)
  free f n s h (inr running) = inr running

  pick-Reaches :
      (i j n : ℕ) (s : System http client medium)
      → (n ≤ 5) ⊎ (s.world.runtime.pause ≡ false)
      → Reaches i s n
      → Reaches i (perform http client medium (go_on j) s) (n - turn http i (go_on j))
  unfolding perform
  pick-Reaches i j n s small (f, at, h) = elim (Bool-cases (eqb j i)) [
    | inl own ↦
        let e : j ≡ i = ground arith in
        let (g, here) : (g : Flight http) × (g ≡ (advance http client medium f s.world).0) =
          (_, refl) in
        (
          g,
          rw (e, here) (pick-hit i s.flights s.world f at),
          rw (own, here)
              (ground (arith, rank-advance http client medium f s.world (free f n s h small))),
        )
    | inr other ↦ (f, pick-miss i j s.flights s.world (ground arith) ∙ at, rw other (omega arith))
  ]

  perform-Reaches :
      (i n : ℕ) (c : Choice http) (s : System http client medium)
      → (n ≤ 5) ⊎ (s.world.runtime.pause ≡ false)
      → Reaches i s n
      → Reaches i (perform http client medium c s) (n - turn http i c)
  unfolding perform
  perform-Reaches i n (arrive env head body) s small (f, at, h) =
      (f, get_elem?-append s.flights (at_gate env head body ∷ []) i f at, omega arith)
  perform-Reaches i n (go_on j) s small h = pick-Reaches i j n s small h
  perform-Reaches i n (set_pause b) s small (f, at, h) = (f, at, omega arith)
  perform-Reaches i n (add_stub entry) s small (f, at, h) = (f, at, omega arith)
  perform-Reaches i n clear_stubs s small (f, at, h) = (f, at, omega arith)
  perform-Reaches i n clear_recordings s small (f, at, h) = (f, at, omega arith)
  perform-Reaches i n (elsewhere e) s small (f, at, h) = (f, at, omega arith)

  unpaused :
      (n : ℕ) (w : World http client medium) (schedule : List (Choice http))
      → MovesOn n w schedule
      → (n ≤ 5) ⊎ (w.runtime.pause ≡ false)
  unpaused n w schedule (inl past) = inl past
  unpaused n w schedule (inr (running, all)) = inr running

  run-Reaches :
      (schedule : List (Choice http)) (i n : ℕ) (s : System http client medium)
      → MovesOn n s.world schedule
      → Reaches i s n
      → Reaches i (run http client medium schedule s) (n - turns http i schedule)
  unfolding run
  run-Reaches [] i n s small (f, at, h) = (f, at, omega arith)
  run-Reaches (c ∷ later) i n s small h =
      let e : n - turn http i c - turns http i later ≡ n - (turn http i c + turns http i later) =
        omega arith in
      rw e at (
        run-Reaches later i (n - turn http i c) (perform http client medium c s)
          (perform-MovesOn i n c later s small)
          (perform-Reaches i n c s (unpaused n s.world (c ∷ later) small) h))

  -- A request is answered by every schedule that gives it as many steps as are in front of it, six at
  -- most, whatever the others do in between: they may take the stub, record the same exchange or
  -- clear what was recorded. Past the pause gate, where it has five, they may also pause the
  -- upstream; at the gate the upstream must not be paused, before or in between.
  pub run-answered :
      (schedule : List (Choice http)) (i : ℕ) (s : System http client medium) (f : Flight http)
      → get_elem? s.flights i ≡ some f
      → MovesOn (rank http f) s.world schedule
      → rank http f ≤ turns http i schedule
      → (resp : ProxyResponse http) × (get_elem? (run http client medium schedule s).flights i
          ≡ some (answered resp))
  run-answered schedule i s f at free enough =
      let (g, there, none_left) =
        run-Reaches schedule i (rank http f) s free (f, at, omega arith) in
      let (resp, e) = rank_zero http client medium g (omega arith) in (resp, there ∙ ap some e)
