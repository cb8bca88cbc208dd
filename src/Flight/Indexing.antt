-- ===== src/Flight/Indexing.antt =====
-- The live index under a schedule: requests that were looked up in vain at the same time all promote
-- what they forwarded, and the first of them wins.
use partly_proxy.Base.{
  ℕ, zero, suc, none, some, List, [], ◌∷◌, ◌++◌, ◌≡◌, refl, ap, sym, ◌∙◌, inl, inr, All, All-append,
  find-append,
}
use partly_proxy.Http.{Http}
use partly_proxy.Types.Recorded.{RecordedExchange}
use partly_proxy.Storage.{SnapshotStorage}
use partly_proxy.Forwarder.{Client}
use partly_proxy.Replay
use partly_proxy.Replay.{IndexKey, ReplayState, find_exchange}
use partly_proxy.Replay.Index.{insert_all, insert_all-Refines, first_answer, answers, Refines}
use partly_proxy.Listener.{World}
use partly_proxy.Flight.{Flight}
use partly_proxy.Flight.Effect.{Effect, advance-Effect}
use partly_proxy.Flight.Schedule.{
  Choice, arrive, go_on, set_pause, add_stub, clear_stubs, clear_recordings, elsewhere, System,
  pick, perform, run,
}

module _ (http : Http) where
  insert_all-append :
      (first later : List RecordedExchange) (state : ReplayState)
      → insert_all http (first ++ later) state ≡ insert_all http later (insert_all http first state)
  insert_all-append [] later state = refl
  insert_all-append (e ∷ first) later state =
      insert_all-append first later (Replay.insert http e state)

module _ (http : Http) (client : Client http) (medium : SnapshotStorage) where
  abbrev pub OfUpstream : World http client medium → RecordedExchange → Type 0
  OfUpstream w e = e.upstream ≡ some w.runtime.name

  -- From `w` to `w'`, exchanges of the upstream were inserted into the index and nothing else.
  pub record Grows (w w' : World http client medium) : Type 0 where
    pub same_name : w'.runtime.name ≡ w.runtime.name
    pub inserted : List RecordedExchange
    pub of_upstream : All (OfUpstream w) inserted
    pub index :
        (state : ReplayState)
        → w.runtime.replay ≡ some state
        → w'.runtime.replay ≡ some (insert_all http inserted state)

  still-Grows : (w : World http client medium) → Grows w w
  still-Grows w = record {
    same_name = refl;
    inserted = [];
    of_upstream = tt;
    index = λ state source. source;
  }

  Grows-then : (w v u : World http client medium) → Grows w v → Grows v u → Grows w u
  Grows-then w v u a b = record {
    same_name = b.same_name ∙ a.same_name;
    inserted = a.inserted ++ b.inserted;
    of_upstream =
        All-append (OfUpstream w) a.inserted b.inserted a.of_upstream
          (rw a.same_name at b.of_upstream);
    index = λ state source.
        b.index (insert_all http a.inserted state) (a.index state source)
        ∙ ap some (sym (insert_all-append http a.inserted b.inserted state));
  }

  Effect-Grows :
      (f : Flight http) (w w' : World http client medium)
      → Effect http client medium f w w'
      → Grows w w'
  Effect-Grows f w w' step = elim step.index [
    | inl same ↦ record {
      same_name = step.same_name;
      inserted = [];
      of_upstream = tt;
      index = λ state source. same ∙ source;
    }
    | inr (e, named, more) ↦ record {
      same_name = step.same_name;
      inserted = e ∷ [];
      of_upstream = (named, tt);
      index = λ state source. more ∙ rw source refl;
    }
  ]

  pick-Grows :
      (i : ℕ) (fs : List (Flight http)) (w : World http client medium)
      → Grows w (pick http client medium i fs w).1
  unfolding pick
  pick-Grows i [] w = still-Grows w
  pick-Grows zero (f ∷ fs) w = Effect-Grows f w _ (advance-Effect http client medium f w)
  pick-Grows (suc i) (f ∷ fs) w = pick-Grows i fs w

  quiet-Grows :
      (w w' : World http client medium)
      → w'.runtime.name ≡ w.runtime.name
      → w'.runtime.replay ≡ w.runtime.replay
      → Grows w w'
  quiet-Grows w w' name replay = record {
    same_name = name;
    inserted = [];
    of_upstream = tt;
    index = λ state source. replay ∙ source;
  }

  perform-Grows :
      (c : Choice http) (s : System http client medium)
      → Grows s.world (perform http client medium c s).world
  unfolding perform
  perform-Grows (arrive env head body) s = still-Grows s.world
  perform-Grows (go_on i) s = pick-Grows i s.flights s.world
  perform-Grows (set_pause b) s = quiet-Grows _ _ refl refl
  perform-Grows (add_stub entry) s = quiet-Grows _ _ refl refl
  perform-Grows clear_stubs s = quiet-Grows _ _ refl refl
  perform-Grows clear_recordings s = quiet-Grows _ _ refl refl
  perform-Grows (elsewhere e) s = quiet-Grows _ _ refl refl

  run-Grows :
      (schedule : List (Choice http)) (s : System http client medium)
      → Grows s.world (run http client medium schedule s).world
  unfolding run
  run-Grows [] s = still-Grows s.world
  run-Grows (c ∷ later) s =
      let s' = perform http client medium c s in
      Grows-then s.world s'.world (run http client medium later s').world (perform-Grows c s)
        (run-Grows later s')

  -- However requests interleave: the live index goes on answering every key as a search of a history,
  -- the one it had with exchanges of this upstream behind it, for the first response with the key.
  -- So what it answered to a key once, it answers at every later time, whichever requests were in
  -- flight and recorded an exchange with the same key in between.
  pub run-Refines :
      (schedule : List (Choice http)) (s : System http client medium) (state : ReplayState)
      (history : List RecordedExchange)
      → s.world.runtime.replay ≡ some state
      → Refines http state history
      → (later : List RecordedExchange) × (state' : ReplayState) × ((run http client medium schedule
            s).world.runtime.replay
          ≡ some state')
        × All (OfUpstream s.world) later
        × Refines http state' (history ++ later)
        × ((k : IndexKey)
            → find_exchange k state'
              ≡ elim (find_exchange k state) [ some x ↦ some x | none ↦ first_answer http k later ])
  run-Refines schedule s state history source h =
      let grown = run-Grows schedule s in
      let h' = insert_all-Refines http grown.inserted state history h in
      (
        grown.inserted,
        insert_all http grown.inserted state,
        grown.index state source,
        grown.of_upstream,
        h',
        λ k.
            h'.finds k
            ∙ find-append (answers http k) history grown.inserted
            ∙ rw (← h.finds k) refl,
      )
