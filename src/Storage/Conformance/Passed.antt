-- ===== src/Storage/Conformance/Passed.antt =====
-- The battery against the contract of a medium.
use mathlib.Core.List.{map-append, append_assoc, append-nil}
use partly_proxy.Base.{
  ℕ, zero, suc, ◌*◌, ◌%◌, ◌^◌, ◌<◌, arith, String, Bool, true, false, some, List, [], ◌∷◌, ◌++◌,
  ◌≡◌, refl, ap, ◌∙◌, All, map, if◌then◌else◌, length, eqb, as_bytes, format, decimal,
}
use partly_proxy.Http.{Http}
use partly_proxy.Types.Error.{ok}
use partly_proxy.Types.Recorded.{RecordedExchange}
use partly_proxy.Storage.{SnapshotStorage, StorageLaws}
use partly_proxy.Replay.{collect}
use partly_proxy.Storage.Conformance.{
  Step, append_step, flush_step, appends, numbered, interleaved, Suite, make_exchange,
  error_exchange, same_all, exchange_at, in_order, run_steps, checked, loaded_by, case_of,
  round_trip_single_exchange, insertion_order_preserved, load_after_flush_yields_everything,
  error_outcome_round_trips, interleaved_append_and_flush, empty_storage_load_yields_nothing,
  run_conformance,
}

-- What the steps append, in order.
abbrev appended : List Step → List RecordedExchange
appended [] = []
appended (append_step e ∷ steps) = e ∷ appended steps
appended (flush_step ∷ steps) = appended steps

appended-appends : (es : List RecordedExchange) → appended (appends es ++ flush_step ∷ []) ≡ es
unfolding appends
appended-appends [] = refl
appended-appends (e ∷ es) = ap (λ l. e ∷ l) (appended-appends es)

appended-flush_if :
    (test : Bool) (steps : List Step)
    → appended (if test then flush_step ∷ steps else steps) ≡ appended steps
appended-flush_if true steps = refl
appended-flush_if false steps = refl

appended-interleaved : (i : ℕ) (es : List RecordedExchange) → appended (interleaved i es) ≡ es
unfolding interleaved
appended-interleaved i [] = refl
appended-interleaved i (e ∷ es) =
    ap (λ l. e ∷ l)
      (appended-flush_if (eqb (i % 2) 0) (interleaved (suc i) es) ∙ appended-interleaved (suc i) es)

length-numbered : (make : ℕ → RecordedExchange) → eqb (length (numbered make 7 0)) 7 ≡ true
unfolding numbered
length-numbered make = refl

module _ (http : Http) (suite : Suite http)
    (reflexive : (e : RecordedExchange) → suite.same e e ≡ true) where
  same_all_refl : (es : List RecordedExchange) → same_all http suite es es ≡ true
  unfolding same_all
  same_all_refl [] = refl
  same_all_refl (e ∷ es) = rw (reflexive e, same_all_refl es) refl

module _ (http : Http) where
  collect-ok : (es : List RecordedExchange) → collect http (map ok es) ≡ ok es
  collect-ok [] = refl
  collect-ok (e ∷ es) = rw (collect-ok es) refl

module _ (http : Http) (suite : Suite http) (medium : SnapshotStorage) (laws : StorageLaws medium)
    (appends_succeed : (s : medium.State) (e : RecordedExchange)
      → laws.Good s
      → (medium.append s e).0 ≡ ok tt)
    (flushes_succeed : (s : medium.State) → laws.Good s → (medium.flush s).0 ≡ ok tt) where
  abbrev Kept : RecordedExchange → Type 0
  Kept e = laws.kept e ≡ e

  run_steps-load :
      (steps : List Step) (s : medium.State) (es : List RecordedExchange)
      → laws.Good s
      → medium.load s ≡ map ok es
      → All Kept (appended steps)
      → (s' : medium.State) × (run_steps http suite medium steps s ≡ some s')
        × (medium.load s' ≡ map ok (es ++ appended steps))
  unfolding run_steps
  run_steps-load [] s es good loaded kept = (s, refl, rw append-nil loaded)
  run_steps-load (append_step e ∷ steps) s es good loaded (same, kept) =
      let s' = (medium.append s e).1 in
      let done = appends_succeed s e good in
      let more : medium.load s' ≡ map ok (es ++ e ∷ []) =
        laws.load-append s e good done ∙ rw (loaded, same, map-append) refl in
      let (last, ran, holds) =
        run_steps-load steps s' (es ++ e ∷ []) (laws.Good-append s e good done) more kept in
      (last, rw (run_steps, done) ran, rw append_assoc at holds)
  run_steps-load (flush_step ∷ steps) s es good loaded kept =
      let done = flushes_succeed s good in
      let (last, ran, holds) =
        run_steps-load steps (medium.flush s).1 es (laws.Good-flush s good)
          (laws.load-flush s good ∙ loaded) kept in
      (last, rw (run_steps, done) ran, holds)

  case_of-appended :
      (steps : List Step) (check : List RecordedExchange → Bool) (fresh : medium.State)
      → laws.Good fresh
      → medium.load fresh ≡ []
      → All Kept (appended steps)
      → case_of http suite medium steps check fresh ≡ check (appended steps)
  unfolding case_of loaded_by checked
  case_of-appended steps check fresh good empty kept =
      let (last, ran, holds) = run_steps-load steps fresh [] good empty kept in
      ap (loaded_by http suite medium check) ran
      ∙ ap (λ items. checked http suite medium check (collect http items)) holds
      ∙ ap (checked http suite medium check) (collect-ok http (appended steps))

  module _
      (keeps : (e : RecordedExchange) (ms : ℕ)
        → e.duration ≡ ms * 1_000_000
        → ms < 2 ^ 63
        → laws.kept e ≡ e)
      (reflexive : (e : RecordedExchange) → suite.same e e ≡ true) where
    make_exchange-Kept :
        (path : String) (body : List ℕ) (status : ℕ)
        → Kept (make_exchange http suite path body status)
    unfolding make_exchange
    make_exchange-Kept path body status =
        keeps (make_exchange http suite path body status) 5 refl (omega arith)

    error_exchange-Kept : Kept (error_exchange http suite)
    unfolding error_exchange
    error_exchange-Kept = keeps (error_exchange http suite) 3 refl (omega arith)

    numbered-Kept :
        (make : ℕ → RecordedExchange) (n i : ℕ)
        → ((j : ℕ) → Kept (make j))
        → All Kept (numbered make n i)
    unfolding numbered
    numbered-Kept make zero i each = tt
    numbered-Kept make (suc n) i each = (each i, numbered-Kept make n (suc i) each)

    in_order-Kept : (prefix : String) (n : ℕ) → All Kept (in_order http suite prefix n)
    unfolding in_order
    in_order-Kept prefix n =
        numbered-Kept
          (λ j. make_exchange http suite (format (prefix ∷ decimal j ∷ [])) (j ∷ []) 200) n 0
          (λ j. make_exchange-Kept (format (prefix ∷ decimal j ∷ [])) (j ∷ []) 200)

    exchange_at-Kept :
        (prefix : String) (body : List ℕ) (n : ℕ)
        → All Kept (numbered (exchange_at http suite prefix body) n 0)
    unfolding exchange_at
    exchange_at-Kept prefix body n =
        numbered-Kept (exchange_at http suite prefix body) n 0
          (λ j. make_exchange-Kept (format (prefix ∷ decimal j ∷ [])) body 200)

    case_of-passes :
        (steps : List Step) (check : List RecordedExchange → Bool) (es : List RecordedExchange)
        → (fresh : medium.State) → laws.Good fresh
        → medium.load fresh ≡ []
        → appended steps ≡ es
        → All Kept es
        → check es ≡ true
        → case_of http suite medium steps check fresh ≡ true
    case_of-passes steps check es fresh good empty these kept right =
        case_of-appended steps check fresh good empty (rw these kept) ∙ rw these right

    exactly :
        (steps : List Step) (es : List RecordedExchange) (fresh : medium.State)
        → laws.Good fresh
        → medium.load fresh ≡ []
        → appended steps ≡ es
        → All Kept es
        → case_of http suite medium steps (λ loaded. same_all http suite loaded es) fresh ≡ true
    exactly steps es fresh good empty these kept =
        case_of-passes steps (λ loaded. same_all http suite loaded es) es fresh good empty these
          kept (same_all_refl http suite reflexive es)

    -- Every medium that keeps the contract passes the battery, if it is empty when it is fresh, its
    -- calls succeed, and it keeps an exchange as it is where the duration is in whole milliseconds;
    -- equality of exchanges is reflexive.
    pub run_conformance_passes :
        (fresh : medium.State)
        → laws.Good fresh
        → medium.load fresh ≡ []
        → run_conformance http suite medium fresh ≡ true
    unfolding run_conformance round_trip_single_exchange insertion_order_preserved
        load_after_flush_yields_everything error_outcome_round_trips interleaved_append_and_flush
        empty_storage_load_yields_nothing
    run_conformance_passes fresh good empty =
        let single =
          exactly
            (append_step (make_exchange http suite "/round-trip" (as_bytes "single") 200)
              ∷ flush_step
              ∷ [])
            (make_exchange http suite "/round-trip" (as_bytes "single") 200 ∷ []) fresh good empty
            refl (make_exchange-Kept "/round-trip" (as_bytes "single") 200, tt) in
        let five = in_order http suite "/n/" 5 in
        let order =
          exactly (appends five ++ flush_step ∷ []) five fresh good empty (appended-appends five)
            (in_order-Kept "/n/" 5) in
        let seven = numbered (exchange_at http suite "/load/" (as_bytes "x")) 7 0 in
        let all_seven : case_of http suite medium (appends seven ++ flush_step ∷ [])
              (λ loaded. eqb (length loaded) 7) fresh
            ≡ true =
          case_of-passes (appends seven ++ flush_step ∷ []) (λ loaded. eqb (length loaded) 7) seven
            fresh good empty (appended-appends seven) (exchange_at-Kept "/load/" (as_bytes "x") 7)
            (length-numbered (exchange_at http suite "/load/" (as_bytes "x"))) in
        let failure =
          exactly (append_step (error_exchange http suite) ∷ flush_step ∷ [])
            (error_exchange http suite ∷ []) fresh good empty refl (error_exchange-Kept, tt) in
        let six = in_order http suite "/inter/" 6 in
        let mixed =
          exactly (interleaved 0 six) six fresh good empty (appended-interleaved 0 six)
            (in_order-Kept "/inter/" 6) in
        let nothing = case_of-appended [] (λ loaded. eqb (length loaded) 0) fresh good empty tt in
        rw (single, order, all_seven, failure, mixed, nothing) refl
