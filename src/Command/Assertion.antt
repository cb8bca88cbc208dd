-- ===== src/Command/Assertion.antt =====
-- The verdicts of the assertions, over the rounds of the wait.
use partly_proxy.Base.{
  ℕ, arith, String, Bool, true, false, Option, none, some, List, [], ◌∷◌, ◌++◌, ◌≡◌, refl, ap, ◌∙◌,
  ◌⊎◌, inl, inr, All, eqb, leb, compare, Ordering, if_true, if_false, Bool-cases, ltb,
}
use partly_proxy.Http.{Http}
use partly_proxy.Storage.{SnapshotStorage}
use partly_proxy.Traffic.{TrafficFilter}
use partly_proxy.Recorder.{Recorder}
use partly_proxy.Command.{
  CommandResponse, assertion_result, AssertionShape, seen, count, AssertionVerdict, pending, passed,
  failed, evaluate, compare_count, Round, matching, judge, after_wait, timed_out,
  wait_for_assertion,
}

-- The shape holds of a number of matches, and, for an exact count, there are too many.
abbrev pub holds_of : AssertionShape → ℕ → Bool
holds_of seen n = leb 1 n
holds_of (count expected) n = eqb n expected

abbrev pub overshoots : AssertionShape → ℕ → Bool
overshoots seen n = false
overshoots (count expected) n = ltb expected n

evaluate-holds_of :
    (shape : AssertionShape) (n : ℕ)
    → holds_of shape n ≡ true
    → (m : String) × (evaluate shape n ≡ passed m)
unfolding evaluate compare_count
evaluate-holds_of seen n h = let z : eqb n 0 ≡ false = ground (arith, h) in (_, if_false _ _ z)
evaluate-holds_of (count expected) n h =
    let e : compare n expected ≡ Ordering.eq = ground (arith, h) in
    (_, ap (compare_count expected n) e)

evaluate-overshoots :
    (shape : AssertionShape) (n : ℕ)
    → overshoots shape n ≡ true
    → (m : String) × (evaluate shape n ≡ failed m)
unfolding evaluate compare_count
evaluate-overshoots seen n h = absurd (cc h)
evaluate-overshoots (count expected) n h =
    let e : compare n expected ≡ Ordering.gt = ground (arith, h) in
    (_, ap (compare_count expected n) e)

-- The three verdicts are what the number of matches says.
abbrev pub Judges : AssertionShape → ℕ → AssertionVerdict → Type 0
Judges shape n (passed m) = holds_of shape n ≡ true
Judges shape n (failed m) = overshoots shape n ≡ true
Judges shape n pending = (holds_of shape n ≡ false) × (overshoots shape n ≡ false)

evaluate-Judges : (shape : AssertionShape) (n : ℕ) → Judges shape n (evaluate shape n)
unfolding evaluate compare_count
evaluate-Judges seen n = ground arith
evaluate-Judges (count expected) n = ground arith

module _ (http : Http) (medium : SnapshotStorage) (filter : TrafficFilter) (timeout : ℕ)
    (shape : AssertionShape) where
  -- The round decides nothing, and a notification ends it before the deadline.
  abbrev pub Waits : Round medium → Type 0
  Waits round =
      (holds_of shape (matching http medium filter round.observed) ≡ false)
      × (overshoots shape (matching http medium filter round.observed) ≡ false)
      × (eqb timeout 0 ≡ false)
      × (eqb round.remaining 0 ≡ false)
      × (round.expired ≡ none)

  -- No time is left in the round: a timeout of zero, a deadline that has passed, or one that passes
  -- during the wait.
  abbrev pub RunsOut : Round medium → Type 0
  RunsOut round =
      (timeout ≡ 0) ⊎ (round.remaining ≡ 0) ⊎ ((r : Recorder medium) × (round.expired ≡ some r))

  evaluate-pending :
      (n : ℕ)
      → holds_of shape n ≡ false
      → overshoots shape n ≡ false
      → (v : AssertionVerdict) → Judges shape n v
      → v ≡ pending
  evaluate-pending n h o pending j = refl
  evaluate-pending n h o (passed m) j = absurd (cc (h, j))
  evaluate-pending n h o (failed m) j = absurd (cc (o, j))

  wait-Waits :
      (pre rounds : List (Round medium))
      → All Waits pre
      → wait_for_assertion http medium filter timeout shape (pre ++ rounds)
        ≡ wait_for_assertion http medium filter timeout shape rounds
  unfolding wait_for_assertion judge after_wait
  wait-Waits [] rounds h = refl
  wait-Waits (round ∷ pre) rounds ((h, o, t, r, x), hs) =
      let n = matching http medium filter round.observed in
      rw (evaluate-pending n h o (evaluate shape n) (evaluate-Judges shape n))
        (if_false _ _ t ∙ if_false _ _ r ∙ rw x (wait-Waits pre rounds hs))

  judge-RunsOut :
      (n : ℕ) (round : Round medium) (later : Option CommandResponse) (v : AssertionVerdict)
      → RunsOut round
      → (passes : Bool) × (m : String) × (judge http medium filter timeout n round later v
          ≡ some (assertion_result passes m))
  unfolding judge after_wait timed_out
  judge-RunsOut n round later (passed m) h = (true, m, refl)
  judge-RunsOut n round later (failed m) h = (false, m, refl)
  judge-RunsOut n round later pending (inl h) =
      let z : eqb timeout 0 ≡ true = ground (arith, h) in (false, _, if_true _ _ z)
  judge-RunsOut n round later pending (inr h) = elim (Bool-cases (eqb timeout 0)) [
    | inl z ↦ (false, _, if_true _ _ z)
    | inr more ↦ elim (Bool-cases (eqb round.remaining 0)) [
      | inl late ↦ (false, _, if_false _ _ more ∙ if_true _ _ late)
      | inr left ↦ elim h [
        | inl late ↦
            let z : eqb round.remaining 0 ≡ true = ground (arith, late) in
            (false, _, if_false _ _ more ∙ if_true _ _ z)
        | inr (r, x) ↦ (
          false,
          _,
          if_false _ _ more
              ∙ if_false _ _ left
              ∙ ap (λ o. after_wait http medium filter timeout o later) x,
        )
      ]
    ]
  ]

  -- The round that ends a wait, after any rounds that decide nothing: an assertion that holds there
  -- passes, an exact count that is exceeded there fails at once, and one for which the time runs out
  -- there always returns, with one verdict or the other.
  pub wait_for_assertion_decides :
      (pre post : List (Round medium)) (round : Round medium)
      → All Waits pre
      → let n = matching http medium filter round.observed in
        let result = wait_for_assertion http medium filter timeout shape (pre ++ round ∷ post) in
        (holds_of shape n ≡ true → (m : String) × (result ≡ some (assertion_result true m)))
        × (overshoots shape n ≡ true → (m : String) × (result ≡ some (assertion_result false m)))
        × (RunsOut round
            → (passes : Bool) × (m : String) × (result ≡ some (assertion_result passes m)))
  unfolding wait_for_assertion judge
  wait_for_assertion_decides pre post round h =
      let n = matching http medium filter round.observed in
      let later = wait_for_assertion http medium filter timeout shape post in
      let skips = wait-Waits pre (round ∷ post) h in
      (
        λ holds.
            let (m, e) = evaluate-holds_of shape n holds in
            (m, skips ∙ ap (judge http medium filter timeout n round later) e),
        λ over.
            let (m, e) = evaluate-overshoots shape n over in
            (m, skips ∙ ap (judge http medium filter timeout n round later) e),
        λ out.
            let (passes, m, e) = judge-RunsOut n round later (evaluate shape n) out in
            (passes, m, skips ∙ e),
      )
