-- ===== src/Stub/Firing.antt =====
-- Which entry of a stub store fires, how often, and what is left of the store.
use partly_proxy.Base.{
  ℕ, ◌-◌, zero, suc, Bool, true, false, Option, none, some, List, [], ◌∷◌, ◌++◌, ◌≡◌, refl, ap, ◌∙◌,
  All, length, get_elem?, position, remove, set, map, eqb, if_true, if_false, arith,
}
use partly_proxy.Http.{Http}
use partly_proxy.Types.ProxyIo.{ProxyRequest}
use partly_proxy.Stub
use partly_proxy.Stub.{
  StubEntry, StubStore, StubbedResponse, matches, take_match, count_down, fire_at, take_at,
}

module _ {ℓ} {A : Type ℓ} (p : A → Bool) where
  abbrev Misses : A → Type 0
  Misses x = p x ≡ false

  position-none : (xs : List A) → All Misses xs → position p xs ≡ none
  position-none [] h = refl
  position-none (x ∷ xs) (m, h) = rw (position-none xs h) (if_false _ _ m)

  position-some :
      (xs ys : List A) (x : A)
      → All Misses xs
      → p x ≡ true
      → position p (xs ++ x ∷ ys) ≡ some (length xs)
  position-some [] ys x h m = if_true _ _ m
  position-some (y ∷ xs) ys x (n, h) m = rw (position-some xs ys x h m) (if_false _ _ n)

module _ {ℓ} {A : Type ℓ} where
  get_elem?-middle : (xs ys : List A) (x : A) → get_elem? (xs ++ x ∷ ys) (length xs) ≡ some x
  get_elem?-middle [] ys x = refl
  get_elem?-middle (y ∷ xs) ys x = get_elem?-middle xs ys x

  remove-middle : (xs ys : List A) (x : A) → remove (xs ++ x ∷ ys) (length xs) ≡ xs ++ ys
  remove-middle [] ys x = refl
  remove-middle (y ∷ xs) ys x = rw (remove-middle xs ys x)

  set-middle : (xs ys : List A) (x z : A) → set (xs ++ x ∷ ys) (length xs) z ≡ xs ++ z ∷ ys
  set-middle [] ys x z = refl
  set-middle (y ∷ xs) ys x z = rw (set-middle xs ys x z)

module _ (http : Http) where
  -- The entry does not match the request.
  abbrev pub Passes : ProxyRequest http → StubEntry http → Type 0
  Passes req e = matches http e.matcher req ≡ false

  -- What is left of an entry that fired: nothing of one with a limit of one or zero.
  unfoldable pub left_of : StubEntry http → Option ℕ → List (StubEntry http)
  left_of e none = e ∷ []
  left_of e (some zero) = []
  left_of e (some (suc zero)) = []
  left_of e (some (suc (suc n))) = record e { times = some (suc n) } ∷ []

  count_down-left_of :
      (pre post : StubStore http) (e : StubEntry http) (times : Option ℕ)
      → count_down http (pre ++ e ∷ post) (length pre) e times ≡ pre ++ (left_of e times ++ post)
  unfolding count_down left_of
  count_down-left_of pre post e none = refl
  count_down-left_of pre post e (some zero) = remove-middle pre post e
  count_down-left_of pre post e (some (suc zero)) = remove-middle pre post e
  count_down-left_of pre post e (some (suc (suc n))) =
      let k : suc (suc n) - 1 ≡ suc n = omega arith in
      let z : eqb (suc n) 0 ≡ false = ground arith in
      rw (k, if_false _ _ z) (set-middle pre post e (record e { times = some (suc n) }))

  -- No entry matches: nothing is returned and the store is as before. The first entry that matches
  -- fires: its response and its delay are returned, the entries around it keep their places, and it
  -- stays where it has no limit, with a limit of one less where two or more were left, and is gone
  -- where one or zero were left.
  pub take_match_first :
      (req : ProxyRequest http) (pre post : StubStore http) (e : StubEntry http)
      → All (Passes req) pre
      → (matches http e.matcher req ≡ true
          → take_match http req (pre ++ e ∷ post)
            ≡ (some (e.response, e.response.delay), pre ++ (left_of e e.times ++ post)))
        × (take_match http req pre ≡ (none, pre))
  unfolding take_match take_at fire_at
  take_match_first req pre post e h = (
    λ m. rw (
      take_match,
      position-some (λ (s : StubEntry http). matches http s.matcher req) pre post e h m,
      get_elem?-middle pre post e,
      count_down-left_of pre post e e.times,
    ),
    rw (take_match, position-none (λ (s : StubEntry http). matches http s.matcher req) pre h),
  )

  -- The outcome of a stub that fires, by what its limit was.
  abbrev after :
      StubStore http
      → StubStore http
      → StubEntry http
      → Option ℕ
      → Option (StubbedResponse × Option ℕ) × StubStore http
  after pre post e times = (some (e.response, e.response.delay), pre ++ (left_of e times ++ post))

  -- The responses to a sequence of requests, and the store afterwards.
  unfoldable pub take_all :
      List (ProxyRequest http)
      → StubStore http
      → List (Option (StubbedResponse × Option ℕ)) × StubStore http
  take_all [] stubs = ([], stubs)
  take_all (req ∷ reqs) stubs =
      let (found, stubs') = take_match http req stubs in
      let (later, stubs'') = take_all reqs stubs' in (found ∷ later, stubs'')

  -- The request matches the matcher and none of the entries.
  abbrev pub Hits : Stub.RequestMatcher http → StubStore http → ProxyRequest http → Type 0
  Hits matcher pre req = All (Passes req) pre × (matches http matcher req ≡ true)

  -- A stub with a limit of `n`, which is not zero, answers the first `n` requests that reach it, each
  -- with its response, and is then gone, while the other entries stay in their order.
  pub take_all_limited :
      (n : ℕ) (reqs : List (ProxyRequest http)) (pre post : StubStore http) (e : StubEntry http)
      → e.times ≡ some (suc n)
      → length reqs ≡ suc n
      → All (Hits e.matcher pre) reqs
      → take_all reqs (pre ++ e ∷ post)
        ≡ (map (λ req. some (e.response, e.response.delay)) reqs, pre ++ post)
  unfolding take_all left_of
  take_all_limited n [] pre post e limit len hits = absurd (omega arith)
  take_all_limited zero (req ∷ []) pre post e limit len ((h, m), hits) =
      let (fires, _) = take_match_first req pre post e h in
      rw (fires m ∙ ap (after pre post e) limit)
  take_all_limited zero (req ∷ req' ∷ reqs) pre post e limit len hits = absurd (omega arith)
  take_all_limited (suc n) (req ∷ reqs) pre post e limit len ((h, m), hits) =
      let (fires, _) = take_match_first req pre post e h in
      let e' = record e { times = some (suc n) } in
      rw (
        fires m ∙ ap (after pre post e) limit,
        take_all_limited n reqs pre post e' refl (omega arith) hits,
      )

  -- A stub without a limit answers every request that reaches it, and the store never changes.
  take_all_unlimited :
      (reqs : List (ProxyRequest http)) (pre post : StubStore http) (e : StubEntry http)
      → e.times ≡ none
      → All (Hits e.matcher pre) reqs
      → take_all reqs (pre ++ e ∷ post)
        ≡ (map (λ req. some (e.response, e.response.delay)) reqs, pre ++ e ∷ post)
  unfolding take_all left_of
  take_all_unlimited [] pre post e limit hits = refl
  take_all_unlimited (req ∷ reqs) pre post e limit ((h, m), hits) =
      let (fires, _) = take_match_first req pre post e h in
      rw (fires m ∙ ap (after pre post e) limit, take_all_unlimited reqs pre post e limit hits)
