-- ===== src/Stub/Capacity.antt =====
-- How many requests a store of limited stubs can still answer.
use partly_proxy.Base.{
  ℕ, zero, suc, ◌+◌, arith, true, false, Option, none, some, [], ◌∷◌, ◌++◌, ◌≡◌, refl, ap, inl, inr,
  Bool-cases, All, All-append, max,
}
use partly_proxy.Http.{Http}
use partly_proxy.Types.ProxyIo.{ProxyRequest}
use partly_proxy.Stub.{
  StubEntry, StubStore, StubbedResponse, matches, take_match, new_matcher, new_stubbed,
}
use partly_proxy.Stub.Firing.{Passes, left_of, take_match_first}

module _ (http : Http) where
  abbrev pub HasLimit : Option ℕ → Type 0
  HasLimit none = ⊥
  HasLimit (some n) = Unit

  abbrev pub IsLimited : StubEntry http → Type 0
  IsLimited e = HasLimit e.times

  -- A stub with the limit zero fires once.
  abbrev pub allowed : Option ℕ → ℕ
  allowed none = 0
  allowed (some n) = max n 1

  abbrev pub capacity : StubStore http → ℕ
  capacity [] = 0
  capacity (e ∷ stubs) = allowed e.times + capacity stubs

  abbrev pub fired : Option (StubbedResponse × Option ℕ) → ℕ
  fired none = 0
  fired (some found) = 1

  pub capacity-append : (a b : StubStore http) → capacity (a ++ b) ≡ capacity a + capacity b
  capacity-append [] b = omega arith
  capacity-append (e ∷ a) b = let ih = capacity-append a b in omega arith

  -- A store without a match, or the first match in it.
  data Scan (req : ProxyRequest http) (stubs : StubStore http) : Type 0 where
    no_match : All (Passes http req) stubs → Scan req stubs
    first_match :
        (pre post : StubStore http) (e : StubEntry http)
        → stubs ≡ pre ++ e ∷ post
        → All (Passes http req) pre
        → matches http e.matcher req ≡ true
        → Scan req stubs

  Scan-cons :
      (req : ProxyRequest http) (e : StubEntry http) (stubs : StubStore http)
      → matches http e.matcher req ≡ false
      → Scan req stubs
      → Scan req (e ∷ stubs)
  Scan-cons req e stubs m (no_match h) = no_match (m, h)
  Scan-cons req e stubs m (first_match pre post x same h hit) =
      first_match (e ∷ pre) post x (ap (λ l. e ∷ l) same) (m, h) hit

  scan : (req : ProxyRequest http) (stubs : StubStore http) → Scan req stubs
  scan req [] = no_match tt
  scan req (e ∷ stubs) = elim (Bool-cases (matches http e.matcher req)) [
    | inl hit ↦ first_match [] stubs e refl tt hit
    | inr miss ↦ Scan-cons req e stubs miss (scan req stubs)
  ]

  left_of-capacity :
      (e : StubEntry http) (times : Option ℕ)
      → HasLimit times
      → (1 + capacity (left_of http e times) ≡ allowed times) × All IsLimited (left_of http e times)
  unfolding left_of
  left_of-capacity e none limited = absurd limited
  left_of-capacity e (some zero) limited = (omega arith, tt)
  left_of-capacity e (some (suc zero)) limited = (omega arith, tt)
  left_of-capacity e (some (suc (suc n))) limited = (omega arith, (tt, tt))

  All-middle :
      (pre post : StubStore http) (e : StubEntry http)
      → All IsLimited (pre ++ e ∷ post)
      → All IsLimited pre × IsLimited e × All IsLimited post
  All-middle [] post e (h, rest) = (tt, h, rest)
  All-middle (x ∷ pre) post e (h, rest) =
      let (a, b, c) = All-middle pre post e rest in ((h, a), b, c)

  take_match-scanned :
      (req : ProxyRequest http) (stubs : StubStore http)
      → All IsLimited stubs
      → Scan req stubs
      → let (found, stubs') = take_match http req stubs in
        (fired found + capacity stubs' ≡ capacity stubs) × All IsLimited stubs'
  take_match-scanned req stubs limited (no_match h) =
      let any_entry : StubEntry http = record {
        matcher = new_matcher http;
        response = new_stubbed 200;
        times = none;
      } in
      let (_, none_fires) = take_match_first http req stubs [] any_entry h in
      rw none_fires (omega arith, limited)
  take_match-scanned req stubs limited (first_match pre post e same h hit) =
      let (fires, _) = take_match_first http req pre post e h in
      let (before, own, behind) = All-middle pre post e (rw same at limited) in
      let (cost, left_limited) = left_of-capacity e e.times own in
      let whole = capacity-append pre (e ∷ post) in
      let rest = capacity-append pre (left_of http e e.times ++ post) in
      let rest' = capacity-append (left_of http e e.times) post in
      rw (same, fires hit)
        (
          omega arith,
          All-append IsLimited pre _ before
              (All-append IsLimited (left_of http e e.times) post left_limited behind),
        )

  -- Each answer costs the store one of its capacity, whichever entry gives it.
  pub take_match-capacity :
      (req : ProxyRequest http) (stubs : StubStore http)
      → All IsLimited stubs
      → let (found, stubs') = take_match http req stubs in
        (fired found + capacity stubs' ≡ capacity stubs) × All IsLimited stubs'
  take_match-capacity req stubs limited = take_match-scanned req stubs limited (scan req stubs)
