-- ===== src/Storage/Conformance.antt =====
-- crates/partly-proxy-types/src/testing.rs: the conformance battery that every backend is tested with.
-- A case that panics, at an `expect` or at an assertion, is `false`.
pub mod Passed
use partly_proxy.Base.{
  ℕ, zero, suc, ◌+◌, ◌*◌, ◌%◌, String, Bytes, Bool, true, false, ◌&&◌, Option, none, some, List, [],
  ◌∷◌, ◌++◌, eqb, if◌then◌else◌, length, format, decimal, as_bytes,
}
use partly_proxy.Http.{Http}
use partly_proxy.Types.Error.{Result, ok, err}
use partly_proxy.Types.Recorded.{
  Stamp, RecordedExchange, response, error, new_exchange, request_from_parts,
}
use partly_proxy.Storage.{SnapshotStorage}
use partly_proxy.Replay.{collect}

-- What a case does to its storage.
pub data Step : Type 0 where
  append_step : RecordedExchange → Step
  flush_step : Step

-- `deterministic_uuid`: the first 16 bytes as one number.
padded : ℕ → Bytes → ℕ → ℕ
padded zero bytes acc = acc
padded (suc n) [] acc = padded n [] (acc * 256)
padded (suc n) (b ∷ bytes) acc = padded n bytes (acc * 256 + b)

unfoldable pub deterministic_uuid : String → ℕ
unfolding padded as_bytes
deterministic_uuid seed = padded 16 (as_bytes seed) 0

unfoldable pub appends : List RecordedExchange → List Step
appends [] = []
appends (e ∷ es) = append_step e ∷ appends es

-- The exchanges of a loop over `i..n`.
unfoldable pub numbered : (ℕ → RecordedExchange) → ℕ → ℕ → List RecordedExchange
numbered make zero i = []
numbered make (suc n) i = make i ∷ numbered make n (suc i)

-- An append for each of them, and a flush behind every second one.
unfoldable pub interleaved : ℕ → List RecordedExchange → List Step
interleaved i [] = flush_step ∷ []
interleaved i (e ∷ es) =
    let rest = interleaved (suc i) es in
    append_step e ∷ (if eqb (i % 2) 0 then flush_step ∷ rest else rest)

-- `path.parse().unwrap()`, the identifier and the time of the error exchange, and `PartialEq` of
-- exchanges are what the environment supplies.
pub record Suite (http : Http) : Type 0 where
  pub uri_of : String → http.Uri
  pub stamp : Stamp
  pub same : RecordedExchange → RecordedExchange → Bool

module _ (http : Http) (suite : Suite http) where
  -- `make_exchange`
  unfoldable pub make_exchange : String → Bytes → ℕ → RecordedExchange
  unfolding deterministic_uuid format as_bytes request_from_parts
  make_exchange path body status = record {
    id = deterministic_uuid path;
    upstream = some "test";
    timestamp = 1_700_000_000_000_000_000;
    duration = 5_000_000;
    request = request_from_parts http "POST" (suite.uri_of path) http.no_headers body;
    outcome = response (record {
      status = status;
      headers = ("x-test", "true") ∷ [];
      body = as_bytes (format ("response-for-" ∷ path ∷ []));
    });
    labels = [];
  }

  unfoldable pub error_exchange : RecordedExchange
  unfolding request_from_parts
  error_exchange =
      new_exchange suite.stamp (some "api")
        (request_from_parts http "GET" (suite.uri_of "/oops") http.no_headers [])
        (error "synthetic upstream-connect error") 3_000_000

  -- `assert_eq!` of two vectors
  unfoldable pub same_all : List RecordedExchange → List RecordedExchange → Bool
  same_all [] [] = true
  same_all [] (y ∷ ys) = false
  same_all (x ∷ xs) [] = false
  same_all (x ∷ xs) (y ∷ ys) = suite.same x y && same_all xs ys

  unfoldable pub exchange_at : String → Bytes → ℕ → RecordedExchange
  unfolding make_exchange decimal format
  exchange_at prefix body i = make_exchange (format (prefix ∷ decimal i ∷ [])) body 200

  unfoldable pub in_order : String → ℕ → List RecordedExchange
  unfolding make_exchange decimal format numbered
  in_order prefix n =
      numbered (λ i. make_exchange (format (prefix ∷ decimal i ∷ [])) (i ∷ []) 200) n 0

module _ (http : Http) (suite : Suite http) (medium : SnapshotStorage) where
  -- The steps of a case; `none` is an `expect` that panics.
  unfoldable pub run_steps : List Step → medium.State → Option medium.State
  run_steps [] s = some s
  run_steps (append_step e ∷ steps) s =
      let (res, s') = medium.append s e in
      let rest = run_steps steps s' in elim res [ ok u ↦ rest | err x ↦ none ]
  run_steps (flush_step ∷ steps) s =
      let (res, s') = medium.flush s in
      let rest = run_steps steps s' in elim res [ ok u ↦ rest | err x ↦ none ]

  -- `collect_load` and the assertion on what was loaded.
  unfoldable pub checked : (List RecordedExchange → Bool) → Result (List RecordedExchange) → Bool
  checked check (err x) = false
  checked check (ok loaded) = check loaded

  unfoldable pub loaded_by : (List RecordedExchange → Bool) → Option medium.State → Bool
  unfolding checked
  loaded_by check none = false
  loaded_by check (some s) = checked check (collect http (medium.load s))

  unfoldable pub case_of : List Step → (List RecordedExchange → Bool) → medium.State → Bool
  unfolding run_steps loaded_by
  case_of steps check fresh = loaded_by check (run_steps steps fresh)

  unfoldable pub round_trip_single_exchange : medium.State → Bool
  unfolding case_of make_exchange same_all as_bytes
  round_trip_single_exchange fresh =
      let e = make_exchange http suite "/round-trip" (as_bytes "single") 200 in
      case_of (append_step e ∷ flush_step ∷ []) (λ loaded. same_all http suite loaded (e ∷ []))
        fresh

  unfoldable pub insertion_order_preserved : medium.State → Bool
  unfolding case_of in_order same_all appends
  insertion_order_preserved fresh =
      let originals = in_order http suite "/n/" 5 in
      case_of (appends originals ++ flush_step ∷ [])
        (λ loaded. same_all http suite loaded originals) fresh

  unfoldable pub load_after_flush_yields_everything : medium.State → Bool
  unfolding case_of numbered exchange_at appends as_bytes
  load_after_flush_yields_everything fresh =
      let originals = numbered (exchange_at http suite "/load/" (as_bytes "x")) 7 0 in
      case_of (appends originals ++ flush_step ∷ []) (λ loaded. eqb (length loaded) 7) fresh

  unfoldable pub error_outcome_round_trips : medium.State → Bool
  unfolding case_of error_exchange same_all
  error_outcome_round_trips fresh =
      let e = error_exchange http suite in
      case_of (append_step e ∷ flush_step ∷ []) (λ loaded. same_all http suite loaded (e ∷ []))
        fresh

  unfoldable pub interleaved_append_and_flush : medium.State → Bool
  unfolding case_of in_order interleaved same_all
  interleaved_append_and_flush fresh =
      let originals = in_order http suite "/inter/" 6 in
      case_of (interleaved 0 originals) (λ loaded. same_all http suite loaded originals) fresh

  unfoldable pub empty_storage_load_yields_nothing : medium.State → Bool
  unfolding case_of
  empty_storage_load_yields_nothing fresh = case_of [] (λ loaded. eqb (length loaded) 0) fresh

  -- `run_conformance`, with a fresh medium for each case.
  unfoldable pub run_conformance : medium.State → Bool
  unfolding round_trip_single_exchange insertion_order_preserved load_after_flush_yields_everything
      error_outcome_round_trips interleaved_append_and_flush empty_storage_load_yields_nothing
  run_conformance fresh =
      round_trip_single_exchange fresh
      && (insertion_order_preserved fresh
          && (load_after_flush_yields_everything fresh
              && (error_outcome_round_trips fresh
                  && (interleaved_append_and_flush fresh
                      && empty_storage_load_yields_nothing fresh))))
