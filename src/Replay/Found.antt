-- ===== src/Replay/Found.antt =====
-- A response that is recorded under the key of a request is found by it.
use partly_proxy.Base.{
  arith, List, [], ◌∷◌, Bool, true, none, some, ◌≡◌, refl, sym, ap, ◌∙◌, inl, inr, Option-cases,
  Bool-cases, if_true, if_false, find, find-append,
}
use partly_proxy.Http.{Http}
use partly_proxy.Types.ProxyIo.{ProxyRequest}
use partly_proxy.Types.Recorded.{
  RecordedResponse, RecordedExchange, ExchangeOutcome, response, error, is_response,
  request_from_parts,
}
use partly_proxy.Replay
use partly_proxy.Replay.{
  IndexKey, ReplayState, same_key, key_of, lookup_key, path_and_query_of_str, replay_outcome,
  replayed, find_exchange, outcome_response, parsed_or,
}
use partly_proxy.Replay.Index.{answers, IsIndexed, Refines, insert-Refines, same_key_iff}

find_holds : {A : Type 0} (p : A → Bool) (xs : List A) (x : A) → find p xs ≡ some x → p x ≡ true
find_holds p [] x h = cc h
find_holds p (y ∷ xs) x h = elim (Bool-cases (p y)) [
  | inl found ↦ let same : some y ≡ some x = rw (if_true _ _ found) at h in ground (arith, found)
  | inr missed ↦ find_holds p xs x (rw (if_false _ _ missed) at h)
]

module _ (http : Http) where
  -- The key under which the redacted request is recorded is the one under which it is looked up.
  pub key_of-lookup_key :
      (req : ProxyRequest http)
      → http.parse_uri (http.uri_text req.uri) ≡ some req.uri
      → key_of http (request_from_parts http req.method req.uri req.headers req.body)
        ≡ lookup_key http req
  unfolding key_of lookup_key request_from_parts path_and_query_of_str
  key_of-lookup_key req h = rw (path_and_query_of_str, h)

  answered :
      (o : ExchangeOutcome)
      → is_response o ≡ true
      → (r : RecordedResponse) × (outcome_response http o ≡ some (replayed http r))
  unfolding outcome_response
  answered (response r) h = (r, refl)
  answered (error m) h = absurd (cc h)

  -- An exchange that the index finds was answered with a response, and is replayed.
  found-replayed :
      (state : ReplayState) (k : IndexKey) (e : RecordedExchange)
      → IsIndexed http state
      → find_exchange k state ≡ some e
      → (r : RecordedResponse) × (replay_outcome http (some e) ≡ some (replayed http r))
  unfolding replay_outcome
  found-replayed state k e h found =
      let holds : answers http k e ≡ true =
        find_holds (answers http k) state.exchanges e (sym (h.finds k) ∙ found) in
      answered e.outcome (ground (arith, holds))

  -- A response that is recorded under a key with no answer so far is the answer from then on.
  pub insert-answer :
      (state : ReplayState) (k : IndexKey) (e : RecordedExchange)
      → IsIndexed http state
      → replay_outcome http (find_exchange k state) ≡ none
      → is_response e.outcome ≡ true
      → key_of http e.request ≡ k
      → find_exchange k (Replay.insert http e state) ≡ some e
  insert-answer state k e h missed responds same =
      let refined : Refines http state state.exchanges = record { indexed = h; finds = h.finds } in
      let later = (insert-Refines http state state.exchanges e refined).finds k in
      let absent : find_exchange k state ≡ none = elim (Option-cases (find_exchange k state)) [
        | inl none_found ↦ none_found
        | inr (x, found) ↦
            let (r, replays) = found-replayed state k x h found in
            absurd (cc (sym missed ∙ ap (replay_outcome http) found ∙ replays))
      ] in
      let yes_e : answers http k e ≡ true =
        rw responds ((same_key_iff (key_of http e.request) k).1 same) in
      later
      ∙ find-append (answers http k) state.exchanges (e ∷ [])
      ∙ rw (sym (h.finds k) ∙ absent) (if_true _ _ yes_e)
