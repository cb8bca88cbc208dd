-- ===== src/Replay/Index.antt =====
-- The index against a search of the list of exchanges: on a key it finds the first recorded response
-- with that key.
use mathlib.Core.List.{append-nil, append_assoc}
use native.Mathlib.Numerals.{add-one}
use partly_proxy.Base.{
  ℕ, Bool, true, ◌&&◌, Option, none, some, List, [], ◌∷◌, ◌++◌, ◌≡◌, refl, sym, ◌∙◌, ap, ◌↔◌, ◌⊎◌,
  inl, inr, arith, eq_iff, if◌then◌else◌, Option-cases, length, get_elem?, get_elem?-append,
  get_elem?-length, find, find-append, length-append,
}
use partly_proxy.Http.{Http}
use partly_proxy.Types.Recorded.{RecordedExchange, is_response}
use partly_proxy.Replay.{
  IndexKey, same_key, KeyIndex, find_key, or_insert, ReplayState, key_of, index_from, build_index,
  new, insert, find_exchange,
}

pub same_key_iff : (a b : IndexKey) → (same_key a b ≡ true) ↔ (a ≡ b)
same_key_iff a b = ground (
  arith,
  eq_iff a.method b.method,
  eq_iff a.path_and_query b.path_and_query,
  eq_iff a.body_sha256 b.body_sha256,
)

find_key-append :
    (k j : IndexKey) (i : ℕ) (index : KeyIndex)
    → find_key k (index ++ (j, i) ∷ [])
      ≡ elim (find_key k index) [ some n ↦ some n | none ↦ if same_key j k then some i else none ]
unfolding find_key
find_key-append k j i [] = ground arith
find_key-append k j i ((h, n) ∷ index) = ground (arith, find_key-append k j i index)

find_key-same :
    (j k : IndexKey) (index : KeyIndex) → same_key j k ≡ true → find_key j index ≡ find_key k index
find_key-same j k index h = ap (λ (a : IndexKey). find_key a index) ((same_key_iff j k).0 h)

module _ (http : Http) where
  -- A recorded response with the key `k`.
  abbrev pub answers : IndexKey → RecordedExchange → Bool
  answers k e = is_response e.outcome && same_key (key_of http e.request) k

  -- The specification of the index: the first response with the key, by a search of the list.
  abbrev pub first_answer : IndexKey → List RecordedExchange → Option RecordedExchange
  first_answer k exchanges = find (answers k) exchanges

  -- The index finds what the search finds, and no position of it is out of range.
  pub record IsIndexed (state : ReplayState) : Type 0 where
    pub finds : (k : IndexKey) → find_exchange k state ≡ first_answer k state.exchanges
    pub in_range :
        (k : IndexKey) (i : ℕ)
        → find_key k state.index ≡ some i
        → (e : RecordedExchange) × (get_elem? state.exchanges i ≡ some e)

module _ (http : Http) where
  -- One exchange further: what `build_index` does with an element, and what `insert` does with one
  -- whose key is new.
  abbrev pub extend : RecordedExchange → ReplayState → ReplayState
  extend e state = record {
    exchanges = state.exchanges ++ e ∷ [];
    index =
        if is_response e.outcome
        then or_insert (key_of http e.request) (length state.exchanges) state.index
        else state.index;
  }

  extend_index :
      (state : ReplayState) (e : RecordedExchange) (k : IndexKey)
      → find_key k (extend e state).index ≡ elim (find_key k state.index) [
        | some n ↦ some n
        | none ↦ if answers http k e then some (length state.exchanges) else none
      ]
  unfolding or_insert
  extend_index state e k =
      let j = key_of http e.request in
      ground (
        arith,
        find_key-append k j (length state.exchanges) state.index,
        find_key-same j k state.index,
      )

  -- At one key, the extended index finds what the search of the extended list finds.
  extend_finds :
      (state : ReplayState) (e : RecordedExchange) (k : IndexKey)
      → IsIndexed http state
      → find_exchange k (extend e state) ≡ first_answer http k (state.exchanges ++ e ∷ [])
  unfolding find_exchange
  extend_finds state e k h =
      rw
        (extend_index state e k, find-append (answers http k) state.exchanges (e ∷ []), ← h.finds k)
        (elim (Option-cases (find_key k state.index)) [
          | inl absent ↦ rw absent (ground (arith, get_elem?-length state.exchanges e))
          | inr (i, present) ↦
              let (x, at) = h.in_range k i present in
              rw present (rw (get_elem?-append state.exchanges (e ∷ []) i x at, at))
        ])

  extend-IsIndexed :
      (state : ReplayState) (e : RecordedExchange)
      → IsIndexed http state
      → IsIndexed http (extend e state)
  extend-IsIndexed state e h = record {
    finds = λ k. extend_finds state e k h;
    in_range = λ k i p. elim (Option-cases (find_key k state.index)) [
      | inl absent ↦ (e, ground (arith, extend_index state e k, get_elem?-length state.exchanges e))
      | inr (n, present) ↦
          let (x, at) = h.in_range k n present in
          (
            x,
            ground
                (arith, extend_index state e k, get_elem?-append state.exchanges (e ∷ []) n x at),
          )
    ];
  }

  index_from-IsIndexed :
      (passed rest : List RecordedExchange) (index : KeyIndex)
      → IsIndexed http (record { exchanges = passed; index = index })
      → IsIndexed http (record {
        exchanges = passed ++ rest;
        index = index_from http (length passed) rest index;
      })
  unfolding index_from
  index_from-IsIndexed passed [] index h = rw append-nil h
  index_from-IsIndexed passed (e ∷ rest) index h =
      let state : ReplayState = record { exchanges = passed; index = index } in
      let ih =
        index_from-IsIndexed (passed ++ e ∷ []) rest (extend e state).index
          (extend-IsIndexed state e h) in
      rw (append_assoc, length-append, add-one) at ih

  -- A source that is built from a list of exchanges is indexed.
  pub new-IsIndexed : (exchanges : List RecordedExchange) → IsIndexed http (new http exchanges)
  unfolding new build_index find_exchange find_key
  new-IsIndexed exchanges =
      index_from-IsIndexed [] exchanges [] (record { finds = λ k. refl; in_range = λ k i p. cc })

  -- `insert` keeps the index, and leaves it as if the exchange were at the end of the list, whether
  -- or not its key was there.
  insert-cases :
      (state : ReplayState) (e : RecordedExchange)
      → (insert http e state ≡ extend e state)
        ⊎ ((insert http e state ≡ state) × ((extend e state).index ≡ state.index))
  unfolding insert or_insert
  insert-cases state e = ground arith

  insert-extend :
      (state : ReplayState) (e : RecordedExchange) (k : IndexKey)
      → IsIndexed http state
      → find_exchange k (insert http e state) ≡ find_exchange k (extend e state)
  unfolding find_exchange
  insert-extend state e k h = elim (insert-cases state e) [
    | inl new_key ↦ rw new_key
    | inr (same, index) ↦ elim (Option-cases (find_key k state.index)) [
      | inl absent ↦ rw (same, index, absent)
      | inr (i, present) ↦
          let (x, at) = h.in_range k i present in
          rw (same, index, present, at, get_elem?-append state.exchanges (e ∷ []) i x at)
    ]
  ]

  insert-IsIndexed :
      (state : ReplayState) (e : RecordedExchange)
      → IsIndexed http state
      → IsIndexed http (insert http e state)
  insert-IsIndexed state e h = elim (insert-cases state e) [
    | inl new_key ↦ rw new_key (extend-IsIndexed state e h)
    | inr (same, _) ↦ rw same h
  ]

  -- The source answers every key as a search of the history does: the exchanges that were loaded,
  -- and behind them those that were inserted.
  pub record Refines (state : ReplayState) (history : List RecordedExchange) : Type 0 where
    pub indexed : IsIndexed http state
    pub finds : (k : IndexKey) → find_exchange k state ≡ first_answer http k history

  pub new-Refines : (exchanges : List RecordedExchange) → Refines (new http exchanges) exchanges
  unfolding new
  new-Refines exchanges = let h = new-IsIndexed exchanges in record { indexed = h; finds = h.finds }

  -- An insertion puts the exchange at the end of the history, whether its key is new, known or it is
  -- an error.
  pub insert-Refines :
      (state : ReplayState) (history : List RecordedExchange) (e : RecordedExchange)
      → Refines state history
      → Refines (insert http e state) (history ++ e ∷ [])
  insert-Refines state history e h = record {
    indexed = insert-IsIndexed state e h.indexed;
    finds = λ k. rw (
      insert-extend state e k h.indexed,
      extend_finds state e k h.indexed,
      find-append (answers http k) state.exchanges (e ∷ []),
      find-append (answers http k) history (e ∷ []),
      ← h.finds k,
      ← h.indexed.finds k,
    );
  }

  -- A run of insertions, as forwarded exchanges complete.
  abbrev pub insert_all : List RecordedExchange → ReplayState → ReplayState
  insert_all [] state = state
  insert_all (e ∷ later) state = insert_all later (insert http e state)

  pub insert_all-Refines :
      (later : List RecordedExchange) (state : ReplayState) (history : List RecordedExchange)
      → Refines state history
      → Refines (insert_all later state) (history ++ later)
  insert_all-Refines [] state history h = rw append-nil h
  insert_all-Refines (e ∷ later) state history h = rw append_assoc at (
      insert_all-Refines later (insert http e state) (history ++ e ∷ [])
        (insert-Refines state history e h))

  -- The live index, after any exchanges were loaded and any others inserted one by one, answers every
  -- key as the index that a later run builds from the whole history: the first response with the key.
  pub insert_all-new :
      (loaded later : List RecordedExchange) (k : IndexKey)
      → (find_exchange k (insert_all later (new http loaded))
          ≡ find_exchange k (new http (loaded ++ later)))
        × (find_exchange k (insert_all later (new http loaded))
            ≡ first_answer http k (loaded ++ later))
  insert_all-new loaded later k =
      let live = insert_all-Refines later (new http loaded) loaded (new-Refines loaded) in
      let reloaded = new-Refines (loaded ++ later) in
      (live.finds k ∙ sym (reloaded.finds k), live.finds k)

  -- First write wins: once a key is answered, no insertion changes the answer.
  insert_first_wins :
      (loaded later : List RecordedExchange) (e x : RecordedExchange) (k : IndexKey)
      → find_exchange k (insert_all later (new http loaded)) ≡ some x
      → find_exchange k (insert http e (insert_all later (new http loaded))) ≡ some x
  insert_first_wins loaded later e x k p =
      let h = insert_all-Refines later (new http loaded) loaded (new-Refines loaded) in
      let h' = insert-Refines (insert_all later (new http loaded)) (loaded ++ later) e h in
      h'.finds k ∙ find-append (answers http k) (loaded ++ later) (e ∷ []) ∙ rw (← h.finds k, p)
