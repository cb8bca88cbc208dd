-- ===== src/Storage/Jsonl/Lines.antt =====
-- What is read back of a file of lines.
use mathlib.Core.List.{append_assoc, append-nil}
use partly_proxy.Base.{
  ℕ, suc, arith, Bytes, false, Option, none, some, List, [], ◌∷◌, ◌++◌, ◌≡◌, refl, sym, ap, ◌∙◌,
  eqb, if_false, any, map, inl, inr,
}
use partly_proxy.Types.Error.{Result, ok, err, Result-cases}
use partly_proxy.Types.Recorded.{RecordedExchange}
use partly_proxy.Types.Encoding.{Document, SerdeLaws, as_stored, to_vec, serialize_exchange}
use partly_proxy.Types.Encoding.Reading.{from_text-to_vec}
use partly_proxy.Storage.Jsonl.{
  FileCodec, push, lines_of, strip_cr, append, append_vec, load, load_lines, parsed,
  parse_ndjson_line, yield_item,
}

-- The line holds no line feed.
abbrev pub OneLine : Bytes → Type 0
OneLine line = any (λ b. eqb b 10) line ≡ false

lines_of-line :
    (line rest : Bytes) → OneLine line → lines_of (line ++ 10 ∷ rest) ≡ line ∷ lines_of rest
unfolding lines_of push
lines_of-line [] rest h = refl
lines_of-line (b ∷ line) rest h = ground (arith, h, lines_of-line line rest)

-- The contents of a file of lines.
abbrev pub join : List Bytes → Bytes
join [] = []
join (line ∷ lines) = line ++ 10 ∷ join lines

join-snoc :
    (lines : List Bytes) (line : Bytes)
    → join (lines ++ line ∷ []) ≡ join lines ++ (line ++ 10 ∷ [])
join-snoc [] line = refl
join-snoc (first ∷ lines) line =
    rw (join-snoc lines line) (sym (append_assoc first (10 ∷ join lines) (line ++ 10 ∷ [])))

module _ (codec : FileCodec) where
  -- What the crates document: the text of a document is one line that is not blank and ends with no
  -- carriage return, what was written or encoded is read back (`SerdeLaws`), and a write that succeeds
  -- has put all bytes at the end of the file.
  pub record FileLaws : Type 0 where
    pub one_line : (d : Document) (line : Bytes) → codec.serde.write d ≡ some line → OneLine line
    pub no_return :
        (d : Document) (line : Bytes) → codec.serde.write d ≡ some line → strip_cr line ≡ line
    pub not_blank :
        (d : Document) (line : Bytes)
        → codec.serde.write d ≡ some line
        → codec.is_blank line ≡ false
    pub read_back : SerdeLaws codec.serde
    pub writes :
        (file bytes : Bytes)
        → (codec.write_all file bytes).0 ≡ ok tt
        → (codec.write_all file bytes).1 ≡ file ++ bytes

module _ (codec : FileCodec) (laws : FileLaws codec) where
  abbrev pub AreTexts : List RecordedExchange → List Bytes → Type 0
  AreTexts [] [] = Unit
  AreTexts [] (line ∷ lines) = ⊥
  AreTexts (e ∷ es) [] = ⊥
  AreTexts (e ∷ es) (line ∷ lines) = (to_vec codec.serde e ≡ some line) × AreTexts es lines

  AreTexts-snoc :
      (es : List RecordedExchange) (lines : List Bytes) (e : RecordedExchange) (line : Bytes)
      → AreTexts es lines
      → to_vec codec.serde e ≡ some line
      → AreTexts (es ++ e ∷ []) (lines ++ line ∷ [])
  AreTexts-snoc [] [] e line h t = (t, tt)
  AreTexts-snoc [] (x ∷ lines) e line h t = absurd h
  AreTexts-snoc (x ∷ es) [] e line h t = absurd h
  AreTexts-snoc (x ∷ es) (y ∷ lines) e line (k, h) t = (k, AreTexts-snoc es lines e line h t)

  lines_of-join :
      (es : List RecordedExchange) (lines : List Bytes)
      → AreTexts es lines
      → lines_of (join lines) ≡ lines
  unfolding lines_of to_vec
  lines_of-join [] [] h = refl
  lines_of-join [] (line ∷ lines) h = absurd h
  lines_of-join (e ∷ es) [] h = refl
  lines_of-join (e ∷ es) (line ∷ lines) (t, h) =
      lines_of-line line (join lines) (laws.one_line (serialize_exchange codec.serde e) line t)
      ∙ ap (λ later. line ∷ later) (lines_of-join es lines h)

  load_lines-AreTexts :
      (n : ℕ) (es : List RecordedExchange) (lines : List Bytes)
      → AreTexts es lines
      → load_lines codec n lines ≡ map (λ e. ok (as_stored e)) es
  unfolding load_lines parse_ndjson_line to_vec
  load_lines-AreTexts n [] [] h = refl
  load_lines-AreTexts n [] (line ∷ lines) h = absurd h
  load_lines-AreTexts n (e ∷ es) [] h = absurd h
  load_lines-AreTexts n (e ∷ es) (line ∷ lines) (t, h) =
      rw (laws.no_return (serialize_exchange codec.serde e) line t) (
        if_false _ _ (laws.not_blank (serialize_exchange codec.serde e) line t)
        ∙ ap (λ o. yield_item codec (parsed codec n o) (load_lines codec (suc n) lines))
            (from_text-to_vec codec.serde laws.read_back e line t)
        ∙ rw (yield_item, parsed, load_lines-AreTexts (suc n) es lines h))

  -- The file holds the exchanges, each on its line.
  unfoldable pub Written : List RecordedExchange → Bytes → Type 0
  Written es file = (lines : List Bytes) × AreTexts es lines × (file ≡ join lines)

  pub append_vec-Written :
      (es : List RecordedExchange) (file : Bytes) (e : RecordedExchange) (o : Option Bytes)
      → to_vec codec.serde e ≡ o
      → Written es file
      → (append_vec codec file o).0 ≡ ok tt
      → Written (es ++ e ∷ []) (append_vec codec file o).1
  unfolding append_vec Written
  append_vec-Written es file e none t h done = absurd (cc done)
  append_vec-Written es file e (some line) t (lines, texts, same) done = (
    lines ++ line ∷ [],
    AreTexts-snoc es lines e line texts t,
    laws.writes file (line ++ 10 ∷ []) done
        ∙ ap (λ f. f ++ (line ++ 10 ∷ [])) same
        ∙ sym (join-snoc lines line),
  )

  pub load-Written :
      (es : List RecordedExchange) (file : Bytes)
      → Written es file
      → load codec file ≡ map (λ e. ok (as_stored e)) es
  unfolding load Written
  load-Written es file (lines, texts, same) =
      ap (λ f. load_lines codec 0 (lines_of f)) same
      ∙ ap (load_lines codec 0) (lines_of-join es lines texts)
      ∙ load_lines-AreTexts 0 es lines texts

  go_on : Result (Unit {0}) → Bytes → Result (Unit {0}) × Bytes → Result (Unit {0}) × Bytes
  go_on (ok _) file later = later
  go_on (err x) file later = (err x, file)

  -- Appends one after another, up to the first error.
  unfoldable pub append_all : List RecordedExchange → Bytes → Result (Unit {0}) × Bytes
  unfolding go_on
  append_all [] file = (ok tt, file)
  append_all (e ∷ es) file =
      let (res, file') = append codec file e in go_on res file' (append_all es file')

  append_all-Written :
      (es passed : List RecordedExchange) (file : Bytes)
      → Written passed file
      → (append_all es file).0 ≡ ok tt
      → Written (passed ++ es) (append_all es file).1
  unfolding append_all append
  append_all-Written [] passed file h done = rw append-nil h
  append_all-Written (e ∷ es) passed file h done =
      let (res, file') = append_vec codec file (to_vec codec.serde e) in
      elim (Result-cases res) [
        | inl stored ↦
            let h' = append_vec-Written passed file e (to_vec codec.serde e) refl h stored in
            rw (stored, go_on)
              (rw append_assoc at
                (append_all-Written es (passed ++ e ∷ []) file' h' (rw (stored, go_on) at done)))
        | inr (x, failed) ↦ absurd (cc (rw (failed, go_on) at done))
      ]

  -- What was appended to a fresh file by calls that succeeded is loaded from it, in order and without
  -- an error, but for the part of each duration below a millisecond.
  pub append_all-load :
      (es : List RecordedExchange)
      → (append_all es []).0 ≡ ok tt
      → load codec (append_all es []).1 ≡ map (λ e. ok (as_stored e)) es
  unfolding Written
  append_all-load es done =
      load-Written es (append_all es []).1 (append_all-Written es [] [] ([], tt, refl) done)
