-- ===== src/Tests/Documents.antt =====
-- A serializer that knows the document of one exchange, and writes numbers and bytes as strokes.
use Prim.Native.Char.{Char, code}
use Prim.Native.String.{char_at}
use partly_proxy.Base.{
  ℕ, zero, suc, arith, String, Bytes, Bool, true, false, ◌&&◌, Option, none, some, [], ◌∷◌, ◌≡◌,
  refl, ap, ◌∙◌, ◌==◌, eq_iff, eqb, Map, if◌then◌else◌,
}
use partly_proxy.Types.Encoding.{
  Leaf, str, u16, u64, pairs, texts, Value, leaf, struct, Document, Serde, SerdeLaws,
}

abbrev stroke : Char
stroke = char_at "1" 0

abbrev gap : Char
gap = char_at "0" 0

-- `n` strokes in front of a text.
strokes : ℕ → String → String
strokes zero s = s
strokes (suc n) s = String.◌∷◌ stroke (strokes n s)

abbrev bump : Bytes → Bytes
bump [] = []
bump (b ∷ bytes) = suc b ∷ bytes

unfoldable pub encode : Bytes → String
unfolding strokes
encode [] = String.[]
encode (b ∷ bytes) = strokes b (String.◌∷◌ gap (encode bytes))

pub decode : String → Bytes
decode String.[] = []
decode (String.◌∷◌ c s) = let rest = decode s in if eqb (code c) 49 then bump rest else zero ∷ rest

decode-strokes : (b : ℕ) (s : String) → decode (strokes b (String.◌∷◌ gap s)) ≡ b ∷ decode s
unfolding decode strokes
decode-strokes zero s = refl
decode-strokes (suc b) s = ap bump (decode-strokes b s)

decode-encode : (bytes : Bytes) → decode (encode bytes) ≡ bytes
unfolding encode decode
decode-encode [] = refl
decode-encode (b ∷ bytes) = decode-strokes b (encode bytes) ∙ ap (λ l. b ∷ l) (decode-encode bytes)

pub first : Bytes → Option ℕ
first [] = none
first (b ∷ bytes) = some b

-- A test of equality that may fail on equal lists of pairs.
abbrev same_leaf : Leaf → Leaf → Bool
same_leaf (str a) (str b) = a == b
same_leaf (str a) (u16 b) = false
same_leaf (str a) (u64 b) = false
same_leaf (str a) (pairs b) = false
same_leaf (str a) (texts b) = false
same_leaf (u16 a) (str b) = false
same_leaf (u16 a) (u16 b) = eqb a b
same_leaf (u16 a) (u64 b) = false
same_leaf (u16 a) (pairs b) = false
same_leaf (u16 a) (texts b) = false
same_leaf (u64 a) (str b) = false
same_leaf (u64 a) (u16 b) = false
same_leaf (u64 a) (u64 b) = eqb a b
same_leaf (u64 a) (pairs b) = false
same_leaf (u64 a) (texts b) = false
same_leaf (pairs a) (str b) = false
same_leaf (pairs a) (u16 b) = false
same_leaf (pairs a) (u64 b) = false
same_leaf (pairs a) (texts b) = false
same_leaf (pairs []) (pairs []) = true
same_leaf (pairs []) (pairs (b ∷ bs)) = false
same_leaf (pairs (a ∷ more)) (pairs b) = false
same_leaf (texts a) (str b) = false
same_leaf (texts a) (u16 b) = false
same_leaf (texts a) (u64 b) = false
same_leaf (texts a) (pairs b) = false
same_leaf (texts a) (texts b) = false

same_leaf_lem : (x y : Leaf) → same_leaf x y ≡ true → x ≡ y
same_leaf_lem (str a) (str b) h = ap str ((eq_iff a b).0 h)
same_leaf_lem (str a) (u16 b) h = absurd (cc h)
same_leaf_lem (str a) (u64 b) h = absurd (cc h)
same_leaf_lem (str a) (pairs b) h = absurd (cc h)
same_leaf_lem (str a) (texts b) h = absurd (cc h)
same_leaf_lem (u16 a) (str b) h = absurd (cc h)
same_leaf_lem (u16 a) (u16 b) h = ground (arith, h)
same_leaf_lem (u16 a) (u64 b) h = absurd (cc h)
same_leaf_lem (u16 a) (pairs b) h = absurd (cc h)
same_leaf_lem (u16 a) (texts b) h = absurd (cc h)
same_leaf_lem (u64 a) (str b) h = absurd (cc h)
same_leaf_lem (u64 a) (u16 b) h = absurd (cc h)
same_leaf_lem (u64 a) (u64 b) h = ground (arith, h)
same_leaf_lem (u64 a) (pairs b) h = absurd (cc h)
same_leaf_lem (u64 a) (texts b) h = absurd (cc h)
same_leaf_lem (pairs a) (str b) h = absurd (cc h)
same_leaf_lem (pairs a) (u16 b) h = absurd (cc h)
same_leaf_lem (pairs a) (u64 b) h = absurd (cc h)
same_leaf_lem (pairs []) (pairs []) h = refl
same_leaf_lem (pairs []) (pairs (b ∷ bs)) h = absurd (cc h)
same_leaf_lem (pairs (a ∷ more)) (pairs b) h = absurd (cc h)
same_leaf_lem (pairs a) (texts b) h = absurd (cc h)
same_leaf_lem (texts a) (str b) h = absurd (cc h)
same_leaf_lem (texts a) (u16 b) h = absurd (cc h)
same_leaf_lem (texts a) (u64 b) h = absurd (cc h)
same_leaf_lem (texts a) (pairs b) h = absurd (cc h)
same_leaf_lem (texts a) (texts b) h = absurd (cc h)

module _ {A : Type 0} (same : A → A → Bool) where
  abbrev same_fields : Map A → Map A → Bool
  same_fields [] [] = true
  same_fields [] (y ∷ ys) = false
  same_fields (x ∷ xs) [] = false
  same_fields ((k, x) ∷ xs) ((j, y) ∷ ys) = k == j && (same x y && same_fields xs ys)

  same_fields_lem :
      (sound : (x y : A) → same x y ≡ true → x ≡ y) (xs ys : Map A)
      → same_fields xs ys ≡ true
      → xs ≡ ys
  same_fields_lem sound [] [] h = refl
  same_fields_lem sound [] (y ∷ ys) h = absurd (cc h)
  same_fields_lem sound (x ∷ xs) [] h = absurd (cc h)
  same_fields_lem sound ((k, x) ∷ xs) ((j, y) ∷ ys) h =
      ground (arith, h, eq_iff k j, sound x y, same_fields_lem sound xs ys)

abbrev same_value : Value → Value → Bool
same_value (leaf x) (leaf y) = same_leaf x y
same_value (leaf x) (struct ys) = false
same_value (struct xs) (leaf y) = false
same_value (struct xs) (struct ys) = same_fields same_leaf xs ys

same_value_lem : (x y : Value) → same_value x y ≡ true → x ≡ y
same_value_lem (leaf x) (leaf y) h = ap leaf (same_leaf_lem x y h)
same_value_lem (leaf x) (struct ys) h = absurd (cc h)
same_value_lem (struct xs) (leaf y) h = absurd (cc h)
same_value_lem (struct xs) (struct ys) h =
    ap struct (same_fields_lem same_leaf same_leaf_lem xs ys h)

unfoldable pub known : Document
unfolding encode
known =
    ("id", leaf (str (encode (1 ∷ []))))
    ∷ ("upstream", leaf (str "api"))
    ∷ ("timestamp", leaf (str (encode (5 ∷ []))))
    ∷ ("duration_ms", leaf (u64 0))
    ∷ (
      "request",
      struct (
          ("method", str "GET")
          ∷ ("uri", str "/a")
          ∷ ("headers", pairs [])
          ∷ ("body", str "")
          ∷ ("body_sha256", str "")
          ∷ []),
    )
    ∷ (
      "outcome",
      struct (
          ("kind", str "response")
          ∷ ("status", u16 200)
          ∷ ("headers", pairs [])
          ∷ ("body", str "")
          ∷ []),
    )
    ∷ []

unfoldable pub text_if : Bool → Option Bytes
text_if true = some (65 ∷ [])
text_if false = none

pub text_if_lem : (b : Bool) (line : Bytes) → text_if b ≡ some line → (b ≡ true) × (line ≡ 65 ∷ [])
unfolding text_if
text_if_lem true line h = (refl, ground (arith, h))
text_if_lem false line h = absurd (cc h)

unfoldable pub write : Document → Option Bytes
unfolding text_if
write d = text_if (same_fields same_value d known)

pub write_lem : (d : Document) (line : Bytes) → write d ≡ some line → (d ≡ known) × (line ≡ 65 ∷ [])
unfolding write
write_lem d line h =
    let (same, text) = text_if_lem (same_fields same_value d known) line h in
    (same_fields_lem same_value same_value_lem d known same, text)

abbrev pub sample_serde : Serde
sample_serde = record {
  write = write;
  parse = λ bytes. some known;
  encode_base64 = encode;
  decode_base64 = λ s. some (decode s);
  uuid_text = λ n. encode (n ∷ []);
  parse_uuid = λ s. first (decode s);
  time_text = λ n. encode (n ∷ []);
  parse_time = λ s. first (decode s);
}

pub serde_laws : SerdeLaws sample_serde
unfolding first
serde_laws = record {
  parse-write = λ d bytes h. rw (write_lem d bytes h).0 refl;
  decode-encode = λ bytes. ap some (decode-encode bytes);
  parse-uuid_text = λ n. ap first (decode-encode (n ∷ []));
  parse-time_text = λ n. ap first (decode-encode (n ∷ []));
}
