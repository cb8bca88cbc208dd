-- ===== src/Base/Text.antt =====
-- The operations of Rust's `str` that the program calls, over the native texts.
use Prim.Native.Nat.{ℕ, zero, suc, ◌+◌, ◌-◌, ◌*◌, ◌/◌, ◌%◌}
use Prim.Native.Char.{Char, code}
use Prim.Native.String
use Prim.Native.String.{String, char_at}
use mathlib.Core.Path.{◌≡◌, refl}
use mathlib.Core.Bool.{Bool, true, false, ◌&&◌, ◌||◌}
use mathlib.Core.Option.{Option, none, some}
use mathlib.Core.List.{List, [], ◌∷◌, ◌++◌}
use partly_proxy.Base.Tests.{ltb, leb, eqb, if◌then◌else◌}

-- A body, a header value or a file's content: the bytes as numbers below 256.
abbrev pub Bytes : Type 0
Bytes = List ℕ

-- The UTF-8 code of one character.
utf8 : ℕ → Bytes
utf8 c =
    if ltb c 128
    then c ∷ []
    else if ltb c 2048
    then (192 + c / 64) ∷ (128 + c % 64) ∷ []
    else if ltb c 65536
    then (224 + c / 4096) ∷ (128 + c / 64 % 64) ∷ (128 + c % 64) ∷ []
    else (240 + c / 262144) ∷ (128 + c / 4096 % 64) ∷ (128 + c / 64 % 64) ∷ (128 + c % 64) ∷ []

-- `s.as_bytes()`
unfoldable pub as_bytes : String → Bytes
unfolding utf8
as_bytes String.[] = []
as_bytes (String.◌∷◌ c s) = utf8 (code c) ++ as_bytes s

-- Whether the text begins with `t`; `s.starts_with(t)` by characters.
unfoldable pub begins : String → String → Bool
begins s String.[] = true
begins String.[] (String.◌∷◌ d t) = false
begins (String.◌∷◌ c s) (String.◌∷◌ d t) = eqb (code c) (code d) && begins s t

-- `s.contains(t)`
unfoldable pub contains : String → String → Bool
unfolding begins
contains String.[] t = begins String.[] t
contains (String.◌∷◌ c s) t = begins (String.◌∷◌ c s) t || contains s t

-- What stands behind the first occurrence of `t`: `s[s.find(t)? + t.len()..]`
skip : String → String → String
skip s String.[] = s
skip String.[] (String.◌∷◌ d t) = String.[]
skip (String.◌∷◌ c s) (String.◌∷◌ d t) = skip s t

-- `s.strip_prefix(t)`
unfoldable pub strip_prefix : String → String → Option String
unfolding begins skip
strip_prefix s t = if begins s t then some (skip s t) else none

unfoldable pub find_after : String → String → Option String
unfolding begins skip
find_after String.[] t = if begins String.[] t then some String.[] else none
find_after (String.◌∷◌ c s) t =
    let rest = find_after s t in
    if begins (String.◌∷◌ c s) t then some (skip (String.◌∷◌ c s) t) else rest

-- The text from the first occurrence of a character on: `s[s.find(c)?..]`
unfoldable pub find_from : ℕ → String → Option String
find_from k String.[] = none
find_from k (String.◌∷◌ c s) =
    let rest = find_from k s in if eqb (code c) k then some (String.◌∷◌ c s) else rest

-- The text before the first occurrence of a character: `s.split(c).next()`
unfoldable pub before : ℕ → String → String
before k String.[] = String.[]
before k (String.◌∷◌ c s) =
    let rest = before k s in if eqb (code c) k then String.[] else String.◌∷◌ c rest

-- `s.to_ascii_lowercase()`
lower_char : Char → Char
lower_char c =
    if leb 65 (code c) && leb (code c) 90
    then char_at "abcdefghijklmnopqrstuvwxyz" (code c - 65)
    else c

unfoldable pub to_ascii_lowercase : String → String
unfolding lower_char
to_ascii_lowercase String.[] = String.[]
to_ascii_lowercase (String.◌∷◌ c s) = String.◌∷◌ (lower_char c) (to_ascii_lowercase s)

to_ascii_lowercase_runs : to_ascii_lowercase "X-Tenant_Z" ≡ "x-tenant_z"
unfolding to_ascii_lowercase
to_ascii_lowercase_runs = refl

-- A decimal digit, and a number as `{}` prints it; a number has no more digits than its value plus
-- one, so the fuel is enough.
digit : ℕ → String
digit d =
    if eqb d 0
    then "0"
    else if eqb d 1
    then "1"
    else if eqb d 2
    then "2"
    else if eqb d 3
    then "3"
    else if eqb d 4
    then "4"
    else if eqb d 5
    then "5"
    else if eqb d 6
    then "6"
    else if eqb d 7
    then "7"
    else if eqb d 8
    then "8"
    else "9"

decimal_from : ℕ → ℕ → String
decimal_from zero n = ""
decimal_from (suc fuel) n =
    let rest = decimal_from fuel (n / 10) in
    if ltb n 10 then digit n else String.◌++◌ rest (digit (n % 10))

unfoldable pub decimal : ℕ → String
unfolding decimal_from digit
decimal n = decimal_from (suc n) n

-- `s.parse::<u16>()` and the like for the unsigned types up to `top`: a sign `+` may stand in front,
-- there is at least one digit and nothing else, and the number is not larger than `top`.
value_of_digits : ℕ → String → Option ℕ
value_of_digits acc String.[] = some acc
value_of_digits acc (String.◌∷◌ c s) =
    let rest = value_of_digits (acc * 10 + (code c - 48)) s in
    if leb 48 (code c) && leb (code c) 57 then rest else none

digits_within : ℕ → String → Option ℕ
unfolding value_of_digits
digits_within top String.[] = none
digits_within top (String.◌∷◌ c s) = elim (value_of_digits 0 (String.◌∷◌ c s)) [
  | some n ↦ if leb n top then some n else none
  | none ↦ none
]

unfoldable pub parse_unsigned : ℕ → String → Option ℕ
unfolding digits_within
parse_unsigned top String.[] = none
parse_unsigned top (String.◌∷◌ c s) =
    if eqb (code c) 43 then digits_within top s else digits_within top (String.◌∷◌ c s)

parse_unsigned_runs :
    (parse_unsigned 255 "+0255" ≡ some 255)
    × (parse_unsigned 255 "256" ≡ none)
    × (parse_unsigned 255 "+" ≡ none)
    × (parse_unsigned 255 "-1" ≡ none)
unfolding parse_unsigned
parse_unsigned_runs = (refl, refl, refl, refl)

-- `format!`: the pieces one behind the other.
unfoldable pub format : List String → String
format [] = ""
format (s ∷ rest) = String.◌++◌ s (format rest)

decimal_runs : decimal 10203 ≡ "10203"
unfolding decimal
decimal_runs = refl
