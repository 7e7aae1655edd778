-- ===== src/Text.antt =====
-- Text: characters, Python's `str` of a number, `str.join`, `str.split()` and `str.rstrip`.
use Prim.Native.Char.{Char, code}
use Prim.Native.String.{◌++◌ as str_append}
use heron_mail.Prelude.{
  Bool, List, String, [], false, if◌then◌else◌, leb, refl, str_eq, suc, true, zero, ℕ, ◌%◌, ◌&&◌,
  ◌+◌, ◌/◌, ◌==◌, ◌||◌, ◌∷◌, ◌≡◌,
}

abbrev pub chars : String → List Char
chars String.[] = []
chars (String.◌∷◌ c s) = c ∷ chars s

abbrev pub from_chars : List Char → String
from_chars [] = ""
from_chars (c ∷ cs) = String.◌∷◌ c (from_chars cs)

-- The parts of an f-string.
abbrev pub concat : List String → String
concat [] = ""
concat (s ∷ ss) = str_append s (concat ss)

-- separator.join(parts)
abbrev pub join : String → List String → String
join sep [] = ""
join sep (s ∷ []) = s
join sep (s ∷ t ∷ ss) = str_append s (str_append sep (join sep (t ∷ ss)))

digit : ℕ → String
digit n =
    if n == 0
    then "0"
    else if n == 1
    then "1"
    else if n == 2
    then "2"
    else if n == 3
    then "3"
    else if n == 4
    then "4"
    else if n == 5
    then "5"
    else if n == 6
    then "6"
    else if n == 7
    then "7"
    else if n == 8
    then "8"
    else "9"

decimal_fuel : ℕ → ℕ → String → String
decimal_fuel zero n acc = acc
decimal_fuel (suc f) n acc =
    let rest = decimal_fuel f (n / 10) (str_append (digit (n % 10)) acc) in
    if n == 0 then acc else rest

-- str(n): a number below 10 ^ k takes k rounds, and n + 1 rounds are more than that.
unfoldable pub decimal : ℕ → String
unfolding decimal_fuel digit
decimal n = if n == 0 then "0" else decimal_fuel (n + 1) n ""

decimal_907 : decimal 907 ≡ "907"
unfolding decimal
decimal_907 = refl

-- str.isspace of one character.
abbrev pub is_space : Char → Bool
is_space c =
    let n = code c in
    (leb 9 n && leb n 13)
    || (leb 28 n && leb n 32)
    || n == 0x85
    || n == 0xa0
    || n == 0x1680
    || (leb 0x2000 n && leb n 0x200a)
    || n == 0x2028
    || n == 0x2029
    || n == 0x202f
    || n == 0x205f
    || n == 0x3000

-- The loop of `" ".join(text.split())`: runs of white space become one space, and none stands at the
-- ends. `gap` says that white space was read since the last word, `started` that a word was.
unfoldable pub collapse : Bool → Bool → List Char → List Char
collapse started gap [] = []
collapse started gap (c ∷ cs) =
    let blank = collapse started true cs in
    let letter = c ∷ collapse true false cs in
    if is_space c then blank else if started && gap then " " ∷ letter else letter

-- A character before what is left of the text after it.
abbrev pub before_rest : Char → List Char → List Char
before_rest d [] = if is_space d then [] else d ∷ []
before_rest d (e ∷ es) = d ∷ e ∷ es

unfoldable pub rstrip : List Char → List Char
rstrip [] = []
rstrip (c ∷ cs) = before_rest c (rstrip cs)

-- `s in texts`
abbrev pub has_text : String → List String → Bool
has_text s [] = false
has_text s (t ∷ ts) = str_eq t s || has_text s ts
