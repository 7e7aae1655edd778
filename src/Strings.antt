-- ===== src/Strings.antt =====
-- The methods of Python's `str` that the rules use, over the characters of a text. What depends on the
-- Unicode character database is a parameter, `Unicode`.
pub mod Chars
pub mod Ascii
pub mod Labels
use Prim.Native.Char.{Char, code}
use heron_mail.Prelude.{
  Bool, List, Option, String, [], any, false, if◌then◌else◌, leb, length, map, none, refl, some,
  suc, take, true, zero, ℕ, ◌&&◌, ◌++◌, ◌+◌, ◌-◌, ◌==◌, ◌||◌, ◌∷◌, ◌≡◌,
}
use heron_mail.Text.{chars, from_chars, is_space}

-- The character database: `str.lower`, `str.title`, `str.isprintable` of a character, and `\w`.
pub record Unicode : Type 0 where
  pub lower : String → String
  pub title : String → String
  pub is_printable : Char → Bool
  pub is_word : Char → Bool

abbrev pub same_char : Char → Char → Bool
same_char c d = code c == code d

-- A character before the first of the parts.
abbrev pub onto_first : Char → List (List Char) → List (List Char)
onto_first c [] = (c ∷ []) ∷ []
onto_first c (w ∷ ws) = (c ∷ w) ∷ ws

-- The parts between the characters that pass a test; never none.
unfoldable pub cut : (Char → Bool) → List Char → List (List Char)
cut p [] = [] ∷ []
cut p (c ∷ cs) = let rest = cut p cs in if p c then [] ∷ rest else onto_first c rest

-- text.split(separator), for a separator of one character
unfoldable pub split : Char → String → List String
unfolding cut
split d s = map from_chars (cut (same_char d) (chars s))

unfoldable pub strip_left : (Char → Bool) → List Char → List Char
strip_left p [] = []
strip_left p (c ∷ cs) = if p c then strip_left p cs else c ∷ cs

-- A character before what is left of the text after it.
abbrev pub keep_before : (Char → Bool) → Char → List Char → List Char
keep_before p c [] = if p c then [] else c ∷ []
keep_before p c (d ∷ ds) = c ∷ d ∷ ds

unfoldable pub strip_right : (Char → Bool) → List Char → List Char
strip_right p [] = []
strip_right p (c ∷ cs) = keep_before p c (strip_right p cs)

-- text.strip(characters)
unfoldable pub strip_of : (Char → Bool) → String → String
unfolding strip_left strip_right
strip_of p s = from_chars (strip_right p (strip_left p (chars s)))

-- text.strip()
unfoldable pub strip : String → String
unfolding strip_of
strip s = strip_of is_space s

-- `parts[-1]`, and the text itself where there are no parts.
abbrev pub last_or {ℓ} : {A : Type ℓ} → A → List A → A
last_or d [] = d
last_or d (x ∷ xs) = last_or x xs

-- text.rpartition(separator)[2]
unfoldable pub after_last : Char → String → String
unfolding split
after_last d s = last_or s (split d s)

-- `character in text`
unfoldable pub has_char : Char → String → Bool
has_char d s = any (same_char d) (chars s)

-- text.startswith(start)
unfoldable pub begins : List Char → List Char → Bool
begins [] cs = true
begins (d ∷ ds) [] = false
begins (d ∷ ds) (c ∷ cs) = same_char d c && begins ds cs

-- `part in text`
unfoldable pub contains : List Char → List Char → Bool
unfolding begins
contains part [] = begins part []
contains part (c ∷ cs) = begins part (c ∷ cs) || contains part cs

unfoldable pub starts_with : String → String → Bool
unfolding begins
starts_with start s = begins (chars start) (chars s)

unfoldable pub has_part : String → String → Bool
unfolding contains
has_part part s = contains (chars part) (chars s)

-- Truth of a text.
unfoldable pub is_empty : String → Bool
is_empty String.[] = true
is_empty (String.◌∷◌ c s) = false

-- A character as `re.IGNORECASE` compares it with an ASCII letter of a pattern: i, k and s have other
-- forms than the two ASCII ones.
unfoldable pub fold_code : Char → ℕ
fold_code c =
    let n = code c in
    if leb b'A' n && leb n b'Z'
    then n + 32
    else if n == 0x130 || n == 0x131
    then b'i'
    else if n == 0x17f
    then b's'
    else if n == 0x212a
    then b'k'
    else n

-- A lower-case start of a pattern at the start of the text, in any case.
unfoldable pub begins_any_case : List Char → List Char → Bool
unfolding fold_code
begins_any_case [] cs = true
begins_any_case (d ∷ ds) [] = false
begins_any_case (d ∷ ds) (c ∷ cs) = (code d == fold_code c) && begins_any_case ds cs

-- The loop of `str.replace` and `re.sub`, from left to right: where the test holds of the character
-- before and of what follows, `new` stands for the next `extra + 1` characters. `skip` of those are
-- still to be passed over.
unfoldable pub substitute :
    (Option Char → List Char → Bool) → ℕ → List Char → ℕ → Option Char → List Char → List Char
substitute test extra new skip before [] = []
substitute test extra new (suc k) before (c ∷ cs) = substitute test extra new k (some c) cs
substitute test extra new zero before (c ∷ cs) =
    let hit = test before (c ∷ cs) in
    (if hit then new else c ∷ [])
    ++ substitute test extra new (if hit then extra else 0) (some c) cs

-- text.replace(old, new), for an old text that is not empty
unfoldable pub replace : List Char → List Char → List Char → List Char
unfolding begins substitute
replace old new cs = substitute (λ before rest. begins old rest) (length old - 1) new 0 none cs

-- The characters up to the first that passes a test, and those from it on.
unfoldable pub until : (Char → Bool) → List Char → List Char
until p [] = []
until p (c ∷ cs) = if p c then [] else c ∷ until p cs

unfoldable pub from_first : (Char → Bool) → List Char → List Char
from_first p [] = []
from_first p (c ∷ cs) = if p c then c ∷ cs else from_first p cs

-- A match before those that follow, where its size is not 0.
abbrev pub keep_match : ℕ → List Char → List (List Char) → List (List Char)
keep_match zero found rest = rest
keep_match (suc n) found rest = found ∷ rest

-- The loop of `re.finditer`, from left to right: `size` is the length of the match at a place, by the
-- character before and what follows, or 0. `skip` characters of the last match are still to be passed
-- over.
unfoldable pub matches_from :
    (Option Char → List Char → ℕ) → ℕ → Option Char → List Char → List (List Char)
matches_from size skip before [] = []
matches_from size (suc k) before (c ∷ cs) = matches_from size k (some c) cs
matches_from size zero before (c ∷ cs) =
    let n = size before (c ∷ cs) in
    keep_match n (take n (c ∷ cs)) (matches_from size (n - 1) (some c) cs)

unfoldable pub find_matches : (Option Char → List Char → ℕ) → List Char → List (List Char)
unfolding matches_from
find_matches size cs = matches_from size 0 none cs

abbrev pub is_ascii_letter : Char → Bool
is_ascii_letter c = let n = code c in (leb b'A' n && leb n b'Z') || (leb b'a' n && leb n b'z')

abbrev pub is_digit : Char → Bool
is_digit c = let n = code c in leb b'0' n && leb n b'9'

abbrev pub is_ascii_lower : Char → Bool
is_ascii_lower c = let n = code c in leb b'a' n && leb n b'z'

split_labels : split "." "a.b..c" ≡ "a" ∷ "b" ∷ "" ∷ "c" ∷ []
unfolding split
split_labels = refl

strip_dots : strip_of (same_char ".") "..a.b." ≡ "a.b"
unfolding strip_of
strip_dots = refl

after_at : after_last "@" "x@y@z.org" ≡ "z.org"
unfolding after_last
after_at = refl

part_inside : has_part ".xn--" "a.xn--b.c" ≡ true
unfolding has_part
part_inside = refl

replaced : from_chars (replace (chars "::") (chars "-") (chars ":::a::b")) ≡ "-:a-b"
unfolding replace
replaced = refl
