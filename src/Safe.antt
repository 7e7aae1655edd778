-- ===== src/Safe.antt =====
-- src/heron/ui/safe.py: text from outside, made safe to show.
use Prim.Native.Char.{Char, code}
pub mod Plain
pub mod Escapes
pub mod Tests
use heron_mail.Prelude.{
  Bool, List, String, [], any, false, if◌then◌else◌, leb, length, ltb, map, take, ℕ, ◌&&◌, ◌++◌,
  ◌-◌, ◌==◌, ◌||◌, ◌∷◌,
}
use heron_mail.Strings.{same_char}
use heron_mail.Text.{chars, collapse, from_chars, rstrip}

-- `_UNSAFE_CHARS`
abbrev pub is_unsafe_char : Char → Bool
is_unsafe_char c =
    let n = code c in
    leb n 0x1f
    || n == 0x7f
    || n == 0x200e
    || n == 0x200f
    || (leb 0x202a n && leb n 0x202e)
    || (leb 0x2066 n && leb n 0x2069)

-- `_MARKDOWN_SPECIAL`
unfoldable pub is_special : Char → Bool
is_special c = any (same_char c) (chars "\\`*_{}[]()#+-.!|~<>&:$")

abbrev pub blanked : Char → Char
blanked c = if is_unsafe_char c then " " else c

-- The number of characters kept of a text that is too long: `max_len - 1`, counted from the end if it is
-- negative.
abbrev pub kept_length : ℕ → List Char → ℕ
kept_length max_len cleaned = if max_len == 0 then length cleaned - 1 else max_len - 1

unfoldable pub clean_chars : List Char → ℕ → List Char
unfolding collapse rstrip
clean_chars text max_len =
    let cleaned = collapse false false (map blanked text) in
    if ltb max_len (length cleaned)
    then rstrip (take (kept_length max_len cleaned) cleaned) ++ "…" ∷ []
    else cleaned

unfoldable pub clean_text : String → ℕ → String
unfolding clean_chars
clean_text text max_len = from_chars (clean_chars (chars text) max_len)

unfoldable pub escape_chars : List Char → List Char
escape_chars [] = []
escape_chars (c ∷ cs) =
    let rest = escape_chars cs in if is_special c then "\\" ∷ c ∷ rest else c ∷ rest

unfoldable pub escape_markdown : String → String
unfolding escape_chars
escape_markdown text = from_chars (escape_chars (chars text))

unfoldable pub md_safe : String → ℕ → String
unfolding clean_text escape_markdown
md_safe text max_len = escape_markdown (clean_text text max_len)
