-- ===== src/Safe/Escapes.antt =====
-- What a reader of `md_safe`, src/heron/ui/safe.py, sees.
use Prim.Native.Char.{Char, code}
use mathlib.Core.Option
use heron_mail.Prelude.{
  Bool, Bool-cases, List, Option, String, [], ap, arith, false, has, if◌then◌else◌, inl, inr, leb,
  none, refl, some, true, ℕ, ◌&&◌, ◌==◌, ◌||◌, ◌∙◌, ◌∷◌, ◌≡◌,
}
use heron_mail.Safe.{clean_text, escape_chars, escape_markdown, is_special, md_safe}
use heron_mail.Strings.Chars.{chars-from_chars}
use heron_mail.Text.{chars}

-- The characters that CommonMark lets a backslash escape: the ASCII punctuation.
abbrev pub is_punctuation_code : ℕ → Bool
is_punctuation_code n =
    (leb 0x21 n && leb n 0x2f)
    || (leb 0x3a n && leb n 0x40)
    || (leb 0x5b n && leb n 0x60)
    || (leb 0x7b n && leb n 0x7e)

-- The characters of inline formatting, links, images, HTML, entities, tables, lists, headings, quotations,
-- colours, emoji and formulas.
abbrev pub formatting : List ℕ
formatting =
    b'\\' ∷ b'`' ∷ b'*' ∷ b'_' ∷ b'{' ∷ b'}' ∷ b'[' ∷ b']' ∷ b'(' ∷ b')' ∷ b'#' ∷ b'+' ∷ b'-' ∷ b'.'
    ∷ b'!' ∷ b'|' ∷ b'~' ∷ b'<' ∷ b'>' ∷ b'&' ∷ b':' ∷ b'$' ∷ []

-- The text that is read where a backslash escapes the punctuation after it; `none` if a character of
-- `formatting` stands unescaped, or a backslash escapes nothing. `escaped` says that a backslash was read.
unfoldable pub literal : Bool → List Char → Option (List Char)
literal escaped [] = if escaped then none else some []
literal true (c ∷ cs) =
    let rest = literal false cs in
    if is_punctuation_code (code c) then Option.map (λ l. c ∷ l) rest else none
literal false (c ∷ cs) =
    let after_escape = literal true cs in
    let rest = literal false cs in
    if code c == b'\\'
    then after_escape
    else if has (code c) formatting
    then none
    else Option.map (λ l. c ∷ l) rest

special_escapable : (c : Char) → is_special c ≡ true → is_punctuation_code (code c) ≡ true
unfolding is_special
special_escapable c h = ground (arith, h)

unspecial :
    (c : Char)
    → is_special c ≡ false
    → ((code c == b'\\') ≡ false) × (has (code c) formatting ≡ false)
unfolding is_special
unspecial c h = (ground (arith, h), ground (arith, h))

literal-escape_chars : (cs : List Char) → literal false (escape_chars cs) ≡ some cs
unfolding literal escape_chars
literal-escape_chars [] = refl
literal-escape_chars (c ∷ cs) = elim (Bool-cases (is_special c)) [
  | inl e ↦ rw (e, special_escapable c e, literal-escape_chars cs) refl
  | inr e ↦ rw (e, (unspecial c e).0, (unspecial c e).1, literal-escape_chars cs) refl
]

-- Read with the backslash escapes of CommonMark, what `md_safe` returns is the text that `clean_text`
-- returns, and no character of `formatting` stands in it unescaped.
pub literal-md_safe :
    (text : String) (max_len : ℕ)
    → literal false (chars (md_safe text max_len)) ≡ some (chars (clean_text text max_len))
unfolding md_safe escape_markdown
literal-md_safe text max_len =
    ap (literal false) (chars-from_chars (escape_chars (chars (clean_text text max_len))))
    ∙ literal-escape_chars (chars (clean_text text max_len))
