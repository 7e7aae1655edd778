-- ===== src/Parser.antt =====
-- The steps of src/heron/analysis/parser.py that do not rest on the email package: names of files, joined
-- texts and addresses.
use Prim.Native.Char.{Char, code}
pub mod Tests
use heron_mail.Prelude.{
  Bool, List, Option, String, [], any, false, if◌then◌else◌, leb, length, ltb, none, not, select,
  some, take, true, ℕ, ◌==◌, ◌||◌, ◌∷◌,
}
use heron_mail.Analyses.{joined}
use heron_mail.Strings.{Unicode, after_last, cut, has_char, is_empty, last_or, same_char, strip}
use heron_mail.Text.{chars, concat, from_chars, join}

abbrev pub max_body_chars : ℕ
max_body_chars = 1_000_000

-- `_join_capped`: the joined parts, and whether they were cut.
unfoldable pub join_capped : List String → String × Bool
join_capped parts =
    let joined = join "\n" parts in
    if ltb max_body_chars (length (chars joined))
    then (from_chars (take max_body_chars (chars joined)), true)
    else (joined, false)

-- `_CONTROL_CHARS`
abbrev pub is_control : Char → Bool
is_control c = let n = code c in leb n 0x1f || n == 0x7f

-- `_PATH_SEPARATORS`
abbrev pub is_separator : Char → Bool
is_separator c = same_char "/" c || same_char "\\" c

-- `cleaned or None`, without control characters and without a directory.
unfoldable pub clean_given : String → Option String
unfolding cut strip is_empty
clean_given name =
    let plain = select (λ c. not (is_control c)) (chars name) in
    let cleaned_name = strip (from_chars (last_or [] (cut is_separator plain))) in
    if is_empty cleaned_name then none else some cleaned_name

unfoldable pub clean_filename : Option String → Option String
unfolding clean_given
clean_filename none = none
clean_filename (some name) = clean_given name

-- The text before the last "@".
unfoldable pub before_last : List Char → List Char
before_last [] = []
before_last (c ∷ cs) = let rest = before_last cs in if any (same_char "@") cs then c ∷ rest else []

unfoldable pub lower_domain : Unicode → String → String
unfolding has_char after_last before_last
lower_domain unicode address =
    if has_char "@" address
    then concat (
        from_chars (before_last (chars address))
        ∷ "@"
        ∷ unicode.lower (after_last "@" address)
        ∷ [])
    else address
