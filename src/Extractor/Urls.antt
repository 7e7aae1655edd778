-- ===== src/Extractor/Urls.antt =====
-- The URLs of src/heron/analysis/extractor.py: their normal form and what is said of each.
use Prim.Native.Char.{Char, code}
use mathlib.Core.List.{reverse}
use heron_mail.Prelude.{
  Bool, List, Option, String, [], any, count_if, drop, false, first?, if◌then◌else◌, length, ltb,
  map, none, not, some, true, ℕ, ◌&&◌, ◌+◌, ◌==◌, ◌||◌, ◌∷◌,
}
use heron_mail.Extractor.Defang.{refang}
use heron_mail.Extractor.Html.{allowed_schemes, cleaned}
use heron_mail.Strings.{
  Unicode, begins, begins_any_case, find_matches, same_char, starts_with, until,
}
use heron_mail.Text.{chars, concat, from_chars}
use heron_mail.WebAddress.{ends_address, web_prefix}

abbrev pub max_per_kind : ℕ
max_per_kind = 1000

-- `last in ".,;:!?'\""`
abbrev pub is_punctuation : Char → Bool
is_punctuation c = any (same_char c) (chars ".,;:!?'\"")

-- `pairs[last]`
abbrev pub opening : Char → Option Char
opening c =
    if same_char ")" c
    then some "("
    else if same_char "]" c
    then some "["
    else if same_char "}" c
    then some "{"
    else if same_char ">" c
    then some "<"
    else none

-- The test of the loop of `_strip_trailing_punctuation`, on the last character and the whole text.
abbrev pub is_trailing : Char → List Char → Bool
is_trailing c cs = is_punctuation c || (elim (opening c) [
  | none ↦ false
  | some o ↦ ltb (count_if (same_char o) cs) (count_if (same_char c) cs)
])

-- The loop, on the characters from the last to the first.
unfoldable pub strip_tail : List Char → List Char
strip_tail [] = []
strip_tail (c ∷ cs) = let rest = strip_tail cs in if is_trailing c (c ∷ cs) then rest else c ∷ cs

unfoldable pub strip_trailing_punctuation : String → String
unfolding strip_tail
strip_trailing_punctuation url = from_chars (reverse (strip_tail (reverse (chars url))))

-- `(?:https?|ftp)://|www\.` at the start, in any case: its length, or 0.
unfoldable pub link_prefix : List Char → ℕ
unfolding web_prefix begins_any_case begins
link_prefix cs =
    let n = web_prefix cs in
    if ltb 0 n
    then n
    else if begins_any_case (chars "ftp") cs && begins (chars "://") (drop 3 cs)
    then 6
    else 0

-- Not in `[^\s<>\"\x00-\x1f]`.
abbrev pub ends_link : Char → Bool
ends_link c = ends_address c || ltb (code c) 0x20

module _ (unicode : Unicode) where
  -- `(?<![\w/])`
  abbrev pub may_begin : Option Char → Bool
  may_begin none = true
  may_begin (some c) = not (unicode.is_word c || same_char "/" c)

  -- The length of the match of `_URL_RE` at a place, or 0.
  unfoldable pub url_size : Option Char → List Char → ℕ
  unfolding link_prefix until
  url_size before cs =
      let n = link_prefix cs in
      let rest = length (until ends_link (drop n cs)) in
      if may_begin before && ltb 0 n && ltb 0 rest then n + rest else 0

  unfoldable pub find_url_candidates : String → List String
  unfolding url_size find_matches refang
  find_url_candidates text = map from_chars (find_matches url_size (chars (refang unicode text)))

  -- `"http://" + url` for a url that starts with "www."
  abbrev pub with_http : String → String
  with_http url =
      if starts_with "www." (unicode.lower url) then concat ("http://" ∷ url ∷ []) else url

  -- The rest of `_normalise_url` for a url that is cleaned.
  unfoldable pub with_lower_scheme : String → Option String
  unfolding starts_with
  with_lower_scheme url = elim (first? (λ s. starts_with s (unicode.lower url)) allowed_schemes) [
    | none ↦ none
    | some scheme ↦
        if length (chars url) == length (chars scheme)
        then none
        else some (concat (scheme ∷ from_chars (drop (length (chars scheme)) (chars url)) ∷ []))
  ]

  unfoldable pub normalise_url : String → Option String
  unfolding cleaned strip_trailing_punctuation starts_with with_lower_scheme
  normalise_url raw = with_lower_scheme (with_http (strip_trailing_punctuation (cleaned raw)))
