-- ===== src/WebAddress.antt =====
-- The patterns of web addresses in src/heron/rules/link_text.py and src/heron/rules/display_name.py.
use Prim.Native.Char.{Char}
use heron_mail.Prelude.{
  Bool, List, String, [], drop, if◌then◌else◌, length, map, ℕ, ◌&&◌, ◌+◌, ◌==◌, ◌||◌, ◌∷◌,
}
use heron_mail.Strings.{begins, begins_any_case, find_matches, has_part, same_char, until}
use heron_mail.Text.{chars, concat, from_chars, is_space}

-- The length of `https?://` or `www.` at the start, in any case, or 0.
unfoldable pub web_prefix : List Char → ℕ
unfolding begins_any_case begins
web_prefix cs =
    if begins_any_case (chars "https") cs && begins (chars "://") (drop 5 cs)
    then 8
    else if begins_any_case (chars "http") cs && begins (chars "://") (drop 4 cs)
    then 7
    else if begins_any_case (chars "www.") cs
    then 4
    else 0

-- Not in `[^\s<>\"]`.
abbrev pub ends_address : Char → Bool
ends_address c = is_space c || same_char "<" c || same_char ">" c || same_char "\"" c

-- The length of the match of `(?i)(?:https?://|www\.)[^\s<>\"]+` at the start, or 0.
unfoldable pub web_size : List Char → ℕ
unfolding web_prefix until
web_size cs =
    let n = web_prefix cs in
    let rest = length (until ends_address (drop n cs)) in
    if n == 0 || rest == 0 then 0 else n + rest

unfoldable pub web_addresses : String → List String
unfolding web_size find_matches
web_addresses s = map from_chars (find_matches (λ before cs. web_size cs) (chars s))

-- `raw if "://" in raw else f"http://{raw}"`
unfoldable pub with_scheme : String → String
unfolding has_part
with_scheme raw = if has_part "://" raw then raw else concat ("http://" ∷ raw ∷ [])
