-- ===== src/Extractor/Defang.antt =====
-- src/heron/analysis/extractor.py: writing indicators so that they cannot be clicked, and undoing that.
use Prim.Native.Char.{Char}
use heron_mail.Prelude.{
  Bool, List, Option, String, [], drop, false, if◌then◌else◌, length, none, not, some, true, ◌&&◌,
  ◌++◌, ◌||◌, ◌∷◌,
}
use heron_mail.Strings.{
  Unicode, begins, begins_any_case, from_first, replace, same_char, substitute, until,
}
use heron_mail.Text.{chars, from_chars}

-- A URL cut at the first "[://]": what stands before it, the separator, and the rest.
pub record Partition : Type 0 where
  pub start : List Char
  pub separator : List Char
  pub rest : List Char

-- The loop of `str.partition`: `seen` was read before.
unfoldable pub partition_from : List Char → List Char → List Char → Partition
unfolding begins
partition_from sep seen [] = record { start = seen; separator = []; rest = [] }
partition_from sep seen (c ∷ cs) =
    let later = partition_from sep (seen ++ c ∷ []) cs in
    if begins sep (c ∷ cs)
    then record { start = seen; separator = sep; rest = drop (length sep) (c ∷ cs) }
    else later

-- The test of `(?i)^ftp(?=://)`.
unfoldable pub is_ftp_start : Option Char → List Char → Bool
unfolding begins_any_case begins
is_ftp_start none cs = begins_any_case (chars "ftp") cs && begins (chars "://") (drop 3 cs)
is_ftp_start (some c) cs = false

-- `prefix, sep, rest` after the test for an absent separator.
unfoldable pub authority_of : Partition → Partition
authority_of p = elim p.separator [
  | [] ↦ record { start = []; separator = []; rest = p.start }
  | c ∷ cs ↦ p
]

abbrev pub ends_authority : Char → Bool
ends_authority c = same_char "/" c || same_char "?" c || same_char "#" c

unfoldable pub defang_parts : Partition → List Char
unfolding until from_first replace
defang_parts p =
    p.start
    ++ p.separator
    ++ replace (chars "@") (chars "[@]")
        (replace (chars ".") (chars "[.]") (until ends_authority p.rest))
    ++ from_first ends_authority p.rest

unfoldable pub defang_url_chars : List Char → List Char
unfolding substitute begins_any_case is_ftp_start replace partition_from authority_of defang_parts
defang_url_chars url =
    let masked =
      substitute (λ before rest. begins_any_case (chars "http") rest) 3 (chars "hxxp") 0 none url in
    let out =
      replace (chars "://") (chars "[://]")
        (substitute is_ftp_start 2 (chars "fxp") 0 none masked) in
    defang_parts (authority_of (partition_from (chars "[://]") [] out))

unfoldable pub defang_url : String → String
unfolding defang_url_chars
defang_url url = from_chars (defang_url_chars (chars url))

-- The body of `defang_ip` and of `defang_domain`.
unfoldable pub dots_wrapped : List Char → List Char
unfolding replace
dots_wrapped cs = replace (chars ".") (chars "[.]") cs

unfoldable pub defang_ip : String → String
unfolding dots_wrapped
defang_ip address = from_chars (dots_wrapped (chars address))

unfoldable pub defang_domain : String → String
unfolding dots_wrapped
defang_domain d = from_chars (dots_wrapped (chars d))

abbrev pub colon_follows : List Char → Bool
colon_follows cs = begins (chars ":") cs || begins (chars "[:") cs

module _ (unicode : Unicode) where
  -- `\b` before a letter.
  abbrev pub at_word_start : Option Char → Bool
  at_word_start none = true
  at_word_start (some c) = not (unicode.is_word c)

  -- The tests of `(?i)\bhxxp(s?)(?=:|\[:)` and `(?i)\bfxp(?=:|\[:)`.
  unfoldable pub is_masked_http : Option Char → List Char → Bool
  unfolding begins_any_case begins
  is_masked_http before cs =
      at_word_start before
      && begins_any_case (chars "hxxp") cs
      && (colon_follows (drop 4 cs)
          || (begins_any_case (chars "s") (drop 4 cs) && colon_follows (drop 5 cs)))

  unfoldable pub is_masked_ftp : Option Char → List Char → Bool
  unfolding begins_any_case begins
  is_masked_ftp before cs =
      at_word_start before && begins_any_case (chars "fxp") cs && colon_follows (drop 3 cs)

  unfoldable pub unmasked : List Char → List Char
  unfolding substitute is_masked_http is_masked_ftp
  unmasked cs =
      substitute is_masked_ftp 2 (chars "ftp") 0 none
        (substitute is_masked_http 3 (chars "http") 0 none cs)

  unfoldable pub refang_chars : List Char → List Char
  unfolding unmasked replace
  refang_chars cs =
      let colons =
        replace (chars "[:]") (chars ":") (replace (chars "[://]") (chars "://") (unmasked cs)) in
      let dots =
        replace (chars "{.}") (chars ".")
          (replace (chars "(.)") (chars ".") (replace (chars "[.]") (chars ".") colons)) in
      replace (chars "[at]") (chars "@") (replace (chars "[@]") (chars "@") dots)

  unfoldable pub refang : String → String
  unfolding refang_chars
  refang text = from_chars (refang_chars (chars text))
