-- ===== src/Rules/LinkText.antt =====
-- src/heron/rules/link_text.py: link text that shows another website than the link leads to.
pub mod Mismatches
use Prim.Native.Char.{Char}
use mathlib.Core.List.{head?}
use heron_mail.Prelude.{
  Bool, List, Option, String, [], any, false, if◌then◌else◌, length, ltb, none, not, some, str_eq,
  take, true, ℕ, ◌&&◌, ◌++◌, ◌||◌, ◌∷◌,
}
use heron_mail.Result.{Result, err, ok, value_error, ◌>>=◌}
use heron_mail.Domains.{registered_domain}
use heron_mail.Email.{ExtractedUrl}
use heron_mail.Extractor.Defang.{defang_url}
use heron_mail.Rules.{Finding, RuleContext, Severity, high, medium}
use heron_mail.Strings.{
  Unicode, cut, from_first, has_part, is_ascii_lower, is_digit, is_empty, same_char, starts_with,
  strip, strip_of, until,
}
use heron_mail.Text.{chars, concat, from_chars, is_space}
use heron_mail.WebAddress.{web_addresses, with_scheme}

-- `part.split(separator)[0]`
abbrev pub first_part : Char → List Char → List Char
first_part d cs = until (same_char d) cs

abbrev pub is_host_char : Char → Bool
is_host_char c = is_ascii_lower c || is_digit c || same_char "-" c

-- The labels of a bare domain: all but the last not empty, and the last of at least two letters.
unfoldable pub are_labels : List (List Char) → Bool
are_labels [] = false
are_labels (w ∷ []) = false
are_labels (w ∷ last ∷ []) =
    ltb 0 (length w) && ltb 1 (length last) && not (any (λ c. not (is_ascii_lower c)) last)
are_labels (w ∷ v ∷ u ∷ rest) = ltb 0 (length w) && are_labels (v ∷ u ∷ rest)

-- `(?:[/?#]\S*)?`
abbrev pub is_tail : List Char → Bool
is_tail [] = true
is_tail (c ∷ cs) = (same_char "/" c || same_char "?" c || same_char "#" c) && not (any is_space cs)

abbrev pub ends_host : Char → Bool
ends_host c = not (is_host_char c || same_char "." c)

-- `_BARE_DOMAIN_RE.fullmatch(text)`
unfoldable pub is_bare_domain : List Char → Bool
unfolding are_labels cut until from_first
is_bare_domain cs =
    are_labels (cut (same_char ".") (until ends_host cs)) && is_tail (from_first ends_host cs)

-- `except ValueError: return None`
abbrev pub none_on_value_error : Result (Option String) → Result (Option String)
none_on_value_error (ok host) = ok host
none_on_value_error (err (value_error m)) = ok none
none_on_value_error (err e) = err e

-- `url.ip or url.host`
unfoldable pub target : ExtractedUrl → String
unfolding is_empty
target url = elim url.ip [ none ↦ url.host | some ip ↦ if is_empty ip then url.host else ip ]

-- Truth of `url.ip`.
unfoldable pub has_ip : ExtractedUrl → Bool
unfolding is_empty
has_ip url = elim url.ip [ none ↦ false | some ip ↦ not (is_empty ip) ]

unfoldable pub is_dangerous_target : ExtractedUrl → Bool
unfolding has_ip starts_with has_part
is_dangerous_target url =
    has_ip url || url.has_userinfo || starts_with "xn--" url.host || has_part ".xn--" url.host

-- The variables `evidence` and `severity` of `check`.
pub record LinkState : Type 0 where
  pub evidence : List String
  pub severity : Severity

abbrev pub max_evidence : ℕ
max_evidence = 5

unfoldable pub evidence_line : String → ExtractedUrl → String
unfolding defang_url
evidence_line text url =
    concat
      ("shows \"" ∷ from_chars (take 80 (chars text)) ∷ "\" but goes to " ∷ defang_url url.url ∷ [])

-- The end of the loop's body, for a text that shows another site.
unfoldable pub note_mismatch : String → ExtractedUrl → LinkState → LinkState
unfolding is_dangerous_target evidence_line
note_mismatch text url s = record {
  evidence =
      if ltb (length s.evidence) max_evidence
      then s.evidence ++ evidence_line text url ∷ []
      else s.evidence;
  severity = if is_dangerous_target url then high else s.severity;
}

unfoldable pub link_findings : LinkState → List Finding
link_findings s = elim s.evidence [
  | [] ↦ []
  | line ∷ lines ↦
      record {
        rule_id = "link.text_mismatch";
        severity = s.severity;
        title = "Link text doesn't match its destination";
        detail = "A link displays one website address but actually leads to a different site.";
        evidence = s.evidence;
      }
      ∷ []
]

-- `urlsplit(url).hostname` is a parameter; it may raise.
module _ (unicode : Unicode) (hostname : String → Result (Option String)) where
  -- `_shown_host` of a text that is stripped.
  unfoldable pub shown_host_of : String → Result (Option String)
  unfolding web_addresses with_scheme is_bare_domain until
  shown_host_of text = elim (head? (web_addresses text)) [
    | some raw ↦ none_on_value_error (hostname (with_scheme raw))
    | none ↦
        let lowered = chars (unicode.lower text) in
        ok (
          if is_bare_domain lowered
          then some (from_chars (first_part "#" (first_part "?" (first_part "/" lowered))))
          else none)
  ]

  unfoldable pub shown_host : String → Result (Option String)
  unfolding strip shown_host_of
  shown_host text = shown_host_of (strip text)

  unfoldable pub is_mismatch : String → ExtractedUrl → Bool
  unfolding target has_ip is_empty strip_of registered_domain
  is_mismatch shown url =
      if is_empty (target url)
      then false
      else if has_ip url
      then not (str_eq (strip_of (same_char ".") shown) (target url))
      else not (str_eq (registered_domain unicode shown) (registered_domain unicode (target url)))

  -- `shown is None or not _mismatch(shown, url)` is the negation.
  unfoldable pub misleads : Option String → ExtractedUrl → Bool
  unfolding is_mismatch
  misleads none url = false
  misleads (some shown) url = is_mismatch shown url

  -- The body of the inner loop.
  unfoldable pub check_text : ExtractedUrl → String → LinkState → Result LinkState
  unfolding shown_host misleads note_mismatch
  check_text url text s =
      shown_host text >>= λ shown. ok (if misleads shown url then note_mismatch text url s else s)

  unfoldable pub check_texts : ExtractedUrl → List String → LinkState → Result LinkState
  unfolding check_text
  check_texts url [] s = ok s
  check_texts url (text ∷ texts) s = check_text url text s >>= λ t. check_texts url texts t

  unfoldable pub check_urls : List ExtractedUrl → LinkState → Result LinkState
  unfolding check_texts
  check_urls [] s = ok s
  check_urls (url ∷ urls) s = check_texts url url.link_texts s >>= λ t. check_urls urls t

  unfoldable pub check_link_text : RuleContext → Result (List Finding)
  unfolding check_urls link_findings
  check_link_text ctx =
      check_urls ctx.iocs.urls (record { evidence = []; severity = medium }) >>= λ s.
      ok (link_findings s)
