-- ===== src/Extractor/Tests.antt =====
-- Defanging and refanging concrete texts.
use Prim.Native.Char.{Char}
use heron_mail.Prelude.{
  All, List, String, [], any, false, leb, length, none, refl, some, suc, true, zero, ℕ, ◌&&◌, ◌<◌,
  ◌^◌, ◌∷◌, ◌≡◌,
}
use heron_mail.Result.{ok}
use heron_mail.Extractor.Bytes.{parse_loose_ipv4-lt}
use heron_mail.Extractor.Capped.{note_all_complete}
use heron_mail.Extractor.Defang.{defang_domain, defang_url, refang}
use heron_mail.Extractor.Gathering.{has_key, is_truncated, note_all}
use heron_mail.Extractor.Html.{Event, collect_html, data_text, end_tag, refresh_target, start_tag}
use heron_mail.Extractor.Ipv4.{parse_loose_ipv4}
use heron_mail.Extractor.Links.{HasLinks, collect_html-HasLinks}
use heron_mail.Extractor.Refanging.{refang-defang_domain}
use heron_mail.Extractor.Refusals.{is_long_decimal, raises, raises-parse_loose_ipv4}
use heron_mail.Extractor.Urls.{find_url_candidates, normalise_url, strip_trailing_punctuation}
use heron_mail.Strings.{cut, same_char}
use heron_mail.Strings.Ascii.{ascii}
use heron_mail.Text.{chars, from_chars}

defanged_link :
    defang_url "HTTPS://a.b@evil.example/x.php?q=a.b"
    ≡ "hxxpS[://]a[.]b[@]evil[.]example/x.php?q=a.b"
unfolding defang_url
defanged_link = refl

refanged_link :
    refang ascii "see hxxps[://]evil[.]example (hxxp:x)" ≡ "see https://evil.example (http:x)"
unfolding refang
refanged_link = refl

refang-defang_domain_example : refang ascii (defang_domain "evil.example.org") ≡ "evil.example.org"
refang-defang_domain_example = refang-defang_domain ascii "evil.example.org" refl

decimal_form : parse_loose_ipv4 "3232236033" ≡ ok (some 3232236033)
unfolding parse_loose_ipv4
decimal_form = refl

hex_form : parse_loose_ipv4 "0xC0.0xA8.2.1" ≡ ok (some 3232236033)
unfolding parse_loose_ipv4
hex_form = refl

octal_form : parse_loose_ipv4 "0300.0250.2.1" ≡ ok (some 3232236033)
unfolding parse_loose_ipv4
octal_form = refl

too_large : parse_loose_ipv4 "1.2.65536" ≡ ok none
unfolding parse_loose_ipv4
too_large = refl

parse_loose_ipv4-lt_example : 3232236033 < 2 ^ 32
parse_loose_ipv4-lt_example = parse_loose_ipv4-lt "0xC0.0xA8.2.1" 3232236033 hex_form

-- The calls for a link with a spaced text, a script, and a link that opens no site.
abbrev page_events : List Event
page_events =
    start_tag "a" (("href", some " https://a.example ") ∷ [])
    ∷ data_text "  Log\n in "
    ∷ end_tag "a"
    ∷ start_tag "script" []
    ∷ data_text "var x"
    ∷ end_tag "script"
    ∷ start_tag "img" (("src", some "cid:1") ∷ [])
    ∷ []

collects_one :
    (collect_html ascii page_events).links
    ≡ record { target = "https://a.example"; source = "href"; text = some "Log in" } ∷ []
unfolding collect_html
collects_one = refl

hides_script : (collect_html ascii page_events).pieces ≡ "  Log\n in " ∷ []
unfolding collect_html
hides_script = refl

finds_refresh :
    refresh_target (chars "5; URL = 'http://a.example/x'") ≡ some (chars "http://a.example/x")
unfolding refresh_target
finds_refresh = refl

collect_html-HasLinks_example : HasLinks ascii (collect_html ascii page_events)
collect_html-HasLinks_example = collect_html-HasLinks ascii page_events

strips_bracket : strip_trailing_punctuation "http://a.example/x(1))." ≡ "http://a.example/x(1)"
unfolding strip_trailing_punctuation
strips_bracket = refl

adds_scheme : normalise_url ascii " WWW.a.example/X, " ≡ some "http://WWW.a.example/X"
unfolding normalise_url
adds_scheme = refl

no_host : normalise_url ascii "HTTPS://" ≡ none
unfolding normalise_url
no_host = refl

finds_links :
    find_url_candidates ascii "see hxxp://a[.]example/x, xwww.b.example or <ftp://c.example>"
    ≡ "http://a.example/x," ∷ "ftp://c.example" ∷ []
unfolding find_url_candidates
finds_links = refl

abbrev calls : List (String × String)
calls = ("a.example", "url") ∷ ("b.example", "from") ∷ ("a.example", "reply-to") ∷ []

notes_twice :
    note_all calls []
    ≡ record { key = "a.example"; sources = "url" ∷ "reply-to" ∷ [] }
      ∷ record { key = "b.example"; sources = "from" ∷ [] }
      ∷ []
unfolding note_all
notes_twice = refl

whole : is_truncated (note_all calls []) ≡ false
unfolding note_all
whole = refl

note_all_complete_example :
    All (λ (c : String × String). any (has_key c.0) (note_all calls []) ≡ true) calls
note_all_complete_example = note_all_complete calls [] whole

-- A host of digits only.
abbrev ones : ℕ → List Char
ones zero = []
ones (suc n) = "1" ∷ ones n

refuses_long : raises (parse_loose_ipv4 (from_chars (ones 4301))) ≡ true
unfolding parse_loose_ipv4
refuses_long = refl

accepts_limit : raises (parse_loose_ipv4 (from_chars (ones 4300))) ≡ false
unfolding parse_loose_ipv4
accepts_limit = refl

raises-parse_loose_ipv4_example : raises (parse_loose_ipv4 (from_chars (ones 4301))) ≡ (
    leb (length (cut (same_char ".") (chars (from_chars (ones 4301))))) 4
    && any is_long_decimal (cut (same_char ".") (chars (from_chars (ones 4301)))))
raises-parse_loose_ipv4_example = raises-parse_loose_ipv4 (from_chars (ones 4301))
