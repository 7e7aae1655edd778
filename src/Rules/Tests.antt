-- ===== src/Rules/Tests.antt =====
-- Three rules, one of which raises, and the theorems at them.

use heron_mail.Prelude.{
  All, List, Option, String, [], count_if, drop, false, if◌then◌else◌, length, map, none, not, refl,
  some, suc, ◌++◌, ◌∷◌, ◌≡◌,
}
use heron_mail.Result.{Result, err, key_error, ok, value_error}
use heron_mail.Analyzer.Tests.{iocs, parsed}
use heron_mail.Domains.{suffixes}
use heron_mail.Email.{AttachmentInfo, ExtractedUrl, header_values}
use heron_mail.Rules.{Finding, Rule, RuleContext, Severity, high, low, run_rules}
use heron_mail.Rules.Active.{active_rules}
use heron_mail.Rules.Active.Advice.{IsAdvised, run_rules-IsAdvised}
use heron_mail.Rules.Attachments.{check_attachments, check_one, is_executable, safe_name}
use heron_mail.Rules.Attachments.Programs.{check_one_programs, names_program}
use heron_mail.Rules.Authentication.Headers.{check_authentication, outcome}
use heron_mail.Rules.Authentication.Topmost.{
  check_authentication_below, check_authentication_silent, finds_any, is_fine, with_headers,
}
use heron_mail.Rules.DisplayName.{brand_domains, check_display_name}
use heron_mail.Rules.LinkText.{check_link_text}
use heron_mail.Rules.LinkText.Mismatches.{Reports, check_link_text-Reports}
use heron_mail.Rules.Registry.{run_rules_isolated}
use heron_mail.Rules.ReplyTo.{check_reply_to}
use heron_mail.Strings.{from_first, has_part, same_char, until}
use heron_mail.Strings.Ascii.{ascii}
use heron_mail.Text.{chars, from_chars}

abbrev context : RuleContext
context = record { email = parsed; iocs = iocs }

abbrev finds : String → Severity → Rule
finds id severity = record {
  id = id;
  version = 1;
  check = λ ctx.
      ok
        (record { rule_id = id; severity = severity; title = id; detail = ""; evidence = [] } ∷ []);
}

abbrev broken : Rule
broken = record { id = "broken"; version = 1; check = λ ctx. err key_error }

broken_errors :
    (run_rules context (finds "attachment" low ∷ broken ∷ finds "link" high ∷ [])).errors
    ≡ "broken: KeyError" ∷ []
unfolding run_rules
broken_errors = refl

run_rules_isolated_example :
    ((run_rules context (finds "attachment" low ∷ broken ∷ finds "link" high ∷ [])).findings
      ≡ (run_rules context (finds "attachment" low ∷ finds "link" high ∷ [])).findings)
    × (length (run_rules context (finds "attachment" low ∷ broken ∷ finds "link" high ∷ [])).errors
        ≡ suc (length (run_rules context (finds "attachment" low ∷ finds "link" high ∷ [])).errors))
run_rules_isolated_example =
    run_rules_isolated context (finds "attachment" low ∷ []) (finds "link" high ∷ []) broken
      key_error refl

abbrev attachment : Option String → String → AttachmentInfo
attachment name type = record {
  filename = name;
  content_type = type;
  size = 10;
  sha256 = "";
  disposition = some "attachment";
  content_id = none;
}

abbrev disguised : AttachmentInfo
disguised = attachment (some "Invoice.PDF.exe") "application/pdf"

disguised_findings :
    map (λ (f : Finding). f.rule_id) (check_one ascii disguised)
    ≡ "attachment.double_extension" ∷ []
unfolding check_one
disguised_findings = refl

shown_name : safe_name ascii (some "invoice\u{202e}gpj.exe") ≡ "invoice\\u202egpj.exe"
unfolding safe_name
shown_name = refl

check_one_programs_example :
    count_if names_program (check_one ascii disguised)
    ≡ (if is_executable ascii disguised then 1 else 0)
check_one_programs_example = check_one_programs ascii disguised

abbrev server_headers : List (String × String)
server_headers =
    (
      "Authentication-Results",
      "mx.example; spf=fail (see (note)) smtp.mailfrom=x; dkim=pass; dkim=fail; DMARC = fail",
    )
    ∷ []

abbrev forged_headers : List (String × String)
forged_headers = ("authentication-results", "mx.example; spf=pass; dmarc=pass") ∷ []

topmost_counts :
    map
      (λ (f : Finding). f.rule_id)
      (check_authentication ascii (with_headers ascii (server_headers ++ forged_headers) context))
    ≡ "auth.dmarc_fail" ∷ "auth.spf_fail" ∷ []
unfolding check_authentication
topmost_counts = refl

received_spf_fallback :
    map
      (λ (f : Finding). f.rule_id)
      (check_authentication ascii
        (with_headers ascii (("Received-SPF", " SoftFail (x)") ∷ []) context))
    ≡ "auth.spf_fail" ∷ []
unfolding check_authentication
received_spf_fallback = refl

check_authentication_below_example :
    check_authentication ascii (with_headers ascii (server_headers ++ forged_headers) context)
    ≡ check_authentication ascii (with_headers ascii server_headers context)
unfolding header_values
check_authentication_below_example =
    check_authentication_below ascii context server_headers forged_headers refl refl

check_authentication_silent_example :
    finds_any (check_authentication ascii (with_headers ascii forged_headers context))
    ≡ not (is_fine (outcome ascii (with_headers ascii forged_headers context).email))
check_authentication_silent_example =
    check_authentication_silent ascii (with_headers ascii forged_headers context)

-- The host of an address, and an exception for one with a bracket.
abbrev host_of : String → Result (Option String)
host_of url =
    if has_part "[" url
    then err (value_error "Invalid IPv6 URL")
    else ok (
        some (from_chars (until (same_char "/") (drop 2 (from_first (same_char "/") (chars url))))))

abbrev bank_link : ExtractedUrl
bank_link = record {
  url = "http://198.51.100.7/login";
  scheme = "http";
  host = "198.51.100.7";
  ip = some "198.51.100.7";
  has_userinfo = false;
  sources = "href" ∷ [];
  link_texts = "https://www.your-bank.com/login" ∷ "Click here" ∷ "your-bank.com" ∷ [];
}

abbrev spoofed : RuleContext
spoofed = record {
  email = record parsed {
    from_addresses =
        record { display_name = "PayPal support@bank.com"; address = "a@mailer.example" } ∷ [];
    reply_to = record { display_name = ""; address = "x@GMAIL.com" } ∷ [];
    headers = server_headers;
    attachments = disguised ∷ [];
  };
  iocs = record iocs { urls = bank_link ∷ [] };
}

abbrev link_report : Finding
link_report = record {
  rule_id = "link.text_mismatch";
  severity = high;
  title = "Link text doesn't match its destination";
  detail = "A link displays one website address but actually leads to a different site.";
  evidence =
      "shows \"https://www.your-bank.com/login\" but goes to hxxp[://]198[.]51[.]100[.]7/login"
      ∷ "shows \"your-bank.com\" but goes to hxxp[://]198[.]51[.]100[.]7/login" ∷ [];
}

spoofed_links : check_link_text ascii host_of spoofed ≡ ok (link_report ∷ [])
unfolding check_link_text
spoofed_links = refl

all_rules_find :
    map (λ (f : Finding). f.rule_id) (run_rules spoofed (active_rules ascii host_of)).findings
    ≡ "auth.dmarc_fail" ∷ "reply_to.mismatch" ∷ "display_name.address_mismatch"
      ∷ "link.text_mismatch" ∷ "attachment.double_extension" ∷ "auth.spf_fail"
      ∷ "display_name.brand" ∷ []
unfolding run_rules check_authentication check_reply_to check_display_name check_link_text
    check_attachments suffixes brand_domains
all_rules_find = refl

run_rules-IsAdvised_example :
    All IsAdvised (run_rules spoofed (active_rules ascii host_of)).findings
run_rules-IsAdvised_example = run_rules-IsAdvised ascii host_of spoofed

check_link_text-Reports_example : Reports ascii host_of spoofed.iocs.urls (link_report ∷ [])
check_link_text-Reports_example =
    check_link_text-Reports ascii host_of spoofed (link_report ∷ []) spoofed_links
