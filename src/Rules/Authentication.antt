-- ===== src/Rules/Authentication.antt =====
-- src/heron/rules/authentication.py: what the receiving server recorded of SPF, DKIM and DMARC.
pub mod Topmost
pub mod Headers
use Prim.Native.Char.{Char, code}
use heron_mail.Prelude.{
  Bool, List, Option, String, [], false, if◌then◌else◌, is_some, length, ltb, none, not, select,
  some, str_eq, ◌&&◌, ◌++◌, ◌||◌, ◌∷◌,
}
use heron_mail.Api.AlertRoutes.{detail}
use heron_mail.Rules.{Finding, Severity, high, info, low, medium}
use heron_mail.Strings.{cut, is_empty, same_char}
use heron_mail.Text.{concat, has_text, is_space}

-- The scan that takes comments away: the text kept so far, and the text since the last opening bracket
-- where one may still begin a comment.
pub record Scan : Type 0 where
  pub kept : List Char
  pub held : Option (List Char)

-- The text of a bracket that began no comment.
unfoldable pub release : Scan → List Char
release s = elim s.held [ none ↦ s.kept | some text ↦ s.kept ++ "(" ∷ text ]

unfoldable pub scan_char : Scan → Char → Scan
unfolding release
scan_char s c =
    if same_char "(" c then record { kept = release s; held = some [] } else elim s.held [
      | none ↦ record { kept = s.kept ++ c ∷ []; held = none }
      | some text ↦
          if same_char ")" c
          then record { kept = s.kept; held = none }
          else record { kept = s.kept; held = some (text ++ c ∷ []) }
    ]

unfoldable pub scan_all : Scan → List Char → Scan
unfolding scan_char
scan_all s [] = s
scan_all s (c ∷ cs) = scan_all (scan_char s c) cs

-- `_COMMENT_RE.sub("", text)`: the innermost brackets.
unfoldable pub without_comments : List Char → List Char
unfolding scan_all release
without_comments cs = release (scan_all (record { kept = []; held = none }) cs)

-- `results[method] = (*results.get(method, ()), result)`
unfoldable pub add_result :
    String → String → List (String × List String) → List (String × List String)
add_result method result [] = (method, result ∷ []) ∷ []
add_result method result ((m, found) ∷ rest) =
    let after = add_result method result rest in
    if str_eq m method then (m, found ++ result ∷ []) ∷ rest else (m, found) ∷ after

-- `results.get(method)`
unfoldable pub results_of : String → List (String × List String) → List String
results_of method [] = []
results_of method ((m, found) ∷ rest) = if str_eq m method then found else results_of method rest

-- The parts of a text that white space separates: `text.split()`.
unfoldable pub tokens : List Char → List (List Char)
unfolding cut
tokens cs = select (λ w. ltb 0 (length w)) (cut is_space cs)

pub record AuthResults : Type 0 where
  pub authserv : Option String
  pub results : List (String × List String)

-- `_best`
unfoldable pub best : List String → Option String
best [] = none
best (r ∷ rs) = some (if has_text "pass" (r ∷ rs) then "pass" else r)

-- The words of `_RECEIVED_SPF_RE`.
abbrev pub spf_words : List String
spf_words = "pass" ∷ "fail" ∷ "softfail" ∷ "neutral" ∷ "none" ∷ "temperror" ∷ "permerror" ∷ []

abbrev pub says : Option String → String → Bool
says none s = false
says (some r) s = str_eq r s

abbrev pub auth_finding : String → Severity → String → String → List String → Finding
auth_finding kind severity title detail evidence = record {
  rule_id = concat ("auth." ∷ kind ∷ []);
  severity = severity;
  title = title;
  detail = detail;
  evidence = evidence;
}

-- What a message's headers say.
pub record AuthOutcome : Type 0 where
  pub has_header : Bool
  pub authserv : Option String
  pub spf : Option String
  pub dkim : Option String
  pub dmarc : Option String

-- `reporter`
unfoldable pub reporter : Option String → List String
reporter none = []
reporter (some server) = if is_empty server then [] else concat ("reported by " ∷ server ∷ []) ∷ []

unfoldable pub dmarc_findings : AuthOutcome → List Finding
unfolding reporter
dmarc_findings o =
    if says o.dmarc "fail"
    then auth_finding "dmarc_fail" high "DMARC check failed"
        "The sending domain's own policy says this message was not authorised to use its From address."
        ("dmarc=fail" ∷ reporter o.authserv)
      ∷ []
    else []

unfoldable pub spf_findings : AuthOutcome → List Finding
unfolding reporter
spf_findings o =
    if says o.spf "fail"
    then auth_finding "spf_fail" medium "SPF check failed"
        "The server that sent this message is not on the domain's list of permitted senders."
        ("spf=fail" ∷ reporter o.authserv)
      ∷ []
    else if says o.spf "softfail"
    then auth_finding "spf_fail" low "SPF soft fail"
        "The sending server is probably not permitted to send for this domain."
        ("spf=softfail" ∷ reporter o.authserv)
      ∷ []
    else []

unfoldable pub dkim_findings : AuthOutcome → List Finding
unfolding reporter
dkim_findings o =
    if says o.dkim "fail"
    then auth_finding "dkim_fail" medium "DKIM signature invalid"
        "The message's cryptographic signature did not verify; it may have been altered or forged."
        ("dkim=fail" ∷ reporter o.authserv)
      ∷ []
    else []

-- `f"{name}={value}" for name, value in pairs if value`
abbrev pub seen : String → Option String → List String
seen name none = []
seen name (some r) = if is_empty r then [] else concat (name ∷ "=" ∷ r ∷ []) ∷ []

abbrev pub passed : AuthOutcome → Bool
passed o = says o.spf "pass" || says o.dkim "pass" || says o.dmarc "pass"

-- The last finding of `check`, where there is no other.
unfoldable pub unless_passed : AuthOutcome → List Finding → List Finding
unfolding reporter
unless_passed o (f ∷ fs) = f ∷ fs
unless_passed o [] =
    if passed o
    then []
    else auth_finding "unauthenticated" low "No passing sender authentication"
        "Neither SPF, DKIM nor DMARC passed, so nothing confirms who sent this message."
        (seen "spf" o.spf ++ seen "dkim" o.dkim ++ seen "dmarc" o.dmarc ++ reporter o.authserv)
      ∷ []

abbrev pub no_results : Finding
no_results =
    auth_finding "no_results" info "No authentication results"
      "The receiving server recorded no SPF, DKIM or DMARC results, so the sender could not be verified."
      []

-- `check` after it has read the headers.
unfoldable pub judge : AuthOutcome → List Finding
unfolding dmarc_findings spf_findings dkim_findings unless_passed
judge o =
    if not o.has_header && not (is_some o.spf)
    then no_results ∷ []
    else unless_passed o (dmarc_findings o ++ spf_findings o ++ dkim_findings o)
