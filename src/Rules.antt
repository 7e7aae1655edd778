-- ===== src/Rules.antt =====
-- src/heron/rules/base.py and src/heron/rules/registry.py.
pub mod Registry
pub mod Attachments
pub mod ReplyTo
pub mod Authentication
pub mod LinkText
pub mod DisplayName
pub mod Active
pub mod Tests
use heron_mail.Prelude.{List, String, [], sort_desc_by, ℕ, ◌++◌, ◌∷◌}
use heron_mail.Result.{
  Error, Result, err, http_exception, imap_connection_error, integrity_error, invalid_transition,
  key_error, no_result_found, ok, os_error, other_error, overflow_error, secret_box_error,
  value_error,
}
use heron_mail.Email.{Iocs, ParsedEmail}
use heron_mail.Text.{concat}

pub data Severity : Type 0 where
  info low medium high : Severity

-- The number of a severity: an IntEnum.
abbrev pub level : Severity → ℕ
level info = 0
level low = 1
level medium = 2
level high = 3

pub record RuleContext : Type 0 where
  pub email : ParsedEmail
  pub iocs : Iocs

pub record Finding : Type 0 where
  pub rule_id : String
  pub severity : Severity
  pub title : String
  pub detail : String
  pub evidence : List String

-- A check may raise.
pub record Rule : Type 0 where
  pub id : String
  pub version : ℕ
  pub check : RuleContext → Result (List Finding)

pub record RuleResults : Type 0 where
  pub findings : List Finding
  pub errors : List String

-- `type(exc).__name__`
unfoldable pub error_name : Error → String
error_name (value_error m) = "ValueError"
error_name overflow_error = "OverflowError"
error_name integrity_error = "IntegrityError"
error_name no_result_found = "NoResultFound"
error_name key_error = "KeyError"
error_name os_error = "OSError"
error_name secret_box_error = "SecretBoxError"
error_name (invalid_transition m) = "InvalidTransition"
error_name (imap_connection_error m) = "ImapConnectionError"
error_name (http_exception n m) = "HTTPException"
error_name (other_error n m) = n

abbrev pub severity_of : Finding → ℕ
severity_of f = level f.severity

-- One round of the loop of `run_rules`, before those that follow.
unfoldable pub collect_one : String → Result (List Finding) → RuleResults → RuleResults
unfolding error_name
collect_one id (ok found) rest = record rest { findings = found ++ rest.findings }
collect_one id (err e) rest = record rest {
  errors = concat (id ∷ ": " ∷ error_name e ∷ []) ∷ rest.errors;
}

-- What the rules found and which of them raised, in the order of the rules.
unfoldable pub collect : RuleContext → List Rule → RuleResults
unfolding collect_one
collect ctx [] = record { findings = []; errors = [] }
collect ctx (rule ∷ rules) = collect_one rule.id (rule.check ctx) (collect ctx rules)

unfoldable pub run_rules : RuleContext → List Rule → RuleResults
unfolding collect
run_rules ctx rules =
    let found = collect ctx rules in
    record found { findings = sort_desc_by severity_of found.findings }
