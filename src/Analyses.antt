-- ===== src/Analyses.antt =====
-- src/heron/core/analysis_storage.py. `vault` holds the tables before a call; one that raises changes
-- nothing, since its transaction is rolled back.
pub mod Lifecycle
pub mod Recording
pub mod Moves
pub mod Work
pub mod Tests
use heron_mail.Prelude.{
  Bool, List, Option, String, [], any, count_if, drop, false, first?, if◌then◌else◌, ltb, next_id,
  none, not, select, some, sort_by, sort_desc_by, str_eq, take, true, update, ℕ, ◌&&◌, ◌++◌, ◌==◌,
  ◌∷◌,
}
use heron_mail.Result.{
  Result, err, integrity_error, invalid_transition, no_result_found, ok, require, ◌>>=◌, ◌>>◌,
}
use heron_mail.Alerts.{
  AlertDraft, AlertStatus, acknowledged, build_alert, false_positive, open_alert, resolved,
  transition,
}
use heron_mail.Models.{Alert, Analysis, Email, Vault}
use heron_mail.Scoring.{Assessment, is_complete, rules_version}
use heron_mail.Storage.{email_key}
use heron_mail.Timeutil.{Stamp, stamp}

abbrev pub analysis_key : Analysis → ℕ
analysis_key a = a.id

abbrev pub alert_key : Alert → ℕ
alert_key a = a.id

abbrev pub analysis_of : ℕ → Analysis → Bool
analysis_of email_id a = a.email_id == email_id

abbrev pub alert_of : ℕ → Alert → Bool
alert_of email_id a = a.email_id == email_id

abbrev pub stored_email : ℕ → Email → Bool
stored_email email_id e = e.id == email_id

-- `values` on a new row, and on a row that the email has already.
abbrev pub analysis_row : ℕ → ℕ → Assessment → Stamp → Analysis
analysis_row id email_id a at = record {
  id = id;
  email_id = email_id;
  score = a.score;
  verdict = a.verdict;
  rules_version = a.rules_version;
  complete = is_complete a;
  rule_errors = a.rule_errors;
  analyzed_at = at;
}

abbrev pub refresh_analysis : Assessment → Stamp → Analysis → Analysis
refresh_analysis a at x = record x {
  score = a.score;
  verdict = a.verdict;
  rules_version = a.rules_version;
  complete = is_complete a;
  rule_errors = a.rule_errors;
  analyzed_at = at;
}

unfoldable pub upsert_analysis : List Analysis → ℕ → Assessment → Stamp → List Analysis
upsert_analysis analyses email_id a at =
    if any (analysis_of email_id) analyses
    then update (analysis_of email_id) (refresh_analysis a at) analyses
    else analyses ++ analysis_row (next_id analysis_key analyses) email_id a at ∷ []

-- `content`: what the conflict branch sets.
abbrev pub refresh : AlertDraft → Stamp → Alert → Alert
refresh d at x = record x {
  severity = d.severity;
  verdict = d.verdict;
  score = d.score;
  title = d.title;
  summary = d.summary;
  details = d;
  rules_version = d.rules_version;
  updated_at = at;
}

abbrev pub alert_row : ℕ → ℕ → AlertDraft → Stamp → Alert
alert_row id email_id d at = record {
  id = id;
  email_id = email_id;
  status = open_alert;
  severity = d.severity;
  verdict = d.verdict;
  score = d.score;
  title = d.title;
  summary = d.summary;
  details = d;
  rules_version = d.rules_version;
  created_at = at;
  updated_at = at;
  acknowledged_at = none;
  closed_at = none;
}

-- The rows after the statement.
unfoldable pub upsert_alert : List Alert → ℕ → AlertDraft → Stamp → List Alert
upsert_alert alerts email_id d at =
    if any (alert_of email_id) alerts
    then update (alert_of email_id) (refresh d at) alerts
    else alerts ++ alert_row (next_id alert_key alerts) email_id d at ∷ []

-- `scalar_one()` of the alert's id.
abbrev pub alert_id : Option Alert → Result ℕ
alert_id none = err no_result_found
alert_id (some a) = ok a.id

abbrev pub save_alert : Vault → ℕ → Option AlertDraft → Stamp → Result (Vault × Option ℕ)
save_alert vault email_id none at = ok (vault, none)
save_alert vault email_id (some d) at = do
  let alerts = upsert_alert vault.alerts email_id d at
  id ← alert_id (first? (alert_of email_id) alerts)
  ok (record vault { alerts = alerts }, some id)

-- An analysis of an email that is not stored breaks the foreign key.
unfoldable pub record_assessment : Vault → ℕ → Assessment → String → ℕ → Result (Vault × Option ℕ)
unfolding upsert_analysis
record_assessment vault email_id a subject now =
    let saved = record vault { analyses = upsert_analysis vault.analyses email_id a (stamp now) } in
    if any (stored_email email_id) vault.emails
    then save_alert saved email_id (build_alert a subject) (stamp now)
    else err integrity_error

unfoldable pub get_analysis : Vault → ℕ → Option Analysis
get_analysis vault email_id = first? (analysis_of email_id) vault.analyses

-- An alert with the columns of its email, a row of `_alert_select`.
pub record AlertView : Type 0 where
  pub alert : Alert
  pub account_id : ℕ
  pub email_subject : Option String
  pub from_address : Option String
  pub internal_date : Stamp

abbrev pub view : Alert → Email → AlertView
view a e = record {
  alert = a;
  account_id = e.account_id;
  email_subject = e.subject;
  from_address = e.from_address;
  internal_date = e.internal_date;
}

-- The join: an alert whose email is not stored has no row. The id of an email is its primary key.
abbrev pub joined : List Email → List Alert → List AlertView
joined emails [] = []
joined emails (a ∷ rest) = elim (first? (stored_email a.email_id) emails) [
  | none ↦ joined emails rest
  | some e ↦ view a e ∷ joined emails rest
]

unfoldable pub get_alert : Vault → ℕ → Option AlertView
get_alert vault id = first? (λ (v : AlertView). v.alert.id == id) (joined vault.emails vault.alerts)

abbrev pub alert_status_eq : AlertStatus → AlertStatus → Bool
alert_status_eq open_alert open_alert = true
alert_status_eq acknowledged acknowledged = true
alert_status_eq resolved resolved = true
alert_status_eq false_positive false_positive = true
alert_status_eq _ _ = false

abbrev pub view_matches : Option ℕ → Option AlertStatus → AlertView → Bool
view_matches account_id status v =
    (elim account_id [ none ↦ true | some a ↦ v.account_id == a ])
    && (elim status [ none ↦ true | some s ↦ alert_status_eq v.alert.status s ])

abbrev pub view_key : AlertView → ℕ
view_key v = v.alert.id

-- ORDER BY id DESC LIMIT limit OFFSET offset, for a status that is an AlertStatus.
unfoldable pub list_alerts : Vault → Option ℕ → Option AlertStatus → ℕ → ℕ → List AlertView
list_alerts vault account_id status limit offset = take limit (
    drop offset (
      sort_desc_by view_key
        (select (view_matches account_id status) (joined vault.emails vault.alerts))))

-- The count of one status, of the dictionary that has one for each.
unfoldable pub alert_counts : Vault → Option ℕ → AlertStatus → ℕ
alert_counts vault account_id status =
    count_if (view_matches account_id (some status)) (joined vault.emails vault.alerts)

-- `changes`, by the target.
unfoldable pub changed : AlertStatus → Stamp → Alert → Alert
changed acknowledged at a = record a {
  status = acknowledged;
  updated_at = at;
  acknowledged_at = some at;
}
changed open_alert at a = record a {
  status = open_alert;
  updated_at = at;
  acknowledged_at = none;
  closed_at = none;
}
changed resolved at a = record a { status = resolved; updated_at = at; closed_at = some at }
changed false_positive at a = record a {
  status = false_positive;
  updated_at = at;
  closed_at = some at;
}

abbrev pub concurrent_message : String
concurrent_message = "the alert was changed by someone else; reload and retry"

-- The condition of the UPDATE.
abbrev pub is_current : ℕ → AlertStatus → Alert → Bool
is_current id current a = (a.id == id) && alert_status_eq a.status current

abbrev pub move : Vault → ℕ → AlertStatus → AlertStatus → Stamp → Result Vault
move vault id current target at = do
  next ← transition current target
  require (count_if (is_current id current) vault.alerts == 1)
      (invalid_transition concurrent_message)
  ok (record vault { alerts = update (is_current id current) (changed target at) vault.alerts })

abbrev pub move_found :
    Vault → ℕ → Option Alert → AlertStatus → Stamp → Result (Vault × Option AlertView)
move_found vault id none target at = ok (vault, none)
move_found vault id (some a) target at = do
  after ← move vault id a.status target at
  ok (after, get_alert after id)

unfoldable pub set_alert_status : Vault → ℕ → AlertStatus → ℕ → Result (Vault × Option AlertView)
set_alert_status vault id target now =
    move_found vault id (first? (λ (a : Alert). a.id == id) vault.alerts) target (stamp now)

-- Emails with no analysis: the outer join has one row for each of them, with no analysis id.
abbrev pub is_missing : List Analysis → ℕ → Email → Bool
is_missing analyses after_id e = not (any (analysis_of e.id) analyses) && ltb after_id e.id

abbrev pub is_stale : List Analysis → String → ℕ → Email → Bool
is_stale analyses version after_id e =
    any (λ (a : Analysis). analysis_of e.id a && not (str_eq a.rules_version version)) analyses
    && ltb after_id e.id

-- The rows of the queries are the emails themselves; the caller reads their id and eml_path.
unfoldable pub emails_missing_analysis : Vault → ℕ → ℕ → List Email
emails_missing_analysis vault after_id limit =
    take limit (sort_by email_key (select (is_missing vault.analyses after_id) vault.emails))

-- An email has at most one analysis, so the join has at most one row for it.
unfoldable pub emails_with_stale_analysis : Vault → String → ℕ → ℕ → List Email
emails_with_stale_analysis vault version after_id limit =
    take limit (sort_by email_key (select (is_stale vault.analyses version after_id) vault.emails))
