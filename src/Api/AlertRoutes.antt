-- ===== src/Api/AlertRoutes.antt =====
-- src/heron/api/alerts.py.
pub mod Changes
use heron_mail.Prelude.{Bool, List, Option, String, map, ℕ}
use heron_mail.Result.{Error, Result, err, http_exception, invalid_transition, ok, ◌>>=◌, ◌>>◌}
use heron_mail.Alerts.{Action, AlertStatus}
use heron_mail.Analyses.{AlertView, alert_counts, get_alert, list_alerts, set_alert_status}
use heron_mail.Api.{found_or, require_mailbox}
use heron_mail.Models.{Vault}
use heron_mail.Rules.{Severity}
use heron_mail.Scoring.{Reason, Verdict}
use heron_mail.Timeutil.{Stamp}

pub record ActionOut : Type 0 where
  pub id : String
  pub title : String
  pub detail : String

-- `AlertOut`
pub record AlertOut : Type 0 where
  pub id : ℕ
  pub email_id : ℕ
  pub account_id : ℕ
  pub status : AlertStatus
  pub severity : Severity
  pub verdict : Verdict
  pub score : ℕ
  pub title : String
  pub summary : String
  pub rules_version : String
  pub created_at : Stamp
  pub updated_at : Stamp
  pub acknowledged_at : Option Stamp
  pub closed_at : Option Stamp
  pub email_subject : Option String
  pub from_address : Option String
  pub internal_date : Stamp

-- `AlertDetailOut`: what it adds.
pub record AlertDetailOut : Type 0 where
  pub alert : AlertOut
  pub reasons : List Reason
  pub actions : List ActionOut
  pub complete : Bool

abbrev pub alert_out : AlertView → AlertOut
alert_out v = record {
  id = v.alert.id;
  email_id = v.alert.email_id;
  account_id = v.account_id;
  status = v.alert.status;
  severity = v.alert.severity;
  verdict = v.alert.verdict;
  score = v.alert.score;
  title = v.alert.title;
  summary = v.alert.summary;
  rules_version = v.alert.rules_version;
  created_at = v.alert.created_at;
  updated_at = v.alert.updated_at;
  acknowledged_at = v.alert.acknowledged_at;
  closed_at = v.alert.closed_at;
  email_subject = v.email_subject;
  from_address = v.from_address;
  internal_date = v.internal_date;
}

-- `_detail`: the stored details always have the three keys.
unfoldable pub detail : AlertView → AlertDetailOut
detail v = record {
  alert = alert_out v;
  reasons = v.alert.details.reasons;
  actions =
      map (λ (a : Action). record { id = a.id; title = a.title; detail = a.detail })
        v.alert.details.actions;
  complete = v.alert.details.complete;
}

abbrev pub alert_missing : Error
alert_missing = http_exception 404 "Alert not found"

unfoldable pub list_all_alerts :
    Vault → Option ℕ → Option AlertStatus → ℕ → ℕ → Result (List AlertOut)
unfolding require_mailbox
list_all_alerts vault mailbox_id status limit offset =
    require_mailbox vault mailbox_id
    >> ok (map alert_out (list_alerts vault mailbox_id status limit offset))

unfoldable pub read_alert_counts : Vault → Option ℕ → Result (AlertStatus → ℕ)
unfolding require_mailbox
read_alert_counts vault mailbox_id =
    require_mailbox vault mailbox_id >> ok (alert_counts vault mailbox_id)

unfoldable pub read_alert : Vault → ℕ → Result AlertDetailOut
unfolding detail
read_alert vault id = found_or alert_missing (get_alert vault id) >>= λ v. ok (detail v)

-- `except InvalidTransition as exc: raise HTTPException(status_code=409, detail=str(exc))`
abbrev pub transition_conflict {ℓ} : {A : Type ℓ} → Result A → Result A
transition_conflict (ok a) = ok a
transition_conflict (err (invalid_transition m)) = err (http_exception 409 m)
transition_conflict (err e) = err e

-- A call that raises 404 has changed nothing, since no row had the id.
unfoldable pub change_alert_status : Vault → ℕ → AlertStatus → ℕ → Result (Vault × AlertDetailOut)
unfolding detail
change_alert_status vault id target now = do
  (after, row) ← transition_conflict (set_alert_status vault id target now)
  v ← found_or alert_missing row
  ok (after, detail v)
