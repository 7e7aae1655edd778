-- ===== src/Analyses/Tests.antt =====
-- A vault with one email, and the theorems at concrete inputs.
use heron_mail.Prelude.{Distinct, [], map, none, refl, some, take, ◌∷◌, ◌≡◌}
use heron_mail.Result.{ok}
use heron_mail.Alerts.{
  acknowledged, build_alert, can_transition, draft, false_positive, recommend_actions, resolved,
  transition,
}
use heron_mail.Analyses.{
  alert_key, alert_row, analysis_row, changed, get_alert, record_assessment, refresh,
  refresh_analysis, set_alert_status, upsert_alert, view,
}
use heron_mail.Analyses.Lifecycle.{IsSound, record_result, run_calls, run_calls-IsSound, set_status}
use heron_mail.Analyses.Recording.{handling, record_assessment-handling}
use heron_mail.Models.{Alert, Analysis, Email, Vault}
use heron_mail.Scoring.{Assessment, phishing}
use heron_mail.Storage.{email_row}
use heron_mail.Storage.Tests.{values, with_email}

abbrev pub assessment : Assessment
assessment = record {
  score = 70;
  verdict = phishing;
  reasons = [];
  headline = "Likely phishing";
  rules_version = "s1-0";
  rule_errors = [];
}

abbrev pub alert : Alert
alert = alert_row 1 1 (draft assessment "Hi") 5

abbrev analysis : Analysis
analysis = analysis_row 1 1 assessment 5

abbrev pub recorded : Vault
recorded = record with_email { analyses = analysis ∷ []; alerts = alert ∷ [] }

records_result : record_assessment with_email 1 assessment "Hi" 5_000_000 ≡ ok (recorded, some 1)
unfolding record_assessment upsert_alert build_alert recommend_actions
records_result = refl

-- The alert after a person has marked it as a false positive, and the vault then.
abbrev marked : Vault
marked = record recorded {
  alerts = record alert { status = false_positive; updated_at = 6; closed_at = some 6 } ∷ [];
}

abbrev alert_distinct : Distinct (map alert_key recorded.alerts)
alert_distinct = (refl, tt)

abbrev marked_email : Email
marked_email = email_row values 1 100 none

marks_alert :
    set_alert_status recorded 1 false_positive 6_000_000
    ≡ ok (
      marked,
      some (
          view
            (record alert { status = false_positive; updated_at = 6; closed_at = some 6 })
            marked_email),
    )
unfolding set_alert_status transition can_transition changed get_alert build_alert
marks_alert = refl

abbrev rescored : Vault
rescored = record marked {
  analyses = refresh_analysis assessment 9 analysis ∷ [];
  alerts =
      refresh (draft assessment "Hi") 9
        (record alert { status = false_positive; updated_at = 6; closed_at = some 6 })
      ∷ [];
}

rescores : record_assessment marked 1 assessment "Hi" 9_000_000 ≡ ok (rescored, some 1)
unfolding record_assessment upsert_alert build_alert recommend_actions
rescores = refl

record_assessment-handling_example :
    map handling (take 1 rescored.alerts) ≡ map handling marked.alerts
record_assessment-handling_example =
    record_assessment-handling marked rescored 1 assessment "Hi" 9_000_000 (some 1) rescores

run_calls-IsSound_example : IsSound (
    run_calls with_email (
      record_result 1 assessment "Hi" 5
      ∷ set_status 1 resolved 6
      ∷ set_status 1 acknowledged 7
      ∷ []))
run_calls-IsSound_example =
    run_calls-IsSound with_email
      (record_result 1 assessment "Hi" 5
        ∷ set_status 1 resolved 6
        ∷ set_status 1 acknowledged 7
        ∷ [])
      (record { alert_ids = tt; alert_emails = tt; analysis_emails = tt; consistent = tt })
