-- ===== src/Alerts/Tests.antt =====
-- Alerts of concrete assessments, and the theorems at concrete inputs.

use heron_mail.Prelude.{[], map, refl, some, ◌∷◌, ◌≡◌}
use heron_mail.Alerts.{Action, build_alert, clean_subject, draft, recommend_actions}
use heron_mail.Rules.{Finding, high}
use heron_mail.Scoring.{Assessment, assess, default_config, points}

abbrev pub link_finding : Finding
link_finding = record {
  rule_id = "link.text_mismatch";
  severity = high;
  title = "Link text differs";
  detail = "";
  evidence = [];
}

abbrev pub spoof_finding : Finding
spoof_finding = record {
  rule_id = "auth.dmarc_fail";
  severity = high;
  title = "Sender check failed";
  detail = "";
  evidence = [];
}

abbrev pub flagged : Assessment
flagged =
    assess (λ s. "0") (record { findings = link_finding ∷ spoof_finding ∷ []; errors = [] }) []
      default_config

phishing_actions :
    map (λ (x : Action). x.id) (recommend_actions flagged)
    ≡ "no_click_no_open" ∷ "dont_reply" ∷ "verify_sender" ∷ "type_the_address"
      ∷ "if_credentials_entered" ∷ "report_and_delete" ∷ []
unfolding recommend_actions assess points
phishing_actions = refl

cleaned_title : clean_subject "Hi\tthere  you " ≡ "Hi there you"
unfolding clean_subject
cleaned_title = refl

abbrev drafted : build_alert flagged "Hi" ≡ some (draft flagged "Hi")
unfolding build_alert assess points
drafted = refl
