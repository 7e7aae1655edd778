-- ===== src/Scoring/Tests.antt =====
-- Scoring on concrete findings, and the theorems at concrete inputs.
use heron_mail.Prelude.{List, String, [], refl, ◌∷◌, ◌≡◌, ◌≢◌, ◌≤◌}
use heron_mail.Rules.{Finding, RuleResults, Severity, high, low}
use heron_mail.Scoring.{assess, default_config, phishing, points, score_findings}
use heron_mail.Scoring.Points.{points_from, score_findings_by_rule, strongest}
use heron_mail.Scoring.Verdicts.{assess_one_rule}

abbrev finding : String → Severity → Finding
finding id severity = record {
  rule_id = id;
  severity = severity;
  title = id;
  detail = "";
  evidence = [];
}

-- Two findings of one rule and one of another.
abbrev some_findings : List Finding
some_findings =
    finding "attachment.archive" low
    ∷ finding "auth.dmarc_fail" high
    ∷ finding "attachment.archive" high
    ∷ []

abbrev some_results : RuleResults
some_results = record { findings = some_findings; errors = "link: ValueError" ∷ [] }

abbrev no_digest : String → String
no_digest s = "00000000"

two_strong_signals : (assess no_digest some_results [] default_config).verdict ≡ phishing
unfolding assess points
two_strong_signals = refl

incomplete_headline :
    (assess no_digest some_results [] default_config).headline
    ≡ "Likely phishing (score 70): auth.dmarc_fail; attachment.archive Analysis incomplete: 1 rule(s) failed."
unfolding assess points
incomplete_headline = refl

score_findings_by_rule_example :
    points_from "attachment.archive" (score_findings some_findings default_config)
    ≡ points default_config (strongest "attachment.archive" some_findings)
score_findings_by_rule_example =
    score_findings_by_rule some_findings default_config "attachment.archive"

abbrev one_rule : RuleResults
one_rule = record { findings = finding "x" high ∷ finding "x" high ∷ []; errors = [] }

assess_one_rule_example :
    ((assess no_digest one_rule [] default_config).score ≤ 35)
    × ((assess no_digest one_rule [] default_config).verdict ≢ phishing)
assess_one_rule_example = assess_one_rule no_digest one_rule [] "x" (refl, (refl, tt))
