-- ===== src/Scoring.antt =====
-- src/heron/analysis/scoring.py.
use Prim.Native.Nat.{Ordering}
use Prim.Native.String.{compare as compare_text}
pub mod Points
pub mod Verdicts
pub mod Tests
use heron_mail.Prelude.{
  Bool, List, String, [], false, if◌then◌else◌, leb, length, ltb, map, min, select, sort_desc_by,
  sort_with, str_eq, sum, take, true, ℕ, ◌==◌, ◌||◌, ◌∷◌,
}
use heron_mail.Rules.{Finding, Rule, RuleResults, Severity, high, info, low, medium, severity_of}
use heron_mail.Text.{has_text, concat, decimal, join}

pub data Verdict : Type 0 where
  clean suspicious phishing : Verdict

pub record ScoringConfig : Type 0 where
  pub low_points : ℕ
  pub medium_points : ℕ
  pub high_points : ℕ
  pub suspicious_at : ℕ
  pub phishing_at : ℕ
  pub max_score : ℕ

unfoldable pub points : ScoringConfig → Severity → ℕ
points c info = 0
points c low = c.low_points
points c medium = c.medium_points
points c high = c.high_points

abbrev pub default_config : ScoringConfig
default_config = record {
  low_points = 5;
  medium_points = 15;
  high_points = 35;
  suspicious_at = 25;
  phishing_at = 60;
  max_score = 100;
}

pub record Reason : Type 0 where
  pub rule_id : String
  pub severity : Severity
  pub title : String
  pub detail : String
  pub evidence : List String
  pub points : ℕ

pub record Assessment : Type 0 where
  pub score : ℕ
  pub verdict : Verdict
  pub reasons : List Reason
  pub headline : String
  pub rules_version : String
  pub rule_errors : List String

-- `not self.rule_errors`
abbrev pub is_complete : Assessment → Bool
is_complete a = elim a.rule_errors [ [] ↦ true | e ∷ es ↦ false ]

-- The loop of `_score_findings`, with the rule ids that have scored.
unfoldable pub mark : ScoringConfig → List String → List Finding → List Reason
unfolding points
mark config scored [] = []
mark config scored (f ∷ rest) =
    record {
      rule_id = f.rule_id;
      severity = f.severity;
      title = f.title;
      detail = f.detail;
      evidence = f.evidence;
      points = if has_text f.rule_id scored then 0 else points config f.severity;
    }
    ∷ mark config (f.rule_id ∷ scored) rest

abbrev pub points_of : Reason → ℕ
points_of r = r.points

unfoldable pub score_findings : List Finding → ScoringConfig → List Reason
unfolding mark
score_findings findings config =
    sort_desc_by points_of (mark config [] (sort_desc_by severity_of findings))

-- The titles of the first three reasons that scored.
unfoldable pub headline_titles : List Reason → List String
headline_titles reasons =
    take 3 (map (λ (r : Reason). r.title) (select (λ r. ltb 0 (points_of r)) reasons))

abbrev headline_text : Verdict → ℕ → List String → String
headline_text phishing score titles =
    concat ("Likely phishing (score " ∷ decimal score ∷ "): " ∷ join "; " titles ∷ [])
headline_text suspicious score titles =
    concat ("Suspicious (score " ∷ decimal score ∷ "): " ∷ join "; " titles ∷ [])
headline_text clean score [] = "No suspicious signals found."
headline_text clean score (t ∷ ts) =
    concat ("No strong warning signs (score " ∷ decimal score ∷ "): " ∷ join "; " (t ∷ ts) ∷ [])

unfoldable pub headline : Verdict → ℕ → List Reason → ℕ → String
unfolding headline_titles decimal
headline verdict score reasons errors =
    let text = headline_text verdict score (headline_titles reasons) in
    if errors == 0
    then text
    else concat (text ∷ " Analysis incomplete: " ∷ decimal errors ∷ " rule(s) failed." ∷ [])

-- The fingerprint hashes the rules in the order of their ids and the weights. `digest` is the first
-- eight hexadecimal digits of the SHA-256 of a text; `order` sorts the rules by id.
abbrev pub config_text : ScoringConfig → String
config_text c = concat (
    "ScoringConfig(low="
    ∷ decimal c.low_points
    ∷ ", medium="
    ∷ decimal c.medium_points
    ∷ ", high="
    ∷ decimal c.high_points
    ∷ ", suspicious_at="
    ∷ decimal c.suspicious_at
    ∷ ", phishing_at="
    ∷ decimal c.phishing_at
    ∷ ", max_score="
    ∷ decimal c.max_score
    ∷ ")"
    ∷ [])

-- The order of two texts, as in Python's `sorted`.
abbrev not_after : String → String → Bool
not_after s t = elim (compare_text s t) [ Ordering.gt ↦ false | _ ↦ true ]

unfoldable pub rules_version : (String → String) → List Rule → ScoringConfig → String
unfolding decimal
rules_version digest rules config =
    let ordered = sort_with (λ (r s : Rule). not_after r.id s.id) rules in
    let parts = map (λ (r : Rule). concat (r.id ∷ ":" ∷ decimal r.version ∷ [])) ordered in
    concat ("s1-" ∷ digest (concat (join "|" parts ∷ "|" ∷ config_text config ∷ [])) ∷ [])

unfoldable pub verdict_of : ScoringConfig → ℕ → Verdict
verdict_of config score =
    if leb config.phishing_at score
    then phishing
    else if leb config.suspicious_at score
    then suspicious
    else clean

abbrev pub total : List Reason → ℕ
total reasons = sum (map points_of reasons)

unfoldable pub assess : (String → String) → RuleResults → List Rule → ScoringConfig → Assessment
unfolding score_findings verdict_of headline rules_version
assess digest results rules config =
    let reasons = score_findings results.findings config in
    let score = min (total reasons) config.max_score in
    let verdict = verdict_of config score in
    record {
      score = score;
      verdict = verdict;
      reasons = reasons;
      headline = headline verdict score reasons (length results.errors);
      rules_version = rules_version digest rules config;
      rule_errors = results.errors;
    }
