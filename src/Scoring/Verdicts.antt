-- ===== src/Scoring/Verdicts.antt =====
-- `assess` of src/heron/analysis/scoring.py: the score, its bounds and the verdict.
use heron_mail.Prelude.{
  All, Bool-cases, List, String, arith, inl, inr, leb, leb→le, min, refl, subst, ℕ, ◌<◌, ◌≡◌, ◌≢◌,
  ◌≤◌,
}
use heron_mail.Rules.{Finding, Rule, RuleResults, Severity, high, info, low, medium}
use heron_mail.Scoring.{
  ScoringConfig, Verdict, assess, clean, default_config, phishing, points, score_findings,
  suspicious, total, verdict_of,
}
use heron_mail.Scoring.Points.{strongest, total_of_one_rule}

-- What the verdict says of the score, for each verdict.
abbrev pub Says : ScoringConfig → Verdict → ℕ → Type 0
Says config phishing score = config.phishing_at ≤ score
Says config suspicious score = (config.suspicious_at ≤ score) × (score < config.phishing_at)
Says config clean score = (score < config.suspicious_at) × (score < config.phishing_at)

says_lem : (config : ScoringConfig) (score : ℕ) → Says config (verdict_of config score) score
unfolding verdict_of
says_lem config score = elim (Bool-cases (leb config.phishing_at score)) [
  | inl e ↦ rw e (leb→le _ _ e)
  | inr e ↦ elim (Bool-cases (leb config.suspicious_at score)) [
    | inl f ↦ rw (e, f) (ground arith)
    | inr f ↦ rw (e, f) (ground arith)
  ]
]

-- The score is the sum of the reasons' points up to the maximum, and the verdict says between which
-- thresholds it lies: at least the phishing threshold, from the suspicious one to below that, or
-- below both.
pub assess_lem :
    (digest : String → String) (results : RuleResults) (rules : List Rule) (config : ScoringConfig)
    → ((assess digest results rules config).score ≤ config.max_score)
      × ((assess digest results rules config).score
          ≡ min (total (assess digest results rules config).reasons) config.max_score)
      × Says config
          (assess digest results rules config).verdict
          (assess digest results rules config).score
unfolding assess
assess_lem digest results rules config = (
  omega arith,
  refl,
  says_lem config (min (total (score_findings results.findings config)) config.max_score),
)

points-le : (s : Severity) → points default_config s ≤ 35
unfolding points
points-le info = omega arith
points-le low = omega arith
points-le medium = omega arith
points-le high = omega arith

-- With the default weights, findings that all have one rule id, however many and however severe, score
-- at most 35 and are never a verdict of phishing.
pub assess_one_rule :
    (digest : String → String) (results : RuleResults) (rules : List Rule) (id : String)
    → All (λ (f : Finding). f.rule_id ≡ id) results.findings
    → ((assess digest results rules default_config).score ≤ 35)
      × ((assess digest results rules default_config).verdict ≢ phishing)
unfolding assess
assess_one_rule digest results rules id h =
    let few : total (score_findings results.findings default_config) ≤ 35 =
      rw (total_of_one_rule results.findings default_config id h)
        (points-le (strongest id results.findings)) in
    (
      omega arith,
      not_phishing (min (total (score_findings results.findings default_config)) 100) (omega arith),
    )
  where
    not_phishing : (n : ℕ) → n ≤ 35 → verdict_of default_config n ≢ phishing
    not_phishing n le e =
        let says = says_lem default_config n in
        absurd (omega (arith, subst (λ v. Says default_config v n) e says))
