-- ===== src/Alerts/Actions.antt =====
-- Drafting an alert, `build_alert` and `recommend_actions` of src/heron/analysis/alerts.py.
use mathlib.Core.List.{Perm}
use mathlib.Core.Option
use heron_mail.Prelude.{
  Bool-cases, IsSortedBy, String, any, any-select, any-sort_by, arith, ascending, inl, inr, none,
  refl, select, some, sort_by-IsSortedBy, sort_with-perm, str_eq, subst, true, ◌&&◌, ◌↔◌, ◌∙◌, ◌≡◌,
}
use heron_mail.Alerts.{
  Action, AlertDraft, all_actions, build_alert, priority_of, recommend_actions, should_alert,
  wanted,
}
use heron_mail.Rules.{high}
use heron_mail.Scoring.{Assessment, clean, is_complete, phishing}
use heron_mail.Text.{has_text}

reports_first :
    (a : Assessment)
    → any (λ (x : Action). str_eq x.id "report_and_delete" && has_text x.id (wanted a)) all_actions
      ≡ true
unfolding all_actions wanted
reports_first a = refl

-- The recommended actions are exactly those of the table that the assessment asks for, the most urgent
-- first, and reporting the message is always among them.
pub recommend_actions_lem :
    (a : Assessment)
    → Perm (recommend_actions a) (select (λ (x : Action). has_text x.id (wanted a)) all_actions)
      × IsSortedBy priority_of (recommend_actions a)
      × (any (λ (x : Action). str_eq x.id "report_and_delete") (recommend_actions a) ≡ true)
unfolding recommend_actions
recommend_actions_lem a =
    let asked = select (λ (x : Action). has_text x.id (wanted a)) all_actions in
    (
      sort_with-perm (ascending priority_of) asked,
      sort_by-IsSortedBy priority_of asked,
      any-sort_by priority_of (λ (x : Action). str_eq x.id "report_and_delete") asked
          ∙ any-select (λ (x : Action). str_eq x.id "report_and_delete")
              (λ (x : Action). has_text x.id (wanted a)) all_actions
          ∙ reports_first a,
    )

-- What a draft of an alert says of the assessment it was made from.
pub record Describes (a : Assessment) (d : AlertDraft) : Type 0 where
  pub verdict : d.verdict ≡ a.verdict
  pub score : d.score ≡ a.score
  pub severity : (d.severity ≡ high) ↔ (a.verdict ≡ phishing)
  pub reasons : d.reasons ≡ a.reasons
  pub actions : d.actions ≡ recommend_actions a
  pub complete : d.complete ≡ is_complete a

-- No alert is drafted exactly for a clean verdict.
pub build_alert-none :
    (a : Assessment) (subject : String) → (build_alert a subject ≡ none) ↔ (a.verdict ≡ clean)
unfolding build_alert should_alert
build_alert-none a subject = ground arith

-- A drafted alert has the verdict, the score, the reasons, the recommended actions and the completeness
-- of its assessment, and its severity is high exactly for a verdict of phishing.
pub build_alert-Describes :
    (a : Assessment) (subject : String) (d : AlertDraft)
    → build_alert a subject ≡ some d
    → Describes a d
unfolding build_alert should_alert
build_alert-Describes a subject d e = elim (Bool-cases (should_alert a)) [
  | inl t ↦ subst (Describes a) (Option.some-injective _ _ (rw (t, should_alert) at e)) (record {
    verdict = refl;
    score = refl;
    severity = ground arith;
    reasons = refl;
    actions = refl;
    complete = refl;
  })
  | inr f ↦ cc (rw (f, should_alert) at e)
]
