-- ===== src/Rules/Registry.antt =====
-- `run_rules`: no finding is lost, and a rule that raises hides nothing.
use mathlib.Core.List.{Perm}
use heron_mail.Prelude.{
  Bool, Bool-cases, IsSortedDescBy, List, String, [], ap, count_if, descending, false,
  if◌then◌else◌, inl, inr, length, refl, sort_desc_by, sort_desc_by-IsSortedDescBy, sort_with-perm,
  subst, suc, sym, true, ℕ, ◌++◌, ◌∙◌, ◌∷◌, ◌≡◌,
}
use heron_mail.Result.{Error, Result, err, ok}
use heron_mail.Rules.{
  Finding, Rule, RuleContext, RuleResults, collect, collect_one, run_rules, severity_of,
}

-- The findings of the rules that did not raise, rule after rule.
unfoldable pub found_by : RuleContext → List Rule → List Finding
found_by ctx [] = []
found_by ctx (rule ∷ rules) = elim (rule.check ctx) [
  | ok found ↦ found ++ found_by ctx rules
  | err e ↦ found_by ctx rules
]

abbrev raises : RuleContext → Rule → Bool
raises ctx rule = elim (rule.check ctx) [ ok found ↦ false | err e ↦ true ]

module _ (ctx : RuleContext) where
  collect_one-found :
      (id : String) (r : Result (List Finding)) (rest : RuleResults) (more : List Finding)
      → rest.findings ≡ more
      → (collect_one id r rest).findings ≡ (elim r [ ok found ↦ found ++ more | err e ↦ more ])
  unfolding collect_one
  collect_one-found id (ok found) rest more h = ap (λ l. found ++ l) h
  collect_one-found id (err e) rest more h = h

  pub collect_found : (rules : List Rule) → (collect ctx rules).findings ≡ found_by ctx rules
  unfolding collect found_by
  collect_found [] = refl
  collect_found (rule ∷ rules) =
      collect_one-found rule.id (rule.check ctx) (collect ctx rules) (found_by ctx rules)
        (collect_found rules)

  -- The reported findings are those of the rules that did not raise, each as often as it was found,
  -- with the most severe first.
  pub run_rules-perm :
      (rules : List Rule)
      → Perm (run_rules ctx rules).findings (found_by ctx rules)
        × IsSortedDescBy severity_of (run_rules ctx rules).findings
  unfolding run_rules
  run_rules-perm rules = (
    subst (Perm (sort_desc_by severity_of (collect ctx rules).findings)) (collect_found rules)
        (sort_with-perm (descending severity_of) (collect ctx rules).findings),
    sort_desc_by-IsSortedDescBy severity_of (collect ctx rules).findings,
  )

  found_by-raising :
      (before after : List Rule) (rule : Rule) (e : Error)
      → rule.check ctx ≡ err e
      → found_by ctx (before ++ rule ∷ after) ≡ found_by ctx (before ++ after)
  unfolding found_by
  found_by-raising [] after rule e h = rw h
  found_by-raising (r ∷ before) after rule e h =
      one (r.check ctx) (found_by-raising before after rule e h)
    where
      one :
          (x : Result (List Finding))
          → found_by ctx (before ++ rule ∷ after) ≡ found_by ctx (before ++ after)
          → ◌≡◌ {A = List Finding}
              (elim x [
                | ok found ↦ found ++ found_by ctx (before ++ rule ∷ after)
                | err e' ↦ found_by ctx (before ++ rule ∷ after)
              ])
              (elim x [
                | ok found ↦ found ++ found_by ctx (before ++ after)
                | err e' ↦ found_by ctx (before ++ after)
              ])
      one (ok found) ih = ap (λ l. found ++ l) ih
      one (err e') ih = ih

  errors_one :
      (id : String) (r : Result (List Finding)) (rest : RuleResults)
      → length (collect_one id r rest).errors
        ≡ (elim r [ ok found ↦ length rest.errors | err e ↦ suc (length rest.errors) ])
  unfolding collect_one
  errors_one id (ok found) rest = refl
  errors_one id (err e) rest = refl

  length-errors :
      (rules : List Rule) → length (collect ctx rules).errors ≡ count_if (raises ctx) rules
  unfolding collect
  length-errors [] = refl
  length-errors (rule ∷ rules) =
      errors_one rule.id (rule.check ctx) (collect ctx rules)
      ∙ one (rule.check ctx) (length-errors rules)
    where
      one :
          (r : Result (List Finding))
          → length (collect ctx rules).errors ≡ count_if (raises ctx) rules
          → ◌≡◌ {A = ℕ}
              (elim r [
                | ok found ↦ length (collect ctx rules).errors
                | err e ↦ suc (length (collect ctx rules).errors)
              ])
              (if (elim r [ ok found ↦ false | err e ↦ true ])
                then suc (count_if (raises ctx) rules)
                else count_if (raises ctx) rules)
      one (ok found) ih = ih
      one (err e) ih = ap suc ih

  count-raising :
      (before after : List Rule) (rule : Rule) (e : Error)
      → rule.check ctx ≡ err e
      → count_if (raises ctx) (before ++ rule ∷ after)
        ≡ suc (count_if (raises ctx) (before ++ after))
  count-raising [] after rule e h = rw (h, raises)
  count-raising (r ∷ before) after rule e h = elim (Bool-cases (raises ctx r)) [
    | inl t ↦ rw t (ap suc (count-raising before after rule e h))
    | inr f ↦ rw f (count-raising before after rule e h)
  ]

  -- A rule that raises, wherever it stands, adds one error and leaves the findings as they would be
  -- without it.
  pub run_rules_isolated :
      (before after : List Rule) (rule : Rule) (e : Error)
      → rule.check ctx ≡ err e
      → ((run_rules ctx (before ++ rule ∷ after)).findings
          ≡ (run_rules ctx (before ++ after)).findings)
        × (length (run_rules ctx (before ++ rule ∷ after)).errors
            ≡ suc (length (run_rules ctx (before ++ after)).errors))
  unfolding run_rules
  run_rules_isolated before after rule e h = (
    ap (sort_desc_by severity_of) (
        collect_found (before ++ rule ∷ after)
        ∙ found_by-raising before after rule e h
        ∙ sym (collect_found (before ++ after))),
    length-errors (before ++ rule ∷ after)
        ∙ count-raising before after rule e h
        ∙ ap suc (sym (length-errors (before ++ after))),
  )
