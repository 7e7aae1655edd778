-- ===== src/Rules/Authentication/Topmost.antt =====
-- Which headers the authentication rule trusts, and when it is silent, src/heron/rules/authentication.py.
use mathlib.Core.List.{head?}
use heron_mail.Prelude.{
  Bool, Bool-cases, List, Option, String, [], ap, ap₂, arith, false, inl, inr, is_some, length, ltb,
  map, none, not, refl, select, select-append, some, str_eq, true, ◌&&◌, ◌++◌, ◌||◌, ◌∙◌, ◌∷◌, ◌≡◌,
}
use heron_mail.Email.{header_values}
use heron_mail.Rules.{Finding, RuleContext}
use heron_mail.Rules.Authentication.{
  AuthOutcome, best, dkim_findings, dmarc_findings, judge, passed, results_of, says, spf_findings,
  unless_passed,
}
use heron_mail.Rules.Authentication.Headers.{check_authentication, outcome, outcome_of, topmost}
use heron_mail.Strings.{Unicode}

map-append {ℓ κ} :
    {A : Type ℓ} {B : Type κ} (f : A → B) (xs ys : List A) → map f (xs ++ ys) ≡ map f xs ++ map f ys
map-append f [] ys = refl
map-append f (x ∷ xs) ys = ap (λ l. f x ∷ l) (map-append f xs ys)

head-append {ℓ} :
    {A : Type ℓ} (xs ys : List A) → ltb 0 (length xs) ≡ true → head? (xs ++ ys) ≡ head? xs
head-append [] ys h = cc
head-append (x ∷ xs) ys h = refl

head-none {ℓ} :
    {A : Type ℓ} (xs ys : List A) → ltb 0 (length ys) ≡ false → head? (xs ++ ys) ≡ head? xs
head-none [] [] h = refl
head-none [] (y ∷ ys) h = absurd (ground arith)
head-none (x ∷ xs) ys h = refl

abbrev pub finds_any : List Finding → Bool
finds_any fs = ltb 0 (length fs)

finds_any-append : (xs ys : List Finding) → finds_any (xs ++ ys) ≡ (finds_any xs || finds_any ys)
finds_any-append [] ys = refl
finds_any-append (x ∷ xs) ys = ground arith

-- Some check passed, and none failed.
abbrev pub is_fine : AuthOutcome → Bool
is_fine o =
    passed o
    && not (says o.dmarc "fail")
    && not (says o.spf "fail")
    && not (says o.spf "softfail")
    && not (says o.dkim "fail")

unsaid : (r : Option String) (s : String) → is_some r ≡ false → says r s ≡ false
unsaid none s h = refl
unsaid (some r) s h = cc

module _ (o : AuthOutcome) where
  dmarc_found : finds_any (dmarc_findings o) ≡ says o.dmarc "fail"
  unfolding dmarc_findings
  dmarc_found = elim (Bool-cases (says o.dmarc "fail")) [ inl e ↦ rw e | inr e ↦ rw e ]

  dkim_found : finds_any (dkim_findings o) ≡ says o.dkim "fail"
  unfolding dkim_findings
  dkim_found = elim (Bool-cases (says o.dkim "fail")) [ inl e ↦ rw e | inr e ↦ rw e ]

  spf_found : finds_any (spf_findings o) ≡ (says o.spf "fail" || says o.spf "softfail")
  unfolding spf_findings
  spf_found = elim (Bool-cases (says o.spf "fail")) [
    | inl e ↦ rw e
    | inr e ↦ rw e (elim (Bool-cases (says o.spf "softfail")) [ inl f ↦ rw f | inr f ↦ rw f ])
  ]

  unless_found :
      (fs : List Finding) → finds_any (unless_passed o fs) ≡ (finds_any fs || not (passed o))
  unfolding unless_passed
  unless_found [] = elim (Bool-cases (passed o)) [ inl e ↦ rw e | inr e ↦ rw e ]
  unless_found (f ∷ fs) = ground arith

  nothing_passed : is_some o.spf ≡ false → o.dkim ≡ none → o.dmarc ≡ none → passed o ≡ false
  nothing_passed k a b =
      let c = ap (λ x. says x "pass") a in
      let d = ap (λ x. says x "pass") b in let e = unsaid o.spf "pass" k in ground (arith, c, d, e)

  judge_silent :
      (is_some o.spf ≡ false → o.has_header ≡ false → passed o ≡ false)
      → finds_any (judge o) ≡ not (is_fine o)
  unfolding judge
  judge_silent silent = elim (Bool-cases (not o.has_header && not (is_some o.spf))) [
    | inl e ↦ rw e (ground (arith, silent))
    | inr e ↦ rw e (
        unless_found (dmarc_findings o ++ spf_findings o ++ dkim_findings o)
        ∙ ap (λ b. b || not (passed o))
            (finds_any-append (dmarc_findings o ++ spf_findings o) (dkim_findings o)
              ∙ ap₂ (λ a b. a || b)
                  (finds_any-append (dmarc_findings o) (spf_findings o)
                    ∙ ap₂ (λ a b. a || b) dmarc_found spf_found)
                  dkim_found)
        ∙ ground arith)
  ]

module _ (unicode : Unicode) where
  -- The message with other headers.
  abbrev pub with_headers : List (String × String) → RuleContext → RuleContext
  with_headers headers ctx = record ctx { email = record (ctx.email) { headers = headers } }

  abbrev pub has_header : String → RuleContext → Bool
  has_header name ctx = ltb 0 (length (header_values unicode name ctx.email))

  header_values-append :
      (name : String) (ctx : RuleContext) (above below : List (String × String))
      → header_values unicode name (with_headers (above ++ below) ctx).email
        ≡ header_values unicode name (with_headers above ctx).email
          ++ header_values unicode name (with_headers below ctx).email
  unfolding header_values
  header_values-append name ctx above below =
      ap (map (λ (h : String × String). h.1)) (
        select-append (λ (h : String × String). str_eq (unicode.lower h.0) (unicode.lower name))
          above below)
      ∙ map-append (λ (h : String × String). h.1)
          (select (λ (h : String × String). str_eq (unicode.lower h.0) (unicode.lower name)) above)
          (select (λ (h : String × String). str_eq (unicode.lower h.0) (unicode.lower name)) below)

  -- Headers below an Authentication-Results header change no finding of the rule, if none of them is a
  -- Received-SPF header: a result that the sender wrote into the message counts for nothing.
  pub check_authentication_below :
      (ctx : RuleContext) (above below : List (String × String))
      → has_header "Authentication-Results" (with_headers above ctx) ≡ true
      → has_header "Received-SPF" (with_headers below ctx) ≡ false
      → check_authentication unicode (with_headers (above ++ below) ctx)
        ≡ check_authentication unicode (with_headers above ctx)
  unfolding check_authentication outcome header_values
  check_authentication_below ctx above below h k =
      let values = λ (name : String) (headers : List (String × String)).
        header_values unicode name (with_headers headers ctx).email in
      ap₂ (λ r s. judge (outcome_of unicode r s))
        (ap head? (header_values-append "Authentication-Results" ctx above below)
          ∙ head-append (values "Authentication-Results" above)
              (values "Authentication-Results" below) h)
        (ap head? (header_values-append "Received-SPF" ctx above below)
          ∙ head-none (values "Received-SPF" above) (values "Received-SPF" below) k)

  without_header :
      (header : Option String)
      → is_some header ≡ false
      → (best (results_of "dkim" (topmost unicode header).results) ≡ none)
        × (best (results_of "dmarc" (topmost unicode header).results) ≡ none)
  unfolding topmost best results_of
  without_header none h = (refl, refl)
  without_header (some value) h = cc

  -- The rule finds nothing exactly where SPF, DKIM or DMARC passed, and DMARC and DKIM did not fail, and
  -- SPF failed neither hard nor soft.
  pub check_authentication_silent :
      (ctx : RuleContext)
      → finds_any (check_authentication unicode ctx) ≡ not (is_fine (outcome unicode ctx.email))
  unfolding check_authentication outcome header_values
  check_authentication_silent ctx =
      let values = λ (name : String). header_values unicode name ctx.email in
      let header = head? (values "Authentication-Results") in
      let spf_header = head? (values "Received-SPF") in
      judge_silent (outcome_of unicode header spf_header) (λ k h.
        let (a, b) = without_header header h in
        nothing_passed (outcome_of unicode header spf_header) k a b)
