-- ===== src/Rules/Active/Advice.antt =====
-- The findings of the active rules and the actions that src/heron/analysis/alerts.py has for them.
use Prim.Native.Char.{Char}
use heron_mail.Prelude.{
  All, All-append, All-if, All-sort_with, Bool-cases, List, Option, String, [], any, descending,
  if◌then◌else◌, inl, inr, is_some, length, ltb, none, not, refl, some, subst, sym, take, true,
  ◌&&◌, ◌++◌, ◌||◌, ◌∷◌, ◌≡◌,
}
use heron_mail.Result.{Result, bind-ok, err, ok, ok-injective}
use heron_mail.Alerts.{actions_by_prefix, prefix}
use heron_mail.Domains.{registered_domain}
use heron_mail.Email.{Address, AttachmentInfo, domain, extension, extensions, from_address}
use heron_mail.Rules.{Finding, Rule, RuleContext, Severity, collect, medium, run_rules, severity_of}
use heron_mail.Rules.Active.{active_rules}
use heron_mail.Rules.Attachments.{
  archive_extensions, attachment_finding, bidi_findings, check_attachments, check_each, check_one,
  disk_image_extensions, document_looking_extensions, hides_direction, html_extensions,
  is_declared_executable, is_executable, kind_findings, macro_extensions, max_attachments_checked,
  program_finding, program_findings, second_last,
}
use heron_mail.Rules.Authentication.{
  AuthOutcome, dkim_findings, dmarc_findings, judge, passed, says, spf_findings, unless_passed,
}
use heron_mail.Rules.Authentication.Headers.{check_authentication, outcome}
use heron_mail.Rules.DisplayName.{
  Brand, address_mismatch, brand_domains, brand_finding, brand_findings, check_display_name,
  check_sender, claimed_domains, claims_foreign, name_findings, name_words, uses_brand,
}
use heron_mail.Rules.LinkText.{LinkState, check_link_text, check_urls, link_findings}
use heron_mail.Rules.Registry.{collect_found, found_by}
use heron_mail.Rules.ReplyTo.{
  check_reply_to, foreign_replies, mismatch_finding, mismatch_of, reply_findings,
}
use heron_mail.Strings.{Unicode, is_empty}
use heron_mail.Text.{chars, has_text}

-- The table of recommended actions has some for the rule of this finding.
abbrev pub IsAdvised : Finding → Type 0
IsAdvised f = ltb 0 (length (actions_by_prefix (prefix f.rule_id))) ≡ true

module _ (unicode : Unicode) where
  bidi-IsAdvised : (a : AttachmentInfo) → All IsAdvised (bidi_findings unicode a)
  unfolding bidi_findings attachment_finding prefix actions_by_prefix
  bidi-IsAdvised a = All-if IsAdvised (hides_direction a) (_ ∷ []) [] (refl, tt) tt

  program-IsAdvised :
      (a : AttachmentInfo) (looks : Option String) → IsAdvised (program_finding unicode a looks)
  unfolding program_finding attachment_finding prefix actions_by_prefix
  program-IsAdvised a none = refl
  program-IsAdvised a (some looks) =
      elim (Bool-cases (has_text looks document_looking_extensions)) [
        | inl e ↦ rw e refl
        | inr e ↦ rw e refl
      ]

  programs-IsAdvised : (a : AttachmentInfo) → All IsAdvised (program_findings unicode a)
  unfolding program_findings attachment_finding prefix actions_by_prefix
  programs-IsAdvised a =
      All-if IsAdvised (is_executable unicode a) (_ ∷ []) _
        (program-IsAdvised a (second_last (extensions unicode a)), tt)
        (All-if IsAdvised (is_declared_executable a) (_ ∷ []) [] (refl, tt) tt)

  kind-IsAdvised : (a : AttachmentInfo) → All IsAdvised (kind_findings unicode a)
  unfolding kind_findings attachment_finding prefix actions_by_prefix
  kind-IsAdvised a =
      let among = λ (exts : List String). has_text (extension unicode a) exts in
      All-if IsAdvised (among macro_extensions) (_ ∷ []) _ (refl, tt)
        (All-if IsAdvised (among disk_image_extensions) (_ ∷ []) _ (refl, tt)
          (All-if IsAdvised (among html_extensions) (_ ∷ []) _ (refl, tt)
            (All-if IsAdvised (among archive_extensions) (_ ∷ []) [] (refl, tt) tt)))

  each-IsAdvised : (xs : List AttachmentInfo) → All IsAdvised (check_each unicode xs)
  unfolding check_each check_one
  each-IsAdvised [] = tt
  each-IsAdvised (a ∷ xs) =
      All-append IsAdvised (check_one unicode a) (check_each unicode xs)
        (All-append IsAdvised (bidi_findings unicode a ++ program_findings unicode a)
          (kind_findings unicode a)
          (All-append IsAdvised (bidi_findings unicode a) (program_findings unicode a)
            (bidi-IsAdvised a) (programs-IsAdvised a))
          (kind-IsAdvised a))
        (each-IsAdvised xs)

  reply-IsAdvised :
      (sender : Address) (replies : List Address)
      → All IsAdvised (mismatch_of unicode sender replies)
  unfolding mismatch_finding prefix actions_by_prefix
  reply-IsAdvised sender [] = tt
  reply-IsAdvised sender (a ∷ rest) = (refl, tt)

  reply_to-IsAdvised : (ctx : RuleContext) → All IsAdvised (check_reply_to unicode ctx)
  unfolding check_reply_to reply_findings
  reply_to-IsAdvised ctx = of_sender (from_address ctx.email)
    where
      of_sender :
          (sender : Option Address)
          → All IsAdvised
              (elim sender [ none ↦ [] | some s ↦ reply_findings unicode s ctx.email.reply_to ])
      of_sender none = tt
      of_sender (some s) =
          All-if IsAdvised (is_empty (domain s)) [] _ tt
            (reply-IsAdvised s (foreign_replies unicode s ctx.email.reply_to))

  judge-IsAdvised : (o : AuthOutcome) → All IsAdvised (judge o)
  unfolding judge dmarc_findings spf_findings dkim_findings unless_passed prefix actions_by_prefix
  judge-IsAdvised o =
      All-if IsAdvised (not o.has_header && not (is_some o.spf)) (_ ∷ []) _ (refl, tt)
        (after (dmarc_findings o ++ spf_findings o ++ dkim_findings o) (
          All-append IsAdvised (dmarc_findings o ++ spf_findings o) (dkim_findings o)
            (All-append IsAdvised (dmarc_findings o) (spf_findings o)
              (All-if IsAdvised (says o.dmarc "fail") (_ ∷ []) [] (refl, tt) tt)
              (All-if IsAdvised (says o.spf "fail") (_ ∷ []) _ (refl, tt)
                (All-if IsAdvised (says o.spf "softfail") (_ ∷ []) [] (refl, tt) tt)))
            (All-if IsAdvised (says o.dkim "fail") (_ ∷ []) [] (refl, tt) tt)))
    where
      after : (fs : List Finding) → All IsAdvised fs → All IsAdvised (unless_passed o fs)
      after [] h = All-if IsAdvised (passed o) [] (_ ∷ []) tt (refl, tt)
      after (f ∷ fs) h = h

module _ (unicode : Unicode) (hostname : String → Result (Option String)) where
  link-IsAdvised :
      (ctx : RuleContext) (found : List Finding)
      → check_link_text unicode hostname ctx ≡ ok found
      → All IsAdvised found
  unfolding check_link_text link_findings prefix actions_by_prefix
  link-IsAdvised ctx found e =
      let start : LinkState = record { evidence = []; severity = medium } in
      let (t, h, k) =
        bind-ok (check_urls unicode hostname ctx.iocs.urls start) (λ s. ok (link_findings s)) found
          e in
      subst (All IsAdvised) (ok-injective _ _ k) (of_lines t.evidence t.severity)
    where
      of_lines :
          (lines : List String) (severity : Severity)
          → All IsAdvised (link_findings (record { evidence = lines; severity = severity }))
      of_lines [] severity = tt
      of_lines (line ∷ lines) severity = (refl, tt)

  brand-IsAdvised :
      (sender : Address) (org : String) (words : List (List Char)) (brands : List Brand)
      → All IsAdvised (brand_findings unicode sender org words brands)
  unfolding brand_findings brand_finding prefix actions_by_prefix
  brand-IsAdvised sender org words [] = tt
  brand-IsAdvised sender org words (b ∷ brands) =
      All-if IsAdvised (any (uses_brand (chars b.word)) words && not (has_text org b.owned))
        (_ ∷ []) _ (refl, tt) (brand-IsAdvised sender org words brands)

  name-IsAdvised :
      (sender : Address) (claimed : List String)
      → All IsAdvised (name_findings unicode sender claimed)
  unfolding name_findings prefix actions_by_prefix
  name-IsAdvised sender claimed =
      let org = registered_domain unicode (domain sender) in
      let words = name_words (chars (unicode.lower sender.display_name)) in
      let foreign = claims_foreign unicode org claimed in
      All-append IsAdvised (if foreign then address_mismatch sender ∷ [] else [])
        (brand_findings unicode sender org words brand_domains)
        (All-if IsAdvised foreign (address_mismatch sender ∷ []) [] (refl, tt) tt)
        (brand-IsAdvised sender org words brand_domains)

  sender-IsAdvised :
      (sender : Address) (found : List Finding)
      → check_sender unicode hostname sender ≡ ok found
      → All IsAdvised found
  unfolding check_sender
  sender-IsAdvised sender found e =
      elim (Bool-cases (is_empty (domain sender) || is_empty sender.display_name)) [
        | inl t ↦ subst (All IsAdvised) (ok-injective _ _ (rw t at e)) tt
        | inr f ↦
            let (claimed, h, k) =
              bind-ok (claimed_domains unicode hostname sender.display_name)
                (λ claimed. ok (name_findings unicode sender claimed)) found (rw f at e) in
            subst (All IsAdvised) (ok-injective _ _ k) (name-IsAdvised sender claimed)
      ]

  display_name-IsAdvised :
      (ctx : RuleContext) (found : List Finding)
      → check_display_name unicode hostname ctx ≡ ok found
      → All IsAdvised found
  unfolding check_display_name
  display_name-IsAdvised ctx found e = of_sender (from_address ctx.email) e
    where
      of_sender :
          (sender : Option Address)
          → (elim sender [ none ↦ ok [] | some s ↦ check_sender unicode hostname s ]) ≡ ok found
          → All IsAdvised found
      of_sender none h = subst (All IsAdvised) (ok-injective _ _ h) tt
      of_sender (some s) h = sender-IsAdvised s found h

  -- What a rule finds has an action.
  Advises : RuleContext → Rule → Type 0
  Advises ctx rule = (found : List Finding) → rule.check ctx ≡ ok found → All IsAdvised found

  found-IsAdvised :
      (ctx : RuleContext) (rules : List Rule)
      → All (Advises ctx) rules
      → All IsAdvised (found_by ctx rules)
  unfolding found_by Advises
  found-IsAdvised ctx [] h = tt
  found-IsAdvised ctx (rule ∷ rules) h = one (rule.check ctx) h.0 (found-IsAdvised ctx rules h.1)
    where
      one :
          (r : Result (List Finding))
          → ((found : List Finding) → r ≡ ok found → All IsAdvised found)
          → All IsAdvised (found_by ctx rules)
          → All IsAdvised
              (elim r [ ok found ↦ found ++ found_by ctx rules | err e ↦ found_by ctx rules ])
      one (ok found) f rest = All-append IsAdvised found (found_by ctx rules) (f found refl) rest
      one (err e) f rest = rest

  -- Whatever the message is, the table of recommended actions has at least one action for each finding of
  -- the active rules, by the name before the dot of its id.
  pub run_rules-IsAdvised :
      (ctx : RuleContext) → All IsAdvised (run_rules ctx (active_rules unicode hostname)).findings
  unfolding run_rules Advises check_authentication check_attachments
  run_rules-IsAdvised ctx =
      let rules = active_rules unicode hostname in
      All-sort_with (descending severity_of) IsAdvised (collect ctx rules).findings (
        subst (All IsAdvised) (sym (collect_found ctx rules)) (
          found-IsAdvised ctx rules (
            λ found e.
                subst (All IsAdvised) (ok-injective _ _ e)
                  (judge-IsAdvised unicode (outcome unicode ctx.email)),
            (
              λ found e.
                  subst (All IsAdvised) (ok-injective _ _ e) (reply_to-IsAdvised unicode ctx),
              (
                display_name-IsAdvised ctx,
                (
                  link-IsAdvised ctx,
                  (
                    λ found e. subst (All IsAdvised) (ok-injective _ _ e) (
                        each-IsAdvised unicode
                          (take max_attachments_checked ctx.email.attachments)),
                    tt,
                  ),
                ),
              ),
            ),
          )))
