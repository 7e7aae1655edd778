-- ===== src/Rules/ReplyTo.antt =====
-- src/heron/rules/reply_to.py: a Reply-To at another organisation than From.
use heron_mail.Prelude.{
  Bool, List, String, [], any, if◌then◌else◌, map, none, not, select, some, str_eq, ◌&&◌, ◌∷◌,
}
use heron_mail.Domains.{is_freemail, registered_domain}
use heron_mail.Email.{Address, domain, from_address}
use heron_mail.Rules.{Finding, RuleContext, high, medium}
use heron_mail.Strings.{Unicode, is_empty}
use heron_mail.Text.{concat}

module _ (unicode : Unicode) where
  -- The condition of the comprehension `foreign`.
  unfoldable pub is_foreign : String → Address → Bool
  unfolding domain registered_domain is_empty
  is_foreign sender_org a =
      not (is_empty (domain a)) && not (str_eq (registered_domain unicode (domain a)) sender_org)

  -- The detail of the finding.
  abbrev pub mismatch_detail : Bool → String
  mismatch_detail webmail =
      if webmail
      then "Replies would go to a different domain than the one this message claims to come from. The reply address is on a free webmail service."
      else "Replies would go to a different domain than the one this message claims to come from."

  -- `webmail`
  unfoldable pub is_webmail_reply : Address → List Address → Bool
  unfolding is_freemail domain
  is_webmail_reply sender foreign =
      any (λ (a : Address). is_freemail unicode (domain a)) foreign
      && not (is_freemail unicode (domain sender))

  unfoldable pub mismatch_finding : Address → List Address → Finding
  unfolding is_webmail_reply
  mismatch_finding sender foreign =
      let webmail = is_webmail_reply sender foreign in
      record {
        rule_id = "reply_to.mismatch";
        severity = if webmail then high else medium;
        title = "Reply-To differs from sender";
        detail = mismatch_detail webmail;
        evidence =
            concat ("From: " ∷ sender.address ∷ [])
            ∷ map (λ (a : Address). concat ("Reply-To: " ∷ a.address ∷ [])) foreign;
      }

  -- `return []` on no foreign address, and the finding otherwise.
  abbrev pub mismatch_of : Address → List Address → List Finding
  mismatch_of sender [] = []
  mismatch_of sender (a ∷ rest) = mismatch_finding sender (a ∷ rest) ∷ []

  unfoldable pub foreign_replies : Address → List Address → List Address
  unfolding is_foreign registered_domain domain
  foreign_replies sender replies =
      select (is_foreign (registered_domain unicode (domain sender))) replies

  unfoldable pub reply_findings : Address → List Address → List Finding
  unfolding domain is_empty foreign_replies mismatch_finding
  reply_findings sender replies =
      if is_empty (domain sender) then [] else mismatch_of sender (foreign_replies sender replies)

  unfoldable pub check_reply_to : RuleContext → List Finding
  unfolding from_address reply_findings
  check_reply_to ctx = elim (from_address ctx.email) [
    | none ↦ []
    | some sender ↦ reply_findings sender ctx.email.reply_to
  ]
