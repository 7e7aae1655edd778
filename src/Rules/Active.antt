-- ===== src/Rules/Active.antt =====
-- The list RULES of src/heron/rules/registry.py.
pub mod Advice
use heron_mail.Prelude.{List, Option, String, [], ◌∷◌}
use heron_mail.Result.{Result, ok}
use heron_mail.Rules.{Rule}
use heron_mail.Rules.Attachments.{check_attachments}
use heron_mail.Rules.Authentication.Headers.{check_authentication}
use heron_mail.Rules.DisplayName.{check_display_name}
use heron_mail.Rules.LinkText.{check_link_text}
use heron_mail.Rules.ReplyTo.{check_reply_to}
use heron_mail.Strings.{Unicode}

module _ (unicode : Unicode) (hostname : String → Result (Option String)) where
  -- The rules that do not raise are lifted to those that may.
  abbrev pub active_rules : List Rule
  active_rules =
      record { id = "auth"; version = 1; check = λ ctx. ok (check_authentication unicode ctx) }
      ∷ record { id = "reply_to"; version = 1; check = λ ctx. ok (check_reply_to unicode ctx) }
      ∷ record { id = "display_name"; version = 1; check = check_display_name unicode hostname }
      ∷ record { id = "link"; version = 1; check = check_link_text unicode hostname }
      ∷ record { id = "attachment"; version = 1; check = λ ctx. ok (check_attachments unicode ctx) }
      ∷ []
