-- ===== src/Alerts.antt =====
-- src/heron/analysis/alerts.py.
pub mod Lifecycle
pub mod Actions
pub mod Tests
use Prim.Native.Char.{Char, code}
use heron_mail.Prelude.{
  Bool, List, Option, String, [], false, if◌then◌else◌, leb, length, ltb, map, none, not, select,
  some, sort_by, str_eq, take, true, ℕ, ◌&&◌, ◌++◌, ◌==◌, ◌||◌, ◌∷◌,
}
use heron_mail.Result.{Result, err, invalid_transition, ok}
use heron_mail.Rules.{Severity, high, medium}
use heron_mail.Scoring.{Assessment, Reason, Verdict, clean, headline, is_complete, phishing, points}
use heron_mail.Text.{has_text, chars, collapse, concat, from_chars, rstrip}

pub data AlertStatus : Type 0 where
  open_alert acknowledged resolved false_positive : AlertStatus

-- `target in _TRANSITIONS[current]`
unfoldable pub can_transition : AlertStatus → AlertStatus → Bool
can_transition open_alert acknowledged = true
can_transition open_alert resolved = true
can_transition open_alert false_positive = true
can_transition acknowledged resolved = true
can_transition acknowledged false_positive = true
can_transition resolved open_alert = true
can_transition false_positive open_alert = true
can_transition _ _ = false

-- `status.value`
abbrev pub status_value : AlertStatus → String
status_value open_alert = "open"
status_value acknowledged = "acknowledged"
status_value resolved = "resolved"
status_value false_positive = "false_positive"

unfoldable pub transition : AlertStatus → AlertStatus → Result AlertStatus
unfolding can_transition
transition current target =
    if can_transition current target
    then ok target
    else err (
        invalid_transition (
          concat (
            "cannot move an alert from "
            ∷ status_value current
            ∷ " to "
            ∷ status_value target
            ∷ [])))

pub record Action : Type 0 where
  pub id : String
  pub priority : ℕ
  pub title : String
  pub detail : String

-- The table `_ACTIONS`, in its order.
unfoldable pub all_actions : List Action
all_actions =
    record {
      id = "no_click_no_open";
      priority = 10;
      title = "Don't click links or open attachments";
      detail = "Leave the message alone until you have confirmed it is genuine.";
    }
    ∷ record {
      id = "dont_reply";
      priority = 20;
      title = "Don't reply";
      detail =
          "A reply would go to an address you can't trust, and tells the sender your mailbox is active.";
    }
    ∷ record {
      id = "verify_sender";
      priority = 30;
      title = "Confirm the sender another way";
      detail =
          "If the message might be real, contact the sender using a phone number or website you already know, not anything given in the message.";
    }
    ∷ record {
      id = "check_real_address";
      priority = 35;
      title = "Check the real sender address";
      detail =
          "The name shown as the sender can say anything. Look at the actual address it was sent from.";
    }
    ∷ record {
      id = "type_the_address";
      priority = 40;
      title = "Visit the site yourself";
      detail =
          "If you need to log in or pay, type the website address yourself or use a bookmark instead of the link in the message.";
    }
    ∷ record {
      id = "if_credentials_entered";
      priority = 50;
      title = "If you entered a password";
      detail =
          "Change it now, anywhere else you use it too, and turn on two-factor authentication for the account.";
    }
    ∷ record {
      id = "if_attachment_opened";
      priority = 60;
      title = "If you opened the attachment";
      detail =
          "Disconnect the device from the network, run a full malware scan, and tell whoever looks after your computer or accounts.";
    }
    ∷ record {
      id = "report_and_delete";
      priority = 90;
      title = "Report it and delete it";
      detail = "Use your mail provider's report phishing option, then delete the message.";
    }
    ∷ []

-- `rule_id.split(".")[0]`
unfoldable pub prefix : String → String
prefix String.[] = ""
prefix (String.◌∷◌ c s) = let rest = prefix s in if code c == b'.' then "" else String.◌∷◌ c rest

-- `_ACTIONS_BY_RULE_PREFIX.get(prefix, ())`
unfoldable pub actions_by_prefix : String → List String
actions_by_prefix p =
    if str_eq p "auth"
    then "verify_sender" ∷ []
    else if str_eq p "reply_to"
    then "dont_reply" ∷ "verify_sender" ∷ []
    else if str_eq p "display_name"
    then "check_real_address" ∷ "verify_sender" ∷ []
    else if str_eq p "link"
    then "no_click_no_open" ∷ "type_the_address" ∷ "if_credentials_entered" ∷ []
    else if str_eq p "attachment"
    then "no_click_no_open" ∷ "if_attachment_opened" ∷ []
    else []

-- The set `wanted` as a list, in which an id may stand more than once.
unfoldable pub wanted_for : List Reason → List String
unfolding actions_by_prefix prefix
wanted_for [] = []
wanted_for (r ∷ rest) =
    if ltb 0 r.points
    then actions_by_prefix (prefix r.rule_id) ++ wanted_for rest
    else wanted_for rest

unfoldable pub wanted : Assessment → List String
unfolding wanted_for
wanted a =
    "report_and_delete"
    ∷ ((elim a.verdict [ phishing ↦ "no_click_no_open" ∷ "dont_reply" ∷ [] | _ ↦ [] ])
        ++ wanted_for a.reasons)

abbrev pub priority_of : Action → ℕ
priority_of a = a.priority

-- The actions of the wanted ids. All ids that occur are in the table, so each is looked up.
unfoldable pub recommend_actions : Assessment → List Action
unfolding wanted all_actions
recommend_actions a =
    sort_by priority_of (select (λ (x : Action). has_text x.id (wanted a)) all_actions)

-- `_UNSAFE_CHARS`: control characters and the invisible direction overrides.
abbrev pub is_unsafe : Char → Bool
is_unsafe c =
    let n = code c in
    leb n 0x1f
    || n == 0x7f
    || n == 0x200e
    || n == 0x200f
    || (leb 0x202a n && leb n 0x202e)
    || (leb 0x2066 n && leb n 0x2069)

-- `" ".join(_UNSAFE_CHARS.sub(" ", text).split())`
unfoldable pub one_line : String → List Char
unfolding collapse
one_line s = collapse false false (map (λ c. if is_unsafe c then " " else c) (chars s))

unfoldable pub clean_subject : String → String
unfolding one_line rstrip
clean_subject subject =
    let cleaned = one_line subject in
    elim cleaned [
      | [] ↦ "(no subject)"
      | c ∷ cs ↦
          if ltb 100 (length (c ∷ cs))
          then concat (from_chars (rstrip (take 99 (c ∷ cs))) ∷ "…" ∷ [])
          else from_chars (c ∷ cs)
    ]

pub record AlertDraft : Type 0 where
  pub title : String
  pub severity : Severity
  pub verdict : Verdict
  pub score : ℕ
  pub summary : String
  pub reasons : List Reason
  pub actions : List Action
  pub rules_version : String
  pub complete : Bool

unfoldable pub should_alert : Assessment → Bool
should_alert a = elim a.verdict [ clean ↦ false | _ ↦ true ]

abbrev is_phishing : Assessment → Bool
is_phishing a = elim a.verdict [ phishing ↦ true | _ ↦ false ]

-- The arguments of `AlertDraft(...)` in `build_alert`.
abbrev pub draft : Assessment → String → AlertDraft
draft a subject =
    let label = if is_phishing a then "Likely phishing" else "Suspicious message" in
    record {
      title = concat (label ∷ ": " ∷ clean_subject subject ∷ []);
      severity = if is_phishing a then high else medium;
      verdict = a.verdict;
      score = a.score;
      summary = a.headline;
      reasons = a.reasons;
      actions = recommend_actions a;
      rules_version = a.rules_version;
      complete = is_complete a;
    }

unfoldable pub build_alert : Assessment → String → Option AlertDraft
unfolding should_alert
build_alert a subject = if not (should_alert a) then none else some (draft a subject)
