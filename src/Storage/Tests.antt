-- ===== src/Storage/Tests.antt =====
-- A vault with two accounts, and the theorems at concrete inputs.
use heron_mail.Prelude.{String, [], any, arith, none, refl, some, true, ℕ, ◌∷◌, ◌≡◌}
use heron_mail.Result.{ok}
use heron_mail.Alerts.{draft}
use heron_mail.Analyses.{alert_row, analysis_row}
use heron_mail.Models.{Account, Vault}
use heron_mail.Scoring.{Assessment, phishing}
use heron_mail.Storage.{
  EmailValues, create_account, delete_account, email_row, get_account, get_emails_in_range,
  insert_email_if_new, same_key,
}
use heron_mail.Storage.Deletion.{IsLinked, KeepsAccount, delete_account-IsLinked}
use heron_mail.Storage.Inserts.{IsDeduplicated, insert_email_if_new-IsDeduplicated}
use heron_mail.Storage.Reading.{insert_email_if_new-get_emails_in_range}
use heron_mail.Timeutil.{DateRange, aware, in_range, to_utc_storage_string}

abbrev pub account : ℕ → String → Account
account id address = record {
  id = id;
  email_address = address;
  imap_host = "imap.example.com";
  imap_port = 993;
  encrypted_password = "sealed";
  created_at = 5;
}

abbrev pub two_accounts : Vault
two_accounts = record {
  accounts = account 1 "a@example.com" ∷ account 2 "b@example.com" ∷ [];
  emails = [];
  jobs = [];
  coverage = [];
  analyses = [];
  alerts = [];
}

-- A message that arrived at second 100.
abbrev pub values : EmailValues
values = record {
  account_id = 1;
  folder = "INBOX";
  uidvalidity = 7;
  uid = 40;
  content_hash = "ab12";
  internal_date = aware 100_000_000;
  eml_path = "ab/ab12.eml";
  message_id = none;
  header_date = none;
  subject = some "Hi";
  from_address = none;
  now = 200_000_000;
}

abbrev pub with_email : Vault
with_email = record two_accounts { emails = email_row values 1 100 none ∷ [] }

stores_email : insert_email_if_new two_accounts values ≡ ok (with_email, (1, true))
unfolding insert_email_if_new to_utc_storage_string
stores_email = refl

creates_account :
    create_account (λ s. s) two_accounts "c@example.com" "imap.example.com" "secret" 993 9_000_000
    ≡ ok (
      record two_accounts {
        accounts =
            account 1 "a@example.com"
            ∷ account 2 "b@example.com"
            ∷ record (account 3 "c@example.com") { encrypted_password = "secret"; created_at = 9 }
            ∷ [];
      },
      3,
    )
unfolding create_account
creates_account = refl

insert_email_if_new-IsDeduplicated_example : IsDeduplicated with_email
insert_email_if_new-IsDeduplicated_example =
    insert_email_if_new-IsDeduplicated two_accounts with_email values 1 true stores_email
      (record { ids = tt; keys = tt })

abbrev pub some_range : DateRange
some_range = record { start = 90_000_000; end = 110_000_000 }

insert_email_if_new-get_emails_in_range_example :
    any (same_key values) (get_emails_in_range with_email 1 some_range)
    ≡ in_range some_range 100_000_000
insert_email_if_new-get_emails_in_range_example =
    insert_email_if_new-get_emails_in_range two_accounts with_email values 1 100_000_000 some_range
      stores_email refl refl refl

abbrev scored : Assessment
scored = record {
  score = 70;
  verdict = phishing;
  reasons = [];
  headline = "Likely phishing";
  rules_version = "s1-0";
  rule_errors = [];
}

-- Each of the two accounts has an email with its analysis and alert, and the first has a covered segment.
abbrev two_mailboxes : Vault
two_mailboxes = record two_accounts {
  emails =
      email_row values 1 100 none ∷ record (email_row values 2 100 none) { account_id = 2 } ∷ [];
  coverage =
      record {
        id = 1;
        account_id = 1;
        folder = "INBOX";
        range_start = 0;
        range_end = 9;
        created_at = 9;
      }
      ∷ [];
  analyses = analysis_row 1 1 scored 5 ∷ analysis_row 2 2 scored 5 ∷ [];
  alerts = alert_row 1 1 (draft scored "Hi") 5 ∷ alert_row 2 2 (draft scored "Hi") 5 ∷ [];
}

deletes_first : (delete_account two_mailboxes 1).0.alerts ≡ alert_row 2 2 (draft scored "Hi") 5 ∷ []
unfolding delete_account
deletes_first = refl

delete_account-IsLinked_example :
    (get_account (delete_account two_mailboxes 1).0 1 ≡ none)
    × IsLinked (delete_account two_mailboxes 1).0
    × KeepsAccount 2 two_mailboxes (delete_account two_mailboxes 1).0
delete_account-IsLinked_example =
    delete_account-IsLinked two_mailboxes 1 2 (omega arith) (refl, (refl, tt))
      (record {
        emails = (refl, (refl, tt));
        jobs = tt;
        coverage = (refl, tt);
        analyses = (refl, (refl, tt));
        alerts = (refl, (refl, tt));
      })
