-- ===== src/Storage.antt =====
-- src/heron/core/storage.py. An operation returns the tables after it; one that raises changes nothing.
pub mod Inserts
pub mod Reading
pub mod Cascade
pub mod Deletion
pub mod Tests
use heron_mail.Prelude.{
  Bool, List, Option, String, [], any, count_if, false, first?, if◌then◌else◌, leb, length, ltb,
  map, max, min, next_id, none, not, select, some, sort_by, str_eq, true, ℕ, ◌&&◌, ◌++◌, ◌==◌, ◌∷◌,
}
use heron_mail.Result.{Result, err, integrity_error, no_result_found, ok, ◌>>=◌, ◌>>◌}
use heron_mail.Models.{Account, Alert, Analysis, Email, Job, Segment, Vault}
use heron_mail.Timeutil.{DateRange, Datetime, Stamp, day_before, stamp, to_utc_storage_string}

abbrev pub account_key : Account → ℕ
account_key a = a.id

abbrev pub email_key : Email → ℕ
email_key e = e.id

abbrev pub has_address : String → Account → Bool
has_address address a = str_eq a.email_address address

-- `encrypt` is `secret_box.encrypt`; `email_address` is UNIQUE.
unfoldable pub create_account :
    (String → String) → Vault → String → String → String → ℕ → ℕ → Result (Vault × ℕ)
create_account encrypt vault email_address imap_host password imap_port now =
    let id = next_id account_key vault.accounts in
    if any (has_address email_address) vault.accounts
    then err integrity_error
    else ok (
      record vault {
        accounts =
            vault.accounts
            ++ record {
              id = id;
              email_address = email_address;
              imap_host = imap_host;
              imap_port = imap_port;
              encrypted_password = encrypt password;
              created_at = stamp now;
            }
              ∷ [];
      },
      id,
    )

unfoldable pub get_account : Vault → ℕ → Option Account
get_account vault account_id = first? (λ (a : Account). a.id == account_id) vault.accounts

unfoldable pub list_accounts : Vault → List Account
list_accounts vault = sort_by account_key vault.accounts

-- A row of a deleted email goes with it.
abbrev pub of_email_of : ℕ → List Email → ℕ → Bool
of_email_of account_id emails email_id =
    any (λ (e : Email). e.id == email_id && e.account_id == account_id) emails

-- The rows that ON DELETE CASCADE deletes go in the same statement.
unfoldable pub delete_account : Vault → ℕ → Vault × Bool
delete_account vault account_id = (
  record {
    accounts = select (λ (a : Account). not (a.id == account_id)) vault.accounts;
    emails = select (λ (e : Email). not (e.account_id == account_id)) vault.emails;
    jobs = select (λ (j : Job). not (j.account_id == account_id)) vault.jobs;
    coverage = select (λ (s : Segment). not (s.account_id == account_id)) vault.coverage;
    analyses =
        select (λ (a : Analysis). not (of_email_of account_id vault.emails a.email_id))
          vault.analyses;
    alerts =
        select (λ (a : Alert). not (of_email_of account_id vault.emails a.email_id)) vault.alerts;
  },
  count_if (λ (a : Account). a.id == account_id) vault.accounts == 1,
)

-- The arguments of `insert_email_if_new`, the clock's instant among them.
pub record EmailValues : Type 0 where
  pub account_id : ℕ
  pub folder : String
  pub uidvalidity : ℕ
  pub uid : ℕ
  pub content_hash : String
  pub internal_date : Datetime
  pub eml_path : String
  pub message_id : Option String
  pub header_date : Option Datetime
  pub subject : Option String
  pub from_address : Option String
  pub now : ℕ

-- The condition of `select_stmt`: the four columns of `dedup_key`.
abbrev pub same_key : EmailValues → Email → Bool
same_key v e =
    (e.account_id == v.account_id)
    && ((str_eq e.folder v.folder) && ((e.uidvalidity == v.uidvalidity) && (e.uid == v.uid)))

-- `to_utc_storage_string(header_date) if header_date else None`
abbrev pub header_stamp : Option Datetime → Result (Option Stamp)
header_stamp none = ok none
header_stamp (some d) = to_utc_storage_string d >>= λ s. ok (some s)

abbrev pub email_row : EmailValues → ℕ → Stamp → Option Stamp → Email
email_row v id internal header = record {
  id = id;
  account_id = v.account_id;
  folder = v.folder;
  uidvalidity = v.uidvalidity;
  uid = v.uid;
  message_id = v.message_id;
  content_hash = v.content_hash;
  internal_date = internal;
  header_date = header;
  subject = v.subject;
  from_address = v.from_address;
  eml_path = v.eml_path;
  created_at = stamp v.now;
}

-- INSERT ... ON CONFLICT DO NOTHING, and whether a row was inserted.
abbrev pub insert_row : Vault → EmailValues → Stamp → Option Stamp → Result (Vault × Bool)
insert_row vault v internal header =
    if any (same_key v) vault.emails
    then ok (vault, false)
    else if any (λ (a : Account). a.id == v.account_id) vault.accounts
    then ok (
      record vault {
        emails = vault.emails ++ email_row v (next_id email_key vault.emails) internal header ∷ [];
      },
      true,
    )
    else err integrity_error

-- `scalar_one()` of the row's id.
abbrev pub scalar_one : Option Email → Result ℕ
scalar_one none = err no_result_found
scalar_one (some e) = ok e.id

unfoldable pub insert_email_if_new : Vault → EmailValues → Result (Vault × (ℕ × Bool))
insert_email_if_new vault v = do
  internal ← to_utc_storage_string v.internal_date
  header ← header_stamp v.header_date
  (after, inserted) ← insert_row vault v internal header
  row_id ← scalar_one (first? (same_key v) after.emails)
  ok (after, (row_id, inserted))

abbrev pub internal_date_of : Email → Stamp
internal_date_of e = e.internal_date

-- The storage strings compare as the seconds that they stand for.
abbrev pub is_in_range : ℕ → DateRange → Email → Bool
is_in_range account_id r e =
    (e.account_id == account_id)
    && (leb (stamp r.start) e.internal_date && ltb e.internal_date (stamp r.end))

unfoldable pub get_emails_in_range : Vault → ℕ → DateRange → List Email
get_emails_in_range vault account_id r =
    sort_by internal_date_of (select (is_in_range account_id r) vault.emails)

pub record Stats : Type 0 where
  pub total_emails : ℕ
  pub emails_last_24h : ℕ
  pub oldest_internal_date : Option Stamp
  pub newest_internal_date : Option Stamp

abbrev pub of_account : Option ℕ → Email → Bool
of_account none e = true
of_account (some a) e = e.account_id == a

abbrev pub min_of : List ℕ → Option ℕ
min_of [] = none
min_of (n ∷ ns) = elim (min_of ns) [ none ↦ some n | some m ↦ some (min n m) ]

abbrev pub max_of : List ℕ → Option ℕ
max_of [] = none
max_of (n ∷ ns) = elim (max_of ns) [ none ↦ some n | some m ↦ some (max n m) ]

unfoldable pub get_stats : Vault → Option ℕ → ℕ → Result Stats
get_stats vault account_id now = do
  cutoff ← day_before now
  let scoped = select (of_account account_id) vault.emails
  ok (record {
    total_emails = length scoped;
    emails_last_24h = count_if (λ (e : Email). leb (stamp cutoff) e.internal_date) scoped;
    oldest_internal_date = min_of (map internal_date_of scoped);
    newest_internal_date = max_of (map internal_date_of scoped);
  })
