-- ===== src/Storage/Deletion.antt =====
-- The deletion of accounts, src/heron/core/storage.py, with the foreign keys of src/heron/core/models.py.
use heron_mail.Prelude.{All, Distinct, any, false, map, none, not, select, true, ℕ, ◌==◌, ◌≡◌, ◌≢◌}
use heron_mail.Models.{Account, Alert, Analysis, Email, Job, Segment, Vault}
use heron_mail.Storage.{account_key, delete_account, email_key, get_account, of_email_of}
use heron_mail.Storage.Cascade.{
  account_kept, linked_kept, links_kept, none_left, others_kept, owners_kept,
}
use heron_mail.Storage.Inserts.{first?_absent}

-- After a deletion the account is gone, and so are its emails, jobs and coverage.
pub delete_account_lem :
    (vault : Vault) (account_id : ℕ)
    → (get_account (delete_account vault account_id).0 account_id ≡ none)
      × (any (λ (e : Email). e.account_id == account_id) (delete_account vault account_id).0.emails
          ≡ false)
      × (any (λ (j : Job). j.account_id == account_id) (delete_account vault account_id).0.jobs
          ≡ false)
      × (any
            (λ (s : Segment). s.account_id == account_id)
            (delete_account vault account_id).0.coverage
          ≡ false)
unfolding delete_account get_account
delete_account_lem vault account_id = (
  first?_absent (λ (a : Account). a.id == account_id)
      (select (λ (a : Account). not (a.id == account_id)) vault.accounts)
      (none_left account_key account_id vault.accounts),
  none_left (λ (e : Email). e.account_id) account_id vault.emails,
  none_left (λ (j : Job). j.account_id) account_id vault.jobs,
  none_left (λ (s : Segment). s.account_id) account_id vault.coverage,
)

-- Every email, job and covered segment is of a stored account, and every analysis and alert of a stored
-- email: the foreign keys.
pub record IsLinked (vault : Vault) : Type 0 where
  pub emails :
      All
        (λ (e : Email). any (λ (a : Account). a.id == e.account_id) vault.accounts ≡ true)
        vault.emails
  pub jobs :
      All
        (λ (j : Job). any (λ (a : Account). a.id == j.account_id) vault.accounts ≡ true)
        vault.jobs
  pub coverage :
      All
        (λ (s : Segment). any (λ (a : Account). a.id == s.account_id) vault.accounts ≡ true)
        vault.coverage
  pub analyses :
      All
        (λ (a : Analysis). any (λ (e : Email). e.id == a.email_id) vault.emails ≡ true)
        vault.analyses
  pub alerts :
      All (λ (a : Alert). any (λ (e : Email). e.id == a.email_id) vault.emails ≡ true) vault.alerts

-- What belongs to an account is the same in both vaults.
pub record KeepsAccount (id : ℕ) (before after : Vault) : Type 0 where
  pub account : get_account after id ≡ get_account before id
  pub emails :
      select (λ (e : Email). e.account_id == id) after.emails
      ≡ select (λ (e : Email). e.account_id == id) before.emails
  pub jobs :
      select (λ (j : Job). j.account_id == id) after.jobs
      ≡ select (λ (j : Job). j.account_id == id) before.jobs
  pub coverage :
      select (λ (s : Segment). s.account_id == id) after.coverage
      ≡ select (λ (s : Segment). s.account_id == id) before.coverage
  pub analyses :
      select (λ (a : Analysis). of_email_of id before.emails a.email_id) after.analyses
      ≡ select (λ (a : Analysis). of_email_of id before.emails a.email_id) before.analyses
  pub alerts :
      select (λ (a : Alert). of_email_of id before.emails a.email_id) after.alerts
      ≡ select (λ (a : Alert). of_email_of id before.emails a.email_id) before.alerts

-- Where email ids differ and no foreign key dangles, a deletion removes the account and leaves no foreign
-- key dangling: what belonged to the account went with it. Of every other account all rows stay, its
-- analyses and alerts included.
pub delete_account-IsLinked :
    (vault : Vault) (account_id other : ℕ)
    → other ≢ account_id
    → Distinct (map email_key vault.emails)
    → IsLinked vault
    → (get_account (delete_account vault account_id).0 account_id ≡ none)
      × IsLinked (delete_account vault account_id).0
      × KeepsAccount other vault (delete_account vault account_id).0
unfolding delete_account get_account
delete_account-IsLinked vault account_id other differ d linked = (
  (delete_account_lem vault account_id).0,
  record {
    emails =
        owners_kept (λ (e : Email). e.account_id) account_id vault.accounts vault.emails
          linked.emails;
    jobs = owners_kept (λ (j : Job). j.account_id) account_id vault.accounts vault.jobs linked.jobs;
    coverage =
        owners_kept (λ (s : Segment). s.account_id) account_id vault.accounts vault.coverage
          linked.coverage;
    analyses =
        links_kept (λ (a : Analysis). a.email_id) account_id vault.emails vault.analyses
          linked.analyses;
    alerts =
        links_kept (λ (a : Alert). a.email_id) account_id vault.emails vault.alerts linked.alerts;
  },
  record {
    account = account_kept account_id other vault.accounts differ;
    emails = others_kept (λ (e : Email). e.account_id) account_id other vault.emails differ;
    jobs = others_kept (λ (j : Job). j.account_id) account_id other vault.jobs differ;
    coverage = others_kept (λ (s : Segment). s.account_id) account_id other vault.coverage differ;
    analyses =
        linked_kept (λ (a : Analysis). a.email_id) account_id other vault.emails vault.analyses
          differ d;
    alerts =
        linked_kept (λ (a : Alert). a.email_id) account_id other vault.emails vault.alerts differ d;
  },
)
