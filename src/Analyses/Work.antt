-- ===== src/Analyses/Work.antt =====
-- The emails that are still to be analysed, src/heron/core/analysis_storage.py.
use heron_mail.Prelude.{
  All, All-selected, All-sort_by, All-take, IsSortedBy, Pairwise-take, length, length-take-le,
  select, sort_by, sort_by-IsSortedBy, true, ℕ, ◌≡◌, ◌≤◌,
}
use heron_mail.Analyses.{emails_missing_analysis, is_missing}
use heron_mail.Models.{Vault}
use heron_mail.Storage.{email_key}

-- The query returns emails without an analysis and with an id after the given one, in the order of their
-- ids and at most as many as asked for.
pub emails_missing_analysis_lem :
    (vault : Vault) (after_id limit : ℕ)
    → All
        (λ e. is_missing vault.analyses after_id e ≡ true)
        (emails_missing_analysis vault after_id limit)
      × IsSortedBy email_key (emails_missing_analysis vault after_id limit)
      × (length (emails_missing_analysis vault after_id limit) ≤ limit)
unfolding emails_missing_analysis
emails_missing_analysis_lem vault after_id limit =
    let missing = is_missing vault.analyses after_id in
    let ordered = sort_by email_key (select missing vault.emails) in
    (
      All-take (λ e. missing e ≡ true) limit ordered
          (All-sort_by email_key (λ e. missing e ≡ true) (select missing vault.emails)
            (All-selected missing vault.emails)),
      Pairwise-take (λ x y. email_key x ≤ email_key y) limit ordered
          (sort_by-IsSortedBy email_key (select missing vault.emails)),
      length-take-le limit ordered,
    )
