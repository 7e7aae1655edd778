-- ===== src/Storage/Reading.antt =====
-- Range queries, src/heron/core/storage.py.
use mathlib.Core.List.{Perm}
use heron_mail.Prelude.{
  ==_refl, Bool, Bool-cases, IsSortedBy, List, Option, [], any, any-append, any-select, any-sort_by,
  ap, arith, ascending, false, first?, inl, inr, leb, ltb, next_id, refl, select, sort_by,
  sort_by-IsSortedBy, sort_with-perm, subst, sym, true, ℕ, ◌%◌, ◌&&◌, ◌++◌, ◌==◌, ◌||◌, ◌∙◌, ◌∷◌,
  ◌≡◌,
}
use heron_mail.Result.{bind-ok, ok, ok-injective}
use heron_mail.Models.{Account, Email, Vault}
use heron_mail.Storage.{
  EmailValues, email_key, email_row, get_emails_in_range, header_stamp, insert_email_if_new,
  insert_row, internal_date_of, is_in_range, same_key, scalar_one,
}
use heron_mail.Storage.Inserts.{same_key_refl}
use heron_mail.Timeutil.{DateRange, Stamp, aware, in_range, second, stamp, to_utc_storage_string}

-- The query returns exactly the stored emails of the account whose date, to the second, is in the
-- range, the oldest first.
pub get_emails_in_range_lem :
    (vault : Vault) (account_id : ℕ) (r : DateRange)
    → Perm (get_emails_in_range vault account_id r) (select (is_in_range account_id r) vault.emails)
      × IsSortedBy internal_date_of (get_emails_in_range vault account_id r)
unfolding get_emails_in_range
get_emails_in_range_lem vault account_id r = (
  sort_with-perm (ascending internal_date_of) (select (is_in_range account_id r) vault.emails),
  sort_by-IsSortedBy internal_date_of (select (is_in_range account_id r) vault.emails),
)

-- In a range whose bounds are whole seconds, comparing the stored dates is comparing the instants.
stamp-in_range :
    (r : DateRange) (t : ℕ)
    → r.start % second ≡ 0
    → r.end % second ≡ 0
    → (leb (stamp r.start) (stamp t) && ltb (stamp t) (stamp r.end)) ≡ in_range r t
stamp-in_range r t whole_start whole_end = ground arith

any_and_none :
    (p q : Email → Bool) (xs : List Email) → any p xs ≡ false → any (λ x. p x && q x) xs ≡ false
any_and_none p q [] h = refl
any_and_none p q (x ∷ xs) h = ground (arith, any_and_none p q xs)

row_decides :
    (before same fits inside : Bool)
    → before ≡ false
    → same ≡ true
    → fits ≡ inside
    → (before || ((same && fits) || false)) ≡ inside
row_decides before same fits inside e f g = ground (arith, e, f, g)

found_in_range :
    (vault after : Vault) (v : EmailValues) (header : Option Stamp) (r : DateRange) (t : ℕ)
    → insert_row vault v (stamp t) header ≡ ok (after, true)
    → r.start % second ≡ 0
    → r.end % second ≡ 0
    → any (same_key v) (get_emails_in_range after v.account_id r) ≡ in_range r t
unfolding get_emails_in_range
found_in_range vault after v header r t e whole_start whole_end =
    elim (Bool-cases (any (same_key v) vault.emails)) [
      | inl known ↦ cc (ap (λ (x : Vault × Bool). x.1) (ok-injective _ _ (rw known at e)))
      | inr fresh ↦ elim (Bool-cases (any (λ (a : Account). a.id == v.account_id) vault.accounts)) [
        | inr orphan ↦ cc (rw (fresh, orphan) at e)
        | inl owned ↦
            subst
              (λ (x : Vault × Bool).
                any (same_key v)
                  (sort_by internal_date_of (select (is_in_range v.account_id r) x.0.emails))
                ≡ in_range r t)
              (ok-injective _ _ (rw (fresh, owned) at e))
              (let row = email_row v (next_id email_key vault.emails) (stamp t) header in
                any-sort_by internal_date_of (same_key v)
                  (select (is_in_range v.account_id r) (vault.emails ++ row ∷ []))
                ∙ any-select (same_key v) (is_in_range v.account_id r) (vault.emails ++ row ∷ [])
                ∙ any-append (λ x. same_key v x && is_in_range v.account_id r x) vault.emails
                    (row ∷ [])
                ∙ row_decides _ _ _ _
                    (any_and_none (same_key v) (is_in_range v.account_id r) vault.emails fresh)
                    (same_key_refl v (next_id email_key vault.emails) (stamp t) header)
                    (rw (==_refl v.account_id) (stamp-in_range r t whole_start whole_end)))
      ]
    ]

-- A new email at an instant is returned for a range of whole seconds exactly if the range contains the
-- instant, whatever else is stored.
pub insert_email_if_new-get_emails_in_range :
    (vault after : Vault) (v : EmailValues) (row_id t : ℕ) (r : DateRange)
    → insert_email_if_new vault v ≡ ok (after, (row_id, true))
    → v.internal_date ≡ aware t
    → r.start % second ≡ 0
    → r.end % second ≡ 0
    → any (same_key v) (get_emails_in_range after v.account_id r) ≡ in_range r t
unfolding insert_email_if_new to_utc_storage_string
insert_email_if_new-get_emails_in_range vault after v row_id t r e at_t whole_start whole_end =
    let (internal, date_ok, e₁) = bind-ok (to_utc_storage_string v.internal_date) _ _ e in
    let (header, header_ok, e₂) = bind-ok (header_stamp v.header_date) _ _ e₁ in
    let ((vault', inserted'), row_ok, e₃) = bind-ok (insert_row vault v internal header) _ _ e₂ in
    let (id, id_ok, e₄) = bind-ok (scalar_one (first? (same_key v) vault'.emails)) _ _ e₃ in
    let made = ok-injective _ _ e₄ in
    let at_stamp : stamp t ≡ internal =
      ok-injective _ _ (sym (ap to_utc_storage_string at_t) ∙ date_ok) in
    found_in_range vault after v header r t
      (ap (λ s. insert_row vault v s header) at_stamp
        ∙ row_ok
        ∙ ap (λ (x : Vault × (ℕ × Bool)). ok (x.0, x.1.1)) made)
      whole_start whole_end
