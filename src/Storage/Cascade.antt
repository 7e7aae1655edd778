-- ===== src/Storage/Cascade.antt =====
-- What ON DELETE CASCADE keeps and deletes of a table, src/heron/core/models.py.
use heron_mail.Prelude.{
  ==_iff, All, Bool-cases, Distinct, List, [], any, arith, false, first?, has, inl, inr, map, not,
  refl, select, subst, true, ℕ, ◌==◌, ◌∷◌, ◌≡◌, ◌≢◌,
}
use heron_mail.Models.{Account, Email}
use heron_mail.Storage.{email_key, of_email_of}

-- What `delete_account` leaves of a table: nothing of the account, and all rows of the other accounts.
module _ {ℓ} {A : Type ℓ} (account_of : A → ℕ) (account_id : ℕ) where
  pub none_left :
      (xs : List A)
      → any (λ x. account_of x == account_id) (select (λ x. not (account_of x == account_id)) xs)
        ≡ false
  none_left [] = refl
  none_left (x ∷ xs) = ground (arith, none_left xs)

  pub others_kept :
      (other : ℕ) (xs : List A)
      → other ≢ account_id
      → select (λ x. account_of x == other) (select (λ x. not (account_of x == account_id)) xs)
        ≡ select (λ x. account_of x == other) xs
  others_kept other [] differ = refl
  others_kept other (x ∷ xs) differ = ground (arith, others_kept other xs differ)

-- An email that is not the account's stays.
email_stays :
    (account_id email_id : ℕ) (emails : List Email)
    → any (λ (e : Email). e.id == email_id) emails ≡ true
    → of_email_of account_id emails email_id ≡ false
    → any
        (λ (e : Email). e.id == email_id)
        (select (λ (e : Email). not (e.account_id == account_id)) emails)
      ≡ true
email_stays account_id email_id [] h f = h
email_stays account_id email_id (e ∷ emails) h f =
    ground (arith, email_stays account_id email_id emails)

pub links_kept {ℓ} :
    {A : Type ℓ} (email_of : A → ℕ) (account_id : ℕ) (emails : List Email) (xs : List A)
    → All (λ x. any (λ (e : Email). e.id == email_of x) emails ≡ true) xs
    → All
        (λ x.
          any
            (λ (e : Email). e.id == email_of x)
            (select (λ (e : Email). not (e.account_id == account_id)) emails)
          ≡ true)
        (select (λ x. not (of_email_of account_id emails (email_of x))) xs)
links_kept email_of account_id emails [] h = tt
links_kept email_of account_id emails (x ∷ xs) h =
    elim (Bool-cases (of_email_of account_id emails (email_of x))) [
      | inl t ↦ rw t (links_kept email_of account_id emails xs h.1)
      | inr f ↦ rw f (
        email_stays account_id (email_of x) emails h.0 f,
        links_kept email_of account_id emails xs h.1,
      )
    ]

-- A row of an account stays linked, where the account's rows go with it.
pub owners_kept {ℓ} :
    {A : Type ℓ} (account_of : A → ℕ) (account_id : ℕ) (accounts : List Account) (xs : List A)
    → All (λ x. any (λ (a : Account). a.id == account_of x) accounts ≡ true) xs
    → All
        (λ x.
          any
            (λ (a : Account). a.id == account_of x)
            (select (λ (a : Account). not (a.id == account_id)) accounts)
          ≡ true)
        (select (λ x. not (account_of x == account_id)) xs)
owners_kept account_of account_id accounts [] h = tt
owners_kept account_of account_id accounts (x ∷ xs) h =
    elim (Bool-cases (account_of x == account_id)) [
      | inl t ↦ rw t (owners_kept account_of account_id accounts xs h.1)
      | inr f ↦
          rw f (account_stays accounts f h.0, owners_kept account_of account_id accounts xs h.1)
    ]
  where
    account_stays :
        (rest : List Account)
        → (account_of x == account_id) ≡ false
        → any (λ (a : Account). a.id == account_of x) rest ≡ true
        → any
            (λ (a : Account). a.id == account_of x)
            (select (λ (a : Account). not (a.id == account_id)) rest)
          ≡ true
    account_stays [] f k = k
    account_stays (a ∷ rest) f k = ground (arith, f, k, account_stays rest f)

-- An email id that no email has is of no account's email.
no_owner :
    (account_id email_id : ℕ) (emails : List Email)
    → has email_id (map email_key emails) ≡ false
    → of_email_of account_id emails email_id ≡ false
no_owner account_id email_id [] h = refl
no_owner account_id email_id (e ∷ emails) h = ground (arith, h, no_owner account_id email_id emails)

-- Where email ids differ, an email is of one account.
one_owner :
    (account_id other email_id : ℕ) (emails : List Email)
    → other ≢ account_id
    → Distinct (map email_key emails)
    → of_email_of other emails email_id ≡ true
    → of_email_of account_id emails email_id ≡ false
one_owner account_id other email_id [] differ d h = cc
one_owner account_id other email_id (e ∷ emails) differ d h = elim (Bool-cases (e.id == email_id)) [
  | inl same ↦
      let alone : has email_id (map email_key emails) ≡ false =
        subst (λ i. has i (map email_key emails) ≡ false) ((==_iff e.id email_id).0 same) d.0 in
      ground (
        arith,
        differ,
        same,
        h,
        no_owner other email_id emails alone,
        no_owner account_id email_id emails alone,
      )
  | inr new ↦
      let later : of_email_of other emails email_id ≡ true = ground (arith, new, h) in
      ground (arith, new, one_owner account_id other email_id emails differ d.1 later)
]

pub account_kept :
    (account_id other : ℕ) (accounts : List Account)
    → other ≢ account_id
    → first?
        (λ (a : Account). a.id == other)
        (select (λ (a : Account). not (a.id == account_id)) accounts)
      ≡ first? (λ (a : Account). a.id == other) accounts
account_kept account_id other [] differ = refl
account_kept account_id other (a ∷ accounts) differ =
    ground (arith, account_kept account_id other accounts differ)

-- A table of rows that point at emails keeps those of another account's emails.
pub linked_kept {ℓ} :
    {A : Type ℓ} (email_of : A → ℕ) (account_id other : ℕ) (emails : List Email) (xs : List A)
    → other ≢ account_id
    → Distinct (map email_key emails)
    → select
        (λ x. of_email_of other emails (email_of x))
        (select (λ x. not (of_email_of account_id emails (email_of x))) xs)
      ≡ select (λ x. of_email_of other emails (email_of x)) xs
linked_kept email_of account_id other emails [] differ d = refl
linked_kept email_of account_id other emails (x ∷ xs) differ d =
    elim (Bool-cases (of_email_of other emails (email_of x))) [
      | inl t ↦
          rw
            (
              t,
              one_owner account_id other (email_of x) emails differ d t,
              t,
              linked_kept email_of account_id other emails xs differ d,
            )
            refl
      | inr f ↦ elim (Bool-cases (of_email_of account_id emails (email_of x))) [
        | inl u ↦ rw (f, u) (linked_kept email_of account_id other emails xs differ d)
        | inr u ↦ rw (f, u, f) (linked_kept email_of account_id other emails xs differ d)
      ]
    ]
