-- ===== src/Api/Mailboxes/Secrecy.antt =====
-- What the mailbox routes of src/heron/api/mailboxes.py show, and adding a mailbox.
use heron_mail.Prelude.{
  Bool-cases, List, String, [], any, ap, ascending, false, first?, inl, inr, insert_with, leb, map,
  refl, sort_by, subst, sym, ℕ, ◌==◌, ◌∙◌, ◌∷◌, ◌≡◌,
}
use heron_mail.Result.{Result, bind-ok, err, integrity_error, ok, ok-injective, value_error, ◌>>=◌}
use heron_mail.Api.{found_or}
use heron_mail.Api.Mailboxes.{
  MailboxCreate, MailboxOut, add_mailbox, conflict, get_mailbox, list_mailboxes, mailbox_out,
  not_found,
}
use heron_mail.Models.{Account, Vault}
use heron_mail.Storage.{account_key, create_account, get_account, has_address, list_accounts}
use heron_mail.Storage.Inserts.{create_account-get_account}

-- The vault with other stored passwords.
abbrev pub with_password : (Account → String) → Account → Account
with_password stored a = record a { encrypted_password = stored a }

abbrev pub with_passwords : (Account → String) → Vault → Vault
with_passwords stored vault = record vault { accounts = map (with_password stored) vault.accounts }

map-insert :
    (stored : Account → String) (a : Account) (rest : List Account)
    → insert_with (ascending account_key) (with_password stored a) (map (with_password stored) rest)
      ≡ map (with_password stored) (insert_with (ascending account_key) a rest)
map-insert stored a [] = refl
map-insert stored a (b ∷ rest) = elim (Bool-cases (leb a.id b.id)) [
  | inl e ↦ rw e
  | inr e ↦ rw e (ap (λ l. with_password stored b ∷ l) (map-insert stored a rest))
]

map-sort :
    (stored : Account → String) (accounts : List Account)
    → sort_by account_key (map (with_password stored) accounts)
      ≡ map (with_password stored) (sort_by account_key accounts)
map-sort stored [] = refl
map-sort stored (a ∷ accounts) =
    ap (insert_with (ascending account_key) (with_password stored a)) (map-sort stored accounts)
    ∙ map-insert stored a (sort_by account_key accounts)

shown_same :
    (stored : Account → String) (accounts : List Account)
    → map mailbox_out (map (with_password stored) accounts) ≡ map mailbox_out accounts
shown_same stored [] = refl
shown_same stored (a ∷ accounts) = ap (λ l. mailbox_out a ∷ l) (shown_same stored accounts)

first_same :
    (stored : Account → String) (accounts : List Account) (id : ℕ)
    → (found_or not_found
          (first? (λ (a : Account). a.id == id) (map (with_password stored) accounts))
        >>= λ row. ok (mailbox_out row))
      ≡ (found_or not_found (first? (λ (a : Account). a.id == id) accounts) >>= λ row.
          ok (mailbox_out row))
first_same stored [] id = refl
first_same stored (a ∷ accounts) id = elim (Bool-cases (a.id == id)) [
  | inl e ↦ rw e
  | inr e ↦ rw e (first_same stored accounts id)
]

-- What the routes say of mailboxes does not depend on the stored passwords: two vaults that differ only
-- in them give the same list, and the same answer for each id.
pub mailboxes_hide_passwords :
    (stored : Account → String) (vault : Vault) (id : ℕ)
    → (list_mailboxes (with_passwords stored vault) ≡ list_mailboxes vault)
      × (get_mailbox (with_passwords stored vault) id ≡ get_mailbox vault id)
unfolding list_mailboxes list_accounts get_mailbox get_account
mailboxes_hide_passwords stored vault id = (
  ap (map mailbox_out) (map-sort stored vault.accounts)
      ∙ shown_same stored (sort_by account_key vault.accounts),
  first_same stored vault.accounts id,
)

conflict_ok : (r : Result (Vault × ℕ)) (x : Vault × ℕ) → conflict r ≡ ok x → r ≡ ok x
conflict_ok (ok y) x h = h
conflict_ok (err integrity_error) x h = cc
conflict_ok (err _) x h = cc

-- The answer to a request that adds a mailbox is what a request for its id shows from then on; the
-- address was not registered before.
pub add_mailbox-get_mailbox :
    (encrypt : String → String) (vault after : Vault) (body : MailboxCreate) (now : ℕ)
    (out : MailboxOut)
    → add_mailbox encrypt vault body now ≡ ok (after, out)
    → (any (has_address body.email_address) vault.accounts ≡ false)
      × (get_mailbox vault out.id ≡ err not_found)
      × (get_mailbox after out.id ≡ ok out)
      × (out.email_address ≡ body.email_address)
unfolding add_mailbox get_mailbox
add_mailbox-get_mailbox encrypt vault after body now out e =
    let ((v, id), made, rest) =
      bind-ok
        (conflict (
          create_account encrypt vault body.email_address body.imap_host body.password
            body.imap_port now))
        (λ (x : Vault × ℕ).
          found_or (value_error "Input should be a valid dictionary") (get_account x.0 x.1)
          >>= λ row. ok (x.0, mailbox_out row))
        (after, out) e in
    let (unknown, unused, stored) =
      create_account-get_account encrypt vault v body.email_address body.imap_host body.password
        body.imap_port now id (conflict_ok _ (v, id) made) in
    let shown = ok-injective _ _ (
      ap
        (λ o. found_or (value_error "Input should be a valid dictionary") o >>= λ row.
          ok (v, mailbox_out row))
        (sym stored)
      ∙ rest) in
    subst
      (λ (x : Vault × MailboxOut).
        (any (has_address body.email_address) vault.accounts ≡ false)
        × (get_mailbox vault x.1.id ≡ err not_found)
        × (get_mailbox x.0 x.1.id ≡ ok x.1)
        × (x.1.email_address ≡ body.email_address))
      shown
      (
        unknown,
        ap (λ o. found_or not_found o >>= λ row. ok (mailbox_out row)) unused,
        ap (λ o. found_or not_found o >>= λ row. ok (mailbox_out row)) stored,
        refl,
      )
