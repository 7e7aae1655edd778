-- ===== src/Storage/Inserts.antt =====
-- Inserting accounts and emails, src/heron/core/storage.py: deduplication and fresh ids.
use heron_mail.Prelude.{
  ==_refl, All, Bool, Bool-cases, Distinct, Distinct-snoc, List, Option, Pairwise, Pairwise-snoc,
  String, [], any, arith, eq_refl, false, first?, has-beyond, has_iff_any, inl, inr, map, next_id,
  none, refl, some, str_eq, subst, sym, true, ℕ, ◌&&◌, ◌++◌, ◌==◌, ◌∙◌, ◌∷◌, ◌≡◌,
}
use heron_mail.Result.{bind-ok, ok, ok-injective}
use heron_mail.Models.{Account, Email, Vault}
use heron_mail.Storage.{
  EmailValues, account_key, create_account, email_key, email_row, get_account, has_address,
  header_stamp, insert_email_if_new, insert_row, same_key, scalar_one,
}
use heron_mail.Timeutil.{Stamp, stamp, to_utc_storage_string}

-- A row that no earlier row hides is found.
pub first?-append_found {ℓ} :
    {A : Type ℓ} (p : A → Bool) (xs : List A) (y : A)
    → any p xs ≡ false
    → p y ≡ true
    → first? p (xs ++ y ∷ []) ≡ some y
first?-append_found p [] y none_before e = rw e
first?-append_found p (x ∷ xs) y none_before e = elim (Bool-cases (p x)) [
  | inl t ↦ cc (rw t at none_before)
  | inr f ↦ rw f (first?-append_found p xs y (rw f at none_before) e)
]

any-snoc {ℓ} :
    {A : Type ℓ} (p : A → Bool) (xs : List A) (y : A) → p y ≡ true → any p (xs ++ y ∷ []) ≡ true
any-snoc p [] y e = ground (arith, e)
any-snoc p (x ∷ xs) y e = ground (arith, any-snoc p xs y e)

pub first?_absent {ℓ} :
    {A : Type ℓ} (p : A → Bool) (xs : List A) → any p xs ≡ false → first? p xs ≡ none
first?_absent p [] e = refl
first?_absent p (x ∷ xs) e = elim (Bool-cases (p x)) [
  | inl t ↦ cc (rw t at e)
  | inr f ↦ rw f (first?_absent p xs (rw f at e))
]

-- A new account gets an id that no account has, is found under it with the encrypted password, and is
-- not added to a vault in which its address is registered.
pub create_account-get_account :
    (encrypt : String → String) (vault after : Vault) (address host password : String)
    (port now id : ℕ)
    → create_account encrypt vault address host password port now ≡ ok (after, id)
    → (any (has_address address) vault.accounts ≡ false)
      × (get_account vault id ≡ none)
      × (get_account after id
          ≡ some (record {
            id = id;
            email_address = address;
            imap_host = host;
            imap_port = port;
            encrypted_password = encrypt password;
            created_at = stamp now;
          }))
unfolding create_account get_account
create_account-get_account encrypt vault after address host password port now id e =
    elim (Bool-cases (any (has_address address) vault.accounts)) [
      | inl known ↦ cc (rw known at e)
      | inr unknown ↦
          let next = next_id account_key vault.accounts in
          let fresh : any (λ (a : Account). a.id == next) vault.accounts ≡ false =
            sym (has_iff_any account_key next vault.accounts)
            ∙ has-beyond account_key vault.accounts next (omega arith) in
          let stored =
            subst
              (λ (r : Vault × ℕ).
                (get_account vault r.1 ≡ none)
                × (get_account r.0 r.1
                    ≡ some (record {
                      id = r.1;
                      email_address = address;
                      imap_host = host;
                      imap_port = port;
                      encrypted_password = encrypt password;
                      created_at = stamp now;
                    })))
              (ok-injective _ _ (rw unknown at e))
              (
                first?_absent _ vault.accounts fresh,
                first?-append_found _ vault.accounts _ fresh (==_refl next),
              ) in
          (unknown, stored.0, stored.1)
    ]

pub same_key_refl :
    (v : EmailValues) (id : ℕ) (internal : Stamp) (header : Option Stamp)
    → same_key v (email_row v id internal header) ≡ true
same_key_refl v id internal header =
    rw (==_refl v.account_id, eq_refl v.folder, ==_refl v.uidvalidity, ==_refl v.uid) refl

inserted_present :
    (vault after : Vault) (v : EmailValues) (internal : Stamp) (header : Option Stamp)
    (inserted : Bool)
    → insert_row vault v internal header ≡ ok (after, inserted)
    → any (same_key v) after.emails ≡ true
inserted_present vault after v internal header inserted e =
    elim (Bool-cases (any (same_key v) vault.emails)) [
      | inl known ↦
          subst (λ (r : Vault × Bool). any (same_key v) r.0.emails ≡ true)
            (ok-injective _ _ (rw known at e)) known
      | inr fresh ↦ elim (Bool-cases (any (λ (a : Account). a.id == v.account_id) vault.accounts)) [
        | inl owned ↦
            subst (λ (r : Vault × Bool). any (same_key v) r.0.emails ≡ true)
              (ok-injective _ _ (rw (fresh, owned) at e))
              (any-snoc (same_key v) vault.emails _
                (same_key_refl v (next_id email_key vault.emails) internal header))
        | inr orphan ↦ cc (rw (fresh, orphan) at e)
      ]
    ]

again_at :
    (vault : Vault) (v : EmailValues) (internal : Stamp) (header : Option Stamp) (id later : ℕ)
    → to_utc_storage_string v.internal_date ≡ ok internal
    → header_stamp v.header_date ≡ ok header
    → any (same_key v) vault.emails ≡ true
    → scalar_one (first? (same_key v) vault.emails) ≡ ok id
    → insert_email_if_new vault (record v { now = later }) ≡ ok (vault, (id, false))
unfolding insert_email_if_new
again_at vault v internal header id later date_ok header_ok present id_ok =
    rw (date_ok, header_ok, present, id_ok) refl

-- The row that an insertion reports has the key that was inserted, is there after it, and inserting the
-- same values again, at any later time, changes nothing and reports the same row as a duplicate.
pub insert_email_if_new-again :
    (vault after : Vault) (v : EmailValues) (row_id later : ℕ) (inserted : Bool)
    → insert_email_if_new vault v ≡ ok (after, (row_id, inserted))
    → insert_email_if_new after (record v { now = later }) ≡ ok (after, (row_id, false))
unfolding insert_email_if_new
insert_email_if_new-again vault after v row_id later inserted e =
    let (internal, date_ok, e₁) = bind-ok (to_utc_storage_string v.internal_date) _ _ e in
    let (header, header_ok, e₂) = bind-ok (header_stamp v.header_date) _ _ e₁ in
    let ((vault', inserted'), row_ok, e₃) = bind-ok (insert_row vault v internal header) _ _ e₂ in
    let (id, id_ok, e₄) = bind-ok (scalar_one (first? (same_key v) vault'.emails)) _ _ e₃ in
    subst
      (λ (r : Vault × (ℕ × Bool)).
        insert_email_if_new r.0 (record v { now = later }) ≡ ok (r.0, (r.1.0, false)))
      (ok-injective _ _ e₄)
      (again_at vault' v internal header id later date_ok header_ok
        (inserted_present vault vault' v internal header inserted' row_ok) id_ok)

-- Two rows of the same key.
abbrev pub same_identity : Email → Email → Bool
same_identity x y =
    (x.account_id == y.account_id)
    && ((str_eq x.folder y.folder) && ((x.uidvalidity == y.uidvalidity) && (x.uid == y.uid)))

-- No two emails have one id, and none have the same account, folder, uidvalidity and uid.
pub record IsDeduplicated (vault : Vault) : Type 0 where
  pub ids : Distinct (map email_key vault.emails)
  pub keys : Pairwise (λ x y. same_identity x y ≡ false) vault.emails

-- A row that has not the key of the values is not the same as the row that they make.
others_differ :
    (v : EmailValues) (id : ℕ) (internal : Stamp) (header : Option Stamp) (xs : List Email)
    → any (same_key v) xs ≡ false
    → All (λ x. same_identity x (email_row v id internal header) ≡ false) xs
others_differ v id internal header [] h = tt
others_differ v id internal header (x ∷ xs) h = elim (Bool-cases (same_key v x)) [
  | inl t ↦ cc (rw t at h)
  | inr f ↦ (f, others_differ v id internal header xs (rw f at h))
]

insert_row-IsDeduplicated :
    (vault after : Vault) (v : EmailValues) (internal : Stamp) (header : Option Stamp)
    (inserted : Bool)
    → insert_row vault v internal header ≡ ok (after, inserted)
    → IsDeduplicated vault
    → IsDeduplicated after
insert_row-IsDeduplicated vault after v internal header inserted e d =
    elim (Bool-cases (any (same_key v) vault.emails)) [
      | inl known ↦
          subst (λ (r : Vault × Bool). IsDeduplicated r.0) (ok-injective _ _ (rw known at e)) d
      | inr fresh ↦ elim (Bool-cases (any (λ (a : Account). a.id == v.account_id) vault.accounts)) [
        | inl owned ↦
            subst (λ (r : Vault × Bool). IsDeduplicated r.0)
              (ok-injective _ _ (rw (fresh, owned) at e))
              (record {
                ids =
                    Distinct-snoc email_key vault.emails _
                      (has-beyond email_key vault.emails _ (omega arith)) d.ids;
                keys =
                    Pairwise-snoc (λ x y. same_identity x y ≡ false) vault.emails _
                      (others_differ v (next_id email_key vault.emails) internal header vault.emails
                        fresh)
                      d.keys;
              })
        | inr orphan ↦ cc (rw (fresh, orphan) at e)
      ]
    ]

-- An insertion keeps the vault free of duplicates.
pub insert_email_if_new-IsDeduplicated :
    (vault after : Vault) (v : EmailValues) (row_id : ℕ) (inserted : Bool)
    → insert_email_if_new vault v ≡ ok (after, (row_id, inserted))
    → IsDeduplicated vault
    → IsDeduplicated after
unfolding insert_email_if_new
insert_email_if_new-IsDeduplicated vault after v row_id inserted e d =
    let (internal, date_ok, e₁) = bind-ok (to_utc_storage_string v.internal_date) _ _ e in
    let (header, header_ok, e₂) = bind-ok (header_stamp v.header_date) _ _ e₁ in
    let ((vault', inserted'), row_ok, e₃) = bind-ok (insert_row vault v internal header) _ _ e₂ in
    let (id, id_ok, e₄) = bind-ok (scalar_one (first? (same_key v) vault'.emails)) _ _ e₃ in
    subst (λ (r : Vault × (ℕ × Bool)). IsDeduplicated r.0) (ok-injective _ _ e₄)
      (insert_row-IsDeduplicated vault vault' v internal header inserted' row_ok d)
