-- ===== src/Api/Mailboxes.antt =====
-- src/heron/api/mailboxes.py.
pub mod Secrecy
use heron_mail.Prelude.{Bool, List, Option, String, false, map, none, some, true, ℕ}
use heron_mail.Result.{
  Error, Result, err, http_exception, imap_connection_error, integrity_error, ok, secret_box_error,
  value_error, ◌>>=◌, ◌>>◌,
}
use heron_mail.Api.{found_or}
use heron_mail.Jobs.Lifecycle.{created}
use heron_mail.Models.{Account, Vault}
use heron_mail.Storage.{create_account, delete_account, get_account, list_accounts}
use heron_mail.Timeutil.{Stamp}

-- `MailboxCreate` after its validation.
pub record MailboxCreate : Type 0 where
  pub email_address : String
  pub imap_host : String
  pub imap_port : ℕ
  pub password : String

pub record MailboxOut : Type 0 where
  pub id : ℕ
  pub email_address : String
  pub imap_host : String
  pub imap_port : ℕ
  pub created_at : Stamp

pub record ConnectionTestResult : Type 0 where
  pub success : Bool
  pub error : Option String

abbrev pub mailbox_out : Account → MailboxOut
mailbox_out a = record {
  id = a.id;
  email_address = a.email_address;
  imap_host = a.imap_host;
  imap_port = a.imap_port;
  created_at = a.created_at;
}

-- `_not_found()`
abbrev pub not_found : Error
not_found = http_exception 404 "mailbox not found"

-- `except IntegrityError as exc: raise HTTPException(...)`
abbrev pub conflict : Result (Vault × ℕ) → Result (Vault × ℕ)
conflict (ok created) = ok created
conflict (err integrity_error) =
    err (http_exception 409 "a mailbox with this email address already exists")
conflict (err e) = err e

-- `get_account` of the new id is validated; no row would raise.
unfoldable pub add_mailbox :
    (String → String) → Vault → MailboxCreate → ℕ → Result (Vault × MailboxOut)
add_mailbox encrypt vault body now = do
  (after, id) ← conflict (
      create_account encrypt vault body.email_address body.imap_host body.password body.imap_port
        now)
  row ← found_or (value_error "Input should be a valid dictionary") (get_account after id)
  ok (after, mailbox_out row)

unfoldable pub list_mailboxes : Vault → List MailboxOut
list_mailboxes vault = map mailbox_out (list_accounts vault)

unfoldable pub get_mailbox : Vault → ℕ → Result MailboxOut
get_mailbox vault id = found_or not_found (get_account vault id) >>= λ row. ok (mailbox_out row)

-- `except ImapConnectionError as exc: ...`
abbrev pub login_result : Result (Unit {0}) → Result ConnectionTestResult
login_result (ok _) = ok (record { success = true; error = none })
login_result (err (imap_connection_error m)) = ok (record { success = false; error = some m })
login_result (err e) = err e

-- `_try_login`: `connect` opens an `ImapClient` on host, port, address and password and closes it.
unfoldable pub try_login :
    (String → ℕ → String → String → Result (Unit {0}))
    → String
    → ℕ
    → String
    → String
    → Result ConnectionTestResult
try_login connect host port email_address password =
    login_result (connect host port email_address password)

unfoldable pub test_credentials :
    (String → ℕ → String → String → Result (Unit {0})) → MailboxCreate → Result ConnectionTestResult
unfolding try_login
test_credentials connect body =
    try_login connect body.imap_host body.imap_port body.email_address body.password

abbrev pub undecryptable : ConnectionTestResult
undecryptable = record {
  success = false;
  error = some "the stored password could not be decrypted (was the encryption key changed?)";
}

-- What follows the decryption.
abbrev pub test_decrypted :
    (String → ℕ → String → String → Result (Unit {0}))
    → Account
    → Result String
    → Result ConnectionTestResult
test_decrypted connect row (ok password) =
    try_login connect row.imap_host row.imap_port row.email_address password
test_decrypted connect row (err secret_box_error) = ok undecryptable
test_decrypted connect row (err e) = err e

unfoldable pub test_saved_mailbox :
    (String → ℕ → String → String → Result (Unit {0}))
    → (String → Result String)
    → Vault
    → ℕ
    → Result ConnectionTestResult
unfolding try_login
test_saved_mailbox connect decrypt vault id = do
  row ← found_or not_found (get_account vault id)
  test_decrypted connect row (decrypt row.encrypted_password)

abbrev pub removed : Vault × Bool → Result Vault
removed (after, true) = ok after
removed (after, false) = err not_found

unfoldable pub remove_mailbox : Vault → ℕ → Result Vault
remove_mailbox vault id = removed (delete_account vault id)
