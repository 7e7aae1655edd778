-- ===== src/Api.antt =====
-- src/heron/api: the routes, as functions of the vault. A request is what FastAPI hands to the route after
-- it has checked the request's form; the clock's instant is an argument.
pub mod Ingest
pub mod Mailboxes
pub mod Reading
pub mod Timeline
pub mod AlertRoutes
pub mod Tests
use heron_mail.Prelude.{Bool, Option, String, false, is_some, none, some, ℕ}
use heron_mail.Result.{Error, Result, err, http_exception, ok, require, value_error}
use heron_mail.Models.{Job, JobStatus, Vault}
use heron_mail.Storage.{get_account}
use heron_mail.Timeutil.{Stamp}

-- HTTPException(status_code=404, detail="Mailbox not found")
abbrev pub mailbox_missing : Error
mailbox_missing = http_exception 404 "Mailbox not found"

-- `if get_account(engine, mailbox_id) is None: raise ...`
abbrev pub require_account : Vault → ℕ → Result (Unit {0})
require_account vault id = require (is_some (get_account vault id)) mailbox_missing

-- `if mailbox_id is not None and get_account(...) is None: raise ...`
unfoldable pub require_mailbox : Vault → Option ℕ → Result (Unit {0})
require_mailbox vault none = ok tt
require_mailbox vault (some id) = require_account vault id

-- `except ValueError as exc: raise HTTPException(status_code=422, detail=str(exc))`
abbrev pub unprocessable {ℓ} : {A : Type ℓ} → Result A → Result A
unprocessable (ok a) = ok a
unprocessable (err (value_error m)) = err (http_exception 422 m)
unprocessable (err e) = err e

-- A row that must be there.
abbrev pub found_or {ℓ} : {A : Type ℓ} → Error → Option A → Result A
found_or e none = err e
found_or e (some a) = ok a

-- `JobOut`
pub record JobOut : Type 0 where
  pub id : ℕ
  pub account_id : ℕ
  pub folder : String
  pub status : JobStatus
  pub range_start : Stamp
  pub range_end : Stamp
  pub error : Option String
  pub created_at : Stamp

-- JobOut.model_validate(job)
abbrev pub job_out : Job → JobOut
job_out j = record {
  id = j.id;
  account_id = j.account_id;
  folder = j.folder;
  status = j.status;
  range_start = j.range_start;
  range_end = j.range_end;
  error = j.error;
  created_at = j.created_at;
}

-- `require_api_token`: `same` is `secrets.compare_digest`.
unfoldable pub require_api_token :
    (String → String → Bool) → String → Option String → Result (Unit {0})
require_api_token same expected credentials =
    require (elim credentials [ none ↦ false | some token ↦ same token expected ])
      (http_exception 401 "invalid or missing API token")
