-- ===== src/Api/Reading.antt =====
-- src/heron/api/jobs.py, src/heron/api/stats.py and src/heron/api/emails.py: the routes that only read.
use heron_mail.Prelude.{List, Option, String, [], if◌then◌else◌, map, none, some, str_eq, take, ℕ}
use heron_mail.Result.{Result, http_exception, ok, ◌>>=◌, ◌>>◌}
use heron_mail.Api.{JobOut, found_or, job_out, require_account, require_mailbox, unprocessable}
use heron_mail.Jobs.{get_job, list_jobs}
use heron_mail.Models.{Email, Job, JobStatus, Vault, done, failed, pending, running}
use heron_mail.Storage.{Stats, get_emails_in_range, get_stats}
use heron_mail.Timeutil.{Stamp, Zones, local_date_range}

-- `jobs.c.status == status` compares texts; a text that is no status matches no row.
abbrev pub status_named : String → Option JobStatus
status_named s =
    if str_eq s "pending"
    then some pending
    else if str_eq s "running"
    then some running
    else if str_eq s "done"
    then some done
    else if str_eq s "failed"
    then some failed
    else none

abbrev pub jobs_named : List Job → Option ℕ → Option JobStatus → ℕ → List Job
jobs_named jobs mailbox_id none limit = []
jobs_named jobs mailbox_id (some s) limit = list_jobs jobs mailbox_id (some s) limit

abbrev pub jobs_listed : List Job → Option ℕ → Option String → ℕ → List Job
jobs_listed jobs mailbox_id none limit = list_jobs jobs mailbox_id none limit
jobs_listed jobs mailbox_id (some s) limit = jobs_named jobs mailbox_id (status_named s) limit

unfoldable pub list_all_jobs : Vault → Option ℕ → Option String → ℕ → List JobOut
list_all_jobs vault mailbox_id status limit =
    map job_out (jobs_listed vault.jobs mailbox_id status limit)

unfoldable pub read_job : Vault → ℕ → Result JobOut
read_job vault id =
    found_or (http_exception 404 "Job not found") (get_job vault.jobs id) >>= λ j. ok (job_out j)

-- `StatsOut` has the fields of the dictionary.
unfoldable pub read_stats : Vault → Option ℕ → ℕ → Result Stats
unfolding require_mailbox
read_stats vault mailbox_id now = require_mailbox vault mailbox_id >> get_stats vault mailbox_id now

-- `EmailOut`. The rows have no column `sender`, so the field keeps its default.
pub record EmailOut : Type 0 where
  pub id : ℕ
  pub account_id : ℕ
  pub folder : String
  pub uid : ℕ
  pub subject : Option String
  pub sender : Option String
  pub internal_date : Stamp
  pub header_date : Option Stamp

abbrev pub email_out : Email → EmailOut
email_out e = record {
  id = e.id;
  account_id = e.account_id;
  folder = e.folder;
  uid = e.uid;
  subject = e.subject;
  sender = none;
  internal_date = e.internal_date;
  header_date = e.header_date;
}

unfoldable pub list_emails :
    (zones : Zones) → Vault → String → ℕ → ℕ → ℕ → ℕ → Result (List EmailOut)
list_emails zones vault tz_name mailbox_id start_date end_date limit = do
  require_account vault mailbox_id
  date_range ← unprocessable (local_date_range zones start_date end_date tz_name)
  ok (map email_out (take limit (get_emails_in_range vault mailbox_id date_range)))
