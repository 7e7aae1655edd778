-- ===== src/Api/Ingest.antt =====
-- src/heron/api/ingest.py.
pub mod Queueing
pub mod Completing
use heron_mail.Prelude.{List, Option, String, [], length, map, none, some, ℕ, ◌∷◌}
use heron_mail.Result.{Result, err, ok, ◌>>=◌, ◌>>◌}
use heron_mail.Api.{JobOut, job_out, require_account, unprocessable}
use heron_mail.Coverage.{get_gaps}
use heron_mail.Jobs.{claim_job, create_job}
use heron_mail.Jobs.Lifecycle.{created}
use heron_mail.Models.{Account, Job, Vault}
use heron_mail.Storage.Tests.{account}
use heron_mail.Timeutil.{DateRange, Zones, local_date_range}

pub record IngestRequest : Type 0 where
  pub mailbox_id : ℕ
  pub folder : String
  -- days, numbered as dates are
  pub start_date : ℕ
  pub end_date : ℕ

pub record IngestResponse : Type 0 where
  pub gaps_found : ℕ
  pub jobs : List JobOut

-- The vault after the request, and what it returns or raises: the response, and the jobs of the
-- background tasks, in the order in which they run.
abbrev pub Ingested : Type 0
Ingested = Vault × Result (IngestResponse × List Job)

-- The rows of `jobs` after the loop, and the claimed ones, or the exception that ended it.
abbrev pub Queued : Type 0
Queued = List Job × Result (List Job)

-- `if job is None: continue`, and the rest of the loop's body otherwise.
abbrev pub with_claimed : Option Job → Queued → Queued
with_claimed none rest = rest
with_claimed (some job) (jobs, claimed) = (jobs, claimed >>= λ js. ok (job ∷ js))

abbrev pub queue_claimed : ℕ → Result (List Job × ℕ) → List Job → (List Job → Queued) → Queued
queue_claimed now (err e) jobs next = (jobs, err e)
queue_claimed now (ok (created, id)) jobs next =
    let claimed = claim_job created id now in with_claimed claimed.1 (next claimed.0)

unfoldable pub queue_gaps : List Account → ℕ → String → ℕ → List DateRange → List Job → Queued
queue_gaps accounts account folder now [] jobs = (jobs, ok [])
queue_gaps accounts account folder now (gap ∷ gaps) jobs =
    queue_claimed now (create_job accounts jobs account folder gap now) jobs
      (queue_gaps accounts account folder now gaps)

-- The response to the claimed jobs.
abbrev pub ingested : ℕ → Vault → Queued → Ingested
ingested found vault (jobs, claimed) = (
  record vault { jobs = jobs },
  claimed >>= λ js. ok (record { gaps_found = found; jobs = map job_out js }, js),
)

abbrev pub queue_found : Vault → IngestRequest → ℕ → Result (List DateRange) → Ingested
queue_found vault body now (err e) = (vault, err e)
queue_found vault body now (ok gaps) =
    ingested (length gaps) vault
      (queue_gaps vault.accounts body.mailbox_id body.folder now gaps vault.jobs)

module _ (zones : Zones) where
  -- What `ingest` does before its loop: the gaps.
  unfoldable pub find_gaps : Vault → String → IngestRequest → Result (List DateRange)
  find_gaps vault tz_name body = do
    require_account vault body.mailbox_id
    date_range ← unprocessable (local_date_range zones body.start_date body.end_date tz_name)
    get_gaps vault.coverage body.mailbox_id body.folder date_range

  unfoldable pub ingest : Vault → String → IngestRequest → ℕ → Ingested
  unfolding find_gaps queue_gaps
  ingest vault tz_name body now = queue_found vault body now (find_gaps vault tz_name body)
