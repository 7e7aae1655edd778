-- ===== src/Jobs.antt =====
-- src/heron/core/jobs.py and src/heron/core/job_recovery.py over the rows of the table `jobs`. An UPDATE is
-- `update` with its WHERE clause as the test; `now` is the clock's instant, or the one passed.
pub mod Pending
pub mod Claims
pub mod Lifecycle
pub mod Recovery
pub mod Listing
pub mod Tests
use heron_mail.Prelude.{
  ℕ, String, ◌≡◌, Bool, true, false, ◌&&◌, Option, none, some, List, [], ◌∷◌, ◌++◌, ◌==◌, str_eq,
  if◌then◌else◌, select, any, first?, update, count_if, next_id, take, sort_by, sort_desc_by,
}
use mathlib.Core.List.{head?}
use mathlib.Core.Option
use heron_mail.Result.{Result, ok, err, integrity_error}
use heron_mail.Timeutil.{DateRange, stamp}
use heron_mail.Models.{Account, Job, JobStatus, pending, running, done, failed}

abbrev pub status_eq : JobStatus → JobStatus → Bool
status_eq pending pending = true
status_eq running running = true
status_eq done done = true
status_eq failed failed = true
status_eq _ _ = false

abbrev pub job_id : Job → ℕ
job_id j = j.id

-- jobs.c.id == id
abbrev pub has_id : ℕ → Job → Bool
has_id id j = j.id == id

abbrev pub has_status : JobStatus → Job → Bool
has_status s j = status_eq j.status s

-- The foreign key of `account_id` makes the INSERT fail for an unknown account.
unfoldable pub create_job :
    List Account → List Job → ℕ → String → DateRange → ℕ → Result (List Job × ℕ)
create_job accounts jobs account folder date_range now =
    let id = next_id job_id jobs in
    if any (λ (a : Account). a.id == account) accounts
    then ok (
      jobs
          ++ record {
            id = id;
            account_id = account;
            folder = folder;
            range_start = stamp date_range.start;
            range_end = stamp date_range.end;
            status = pending;
            checkpoint_uid = none;
            error = none;
            created_at = stamp now;
            started_at = none;
            finished_at = none;
          }
            ∷ [],
      id,
    )
    else err integrity_error

unfoldable pub get_job : List Job → ℕ → Option Job
get_job jobs id = first? (has_id id) jobs

-- An optional filter of `list_jobs`.
abbrev pub matches : Option ℕ → Option JobStatus → Job → Bool
matches account status j =
    elim account [ none ↦ true | some a ↦ j.account_id == a ]
    && elim status [ none ↦ true | some s ↦ has_status s j ]

-- ORDER BY id DESC LIMIT limit
unfoldable pub list_jobs : List Job → Option ℕ → Option JobStatus → ℕ → List Job
list_jobs jobs account status limit =
    take limit (sort_desc_by job_id (select (matches account status) jobs))

abbrev pub start_job : ℕ → Job → Job
start_job now j = record j { status = running; started_at = some (stamp now) }

-- The table after the claim, and the claimed row.
unfoldable pub claim_job : List Job → ℕ → ℕ → List Job × Option Job
claim_job jobs id now =
    let wanted = λ (j : Job). has_id id j && has_status pending j in
    (update wanted (start_job now) jobs, Option.map (start_job now) (first? wanted jobs))

-- SELECT id WHERE status = 'pending' ORDER BY id LIMIT 1
abbrev pub next_pending : List Job → Option Job
next_pending jobs = head? (sort_by job_id (select (has_status pending) jobs))

-- One UPDATE of the row with that id.
unfoldable pub claim_next_job : List Job → ℕ → List Job × Option Job
claim_next_job jobs now = elim (next_pending jobs) [
  | none ↦ (jobs, none)
  | some next ↦ (
    update (has_id next.id) (start_job now) jobs,
    Option.map (start_job now) (first? (has_id next.id) jobs),
  )
]

unfoldable pub update_checkpoint : List Job → ℕ → ℕ → List Job
update_checkpoint jobs id uid =
    update (has_id id) (λ (j : Job). record j { checkpoint_uid = some uid }) jobs

unfoldable pub mark_done : List Job → ℕ → ℕ → List Job
mark_done jobs id now =
    update (has_id id) (λ (j : Job). record j { status = done; finished_at = some (stamp now) })
      jobs

unfoldable pub mark_failed : List Job → ℕ → String → ℕ → List Job
mark_failed jobs id message now =
    update (has_id id)
      (λ (j : Job). record j {
        status = failed;
        error = some message;
        finished_at = some (stamp now);
      })
      jobs

unfoldable pub retry_job : List Job → ℕ → List Job
retry_job jobs id =
    update (has_id id)
      (λ (j : Job). record j {
        status = pending;
        error = none;
        started_at = none;
        finished_at = none;
      })
      jobs

abbrev pub interrupted_message : String
interrupted_message = "Interrupted by a restart. Fetch again to resume."

-- The table and the number of rows changed.
unfoldable pub fail_interrupted_jobs : List Job → ℕ → List Job × ℕ
fail_interrupted_jobs jobs now = (
  update (has_status running)
      (λ (j : Job). record j {
        status = failed;
        error = some interrupted_message;
        finished_at = some (stamp now);
      })
      jobs,
  count_if (has_status running) jobs,
)
