-- ===== src/Jobs/Recovery.antt =====
-- src/heron/core/job_recovery.py: what a restart leaves.
use mathlib.Core.Option
use heron_mail.Prelude.{
  Bool-cases, List, Option, [], any, ap, arith, count_if, false, first?, inl, inr, none, not, refl,
  select, some, update, ℕ, ◌&&◌, ◌+◌, ◌||◌, ◌∷◌, ◌≡◌,
}
use heron_mail.Jobs.{
  claim_job, fail_interrupted_jobs, get_job, has_id, has_status, retry_job, start_job,
}
use heron_mail.Models.{Job, failed, pending, running}
use heron_mail.Timeutil.{stamp}

recovered_none :
    (jobs : List Job) (now : ℕ)
    → any (has_status running) (fail_interrupted_jobs jobs now).0 ≡ false
unfolding fail_interrupted_jobs
recovered_none [] now = refl
recovered_none (j ∷ jobs) now = elim (Bool-cases (has_status running j)) [
  | inl e ↦ rw e (recovered_none jobs now)
  | inr e ↦ rw (e, e) (recovered_none jobs now)
]

count_split :
    (jobs : List Job) (now : ℕ)
    → count_if (has_status failed) (fail_interrupted_jobs jobs now).0
      ≡ count_if (has_status failed) jobs + (fail_interrupted_jobs jobs now).1
unfolding fail_interrupted_jobs
count_split [] now = omega arith
count_split (j ∷ jobs) now = ground (arith, count_split jobs now)

others_kept :
    (jobs : List Job) (now : ℕ)
    → select
        (λ j. not (has_status running j || has_status failed j))
        (fail_interrupted_jobs jobs now).0
      ≡ select (λ j. not (has_status running j || has_status failed j)) jobs
unfolding fail_interrupted_jobs
others_kept [] now = refl
others_kept (j ∷ jobs) now = ground (arith, others_kept jobs now)

-- After a restart no job is running, as many more have failed as the call reports, and the pending and
-- the done jobs are as they were.
pub fail_interrupted_jobs_lem :
    (jobs : List Job) (now : ℕ)
    → (any (has_status running) (fail_interrupted_jobs jobs now).0 ≡ false)
      × (count_if (has_status failed) (fail_interrupted_jobs jobs now).0
          ≡ count_if (has_status failed) jobs + (fail_interrupted_jobs jobs now).1)
      × (select
            (λ j. not (has_status running j || has_status failed j))
            (fail_interrupted_jobs jobs now).0
          ≡ select (λ j. not (has_status running j || has_status failed j)) jobs)
fail_interrupted_jobs_lem jobs now =
    (recovered_none jobs now, count_split jobs now, others_kept jobs now)

-- Every row that the retry changes can be claimed again, and keeps its checkpoint.
abbrev retried : Job → Job
retried j = record j { status = pending; error = none; started_at = none; finished_at = none }

first?-update :
    (id : ℕ) (jobs : List Job) (j : Job)
    → first? (has_id id) jobs ≡ some j
    → first? (λ x. has_id id x && has_status pending x) (update (has_id id) retried jobs)
      ≡ some (retried j)
first?-update id [] j e = cc
first?-update id (x ∷ jobs) j e = elim (Bool-cases (has_id id x)) [
  | inl t ↦ rw (t, t) (ap retried' (rw t at e))
  | inr f ↦ rw (f, f) (first?-update id jobs j (rw f at e))
]
  where
    retried' : Option Job → Option Job
    retried' o = Option.map retried o

-- Whatever a job's status was, after `retry_job` it can be claimed by its id: it runs with the start
-- time of the claim, no error and no end, and with the checkpoint and the range that it had.
pub claim_job-retry_job :
    (jobs : List Job) (id now : ℕ) (j : Job)
    → get_job jobs id ≡ some j
    → (claim_job (retry_job jobs id) id now).1
      ≡ some (record j {
        status = running;
        error = none;
        started_at = some (stamp now);
        finished_at = none;
      })
unfolding get_job claim_job retry_job
claim_job-retry_job jobs id now j e = ap (Option.map (start_job now)) (first?-update id jobs j e)
