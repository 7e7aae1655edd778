-- ===== src/Jobs/Tests.antt =====
-- The job queue on concrete tables, and the theorems at concrete inputs.
use heron_mail.Prelude.{
  All, List, Option, [], any, none, not, refl, select, some, true, ℕ, ◌&&◌, ◌∷◌, ◌≡◌, ◌≢◌, ◌≤◌,
}
use heron_mail.Jobs.{
  claim_job, claim_next_job, create_job, get_job, has_id, has_status, mark_failed, retry_job,
  update_checkpoint,
}
use heron_mail.Jobs.Claims.{claim_next_job-distinct, claim_next_job-oldest}
use heron_mail.Jobs.Lifecycle.{
  IsSound, Op, apply, checkpoint, claim, claim_next, create, fail, recover, retry, run, run-IsSound,
}
use heron_mail.Jobs.Recovery.{claim_job-retry_job}
use heron_mail.Models.{Account, Job, JobStatus, failed, pending, running}
use heron_mail.Timeutil.{DateRange, stamp}

abbrev mailbox : Account
mailbox = record {
  id = 1;
  email_address = "a@example.com";
  imap_host = "imap.example.com";
  imap_port = 993;
  encrypted_password = "x";
  created_at = 0;
}

abbrev a_day : DateRange
a_day = record { start = 0; end = 86_400_000_000 }

abbrev new_job : ℕ → Op
new_job t = create (mailbox ∷ []) 1 "INBOX" a_day t

abbrev three_calls : List Op
three_calls = new_job 0 ∷ new_job 0 ∷ claim_next 5_000_000 ∷ []

abbrev queue : List Job
queue = run [] three_calls

abbrev job_2 : JobStatus → Option ℕ → Option ℕ → Job
job_2 s start upto = record {
  id = 2;
  account_id = 1;
  folder = "INBOX";
  range_start = 0;
  range_end = 86_400;
  status = s;
  checkpoint_uid = upto;
  error = none;
  created_at = 0;
  started_at = start;
  finished_at = none;
}

-- The first of two jobs is running, so the second is the next to be claimed.
claims_job_2 : (claim_next_job queue 7_000_000).1 ≡ some (job_2 running (some 7) none)
unfolding apply create_job claim_next_job
claims_job_2 = refl

claim_next_job-oldest_example :
    ((running ≡ running) × (some 7 ≡ some (stamp 7_000_000)))
    × (get_job (claim_next_job queue 7_000_000).0 2 ≡ some (job_2 running (some 7) none))
    × (select (λ x. not (has_id 2 x)) (claim_next_job queue 7_000_000).0
        ≡ select (λ x. not (has_id 2 x)) queue)
    × (any (λ x. has_id 2 x && has_status pending x) queue ≡ true)
    × All (λ x. 2 ≤ x.id) (select (has_status pending) queue)
claim_next_job-oldest_example =
    claim_next_job-oldest queue 7_000_000 (job_2 running (some 7) none) claims_job_2

abbrev two_pending : List Job
two_pending = run [] (new_job 0 ∷ new_job 0 ∷ [])

abbrev job_1 : Job
job_1 = record (job_2 running (some 5) none) { id = 1 }

claims_job_1 : (claim_next_job two_pending 5_000_000).1 ≡ some job_1
unfolding apply create_job claim_next_job
claims_job_1 = refl

claims_job_2_after :
    (claim_next_job (claim_next_job two_pending 5_000_000).0 7_000_000).1
    ≡ some (job_2 running (some 7) none)
unfolding apply create_job claim_next_job
claims_job_2_after = refl

claim_next_job-distinct_example : ◌≢◌ {A = ℕ} 1 2
claim_next_job-distinct_example =
    claim_next_job-distinct two_pending 5_000_000 7_000_000 job_1 (job_2 running (some 7) none)
      claims_job_1 claims_job_2_after

run-IsSound_example :
    IsSound (run [] (new_job 0 ∷ claim 1 9 ∷ fail 1 "lost" 9 ∷ retry 1 ∷ recover 3 ∷ []))
run-IsSound_example =
    run-IsSound (new_job 0 ∷ claim 1 9 ∷ fail 1 "lost" 9 ∷ retry 1 ∷ recover 3 ∷ [])

-- A job that failed after its checkpoint.
abbrev failed_queue : List Job
failed_queue = run two_pending (claim 2 1 ∷ checkpoint 2 40 ∷ fail 2 "lost" 3_000_000 ∷ [])

abbrev failed_job : Job
failed_job = record (job_2 failed (some 0) (some 40)) { error = some "lost"; finished_at = some 3 }

gets_failed_job : get_job failed_queue 2 ≡ some failed_job
unfolding get_job apply create_job claim_job update_checkpoint mark_failed
gets_failed_job = refl

claim_job-retry_job_example :
    (claim_job (retry_job failed_queue 2) 2 8_000_000).1 ≡ some (job_2 running (some 8) (some 40))
claim_job-retry_job_example =
    claim_job-retry_job failed_queue 2 8_000_000 failed_job gets_failed_job
