-- ===== src/Jobs/Lifecycle.antt =====
-- The table `jobs` under any sequence of the operations of src/heron/core/jobs.py and
-- src/heron/core/job_recovery.py.
use heron_mail.Prelude.{
  All, All-append, All-update, All-update_where, Bool, Bool-cases, Distinct, Distinct-snoc, List,
  Option, Option-cases, String, [], any, arith, has-beyond, inl, inr, is_some, map, map-update, not,
  refl, subst, sym, true, update, ℕ, ◌&&◌, ◌==◌, ◌∷◌, ◌≡◌,
}
use heron_mail.Result.{Result, err, ok}
use heron_mail.Collector.Tests.{message}
use heron_mail.Jobs.{
  claim_job, claim_next_job, create_job, fail_interrupted_jobs, has_id, has_status, job_id,
  mark_done, mark_failed, next_pending, retry_job, start_job, update_checkpoint,
}
use heron_mail.Jobs.Pending.{next_pending_only}
use heron_mail.Models.{Account, Job, JobStatus, done, failed, pending, running}
use heron_mail.Storage.Tests.{account}
use heron_mail.Timeutil.{DateRange, Stamp}

-- One call of an operation, with its arguments.
pub data Op : Type 0 where
  create : List Account → ℕ → String → DateRange → ℕ → Op
  claim : ℕ → ℕ → Op
  claim_next : ℕ → Op
  checkpoint : ℕ → ℕ → Op
  finish : ℕ → ℕ → Op
  fail : ℕ → String → ℕ → Op
  retry : ℕ → Op
  recover : ℕ → Op

-- A call that raises leaves the table.
abbrev pub created : List Job → Result (List Job × ℕ) → List Job
created jobs (ok (jobs', _)) = jobs'
created jobs (err _) = jobs

unfoldable pub apply : List Job → Op → List Job
apply jobs (create accounts account folder r now) =
    created jobs (create_job accounts jobs account folder r now)
apply jobs (claim id now) = (claim_job jobs id now).0
apply jobs (claim_next now) = (claim_next_job jobs now).0
apply jobs (checkpoint id uid) = update_checkpoint jobs id uid
apply jobs (finish id now) = mark_done jobs id now
apply jobs (fail id message now) = mark_failed jobs id message now
apply jobs (retry id) = retry_job jobs id
apply jobs (recover now) = (fail_interrupted_jobs jobs now).0

-- A pending job has no start and no end, a running one has a start and no end, and a finished one,
-- done or failed, has an end.
abbrev pub has_times : JobStatus → Option Stamp → Option Stamp → Bool
has_times pending started finished = not (is_some started) && not (is_some finished)
has_times running started finished = is_some started && not (is_some finished)
has_times done started finished = is_some finished
has_times failed started finished = is_some finished

abbrev pub IsConsistent : Job → Type 0
IsConsistent j = has_times j.status j.started_at j.finished_at ≡ true

pub record IsSound (jobs : List Job) : Type 0 where
  pub distinct : Distinct (map job_id jobs)
  pub consistent : All IsConsistent jobs

-- An update that keeps the ids and makes the changed rows consistent.
update-IsSound :
    (p : Job → Bool) (f : Job → Job) (jobs : List Job)
    → ((x : Job) → job_id (f x) ≡ job_id x)
    → ((x : Job) → p x ≡ true → IsConsistent x → IsConsistent (f x))
    → IsSound jobs
    → IsSound (update p f jobs)
update-IsSound p f jobs same keep s = record {
  distinct = subst Distinct (sym (map-update job_id p f jobs same)) s.distinct;
  consistent = All-update IsConsistent p f jobs keep s.consistent;
}

start-IsConsistent :
    (now : ℕ) (x : Job)
    → has_status pending x ≡ true
    → IsConsistent x
    → IsConsistent (start_job now x)
start-IsConsistent now x p c = ground arith

claim_next-IsSound :
    (jobs : List Job) (now : ℕ) → IsSound jobs → IsSound (claim_next_job jobs now).0
unfolding claim_next_job
claim_next-IsSound jobs now s = elim (Option-cases (next_pending jobs)) [
  | inl none_left ↦ rw (none_left, claim_next_job) s
  | inr (n, found) ↦
      rw (found, claim_next_job)
        (record {
          distinct = subst Distinct (sym (map-update job_id _ _ jobs (λ x. refl))) s.distinct;
          consistent =
              All-update_where IsConsistent _ (has_id n.id) (start_job now) jobs
                (λ x e w c. start-IsConsistent now x (w e) c)
                (next_pending_only jobs n found s.distinct) s.consistent;
        })
]

create-IsSound :
    (accounts : List Account) (jobs : List Job) (account : ℕ) (folder : String) (r : DateRange)
    (now : ℕ)
    → IsSound jobs
    → IsSound (created jobs (create_job accounts jobs account folder r now))
unfolding create_job
create-IsSound accounts jobs account folder r now s =
    elim (Bool-cases (any (λ (a : Account). a.id == account) accounts)) [
      | inl known ↦ rw known (record {
        distinct = Distinct-snoc job_id jobs _ (has-beyond job_id jobs _ (omega arith)) s.distinct;
        consistent = All-append IsConsistent jobs _ s.consistent (refl, tt);
      })
      | inr unknown ↦ rw unknown s
    ]

apply-IsSound : (jobs : List Job) (op : Op) → IsSound jobs → IsSound (apply jobs op)
unfolding apply claim_job update_checkpoint mark_done mark_failed retry_job fail_interrupted_jobs
apply-IsSound jobs (create accounts account folder r now) s =
    create-IsSound accounts jobs account folder r now s
apply-IsSound jobs (claim id now) s =
    update-IsSound _ _ jobs (λ x. refl) (λ x e c. start-IsConsistent now x (ground arith) c) s
apply-IsSound jobs (claim_next now) s = claim_next-IsSound jobs now s
apply-IsSound jobs (checkpoint id uid) s = update-IsSound _ _ jobs (λ x. refl) (λ x e c. c) s
apply-IsSound jobs (finish id now) s = update-IsSound _ _ jobs (λ x. refl) (λ x e c. refl) s
apply-IsSound jobs (fail id message now) s = update-IsSound _ _ jobs (λ x. refl) (λ x e c. refl) s
apply-IsSound jobs (retry id) s = update-IsSound _ _ jobs (λ x. refl) (λ x e c. refl) s
apply-IsSound jobs (recover now) s = update-IsSound _ _ jobs (λ x. refl) (λ x e c. refl) s

-- The table after a sequence of calls.
abbrev pub run : List Job → List Op → List Job
run jobs [] = jobs
run jobs (op ∷ ops) = run (apply jobs op) ops

run_from-IsSound : (ops : List Op) (jobs : List Job) → IsSound jobs → IsSound (run jobs ops)
run_from-IsSound [] jobs s = s
run_from-IsSound (op ∷ ops) jobs s = run_from-IsSound ops (apply jobs op) (apply-IsSound jobs op s)

-- From the empty table, whatever operations are called in whatever order, no id stands twice, a
-- pending job has no start and no end time, a running one has a start and no end, and a done or failed
-- one has an end.
pub run-IsSound : (ops : List Op) → IsSound (run [] ops)
run-IsSound ops = run_from-IsSound ops [] (record { distinct = tt; consistent = tt })
