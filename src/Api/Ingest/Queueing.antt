-- ===== src/Api/Ingest/Queueing.antt =====
-- The jobs that `ingest` of src/heron/api/ingest.py queues.
use mathlib.Core.Option
use mathlib.Core.List.{append-nil, append_assoc}
use heron_mail.Prelude.{
  ==_refl, Bool, List, Option, String, [], any, ap, ap₂, arith, false, first?, max, max_id, next_id,
  none, refl, some, suc, sym, true, update, ℕ, ◌&&◌, ◌++◌, ◌<◌, ◌==◌, ◌∙◌, ◌∷◌, ◌≡◌,
}
use heron_mail.Result.{Result, ok}
use heron_mail.Api.Ingest.{queue_claimed, queue_gaps, with_claimed}
use heron_mail.Jobs.{claim_job, create_job, has_id, has_status, job_id, start_job}
use heron_mail.Models.{Account, Job, pending}
use heron_mail.Timeutil.{DateRange, stamp}

-- The row of a new job.
abbrev pub queued_job : ℕ → ℕ → String → DateRange → ℕ → Job
queued_job id account folder gap now = record {
  id = id;
  account_id = account;
  folder = folder;
  range_start = stamp gap.start;
  range_end = stamp gap.end;
  status = pending;
  checkpoint_uid = none;
  error = none;
  created_at = stamp now;
  started_at = none;
  finished_at = none;
}

-- A running job for each gap, with ids one after another.
abbrev pub jobs_for : ℕ → ℕ → String → ℕ → List DateRange → List Job
jobs_for id account folder now [] = []
jobs_for id account folder now (gap ∷ gaps) =
    start_job now (queued_job id account folder gap now) ∷ jobs_for (suc id) account folder now gaps

max_id-snoc :
    (jobs : List Job) (j : Job) → max_id job_id (jobs ++ j ∷ []) ≡ max (max_id job_id jobs) j.id
max_id-snoc [] j = omega arith
max_id-snoc (x ∷ jobs) j = ap (max x.id) (max_id-snoc jobs j) ∙ omega arith

update_none :
    (p : Job → Bool) (f : Job → Job) (xs ys : List Job)
    → any p xs ≡ false
    → update p f (xs ++ ys) ≡ xs ++ update p f ys
update_none p f [] ys h = refl
update_none p f (x ∷ xs) ys h = ground (arith, update_none p f xs ys)

first_none :
    (p : Job → Bool) (xs ys : List Job) → any p xs ≡ false → first? p (xs ++ ys) ≡ first? p ys
first_none p [] ys h = refl
first_none p (x ∷ xs) ys h = ground (arith, first_none p xs ys)

unclaimed :
    (jobs : List Job) (id : ℕ)
    → max_id job_id jobs < id
    → any (λ (j : Job). has_id id j && has_status pending j) jobs ≡ false
unclaimed [] id h = refl
unclaimed (x ∷ jobs) id h =
    let e : (x.id == id) ≡ false = ground arith in
    let rest = unclaimed jobs id (omega arith) in rw (e, rest)

both : {A B : Type 0} → A → B → A × B
both a b = (a, b)

claim_queued :
    (jobs : List Job) (id account : ℕ) (folder : String) (gap : DateRange) (now : ℕ)
    → max_id job_id jobs < id
    → claim_job (jobs ++ queued_job id account folder gap now ∷ []) id now ≡ (
      jobs ++ start_job now (queued_job id account folder gap now) ∷ [],
      some (start_job now (queued_job id account folder gap now)),
    )
unfolding claim_job both
claim_queued jobs id account folder gap now h =
    let p = λ (j : Job). has_id id j && has_status pending j in
    let new = queued_job id account folder gap now in
    let none_yet = unclaimed jobs id h in
    let hit : (id == id) ≡ true = ==_refl id in
    let started : update p (start_job now) (new ∷ []) ≡ start_job now new ∷ [] = rw hit in
    let found : first? p (new ∷ []) ≡ some new = rw hit in
    ap₂ both (update_none p (start_job now) jobs (new ∷ []) none_yet ∙ ap (λ l. jobs ++ l) started)
      (ap (Option.map (start_job now)) (first_none p jobs (new ∷ []) none_yet ∙ found))

created_lem :
    (accounts : List Account) (account : ℕ) (folder : String) (gap : DateRange) (now : ℕ)
    (jobs : List Job)
    → any (λ (a : Account). a.id == account) accounts ≡ true
    → create_job accounts jobs account folder gap now
      ≡ ok (
        jobs ++ queued_job (next_id job_id jobs) account folder gap now ∷ [],
        next_id job_id jobs,
      )
unfolding create_job
created_lem accounts account folder gap now jobs known = rw known

next_id-snoc :
    (jobs : List Job) (j : Job)
    → j.id ≡ next_id job_id jobs
    → next_id job_id (jobs ++ j ∷ []) ≡ suc (next_id job_id jobs)
next_id-snoc jobs j e = ap suc (max_id-snoc jobs j) ∙ omega (arith, e)

pub queue_gaps_lem :
    (accounts : List Account) (account : ℕ) (folder : String) (now : ℕ) (gaps : List DateRange)
    (jobs : List Job)
    → any (λ (a : Account). a.id == account) accounts ≡ true
    → queue_gaps accounts account folder now gaps jobs ≡ (
      jobs ++ jobs_for (next_id job_id jobs) account folder now gaps,
      ok (jobs_for (next_id job_id jobs) account folder now gaps),
    )
unfolding queue_gaps both
queue_gaps_lem accounts account folder now [] jobs known =
    ap (λ (l : List Job). both {B = Result (List Job)} l (ok [])) (sym (append-nil jobs))
queue_gaps_lem accounts account folder now (gap ∷ gaps) jobs known =
    let id = next_id job_id jobs in
    let started = start_job now (queued_job id account folder gap now) in
    let next = queue_gaps accounts account folder now gaps in
    let later = jobs_for (suc id) account folder now gaps in
    ap (λ r. queue_claimed now r jobs next) (created_lem accounts account folder gap now jobs known)
    ∙ ap (λ (c : List Job × Option Job). with_claimed c.1 (next c.0))
        (claim_queued jobs id account folder gap now (omega arith))
    ∙ ap (with_claimed (some started)) (
        queue_gaps_lem accounts account folder now gaps (jobs ++ started ∷ []) known
        ∙ ap₂
            (λ (l : List Job) (n : ℕ).
              both (l ++ jobs_for n account folder now gaps)
                (ok (jobs_for n account folder now gaps)))
            refl (next_id-snoc jobs started refl)
        ∙ ap (λ (l : List Job). both {B = Result (List Job)} l (ok later))
            (append_assoc jobs (started ∷ []) later))
