-- ===== src/Runner/Settling.antt =====
-- How `run_job` of src/heron/worker/runner.py ends.
use mathlib.Core.Option
use heron_mail.Prelude.{
  All, Bool-cases, List, Option-cases, String, [], ap, inl, inr, map, map-update, none, refl,
  select, some, subst, sym, true, update, ℕ, ◌==◌, ◌∙◌, ◌∷◌, ◌≡◌, ◌⊎◌,
}
use heron_mail.Result.{Error, Result, err, ok}
use heron_mail.Analyzer.{Pipeline, analyze_pending_safely, caught}
use heron_mail.Analyzer.Passes.{SameMail, analyze_pending_ends}
use heron_mail.Collector.{Library, Mailbox, Outcome, Store, and_then, target_of}
use heron_mail.Collector.Tests.{message}
use heron_mail.Coverage.{record_coverage}
use heron_mail.Jobs.{has_id, job_id, mark_done, mark_failed}
use heron_mail.Models.{Account, Job, JobStatus, done, failed}
use heron_mail.Runner.{
  after_pass, analysed, fail_job, failure_message, finish_job, job_ranges, open_job, run_job,
  run_range, settle,
}
use heron_mail.Runner.Jobs.{
  Keeps, Keeps-refl, and_then-Keeps, other_jobs, others-update, run_batches-Keeps, with_jobs-Keeps,
}
use heron_mail.Storage.{get_account}
use heron_mail.Text.{concat, decimal}
use heron_mail.Timeutil.{DateRange, stamp}

-- The status of the rows with an id.
abbrev pub AllHave : ℕ → JobStatus → List Job → Type 0
AllHave id status jobs = All (λ j. j.status ≡ status) (select (has_id id) jobs)

update-AllHave :
    (id : ℕ) (status : JobStatus) (f : Job → Job) (jobs : List Job)
    → ((x : Job) → (f x).id ≡ x.id)
    → ((x : Job) → (f x).status ≡ status)
    → AllHave id status (update (has_id id) f jobs)
update-AllHave id status f [] same set = tt
update-AllHave id status f (x ∷ jobs) same set = elim (Bool-cases (x.id == id)) [
  | inl t ↦
      let kept : ((f x).id == id) ≡ true = ap (λ i. i == id) (same x) ∙ t in
      rw (t, kept) (set x, update-AllHave id status f jobs same set)
  | inr e ↦ rw (e, e) (update-AllHave id status f jobs same set)
]

-- The job is done, and the range that its row names is recorded as covered for its account and folder.
pub record Completed (store after : Store) (job : Job) (now : ℕ) : Type 0 where
  pub account : Account
  pub date_range : DateRange
  pub wide : DateRange
  pub of_job : get_account store.vault job.account_id ≡ some account
  pub ranges : job_ranges job ≡ ok (date_range, wide)
  pub status : AllHave job.id done after.vault.jobs
  pub coverage :
      after.vault.coverage
      ≡ record_coverage store.vault.coverage account.id job.folder date_range now

-- The job has failed, and the coverage is as it was.
pub record GaveUp (store after : Store) (job : Job) : Type 0 where
  pub status : AllHave job.id failed after.vault.jobs
  pub coverage : after.vault.coverage ≡ store.vault.coverage

-- Either way, the other jobs are as they were.
pub record Settled (store after : Store) (job : Job) (now : ℕ) : Type 0 where
  pub others : other_jobs job.id after.vault.jobs ≡ other_jobs job.id store.vault.jobs
  pub ids : map job_id after.vault.jobs ≡ map job_id store.vault.jobs
  pub outcome : Completed store after job now ⊎ GaveUp store after job

failed_of :
    (store s : Store) (job : Job) (message : String) (now : ℕ)
    → Keeps job.id store s
    → Settled store (fail_job s job.id message now) job now
unfolding fail_job mark_failed
failed_of store s job message now k =
    let f = λ (j : Job). record j {
      status = failed;
      error = some message;
      finished_at = some (stamp now);
    } in
    let marked = with_jobs-Keeps job.id s f (λ x. refl) in
    record {
      others = marked.others ∙ k.others;
      ids = marked.ids ∙ k.ids;
      outcome = inr (record {
        status = update-AllHave job.id failed f s.vault.jobs (λ x. refl) (λ x. refl);
        coverage = k.coverage;
      });
    }

caught_store : (o : Outcome ℕ) → (caught o).0 ≡ o.0
caught_store (s, ok n) = refl
caught_store (s, err e) = refl

pub analysed-SameMail : (p : Pipeline) (s : Store) (now : ℕ) → SameMail s (analysed p s now)
unfolding analyze_pending_safely
analysed-SameMail p s now =
    let (o, ends, same) = analyze_pending_ends p s 200 now in
    subst (λ x. SameMail s (after_pass s x)) (sym (ap (Option.map caught) ends))
      (subst (SameMail s) (sym (caught_store o)) same)

module _ (store s : Store) (account : Account) (job : Job) (r wide : DateRange) (now : ℕ)
    (p : Pipeline) (found : get_account store.vault job.account_id ≡ some account)
    (ranges : job_ranges job ≡ ok (r, wide)) (k : Keeps job.id store s) where
  finished : Store
  finished = finish_job s account job r now

  done_of : Settled store (analysed p finished now) job now
  unfolding finished finish_job mark_done
  done_of =
      let f = λ (j : Job). record j { status = done; finished_at = some (stamp now) } in
      let same = analysed-SameMail p finished now in
      record {
        others =
            ap (other_jobs job.id) same.jobs
            ∙ others-update job.id f s.vault.jobs (λ x. refl)
            ∙ k.others;
        ids =
            ap (map job_id) same.jobs
            ∙ map-update job_id (has_id job.id) f s.vault.jobs (λ x. refl)
            ∙ k.ids;
        outcome = inl (record {
          account = account;
          date_range = r;
          wide = wide;
          of_job = found;
          ranges = ranges;
          status =
              subst (AllHave job.id done) (sym same.jobs)
                (update-AllHave job.id done f s.vault.jobs (λ x. refl) (λ x. refl));
          coverage =
              same.coverage ∙ ap (λ c. record_coverage c account.id job.folder r now) k.coverage;
        });
      }

settle-Settled :
    (text : Error → String) (store : Store) (account : Account) (job : Job) (r wide : DateRange)
    (now : ℕ) (p : Pipeline) (o : Outcome (Unit {0}))
    → get_account store.vault job.account_id ≡ some account
    → job_ranges job ≡ ok (r, wide)
    → Keeps job.id store o.0
    → Settled store (settle text account job r now p o) job now
settle-Settled text store account job r wide now p (s, ok _) found ranges k =
    (unfold done_of in done_of store s account job r wide now p found ranges k)
settle-Settled text store account job r wide now p (s, err e) found ranges k =
    failed_of store s job (failure_message text e) now k

module _ (lib : Library) (mail : Mailbox) (decrypt : String → Result String) (text : Error → String)
    (p : Pipeline) (store : Store) (job : Job) (batch_size now : ℕ) where
  run_job_gone :
      get_account store.vault job.account_id ≡ none
      → run_job lib mail decrypt text p store job batch_size now ≡ (
        fail_job store job.id
            (concat ("account " ∷ decimal job.account_id ∷ " no longer exists" ∷ []))
            now,
        ok tt,
      )
  unfolding run_job
  run_job_gone e = rw (e, run_job) refl

  run_job_found :
      (account : Account) (r wide : DateRange)
      → get_account store.vault job.account_id ≡ some account
      → job_ranges job ≡ ok (r, wide)
      → run_job lib mail decrypt text p store job batch_size now ≡ (
        settle text account job r now p
            (run_range lib mail decrypt store account job r wide batch_size now),
        ok tt,
      )
  unfolding run_job
  run_job_found account r wide e ranges = rw (e, run_job) (ap goes_on ranges)
    where
      goes_on : Result (DateRange × DateRange) → Outcome (Unit {0})
      goes_on found =
          and_then (store, found)
            (λ s ranges. (
              settle text account job ranges.0 now p
                  (run_range lib mail decrypt s account job ranges.0 ranges.1 batch_size now),
              ok tt,
            ))

  run_range-Keeps :
      (account : Account) (r wide : DateRange)
      → Keeps job.id store (run_range lib mail decrypt store account job r wide batch_size now).0
  run_range-Keeps account r wide =
      and_then-Keeps job.id store (store, open_job mail decrypt account job wide batch_size) _
        (Keeps-refl job.id store)
        (λ s opened.
          run_batches-Keeps job.id lib mail s (target_of account job.folder opened.0 r) opened.1
            now)

-- A job whose row names a range that can be searched always ends without an exception: it is done, with
-- its range recorded as covered, or it has failed, with the coverage unchanged, whatever the server, the
-- decryption, the file system and the messages do. No other job changes.
pub run_job-Settled :
    (lib : Library) (mail : Mailbox) (decrypt : String → Result String) (text : Error → String)
    (p : Pipeline) (store : Store) (job : Job) (batch_size now : ℕ) (r wide : DateRange)
    → job_ranges job ≡ ok (r, wide)
    → ((run_job lib mail decrypt text p store job batch_size now).1 ≡ ok tt)
      × Settled store (run_job lib mail decrypt text p store job batch_size now).0 job now
run_job-Settled lib mail decrypt text p store job batch_size now r wide ranges =
    elim (Option-cases (get_account store.vault job.account_id)) [
      | inl gone ↦
          subst (λ (o : Outcome (Unit {0})). (o.1 ≡ ok tt) × Settled store o.0 job now)
            (sym (run_job_gone lib mail decrypt text p store job batch_size now gone))
            (refl, failed_of store store job _ now (Keeps-refl job.id store))
      | inr (account, found) ↦
          subst (λ (o : Outcome (Unit {0})). (o.1 ≡ ok tt) × Settled store o.0 job now)
            (sym (
              run_job_found lib mail decrypt text p store job batch_size now account r wide found
                ranges))
            (
              refl,
              settle-Settled text store account job r wide now p
                  (run_range lib mail decrypt store account job r wide batch_size now) found ranges
                  (run_range-Keeps lib mail decrypt text p store job batch_size now account r wide),
            )
    ]
