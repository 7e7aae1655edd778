-- ===== src/Runner.antt =====
-- src/heron/worker/runner.py.
pub mod Chunks
pub mod Jobs
pub mod Settling
pub mod Tests
use heron_mail.Prelude.{
  List, Option, String, [], drop, false, if◌then◌else◌, length, ltb, none, select, some, sort_by,
  suc, take, zero, ℕ, ◌==◌, ◌∷◌,
}
use heron_mail.Result.{Error, Result, err, imap_connection_error, ok, value_error, ◌>>=◌, ◌>>◌}
use heron_mail.Analyzer.{Pipeline, analyze_pending_safely}
use heron_mail.Collector.{
  FetchedMessage, Library, Mailbox, Outcome, Store, Target, and_then, store_if_in_range, target_of,
}
use heron_mail.Coverage.{record_coverage}
use heron_mail.Coverage.Hull.{ranges}
use heron_mail.Jobs.{job_id, mark_done, mark_failed, update_checkpoint}
use heron_mail.Models.{Account, Job}
use heron_mail.Rules.{error_name}
use heron_mail.Storage.{get_account}
use heron_mail.Text.{chars, collapse, concat, decimal, from_chars}
use heron_mail.Timeutil.{
  DateRange, aware, from_utc_storage_string, new_range, widened_for_imap_search,
}

-- `_chunked`: the fuel is the number of items, and each chunk takes at least one.
unfoldable pub chunked_fuel {ℓ} : {A : Type ℓ} → ℕ → List A → ℕ → List (List A)
chunked_fuel zero items size = []
chunked_fuel (suc fuel) [] size = []
chunked_fuel (suc fuel) (x ∷ items) size =
    take size (x ∷ items) ∷ chunked_fuel fuel (drop size (x ∷ items)) size

-- A step of 0 raises.
unfoldable pub chunked : List ℕ → ℕ → Result (List (List ℕ))
unfolding chunked_fuel
chunked items size =
    if size == 0
    then err (value_error "range() arg 3 must not be zero")
    else ok (chunked_fuel (length items) items size)

-- fetched.get(uid)
abbrev pub get_message : List (ℕ × FetchedMessage) → ℕ → Option FetchedMessage
get_message [] uid = none
get_message ((u, m) ∷ rest) uid = if u == uid then some m else get_message rest uid

-- The inner loop. A message that is gone from the server is skipped.
unfoldable pub store_batch :
    Library → Store → Target → List (ℕ × FetchedMessage) → List ℕ → ℕ → Outcome (Unit {0})
store_batch lib store target fetched [] now = (store, ok tt)
store_batch lib store target fetched (uid ∷ rest) now = elim (get_message fetched uid) [
  | none ↦ store_batch lib store target fetched rest now
  | some message ↦
      and_then (store_if_in_range lib store target uid message now)
        (λ s _. store_batch lib s target fetched rest now)
]

-- batch[-1], and 0 for no batch that there is
abbrev pub last_uid : List ℕ → ℕ
last_uid [] = 0
last_uid (uid ∷ []) = uid
last_uid (uid ∷ next ∷ rest) = last_uid (next ∷ rest)

abbrev pub with_jobs : Store → List Job → Store
with_jobs store jobs = record store { vault = record store.vault { jobs = jobs } }

-- The outer loop: the checkpoint is written once a batch is stored.
unfoldable pub run_batches :
    Library → Mailbox → Store → Target → ℕ → List (List ℕ) → ℕ → Outcome (Unit {0})
run_batches lib mail store target job_id [] now = (store, ok tt)
run_batches lib mail store target job_id (batch ∷ rest) now =
    and_then (store, mail.fetch batch)
      (λ s fetched. and_then (store_batch lib s target fetched batch now) (λ s' _.
        run_batches lib mail
          (with_jobs s' (update_checkpoint s'.vault.jobs job_id (last_uid batch))) target job_id
          rest now))

-- The UIDs that are left to fetch.
abbrev pub remaining : Option ℕ → List ℕ → List ℕ
remaining none uids = uids
remaining (some reached) uids = select (λ uid. ltb reached uid) uids

abbrev pub uid_key : ℕ → ℕ
uid_key uid = uid

-- What the `try` block does before its loop.
unfoldable pub open_job :
    Mailbox → (String → Result String) → Account → Job → DateRange → ℕ → Result (ℕ × List (List ℕ))
open_job mail decrypt account job wide batch_size = do
  password ← decrypt account.encrypted_password
  connected ← mail.connect account.imap_host account.email_address password
  uidvalidity ← mail.select_folder job.folder
  uids ← mail.search wide
  batches ← chunked (remaining job.checkpoint_uid (sort_by uid_key uids)) batch_size
  ok (uidvalidity, batches)

-- The text that `mark_failed` gets; `text` is `str` of an exception.
unfoldable pub failure_message : (Error → String) → Error → String
unfolding collapse
failure_message text (imap_connection_error m) = m
failure_message text e = concat (
    "Unexpected error ("
    ∷ error_name e
    ∷ "): "
    ∷ from_chars (take 200 (collapse false false (chars (text e))))
    ∷ [])

unfoldable pub fail_job : Store → ℕ → String → ℕ → Store
fail_job store id message now = with_jobs store (mark_failed store.vault.jobs id message now)

-- After the loop: the coverage, and the status.
unfoldable pub finish_job : Store → Account → Job → DateRange → ℕ → Store
finish_job store account job r now = record store {
  vault = record store.vault {
    coverage = record_coverage store.vault.coverage account.id job.folder r now;
    jobs = mark_done store.vault.jobs job.id now;
  };
}

abbrev pub after_pass : Store → Option (Store × ℕ) → Store
after_pass store none = store
after_pass store (some (after, saved)) = after

-- The store after `analyze_pending_safely`.
abbrev pub analysed : Pipeline → Store → ℕ → Store
analysed p store now = after_pass store (analyze_pending_safely p store now)

-- How the `try` statement goes on.
abbrev pub settle :
    (Error → String) → Account → Job → DateRange → ℕ → Pipeline → Outcome (Unit {0}) → Store
settle text account job r now p (store, ok _) = analysed p (finish_job store account job r now) now
settle text account job r now p (store, err e) = fail_job store job.id (failure_message text e) now

abbrev pub run_range :
    Library
    → Mailbox
    → (String → Result String)
    → Store
    → Account
    → Job
    → DateRange
    → DateRange
    → ℕ
    → ℕ
    → Outcome (Unit {0})
run_range lib mail decrypt store account job r wide batch_size now =
    and_then (store, open_job mail decrypt account job wide batch_size)
      (λ s opened.
        run_batches lib mail s (target_of account job.folder opened.0 r) job.id opened.1 now)

-- The range of the job, and what is searched; a row with no range in it raises before the `try`.
abbrev pub job_ranges : Job → Result (DateRange × DateRange)
job_ranges job = do
  r ←
      new_range (aware (from_utc_storage_string job.range_start))
        (aware (from_utc_storage_string job.range_end))
  wide ← widened_for_imap_search r
  ok (r, wide)

unfoldable pub run_job :
    Library
    → Mailbox
    → (String → Result String)
    → (Error → String)
    → Pipeline
    → Store
    → Job
    → ℕ
    → ℕ
    → Outcome (Unit {0})
run_job lib mail decrypt text p store job batch_size now =
    elim (get_account store.vault job.account_id) [
      | none ↦ (
        fail_job store job.id
            (concat ("account " ∷ decimal job.account_id ∷ " no longer exists" ∷ [])) now,
        ok tt,
      )
      | some account ↦
          and_then (store, job_ranges job)
            (λ s ranges. (
              settle text account job ranges.0 now p
                  (run_range lib mail decrypt s account job ranges.0 ranges.1 batch_size now),
              ok tt,
            ))
    ]
