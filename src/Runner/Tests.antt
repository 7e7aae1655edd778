-- ===== src/Runner/Tests.antt =====
-- The theorems at a job on a server with three messages.
use heron_mail.Prelude.{All, List, [], arith, map, none, refl, some, ℕ, ◌∷◌, ◌≡◌, ◌≤◌}
use heron_mail.Result.{ok}
use heron_mail.Analyzer.Tests.{pipeline}
use heron_mail.Collector.{Mailbox, Store}
use heron_mail.Collector.Tests.{empty_store, library, message}
use heron_mail.Models.{Job, running}
use heron_mail.Runner.{chunked, job_ranges, run_job}
use heron_mail.Runner.Chunks.{Fits, chunked-flatten, flatten}
use heron_mail.Runner.Settling.{Settled, run_job-Settled}
use heron_mail.Storage.Tests.{two_accounts}
use heron_mail.Timeutil.{DateRange, from_utc_storage_string, new_range, widened_for_imap_search}

chunks_of_five :
    chunked (1 ∷ 2 ∷ 3 ∷ 4 ∷ 5 ∷ []) 2 ≡ ok ((1 ∷ 2 ∷ []) ∷ (3 ∷ 4 ∷ []) ∷ (5 ∷ []) ∷ [])
unfolding chunked
chunks_of_five = refl

one_le_two : 1 ≤ 2
one_le_two = omega arith

chunked-flatten_example :
    (chunks : List (List ℕ)) × (chunked (1 ∷ 2 ∷ 3 ∷ []) 2 ≡ ok chunks)
    × (flatten chunks ≡ 1 ∷ 2 ∷ 3 ∷ [])
    × All (Fits 2) chunks
chunked-flatten_example = chunked-flatten (1 ∷ 2 ∷ 3 ∷ []) 2 one_le_two

abbrev server : Mailbox
server = record {
  connect = λ host address password. ok tt;
  select_folder = λ folder. ok 7;
  search = λ r. ok (42 ∷ 40 ∷ 41 ∷ []);
  fetch = λ uids. ok (map (λ uid. (uid, message 200_000_000_000)) uids);
}

abbrev job : Job
job = record {
  id = 4;
  account_id = 1;
  folder = "INBOX";
  range_start = 100_000;
  range_end = 300_000;
  status = running;
  checkpoint_uid = some 40;
  error = none;
  created_at = 1;
  started_at = some 2;
  finished_at = none;
}

abbrev with_job : Store
with_job = record empty_store { vault = record two_accounts { jobs = job ∷ [] } }

abbrev job_range : DateRange
job_range = record { start = 100_000_000_000; end = 300_000_000_000 }

abbrev job_wide : DateRange
job_wide = record { start = 13_600_000_000; end = 386_400_000_000 }

has_ranges : job_ranges job ≡ ok (job_range, job_wide)
unfolding new_range widened_for_imap_search from_utc_storage_string
has_ranges = refl

run_job-Settled_example :
    ((run_job library server (λ s. ok s) (λ e. "") pipeline with_job job 1 9).1 ≡ ok tt)
    × Settled with_job
        (run_job library server (λ s. ok s) (λ e. "") pipeline with_job job 1 9).0
        job
        9
run_job-Settled_example =
    run_job-Settled library server (λ s. ok s) (λ e. "") pipeline with_job job 1 9 job_range
      job_wide has_ranges
