-- ===== src/Jobs/Listing.antt =====
-- `list_jobs` of src/heron/core/jobs.py.
use mathlib.Core.List.{Perm}
use heron_mail.Prelude.{
  All, All-selected, All-sort_with, All-take, IsSortedDescBy, List, Option, Pairwise-take, arith,
  descending, length, length-sort_with, length-take-le, select, sort_desc_by,
  sort_desc_by-IsSortedDescBy, sort_with-perm, take_all, true, ℕ, ◌≡◌, ◌≤◌,
}
use heron_mail.Jobs.{job_id, list_jobs, matches}
use heron_mail.Models.{Job, JobStatus}

module _ (jobs : List Job) (account : Option ℕ) (status : Option JobStatus) (limit : ℕ) where
  abbrev found : List Job
  found = select (matches account status) jobs

  -- The listed jobs pass both filters, the newest stands first, and there are at most `limit` of them.
  pub list_jobs_lem :
      All (λ j. matches account status j ≡ true) (list_jobs jobs account status limit)
      × IsSortedDescBy job_id (list_jobs jobs account status limit)
      × (length (list_jobs jobs account status limit) ≤ limit)
  unfolding list_jobs
  list_jobs_lem = (
    All-take _ limit (sort_desc_by job_id found)
        (All-sort_with (descending job_id) _ found (All-selected (matches account status) jobs)),
    Pairwise-take _ limit (sort_desc_by job_id found) (sort_desc_by-IsSortedDescBy job_id found),
    length-take-le limit (sort_desc_by job_id found),
  )

  -- Where no more than `limit` jobs pass the filters, all of those are listed, each once.
  pub list_jobs_all : length found ≤ limit → Perm (list_jobs jobs account status limit) found
  unfolding list_jobs
  list_jobs_all few =
      rw
        (take_all limit (sort_desc_by job_id found)
          (omega (arith, length-sort_with {0} (descending job_id) found)))
        (sort_with-perm (descending job_id) found)
