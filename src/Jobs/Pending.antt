-- ===== src/Jobs/Pending.antt =====
-- The oldest pending job, `next_pending` of src/heron/core/jobs.py.
use mathlib.Core.List.{head?}
use mathlib.Core.Option
use heron_mail.Prelude.{
  ==_iff, ==_refl, All, All-head, All-mono, All-select, All-selected, All-sort_by, All-unsort_with,
  Bool-cases, Distinct, IsSortedBy, List, [], any, any-select, any-sort_by, any_of_head, arith,
  ascending, has_iff_any, has_selected, inl, inr, map, select, some, sort_by, sort_by-IsSortedBy,
  subst, sym, true, ◌&&◌, ◌∙◌, ◌∷◌, ◌≡◌, ◌≤◌,
}
use heron_mail.Jobs.{has_id, has_status, job_id, next_pending}
use heron_mail.Models.{Job, pending}

module _ (jobs : List Job) (n : Job) (found : next_pending jobs ≡ some n) where
  abbrev waiting : List Job
  waiting = select (has_status pending) jobs

  next_pending_waits : has_status pending n ≡ true
  next_pending_waits =
      All-head (λ x. has_status pending x ≡ true) (sort_by job_id waiting) n found
        (All-sort_by job_id (λ x. has_status pending x ≡ true) waiting
          (All-selected (has_status pending) jobs))

  -- No pending job is older.
  pub next_pending_least : All (λ x. n.id ≤ x.id) waiting
  next_pending_least =
      All-unsort_with (ascending job_id) (λ x. n.id ≤ x.id) waiting
        (head_least (sort_by job_id waiting) found (sort_by-IsSortedBy job_id waiting))
    where
      head_least :
          (xs : List Job) → head? xs ≡ some n → IsSortedBy job_id xs → All (λ x. n.id ≤ x.id) xs
      head_least [] e s = tt
      head_least (x ∷ xs) e s =
          let p = Option.some-injective _ _ e in
          subst (λ m. All (λ y. m.id ≤ y.id) (x ∷ xs)) p ((omega arith), s.0)

  pub next_pending_present : any (λ x. has_id n.id x && has_status pending x) jobs ≡ true
  next_pending_present =
      sym (any-select (has_id n.id) (has_status pending) jobs)
      ∙ sym (any-sort_by job_id (has_id n.id) waiting)
      ∙ any_of_head (has_id n.id) (sort_by job_id waiting) n found (==_refl n.id)

  pub next_pending_All {κ} :
      (P : Job → Type κ) → All (λ x. has_status pending x ≡ true → P x) jobs → P n
  next_pending_All P h =
      All-head (λ x. has_status pending x ≡ true → P x) (sort_by job_id waiting) n found
        (All-sort_by job_id _ waiting (All-select _ (has_status pending) jobs h)) next_pending_waits

  -- Every row with its id is pending.
  pub next_pending_only :
      Distinct (map job_id jobs)
      → All (λ x. has_id n.id x ≡ true → has_status pending x ≡ true) jobs
  next_pending_only d =
      All-mono _ (λ x. has_id n.id x ≡ true → has_status pending x ≡ true) jobs
        (λ x h e. elim (Bool-cases (has_status pending x)) [
          | inl t ↦ t
          | inr f ↦
              let same = (==_iff x.id n.id).0 e in
              let present =
                has_iff_any job_id x.id waiting
                ∙ subst (λ i. any (has_id i) waiting ≡ true) (sym same)
                    (any-select (has_id n.id) (has_status pending) jobs ∙ next_pending_present) in
              cc (h f, present)
        ])
        (has_selected job_id (has_status pending) jobs d)
