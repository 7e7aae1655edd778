-- ===== src/Jobs/Claims.antt =====
-- Claiming: the oldest pending job is claimed, and no job is claimed twice.
use mathlib.Core.List.{head?}
use mathlib.Core.Option
use heron_mail.Prelude.{
  ==_iff, All, All-updated, Bool, Bool-cases, List, Option, Option-cases, [], any, any-select,
  any-sort_by, any_of_head, ap, arith, false, first?, first?_of_any, first?_passes, inl, inr, none,
  not, refl, select, some, sort_by, subst, sym, true, update, ℕ, ◌&&◌, ◌==◌, ◌↔◌, ◌∙◌, ◌∷◌, ◌≡◌,
  ◌≢◌, ◌≤◌,
}
use heron_mail.Jobs.{claim_next_job, get_job, has_id, has_status, job_id, next_pending, start_job}
use heron_mail.Jobs.Pending.{next_pending_All, next_pending_least, next_pending_present}
use heron_mail.Models.{Job, pending, running}
use heron_mail.Timeutil.{stamp}

claim_next_job_at :
    (jobs : List Job) (now : ℕ) (n : Job)
    → next_pending jobs ≡ some n
    → claim_next_job jobs now ≡ (
      update (has_id n.id) (start_job now) jobs,
      Option.map (start_job now) (first? (has_id n.id) jobs),
    )
unfolding claim_next_job
claim_next_job_at jobs now n e = rw (e, claim_next_job)

claim_next_job_empty :
    (jobs : List Job) (now : ℕ) → next_pending jobs ≡ none → claim_next_job jobs now ≡ (jobs, none)
unfolding claim_next_job
claim_next_job_empty jobs now e = rw (e, claim_next_job)

-- The claimed row is the started copy of a row with the id of the oldest pending one.
claimed_from :
    (jobs : List Job) (now : ℕ) (j : Job)
    → (claim_next_job jobs now).1 ≡ some j
    → (n : Job) × (next_pending jobs ≡ some n) × (m : Job) × (m.id ≡ n.id) × (j ≡ start_job now m)
claimed_from jobs now j e = elim (Option-cases (next_pending jobs)) [
  | inl none_left ↦
      cc (ap (λ (r : List Job × Option Job). r.1) (claim_next_job_empty jobs now none_left))
  | inr (n, found) ↦
      let e' =
        sym (ap (λ (r : List Job × Option Job). r.1) (claim_next_job_at jobs now n found)) ∙ e in
      elim (Option-cases (first? (has_id n.id) jobs)) [
        | inl absent ↦ cc (e', absent)
        | inr (m, present) ↦ (
          n,
          found,
          m,
          (==_iff _ _).0 (first?_passes (has_id n.id) jobs m present),
          sym (Option.some-injective _ _ (sym (ap (Option.map (start_job now)) present) ∙ e')),
        )
      ]
]

-- A claim changes the rows with the claimed id only.
others_kept :
    (i now : ℕ) (jobs : List Job)
    → select (λ x. not (has_id i x)) (update (has_id i) (start_job now) jobs)
      ≡ select (λ x. not (has_id i x)) jobs
others_kept i now [] = refl
others_kept i now (x ∷ xs) = elim (Bool-cases (x.id == i)) [
  | inl e ↦ rw (e, e, others_kept i now xs) refl
  | inr e ↦ rw (e, e, others_kept i now xs) refl
]

-- The first row with an id after the rows with it are started.
first?_started :
    (i now : ℕ) (jobs : List Job)
    → first? (has_id i) (update (has_id i) (start_job now) jobs)
      ≡ Option.map (start_job now) (first? (has_id i) jobs)
first?_started i now [] = refl
first?_started i now (x ∷ xs) = elim (Bool-cases (x.id == i)) [
  | inl e ↦ rw (e, e) refl
  | inr e ↦ rw (e, e) (first?_started i now xs)
]

-- The table and the row after a claim, by the id that was claimed.
claimed_table :
    (jobs : List Job) (now : ℕ) (j : Job)
    → (claim_next_job jobs now).1 ≡ some j
    → ((claim_next_job jobs now).0 ≡ update (has_id j.id) (start_job now) jobs)
      × (Option.map (start_job now) (first? (has_id j.id) jobs) ≡ some j)
claimed_table jobs now j e =
    let (n, found, m, same, started) = claimed_from jobs now j e in
    let same_id : n.id ≡ j.id = sym (ap job_id started ∙ same) in
    let at = claim_next_job_at jobs now n found in
    (
      ap (λ (r : List Job × Option Job). r.0) at
          ∙ ap (λ i. update (has_id i) (start_job now) jobs) same_id,
      ap (λ i. Option.map (start_job now) (first? (has_id i) jobs)) (sym same_id)
          ∙ sym (ap (λ (r : List Job × Option Job). r.1) at)
          ∙ e,
    )

-- The claimed job was a pending job of the queue, and no pending job had a smaller id. It is running since
-- the claim's time, the table has that row at its id from now on, and every row with another id is as it
-- was.
pub claim_next_job-oldest :
    (jobs : List Job) (now : ℕ) (j : Job)
    → (claim_next_job jobs now).1 ≡ some j
    → ((j.status ≡ running) × (j.started_at ≡ some (stamp now)))
      × (get_job (claim_next_job jobs now).0 j.id ≡ some j)
      × (select (λ x. not (has_id j.id x)) (claim_next_job jobs now).0
          ≡ select (λ x. not (has_id j.id x)) jobs)
      × (any (λ x. has_id j.id x && has_status pending x) jobs ≡ true)
      × All (λ x. j.id ≤ x.id) (select (has_status pending) jobs)
unfolding get_job
claim_next_job-oldest jobs now j e =
    let (n, found, m, same, started) = claimed_from jobs now j e in
    let same_id : j.id ≡ n.id = ap job_id started ∙ same in
    let (table, row) = claimed_table jobs now j e in
    (
      (ap (λ (x : Job). x.status) started, ap (λ (x : Job). x.started_at) started),
      ap (first? (has_id j.id)) table ∙ first?_started j.id now jobs ∙ row,
      ap (select (λ x. not (has_id j.id x))) table ∙ others_kept j.id now jobs,
      subst (λ i. any (λ x. has_id i x && has_status pending x) jobs ≡ true) (sym same_id)
          (next_pending_present jobs n found),
      subst (λ i. All (λ x. i ≤ x.id) (select (has_status pending) jobs)) (sym same_id)
          (next_pending_least jobs n found),
    )

any_of_waiting :
    (jobs : List Job)
    → any (λ _. true) (sort_by job_id (select (has_status pending) jobs))
      ≡ any (has_status pending) jobs
any_of_waiting jobs =
    any-sort_by job_id (λ _. true) (select (has_status pending) jobs)
    ∙ any-select (λ _. true) (has_status pending) jobs

none_of_head : (xs : List Job) → head? xs ≡ none → any (λ _. true) xs ≡ false
none_of_head [] e = refl
none_of_head (x ∷ xs) e = cc

any_and_left :
    (p q : Job → Bool) (xs : List Job) → any (λ x. p x && q x) xs ≡ true → any p xs ≡ true
any_and_left p q [] h = h
any_and_left p q (x ∷ xs) h = ground (arith, any_and_left p q xs)

-- Nothing is claimed exactly if no job is pending.
pub claim_next_job-none :
    (jobs : List Job) (now : ℕ)
    → ((claim_next_job jobs now).1 ≡ none) ↔ (any (has_status pending) jobs ≡ false)
claim_next_job-none jobs now = (λ e. empty_queue e, λ e. nothing_claimed e)
  where
    empty_queue : (claim_next_job jobs now).1 ≡ none → any (has_status pending) jobs ≡ false
    empty_queue e = elim (Option-cases (next_pending jobs)) [
      | inl none_left ↦
          sym (any_of_waiting jobs)
          ∙ none_of_head (sort_by job_id (select (has_status pending) jobs)) none_left
      | inr (n, found) ↦
          let (m, present) = first?_of_any (has_id n.id) jobs (
            any_and_left (has_id n.id) (has_status pending) jobs
              (next_pending_present jobs n found)) in
          cc (
            e,
            ap (λ (r : List Job × Option Job). r.1) (claim_next_job_at jobs now n found),
            ap (Option.map (start_job now)) present,
          )
    ]

    nothing_claimed : any (has_status pending) jobs ≡ false → (claim_next_job jobs now).1 ≡ none
    nothing_claimed e = elim (Option-cases (next_pending jobs)) [
      | inl none_left ↦
          ap (λ (r : List Job × Option Job). r.1) (claim_next_job_empty jobs now none_left)
      | inr (n, found) ↦ cc (
        e,
        any_of_waiting jobs,
        any_of_head (λ _. true) (sort_by job_id (select (has_status pending) jobs)) n found refl,
      )
    ]

-- After a claim no pending row has the claimed id.
claimed_not_pending :
    (jobs : List Job) (now i : ℕ)
    → All
        (λ x. has_status pending x ≡ true → (x.id == i) ≡ false)
        (update (has_id i) (start_job now) jobs)
claimed_not_pending jobs now i =
    All-updated (λ x. has_status pending x ≡ true → (x.id == i) ≡ false) (has_id i) (start_job now)
      jobs (λ x e h. cc h) (λ x e h. e)

-- Two claims, one after the other, never return the same job.
pub claim_next_job-distinct :
    (jobs : List Job) (now later : ℕ) (j k : Job)
    → (claim_next_job jobs now).1 ≡ some j
    → (claim_next_job (claim_next_job jobs now).0 later).1 ≡ some k
    → j.id ≢ k.id
claim_next_job-distinct jobs now later j k first next same =
    let (n, found, m, id_n, from_m) = claimed_from jobs now j first in
    let after = update (has_id n.id) (start_job now) jobs in
    let next' : (claim_next_job after later).1 ≡ some k =
      subst (λ (l : List Job). (claim_next_job l later).1 ≡ some k)
        (ap (λ (r : List Job × Option Job). r.0) (claim_next_job_at jobs now n found)) next in
    let (n', found', m', id_n', from_m') = claimed_from after later k next' in
    let other : (n'.id == n.id) ≡ false =
      next_pending_All after n' found' (λ x. (x.id == n.id) ≡ false)
        (claimed_not_pending jobs now n.id) in
    let equal : n'.id ≡ n.id =
      sym (ap job_id from_m' ∙ id_n') ∙ sym same ∙ ap job_id from_m ∙ id_n in
    ground (arith, other, equal)
