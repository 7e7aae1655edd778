-- ===== src/Runner/Jobs.antt =====
-- How `run_job` of src/heron/worker/runner.py leaves the table `jobs` and the coverage.
use heron_mail.Prelude.{
  Bool, Bool-cases, List, Option, Option-cases, String, [], any, ap, first?, inl, inr, map,
  map-update, not, refl, select, some, subst, true, update, ℕ, ◌==◌, ◌∙◌, ◌∷◌, ◌≡◌,
}
use heron_mail.Result.{Result, bind-ok, err, ok, ok-injective}
use heron_mail.Collector.{
  FetchedMessage, Library, Mailbox, Outcome, Store, Target, and_then, email_values, file_at,
  insert_message, relative_path, store_if_in_range, store_raw_message,
}
use heron_mail.Jobs.{has_id, job_id, update_checkpoint}
use heron_mail.Models.{Account, Job, Vault}
use heron_mail.Runner.{get_message, last_uid, run_batches, store_batch, with_jobs}
use heron_mail.Storage.{
  EmailValues, header_stamp, insert_email_if_new, insert_row, same_key, scalar_one,
}
use heron_mail.Timeutil.{Stamp, contains, to_utc_storage_string}

-- The rows of other jobs.
abbrev pub other_jobs : ℕ → List Job → List Job
other_jobs id jobs = select (λ j. not (has_id id j)) jobs

pub others-update :
    (id : ℕ) (f : Job → Job) (jobs : List Job)
    → ((x : Job) → (f x).id ≡ x.id)
    → other_jobs id (update (has_id id) f jobs) ≡ other_jobs id jobs
others-update id f [] same = refl
others-update id f (x ∷ jobs) same = elim (Bool-cases (x.id == id)) [
  | inl t ↦
      let kept : ((f x).id == id) ≡ true = ap (λ i. i == id) (same x) ∙ t in
      rw (t, kept) (others-update id f jobs same)
  | inr e ↦ rw (e, e) (ap (λ l. x ∷ l) (others-update id f jobs same))
]

-- What the run of a job leaves while it lasts: the coverage, the other jobs, and the ids of all.
pub record Keeps (id : ℕ) (before after : Store) : Type 0 where
  pub coverage : after.vault.coverage ≡ before.vault.coverage
  pub others : other_jobs id after.vault.jobs ≡ other_jobs id before.vault.jobs
  pub ids : map job_id after.vault.jobs ≡ map job_id before.vault.jobs

module _ (id : ℕ) where
  pub Keeps-refl : (s : Store) → Keeps id s s
  Keeps-refl s = record { coverage = refl; others = refl; ids = refl }

  Keeps-trans : (s t u : Store) → Keeps id s t → Keeps id t u → Keeps id s u
  Keeps-trans s t u a b = record {
    coverage = b.coverage ∙ a.coverage;
    others = b.others ∙ a.others;
    ids = b.ids ∙ a.ids;
  }

  pub and_then-Keeps {ℓ κ} :
      {A : Type ℓ} {B : Type κ} (store : Store) (r : Outcome A) (f : Store → A → Outcome B)
      → Keeps id store r.0
      → ((s : Store) (a : A) → Keeps id s (f s a).0)
      → Keeps id store (and_then r f).0
  and_then-Keeps store (s, ok a) f first next = Keeps-trans store s _ first (next s a)
  and_then-Keeps store (s, err e) f first next = first

  -- An update of the rows with the id.
  pub with_jobs-Keeps :
      (store : Store) (f : Job → Job)
      → ((x : Job) → (f x).id ≡ x.id)
      → Keeps id store (with_jobs store (update (has_id id) f store.vault.jobs))
  with_jobs-Keeps store f same = record {
    coverage = refl;
    others = others-update id f store.vault.jobs same;
    ids = map-update job_id (has_id id) f store.vault.jobs same;
  }

  inserted-Keeps :
      (store : Store) (vault after : Vault) (v : EmailValues) (x : ℕ × Bool)
      → insert_email_if_new vault v ≡ ok (after, x)
      → Keeps id (record store { vault = vault }) (record store { vault = after })
  unfolding insert_email_if_new
  inserted-Keeps store vault after v x e =
      let (internal, date_ok, e₁) = bind-ok (to_utc_storage_string v.internal_date) _ _ e in
      let (header, header_ok, e₂) = bind-ok (header_stamp v.header_date) _ _ e₁ in
      let ((vault', inserted'), row_ok, e₃) = bind-ok (insert_row vault v internal header) _ _ e₂ in
      let (i, id_ok, e₄) = bind-ok (scalar_one (first? (same_key v) vault'.emails)) _ _ e₃ in
      subst
        (λ (r : Vault × (ℕ × Bool)).
          Keeps id (record store { vault = vault }) (record store { vault = r.0 }))
        (ok-injective _ _ e₄) (row_inserted internal header vault' inserted' row_ok)
    where
      row_inserted :
          (internal : Stamp) (header : Option Stamp) (vault' : Vault) (b : Bool)
          → insert_row vault v internal header ≡ ok (vault', b)
          → Keeps id (record store { vault = vault }) (record store { vault = vault' })
      row_inserted internal header vault' b row_ok =
          elim (Bool-cases (any (same_key v) vault.emails)) [
            | inl known ↦
                subst
                  (λ (r : Vault × Bool).
                    Keeps id (record store { vault = vault }) (record store { vault = r.0 }))
                  (ok-injective _ _ (rw known at row_ok)) (Keeps-refl _)
            | inr fresh ↦
                elim (Bool-cases (any (λ (a : Account). a.id == v.account_id) vault.accounts)) [
                  | inl owned ↦
                      subst
                        (λ (r : Vault × Bool).
                          Keeps id (record store { vault = vault }) (record store { vault = r.0 }))
                        (ok-injective _ _ (rw (fresh, owned) at row_ok))
                        (record { coverage = refl; others = refl; ids = refl })
                  | inr orphan ↦ cc (rw (fresh, orphan) at row_ok)
                ]
          ]

  insert_message-Keeps :
      (store : Store) (v : EmailValues) → Keeps id store (insert_message store v).0
  insert_message-Keeps store v = go (insert_email_if_new store.vault v) refl
    where
      go :
          (r : Result (Vault × (ℕ × Bool)))
          → insert_email_if_new store.vault v ≡ r
          → Keeps id store (insert_message store v).0
      go (ok (after, (i, b))) e =
          rw (e, insert_message) (inserted-Keeps store store.vault after v (i, b) e)
      go (err x) e = rw (e, insert_message) (Keeps-refl store)

  store_raw_message-Keeps :
      (lib : Library) (store : Store) (hash raw : String)
      → Keeps id store (store_raw_message lib store hash raw).0
  unfolding store_raw_message
  store_raw_message-Keeps lib store hash raw =
      elim (Bool-cases (any (file_at (relative_path hash)) store.files)) [
        | inl there ↦ rw there (Keeps-refl store)
        | inr absent ↦ rw absent (
            and_then-Keeps store (store, lib.write (relative_path hash)) _ (Keeps-refl store)
              (λ s _. record { coverage = refl; others = refl; ids = refl }))
      ]

  store_if_in_range-Keeps :
      (lib : Library) (store : Store) (target : Target) (uid : ℕ) (message : FetchedMessage)
      (now : ℕ)
      → Keeps id store (store_if_in_range lib store target uid message now).0
  unfolding store_if_in_range
  store_if_in_range-Keeps lib store target uid message now =
      and_then-Keeps store (store, contains target.date_range message.internal_date) _
        (Keeps-refl store)
        (λ s inside. elim (Bool-cases inside) [
          | inr e ↦ rw e (Keeps-refl s)
          | inl e ↦ rw e (
              and_then-Keeps s
                (store_raw_message lib s (lib.sha256 message.raw_bytes) message.raw_bytes) _
                (store_raw_message-Keeps lib s (lib.sha256 message.raw_bytes) message.raw_bytes)
                (λ s' path. insert_message-Keeps s' (email_values lib target uid message path now)))
        ])

  store_batch-Keeps :
      (lib : Library) (store : Store) (target : Target) (fetched : List (ℕ × FetchedMessage))
      (uids : List ℕ) (now : ℕ)
      → Keeps id store (store_batch lib store target fetched uids now).0
  unfolding store_batch
  store_batch-Keeps lib store target fetched [] now = Keeps-refl store
  store_batch-Keeps lib store target fetched (uid ∷ rest) now =
      elim (Option-cases (get_message fetched uid)) [
        | inl gone ↦ rw (gone, store_batch) (store_batch-Keeps lib store target fetched rest now)
        | inr (message, there) ↦
            rw (there, store_batch)
              (and_then-Keeps store (store_if_in_range lib store target uid message now) _
                (store_if_in_range-Keeps lib store target uid message now)
                (λ s _. store_batch-Keeps lib s target fetched rest now))
      ]

  pub run_batches-Keeps :
      (lib : Library) (mail : Mailbox) (store : Store) (target : Target) (batches : List (List ℕ))
      (now : ℕ)
      → Keeps id store (run_batches lib mail store target id batches now).0
  unfolding run_batches update_checkpoint
  run_batches-Keeps lib mail store target [] now = Keeps-refl store
  run_batches-Keeps lib mail store target (batch ∷ rest) now =
      and_then-Keeps store (store, mail.fetch batch) _ (Keeps-refl store)
        (λ s fetched.
          and_then-Keeps s (store_batch lib s target fetched batch now) _
            (store_batch-Keeps lib s target fetched batch now)
            (λ s' _.
              Keeps-trans s' (with_jobs s' (update_checkpoint s'.vault.jobs id (last_uid batch))) _
                (with_jobs-Keeps s'
                  (λ (j : Job). record j { checkpoint_uid = some (last_uid batch) }) (λ x. refl))
                (run_batches-Keeps lib mail
                  (with_jobs s' (update_checkpoint s'.vault.jobs id (last_uid batch))) target rest
                  now)))
