-- ===== src/Analyzer/Passes.antt =====
-- The passes of src/heron/worker/analysis.py come to an end, and change analyses and alerts only.
use mathlib.Core.Option
use heron_mail.Prelude.{
  Bool, Bool-cases, List, Option, Option-cases, String, [], any, any-select, any-sort_by, ap, arith,
  count_if, first?, inl, inr, length, ltb, none, not, refl, select, some, sort_by, str_eq, subst,
  suc, sym, take, true, zero, ℕ, ◌&&◌, ◌<◌, ◌==◌, ◌∙◌, ◌∷◌, ◌≡◌, ◌≤◌, ◌⊎◌,
}
use heron_mail.Result.{Error, Result, bind-ok, err, ok, ok-injective}
use heron_mail.Alerts.{AlertDraft}
use heron_mail.Analyses.{
  alert_id, alert_of, analysis_of, emails_missing_analysis, emails_with_stale_analysis,
  record_assessment, save_alert, stored_email, upsert_alert,
}
use heron_mail.Analyzer.{
  Analyzed, Pipeline, add_saved, analyze, analyze_batch, analyze_file, analyze_pending,
  analyze_stored_email, enough, last_id, read_bytes, reanalyze_stale, run_pass, save_analysis,
  save_result,
}
use heron_mail.Collector.{Outcome, Store, and_then}
use heron_mail.Models.{Analysis, Email, Vault}
use heron_mail.Scoring.{Assessment, default_config, rules_version}
use heron_mail.Storage.{email_key}
use heron_mail.Timeutil.{Stamp, stamp}

-- The tables that an analysis leaves as they are.
pub record SameMail (before after : Store) : Type 0 where
  pub accounts : after.vault.accounts ≡ before.vault.accounts
  pub emails : after.vault.emails ≡ before.vault.emails
  pub jobs : after.vault.jobs ≡ before.vault.jobs
  pub coverage : after.vault.coverage ≡ before.vault.coverage
  pub files : after.files ≡ before.files

pub SameMail-refl : (s : Store) → SameMail s s
SameMail-refl s = record {
  accounts = refl;
  emails = refl;
  jobs = refl;
  coverage = refl;
  files = refl;
}

pub SameMail-trans : (s t u : Store) → SameMail s t → SameMail t u → SameMail s u
SameMail-trans s t u a b = record {
  accounts = b.accounts ∙ a.accounts;
  emails = b.emails ∙ a.emails;
  jobs = b.jobs ∙ a.jobs;
  coverage = b.coverage ∙ a.coverage;
  files = b.files ∙ a.files;
}

module _ (store : Store) where
  with_vault : Vault → Store
  with_vault v = record store { vault = v }

  save_alert-SameMail :
      (vault after : Vault) (email_id : ℕ) (d : Option AlertDraft) (at : Stamp) (id : Option ℕ)
      → save_alert vault email_id d at ≡ ok (after, id)
      → SameMail (record store { vault = vault }) (record store { vault = after })
  save_alert-SameMail vault after email_id none at id e =
      subst
        (λ (r : Vault × Option ℕ).
          SameMail (record store { vault = vault }) (record store { vault = r.0 }))
        (ok-injective _ _ e) (SameMail-refl _)
  save_alert-SameMail vault after email_id (some d) at id e =
      let (i, found, e') =
        bind-ok (alert_id (first? (alert_of email_id) (upsert_alert vault.alerts email_id d at))) _
          _ e in
      subst
        (λ (r : Vault × Option ℕ).
          SameMail (record store { vault = vault }) (record store { vault = r.0 }))
        (ok-injective _ _ e')
        (record { accounts = refl; emails = refl; jobs = refl; coverage = refl; files = refl })

  recorded-SameMail :
      (email_id : ℕ) (a : Assessment) (subject : String) (now : ℕ) (after : Vault) (id : Option ℕ)
      → record_assessment store.vault email_id a subject now ≡ ok (after, id)
      → SameMail store (record store { vault = after })
  unfolding record_assessment
  recorded-SameMail email_id a subject now after id e =
      elim (Bool-cases (any (stored_email email_id) store.vault.emails)) [
        | inr absent ↦ cc (rw absent at e)
        | inl stored ↦
            let saved = save_alert-SameMail _ after email_id _ (stamp now) id (rw stored at e) in
            record {
              accounts = saved.accounts;
              emails = saved.emails;
              jobs = saved.jobs;
              coverage = saved.coverage;
              files = saved.files;
            }
      ]

save_analysis-SameMail :
    (store : Store) (email_id : ℕ) (a : Analyzed) (now : ℕ)
    → SameMail store (save_analysis store email_id a now).0
save_analysis-SameMail store email_id a now =
    go (record_assessment store.vault email_id a.assessment a.email.subject now) refl
  where
    go :
        (r : Result (Vault × Option ℕ))
        → record_assessment store.vault email_id a.assessment a.email.subject now ≡ r
        → SameMail store (save_analysis store email_id a now).0
    go (ok (after, id)) e =
        rw (e, save_analysis)
          (recorded-SameMail store email_id a.assessment a.email.subject now after id e)
    go (err x) e = rw (e, save_analysis) (SameMail-refl store)

save_result-SameMail :
    (store : Store) (email_id : ℕ) (r : Result Analyzed) (now : ℕ)
    → SameMail store (save_result store email_id r now).0
save_result-SameMail store email_id (ok a) now = save_analysis-SameMail store email_id a now
save_result-SameMail store email_id (err e) now = SameMail-refl store

analyze_file-SameMail :
    (p : Pipeline) (store : Store) (email_id : ℕ) (raw : Option String) (now : ℕ)
    → SameMail store (analyze_file p store email_id raw now).0
analyze_file-SameMail p store email_id none now = SameMail-refl store
analyze_file-SameMail p store email_id (some raw) now =
    save_result-SameMail store email_id (analyze p raw) now

analyze_stored_email-SameMail :
    (p : Pipeline) (store : Store) (row : Email) (now : ℕ)
    → SameMail store (analyze_stored_email p store row now).0
unfolding analyze_stored_email
analyze_stored_email-SameMail p store row now = elim (Option-cases (p.resolve row.eml_path)) [
  | inl outside ↦ rw (outside, analyze_stored_email) (SameMail-refl store)
  | inr (path, inside) ↦
      rw (inside, analyze_stored_email)
        (analyze_file-SameMail p store row.id (read_bytes store.files path) now)
]

pub and_then-SameMail {ℓ κ} :
    {A : Type ℓ} {B : Type κ} (store : Store) (r : Outcome A) (f : Store → A → Outcome B)
    → SameMail store r.0
    → ((s : Store) (a : A) → SameMail s (f s a).0)
    → SameMail store (and_then r f).0
and_then-SameMail store (s, ok a) f first next = SameMail-trans store s _ first (next s a)
and_then-SameMail store (s, err e) f first next = first

analyze_batch-SameMail :
    (p : Pipeline) (store : Store) (rows : List Email) (now : ℕ)
    → SameMail store (analyze_batch p store rows now).0
unfolding analyze_batch
analyze_batch-SameMail p store [] now = SameMail-refl store
analyze_batch-SameMail p store (row ∷ rest) now =
    and_then-SameMail store (analyze_stored_email p store row now) _
      (analyze_stored_email-SameMail p store row now)
      (λ s a.
        and_then-SameMail s (analyze_batch p s rest now) _ (analyze_batch-SameMail p s rest now)
          (λ s' n. SameMail-refl s'))

List-cases {ℓ} : {A : Type ℓ} (xs : List A) → (xs ≡ []) ⊎ ((x : A) × (ys : List A) × (xs ≡ x ∷ ys))
List-cases [] = inl refl
List-cases (x ∷ ys) = inr (x, ys, refl)

-- The emails after an id that a pass may still look at, of those that a query selects.
abbrev pub next_of : (Vault → Email → Bool) → ℕ → Vault → ℕ → List Email
next_of wants limit v after_id =
    take limit (sort_by email_key (select (λ e. wants v e && ltb after_id e.id) v.emails))

any-take : (p : Email → Bool) (n : ℕ) (xs : List Email) → any p (take n xs) ≡ true → any p xs ≡ true
any-take p zero xs h = cc
any-take p (suc n) [] h = cc
any-take p (suc n) (x ∷ xs) h = ground (arith, any-take p n xs)

last_id_present :
    (row : Email) (rest : List Email) → any (λ e. e.id == last_id row rest) (row ∷ rest) ≡ true
last_id_present row [] = ground arith
last_id_present row (next ∷ rest) = ground (arith, last_id_present next rest)

any_wanted :
    (v : Vault) (wants : Vault → Email → Bool) (after_id last : ℕ) (xs : List Email)
    → any (λ e. (e.id == last) && (wants v e && ltb after_id e.id)) xs ≡ true
    → (any (λ e. e.id == last) xs ≡ true) × (after_id < last)
any_wanted v wants after_id last [] h = cc
any_wanted v wants after_id last (x ∷ xs) h =
    elim (Bool-cases ((x.id == last) && (wants v x && ltb after_id x.id))) [
      | inl t ↦ ground arith
      | inr f ↦ let (a, b) = any_wanted v wants after_id last xs (rw f at h) in (ground arith, b)
    ]

-- How many emails have an id after one.
abbrev pub left_after : ℕ → List Email → ℕ
left_after after_id = count_if (λ e. ltb after_id e.id)

left_after-le : (a b : ℕ) (xs : List Email) → a ≤ b → left_after b xs ≤ left_after a xs
left_after-le a b [] h = omega arith
left_after-le a b (x ∷ xs) h = ground (arith, left_after-le a b xs h)

left_after-lt :
    (a b : ℕ) (xs : List Email)
    → any (λ e. e.id == b) xs ≡ true
    → a < b
    → left_after b xs < left_after a xs
left_after-lt a b [] e h = cc
left_after-lt a b (x ∷ xs) e h =
    ground (arith, left_after-lt a b xs, left_after-le a b xs (omega (arith, h)))

-- The last email of a batch comes after the id that the batch was asked for.
batch_advances :
    (wants : Vault → Email → Bool) (limit : ℕ) (v : Vault) (after_id : ℕ) (row : Email)
    (rest : List Email)
    → next_of wants limit v after_id ≡ row ∷ rest
    → left_after (last_id row rest) v.emails < left_after after_id v.emails
batch_advances wants limit v after_id row rest e =
    let last = last_id row rest in
    let test = λ (x : Email). x.id == last in
    let chosen = select (λ (x : Email). wants v x && ltb after_id x.id) v.emails in
    let in_batch : any test (next_of wants limit v after_id) ≡ true =
      ap (any test) e ∙ last_id_present row rest in
    let in_chosen : any test chosen ≡ true =
      sym (any-sort_by email_key test chosen)
      ∙ any-take test limit (sort_by email_key chosen) in_batch in
    let (present, later) = any_wanted v wants after_id last v.emails (
      sym (any-select test (λ (x : Email). wants v x && ltb after_id x.id) v.emails) ∙ in_chosen) in
    left_after-lt after_id last v.emails present later

-- One round of a pass, by what the query returned and what came of the batch.
module _ (fuel : ℕ) (p : Pipeline) (fetch : Vault → ℕ → List Email) (store : Store)
    (after_id now : ℕ) where
  -- How a round goes on from what came of its batch.
  round : ℕ → Outcome ℕ → Option (Outcome ℕ)
  round last b = elim b.1 [
    | ok n ↦ Option.map (add_saved n) (run_pass fuel p fetch b.0 last now)
    | err e ↦ some (b.0, err e)
  ]

  pass_empty :
      fetch store.vault after_id ≡ []
      → run_pass (suc fuel) p fetch store after_id now ≡ some (store, ok 0)
  unfolding run_pass
  pass_empty e = rw (e, run_pass) refl

  pass_ok :
      (row : Email) (rest : List Email) (s : Store) (n : ℕ)
      → fetch store.vault after_id ≡ row ∷ rest
      → analyze_batch p store (row ∷ rest) now ≡ (s, ok n)
      → run_pass (suc fuel) p fetch store after_id now
        ≡ Option.map (add_saved n) (run_pass fuel p fetch s (last_id row rest) now)
  unfolding run_pass round
  pass_ok row rest s n e f = rw (e, run_pass) (ap (round (last_id row rest)) f)

  pub pass_err :
      (row : Email) (rest : List Email) (s : Store) (x : Error)
      → fetch store.vault after_id ≡ row ∷ rest
      → analyze_batch p store (row ∷ rest) now ≡ (s, err x)
      → run_pass (suc fuel) p fetch store after_id now ≡ some (s, err x)
  unfolding run_pass round
  pass_err row rest s x e f = rw (e, run_pass) (ap (round (last_id row rest)) f)

add_saved_store : (n : ℕ) (r : Outcome ℕ) → (add_saved n r).0 ≡ r.0
add_saved_store n (s, ok m) = refl
add_saved_store n (s, err e) = refl

-- A pass that is given more rounds than there are emails left ends, and leaves the mail as it was.
pass_ends :
    (fuel : ℕ) (p : Pipeline) (wants : Vault → Email → Bool) (limit : ℕ) (store : Store)
    (after_id now : ℕ)
    → left_after after_id store.vault.emails < fuel
    → (r : Outcome ℕ) × (run_pass fuel p (next_of wants limit) store after_id now ≡ some r)
      × SameMail store r.0
pass_ends zero p wants limit store after_id now h = absurd (omega arith)
pass_ends (suc fuel) p wants limit store after_id now h =
    elim (List-cases (next_of wants limit store.vault after_id)) [
      | inl empty ↦ (
        (store, ok 0),
        pass_empty fuel p (next_of wants limit) store after_id now empty,
        SameMail-refl store,
      )
      | inr (row, rest, found) ↦
          go row rest found (analyze_batch p store (row ∷ rest) now) refl (λ s same.
            pass_ends fuel p wants limit s (last_id row rest) now (
              subst (λ (es : List Email). left_after (last_id row rest) es < fuel) (sym same)
                (omega (arith, h, batch_advances wants limit store.vault after_id row rest found))))
    ]
  where
    go :
        (row : Email) (rest : List Email)
        → next_of wants limit store.vault after_id ≡ row ∷ rest
        → (b : Outcome ℕ) → analyze_batch p store (row ∷ rest) now ≡ b
        → ((s : Store)
            → s.vault.emails ≡ store.vault.emails
            → (r : Outcome ℕ) × (run_pass fuel p (next_of wants limit) s (last_id row rest) now
                ≡ some r)
              × SameMail s r.0)
        → (r : Outcome ℕ) × (run_pass (suc fuel) p (next_of wants limit) store after_id now
            ≡ some r)
          × SameMail store r.0
    go row rest found (s, ok n) e next =
        let kept : SameMail store s =
          subst (λ (b : Outcome ℕ). SameMail store b.0) e
            (analyze_batch-SameMail p store (row ∷ rest) now) in
        let (r, ends, later) = next s kept.emails in
        (
          add_saved n r,
          pass_ok fuel p (next_of wants limit) store after_id now row rest s n found e
              ∙ ap (Option.map (add_saved n)) ends,
          SameMail-trans store s _ kept (subst (SameMail s) (sym (add_saved_store n r)) later),
        )
    go row rest found (s, err x) e next = (
      (s, err x),
      pass_err fuel p (next_of wants limit) store after_id now row rest s x found e,
      subst (λ (b : Outcome ℕ). SameMail store b.0) e
          (analyze_batch-SameMail p store (row ∷ rest) now),
    )

left_after-length : (after_id : ℕ) (xs : List Email) → left_after after_id xs ≤ length xs
left_after-length after_id [] = omega arith
left_after-length after_id (x ∷ xs) = ground (arith, left_after-length after_id xs)

-- `analyze_pending` comes to an end for every batch size, and it changes no account, email, job, coverage
-- or file.
pub analyze_pending_ends :
    (p : Pipeline) (store : Store) (batch_size now : ℕ)
    → (r : Outcome ℕ) × (analyze_pending p store batch_size now ≡ some r) × SameMail store r.0
unfolding analyze_pending emails_missing_analysis
analyze_pending_ends p store batch_size now =
    pass_ends (enough store) p (λ v e. not (any (analysis_of e.id) v.analyses)) batch_size store 0
      now (omega (arith, left_after-length 0 store.vault.emails))

-- `reanalyze_stale` comes to an end for every batch size, also where the emails that it has analysed are
-- still stale, and it changes no account, email, job, coverage or file.
pub reanalyze_stale_ends :
    (p : Pipeline) (store : Store) (batch_size now : ℕ)
    → (r : Outcome ℕ) × (reanalyze_stale p store batch_size now ≡ some r) × SameMail store r.0
unfolding reanalyze_stale emails_with_stale_analysis
reanalyze_stale_ends p store batch_size now =
    let current = rules_version p.digest p.rules default_config in
    pass_ends (enough store) p
      (λ v e.
        any (λ (a : Analysis). analysis_of e.id a && not (str_eq a.rules_version current))
          v.analyses)
      batch_size store 0 now (omega (arith, left_after-length 0 store.vault.emails))
