-- ===== src/Analyses/Recording.antt =====
-- What `record_assessment` and `set_alert_status` of src/heron/core/analysis_storage.py write.
use heron_mail.Prelude.{
  ==_refl, Bool, Bool-cases, List, Option, String, [], any, ap, arith, first?, inl, inr, length,
  map, next_id, none, refl, some, subst, suc, sym, take, take_all, true, update, ℕ, ◌++◌, ◌∙◌, ◌∷◌,
  ◌≡◌,
}
use heron_mail.Result.{bind-ok, ok, ok-injective}
use heron_mail.Alerts.{AlertDraft, AlertStatus}
use heron_mail.Analyses.{
  alert_id, alert_of, analysis_key, analysis_of, analysis_row, get_analysis, record_assessment,
  refresh, refresh_analysis, save_alert, stored_email, upsert_alert, upsert_analysis,
}
use heron_mail.Models.{Alert, Analysis, Vault}
use heron_mail.Scoring.{Assessment, is_complete}
use heron_mail.Storage.Inserts.{first?-append_found}
use heron_mail.Timeutil.{Stamp, stamp}

first?-update_kept {ℓ} :
    {A : Type ℓ} (p : A → Bool) (f : A → A) (xs : List A)
    → ((x : A) → p x ≡ true → p (f x) ≡ true)
    → any p xs ≡ true
    → (x : A) × (first? p (update p f xs) ≡ some (f x))
first?-update_kept p f [] keep h = cc
first?-update_kept p f (x ∷ xs) keep h = elim (Bool-cases (p x)) [
  | inl t ↦ (x, rw t (rw (keep x t) refl))
  | inr e ↦ let (y, found) = first?-update_kept p f xs keep (rw e at h) in (y, rw (e, e) found)
]

-- The stored analysis of an email has what was assessed.
pub record Records (a : Assessment) (at : Stamp) (x : Analysis) : Type 0 where
  pub score : x.score ≡ a.score
  pub verdict : x.verdict ≡ a.verdict
  pub rules_version : x.rules_version ≡ a.rules_version
  pub complete : x.complete ≡ is_complete a
  pub rule_errors : x.rule_errors ≡ a.rule_errors
  pub analyzed_at : x.analyzed_at ≡ at

upsert_analysis-first? :
    (analyses : List Analysis) (email_id : ℕ) (a : Assessment) (at : Stamp)
    → (x : Analysis) × (first? (analysis_of email_id) (upsert_analysis analyses email_id a at)
        ≡ some x)
      × Records a at x
unfolding upsert_analysis
upsert_analysis-first? analyses email_id a at =
    elim (Bool-cases (any (analysis_of email_id) analyses)) [
      | inl known ↦
          let (x, found) =
            first?-update_kept (analysis_of email_id) (refresh_analysis a at) analyses (λ x e. e)
              known in
          (
            refresh_analysis a at x,
            rw known found,
            record {
              score = refl;
              verdict = refl;
              rules_version = refl;
              complete = refl;
              rule_errors = refl;
              analyzed_at = refl;
            },
          )
      | inr fresh ↦ (
        analysis_row (next_id analysis_key analyses) email_id a at,
        rw fresh (first?-append_found (analysis_of email_id) analyses _ fresh (==_refl email_id)),
        record {
          score = refl;
          verdict = refl;
          rules_version = refl;
          complete = refl;
          rule_errors = refl;
          analyzed_at = refl;
        },
      )
    ]

save_alert-analyses :
    (vault after : Vault) (email_id : ℕ) (d : Option AlertDraft) (at : Stamp) (id : Option ℕ)
    → save_alert vault email_id d at ≡ ok (after, id)
    → after.analyses ≡ vault.analyses
save_alert-analyses vault after email_id none at id e =
    ap (λ (r : Vault × Option ℕ). r.0.analyses) (sym (ok-injective _ _ e))
save_alert-analyses vault after email_id (some d) at id e =
    let (i, found, e') =
      bind-ok (alert_id (first? (alert_of email_id) (upsert_alert vault.alerts email_id d at))) _ _
        e in
    ap (λ (r : Vault × Option ℕ). r.0.analyses) (sym (ok-injective _ _ e'))

-- A recorded assessment is what `get_analysis` returns for the email from then on, whether or not the
-- email had an analysis before.
pub record_assessment-get_analysis :
    (vault after : Vault) (email_id : ℕ) (a : Assessment) (subject : String) (now : ℕ)
    (id : Option ℕ)
    → record_assessment vault email_id a subject now ≡ ok (after, id)
    → (x : Analysis) × (get_analysis after email_id ≡ some x) × Records a (stamp now) x
unfolding record_assessment get_analysis
record_assessment-get_analysis vault after email_id a subject now id e =
    elim (Bool-cases (any (stored_email email_id) vault.emails)) [
      | inr absent ↦ cc (rw absent at e)
      | inl stored ↦
          let same = save_alert-analyses _ after email_id _ (stamp now) id (rw stored at e) in
          let (x, found, recorded) = upsert_analysis-first? vault.analyses email_id a (stamp now) in
          (x, ap (first? (analysis_of email_id)) same ∙ found, recorded)
    ]

-- What a person's handling of an alert consists of.
pub record Handling : Type 0 where
  pub id : ℕ
  pub email_id : ℕ
  pub status : AlertStatus
  pub created_at : Stamp
  pub acknowledged_at : Option Stamp
  pub closed_at : Option Stamp

abbrev pub handling : Alert → Handling
handling a = record {
  id = a.id;
  email_id = a.email_id;
  status = a.status;
  created_at = a.created_at;
  acknowledged_at = a.acknowledged_at;
  closed_at = a.closed_at;
}

map-update_same :
    (p : Alert → Bool) (f : Alert → Alert) (xs : List Alert)
    → ((x : Alert) → handling (f x) ≡ handling x)
    → map handling (update p f xs) ≡ map handling xs
map-update_same p f [] same = refl
map-update_same p f (x ∷ xs) same = elim (Bool-cases (p x)) [
  | inl e ↦ rw (e, same x, map-update_same p f xs same)
  | inr e ↦ rw (e, map-update_same p f xs same)
]

take-append {ℓ} : {A : Type ℓ} (xs ys : List A) → take (length xs) (xs ++ ys) ≡ xs
take-append [] ys = refl
take-append (x ∷ xs) ys = ap (λ l. x ∷ l) (take-append xs ys)

length-update {ℓ} :
    {A : Type ℓ} (p : A → Bool) (f : A → A) (xs : List A) → length (update p f xs) ≡ length xs
length-update p f [] = refl
length-update p f (x ∷ xs) = ap suc (length-update p f xs)

upsert_alert-handling :
    (alerts : List Alert) (email_id : ℕ) (d : AlertDraft) (at : Stamp)
    → map handling (take (length alerts) (upsert_alert alerts email_id d at)) ≡ map handling alerts
unfolding upsert_alert
upsert_alert-handling alerts email_id d at = elim (Bool-cases (any (alert_of email_id) alerts)) [
  | inl known ↦ rw known (
      ap (map handling) (
        take_all (length alerts) (update (alert_of email_id) (refresh d at) alerts)
          (omega (arith, length-update (alert_of email_id) (refresh d at) alerts)))
      ∙ map-update_same (alert_of email_id) (refresh d at) alerts (λ x. refl))
  | inr fresh ↦ rw fresh (ap (map handling) (take-append alerts _))
]

save_alert-handling :
    (vault after : Vault) (email_id : ℕ) (d : Option AlertDraft) (at : Stamp) (id : Option ℕ)
    → save_alert vault email_id d at ≡ ok (after, id)
    → map handling (take (length vault.alerts) after.alerts) ≡ map handling vault.alerts
save_alert-handling vault after email_id none at id e =
    subst
      (λ (r : Vault × Option ℕ).
        map handling (take (length vault.alerts) r.0.alerts) ≡ map handling vault.alerts)
      (ok-injective _ _ e)
      (ap (map handling) (take_all (length vault.alerts) vault.alerts (omega arith)))
save_alert-handling vault after email_id (some d) at id e =
    let (i, found, e') =
      bind-ok (alert_id (first? (alert_of email_id) (upsert_alert vault.alerts email_id d at))) _ _
        e in
    subst
      (λ (r : Vault × Option ℕ).
        map handling (take (length vault.alerts) r.0.alerts) ≡ map handling vault.alerts)
      (ok-injective _ _ e') (upsert_alert-handling vault.alerts email_id d at)

-- Recording an assessment, flagged or clean, keeps every alert that there is, in its place, with its id,
-- email, status and creation time and with its times of acknowledgement and closing.
pub record_assessment-handling :
    (vault after : Vault) (email_id : ℕ) (a : Assessment) (subject : String) (now : ℕ)
    (id : Option ℕ)
    → record_assessment vault email_id a subject now ≡ ok (after, id)
    → map handling (take (length vault.alerts) after.alerts) ≡ map handling vault.alerts
unfolding record_assessment
record_assessment-handling vault after email_id a subject now id e =
    elim (Bool-cases (any (stored_email email_id) vault.emails)) [
      | inr absent ↦ cc (rw absent at e)
      | inl stored ↦ save_alert-handling _ after email_id _ (stamp now) id (rw stored at e)
    ]
