-- ===== src/Analyses/Lifecycle.antt =====
-- The tables `analyses` and `alerts` under any sequence of calls of src/heron/core/analysis_storage.py.
use heron_mail.Prelude.{
  All, All-append, All-update, Bool, Bool-cases, Distinct, Distinct-snoc, List, Option, String, [],
  any, arith, count_if, first?, has-beyond, has_iff_any, inl, inr, is_some, map, map-update, none,
  not, refl, some, subst, sym, true, update, ℕ, ◌&&◌, ◌==◌, ◌∙◌, ◌∷◌, ◌≡◌,
}
use heron_mail.Result.{Result, bind-ok, err, invalid_transition, ok, ok-injective, require}
use heron_mail.Alerts.{
  AlertDraft, AlertStatus, acknowledged, build_alert, can_transition, false_positive, open_alert,
  resolved, transition,
}
use heron_mail.Analyses.{
  AlertView, alert_id, alert_key, alert_of, alert_status_eq, analysis_of, changed,
  concurrent_message, is_current, move, move_found, record_assessment, refresh, refresh_analysis,
  save_alert, set_alert_status, stored_email, upsert_alert, upsert_analysis,
}
use heron_mail.Models.{Alert, Analysis, Vault}
use heron_mail.Scoring.{Assessment}
use heron_mail.Timeutil.{Stamp, stamp}

-- One call that writes, with its arguments.
pub data Op : Type 0 where
  record_result : ℕ → Assessment → String → ℕ → Op
  set_status : ℕ → AlertStatus → ℕ → Op

-- The vault after a call: one that raises leaves it as it is.
abbrev pub vault_after {ℓ} : {A : Type ℓ} → Vault → Result (Vault × A) → Vault
vault_after vault (ok (after, _)) = after
vault_after vault (err _) = vault

unfoldable pub apply : Vault → Op → Vault
apply vault (record_result email_id a subject now) =
    vault_after vault (record_assessment vault email_id a subject now)
apply vault (set_status id target now) = vault_after vault (set_alert_status vault id target now)

abbrev pub run_calls : Vault → List Op → Vault
run_calls vault [] = vault
run_calls vault (op ∷ ops) = run_calls (apply vault op) ops

-- Open: neither acknowledged nor closed; acknowledged: since when, and not closed; closed: since when.
abbrev pub has_times : AlertStatus → Option Stamp → Option Stamp → Bool
has_times open_alert ack closed = not (is_some ack) && not (is_some closed)
has_times acknowledged ack closed = is_some ack && not (is_some closed)
has_times resolved ack closed = is_some closed
has_times false_positive ack closed = is_some closed

abbrev pub IsConsistent : Alert → Type 0
IsConsistent a = has_times a.status a.acknowledged_at a.closed_at ≡ true

abbrev pub alert_email : Alert → ℕ
alert_email a = a.email_id

abbrev pub analysis_email : Analysis → ℕ
analysis_email a = a.email_id

-- No two alerts share an id or an email, no two analyses an email, and each alert has the times that
-- its status asks for.
pub record IsSound (vault : Vault) : Type 0 where
  pub alert_ids : Distinct (map alert_key vault.alerts)
  pub alert_emails : Distinct (map alert_email vault.alerts)
  pub analysis_emails : Distinct (map analysis_email vault.analyses)
  pub consistent : All IsConsistent vault.alerts

-- The alerts after one is inserted or refreshed.
upsert_alert-IsSound :
    (vault : Vault) (email_id : ℕ) (d : AlertDraft) (at : Stamp)
    → IsSound vault
    → IsSound (record vault { alerts = upsert_alert vault.alerts email_id d at })
unfolding upsert_alert
upsert_alert-IsSound vault email_id d at s =
    elim (Bool-cases (any (alert_of email_id) vault.alerts)) [
      | inl known ↦ rw known (record {
        analysis_emails = s.analysis_emails;
        alert_ids =
            subst Distinct (sym (map-update alert_key _ (refresh d at) vault.alerts (λ x. refl)))
              s.alert_ids;
        alert_emails =
            subst Distinct (sym (map-update alert_email _ (refresh d at) vault.alerts (λ x. refl)))
              s.alert_emails;
        consistent =
            All-update IsConsistent (alert_of email_id) (refresh d at) vault.alerts (λ x e c. c)
              s.consistent;
      })
      | inr fresh ↦ rw fresh (record {
        analysis_emails = s.analysis_emails;
        alert_ids =
            Distinct-snoc alert_key vault.alerts _
              (has-beyond alert_key vault.alerts _ (omega arith)) s.alert_ids;
        alert_emails =
            Distinct-snoc alert_email vault.alerts _
              (has_iff_any alert_email email_id vault.alerts ∙ fresh) s.alert_emails;
        consistent = All-append IsConsistent vault.alerts _ s.consistent (refl, tt);
      })
    ]

upsert_analysis-IsSound :
    (vault : Vault) (email_id : ℕ) (a : Assessment) (at : Stamp)
    → IsSound vault
    → IsSound (record vault { analyses = upsert_analysis vault.analyses email_id a at })
unfolding upsert_analysis
upsert_analysis-IsSound vault email_id a at s =
    elim (Bool-cases (any (analysis_of email_id) vault.analyses)) [
      | inl known ↦ rw known (record {
        alert_ids = s.alert_ids;
        alert_emails = s.alert_emails;
        consistent = s.consistent;
        analysis_emails =
            subst Distinct
              (sym (map-update analysis_email _ (refresh_analysis a at) vault.analyses (λ x. refl)))
              s.analysis_emails;
      })
      | inr fresh ↦ rw fresh (record {
        alert_ids = s.alert_ids;
        alert_emails = s.alert_emails;
        consistent = s.consistent;
        analysis_emails =
            Distinct-snoc analysis_email vault.analyses _
              (has_iff_any analysis_email email_id vault.analyses ∙ fresh) s.analysis_emails;
      })
    ]

save_alert-IsSound :
    (vault : Vault) (email_id : ℕ) (d : Option AlertDraft) (at : Stamp)
    → IsSound vault
    → (after : Vault) (id : Option ℕ) → save_alert vault email_id d at ≡ ok (after, id)
    → IsSound after
save_alert-IsSound vault email_id none at s after id e =
    subst (λ (r : Vault × Option ℕ). IsSound r.0) (ok-injective _ _ e) s
save_alert-IsSound vault email_id (some d) at s after id e =
    let (i, found, e') =
      bind-ok (alert_id (first? (alert_of email_id) (upsert_alert vault.alerts email_id d at))) _ _
        e in
    subst (λ (r : Vault × Option ℕ). IsSound r.0) (ok-injective _ _ e')
      (upsert_alert-IsSound vault email_id d at s)

-- A call keeps what holds before it and after each result that it can have.
vault_after-keeps {ℓ κ} :
    {A : Type ℓ} (P : Vault → Type κ) (vault : Vault) (r : Result (Vault × A))
    → P vault
    → ((after : Vault) (x : A) → r ≡ ok (after, x) → P after)
    → P (vault_after vault r)
vault_after-keeps P vault (ok (after, x)) before kept = kept after x refl
vault_after-keeps P vault (err e) before kept = before

recorded-IsSound :
    (vault after : Vault) (email_id : ℕ) (a : Assessment) (subject : String) (now : ℕ)
    (id : Option ℕ)
    → IsSound vault
    → record_assessment vault email_id a subject now ≡ ok (after, id)
    → IsSound after
unfolding record_assessment
recorded-IsSound vault after email_id a subject now id s e =
    elim (Bool-cases (any (stored_email email_id) vault.emails)) [
      | inl stored ↦
          save_alert-IsSound _ email_id (build_alert a subject) (stamp now)
            (upsert_analysis-IsSound vault email_id a (stamp now) s) after id (rw stored at e)
      | inr absent ↦ cc (rw absent at e)
    ]

pub changed_key : (target : AlertStatus) (at : Stamp) (a : Alert) → (changed target at a).id ≡ a.id
unfolding changed
changed_key open_alert at a = refl
changed_key acknowledged at a = refl
changed_key resolved at a = refl
changed_key false_positive at a = refl

changed_email :
    (target : AlertStatus) (at : Stamp) (a : Alert) → (changed target at a).email_id ≡ a.email_id
unfolding changed
changed_email open_alert at a = refl
changed_email acknowledged at a = refl
changed_email resolved at a = refl
changed_email false_positive at a = refl

pub alert_status_eq_sound : (s t : AlertStatus) → alert_status_eq s t ≡ true → s ≡ t
alert_status_eq_sound s t e = ground (arith, e)

changed-IsConsistent :
    (target : AlertStatus) (at : Stamp) (a : Alert)
    → can_transition a.status target ≡ true
    → IsConsistent a
    → IsConsistent (changed target at a)
unfolding changed can_transition
changed-IsConsistent open_alert at a e c = refl
changed-IsConsistent acknowledged at a e c = ground arith
changed-IsConsistent resolved at a e c = refl
changed-IsConsistent false_positive at a e c = refl

moves_allowed :
    (current target next : AlertStatus) (x : Alert) (id : ℕ)
    → transition current target ≡ ok next
    → is_current id current x ≡ true
    → can_transition x.status target ≡ true
unfolding transition
moves_allowed current target next x id e here = elim (Bool-cases (can_transition current target)) [
  | inl t ↦
      subst (λ s. can_transition s target ≡ true)
        (sym (alert_status_eq_sound x.status current (ground arith))) t
  | inr f ↦ cc (rw f at e)
]

-- A move of an alert, at the status that it was found in.
move-IsSound :
    (vault after : Vault) (id : ℕ) (current target : AlertStatus) (at : Stamp)
    → IsSound vault
    → move vault id current target at ≡ ok after
    → IsSound after
move-IsSound vault after id current target at s e =
    let (next, allowed, e₁) = bind-ok (transition current target) _ _ e in
    let (checked, alone, e₂) =
      bind-ok
        (require (count_if (is_current id current) vault.alerts == 1)
          (invalid_transition concurrent_message))
        (λ _. ok (record vault {
          alerts = update (is_current id current) (changed target at) vault.alerts;
        }))
        _ e₁ in
    subst IsSound (ok-injective _ _ e₂) (record {
      alert_ids =
          subst Distinct
            (sym (map-update alert_key _ (changed target at) vault.alerts (changed_key target at)))
            s.alert_ids;
      alert_emails =
          subst Distinct
            (sym
              (map-update alert_email _ (changed target at) vault.alerts (changed_email target at)))
            s.alert_emails;
      analysis_emails = s.analysis_emails;
      consistent =
          All-update IsConsistent (is_current id current) (changed target at) vault.alerts
            (λ x here c.
              changed-IsConsistent target at x (moves_allowed current target next x id allowed here)
                c)
            s.consistent;
    })

moved-IsSound :
    (vault after : Vault) (id : ℕ) (found : Option Alert) (target : AlertStatus) (at : Stamp)
    (seen : Option AlertView)
    → IsSound vault
    → move_found vault id found target at ≡ ok (after, seen)
    → IsSound after
moved-IsSound vault after id none target at seen s e =
    subst (λ (r : Vault × Option AlertView). IsSound r.0) (ok-injective _ _ e) s
moved-IsSound vault after id (some a) target at seen s e =
    let (vault', moved, e') = bind-ok (move vault id a.status target at) _ _ e in
    subst (λ (r : Vault × Option AlertView). IsSound r.0) (ok-injective _ _ e')
      (move-IsSound vault vault' id a.status target at s moved)

apply-IsSound : (vault : Vault) (op : Op) → IsSound vault → IsSound (apply vault op)
unfolding apply set_alert_status
apply-IsSound vault (record_result email_id a subject now) s =
    vault_after-keeps IsSound vault (record_assessment vault email_id a subject now) s
      (λ after id e. recorded-IsSound vault after email_id a subject now id s e)
apply-IsSound vault (set_status id target now) s =
    vault_after-keeps IsSound vault (set_alert_status vault id target now) s
      (λ after seen e. moved-IsSound vault after id _ target (stamp now) seen s e)

-- Any sequence of analyses recorded and statuses set, the calls that fail included, keeps one analysis
-- and at most one alert for each email, ids that differ, and with each alert the times of its status: no
-- time while it is open, a time of acknowledgement and none of closing while it is acknowledged, and a
-- time of closing once it is resolved or a false positive.
pub run_calls-IsSound :
    (vault : Vault) (ops : List Op) → IsSound vault → IsSound (run_calls vault ops)
run_calls-IsSound vault [] s = s
run_calls-IsSound vault (op ∷ ops) s =
    run_calls-IsSound (apply vault op) ops (apply-IsSound vault op s)
