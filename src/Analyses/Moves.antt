-- ===== src/Analyses/Moves.antt =====
-- When `set_alert_status` of src/heron/core/analysis_storage.py succeeds, and what it changes then.
use mathlib.Core.Option
use heron_mail.Prelude.{
  ==_iff, Bool, Bool-cases, Distinct, List, Option, [], ap, arith, count_if, false, first?, has,
  inl, inr, map, not, refl, select, some, subst, suc, sym, true, update, ℕ, ◌&&◌, ◌==◌, ◌∙◌, ◌∷◌,
  ◌≡◌,
}
use heron_mail.Result.{Result, bind-ok, err, invalid_transition, ok, ok-injective, require, ◌>>=◌}
use heron_mail.Alerts.{
  AlertStatus, acknowledged, can_transition, false_positive, open_alert, resolved, transition,
}
use heron_mail.Analyses.{
  AlertView, alert_key, alert_status_eq, changed, concurrent_message, get_alert, is_current, move,
  move_found, set_alert_status,
}
use heron_mail.Analyses.Lifecycle.{changed_key}
use heron_mail.Models.{Alert, Vault}
use heron_mail.Rules.Authentication.{seen}
use heron_mail.Timeutil.{Stamp, stamp}

abbrev pub is_ok {ℓ} : {A : Type ℓ} → Result A → Bool
is_ok (ok a) = true
is_ok (err e) = false

module _ (id : ℕ) (q : Alert → Bool) where
  count_none :
      (xs : List Alert)
      → has id (map alert_key xs) ≡ false
      → count_if (λ (x : Alert). (x.id == id) && q x) xs ≡ 0
  count_none [] h = refl
  count_none (x ∷ xs) h = ground (arith, count_none xs)

  -- With distinct ids, the test of the UPDATE is passed by the row that was read alone.
  count_one :
      (xs : List Alert) (a : Alert)
      → Distinct (map alert_key xs)
      → first? (λ (x : Alert). x.id == id) xs ≡ some a
      → q a ≡ true
      → count_if (λ (x : Alert). (x.id == id) && q x) xs ≡ 1
  count_one [] a d e h = cc
  count_one (x ∷ xs) a d e h = elim (Bool-cases (x.id == id)) [
    | inl t ↦
        let same = Option.some-injective _ _ (rw t at e) in
        let passes = subst (λ y. q y ≡ true) (sym same) h in
        let alone = subst (λ i. has i (map alert_key xs) ≡ false) ((==_iff x.id id).0 t) d.0 in
        rw (t, passes) (ap suc (count_none xs alone))
    | inr f ↦ rw f (count_one xs a d.1 (rw f at e) h)
  ]

alert_status_eq_refl : (s : AlertStatus) → alert_status_eq s s ≡ true
alert_status_eq_refl open_alert = refl
alert_status_eq_refl acknowledged = refl
alert_status_eq_refl resolved = refl
alert_status_eq_refl false_positive = refl

pub move_allowed :
    (vault : Vault) (id : ℕ) (current target : AlertStatus) (at : Stamp)
    → (count_if (is_current id current) vault.alerts == 1) ≡ true
    → can_transition current target ≡ true
    → move vault id current target at
      ≡ ok (record vault {
        alerts = update (is_current id current) (changed target at) vault.alerts;
      })
unfolding transition
move_allowed vault id current target at alone t = rw (t, alone) refl

move_refused :
    (vault : Vault) (id : ℕ) (current target : AlertStatus) (at : Stamp)
    → can_transition current target ≡ false
    → is_ok (move vault id current target at) ≡ false
unfolding transition
move_refused vault id current target at f = rw f refl

-- The row that was read is found changed.
first?-changed :
    (xs : List Alert) (id : ℕ) (a : Alert) (target : AlertStatus) (at : Stamp)
    → first? (λ (x : Alert). x.id == id) xs ≡ some a
    → first? (λ (x : Alert). x.id == id) (update (is_current id a.status) (changed target at) xs)
      ≡ some (changed target at a)
first?-changed [] id a target at e = cc
first?-changed (x ∷ xs) id a target at e = elim (Bool-cases (x.id == id)) [
  | inl t ↦
      let same = Option.some-injective _ _ (rw t at e) in
      let current : alert_status_eq x.status a.status ≡ true =
        subst (λ (y : Alert). alert_status_eq x.status y.status ≡ true) same
          (alert_status_eq_refl x.status) in
      let keeps : ((changed target at x).id == id) ≡ true =
        ap (λ i. i == id) (changed_key target at x) ∙ t in
      rw (t, current) (rw keeps (ap (λ y. some (changed target at y)) same))
  | inr f ↦ rw (f, f) (first?-changed xs id a target at (rw f at e))
]

others_same :
    (xs : List Alert) (id : ℕ) (current target : AlertStatus) (at : Stamp)
    → select
        (λ (x : Alert). not (x.id == id))
        (update (is_current id current) (changed target at) xs)
      ≡ select (λ (x : Alert). not (x.id == id)) xs
others_same [] id current target at = refl
others_same (x ∷ xs) id current target at = elim (Bool-cases (x.id == id)) [
  | inr f ↦ rw (f, f) (ap (λ l. x ∷ l) (others_same xs id current target at))
  | inl t ↦ elim (Bool-cases (alert_status_eq x.status current)) [
    | inl s ↦
        let keeps : ((changed target at x).id == id) ≡ true =
          ap (λ i. i == id) (changed_key target at x) ∙ t in
        rw (t, s) (rw keeps (others_same xs id current target at))
    | inr s ↦ rw (t, s) (rw t (others_same xs id current target at))
  ]
]

pub alone_of :
    (alerts : List Alert) (id : ℕ) (a : Alert)
    → Distinct (map alert_key alerts)
    → first? (λ (x : Alert). x.id == id) alerts ≡ some a
    → (count_if (is_current id a.status) alerts == 1) ≡ true
alone_of alerts id a d found =
    rw
      (count_one id (λ (x : Alert). alert_status_eq x.status a.status) alerts a d found
        (alert_status_eq_refl a.status))
      refl

refused_found {ℓ κ} :
    {A : Type ℓ} {B : Type κ} (r : Result A) (f : A → B)
    → is_ok r ≡ false
    → is_ok {A = A × B} (r >>= λ a. ok (a, f a)) ≡ false
refused_found (ok a) f e = cc
refused_found (err x) f e = refl

-- In a vault whose alerts have distinct ids, setting the status of an alert succeeds exactly if the
-- lifecycle allows the move: the answer that another caller changed the alert is never given.
pub set_alert_status-is_ok :
    (vault : Vault) (id : ℕ) (target : AlertStatus) (now : ℕ) (a : Alert)
    → Distinct (map alert_key vault.alerts)
    → first? (λ (x : Alert). x.id == id) vault.alerts ≡ some a
    → is_ok (set_alert_status vault id target now) ≡ can_transition a.status target
unfolding set_alert_status
set_alert_status-is_ok vault id target now a d found =
    elim (Bool-cases (can_transition a.status target)) [
      | inl t ↦
          rw
            (
              found,
              move_allowed vault id a.status target (stamp now) (alone_of vault.alerts id a d found)
                  t,
              t,
            )
            refl
      | inr f ↦
          ap (λ r. is_ok (move_found vault id r target (stamp now))) found
          ∙ refused_found (move vault id a.status target (stamp now)) (λ after. get_alert after id)
              (move_refused vault id a.status target (stamp now) f)
          ∙ sym f
    ]

-- A move that succeeds changes the alert with that id, to the target status and its times, and no other
-- alert.
pub set_alert_status_lem :
    (vault after : Vault) (id : ℕ) (target : AlertStatus) (now : ℕ) (a : Alert)
    (seen : Option AlertView)
    → first? (λ (x : Alert). x.id == id) vault.alerts ≡ some a
    → set_alert_status vault id target now ≡ ok (after, seen)
    → (first? (λ (x : Alert). x.id == id) after.alerts ≡ some (changed target (stamp now) a))
      × (select (λ (x : Alert). not (x.id == id)) after.alerts
          ≡ select (λ (x : Alert). not (x.id == id)) vault.alerts)
unfolding set_alert_status
set_alert_status_lem vault after id target now a seen found e =
    let (vault', moved, e') =
      bind-ok (move vault id a.status target (stamp now)) (λ v. ok (v, get_alert v id)) _
        (ap (λ r. move_found vault id r target (stamp now)) (sym found) ∙ e) in
    let (next, allowed, e₁) = bind-ok (transition a.status target) _ _ moved in
    let (checked, alone, e₂) =
      bind-ok
        (require (count_if (is_current id a.status) vault.alerts == 1)
          (invalid_transition concurrent_message))
        (λ _. ok (record vault {
          alerts = update (is_current id a.status) (changed target (stamp now)) vault.alerts;
        }))
        _ e₁ in
    let same =
      ok-injective _ _ e₂ ∙ ap (λ (r : Vault × Option AlertView). r.0) (ok-injective _ _ e') in
    subst
      (λ (v : Vault).
        (first? (λ (x : Alert). x.id == id) v.alerts ≡ some (changed target (stamp now) a))
        × (select (λ (x : Alert). not (x.id == id)) v.alerts
            ≡ select (λ (x : Alert). not (x.id == id)) vault.alerts))
      same
      (
        first?-changed vault.alerts id a target (stamp now) found,
        others_same vault.alerts id a.status target (stamp now),
      )
