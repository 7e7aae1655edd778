-- ===== src/Api/AlertRoutes/Changes.antt =====
-- Changing the status of an alert by a request, src/heron/api/alerts.py.
use heron_mail.Prelude.{Option, [], if◌then◌else◌, none, some, update, ℕ, ◌∷◌}
use heron_mail.Result.{Result, err, http_exception, ok, ◌>>=◌}
use heron_mail.Alerts.{AlertStatus, can_transition, status_value}
use heron_mail.Analyses.{changed, get_alert, is_current}
use heron_mail.Api.{found_or}
use heron_mail.Api.AlertRoutes.{AlertDetailOut, alert_missing, detail}
use heron_mail.Models.{Alert, Vault}
use heron_mail.Text.{concat}
use heron_mail.Timeutil.{Stamp}

-- The answer to a request for an alert that was read.
abbrev pub answer : Vault → ℕ → Option Alert → AlertStatus → Stamp → Result (Vault × AlertDetailOut)
answer vault id none target at = err (http_exception 404 "Alert not found")
answer vault id (some a) target at =
    let after = record vault {
      alerts = update (is_current id a.status) (changed target at) vault.alerts;
    } in
    let moved = found_or alert_missing (get_alert after id) >>= λ v. ok (after, detail v) in
    if can_transition a.status target
    then moved
    else err (
        http_exception 409 (
          concat (
            "cannot move an alert from "
            ∷ status_value a.status
            ∷ " to "
            ∷ status_value target
            ∷ [])))
