-- ===== src/Alerts/Lifecycle.antt =====
-- The moves between the statuses of an alert, `transition` of src/heron/analysis/alerts.py.
use heron_mail.Prelude.{List, [], arith, length, refl, ◌∷◌, ◌≡◌, ◌≤◌}
use heron_mail.Result.{Result, ok, ◌>>=◌}
use heron_mail.Alerts.{
  AlertStatus, acknowledged, can_transition, false_positive, open_alert, resolved, transition,
}

abbrev pub all_statuses : List AlertStatus
all_statuses = open_alert ∷ acknowledged ∷ resolved ∷ false_positive ∷ []

-- The status after a sequence of moves that are all allowed.
abbrev pub moves : AlertStatus → List AlertStatus → Result AlertStatus
moves current [] = ok current
moves current (target ∷ rest) = transition current target >>= λ next. moves next rest

-- From every status an alert can be brought to every other status by at most two allowed moves.
pub transition_reaches :
    (current target : AlertStatus)
    → (path : List AlertStatus) × (length path ≤ 2) × (moves current path ≡ ok target)
unfolding transition can_transition
transition_reaches open_alert open_alert = ([], omega arith, refl)
transition_reaches open_alert acknowledged = (acknowledged ∷ [], omega arith, refl)
transition_reaches open_alert resolved = (resolved ∷ [], omega arith, refl)
transition_reaches open_alert false_positive = (false_positive ∷ [], omega arith, refl)
transition_reaches acknowledged open_alert = (resolved ∷ open_alert ∷ [], omega arith, refl)
transition_reaches acknowledged acknowledged = ([], omega arith, refl)
transition_reaches acknowledged resolved = (resolved ∷ [], omega arith, refl)
transition_reaches acknowledged false_positive = (false_positive ∷ [], omega arith, refl)
transition_reaches resolved open_alert = (open_alert ∷ [], omega arith, refl)
transition_reaches resolved acknowledged = (open_alert ∷ acknowledged ∷ [], omega arith, refl)
transition_reaches resolved resolved = ([], omega arith, refl)
transition_reaches resolved false_positive = (open_alert ∷ false_positive ∷ [], omega arith, refl)
transition_reaches false_positive open_alert = (open_alert ∷ [], omega arith, refl)
transition_reaches false_positive acknowledged = (open_alert ∷ acknowledged ∷ [], omega arith, refl)
transition_reaches false_positive resolved = (open_alert ∷ resolved ∷ [], omega arith, refl)
transition_reaches false_positive false_positive = ([], omega arith, refl)
