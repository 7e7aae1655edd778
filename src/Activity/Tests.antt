-- ===== src/Activity/Tests.antt =====
-- The timeline on small inputs, src/heron/analysis/activity.py and src/heron/core/activity_storage.py.
use heron_mail.Prelude.{
  List, [], arith, if◌then◌else◌, map, none, refl, select, some, str_eq, true, ℕ, ◌%◌, ◌*◌, ◌+◌,
  ◌-◌, ◌/◌, ◌<◌, ◌∷◌, ◌≡◌, ◌≤◌,
}
use heron_mail.Result.{err, http_exception, ok}
use heron_mail.Activity.{
  Activity, ActivityRow, activity_for, activity_row, build_activity, empty_bucket, finish_activity,
  hour_label, numbers_from,
}
use heron_mail.Activity.Totals.{Summarises, build_activity-Summarises}
use heron_mail.Activity.Window.{activity_for-build_activity}
use heron_mail.Analyses.Tests.{recorded}
use heron_mail.Api.{require_mailbox, unprocessable}
use heron_mail.Api.Timeline.{read_activity}
use heron_mail.Scoring.{phishing}
use heron_mail.Storage.{of_account}
use heron_mail.Text.{concat}
use heron_mail.Timeutil.{Zones, day_length}

-- One hour east of UTC. A day begins there at 23:00.
abbrev east : Zones
east = record {
  Zone = Unit {0};
  load = λ name. if str_eq name "East" then some tt else none;
  midnight = λ zone day. day * day_length - 3_600_000_000;
  date = λ zone t. (t + 3_600_000_000) / day_length;
  repr = λ name. concat ("'" ∷ name ∷ "'" ∷ []);
}

abbrev wall_hour : east.Zone → ℕ → ℕ
wall_hour zone t = (t + 3_600_000_000) / 3_600_000_000 % 24

-- A phishing message at 23:30 of day 5, which is day 6 in the zone, and one on day 7 without a verdict.
abbrev two_rows : List ActivityRow
two_rows =
    record { internal_date = some (5 * 86_400 + 84_600); verdict = some phishing }
    ∷ record { internal_date = some (7 * 86_400); verdict = none }
    ∷ []

counts_one :
    build_activity east wall_hour two_rows 6 6 "East"
    ≡ ok (
        finish_activity 6 6 "East" true (record {
          buckets =
              record { label = hour_label 6 0; emails = 1; suspicious = 0; phishing = 1 }
              ∷ map (λ h. empty_bucket (hour_label 6 h)) (numbers_from 1 23);
          analysed = 1;
        }))
unfolding build_activity
counts_one = refl

within_day : (zone : east.Zone) (t : ℕ) → wall_hour zone t < 24
within_day zone t = omega arith

build_activity-Summarises_example :
    (a : Activity) × (build_activity east wall_hour two_rows 6 7 "East" ≡ ok a)
    × Summarises east wall_hour tt 6 7 within_day two_rows a
build_activity-Summarises_example =
    build_activity-Summarises east wall_hour tt 6 7 within_day two_rows "East" (omega arith)
      (omega arith) refl

not_behind : (zone : east.Zone) (t : ℕ) → t / day_length ≤ east.date zone t + 1
not_behind zone t = omega arith

not_ahead : (zone : east.Zone) (t : ℕ) → east.date zone t ≤ t / day_length + 1
not_ahead zone t = omega arith

activity_for-build_activity_example :
    activity_for east wall_hour recorded (some 1) 1 2 "East"
    ≡ build_activity east wall_hour
        (map (activity_row recorded) (select (of_account (some 1)) recorded.emails))
        1
        2
        "East"
activity_for-build_activity_example =
    activity_for-build_activity east wall_hour recorded (some 1) 1 2 "East" not_behind not_ahead
      (omega arith) (omega arith) (omega arith)

refuses_one_date :
    read_activity east wall_hour recorded none 1 (some 5) none "East" 0
    ≡ err (http_exception 422 "Give both start_date and end_date, or neither.")
unfolding read_activity require_mailbox
refuses_one_date = refl

-- At 23:30 of day 5 it is day 6 in the zone.
reads_today :
    read_activity east wall_hour recorded none 1 none none "East" (5 * day_length + 84_600_000_000)
    ≡ unprocessable (activity_for east wall_hour recorded none 6 6 "East")
unfolding read_activity require_mailbox
reads_today = refl
