-- ===== src/Api/Timeline.antt =====
-- The route of src/heron/api/activity.py.
use heron_mail.Prelude.{Option, String, if◌then◌else◌, ltb, none, some, ℕ, ◌-◌}
use heron_mail.Result.{Result, err, http_exception, key_error, ok, overflow_error, ◌>>=◌, ◌>>◌}
use heron_mail.Activity.{Activity, activity_for}
use heron_mail.Api.{require_mailbox, unprocessable}
use heron_mail.Models.{Vault}
use heron_mail.Timeutil.{Zones}

module _ (zones : Zones) (hour : zones.Zone → ℕ → ℕ) where
  -- `datetime.now(ZoneInfo(settings.timezone)).date()`: a zone that is not found raises a KeyError.
  abbrev pub today_in : String → ℕ → Result ℕ
  today_in tz_name now = elim (zones.load tz_name) [
    | none ↦ err key_error
    | some zone ↦ ok (zones.date zone now)
  ]

  -- `end_date - timedelta(days=days - 1)`
  abbrev pub first_day : ℕ → ℕ → Result ℕ
  first_day end_date days =
      if ltb end_date (days - 1) then err overflow_error else ok (end_date - (days - 1))

  abbrev pub last_days : String → ℕ → ℕ → Result (ℕ × ℕ)
  last_days tz_name days now = do
    end_date ← today_in tz_name now
    start_date ← first_day end_date days
    ok (start_date, end_date)

  -- The first and the last day of the timeline.
  abbrev pub chosen_days : Option ℕ → Option ℕ → String → ℕ → ℕ → Result (ℕ × ℕ)
  chosen_days (some start_date) (some end_date) tz_name days now = ok (start_date, end_date)
  chosen_days none none tz_name days now = last_days tz_name days now
  chosen_days _ _ tz_name days now =
      err (http_exception 422 "Give both start_date and end_date, or neither.")

  unfoldable pub read_activity :
      Vault → Option ℕ → ℕ → Option ℕ → Option ℕ → String → ℕ → Result Activity
  unfolding require_mailbox activity_for
  read_activity vault mailbox_id days start_date end_date tz_name now = do
    require_mailbox vault mailbox_id
    chosen ← chosen_days start_date end_date tz_name days now
    unprocessable (activity_for zones hour vault mailbox_id chosen.0 chosen.1 tz_name)
