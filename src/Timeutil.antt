-- ===== src/Timeutil.antt =====
-- src/heron/core/timeutil.py. An aware datetime is its instant, in microseconds since the first
-- representable one; a naive datetime is its wall-clock reading, in microseconds too. A date is its
-- number of days since 0001-01-01.
use heron_mail.Prelude.{
  Bool, Option, String, [], false, if◌then◌else◌, leb, ltb, none, not, some, str_eq, true, ℕ, ◌&&◌,
  ◌*◌, ◌+◌, ◌-◌, ◌/◌, ◌∷◌,
}
use heron_mail.Result.{Result, err, ok, overflow_error, require, value_error, ◌>>=◌, ◌>>◌}
use heron_mail.Text.{concat}

abbrev pub second : ℕ
second = 1_000_000

abbrev pub day_length : ℕ
day_length = 86_400_000_000

-- One past `datetime.max`: 3652059 days.
abbrev pub instant_limit : ℕ
instant_limit = 3652059 * day_length

pub data Datetime : Type 0 where
  aware naive : ℕ → Datetime

-- `value.tzinfo is None`
abbrev pub is_naive : Datetime → Bool
is_naive (aware t) = false
is_naive (naive t) = true

-- Both bounds are aware, which `__post_init__` checks, so they are instants.
pub record DateRange : Type 0 where
  pub start : ℕ
  pub end : ℕ

-- DateRange(start, end)
unfoldable pub new_range : Datetime → Datetime → Result DateRange
new_range (naive s) e = err (value_error "DateRange.start must be timezone-aware")
new_range (aware s) (naive e) = err (value_error "DateRange.end must be timezone-aware")
new_range (aware s) (aware e) =
    if leb e s
    then err (value_error "DateRange.start must be before DateRange.end")
    else ok (record { start = s; end = e })

abbrev pub in_range : DateRange → ℕ → Bool
in_range r t = leb r.start t && ltb t r.end

unfoldable pub contains : DateRange → Datetime → Result Bool
contains r (naive t) = err (value_error "ts must be timezone-aware")
contains r (aware t) = ok (in_range r t)

-- `value - timedelta(days=1)` and `value + timedelta(days=1)`
abbrev pub day_before : ℕ → Result ℕ
day_before t = if ltb t day_length then err overflow_error else ok (t - day_length)

abbrev pub day_after : ℕ → Result ℕ
day_after t = if ltb (t + day_length) instant_limit then ok (t + day_length) else err overflow_error

unfoldable pub widened_for_imap_search : DateRange → Result DateRange
unfolding new_range
widened_for_imap_search r = do
  s ← day_before r.start
  e ← day_after r.end
  new_range (aware s) (aware e)

-- A stored timestamp, 'YYYY-MM-DD HH:MM:SS' in UTC, as the seconds that it stands for.
abbrev pub Stamp : Type 0
Stamp = ℕ

unfoldable pub to_utc_storage_string : Datetime → Result Stamp
to_utc_storage_string (naive t) = err (value_error "ts must be timezone-aware")
to_utc_storage_string (aware t) = ok (t / second)

abbrev pub stamp : ℕ → Stamp
stamp t = t / second

unfoldable pub from_utc_storage_string : Stamp → ℕ
from_utc_storage_string s = s * second

-- The time zone database: `load` is `ZoneInfo(name)`, `none` if it raises; `midnight` is the instant
-- at which a wall clock in the zone reads 00:00 on a date; `date` is the date there at an instant; `repr` is
-- Python's repr of a name, which the error for an unknown zone shows.
pub record Zones : Type 1 where
  pub Zone : Type 0
  pub load : String → Option Zone
  pub midnight : Zone → ℕ → ℕ
  pub date : Zone → ℕ → ℕ
  pub repr : String → String

module _ (zones : Zones) where
  open zones use {Zone, load, midnight, date, repr}

  unfoldable pub get_zone : String → Result Zone
  get_zone name = elim (load name) [
    | none ↦ err (value_error (concat ("unknown timezone: " ∷ repr name ∷ [])))
    | some z ↦ ok z
  ]

  -- `day + timedelta(days=1)`
  abbrev pub next_day : ℕ → Result ℕ
  next_day day = if ltb (day + 1) 3652059 then ok (day + 1) else err overflow_error

  unfoldable pub local_day_range : ℕ → String → Result DateRange
  unfolding get_zone new_range
  local_day_range day name = do
    zone ← get_zone name
    next ← next_day day
    new_range (aware (midnight zone day)) (aware (midnight zone next))

  unfoldable pub local_date_range : ℕ → ℕ → String → Result DateRange
  unfolding local_day_range
  local_date_range start_day end_day name = do
    require (not (ltb end_day start_day)) (value_error "end_day must not be before start_day")
    first ← local_day_range start_day name
    last ← local_day_range end_day name
    new_range (aware first.start) (aware last.end)

  -- `now` is the clock's instant, or the one that the caller passed.
  unfoldable pub today_range : String → ℕ → Result DateRange
  unfolding local_day_range
  today_range name now = do zone ← get_zone name; local_day_range (date zone now) name

-- `none` for a naive datetime.
abbrev pub in_utc : Datetime → Option ℕ
in_utc (naive t) = none
in_utc (aware t) = some t

-- `parsedate` is email.utils.parsedate_to_datetime: `none` if it raises TypeError or ValueError.
unfoldable pub parse_email_date_header : (String → Option Datetime) → Option String → Option ℕ
parse_email_date_header parsedate none = none
parse_email_date_header parsedate (some value) =
    if str_eq value ""
    then none
    else elim (parsedate value) [ none ↦ none | some parsed ↦ in_utc parsed ]
