-- ===== src/Activity.antt =====
-- src/heron/analysis/activity.py and src/heron/core/activity_storage.py. A label stands for its text: a day,
-- or an hour of a day.
pub mod Labels
pub mod Counting
pub mod Totals
pub mod Window
pub mod Tests
use heron_mail.Prelude.{
  Bool, List, Option, String, [], any, false, if◌then◌else◌, is_some, leb, ltb, map, none, not,
  select, some, suc, sum, true, update, zero, ℕ, ◌&&◌, ◌*◌, ◌+◌, ◌-◌, ◌==◌, ◌∷◌,
}
use heron_mail.Result.{
  Result, err, key_error, ok, overflow_error, require, value_error, ◌>>=◌, ◌>>◌,
}
use heron_mail.Analyses.{get_analysis}
use heron_mail.Models.{Analysis, Email, Vault}
use heron_mail.Scoring.{Verdict}
use heron_mail.Storage.{of_account}
use heron_mail.Text.{concat}
use heron_mail.Timeutil.{Stamp, Zones, day_length, from_utc_storage_string, stamp}

pub data Label : Type 0 where
  hour_label : ℕ → ℕ → Label
  day_label : ℕ → Label

abbrev pub same_label : Label → Label → Bool
same_label (hour_label d h) (hour_label e i) = (d == e) && (h == i)
same_label (day_label d) (day_label e) = d == e
same_label _ _ = false

pub record Bucket : Type 0 where
  pub label : Label
  pub emails : ℕ
  pub suspicious : ℕ
  pub phishing : ℕ

-- `granularity` is "hour" where `hourly` holds, and "day" otherwise.
pub record Activity : Type 0 where
  pub start_date : ℕ
  pub end_date : ℕ
  pub timezone : String
  pub hourly : Bool
  pub emails : ℕ
  pub analysed : ℕ
  pub suspicious : ℕ
  pub phishing : ℕ
  pub buckets : List Bucket

abbrev pub max_days : ℕ
max_days = 366

-- A row of `fetch_activity_rows`: the time, `none` for a text that `strptime` refuses, and the verdict.
pub record ActivityRow : Type 0 where
  pub internal_date : Option Stamp
  pub verdict : Option Verdict

-- The numbers from one on.
abbrev pub numbers_from : ℕ → ℕ → List ℕ
numbers_from first zero = []
numbers_from first (suc n) = first ∷ numbers_from (suc first) n

-- `_all_labels`
unfoldable pub all_labels : ℕ → ℕ → Bool → List Label
all_labels start_date end_date hourly =
    if hourly
    then map (hour_label start_date) (numbers_from 0 24)
    else map day_label (numbers_from start_date (end_date - start_date + 1))

abbrev pub is_suspicious : Option Verdict → Bool
is_suspicious (some Verdict.suspicious) = true
is_suspicious _ = false

abbrev pub is_phishing : Option Verdict → Bool
is_phishing (some Verdict.phishing) = true
is_phishing _ = false

abbrev pub one_if : Bool → ℕ
one_if b = if b then 1 else 0

-- The three counts of a bucket after one more message.
unfoldable pub bump : Option Verdict → Bucket → Bucket
bump verdict b = record b {
  emails = suc b.emails;
  suspicious = b.suspicious + one_if (is_suspicious verdict);
  phishing = b.phishing + one_if (is_phishing verdict);
}

abbrev pub empty_bucket : Label → Bucket
empty_bucket l = record { label = l; emails = 0; suspicious = 0; phishing = 0 }

-- The dictionary `counts` in the order of its labels, and `analysed`.
pub record Counts : Type 0 where
  pub buckets : List Bucket
  pub analysed : ℕ

-- `counts` and `analysed` before the loop.
abbrev pub empty_counts : List Label → Counts
empty_counts labels = record { buckets = map empty_bucket labels; analysed = 0 }

abbrev pub finish_activity : ℕ → ℕ → String → Bool → Counts → Activity
finish_activity start_date end_date tz_name hourly counts = record {
  start_date = start_date;
  end_date = end_date;
  timezone = tz_name;
  hourly = hourly;
  emails = sum (map (λ (b : Bucket). b.emails) counts.buckets);
  analysed = counts.analysed;
  suspicious = sum (map (λ (b : Bucket). b.suspicious) counts.buckets);
  phishing = sum (map (λ (b : Bucket). b.phishing) counts.buckets);
  buckets = counts.buckets;
}

-- `hour` is the hour of the wall clock in a zone at an instant.
module _ (zones : Zones) (hour : zones.Zone → ℕ → ℕ) where
  -- `label`
  abbrev pub label_at : zones.Zone → Bool → ℕ → Label
  label_at zone hourly t =
      if hourly then hour_label (zones.date zone t) (hour zone t) else day_label (zones.date zone t)

  -- `start_date <= local.date() <= end_date`
  abbrev pub is_local : zones.Zone → ℕ → ℕ → ℕ → Bool
  is_local zone start_date end_date t =
      leb start_date (zones.date zone t) && leb (zones.date zone t) end_date

  -- `bucket = counts[label]` and what follows in the loop's body.
  unfoldable pub count_at : Label → Option Verdict → Counts → Result Counts
  unfolding bump
  count_at label verdict counts =
      if any (λ (b : Bucket). same_label label b.label) counts.buckets
      then ok (record {
        buckets = update (λ (b : Bucket). same_label label b.label) (bump verdict) counts.buckets;
        analysed = counts.analysed + one_if (is_some verdict);
      })
      else err key_error

  -- The loop's body for a time that was read.
  abbrev pub count_time : zones.Zone → ℕ → ℕ → Bool → Option Verdict → Counts → ℕ → Result Counts
  count_time zone start_date end_date hourly verdict counts t =
      if is_local zone start_date end_date t
      then count_at (label_at zone hourly t) verdict counts
      else ok counts

  abbrev pub count_row : zones.Zone → ℕ → ℕ → Bool → ActivityRow → Counts → Result Counts
  count_row zone start_date end_date hourly row counts = elim row.internal_date [
    | none ↦ ok counts
    | some s ↦
        count_time zone start_date end_date hourly row.verdict counts (from_utc_storage_string s)
  ]

  unfoldable pub count_rows : zones.Zone → ℕ → ℕ → Bool → List ActivityRow → Counts → Result Counts
  unfolding count_at from_utc_storage_string
  count_rows zone start_date end_date hourly [] counts = ok counts
  count_rows zone start_date end_date hourly (row ∷ rows) counts =
      count_row zone start_date end_date hourly row counts >>= λ next.
      count_rows zone start_date end_date hourly rows next

  -- `ZoneInfo(tz_name)`
  abbrev pub zone_of : String → Result zones.Zone
  zone_of name = elim (zones.load name) [
    | none ↦ err (value_error (concat ("unknown time zone: " ∷ name ∷ [])))
    | some z ↦ ok z
  ]

  unfoldable pub build_activity : List ActivityRow → ℕ → ℕ → String → Result Activity
  unfolding all_labels count_rows
  build_activity rows start_date end_date tz_name = do
    require (not (ltb end_date start_date)) (value_error "end_date must not be before start_date")
    require (leb (end_date - start_date + 1) max_days)
        (value_error "the range can be at most 366 days")
    zone ← zone_of tz_name
    let hourly = start_date == end_date
    counted ←
        count_rows zone start_date end_date hourly rows
          (empty_counts (all_labels start_date end_date hourly))
    ok (finish_activity start_date end_date tz_name hourly counted)

-- The verdict of an email in the outer join with `analyses`.
abbrev pub verdict_for : Option Analysis → Option Verdict
verdict_for none = none
verdict_for (some a) = some a.verdict

abbrev pub activity_row : Vault → Email → ActivityRow
activity_row vault e = record {
  internal_date = some e.internal_date;
  verdict = verdict_for (get_analysis vault e.id);
}

-- The WHERE clause of `fetch_activity_rows`.
abbrev pub in_window : Option ℕ → Stamp → Stamp → Email → Bool
in_window account_id utc_start utc_end e =
    leb utc_start e.internal_date && ltb e.internal_date utc_end && of_account account_id e

unfoldable pub fetch_activity_rows : Vault → Option ℕ → Stamp → Stamp → List ActivityRow
unfolding get_analysis
fetch_activity_rows vault account_id utc_start utc_end =
    map (activity_row vault) (select (in_window account_id utc_start utc_end) vault.emails)

-- "... 00:00:00" of a day
abbrev pub day_stamp : ℕ → Stamp
day_stamp day = stamp (day * day_length)

-- `start_date - timedelta(days=1)` and `end_date + timedelta(days=2)`
abbrev pub window_start : ℕ → Result ℕ
window_start day = if day == 0 then err overflow_error else ok (day - 1)

abbrev pub window_end : ℕ → Result ℕ
window_end day = if ltb (day + 2) 3652059 then ok (day + 2) else err overflow_error

unfoldable pub activity_for :
    (zones : Zones) → (zones.Zone → ℕ → ℕ) → Vault → Option ℕ → ℕ → ℕ → String → Result Activity
unfolding build_activity fetch_activity_rows
activity_for zones hour vault account_id start_date end_date tz_name = do
  require (not (ltb end_date start_date)) (value_error "end_date must not be before start_date")
  first ← window_start start_date
  last ← window_end end_date
  build_activity zones hour
      (fetch_activity_rows vault account_id (day_stamp first) (day_stamp last)) start_date end_date
      tz_name
