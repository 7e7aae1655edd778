-- ===== src/Activity/Window.antt =====
-- The rows that the timeline reads, src/heron/core/activity_storage.py.
use heron_mail.Prelude.{
  Bool, Bool-cases, List, Option, String, [], ap, arith, false, if◌then◌else◌, inl, inr, leb, ltb,
  map, not, refl, select, sym, true, ℕ, ◌&&◌, ◌*◌, ◌+◌, ◌-◌, ◌/◌, ◌<◌, ◌==◌, ◌∙◌, ◌∷◌, ◌≡◌, ◌≤◌,
}
use heron_mail.Result.{Result, ok, require, value_error, ◌>>=◌, ◌>>◌}
use heron_mail.Activity.{
  ActivityRow, Counts, activity_for, activity_row, all_labels, build_activity, count_at, count_row,
  count_rows, day_stamp, empty_counts, fetch_activity_rows, finish_activity, in_window, is_local,
  label_at, max_days, verdict_for, zone_of,
}
use heron_mail.Analyses.{get_analysis}
use heron_mail.Models.{Email, Vault}
use heron_mail.Storage.{of_account}
use heron_mail.Timeutil.{Stamp, Zones, day_length, from_utc_storage_string, second}

module _ (zones : Zones) (hour : zones.Zone → ℕ → ℕ) (zone : zones.Zone) (start_date end_date : ℕ)
    (hourly : Bool) (vault : Vault) (account_id : Option ℕ)
    (after : (t : ℕ) → t / day_length ≤ zones.date zone t + 1)
    (before : (t : ℕ) → zones.date zone t ≤ t / day_length + 1) (positive : 1 ≤ start_date) where
  abbrev in_days : Email → Bool
  in_days = in_window account_id (day_stamp (start_date - 1)) (day_stamp (end_date + 2))

  outside :
      (s : Stamp)
      → (leb (day_stamp (start_date - 1)) s && ltb s (day_stamp (end_date + 2))) ≡ false
      → is_local zones hour zone start_date end_date (from_utc_storage_string s) ≡ false
  unfolding from_utc_storage_string
  outside s h = ground (arith, after (s * second), before (s * second))

  abbrev in_time : Email → Bool
  in_time e =
      leb (day_stamp (start_date - 1)) e.internal_date
      && ltb e.internal_date (day_stamp (end_date + 2))

  skipped :
      (e : Email) (counts : Counts)
      → in_time e ≡ false
      → count_row zones hour zone start_date end_date hourly (activity_row vault e) counts
        ≡ ok counts
  skipped e counts h =
      ap
        (λ b.
          if b
          then count_at zones hour
              (label_at zones hour zone hourly (from_utc_storage_string e.internal_date))
              (verdict_for (get_analysis vault e.id)) counts
          else ok counts)
        (outside e.internal_date h)

  same_count :
      (es : List Email) (counts : Counts)
      → count_rows zones hour zone start_date end_date hourly
          (map (activity_row vault) (select in_days es))
          counts
        ≡ count_rows zones hour zone start_date end_date hourly
            (map (activity_row vault) (select (of_account account_id) es))
            counts
  unfolding count_rows
  same_count [] counts = refl
  same_count (e ∷ es) counts = elim (Bool-cases (in_time e)) [
    | inl h ↦ elim (Bool-cases (of_account account_id e)) [
      | inl a ↦
          rw (h, a)
            (ap
              (λ k.
                count_row zones hour zone start_date end_date hourly (activity_row vault e) counts
                >>= k)
              (λ i next. same_count es next i))
      | inr a ↦ rw (h, a) (same_count es counts)
    ]
    | inr h ↦ elim (Bool-cases (of_account account_id e)) [
      | inl a ↦
          rw (h, a)
            (same_count es counts
              ∙ sym (ap (λ r. r >>= λ next. account_rows es next) (skipped e counts h)))
      | inr a ↦ rw (h, a) (same_count es counts)
    ]
  ]
    where
      account_rows : List Email → Counts → Result Counts
      account_rows es next =
          count_rows zones hour zone start_date end_date hourly
            (map (activity_row vault) (select (of_account account_id) es)) next

build_rows :
    (zones : Zones) (hour : zones.Zone → ℕ → ℕ) (start_date end_date : ℕ) (tz_name : String)
    (rows others : List ActivityRow)
    → ((zone : zones.Zone) (counts : Counts)
        → count_rows zones hour zone start_date end_date (start_date == end_date) rows counts
          ≡ count_rows zones hour zone start_date end_date (start_date == end_date) others counts)
    → build_activity zones hour rows start_date end_date tz_name
      ≡ build_activity zones hour others start_date end_date tz_name
unfolding build_activity
build_rows zones hour start_date end_date tz_name rows others same = λ i.
    require (not (ltb end_date start_date)) (value_error "end_date must not be before start_date")
    >> (require (leb (end_date - start_date + 1) max_days)
          (value_error "the range can be at most 366 days")
        >> (zone_of zones hour tz_name >>= λ zone.
            same zone (empty_counts (all_labels start_date end_date (start_date == end_date))) i
            >>= λ c. ok (finish_activity start_date end_date tz_name (start_date == end_date) c)))

windowed :
    (zones : Zones) (hour : zones.Zone → ℕ → ℕ) (vault : Vault) (account_id : Option ℕ)
    (start_date end_date : ℕ) (tz_name : String)
    → 1 ≤ start_date
    → start_date ≤ end_date
    → end_date + 2 < 3652059
    → activity_for zones hour vault account_id start_date end_date tz_name
      ≡ build_activity zones hour
          (fetch_activity_rows vault account_id
            (day_stamp (start_date - 1))
            (day_stamp (end_date + 2)))
          start_date
          end_date
          tz_name
unfolding activity_for
windowed zones hour vault account_id start_date end_date tz_name positive ordered late =
    let in_order : ltb end_date start_date ≡ false = ground arith in
    let not_first : (start_date == 0) ≡ false = ground arith in
    let not_late : ltb (end_date + 2) 3652059 ≡ true = ground arith in
    rw (in_order, not_first, not_late) refl

-- In a zone whose date is at most a day from that of UTC, `activity_for` is the timeline of all rows of the
-- account: the window, wider by a day on each side, loses none that `build_activity` counts. The days are in
-- order, the first is not the calendar's first day, and two days follow the last.
pub activity_for-build_activity :
    (zones : Zones) (hour : zones.Zone → ℕ → ℕ) (vault : Vault) (account_id : Option ℕ)
    (start_date end_date : ℕ) (tz_name : String)
    → ((zone : zones.Zone) (t : ℕ) → t / day_length ≤ zones.date zone t + 1)
    → ((zone : zones.Zone) (t : ℕ) → zones.date zone t ≤ t / day_length + 1)
    → 1 ≤ start_date
    → start_date ≤ end_date
    → end_date + 2 < 3652059
    → activity_for zones hour vault account_id start_date end_date tz_name
      ≡ build_activity zones hour
          (map (activity_row vault) (select (of_account account_id) vault.emails))
          start_date
          end_date
          tz_name
unfolding fetch_activity_rows
activity_for-build_activity zones hour vault account_id start_date end_date tz_name after before
      positive ordered late =
    windowed zones hour vault account_id start_date end_date tz_name positive ordered late
    ∙ build_rows zones hour start_date end_date tz_name
        (fetch_activity_rows vault account_id (day_stamp (start_date - 1))
          (day_stamp (end_date + 2)))
        (map (activity_row vault) (select (of_account account_id) vault.emails))
        (λ zone counts.
          same_count zones hour zone start_date end_date (start_date == end_date) vault account_id
            (after zone) (before zone) positive vault.emails counts)
