-- ===== src/Activity/Totals.antt =====
-- The totals of the timeline are the sums of its buckets, src/heron/analysis/activity.py.
use heron_mail.Prelude.{
  All, Bool, Bool-cases, List, Option, String, [], any, ap, ap₂, arith, count_if, false,
  if◌then◌else◌, inl, inr, is_some, leb, ltb, map, none, not, refl, some, subst, suc, sum, sym,
  true, ℕ, ◌&&◌, ◌+◌, ◌-◌, ◌<◌, ◌==◌, ◌∙◌, ◌∷◌, ◌≡◌, ◌≤◌,
}
use heron_mail.Result.{Result, err, ok, require, value_error, ◌>>=◌}
use heron_mail.Activity.{
  Activity, ActivityRow, Bucket, Label, all_labels, build_activity, count_rows, empty_bucket,
  empty_counts, finish_activity, hour_label, is_local, is_phishing, is_suspicious, label_at,
  max_days, numbers_from, one_if, same_label, zone_of,
}
use heron_mail.Activity.Counting.{
  Tallies, count_rows_lem, counted, counts_in, falls_in, phishing_in, suspicious_in, tallied,
}
use heron_mail.Activity.Labels.{HasOnce, days_once, hours_once}
use heron_mail.Scoring.{Verdict}
use heron_mail.Text.{concat}
use heron_mail.Timeutil.{Stamp, Zones, from_utc_storage_string}

count_false : (ls : List Label) → count_if (λ l. false) ls ≡ 0
count_false [] = refl
count_false (l ∷ ls) = count_false ls

count_and :
    (f : Label → Bool) (b : Bool) (ls : List Label)
    → count_if (λ l. f l && b) ls ≡ (if b then count_if f ls else 0)
count_and f b [] = ground arith
count_and f b (l ∷ ls) = ground (arith, count_and f b ls)

one_more :
    (q : Label → Bool) (g : Label → ℕ) (ls : List Label)
    → sum (map (λ l. if q l then suc (g l) else g l) ls) ≡ count_if q ls + sum (map g ls)
one_more q g [] = omega arith
one_more q g (l ∷ ls) = elim (Bool-cases (q l)) [
  | inl e ↦ rw e (omega (arith, one_more q g ls))
  | inr e ↦ rw e (omega (arith, one_more q g ls))
]

sum_zero : (ls : List Label) → sum (map (λ l. 0) ls) ≡ 0
sum_zero [] = refl
sum_zero (l ∷ ls) = omega (arith, sum_zero ls)

-- Rows that have one label each are counted once over all labels.
double_count :
    (f : Label → ActivityRow → Bool) (c : ActivityRow → Bool) (ls : List Label)
    → ((row : ActivityRow) → count_if (λ l. f l row) ls ≡ one_if (c row))
    → (rows : List ActivityRow) → sum (map (λ l. count_if (f l) rows) ls) ≡ count_if c rows
double_count f c ls once [] = sum_zero ls
double_count f c ls once (row ∷ rows) =
    one_more (λ l. f l row) (λ l. count_if (f l) rows) ls
    ∙ ap₂ (λ m n. m + n) (once row) (double_count f c ls once rows)
    ∙ one_if_add (c row) (count_if c rows)
  where
    one_if_add : (b : Bool) (n : ℕ) → one_if b + n ≡ (if b then suc n else n)
    one_if_add true n = omega arith
    one_if_add false n = omega arith

module _ (zones : Zones) (hour : zones.Zone → ℕ → ℕ) (zone : zones.Zone) (start_date end_date : ℕ)
    (in_day : (z : zones.Zone) (t : ℕ) → hour z t < 24) where
  abbrev hourly : Bool
  hourly = start_date == end_date

  abbrev labels : List Label
  labels = all_labels start_date end_date hourly

  once :
      (t : ℕ)
      → is_local zones hour zone start_date end_date t ≡ true
      → HasOnce (label_at zones hour zone hourly t) labels
  unfolding all_labels
  once t h = elim (Bool-cases (start_date == end_date)) [
    | inl e ↦
        let day : zones.date zone t ≡ start_date = ground arith in
        rw e (
          subst
            (λ d.
              HasOnce (hour_label d (hour zone t))
                (map (hour_label start_date) (numbers_from 0 24)))
            (sym day) (hours_once start_date (hour zone t) 24 (ground (arith, in_day zone t))))
    | inr e ↦
        rw e (days_once (zones.date zone t) start_date (end_date - start_date + 1) (ground arith))
  ]

  once_falls :
      (row : ActivityRow)
      → count_if (λ l. falls_in zones hour zone start_date end_date hourly l row) labels
        ≡ one_if (counts_in zones hour zone start_date end_date hourly row)
  once_falls row = by_date row.internal_date row.verdict
    where
      by_date :
          (date : Option Stamp) (verdict : Option Verdict)
          → let r : ActivityRow = record { internal_date = date; verdict = verdict } in
            count_if (λ l. falls_in zones hour zone start_date end_date hourly l r) labels
            ≡ one_if (counts_in zones hour zone start_date end_date hourly r)
      by_date none verdict = count_false labels
      by_date (some s) verdict =
          let t = from_utc_storage_string s in
          elim (Bool-cases (is_local zones hour zone start_date end_date t)) [
            | inl e ↦
                ap
                  (λ b.
                    count_if (λ l. b && same_label (label_at zones hour zone hourly t) l) labels)
                  e
                ∙ (once t e).1
                ∙ sym (ap one_if e)
            | inr e ↦
                ap
                  (λ b.
                    count_if (λ l. b && same_label (label_at zones hour zone hourly t) l) labels)
                  e
                ∙ count_false labels
                ∙ sym (ap one_if e)
          ]

  once_and :
      (v : ActivityRow → Bool) (row : ActivityRow)
      → count_if (λ l. falls_in zones hour zone start_date end_date hourly l row && v row) labels
        ≡ one_if (counts_in zones hour zone start_date end_date hourly row && v row)
  once_and v row =
      count_and (λ l. falls_in zones hour zone start_date end_date hourly l row) (v row) labels
      ∙ ap (λ n. if v row then n else 0) (once_falls row)
      ∙ both (v row) (counts_in zones hour zone start_date end_date hourly row)
    where
      both : (a b : Bool) → (if a then one_if b else 0) ≡ one_if (b && a)
      both a b = ground arith

  sum_of :
      (rows : List ActivityRow) (g : Bucket → ℕ) (k : Label → ℕ) (ls : List Label)
      → ((l : Label)
          → g (tallied zones hour zone start_date end_date hourly rows (empty_bucket l)) ≡ k l)
      → sum (
          map g
            (map (tallied zones hour zone start_date end_date hourly rows) (map empty_bucket ls)))
        ≡ sum (map k ls)
  sum_of rows g k [] h = refl
  sum_of rows g k (l ∷ ls) h = ap₂ (λ m n. m + n) (h l) (sum_of rows g k ls h)

  -- What the timeline of some rows says.
  pub record Summarises (rows : List ActivityRow) (a : Activity) : Type 0 where
    pub labels_of : map (λ (b : Bucket). b.label) a.buckets ≡ labels
    pub buckets : All (Tallies zones hour zone start_date end_date hourly rows) a.buckets
    pub emails : a.emails ≡ count_if (counts_in zones hour zone start_date end_date hourly) rows
    pub analysed :
        a.analysed
        ≡ count_if
            (λ row. counts_in zones hour zone start_date end_date hourly row && is_some row.verdict)
            rows
    pub suspicious :
        a.suspicious
        ≡ count_if
            (λ row.
              counts_in zones hour zone start_date end_date hourly row && is_suspicious row.verdict)
            rows
    pub phishing :
        a.phishing
        ≡ count_if
            (λ row.
              counts_in zones hour zone start_date end_date hourly row && is_phishing row.verdict)
            rows

  Tallies-All :
      (rows : List ActivityRow) (ls : List Label)
      → All
          (Tallies zones hour zone start_date end_date hourly rows)
          (map (tallied zones hour zone start_date end_date hourly rows) (map empty_bucket ls))
  Tallies-All rows [] = tt
  Tallies-All rows (l ∷ ls) = (
    record { emails = omega arith; suspicious = omega arith; phishing = omega arith },
    Tallies-All rows ls,
  )

  built :
      (rows : List ActivityRow) (tz_name : String)
      → start_date ≤ end_date
      → end_date - start_date + 1 ≤ 366
      → zones.load tz_name ≡ some zone
      → build_activity zones hour rows start_date end_date tz_name
        ≡ ok (
            finish_activity start_date end_date tz_name hourly
              (counted zones hour zone start_date end_date hourly rows (empty_counts labels)))
  unfolding build_activity
  built rows tz_name first_last short known =
      ap
        (λ b. require (not b) (value_error "end_date must not be before start_date") >>= λ done.
          checked)
        (ordered)
      ∙ ap (λ b. require b (value_error "the range can be at most 366 days") >>= λ done. loaded)
          within
      ∙ ap
          (λ z.
            (elim z [
              | none ↦ err (value_error (concat ("unknown time zone: " ∷ tz_name ∷ [])))
              | some z ↦ ok z
            ])
            >>= λ z. finished z)
          known
      ∙ ap (λ r. r >>= λ c. ok (finish_activity start_date end_date tz_name hourly c))
          (count_rows_lem zones hour zone start_date end_date hourly rows (empty_counts labels)
            complete)
    where
      ordered : ltb end_date start_date ≡ false
      ordered = ground arith

      within : leb (end_date - start_date + 1) max_days ≡ true
      within = ground arith

      finished : zones.Zone → Result Activity
      finished z =
          count_rows zones hour z start_date end_date hourly rows (empty_counts labels) >>= λ c.
          ok (finish_activity start_date end_date tz_name hourly c)

      loaded : Result Activity
      loaded = zone_of zones hour tz_name >>= λ z. finished z

      checked : Result Activity
      checked =
          require (leb (end_date - start_date + 1) max_days)
            (value_error "the range can be at most 366 days")
          >>= λ done. loaded

      label_map : (ls : List Label) → map (λ (b : Bucket). b.label) (map empty_bucket ls) ≡ ls
      label_map [] = refl
      label_map (l ∷ ls) = ap (λ x. l ∷ x) (label_map ls)

      complete :
          (t : ℕ)
          → is_local zones hour zone start_date end_date t ≡ true
          → any
              (same_label (label_at zones hour zone hourly t))
              (map (λ (b : Bucket). b.label) (map empty_bucket labels))
            ≡ true
      complete t h =
          ap (any (same_label (label_at zones hour zone hourly t))) (label_map labels)
          ∙ (once t h).0

  summary :
      (rows : List ActivityRow) (tz_name : String)
      → Summarises rows (
          finish_activity start_date end_date tz_name hourly
            (counted zones hour zone start_date end_date hourly rows (empty_counts labels)))
  summary rows tz_name = record {
    labels_of = same_labels labels;
    buckets = Tallies-All rows labels;
    emails =
        sum_of rows (λ (b : Bucket). b.emails)
          (λ l. count_if (falls_in zones hour zone start_date end_date hourly l) rows) labels
          (λ l. omega arith)
        ∙ double_count (falls_in zones hour zone start_date end_date hourly)
            (counts_in zones hour zone start_date end_date hourly) labels once_falls rows;
    analysed = omega arith;
    suspicious =
        sum_of rows (λ (b : Bucket). b.suspicious)
          (λ l. count_if (suspicious_in zones hour zone start_date end_date hourly l) rows) labels
          (λ l. omega arith)
        ∙ double_count (suspicious_in zones hour zone start_date end_date hourly)
            (λ row.
              counts_in zones hour zone start_date end_date hourly row && is_suspicious row.verdict)
            labels (once_and (λ row. is_suspicious row.verdict)) rows;
    phishing =
        sum_of rows (λ (b : Bucket). b.phishing)
          (λ l. count_if (phishing_in zones hour zone start_date end_date hourly l) rows) labels
          (λ l. omega arith)
        ∙ double_count (phishing_in zones hour zone start_date end_date hourly)
            (λ row.
              counts_in zones hour zone start_date end_date hourly row && is_phishing row.verdict)
            labels (once_and (λ row. is_phishing row.verdict)) rows;
  }
    where
      same_labels :
          (ls : List Label)
          → map
              (λ (b : Bucket). b.label)
              (map (tallied zones hour zone start_date end_date hourly rows) (map empty_bucket ls))
            ≡ ls
      same_labels [] = refl
      same_labels (l ∷ ls) = ap (λ x. l ∷ x) (same_labels ls)

-- For a known zone, whose hours are below 24, and at most 366 days in order, `build_activity` returns a
-- timeline: its buckets have the labels of `_all_labels` in order, each counts the rows that fall on its label
-- (all, the suspicious and the phishing ones), and the totals count the rows whose local date lies in the days.
pub build_activity-Summarises :
    (zones : Zones) (hour : zones.Zone → ℕ → ℕ) (zone : zones.Zone) (start_date end_date : ℕ)
    (in_day : (z : zones.Zone) (t : ℕ) → hour z t < 24) (rows : List ActivityRow) (tz_name : String)
    → start_date ≤ end_date
    → end_date - start_date + 1 ≤ 366
    → zones.load tz_name ≡ some zone
    → (a : Activity) × (build_activity zones hour rows start_date end_date tz_name ≡ ok a)
      × Summarises zones hour zone start_date end_date in_day rows a
build_activity-Summarises zones hour zone start_date end_date in_day rows tz_name ordered short
      known =
    (
      _,
      built zones hour zone start_date end_date in_day rows tz_name ordered short known,
      summary zones hour zone start_date end_date in_day rows tz_name,
    )
