-- ===== src/Activity/Counting.antt =====
-- What the timeline counts, src/heron/analysis/activity.py.
use heron_mail.Prelude.{
  Bool, Bool-cases, List, Option, [], any, ap, ap₂, arith, count_if, false, if◌then◌else◌, inl, inr,
  is_some, map, none, refl, some, subst, suc, sym, true, update, ℕ, ◌&&◌, ◌+◌, ◌||◌, ◌∙◌, ◌∷◌, ◌≡◌,
}
use heron_mail.Result.{ok, ◌>>=◌}
use heron_mail.Activity.{
  ActivityRow, Bucket, Counts, Label, bump, count_at, count_row, count_rows, is_local, is_phishing,
  is_suspicious, label_at, one_if, same_label,
}
use heron_mail.Scoring.{Verdict}
use heron_mail.Timeutil.{Stamp, Zones, from_utc_storage_string}

module _ (zones : Zones) (hour : zones.Zone → ℕ → ℕ) (zone : zones.Zone) (start_date end_date : ℕ)
    (hourly : Bool) where
  -- The row has a time that lies in the days, and its label is `l`.
  abbrev pub counts_in : ActivityRow → Bool
  counts_in row = elim row.internal_date [
    | none ↦ false
    | some s ↦ is_local zones hour zone start_date end_date (from_utc_storage_string s)
  ]

  abbrev pub falls_in : Label → ActivityRow → Bool
  falls_in l row = counts_in row && (elim row.internal_date [
    | none ↦ false
    | some s ↦ same_label (label_at zones hour zone hourly (from_utc_storage_string s)) l
  ])

  abbrev pub suspicious_in : Label → ActivityRow → Bool
  suspicious_in l row = falls_in l row && is_suspicious row.verdict

  abbrev pub phishing_in : Label → ActivityRow → Bool
  phishing_in l row = falls_in l row && is_phishing row.verdict

  -- A bucket after the rows, without the loop.
  abbrev pub tallied : List ActivityRow → Bucket → Bucket
  tallied rows b = record {
    label = b.label;
    emails = b.emails + count_if (falls_in b.label) rows;
    suspicious = b.suspicious + count_if (suspicious_in b.label) rows;
    phishing = b.phishing + count_if (phishing_in b.label) rows;
  }

  -- The counts of a bucket are those of the rows with its label.
  pub record Tallies (rows : List ActivityRow) (b : Bucket) : Type 0 where
    pub emails : b.emails ≡ count_if (falls_in b.label) rows
    pub suspicious : b.suspicious ≡ count_if (suspicious_in b.label) rows
    pub phishing : b.phishing ≡ count_if (phishing_in b.label) rows

  bucket_path :
      (l : Label) (e e' s s' p p' : ℕ)
      → e ≡ e'
      → s ≡ s'
      → p ≡ p'
      → ◌≡◌ {A = Bucket}
          (record { label = l; emails = e; suspicious = s; phishing = p })
          (record { label = l; emails = e'; suspicious = s'; phishing = p' })
  bucket_path l e e' s s' p p' h j k =
      λ i. record { label = l; emails = h i; suspicious = j i; phishing = k i }

  add_one : (b : Bool) (m n : ℕ) → (m + one_if b) + n ≡ m + (if b then suc n else n)
  add_one true m n = omega arith
  add_one false m n = omega arith

  tallied-bump :
      (row : ActivityRow) (rows : List ActivityRow) (b : Bucket)
      → tallied rows (if falls_in b.label row then bump row.verdict b else b)
        ≡ tallied (row ∷ rows) b
  unfolding bump
  tallied-bump row rows b = elim (Bool-cases (falls_in b.label row)) [
    | inl e ↦ rw e (
        bucket_path b.label _ _ _ _ _ _ (omega arith)
          (add_one (is_suspicious row.verdict) b.suspicious (count_if (suspicious_in b.label) rows))
          (add_one (is_phishing row.verdict) b.phishing (count_if (phishing_in b.label) rows)))
    | inr e ↦ rw e refl
  ]

  counts_path :
      (bs cs : List Bucket) (m n : ℕ)
      → bs ≡ cs
      → m ≡ n
      → ◌≡◌ {A = Counts}
          (record { buckets = bs; analysed = m })
          (record { buckets = cs; analysed = n })
  counts_path bs cs m n h k = λ i. record { buckets = h i; analysed = k i }

  abbrev pub analysed_in : ActivityRow → Bool
  analysed_in row = counts_in row && is_some row.verdict

  abbrev pub counted : List ActivityRow → Counts → Counts
  counted rows counts = record {
    buckets = map (tallied rows) counts.buckets;
    analysed = counts.analysed + count_if analysed_in rows;
  }

  abbrev pub bucket_label : Bucket → Label
  bucket_label b = b.label

  -- Any time in the days has one of the labels.
  abbrev pub Complete : List Label → Type 0
  Complete labels =
      (t : ℕ)
      → is_local zones hour zone start_date end_date t ≡ true
      → any (same_label (label_at zones hour zone hourly t)) labels ≡ true

  abbrev bumped : ActivityRow → Bucket → Bucket
  bumped row b = if falls_in b.label row then bump row.verdict b else b

  bumped_label : (row : ActivityRow) (b : Bucket) → (bumped row b).label ≡ b.label
  unfolding bump
  bumped_label row b = elim (Bool-cases (falls_in b.label row)) [ inl e ↦ rw e | inr e ↦ rw e ]

  bumped_labels :
      (row : ActivityRow) (bs : List Bucket)
      → map bucket_label (map (bumped row) bs) ≡ map bucket_label bs
  bumped_labels row [] = refl
  bumped_labels row (b ∷ bs) = ap₂ (λ l ls. l ∷ ls) (bumped_label row b) (bumped_labels row bs)

  any_label :
      (l : Label) (bs : List Bucket)
      → any (λ (b : Bucket). same_label l b.label) bs ≡ any (same_label l) (map bucket_label bs)
  any_label l [] = refl
  any_label l (b ∷ bs) = ap (λ x. same_label l b.label || x) (any_label l bs)

  update-map :
      (p : Bucket → Bool) (f : Bucket → Bucket) (bs : List Bucket)
      → update p f bs ≡ map (λ b. if p b then f b else b) bs
  update-map p f [] = refl
  update-map p f (b ∷ bs) = ap (λ l. (if p b then f b else b) ∷ l) (update-map p f bs)

  map_same : (f : Bucket → Bucket) (bs : List Bucket) → ((b : Bucket) → f b ≡ b) → bs ≡ map f bs
  map_same f [] h = refl
  map_same f (b ∷ bs) h = ap₂ (λ x l. x ∷ l) (sym (h b)) (map_same f bs h)

  abbrev stepped : ActivityRow → Counts → Counts
  stepped row counts = record {
    buckets = map (bumped row) counts.buckets;
    analysed = counts.analysed + one_if (analysed_in row);
  }

  unchanged :
      (row : ActivityRow) (counts : Counts)
      → counts_in row ≡ false
      → ok counts ≡ ok (stepped row counts)
  unchanged row counts e =
      let still : (b : Bucket) → bumped row b ≡ b = λ b. rw e refl in
      ap ok (
        counts_path counts.buckets (map (bumped row) counts.buckets) counts.analysed
          (counts.analysed + one_if (analysed_in row)) (map_same (bumped row) counts.buckets still)
          (rw e (omega arith)))

  map_cong :
      (f g : Bucket → Bucket) (bs : List Bucket) → ((b : Bucket) → f b ≡ g b) → map f bs ≡ map g bs
  map_cong f g [] h = refl
  map_cong f g (b ∷ bs) h = ap₂ (λ x l. x ∷ l) (h b) (map_cong f g bs h)

  count_at_known :
      (l : Label) (verdict : Option Verdict) (counts : Counts)
      → any (λ (b : Bucket). same_label l b.label) counts.buckets ≡ true
      → count_at zones hour l verdict counts
        ≡ ok (record {
          buckets = update (λ (b : Bucket). same_label l b.label) (bump verdict) counts.buckets;
          analysed = counts.analysed + one_if (is_some verdict);
        })
  unfolding count_at
  count_at_known l verdict counts h = rw h

  count_row_lem :
      (date : Option Stamp) (verdict : Option Verdict) (counts : Counts)
      → Complete (map bucket_label counts.buckets)
      → count_row zones hour zone start_date end_date hourly
          (record { internal_date = date; verdict = verdict })
          counts
        ≡ ok (stepped (record { internal_date = date; verdict = verdict }) counts)
  count_row_lem none verdict counts h =
      unchanged (record { internal_date = none; verdict = verdict }) counts refl
  count_row_lem (some s) verdict counts h =
      let t = from_utc_storage_string s in
      let row : ActivityRow = record { internal_date = some s; verdict = verdict } in
      elim (Bool-cases (is_local zones hour zone start_date end_date t)) [
        | inr e ↦
            ap
              (λ b.
                if b
                then count_at zones hour (label_at zones hour zone hourly t) verdict counts
                else ok counts)
              e
            ∙ unchanged row counts e
        | inl e ↦
            let l = label_at zones hour zone hourly t in
            let known : any (λ (b : Bucket). same_label l b.label) counts.buckets ≡ true =
              any_label l counts.buckets ∙ h t e in
            ap (λ b. if b then count_at zones hour l verdict counts else ok counts) e
            ∙ count_at_known l verdict counts known
            ∙ ap ok (
                counts_path _ _ _ _
                  (update-map (λ (b : Bucket). same_label l b.label) (bump verdict) counts.buckets
                    ∙ map_cong (λ b. if same_label l b.label then bump verdict b else b)
                        (bumped row) counts.buckets
                        (λ b.
                          ap (λ x. if x && same_label l b.label then bump verdict b else b)
                            (sym e)))
                  (ap (λ x. counts.analysed + one_if (x && is_some verdict)) (sym e)))
      ]

  retallied :
      (row : ActivityRow) (rows : List ActivityRow) (bs : List Bucket)
      → map (tallied rows) (map (bumped row) bs) ≡ map (tallied (row ∷ rows)) bs
  retallied row rows [] = refl
  retallied row rows (b ∷ bs) = ap₂ (λ x l. x ∷ l) (tallied-bump row rows b) (retallied row rows bs)

  map-tallied : (bs : List Bucket) → bs ≡ map (tallied []) bs
  map-tallied [] = refl
  map-tallied (b ∷ bs) =
      ap₂ (λ x l. x ∷ l) (bucket_path b.label _ _ _ _ _ _ (omega arith) (omega arith) (omega arith))
        (map-tallied bs)

  pub count_rows_lem :
      (rows : List ActivityRow) (counts : Counts)
      → Complete (map bucket_label counts.buckets)
      → count_rows zones hour zone start_date end_date hourly rows counts ≡ ok (counted rows counts)
  unfolding count_rows
  count_rows_lem [] counts h =
      ap ok (counts_path _ _ _ _ (map-tallied counts.buckets) (omega arith))
  count_rows_lem (row ∷ rows) counts h =
      ap (λ r. r >>= λ next. count_rows zones hour zone start_date end_date hourly rows next)
        (count_row_lem row.internal_date row.verdict counts h)
      ∙ count_rows_lem rows (stepped row counts)
          (subst Complete (sym (bumped_labels row counts.buckets)) h)
      ∙ ap ok (
          counts_path _ _ _ _ (retallied row rows counts.buckets)
            (add_one (analysed_in row) counts.analysed (count_if analysed_in rows)))
