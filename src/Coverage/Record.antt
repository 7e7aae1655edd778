-- ===== src/Coverage/Record.antt =====
-- `record_coverage` on the whole table `coverage`.
use mathlib.Core.List.{append-nil, map-append}
use heron_mail.Prelude.{
  ==_refl, All, All-append, All-mono, All-select, Bool, Bool-cases, Distinct, Distinct-select,
  Distinct-snoc, List, Pairwise-select, Pairwise-snoc, String, [], any-append, ap, ap₂, arith,
  eq_iff, eq_refl, false, has, has-beyond, has_selected, if◌then◌else◌, inl, inr, next_id, refl,
  select, select-append, select-select_comm, str_eq, subst, subst₂, sym, true, ℕ, ◌%◌, ◌&&◌, ◌*◌,
  ◌++◌, ◌/◌, ◌<◌, ◌==◌, ◌||◌, ◌∙◌, ◌∷◌, ◌≡◌,
}
use heron_mail.Coverage.{
  covers, delete_ids, is_for, merge_rows, record_coverage, row_range, touches,
}
use heron_mail.Coverage.Hull.{
  Apart, Apart-left_over, ApartRows, IsOrderedRow, IsWhole, covers-merge_rows, has-merge_rows, ids,
  left_over, merge_rows-IsWhole, merge_rows_grows, ranges,
}
use heron_mail.Models.{Segment}
use heron_mail.Storage.Tests.{account}
use heron_mail.Timeutil.{DateRange, from_utc_storage_string, in_range, second, stamp}

-- What `record_coverage` keeps true of the table: no id twice, every segment has its start before its
-- end, and two segments of one account and folder have time between them.
pub record IsTidy (coverage : List Segment) : Type 0 where
  pub distinct : Distinct (ids coverage)
  pub ordered : All (λ (s : Segment). s.range_start < s.range_end) coverage
  pub apart : (account : ℕ) (folder : String) → ApartRows (select (is_for account folder) coverage)

IsOrderedRow-of_lt :
    (rows : List Segment)
    → All (λ (s : Segment). s.range_start < s.range_end) rows
    → All IsOrderedRow rows
unfolding from_utc_storage_string
IsOrderedRow-of_lt [] h = tt
IsOrderedRow-of_lt (s ∷ rows) h = (omega (arith, h.0), IsOrderedRow-of_lt rows h.1)

-- The row that is added, and the rows that stay.
abbrev added : List Segment → ℕ → String → DateRange → ℕ → Segment
added coverage account folder r now =
    let merged = merge_rows r (select (is_for account folder) coverage) in
    record {
      id = next_id (λ (s : Segment). s.id) (delete_ids merged.ids coverage);
      account_id = account;
      folder = folder;
      range_start = stamp merged.range.start;
      range_end = stamp merged.range.end;
      created_at = stamp now;
    }

abbrev kept : List Segment → ℕ → String → DateRange → List Segment
kept coverage account folder r =
    delete_ids (merge_rows r (select (is_for account folder) coverage)).ids coverage

record_coverage_parts :
    (coverage : List Segment) (account : ℕ) (folder : String) (r : DateRange) (now : ℕ)
    → record_coverage coverage account folder r now
      ≡ kept coverage account folder r ++ added coverage account folder r now ∷ []
unfolding record_coverage
record_coverage_parts coverage account folder r now = refl

is_for_self :
    (account : ℕ) (folder : String) (s : Segment)
    → s.account_id ≡ account
    → s.folder ≡ folder
    → is_for account folder s ≡ true
is_for_self account folder s p q = rw (p, q, ==_refl account, eq_refl folder)

pub div_second : (n : ℕ) → n % second ≡ 0 → n / second * second ≡ n
div_second n h = omega arith

touches_comm : (r s : DateRange) → touches r s ≡ false → touches s r ≡ false
touches_comm r s h = ground arith

lt-div_second : (a b : ℕ) → a % second ≡ 0 → b % second ≡ 0 → a < b → a / second < b / second
lt-div_second a b p q h = omega arith

-- Deleting ids that no selected row has leaves the selected rows.
select-delete_ids :
    (q : Segment → Bool) (gone : List ℕ) (xs : List Segment)
    → All (λ (x : Segment). q x ≡ true → has x.id gone ≡ false) xs
    → select q (delete_ids gone xs) ≡ select q xs
select-delete_ids q gone [] h = refl
select-delete_ids q gone (x ∷ xs) h = elim (Bool-cases (q x)) [
  | inl e ↦ rw (h.0 e, e, select-delete_ids q gone xs h.1)
  | inr e ↦ ground (arith, select-delete_ids q gone xs h.1)
]

is_for_other :
    (account a : ℕ) (folder f : String) (x : Segment)
    → ((account == a) && str_eq folder f) ≡ false
    → is_for a f x ≡ true
    → is_for account folder x ≡ false
is_for_other account a folder f x other h =
    ground (arith, eq_iff x.folder f, eq_iff x.folder folder, eq_iff folder f)

or_false : (a b : Bool) → (a || (b || false)) ≡ (a || b)
or_false a b = ground arith

module _ (coverage : List Segment) (account : ℕ) (folder : String) (r : DateRange) (now : ℕ) where
  abbrev rows : List Segment
  rows = select (is_for account folder) coverage

  -- The rows of the account and folder afterwards.
  select-record_coverage :
      select (is_for account folder) (record_coverage coverage account folder r now)
      ≡ left_over r rows ++ added coverage account folder r now ∷ []
  select-record_coverage =
      ap (select (is_for account folder)) (record_coverage_parts coverage account folder r now)
      ∙ select-append (is_for account folder) (kept coverage account folder r)
          (added coverage account folder r now ∷ [])
      ∙ ap₂ (λ (a b : List Segment). a ++ b) (select-select_comm (is_for account folder) _ coverage)
          (ap (λ b. if b then added coverage account folder r now ∷ [] else [])
            (is_for_self account folder (added coverage account folder r now) refl refl))

  row_range-added :
      IsWhole r → row_range (added coverage account folder r now) ≡ (merge_rows r rows).range
  unfolding from_utc_storage_string
  row_range-added h =
      let (hs, he) = merge_rows-IsWhole r rows h in
      λ i. record {
        start = div_second (merge_rows r rows).range.start hs i;
        end = div_second (merge_rows r rows).range.end he i;
      }

  rows-IsOrderedRow : IsTidy coverage → All IsOrderedRow rows
  rows-IsOrderedRow tidy =
      All-select IsOrderedRow (is_for account folder) coverage
        (IsOrderedRow-of_lt coverage tidy.ordered)

  rows-Distinct : IsTidy coverage → Distinct (ids rows)
  rows-Distinct tidy =
      Distinct-select (λ (s : Segment). s.id) (is_for account folder) coverage tidy.distinct

  -- After a range of whole seconds is recorded, an instant is covered for that account and folder
  -- exactly if it was covered before or lies in the range.
  pub covers-record_coverage :
      IsTidy coverage
      → r.start < r.end
      → IsWhole r
      → (t : ℕ)
      → covers
          (ranges (select (is_for account folder) (record_coverage coverage account folder r now)))
          t
        ≡ (covers (ranges (select (is_for account folder) coverage)) t || in_range r t)
  covers-record_coverage tidy proper whole t =
      ap (λ l. covers (ranges l) t) select-record_coverage
      ∙ ap (λ l. covers l t) (map-append row_range (left_over r rows) _)
      ∙ any-append (λ (d : DateRange). in_range d t) (ranges (left_over r rows)) _
      ∙ ap (λ (d : DateRange). covers (ranges (left_over r rows)) t || (in_range d t || false))
          (row_range-added whole)
      ∙ or_false (covers (ranges (left_over r rows)) t) (in_range (merge_rows r rows).range t)
      ∙ covers-merge_rows r rows t (omega arith) (rows-IsOrderedRow tidy) (rows-Distinct tidy)

  -- The rows of any other account or folder stay as they are.
  pub record_coverage_other :
      IsTidy coverage
      → (other_account : ℕ) (other_folder : String)
      → ((account == other_account) && str_eq folder other_folder) ≡ false
      → select (is_for other_account other_folder) (record_coverage coverage account folder r now)
        ≡ select (is_for other_account other_folder) coverage
  record_coverage_other tidy a f other =
      ap (select (is_for a f)) (record_coverage_parts coverage account folder r now)
      ∙ select-append (is_for a f) (kept coverage account folder r)
          (added coverage account folder r now ∷ [])
      ∙ ap₂
          (λ (l : List Segment) (b : Bool).
            l ++ (if b then added coverage account folder r now ∷ [] else []))
          (select-delete_ids (is_for a f) _ coverage (
            All-mono _
              (λ (x : Segment). is_for a f x ≡ true → has x.id (merge_rows r rows).ids ≡ false)
              coverage
              (λ x h e. has-merge_rows x.id r rows (h (is_for_other account a folder f x other e)))
              (has_selected (λ (s : Segment). s.id) (is_for account folder) coverage
                tidy.distinct)))
          other
      ∙ append-nil (select (is_for a f) coverage)

  apart_same :
      IsTidy coverage
      → r.start < r.end
      → IsWhole r
      → ApartRows (select (is_for account folder) (record_coverage coverage account folder r now))
  apart_same tidy proper whole = subst ApartRows (sym select-record_coverage) (
      Pairwise-snoc (λ x y. Apart (row_range x) (row_range y)) (left_over r rows) _
        (All-mono _ (λ x. Apart (row_range x) (row_range (added coverage account folder r now)))
          (left_over r rows)
          (λ x h.
            subst (Apart (row_range x)) (sym (row_range-added whole))
              (touches_comm (merge_rows r rows).range (row_range x) h))
          (Apart-left_over r rows (omega arith) (rows-IsOrderedRow tidy) (rows-Distinct tidy)
            (tidy.apart account folder)))
        (Pairwise-select (λ x y. Apart (row_range x) (row_range y)) _ rows
          (tidy.apart account folder)))

  -- Recording a range of whole seconds leaves the table tidy: ids are distinct, every segment has its
  -- start before its end, and no two segments of one account and folder overlap or touch.
  pub record_coverage-IsTidy :
      IsTidy coverage
      → r.start < r.end
      → IsWhole r
      → IsTidy (record_coverage coverage account folder r now)
  record_coverage-IsTidy tidy proper whole = record {
    distinct = rw record_coverage_parts (
        Distinct-snoc (λ (s : Segment). s.id) (kept coverage account folder r) _
          (has-beyond (λ (s : Segment). s.id) (kept coverage account folder r) _ (omega arith))
          (Distinct-select (λ (s : Segment). s.id) _ coverage tidy.distinct));
    ordered = rw record_coverage_parts (
        All-append (λ (s : Segment). s.range_start < s.range_end) (kept coverage account folder r) _
          (All-select (λ (s : Segment). s.range_start < s.range_end) _ coverage tidy.ordered)
          (
            let (hs, he) = merge_rows-IsWhole r rows whole in
                lt-div_second _ _ hs he (omega (arith, merge_rows_grows r rows)),
            tt,
          ));
    apart = λ a f. elim (Bool-cases ((account == a) && str_eq folder f)) [
      | inl e ↦
          subst₂
            (λ a' f'.
              ApartRows (select (is_for a' f') (record_coverage coverage account folder r now)))
            (ground arith) (ground (arith, eq_iff folder f)) (apart_same tidy proper whole)
      | inr e ↦ subst ApartRows (sym (record_coverage_other tidy a f e)) (tidy.apart a f)
    ];
  }
