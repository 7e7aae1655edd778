-- ===== src/Coverage.antt =====
-- src/heron/core/coverage.py over the rows of the table `coverage`.
pub mod Hull
pub mod Gaps
pub mod Record
pub mod Reading
pub mod Whole
pub mod Tests
use heron_mail.Prelude.{
  ℕ, ◌+◌, String, ◌≡◌, Bool, true, false, not, ◌&&◌, List, [], ◌∷◌, ◌++◌, map, min, max, ltb, leb,
  ◌==◌, str_eq, if◌then◌else◌, select, has, next_id, any, sort_by,
}
use heron_mail.Result.{Result, ok, err, ◌>>=◌, traverse}
use heron_mail.Timeutil.{DateRange, in_range, new_range, aware, stamp, from_utc_storage_string}
use heron_mail.Models.{Segment}

-- The rows of one account and folder.
abbrev pub is_for : ℕ → String → Segment → Bool
is_for account folder row = (row.account_id == account) && str_eq row.folder folder

-- The loop over the existing rows: the merged range, and the ids of the rows merged into it.
pub record Merge : Type 0 where
  pub range : DateRange
  pub ids : List ℕ

abbrev pub row_range : Segment → DateRange
row_range row = record {
  start = from_utc_storage_string row.range_start;
  end = from_utc_storage_string row.range_end;
}

abbrev pub touches : DateRange → DateRange → Bool
touches r row = leb row.start r.end && leb r.start row.end

abbrev pub hull : DateRange → DateRange → DateRange
hull r row = record { start = min r.start row.start; end = max r.end row.end }

unfoldable pub merge_rows : DateRange → List Segment → Merge
merge_rows r [] = record { range = r; ids = [] }
merge_rows r (row ∷ rows) =
    let grown = merge_rows (hull r (row_range row)) rows in
    let same = merge_rows r rows in
    if touches r (row_range row)
    then record { range = grown.range; ids = row.id ∷ grown.ids }
    else same

-- DELETE ... WHERE id IN (ids)
abbrev pub delete_ids : List ℕ → List Segment → List Segment
delete_ids ids = select (λ row. not (has row.id ids))

unfoldable pub record_coverage : List Segment → ℕ → String → DateRange → ℕ → List Segment
unfolding merge_rows
record_coverage coverage account folder date_range now =
    let merged = merge_rows date_range (select (is_for account folder) coverage) in
    let kept = delete_ids merged.ids coverage in
    kept
    ++ record {
      id = next_id (λ (s : Segment). s.id) kept;
      account_id = account;
      folder = folder;
      range_start = stamp merged.range.start;
      range_end = stamp merged.range.end;
      created_at = stamp now;
    }
      ∷ []

-- Oldest first; building a DateRange raises for a row whose bounds are not in order.
unfoldable pub get_coverage : List Segment → ℕ → String → Result (List DateRange)
unfolding new_range from_utc_storage_string
get_coverage coverage account folder =
    traverse
      (λ (row : Segment).
        new_range (aware (from_utc_storage_string row.range_start))
          (aware (from_utc_storage_string row.range_end)))
      (sort_by (λ (row : Segment). row.range_start) (select (is_for account folder) coverage))

-- The loop of `compute_gaps` over the sorted segments, and the gap after the last of them. The
-- ranges that it builds have their start before their end by its tests.
unfoldable pub gaps_from : DateRange → ℕ → List DateRange → List DateRange
gaps_from requested cursor [] =
    if ltb cursor requested.end then record { start = cursor; end = requested.end } ∷ [] else []
gaps_from requested cursor (segment ∷ rest) =
    let segment_start = max segment.start requested.start in
    let segment_end = min segment.end requested.end in
    let skipped = gaps_from requested cursor rest in
    let advanced = gaps_from requested (max cursor segment_end) rest in
    let after = if leb requested.end (max cursor segment_end) then [] else advanced in
    if leb segment_end segment_start
    then skipped
    else if ltb cursor segment_start
    then record { start = cursor; end = segment_start } ∷ after
    else after

unfoldable pub compute_gaps : DateRange → List DateRange → List DateRange
unfolding gaps_from
compute_gaps requested covered =
    gaps_from requested requested.start (sort_by (λ (s : DateRange). s.start) covered)

unfoldable pub get_gaps : List Segment → ℕ → String → DateRange → Result (List DateRange)
unfolding get_coverage compute_gaps
get_gaps coverage account folder requested = do
  covered ← get_coverage coverage account folder
  ok (compute_gaps requested covered)

-- The instant lies in one of the ranges.
abbrev pub covers : List DateRange → ℕ → Bool
covers ranges t = any (λ r. in_range r t) ranges
