-- ===== src/Coverage/Tests.antt =====
-- The coverage functions on concrete days, and the theorems at concrete inputs.
use heron_mail.Prelude.{ℕ, ◌*◌, ◌≡◌, refl, not, ◌&&◌, ◌||◌, List, [], ◌∷◌, arith, select}
use heron_mail.Result.{ok}
use heron_mail.Timeutil.{DateRange, in_range, day_length}
use heron_mail.Models.{Segment}
use heron_mail.Coverage.{
  is_for, record_coverage, get_coverage, compute_gaps, get_gaps, covers, merge_rows,
}
use heron_mail.Coverage.Hull.{ranges}
use heron_mail.Coverage.Gaps.{compute_gaps-exact}
use heron_mail.Coverage.Record.{IsTidy, covers-record_coverage, record_coverage-IsTidy}
use heron_mail.Coverage.Reading.{get_gaps-record_coverage}

-- From the start of one day to the start of another.
abbrev days : ℕ → ℕ → DateRange
days a b = record { start = a * day_length; end = b * day_length }

abbrev covered_days : List DateRange
covered_days = days 5 6 ∷ days 1 3 ∷ days 2 4 ∷ []

compute_gaps-days : compute_gaps (days 0 8) covered_days ≡ days 0 1 ∷ days 4 5 ∷ days 6 8 ∷ []
unfolding compute_gaps
compute_gaps-days = refl

abbrev one_segment : List Segment
one_segment = record_coverage [] 1 "INBOX" (days 1 2) 0

one_segment-IsTidy : IsTidy one_segment
one_segment-IsTidy =
    record_coverage-IsTidy [] 1 "INBOX" (days 1 2) 0
      (record { distinct = tt; ordered = tt; apart = λ a f. tt }) (omega arith) (omega arith)

-- Two days that touch become one segment.
merged_days :
    get_coverage (record_coverage one_segment 1 "INBOX" (days 2 3) 0) 1 "INBOX" ≡ ok (days 1 3 ∷ [])
unfolding record_coverage get_coverage merge_rows
merged_days = refl

compute_gaps-exact_example :
    covers (compute_gaps (days 0 8) covered_days) 7
    ≡ (in_range (days 0 8) 7 && not (covers covered_days 7))
compute_gaps-exact_example = compute_gaps-exact (days 0 8) covered_days 7

covers-record_coverage_example :
    covers
      (ranges (select (is_for 1 "INBOX") (record_coverage one_segment 1 "INBOX" (days 2 3) 0)))
      9
    ≡ (covers (ranges (select (is_for 1 "INBOX") one_segment)) 9 || in_range (days 2 3) 9)
covers-record_coverage_example =
    covers-record_coverage one_segment 1 "INBOX" (days 2 3) 0 one_segment-IsTidy (omega arith)
      (omega arith) 9

record_coverage-IsTidy_example : IsTidy (record_coverage one_segment 1 "INBOX" (days 2 3) 0)
record_coverage-IsTidy_example =
    record_coverage-IsTidy one_segment 1 "INBOX" (days 2 3) 0 one_segment-IsTidy (omega arith)
      (omega arith)

get_gaps-record_coverage_example :
    get_gaps (record_coverage one_segment 1 "INBOX" (days 2 5) 0) 1 "INBOX" (days 3 4) ≡ ok []
get_gaps-record_coverage_example =
    get_gaps-record_coverage one_segment 1 "INBOX" (days 2 5) 0 (days 3 4) one_segment-IsTidy
      (omega arith) (omega arith) (omega arith) (omega arith)
