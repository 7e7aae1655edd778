-- ===== src/Coverage/Reading.antt =====
-- `get_coverage` and `get_gaps` on a tidy table, and what they say after `record_coverage`.
use heron_mail.Prelude.{
  All, All-select, All-sort_by, Bool, List, String, [], any, any-sort_by, ap, arith, false, leb,
  not, refl, select, sort_by, sym, ℕ, ◌&&◌, ◌*◌, ◌<◌, ◌||◌, ◌∙◌, ◌∷◌, ◌≡◌, ◌≤◌,
}
use heron_mail.Result.{ok, traverse}
use heron_mail.Coverage.{
  compute_gaps, covers, get_coverage, get_gaps, is_for, record_coverage, row_range,
}
use heron_mail.Coverage.Gaps.{compute_gaps-IsTidy, compute_gaps-exact}
use heron_mail.Coverage.Hull.{IsWhole, ranges}
use heron_mail.Coverage.Record.{IsTidy, covers-record_coverage, record_coverage-IsTidy}
use heron_mail.Models.{Segment}
use heron_mail.Storage.Tests.{account}
use heron_mail.Timeutil.{DateRange, aware, from_utc_storage_string, in_range, new_range, second}

abbrev IsProper : Segment → Type 0
IsProper s = s.range_start < s.range_end

traverse-row_range :
    (rows : List Segment)
    → All IsProper rows
    → traverse
        (λ (row : Segment).
          new_range
            (aware (from_utc_storage_string row.range_start))
            (aware (from_utc_storage_string row.range_end)))
        rows
      ≡ ok (ranges rows)
unfolding new_range from_utc_storage_string
traverse-row_range [] h = refl
traverse-row_range (s ∷ rows) h = rw (later s h.0, traverse-row_range rows h.1)
  where
    later : (x : Segment) → IsProper x → leb (x.range_end * second) (x.range_start * second) ≡ false
    later x p = ground arith

abbrev pub sorted_rows : List Segment → ℕ → String → List Segment
sorted_rows coverage account folder =
    sort_by (λ (row : Segment). row.range_start) (select (is_for account folder) coverage)

get_coverage-IsTidy :
    (coverage : List Segment) (account : ℕ) (folder : String)
    → IsTidy coverage
    → get_coverage coverage account folder ≡ ok (ranges (sorted_rows coverage account folder))
unfolding get_coverage
get_coverage-IsTidy coverage account folder tidy =
    traverse-row_range (sorted_rows coverage account folder) (
      All-sort_by (λ (row : Segment). row.range_start) IsProper _
        (All-select IsProper (is_for account folder) coverage tidy.ordered))

covers-ranges :
    (rows : List Segment) (t : ℕ)
    → covers (ranges rows) t ≡ any (λ (s : Segment). in_range (row_range s) t) rows
covers-ranges [] t = refl
covers-ranges (s ∷ rows) t = ap (λ b. in_range (row_range s) t || b) (covers-ranges rows t)

covers-sorted_rows :
    (coverage : List Segment) (account : ℕ) (folder : String) (t : ℕ)
    → covers (ranges (sorted_rows coverage account folder)) t
      ≡ covers (ranges (select (is_for account folder) coverage)) t
covers-sorted_rows coverage account folder t =
    covers-ranges (sorted_rows coverage account folder) t
    ∙ any-sort_by (λ (row : Segment). row.range_start) (λ (s : Segment). in_range (row_range s) t) _
    ∙ sym (covers-ranges (select (is_for account folder) coverage) t)

-- The gaps that `get_gaps` returns, on a tidy table.
abbrev pub gaps_of : List Segment → ℕ → String → DateRange → List DateRange
gaps_of coverage account folder requested =
    compute_gaps requested (ranges (sorted_rows coverage account folder))

pub get_gaps_lem :
    (coverage : List Segment) (account : ℕ) (folder : String) (requested : DateRange)
    → IsTidy coverage
    → get_gaps coverage account folder requested ≡ ok (gaps_of coverage account folder requested)
unfolding get_gaps
get_gaps_lem coverage account folder requested tidy =
    rw (get_coverage-IsTidy coverage account folder tidy)

pub gaps_of-exact :
    (coverage : List Segment) (account : ℕ) (folder : String) (requested : DateRange) (t : ℕ)
    → covers (gaps_of coverage account folder requested) t
      ≡ (in_range requested t && not (covers (ranges (select (is_for account folder) coverage)) t))
gaps_of-exact coverage account folder requested t =
    compute_gaps-exact requested (ranges (sorted_rows coverage account folder)) t
    ∙ ap (λ b. in_range requested t && not b) (covers-sorted_rows coverage account folder t)

-- On a tidy table `get_gaps` does not raise, and an instant lies in one of the gaps that it returns
-- exactly if it lies in the request and in no segment of that account and folder.
pub get_gaps-exact :
    (coverage : List Segment) (account : ℕ) (folder : String) (requested : DateRange)
    → IsTidy coverage
    → (gaps : List DateRange) × (get_gaps coverage account folder requested ≡ ok gaps)
      × ((t : ℕ)
          → covers gaps t ≡ (
              in_range requested t
              && not (covers (ranges (select (is_for account folder) coverage)) t)))
get_gaps-exact coverage account folder requested tidy = (
  gaps_of coverage account folder requested,
  get_gaps_lem coverage account folder requested tidy,
  gaps_of-exact coverage account folder requested,
)

-- Ranges that are not empty and cover nothing are none.
pub nil_of_covers :
    (requested : DateRange) (gaps : List DateRange)
    → All (λ g. (requested.start ≤ g.start) × (g.start < g.end) × (g.end ≤ requested.end)) gaps
    → ((t : ℕ) → covers gaps t ≡ false)
    → gaps ≡ []
nil_of_covers requested [] h nothing = refl
nil_of_covers requested (g ∷ gaps) h nothing = absurd (ground (arith, nothing g.start, h.0))

inside :
    (requested r : DateRange) (t : ℕ)
    → r.start ≤ requested.start
    → requested.end ≤ r.end
    → (b : Bool) → (in_range requested t && not (b || in_range r t)) ≡ false
inside requested r t lo hi b = ground arith

-- After a range of whole seconds is recorded, no part of it is a gap: a request for any range inside
-- it finds nothing to fetch.
pub get_gaps-record_coverage :
    (coverage : List Segment) (account : ℕ) (folder : String) (r : DateRange) (now : ℕ)
    (requested : DateRange)
    → IsTidy coverage
    → r.start < r.end
    → IsWhole r
    → r.start ≤ requested.start
    → requested.end ≤ r.end
    → get_gaps (record_coverage coverage account folder r now) account folder requested ≡ ok []
get_gaps-record_coverage coverage account folder r now requested tidy proper whole lo hi =
    get_gaps_lem after account folder requested
      (record_coverage-IsTidy coverage account folder r now tidy proper whole)
    ∙ ap ok (
        nil_of_covers requested (gaps_of after account folder requested)
          (compute_gaps-IsTidy requested (ranges (sorted_rows after account folder))).0 nothing)
  where
    after : List Segment
    after = record_coverage coverage account folder r now

    nothing : (t : ℕ) → covers (gaps_of after account folder requested) t ≡ false
    nothing t =
        gaps_of-exact after account folder requested t
        ∙ ap (λ b. in_range requested t && not b)
            (covers-record_coverage coverage account folder r now tidy proper whole t)
        ∙ inside requested r t lo hi (covers (ranges (select (is_for account folder) coverage)) t)
