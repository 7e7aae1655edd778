-- ===== src/Coverage/Whole.antt =====
-- Gaps are ranges of whole seconds, since the requested range and the stored segments are.
use heron_mail.Prelude.{
  All, All-if, All-sort_by, List, String, [], arith, leb, ltb, max, min, ℕ, ◌%◌, ◌∷◌, ◌≡◌,
}
use heron_mail.Coverage.{compute_gaps, gaps_from}
use heron_mail.Coverage.Hull.{IsWhole, ranges}
use heron_mail.Coverage.Reading.{gaps_of, sorted_rows}
use heron_mail.Models.{Segment}
use heron_mail.Timeutil.{DateRange, from_utc_storage_string, second}

abbrev IsWholeTime : ℕ → Type 0
IsWholeTime t = t % second ≡ 0

gap-IsWhole :
    (start end : ℕ)
    → IsWholeTime start
    → IsWholeTime end
    → IsWhole (record { start = start; end = end })
gap-IsWhole start end h k = (h, k)

gaps_from-IsWhole :
    (r : DateRange) (cursor : ℕ) (segments : List DateRange)
    → IsWhole r
    → IsWholeTime cursor
    → All IsWhole segments
    → All IsWhole (gaps_from r cursor segments)
unfolding gaps_from
gaps_from-IsWhole r cursor [] h c all =
    All-if IsWhole (ltb cursor r.end) (record { start = cursor; end = r.end } ∷ []) []
      ((c, h.1), tt) tt
gaps_from-IsWhole r cursor (s ∷ rest) h c all =
    let low : IsWholeTime (max s.start r.start) = omega (arith, all.0.0, h.0) in
    let high : IsWholeTime (max cursor (min s.end r.end)) = omega (arith, all.0.1, h.1, c) in
    let after =
      All-if IsWhole (leb r.end (max cursor (min s.end r.end))) []
        (gaps_from r (max cursor (min s.end r.end)) rest) tt
        (gaps_from-IsWhole r (max cursor (min s.end r.end)) rest h high all.1) in
    All-if IsWhole (leb (min s.end r.end) (max s.start r.start)) _ _
      (gaps_from-IsWhole r cursor rest h c all.1)
      (All-if IsWhole (ltb cursor (max s.start r.start))
        (record { start = cursor; end = max s.start r.start } ∷ _) _ ((c, low), after) after)

ranges-IsWhole : (rows : List Segment) → All IsWhole (ranges rows)
unfolding from_utc_storage_string
ranges-IsWhole [] = tt
ranges-IsWhole (s ∷ rows) = (omega arith, ranges-IsWhole rows)

-- The gaps of a request for whole seconds start and end at whole seconds.
pub gaps_of-IsWhole :
    (coverage : List Segment) (account : ℕ) (folder : String) (r : DateRange)
    → IsWhole r
    → All IsWhole (gaps_of coverage account folder r)
unfolding compute_gaps
gaps_of-IsWhole coverage account folder r h =
    let rows = sorted_rows coverage account folder in
    gaps_from-IsWhole r r.start _ h h.0
      (All-sort_by (λ (s : DateRange). s.start) IsWhole (ranges rows) (ranges-IsWhole rows))
