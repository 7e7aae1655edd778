-- ===== src/Coverage/Gaps.antt =====
-- `compute_gaps` of src/heron/core/coverage.py: the gaps are exactly the part of the request that no
-- covered range holds.
use heron_mail.Prelude.{
  ℕ, ◌≤◌, ◌<◌, ◌≡◌, refl, false, not, ◌&&◌, List, [], ◌∷◌, arith, max, min, ltb, leb, All, Pairwise,
  IsSortedBy, sort_by, sort_by-IsSortedBy, any-sort_by, Bool-cases, inl, inr,
}
use heron_mail.Timeutil.{DateRange, in_range}
use heron_mail.Coverage.{gaps_from, compute_gaps, covers}

abbrev by_start : DateRange → ℕ
by_start s = s.start

-- No range that starts later than `t` holds `t`.
covers_later :
    (n t : ℕ) (ranges : List DateRange)
    → All (λ y. n ≤ y.start) ranges
    → t < n
    → covers ranges t ≡ false
covers_later n t [] all h = refl
covers_later n t (y ∷ ys) all h = ground (arith, covers_later n t ys all.1 h)

covers-gaps_from :
    (r : DateRange) (c : ℕ) (segments : List DateRange) (t : ℕ)
    → IsSortedBy by_start segments
    → r.start ≤ c
    → covers (gaps_from r c segments) t ≡ (leb c t && (ltb t r.end && not (covers segments t)))
unfolding gaps_from
covers-gaps_from r c [] t sorted h = ground arith
covers-gaps_from r c (s ∷ rest) t sorted h =
    elim (Bool-cases (leb (min s.end r.end) (max s.start r.start))) [
      | inl outside ↦ rw (outside, covers-gaps_from r c rest t sorted.1 h) (ground arith)
      | inr inside ↦ elim (Bool-cases (leb r.end (max c (min s.end r.end)))) [
        | inl last ↦ elim (Bool-cases (ltb c (max s.start r.start))) [
          | inl gap ↦ rw (inside, last, gap) (ground (arith, covers_later s.start t rest sorted.0))
          | inr none_between ↦ rw (inside, last, none_between) (ground arith)
        ]
        | inr more ↦
            let ih = covers-gaps_from r (max c (min s.end r.end)) rest t sorted.1 (omega arith) in
            elim (Bool-cases (ltb c (max s.start r.start))) [
              | inl gap ↦
                  rw (inside, more, gap, ih) (ground (arith, covers_later s.start t rest sorted.0))
              | inr none_between ↦ rw (inside, more, none_between, ih) (ground arith)
            ]
      ]
    ]

-- An instant lies in a gap exactly if it lies in the requested range and in no covered range, in
-- whatever order the covered ranges are given and however they overlap.
pub compute_gaps-exact :
    (requested : DateRange) (covered : List DateRange) (t : ℕ)
    → covers (compute_gaps requested covered) t ≡ (in_range requested t && not (covers covered t))
unfolding compute_gaps
compute_gaps-exact requested covered t =
    rw
      (
        covers-gaps_from requested requested.start (sort_by by_start covered) t
            (sort_by-IsSortedBy by_start covered) (omega arith),
        any-sort_by by_start (λ r. in_range r t) covered,
      )
      (ground arith)

-- Not empty, and inside the request from `c` on.
abbrev IsGap : DateRange → ℕ → DateRange → Type 0
IsGap r c g = (c ≤ g.start) × (g.start < g.end) × (g.end ≤ r.end)

IsGap-later :
    (r : DateRange) (a b : ℕ) (gaps : List DateRange)
    → b ≤ a
    → All (IsGap r a) gaps
    → All (IsGap r b) gaps
IsGap-later r a b [] h all = tt
IsGap-later r a b (g ∷ gaps) h all = (omega (arith, all.0), IsGap-later r a b gaps h all.1)

gaps_from-IsGap :
    (r : DateRange) (c : ℕ) (segments : List DateRange) → All (IsGap r c) (gaps_from r c segments)
unfolding gaps_from
gaps_from-IsGap r c [] = elim (Bool-cases (ltb c r.end)) [
  | inl e ↦ rw e (ground arith)
  | inr e ↦ rw e tt
]
gaps_from-IsGap r c (s ∷ rest) = elim (Bool-cases (leb (min s.end r.end) (max s.start r.start))) [
  | inl outside ↦ rw outside (gaps_from-IsGap r c rest)
  | inr inside ↦
      let c' = max c (min s.end r.end) in
      let ih = IsGap-later r c' c _ (omega arith) (gaps_from-IsGap r c' rest) in
      elim (Bool-cases (leb r.end c')) [
        | inl last ↦ elim (Bool-cases (ltb c (max s.start r.start))) [
          | inl gap ↦ rw (inside, last, gap) (ground arith, tt)
          | inr none_between ↦ rw (inside, last, none_between) tt
        ]
        | inr more ↦ elim (Bool-cases (ltb c (max s.start r.start))) [
          | inl gap ↦ rw (inside, more, gap) (ground arith, ih)
          | inr none_between ↦ rw (inside, more, none_between) ih
        ]
      ]
]

-- One gap ends before the next begins.
abbrev IsApart : List DateRange → Type 0
IsApart = Pairwise (λ g h. g.end < h.start)

after_IsGap :
    (r : DateRange) (e a : ℕ) (gaps : List DateRange)
    → e < a
    → All (IsGap r a) gaps
    → All (λ h. e < h.start) gaps
after_IsGap r e a [] h all = tt
after_IsGap r e a (g ∷ gaps) h all = (omega (arith, all.0), after_IsGap r e a gaps h all.1)

gaps_from-IsApart :
    (r : DateRange) (c : ℕ) (segments : List DateRange) → IsApart (gaps_from r c segments)
unfolding gaps_from
gaps_from-IsApart r c [] = elim (Bool-cases (ltb c r.end)) [
  | inl e ↦ rw e (tt, tt)
  | inr e ↦ rw e tt
]
gaps_from-IsApart r c (s ∷ rest) = elim (Bool-cases (leb (min s.end r.end) (max s.start r.start))) [
  | inl outside ↦ rw outside (gaps_from-IsApart r c rest)
  | inr inside ↦
      let c' = max c (min s.end r.end) in
      elim (Bool-cases (leb r.end c')) [
        | inl last ↦ elim (Bool-cases (ltb c (max s.start r.start))) [
          | inl gap ↦ rw (inside, last, gap) (tt, tt)
          | inr none_between ↦ rw (inside, last, none_between) tt
        ]
        | inr more ↦
            let ih = gaps_from-IsApart r c' rest in
            elim (Bool-cases (ltb c (max s.start r.start))) [
              | inl gap ↦
                  rw (inside, more, gap)
                    (
                      after_IsGap r (max s.start r.start) c' _ (ground arith)
                          (gaps_from-IsGap r c' rest),
                      ih,
                    )
              | inr none_between ↦ rw (inside, more, none_between) ih
            ]
      ]
]

-- The gaps are ranges inside the request, none of them empty, in order of time, and between any two
-- of them there is covered time.
pub compute_gaps-IsTidy :
    (requested : DateRange) (covered : List DateRange)
    → All
        (λ g. (requested.start ≤ g.start) × (g.start < g.end) × (g.end ≤ requested.end))
        (compute_gaps requested covered)
      × Pairwise (λ g h. g.end < h.start) (compute_gaps requested covered)
unfolding compute_gaps
compute_gaps-IsTidy requested covered = (
  gaps_from-IsGap requested requested.start (sort_by by_start covered),
  gaps_from-IsApart requested requested.start (sort_by by_start covered),
)
