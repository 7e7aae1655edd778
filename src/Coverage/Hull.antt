-- ===== src/Coverage/Hull.antt =====
-- The merging loop of `record_coverage`: the merged range together with the rows that it leaves
-- covers what the range and all of the rows covered, and touches none of the rows that it leaves.
use heron_mail.Prelude.{
  All, Bool, Bool-cases, Distinct, List, Pairwise, [], ap, ap₂, arith, false, has, inl, inr, map,
  or_assoc, refl, subst₂, sym, true, ℕ, ◌%◌, ◌||◌, ◌∙◌, ◌∷◌, ◌≡◌, ◌≤◌,
}
use heron_mail.Coverage.{Merge, covers, delete_ids, hull, merge_rows, row_range, touches}
use heron_mail.Models.{Segment}
use heron_mail.Timeutil.{DateRange, from_utc_storage_string, in_range, second}

abbrev pub ids : List Segment → List ℕ
ids rows = map (λ (s : Segment). s.id) rows

abbrev pub ranges : List Segment → List DateRange
ranges rows = map row_range rows

-- The start is not after the end.
abbrev pub IsOrdered : DateRange → Type 0
IsOrdered r = r.start ≤ r.end

abbrev pub IsOrderedRow : Segment → Type 0
IsOrderedRow s = IsOrdered (row_range s)

hull_lem :
    (r s : DateRange) (t : ℕ)
    → IsOrdered r
    → IsOrdered s
    → touches r s ≡ true
    → in_range (hull r s) t ≡ (in_range r t || in_range s t)
hull_lem r s t hr hs touching = ground arith

or_swap : (a b c : Bool) → (a || (b || c)) ≡ ((c || a) || b)
or_swap a b c = ground arith

-- One round of the loop.
merge_rows_touching :
    (r : DateRange) (s : Segment) (rows : List Segment)
    → touches r (row_range s) ≡ true
    → merge_rows r (s ∷ rows) ≡ record {
      range = (merge_rows (hull r (row_range s)) rows).range;
      ids = s.id ∷ (merge_rows (hull r (row_range s)) rows).ids;
    }
unfolding merge_rows
merge_rows_touching r s rows e = rw e

merge_rows_apart :
    (r : DateRange) (s : Segment) (rows : List Segment)
    → touches r (row_range s) ≡ false
    → merge_rows r (s ∷ rows) ≡ merge_rows r rows
unfolding merge_rows
merge_rows_apart r s rows e = rw e

-- Only ids of rows are merged.
pub has-merge_rows :
    (i : ℕ) (r : DateRange) (rows : List Segment)
    → has i (ids rows) ≡ false
    → has i (merge_rows r rows).ids ≡ false
unfolding merge_rows
has-merge_rows i r [] h = refl
has-merge_rows i r (s ∷ rows) h =
    ground (arith, has-merge_rows i r rows, has-merge_rows i (hull r (row_range s)) rows)

delete_ids_absent :
    (i : ℕ) (gone : List ℕ) (rows : List Segment)
    → has i (ids rows) ≡ false
    → delete_ids (i ∷ gone) rows ≡ delete_ids gone rows
delete_ids_absent i gone [] h = refl
delete_ids_absent i gone (s ∷ rows) h = ground (arith, delete_ids_absent i gone rows)

-- The first row, deleted and kept.
delete_ids_head :
    (s : Segment) (gone : List ℕ) (rows : List Segment)
    → has s.id (ids rows) ≡ false
    → delete_ids (s.id ∷ gone) (s ∷ rows) ≡ delete_ids gone rows
delete_ids_head s gone rows h = ground (arith, delete_ids_absent s.id gone rows)

delete_ids_keep :
    (s : Segment) (gone : List ℕ) (rows : List Segment)
    → has s.id gone ≡ false
    → delete_ids gone (s ∷ rows) ≡ s ∷ delete_ids gone rows
delete_ids_keep s gone rows h = rw h

pub merge_rows-IsOrdered :
    (r : DateRange) (rows : List Segment)
    → IsOrdered r
    → All IsOrderedRow rows
    → IsOrdered (merge_rows r rows).range
unfolding merge_rows
merge_rows-IsOrdered r [] h all = h
merge_rows-IsOrdered r (s ∷ rows) h all = elim (Bool-cases (touches r (row_range s))) [
  | inl e ↦ rw e (merge_rows-IsOrdered (hull r (row_range s)) rows (ground arith) all.1)
  | inr e ↦ rw e (merge_rows-IsOrdered r rows h all.1)
]

-- What the loop leaves and the merged range, as ranges.
abbrev pub left_over : DateRange → List Segment → List Segment
left_over r rows = delete_ids (merge_rows r rows).ids rows

pub left_over_touching :
    (r : DateRange) (s : Segment) (rows : List Segment)
    → has s.id (ids rows) ≡ false
    → touches r (row_range s) ≡ true
    → left_over r (s ∷ rows) ≡ left_over (hull r (row_range s)) rows
left_over_touching r s rows d e =
    ap (λ (m : Merge). delete_ids m.ids (s ∷ rows)) (merge_rows_touching r s rows e)
    ∙ delete_ids_head s _ rows d

pub left_over_apart :
    (r : DateRange) (s : Segment) (rows : List Segment)
    → has s.id (ids rows) ≡ false
    → touches r (row_range s) ≡ false
    → left_over r (s ∷ rows) ≡ s ∷ left_over r rows
left_over_apart r s rows d e =
    ap (λ (m : Merge). delete_ids m.ids (s ∷ rows)) (merge_rows_apart r s rows e)
    ∙ delete_ids_keep s _ rows (has-merge_rows s.id r rows d)

pub covers-merge_rows :
    (r : DateRange) (rows : List Segment) (t : ℕ)
    → IsOrdered r
    → All IsOrderedRow rows
    → Distinct (ids rows)
    → (covers (ranges (left_over r rows)) t || in_range (merge_rows r rows).range t)
      ≡ (covers (ranges rows) t || in_range r t)
covers-merge_rows r [] t h all d = unfold merge_rows in refl
covers-merge_rows r (s ∷ rows) t h all d = elim (Bool-cases (touches r (row_range s))) [
  | inl e ↦
      ap₂ (λ (l : List Segment) (m : Merge). covers (ranges l) t || in_range m.range t)
        (left_over_touching r s rows d.0 e) (merge_rows_touching r s rows e)
      ∙ covers-merge_rows (hull r (row_range s)) rows t (ground arith) all.1 d.1
      ∙ ap (λ b. covers (ranges rows) t || b) (hull_lem r (row_range s) t h all.0 e)
      ∙ or_swap (covers (ranges rows) t) (in_range r t) (in_range (row_range s) t)
  | inr e ↦
      ap₂ (λ (l : List Segment) (m : Merge). covers (ranges l) t || in_range m.range t)
        (left_over_apart r s rows d.0 e) (merge_rows_apart r s rows e)
      ∙ or_assoc (in_range (row_range s) t) (covers (ranges (left_over r rows)) t)
          (in_range (merge_rows r rows).range t)
      ∙ ap (λ b. in_range (row_range s) t || b) (covers-merge_rows r rows t h all.1 d.1)
      ∙ sym (or_assoc (in_range (row_range s) t) (covers (ranges rows) t) (in_range r t))
]

-- Two ranges with time between them.
abbrev pub Apart : DateRange → DateRange → Type 0
Apart r s = touches r s ≡ false

abbrev pub ApartRows : List Segment → Type 0
ApartRows rows = Pairwise (λ x y. Apart (row_range x) (row_range y)) rows

Apart-hull :
    (r s x : DateRange)
    → IsOrdered r
    → IsOrdered s
    → IsOrdered x
    → touches r s ≡ true
    → Apart r x
    → Apart x s
    → Apart (hull r s) x
Apart-hull r s x hr hs hx e p q = ground arith

-- What is apart from the range and from the rows is apart from the merged range.
Apart-merge_rows :
    (r : DateRange) (rows : List Segment) (x : DateRange)
    → IsOrdered r
    → All IsOrderedRow rows
    → IsOrdered x
    → Apart r x
    → All (λ y. Apart x (row_range y)) rows
    → Apart (merge_rows r rows).range x
Apart-merge_rows r [] x h all hx p q = unfold merge_rows in p
Apart-merge_rows r (s ∷ rows) x h all hx p q = elim (Bool-cases (touches r (row_range s))) [
  | inl e ↦ rw (merge_rows_touching r s rows e) (
      Apart-merge_rows (hull r (row_range s)) rows x (ground arith) all.1 hx
        (Apart-hull r (row_range s) x h all.0 hx e p q.0) q.1)
  | inr e ↦ rw (merge_rows_apart r s rows e) (Apart-merge_rows r rows x h all.1 hx p q.1)
]

pub Apart-left_over :
    (r : DateRange) (rows : List Segment)
    → IsOrdered r
    → All IsOrderedRow rows
    → Distinct (ids rows)
    → ApartRows rows
    → All (λ y. Apart (merge_rows r rows).range (row_range y)) (left_over r rows)
Apart-left_over r [] h all d p = tt
Apart-left_over r (s ∷ rows) h all d p = elim (Bool-cases (touches r (row_range s))) [
  | inl e ↦
      subst₂ (λ (m : Merge) (l : List Segment). All (λ y. Apart m.range (row_range y)) l)
        (sym (merge_rows_touching r s rows e)) (sym (left_over_touching r s rows d.0 e))
        (Apart-left_over (hull r (row_range s)) rows (ground arith) all.1 d.1 p.1)
  | inr e ↦
      subst₂ (λ (m : Merge) (l : List Segment). All (λ y. Apart m.range (row_range y)) l)
        (sym (merge_rows_apart r s rows e)) (sym (left_over_apart r s rows d.0 e))
        (
          Apart-merge_rows r rows (row_range s) h all.1 all.0 e p.0,
          Apart-left_over r rows h all.1 d.1 p.1,
        )
]

-- A multiple of a second is stored exactly.
abbrev pub IsWhole : DateRange → Type 0
IsWhole r = (r.start % second ≡ 0) × (r.end % second ≡ 0)

pub merge_rows-IsWhole :
    (r : DateRange) (rows : List Segment) → IsWhole r → IsWhole (merge_rows r rows).range
unfolding merge_rows from_utc_storage_string
merge_rows-IsWhole r [] h = h
merge_rows-IsWhole r (s ∷ rows) h = elim (Bool-cases (touches r (row_range s))) [
  | inl e ↦ rw e (merge_rows-IsWhole (hull r (row_range s)) rows (omega arith))
  | inr e ↦ rw e (merge_rows-IsWhole r rows h)
]

-- The merged range starts no later and ends no earlier.
pub merge_rows_grows :
    (r : DateRange) (rows : List Segment)
    → ((merge_rows r rows).range.start ≤ r.start) × (r.end ≤ (merge_rows r rows).range.end)
unfolding merge_rows
merge_rows_grows r [] = omega arith
merge_rows_grows r (s ∷ rows) = elim (Bool-cases (touches r (row_range s))) [
  | inl e ↦ rw e (omega (arith, merge_rows_grows (hull r (row_range s)) rows))
  | inr e ↦ rw e (merge_rows_grows r rows)
]
