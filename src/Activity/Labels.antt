-- ===== src/Activity/Labels.antt =====
-- The labels of the timeline, `_all_labels` of src/heron/analysis/activity.py.
use heron_mail.Prelude.{
  ==_refl, List, [], any, ap, arith, count_if, if◌then◌else◌, leb, ltb, map, refl, suc, true, zero,
  ℕ, ◌&&◌, ◌+◌, ◌==◌, ◌||◌, ◌∙◌, ◌∷◌, ◌≡◌,
}
use heron_mail.Activity.{Label, day_label, hour_label, numbers_from, one_if, same_label}

any-numbers_from :
    (d first n : ℕ) → any (λ k. d == k) (numbers_from first n) ≡ (leb first d && ltb d (first + n))
any-numbers_from d first zero = ground arith
any-numbers_from d first (suc n) = ground (arith, any-numbers_from d (suc first) n)

count_if-numbers_from :
    (d first n : ℕ)
    → count_if (λ k. d == k) (numbers_from first n) ≡ one_if (leb first d && ltb d (first + n))
count_if-numbers_from d first zero = ground arith
count_if-numbers_from d first (suc n) = ground (arith, count_if-numbers_from d (suc first) n)

-- A label stands once in the list of labels.
abbrev pub HasOnce : Label → List Label → Type 0
HasOnce l labels = (any (same_label l) labels ≡ true) × (count_if (same_label l) labels ≡ 1)

pub days_once :
    (d first n : ℕ)
    → (leb first d && ltb d (first + n)) ≡ true
    → HasOnce (day_label d) (map day_label (numbers_from first n))
days_once d first n h = (
  any_map d (numbers_from first n) ∙ any-numbers_from d first n ∙ h,
  count_map d (numbers_from first n) ∙ count_if-numbers_from d first n ∙ ap one_if h,
)
  where
    any_map :
        (d : ℕ) (ks : List ℕ)
        → any (same_label (day_label d)) (map day_label ks) ≡ any (λ k. d == k) ks
    any_map d [] = refl
    any_map d (k ∷ ks) = ap (λ b. (d == k) || b) (any_map d ks)

    count_map :
        (d : ℕ) (ks : List ℕ)
        → count_if (same_label (day_label d)) (map day_label ks) ≡ count_if (λ k. d == k) ks
    count_map d [] = refl
    count_map d (k ∷ ks) = ap (λ n. if d == k then suc n else n) (count_map d ks)

pub hours_once :
    (d h n : ℕ) → ltb h n ≡ true → HasOnce (hour_label d h) (map (hour_label d) (numbers_from 0 n))
hours_once d h n e =
    let inside : (leb 0 h && ltb h (0 + n)) ≡ true = ground arith in
    (
      any_map h (numbers_from 0 n) ∙ any-numbers_from h 0 n ∙ inside,
      count_map h (numbers_from 0 n) ∙ count_if-numbers_from h 0 n ∙ ap one_if inside,
    )
  where
    self : (d == d) ≡ true
    self = ==_refl d

    any_map :
        (h : ℕ) (ks : List ℕ)
        → any (same_label (hour_label d h)) (map (hour_label d) ks) ≡ any (λ k. h == k) ks
    any_map h [] = refl
    any_map h (k ∷ ks) = rw (self, any_map h ks)

    count_map :
        (h : ℕ) (ks : List ℕ)
        → count_if (same_label (hour_label d h)) (map (hour_label d) ks) ≡ count_if (λ k. h == k) ks
    count_map h [] = refl
    count_map h (k ∷ ks) = rw (self, count_map h ks)
