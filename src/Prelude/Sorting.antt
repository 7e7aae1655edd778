-- ===== src/Prelude/Sorting.antt =====
-- Python's `sorted` with a key, and SQL's ORDER BY: a stable sort, as insertion from the right.
use Prim.Native.Nat.{ℕ, suc, ◌≤◌}
use mathlib.Core.Path.{◌≡◌, refl}
use mathlib.Core.Logic.{inl, inr}
use mathlib.Core.Bool.{Bool, true, false, ◌||◌}
use mathlib.Core.List.{List, [], ◌∷◌, Perm}
use mathlib.Core.List.Perm
use native.Mathlib.Omega.{arith}
use heron_mail.Prelude.Tests.{if◌then◌else◌, leb, leb→le, Bool-cases}
use heron_mail.Prelude.Lists.{length, All, All-mono, Pairwise, any}

module _ {ℓ} {A : Type ℓ} (before : A → A → Bool) where
  -- Before the first element that it may precede, so that equals keep their order.
  abbrev pub insert_with : A → List A → List A
  insert_with x [] = x ∷ []
  insert_with x (y ∷ ys) = if before x y then x ∷ y ∷ ys else y ∷ insert_with x ys

  abbrev pub sort_with : List A → List A
  sort_with [] = []
  sort_with (x ∷ xs) = insert_with x (sort_with xs)

module _ {ℓ} {A : Type ℓ} (key : A → ℕ) where
  abbrev pub ascending : A → A → Bool
  ascending x y = leb (key x) (key y)

  abbrev pub descending : A → A → Bool
  descending x y = leb (key y) (key x)

  abbrev pub sort_by : List A → List A
  sort_by = sort_with ascending

  -- `key=lambda x: -key(x)`
  abbrev pub sort_desc_by : List A → List A
  sort_desc_by = sort_with descending

  abbrev pub IsSortedBy : List A → Type 0
  IsSortedBy = Pairwise (λ x y. key x ≤ key y)

  abbrev pub IsSortedDescBy : List A → Type 0
  IsSortedDescBy = Pairwise (λ x y. key y ≤ key x)

module _ {ℓ} {A : Type ℓ} (before : A → A → Bool) where
  pub All-insert_with {κ} :
      (P : A → Type κ) (x : A) (ys : List A) → P x → All P ys → All P (insert_with before x ys)
  All-insert_with P x [] h all = (h, tt)
  All-insert_with P x (y ∷ ys) h all = elim (Bool-cases (before x y)) [
    | inl e ↦ rw e (h, all)
    | inr e ↦ rw e (all.0, All-insert_with P x ys h all.1)
  ]

  pub All-sort_with {κ} : (P : A → Type κ) (xs : List A) → All P xs → All P (sort_with before xs)
  All-sort_with P [] h = tt
  All-sort_with P (x ∷ xs) h =
      All-insert_with P x (sort_with before xs) h.0 (All-sort_with P xs h.1)

  All-uninsert {κ} :
      (P : A → Type κ) (x : A) (ys : List A) → All P (insert_with before x ys) → P x × All P ys
  All-uninsert P x [] h = h
  All-uninsert P x (y ∷ ys) h = elim (Bool-cases (before x y)) [
    | inl e ↦ rw e at h
    | inr e ↦ let h' = rw e at h in let (hx, hys) = All-uninsert P x ys h'.1 in (hx, (h'.0, hys))
  ]

  pub All-unsort_with {κ} : (P : A → Type κ) (xs : List A) → All P (sort_with before xs) → All P xs
  All-unsort_with P [] h = tt
  All-unsort_with P (x ∷ xs) h =
      let (hx, hxs) = All-uninsert P x (sort_with before xs) h in (hx, All-unsort_with P xs hxs)

  -- A relation that is transitive and that the test decides one way or the other.
  module _ {κ} (R : A → A → Type κ) (first : (x y : A) → before x y ≡ true → R x y)
      (second : (x y : A) → before x y ≡ false → R y x)
      (trans : (x y z : A) → R x y → R y z → R x z) where
    Pairwise-insert_with :
        (x : A) (ys : List A) → Pairwise R ys → Pairwise R (insert_with before x ys)
    Pairwise-insert_with x [] h = (tt, tt)
    Pairwise-insert_with x (y ∷ ys) h = elim (Bool-cases (before x y)) [
      | inl e ↦
          rw e ((first x y e, All-mono (R y) (R x) ys (λ z r. trans x y z (first x y e) r) h.0), h)
      | inr e ↦ rw e (All-insert_with (R y) x ys (second x y e) h.0, Pairwise-insert_with x ys h.1)
    ]

    pub Pairwise-sort_with : (xs : List A) → Pairwise R (sort_with before xs)
    Pairwise-sort_with [] = tt
    Pairwise-sort_with (x ∷ xs) =
        Pairwise-insert_with x (sort_with before xs) (Pairwise-sort_with xs)

  insert_with-perm : (x : A) (ys : List A) → Perm (insert_with before x ys) (x ∷ ys)
  insert_with-perm x [] = Perm.refl _
  insert_with-perm x (y ∷ ys) = elim (Bool-cases (before x y)) [
    | inl e ↦ rw e (Perm.refl _)
    | inr e ↦ rw e (Perm.trans (Perm.cons y (insert_with-perm x ys)) (Perm.swap _ _ _))
  ]

  pub sort_with-perm : (xs : List A) → Perm (sort_with before xs) xs
  sort_with-perm [] = Perm.refl _
  sort_with-perm (x ∷ xs) =
      Perm.trans (insert_with-perm x (sort_with before xs)) (Perm.cons x (sort_with-perm xs))

  any-insert_with :
      (p : A → Bool) (x : A) (ys : List A) → any p (insert_with before x ys) ≡ (p x || any p ys)
  any-insert_with p x [] = refl
  any-insert_with p x (y ∷ ys) = ground (arith, any-insert_with p x ys)

  pub any-sort_with : (p : A → Bool) (xs : List A) → any p (sort_with before xs) ≡ any p xs
  any-sort_with p [] = refl
  any-sort_with p (x ∷ xs) =
      ground (arith, any-sort_with p xs, any-insert_with p x (sort_with before xs))

module _ {ℓ} {A : Type ℓ} (key : A → ℕ) where
  pub sort_by-IsSortedBy : (xs : List A) → IsSortedBy key (sort_by key xs)
  sort_by-IsSortedBy =
      Pairwise-sort_with (ascending key) (λ x y. key x ≤ key y) (λ x y e. leb→le _ _ e)
        (λ x y e. ground arith) (λ x y z p q. omega arith)

  pub sort_desc_by-IsSortedDescBy : (xs : List A) → IsSortedDescBy key (sort_desc_by key xs)
  sort_desc_by-IsSortedDescBy =
      Pairwise-sort_with (descending key) (λ x y. key y ≤ key x) (λ x y e. leb→le _ _ e)
        (λ x y e. ground arith) (λ x y z p q. omega arith)

  pub All-sort_by {κ} : (P : A → Type κ) (xs : List A) → All P xs → All P (sort_by key xs)
  All-sort_by = All-sort_with (ascending key)

  pub any-sort_by : (p : A → Bool) (xs : List A) → any p (sort_by key xs) ≡ any p xs
  any-sort_by = any-sort_with (ascending key)

length-insert_with {ℓ} :
    {A : Type ℓ} (before : A → A → Bool) (x : A) (xs : List A)
    → length (insert_with before x xs) ≡ suc (length xs)
length-insert_with before x [] = refl
length-insert_with before x (y ∷ ys) = ground (arith, length-insert_with before x ys)

pub length-sort_with {ℓ} :
    {A : Type ℓ} (before : A → A → Bool) (xs : List A) → length (sort_with before xs) ≡ length xs
length-sort_with before [] = refl
length-sort_with before (x ∷ xs) =
    omega (arith, length-insert_with before x (sort_with before xs), length-sort_with before xs)
