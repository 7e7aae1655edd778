-- ===== src/Prelude/Lists.antt =====
-- Lists: the filters, tests and predicates that stand for SQL conditions and Python loops.
use Prim.Native.Nat.{ℕ, zero, suc, ◌+◌, ◌-◌, ◌≤◌, ◌<◌, max}
use mathlib.Core.Path.{◌≡◌, refl, sym, ap, ◌∙◌, subst}
use mathlib.Core.Logic.{inl, inr}
use mathlib.Core.Bool.{Bool, true, false, ◌&&◌, ◌||◌}
use mathlib.Core.Option.{Option, none, some, some-injective}
use mathlib.Core.List.{List, [], ◌∷◌, ◌++◌, map, head?}
use native.Mathlib.Omega.{arith}
use heron_mail.Prelude.Tests.{if◌then◌else◌, ◌==◌, Bool-cases}

abbrev pub All {ℓ κ} : {A : Type ℓ} → (A → Type κ) → List A → Type κ
All P [] = Unit
All P (x ∷ xs) = P x × All P xs

-- Every two elements, the earlier one first.
abbrev pub Pairwise {ℓ κ} : {A : Type ℓ} → (A → A → Type κ) → List A → Type κ
Pairwise R [] = Unit
Pairwise R (x ∷ xs) = All (R x) xs × Pairwise R xs

module _ {ℓ} {A : Type ℓ} where
  abbrev pub length : List A → ℕ
  length [] = 0
  length (x ∷ xs) = suc (length xs)

  abbrev pub take : ℕ → List A → List A
  take zero xs = []
  take (suc n) [] = []
  take (suc n) (x ∷ xs) = x ∷ take n xs

  abbrev pub drop : ℕ → List A → List A
  drop zero xs = xs
  drop (suc n) [] = []
  drop (suc n) (x ∷ xs) = drop n xs

  -- The rows that pass a test, in their order.
  abbrev pub select : (A → Bool) → List A → List A
  select p [] = []
  select p (x ∷ xs) = if p x then x ∷ select p xs else select p xs

  abbrev pub any : (A → Bool) → List A → Bool
  any p [] = false
  any p (x ∷ xs) = p x || any p xs

  abbrev pub first? : (A → Bool) → List A → Option A
  first? p [] = none
  first? p (x ∷ xs) = if p x then some x else first? p xs

  -- An update of the rows that pass a test.
  abbrev pub update : (A → Bool) → (A → A) → List A → List A
  update p f [] = []
  update p f (x ∷ xs) = (if p x then f x else x) ∷ update p f xs

  abbrev pub count_if : (A → Bool) → List A → ℕ
  count_if p [] = 0
  count_if p (x ∷ xs) = if p x then suc (count_if p xs) else count_if p xs

  -- The id that SQLite gives a new row: one more than the largest in the table.
  abbrev pub max_id : (A → ℕ) → List A → ℕ
  max_id key [] = 0
  max_id key (x ∷ xs) = max (key x) (max_id key xs)

abbrev pub next_id {ℓ} : {A : Type ℓ} → (A → ℕ) → List A → ℕ
next_id key xs = suc (max_id key xs)

abbrev pub has : ℕ → List ℕ → Bool
has a [] = false
has a (x ∷ xs) = (x == a) || has a xs

-- No number stands twice.
abbrev pub Distinct : List ℕ → Type 0
Distinct [] = Unit
Distinct (x ∷ xs) = (has x xs ≡ false) × Distinct xs

abbrev pub sum : List ℕ → ℕ
sum [] = 0
sum (x ∷ xs) = x + sum xs

module _ {ℓ κ} {A : Type ℓ} (P : A → Type κ) where
  pub All-select : (p : A → Bool) (xs : List A) → All P xs → All P (select p xs)
  All-select p [] h = tt
  All-select p (x ∷ xs) h = elim (Bool-cases (p x)) [
    | inl e ↦ rw e (h.0, All-select p xs h.1)
    | inr e ↦ rw e (All-select p xs h.1)
  ]

  pub All-append : (xs ys : List A) → All P xs → All P ys → All P (xs ++ ys)
  All-append [] ys hx hy = hy
  All-append (x ∷ xs) ys hx hy = (hx.0, All-append xs ys hx.1 hy)

  pub All-map_self : (xs : List A) → ((x : A) → P x) → All P xs
  All-map_self [] h = tt
  All-map_self (x ∷ xs) h = (h x, All-map_self xs h)

  pub All-update :
      (p : A → Bool) (f : A → A) (xs : List A)
      → ((x : A) → p x ≡ true → P x → P (f x))
      → All P xs
      → All P (update p f xs)
  All-update p f [] keep h = tt
  All-update p f (x ∷ xs) keep h = elim (Bool-cases (p x)) [
    | inl e ↦ rw e (keep x e h.0, All-update p f xs keep h.1)
    | inr e ↦ rw e (h.0, All-update p f xs keep h.1)
  ]

  -- What an update makes true of the rows that it changes, and the others have already.
  pub All-updated :
      (p : A → Bool) (f : A → A) (xs : List A)
      → ((x : A) → p x ≡ true → P (f x))
      → ((x : A) → p x ≡ false → P x)
      → All P (update p f xs)
  All-updated p f [] changed same = tt
  All-updated p f (x ∷ xs) changed same = elim (Bool-cases (p x)) [
    | inl e ↦ rw e (changed x e, All-updated p f xs changed same)
    | inr e ↦ rw e (same x e, All-updated p f xs changed same)
  ]

  pub All-unselect :
      (p : A → Bool) (xs : List A) → All P (select p xs) → All (λ x. p x ≡ true → P x) xs
  All-unselect p [] h = tt
  All-unselect p (x ∷ xs) h = elim (Bool-cases (p x)) [
    | inl e ↦ let h' = rw e at h in ((λ _. h'.0), All-unselect p xs h'.1)
    | inr e ↦ let h' = rw e at h in ((λ e'. cc), All-unselect p xs h')
  ]

  pub All-head : (xs : List A) (n : A) → head? xs ≡ some n → All P xs → P n
  All-head [] n e h = cc
  All-head (x ∷ xs) n e h = subst P (some-injective _ _ e) h.0

module _ {ℓ} {A : Type ℓ} (p : A → Bool) where
  pub All-selected : (xs : List A) → All (λ x. p x ≡ true) (select p xs)
  All-selected [] = tt
  All-selected (x ∷ xs) = elim (Bool-cases (p x)) [
    | inl e ↦ rw e (e, All-selected xs)
    | inr e ↦ rw e (All-selected xs)
  ]

  pub first?_passes : (xs : List A) (m : A) → first? p xs ≡ some m → p m ≡ true
  first?_passes [] m e = cc
  first?_passes (x ∷ xs) m e = elim (Bool-cases (p x)) [
    | inl t ↦ subst (λ y. p y ≡ true) (some-injective _ _ (rw t at e)) t
    | inr t ↦ first?_passes xs m (rw t at e)
  ]

  pub first?_of_any : (xs : List A) → any p xs ≡ true → (m : A) × (first? p xs ≡ some m)
  first?_of_any [] h = cc
  first?_of_any (x ∷ xs) h = elim (Bool-cases (p x)) [
    | inl t ↦ (x, rw t)
    | inr t ↦ let (m, e) = first?_of_any xs (rw t at h) in (m, rw t e)
  ]

  pub any_of_head : (xs : List A) (n : A) → head? xs ≡ some n → p n ≡ true → any p xs ≡ true
  any_of_head [] n e h = cc
  any_of_head (x ∷ xs) n e h = rw (ap p (some-injective _ _ e) ∙ h)

  pub any-select : (q : A → Bool) (xs : List A) → any p (select q xs) ≡ any (λ x. p x && q x) xs
  any-select q [] = refl
  any-select q (x ∷ xs) = ground (arith, any-select q xs)

pub has_iff_any {ℓ} :
    {A : Type ℓ} (key : A → ℕ) (i : ℕ) (xs : List A) → has i (map key xs) ≡ any (λ x. key x == i) xs
has_iff_any key i [] = refl
has_iff_any key i (x ∷ xs) = ap (λ b. (key x == i) || b) (has_iff_any key i xs)

-- An update that keeps the ids keeps them in their order.
pub map-update {ℓ} :
    {A : Type ℓ} (key : A → ℕ) (p : A → Bool) (f : A → A) (xs : List A)
    → ((x : A) → key (f x) ≡ key x)
    → map key (update p f xs) ≡ map key xs
map-update key p f [] same = refl
map-update key p f (x ∷ xs) same = elim (Bool-cases (p x)) [
  | inl e ↦ rw (e, same x, map-update key p f xs same)
  | inr e ↦ rw (e, map-update key p f xs same)
]

-- A filter keeps what the test says, and forgets nothing that passes both tests.
pub select-select_comm {ℓ} :
    {A : Type ℓ} (p q : A → Bool) (xs : List A) → select p (select q xs) ≡ select q (select p xs)
select-select_comm p q [] = refl
select-select_comm p q (x ∷ xs) = ground (arith, select-select_comm p q xs)

pub select-append {ℓ} :
    {A : Type ℓ} (p : A → Bool) (xs ys : List A) → select p (xs ++ ys) ≡ select p xs ++ select p ys
select-append p [] ys = refl
select-append p (x ∷ xs) ys = ground (arith, select-append p xs ys)

pub any-append {ℓ} :
    {A : Type ℓ} (p : A → Bool) (xs ys : List A) → any p (xs ++ ys) ≡ (any p xs || any p ys)
any-append p [] ys = refl
any-append p (x ∷ xs) ys = ground (arith, any-append p xs ys)

module _ {ℓ} {A : Type ℓ} (key : A → ℕ) where
  pub le_max_id : (xs : List A) → All (λ x. key x ≤ max_id key xs) xs
  le_max_id [] = tt
  le_max_id (x ∷ xs) = (omega arith, widen xs (max_id key xs) (omega arith) (le_max_id xs))
    where
      widen :
          (ys : List A) (m : ℕ)
          → m ≤ max (key x) (max_id key xs)
          → All (λ y. key y ≤ m) ys
          → All (λ y. key y ≤ max (key x) (max_id key xs)) ys
      widen [] m h all = tt
      widen (y ∷ ys) m h all = (omega (arith, all.0), widen ys m h all.1)

  -- A fresh id is in no row.
  pub has-beyond : (xs : List A) (n : ℕ) → max_id key xs < n → has n (map key xs) ≡ false
  has-beyond [] n h = refl
  has-beyond (x ∷ xs) n h = ground (arith, has-beyond xs n (omega arith))

  pub Distinct-snoc :
      (xs : List A) (y : A)
      → has (key y) (map key xs) ≡ false
      → Distinct (map key xs)
      → Distinct (map key (xs ++ y ∷ []))
  Distinct-snoc [] y h d = (refl, tt)
  Distinct-snoc (x ∷ xs) y h d =
      (has_snoc xs (ground arith) d.0, Distinct-snoc xs y (ground arith) d.1)
    where
      has_snoc :
          (zs : List A)
          → (key y == key x) ≡ false
          → has (key x) (map key zs) ≡ false
          → has (key x) (map key (zs ++ y ∷ [])) ≡ false
      has_snoc [] e f = ground arith
      has_snoc (z ∷ zs) e f = ground (arith, has_snoc zs e)

  pub has-select :
      (p : A → Bool) (i : ℕ) (xs : List A)
      → has i (map key xs) ≡ false
      → has i (map key (select p xs)) ≡ false
  has-select p i [] h = refl
  has-select p i (x ∷ xs) h = ground (arith, has-select p i xs)

  pub Distinct-select :
      (p : A → Bool) (xs : List A) → Distinct (map key xs) → Distinct (map key (select p xs))
  Distinct-select p [] d = tt
  Distinct-select p (x ∷ xs) d = elim (Bool-cases (p x)) [
    | inl e ↦ rw e (has-select p (key x) xs d.0, Distinct-select p xs d.1)
    | inr e ↦ rw e (Distinct-select p xs d.1)
  ]

module _ {ℓ κ} {A : Type ℓ} (R : A → A → Type κ) where
  pub Pairwise-select : (p : A → Bool) (xs : List A) → Pairwise R xs → Pairwise R (select p xs)
  Pairwise-select p [] h = tt
  Pairwise-select p (x ∷ xs) h = elim (Bool-cases (p x)) [
    | inl e ↦ rw e (All-select (R x) p xs h.0, Pairwise-select p xs h.1)
    | inr e ↦ rw e (Pairwise-select p xs h.1)
  ]

  pub Pairwise-snoc :
      (xs : List A) (y : A) → All (λ x. R x y) xs → Pairwise R xs → Pairwise R (xs ++ y ∷ [])
  Pairwise-snoc [] y all h = (tt, tt)
  Pairwise-snoc (x ∷ xs) y all h =
      (All-append (R x) xs (y ∷ []) h.0 (all.0, tt), Pairwise-snoc xs y all.1 h.1)

module _ {ℓ} {A : Type ℓ} (key : A → ℕ) (p : A → Bool) where
  -- With distinct ids, the ids of the rows that pass a test are ids of no other row.
  pub has_selected :
      (xs : List A)
      → Distinct (map key xs)
      → All (λ x. p x ≡ false → has (key x) (map key (select p xs)) ≡ false) xs
  has_selected [] d = tt
  has_selected (x ∷ xs) d =
      (λ e. rw e (has-select key p (key x) xs d.0), rest xs d.0 (has_selected xs d.1))
    where
      rest :
          (ys : List A)
          → has (key x) (map key ys) ≡ false
          → All (λ y. p y ≡ false → has (key y) (map key (select p xs)) ≡ false) ys
          → All (λ y. p y ≡ false → has (key y) (map key (select p (x ∷ xs))) ≡ false) ys
      rest [] h all = tt
      rest (y ∷ ys) h all = (λ e. ground (arith, all.0 e), rest ys (ground arith) all.1)

pub All-mono {ℓ κ μ} :
    {A : Type ℓ} (P : A → Type κ) (Q : A → Type μ) (xs : List A)
    → ((x : A) → P x → Q x)
    → All P xs
    → All Q xs
All-mono P Q [] f h = tt
All-mono P Q (x ∷ xs) f h = (f x h.0, All-mono P Q xs f h.1)

-- As `All-update`, with a fact about each row beside.
pub All-update_where {ℓ κ μ} :
    {A : Type ℓ} (P : A → Type κ) (W : A → Type μ) (p : A → Bool) (f : A → A) (xs : List A)
    → ((x : A) → p x ≡ true → W x → P x → P (f x))
    → All W xs
    → All P xs
    → All P (update p f xs)
All-update_where P W p f [] keep w h = tt
All-update_where P W p f (x ∷ xs) keep w h = elim (Bool-cases (p x)) [
  | inl e ↦ rw e (keep x e w.0 h.0, All-update_where P W p f xs keep w.1 h.1)
  | inr e ↦ rw e (h.0, All-update_where P W p f xs keep w.1 h.1)
]

module _ {ℓ} {A : Type ℓ} where
  pub All-take {κ} : (P : A → Type κ) (n : ℕ) (xs : List A) → All P xs → All P (take n xs)
  All-take P zero xs h = tt
  All-take P (suc n) [] h = tt
  All-take P (suc n) (x ∷ xs) h = (h.0, All-take P n xs h.1)

  pub Pairwise-take {κ} :
      (R : A → A → Type κ) (n : ℕ) (xs : List A) → Pairwise R xs → Pairwise R (take n xs)
  Pairwise-take R zero xs h = tt
  Pairwise-take R (suc n) [] h = tt
  Pairwise-take R (suc n) (x ∷ xs) h = (All-take (R x) n xs h.0, Pairwise-take R n xs h.1)

  pub length-take-le : (n : ℕ) (xs : List A) → length (take n xs) ≤ n
  length-take-le zero xs = omega arith
  length-take-le (suc n) [] = omega arith
  length-take-le (suc n) (x ∷ xs) = omega (arith, length-take-le n xs)

  pub take_all : (n : ℕ) (xs : List A) → length xs ≤ n → take n xs ≡ xs
  take_all zero [] h = refl
  take_all zero (x ∷ xs) h = absurd (omega arith)
  take_all (suc n) [] h = refl
  take_all (suc n) (x ∷ xs) h = ap (λ l. x ∷ l) (take_all n xs (omega arith))

pub count_if-append {ℓ} :
    {A : Type ℓ} (p : A → Bool) (xs ys : List A)
    → count_if p (xs ++ ys) ≡ count_if p xs + count_if p ys
count_if-append p [] ys = omega arith
count_if-append p (x ∷ xs) ys = ground (arith, count_if-append p xs ys)

pub drop-nil {ℓ} : {A : Type ℓ} (n : ℕ) → drop {A = A} n [] ≡ []
drop-nil zero = refl
drop-nil (suc n) = refl

suc_add : (n m : ℕ) → suc (n + m) ≡ suc n + m
suc_add n m = omega arith

pub drop-drop {ℓ} : {A : Type ℓ} (m n : ℕ) (xs : List A) → drop m (drop n xs) ≡ drop (n + m) xs
drop-drop m zero xs = ap (λ k. drop k xs) (omega arith)
drop-drop m (suc n) [] = drop-nil m ∙ sym (drop-nil (suc n + m))
drop-drop m (suc n) (x ∷ xs) = drop-drop m n xs ∙ ap (λ k. drop k (x ∷ xs)) (suc_add n m)

pub length-drop {ℓ} : {A : Type ℓ} (n : ℕ) (xs : List A) → length (drop n xs) ≡ length xs - n
length-drop zero xs = omega arith
length-drop (suc n) [] = omega arith
length-drop (suc n) (x ∷ xs) = length-drop n xs ∙ omega arith

-- What both branches of a conditional have.
pub All-if {ℓ κ} :
    {A : Type ℓ} (P : A → Type κ) (b : Bool) (xs ys : List A)
    → All P xs
    → All P ys
    → All P (if b then xs else ys)
All-if P true xs ys p q = p
All-if P false xs ys p q = q
