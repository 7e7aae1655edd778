-- ===== src/Runner/Chunks.antt =====
-- `_chunked` of src/heron/worker/runner.py.
use heron_mail.Prelude.{
  All, List, [], ap, arith, drop, false, length, length-take-le, refl, suc, take, zero, ℕ, ◌++◌,
  ◌==◌, ◌∙◌, ◌∷◌, ◌≡◌, ◌≤◌,
}
use heron_mail.Result.{ok}
use heron_mail.Runner.{chunked, chunked_fuel}

-- The chunks one after the other.
abbrev pub flatten {ℓ} : {A : Type ℓ} → List (List A) → List A
flatten [] = []
flatten (xs ∷ xss) = xs ++ flatten xss

take-drop {ℓ} : {A : Type ℓ} (n : ℕ) (xs : List A) → take n xs ++ drop n xs ≡ xs
take-drop zero xs = refl
take-drop (suc n) [] = refl
take-drop (suc n) (x ∷ xs) = ap (λ l. x ∷ l) (take-drop n xs)

length-drop-le {ℓ} : {A : Type ℓ} (n : ℕ) (xs : List A) → length (drop n xs) ≤ length xs
length-drop-le zero xs = omega arith
length-drop-le (suc n) [] = omega arith
length-drop-le (suc n) (x ∷ xs) = omega (arith, length-drop-le n xs)

flatten-chunked_fuel :
    (fuel k : ℕ) (items : List ℕ)
    → length items ≤ fuel
    → flatten (chunked_fuel fuel items (suc k)) ≡ items
unfolding chunked_fuel
flatten-chunked_fuel zero k [] h = refl
flatten-chunked_fuel zero k (x ∷ items) h = absurd (omega arith)
flatten-chunked_fuel (suc fuel) k [] h = refl
flatten-chunked_fuel (suc fuel) k (x ∷ items) h =
    ap (λ l. x ∷ take k items ++ l)
      (flatten-chunked_fuel fuel k (drop k items) (omega (arith, length-drop-le k items)))
    ∙ ap (λ l. x ∷ l) (take-drop k items)

-- A chunk has an item, and not more than the size.
abbrev pub Fits : ℕ → List ℕ → Type 0
Fits size chunk = (1 ≤ length chunk) × (length chunk ≤ size)

chunked_fuel-Fits :
    (fuel k : ℕ) (items : List ℕ) → All (Fits (suc k)) (chunked_fuel fuel items (suc k))
unfolding chunked_fuel
chunked_fuel-Fits zero k items = tt
chunked_fuel-Fits (suc fuel) k [] = tt
chunked_fuel-Fits (suc fuel) k (x ∷ items) =
    ((omega arith, length-take-le (suc k) (x ∷ items)), chunked_fuel-Fits fuel k (drop k items))

-- For every size above 0 the items are split, without an error, into chunks that make up the items in
-- their order, each with at least one item and at most as many as the size.
pub chunked-flatten :
    (items : List ℕ) (size : ℕ)
    → 1 ≤ size
    → (chunks : List (List ℕ)) × (chunked items size ≡ ok chunks)
      × (flatten chunks ≡ items)
      × All (Fits size) chunks
unfolding chunked
chunked-flatten items zero h = absurd (omega arith)
chunked-flatten items (suc k) h = (
  chunked_fuel (length items) items (suc k),
  (let above_zero : (suc k == 0) ≡ false = ground arith in rw above_zero refl),
  flatten-chunked_fuel (length items) k items (omega arith),
  chunked_fuel-Fits (length items) k items,
)
