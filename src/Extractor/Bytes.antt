-- ===== src/Extractor/Bytes.antt =====
-- An address that a browser reads has 32 bits, src/heron/analysis/extractor.py.
use native.Mathlib.Numerals.{unary_clauses}
use native.Mathlib.Nat.{mul-le-mul_left, mul_comm}
use mathlib.Core.Option.{some-injective}
use mathlib.Core.Option
use Prim.Native.Char.{Char}
use heron_mail.Prelude.{
  Bool, Bool-cases, List, Option, Option-cases, String, [], ap, arith, false, if◌then◌else◌, inl,
  inr, length, ltb, none, refl, some, subst, subst₂, suc, sym, true, ℕ, ◌*◌, ◌+◌, ◌-◌, ◌<◌, ◌^◌,
  ◌∙◌, ◌∷◌, ◌≡◌, ◌≤◌,
}
use heron_mail.Result.{Result, bind-ok, ok, ok-injective, traverse, ◌>>=◌}
use heron_mail.Extractor.Ipv4.{address_of, all_numbers, parse_ip_number, parse_loose_ipv4}
use heron_mail.Strings.{cut, same_char}
use heron_mail.Text.{chars}

-- The value of a guarded result.
guarded : (b : Bool) (x v : ℕ) → (if b then some x else none) ≡ some v → (b ≡ true) × (x ≡ v)
guarded true x v e = (refl, cc)
guarded false x v e = cc

unguarded : (b : Bool) (x v : ℕ) → (if b then none else some x) ≡ some v → (b ≡ false) × (x ≡ v)
unguarded true x v e = cc
unguarded false x v e = (refl, cc)

power_suc : (n : ℕ) → 256 * 256 ^ n ≡ 256 ^ (n + 1)
power_suc n = simp unary_clauses (omega arith)

pub address_of-lt :
    (left : ℕ) (ns : List ℕ) (value : ℕ)
    → length ns ≤ left + 1
    → address_of left ns ≡ some value
    → value < 256 ^ (left + 1)
unfolding address_of
address_of-lt left [] value h e = cc
address_of-lt left (n ∷ []) value h e =
    let (small, same) = guarded (ltb n (256 ^ (left + 1))) n value e in ground arith
address_of-lt left (n ∷ m ∷ rest) value h e =
    elim (Option-cases (address_of (left - 1) (m ∷ rest))) [
      | inl none_left ↦ let gone : none ≡ some value = sym (ap placed none_left) ∙ e in cc
      | inr (lower, found) ↦
          let below : lower < 256 ^ (left - 1 + 1) =
            address_of-lt (left - 1) (m ∷ rest) lower (omega arith) found in
          let bytes : left - 1 + 1 ≡ left = omega arith in
          let below_left : lower < 256 ^ left = subst (λ k. lower < 256 ^ k) bytes below in
          let (small, same) =
            unguarded (ltb 255 n) (n * 256 ^ left + lower) value (sym (ap placed found) ∙ e) in
          let at_most : n ≤ 255 = ground arith in
          let scaled : 256 ^ left * n ≤ 256 ^ left * 255 = mul-le-mul_left (256 ^ left) at_most in
          subst₂ (λ v top. v < top) same (power_suc left)
            (placed_lt (256 ^ left) n lower scaled below_left)
    ]
  where
    placed : Option ℕ → Option ℕ
    placed o = elim o [
      | none ↦ none
      | some lower ↦ if ltb 255 n then none else some (n * 256 ^ left + lower)
    ]

    placed_lt : (b k l : ℕ) → b * k ≤ b * 255 → l < b → k * b + l < 256 * b
    placed_lt b k l scaled below = grind (arith, mul_comm)

length-all_numbers :
    (ns : List (Option ℕ)) (l : List ℕ) → all_numbers ns ≡ some l → length l ≡ length ns
length-all_numbers [] l e = sym (ap length (some-injective _ _ e))
length-all_numbers (none ∷ ns) l e = cc
length-all_numbers (some n ∷ ns) l e = elim (Option-cases (all_numbers ns)) [
  | inl h ↦ let gone : none ≡ some l = sym (ap (Option.map (λ l. n ∷ l)) h) ∙ e in cc
  | inr (found, h) ↦
      let same : some (n ∷ found) ≡ some l = sym (ap (Option.map (λ l. n ∷ l)) h) ∙ e in
      sym (ap length (some-injective _ _ same)) ∙ ap suc (length-all_numbers ns found h)
]

length-traverse {ℓ κ} :
    {A : Type ℓ} {B : Type κ} (f : A → Result B) (xs : List A) (ys : List B)
    → traverse f xs ≡ ok ys
    → length ys ≡ length xs
length-traverse f [] ys e = sym (ap length (ok-injective _ _ e))
length-traverse f (x ∷ xs) ys e =
    let (y, found, rest) = bind-ok (f x) (λ y. traverse f xs >>= λ ys. ok (y ∷ ys)) ys e in
    let (zs, more, same) = bind-ok (traverse f xs) (λ ys. ok (y ∷ ys)) ys rest in
    sym (ap length (ok-injective _ _ same)) ∙ ap suc (length-traverse f xs zs more)

-- An address of a host has 32 bits, in whatever notation it is written.
pub parse_loose_ipv4-lt :
    (host : String) (value : ℕ) → parse_loose_ipv4 host ≡ ok (some value) → value < 2 ^ 32
unfolding parse_loose_ipv4
parse_loose_ipv4-lt host value e =
    let parts = cut (same_char ".") (chars host) in
    elim (Bool-cases (ltb 4 (length parts))) [
      | inl many ↦
          let gone : ok none ≡ ok (some value) =
            sym (ap (λ b. if b then ok none else numbered parts) many) ∙ e in
          cc
      | inr few ↦
          let (ns, read, same) =
            bind-ok (traverse parse_ip_number parts) (λ ns. ok (value_of ns)) (some value)
              (sym (ap (λ b. if b then ok none else numbered parts) few) ∙ e) in
          of_numbers ns (ok-injective _ _ same) (
            subst (λ n. n ≤ 4) (sym (length-traverse parse_ip_number parts ns read)) (ground arith))
    ]
  where
    value_of : List (Option ℕ) → Option ℕ
    value_of ns = elim (all_numbers ns) [ none ↦ none | some l ↦ address_of 3 l ]

    numbered : List (List Char) → Result (Option ℕ)
    numbered parts = traverse parse_ip_number parts >>= λ ns. ok (value_of ns)

    of_numbers : (ns : List (Option ℕ)) → value_of ns ≡ some value → length ns ≤ 4 → value < 2 ^ 32
    of_numbers ns h few = elim (Option-cases (all_numbers ns)) [
      | inl e ↦
          let gone : none ≡ some value =
            sym (ap (λ o. elim o [ none ↦ none | some l ↦ address_of 3 l ]) e) ∙ h in
          cc
      | inr (l, e) ↦
          address_of-lt 3 l value (subst (λ n. n ≤ 4) (sym (length-all_numbers ns l e)) few)
            (sym (ap (λ o. elim o [ none ↦ none | some l ↦ address_of 3 l ]) e) ∙ h)
    ]
