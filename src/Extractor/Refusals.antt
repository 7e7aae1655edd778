-- ===== src/Extractor/Refusals.antt =====
-- The hosts for which `_parse_loose_ipv4` of src/heron/analysis/extractor.py raises.
use Prim.Native.Char.{Char, code}
use heron_mail.Prelude.{
  Bool, Bool-cases, List, Option, String, [], any, ap, ap₂, arith, false, if◌then◌else◌, inl, inr,
  is_some, leb, length, ltb, none, not, refl, some, sym, true, ℕ, ◌&&◌, ◌*◌, ◌+◌, ◌||◌, ◌∙◌, ◌∷◌,
  ◌≡◌,
}
use heron_mail.Result.{Result, err, ok, traverse, ◌>>=◌}
use heron_mail.Extractor.Ipv4.{
  address_of, all_numbers, digits_value, hex_value, is_x, parse_ip_number, parse_loose_ipv4,
  read_decimal,
}
use heron_mail.Strings.{cut, is_digit, same_char}
use heron_mail.Text.{chars}

abbrev pub raises {ℓ} : {A : Type ℓ} → Result A → Bool
raises (ok a) = false
raises (err e) = true

-- `[0-7]`
abbrev is_octal_digit : Char → Bool
is_octal_digit c = leb b'0' (code c) && leb (code c) b'7'

-- A zero before octal digits only.
abbrev is_octal : List Char → Bool
is_octal [] = false
is_octal (c ∷ []) = false
is_octal (c ∷ d ∷ rest) = same_char "0" c && not (any (λ x. not (is_octal_digit x)) (d ∷ rest))

-- A decimal number of more than 4300 digits.
abbrev pub is_long_decimal : List Char → Bool
is_long_decimal cs =
    not (any (λ c. not (is_digit c)) cs) && (ltb 4300 (length cs) && not (is_octal cs))

octal_value :
    (c : Char)
    → (elim (hex_value c) as (λ x. Bool) [ none ↦ false | some d ↦ ltb d 8 ]) ≡ is_octal_digit c
unfolding hex_value
octal_value c = ground arith

octal_digits :
    (n : ℕ) (cs : List Char)
    → is_some (digits_value 8 n cs) ≡ not (any (λ c. not (is_octal_digit c)) cs)
unfolding digits_value
octal_digits n [] = refl
octal_digits n (c ∷ cs) = of_value (hex_value c) (octal_value c) (λ m. octal_digits m cs)
  where
    rest : Bool
    rest = any (λ x. not (is_octal_digit x)) cs

    guarded :
        (b : Bool) (v : Option ℕ)
        → is_some v ≡ not rest
        → is_some (if b then v else none) ≡ not (not b || rest)
    guarded true v h = h
    guarded false v h = refl

    of_value :
        (o : Option ℕ)
        → (elim o as (λ x. Bool) [ none ↦ false | some d ↦ ltb d 8 ]) ≡ is_octal_digit c
        → ((m : ℕ) → is_some (digits_value 8 m cs) ≡ not rest)
        → is_some (elim o as (λ x. Option ℕ) [
          | none ↦ none
          | some d ↦ if ltb d 8 then digits_value 8 (n * 8 + d) cs else none
        ])
          ≡ not (not (is_octal_digit c) || rest)
    of_value none h k = ap (λ b. not (not b || rest)) h
    of_value (some d) h k =
        guarded (ltb d 8) (digits_value 8 (n * 8 + d) cs) (k (n * 8 + d))
        ∙ ap (λ b. not (not b || rest)) h

raises-read_decimal :
    (cs : List Char)
    → raises (read_decimal cs) ≡ (not (any (λ c. not (is_digit c)) cs) && ltb 4300 (length cs))
unfolding read_decimal
raises-read_decimal cs = elim (Bool-cases (any (λ c. not (is_digit c)) cs)) [
  | inl e ↦ rw e refl
  | inr e ↦ elim (Bool-cases (ltb 4300 (length cs))) [
    | inl f ↦ rw (e, f) refl
    | inr f ↦ rw (e, f) refl
  ]
]

x_no_digit : (c : Char) → is_x c ≡ true → is_digit c ≡ false
x_no_digit c h = ground (arith, h)

raises-parse_ip_number : (cs : List Char) → raises (parse_ip_number cs) ≡ is_long_decimal cs
unfolding parse_ip_number
raises-parse_ip_number [] = refl
raises-parse_ip_number (c ∷ []) =
    raises-read_decimal (c ∷ []) ∙ short (not (any (λ x. not (is_digit x)) (c ∷ [])))
  where
    short : (b : Bool) → (b && false) ≡ (b && (false && true))
    short true = refl
    short false = refl
raises-parse_ip_number (c ∷ d ∷ rest) = elim (Bool-cases hex) [
  | inl e ↦
      ap (λ b. raises (if b then ok (digits_value 16 0 rest) else others)) e
      ∙ sym (
          ap
            (λ b.
              not (not (is_digit c) || (not b || any (λ x. not (is_digit x)) rest))
              && (long && not octal))
            (x_no_digit d (ground (arith, e)))
          ∙ not_all (not (is_digit c)) (long && not octal))
  | inr e ↦
      ap (λ b. raises (if b then ok (digits_value 16 0 rest) else others)) e
      ∙ otherwise (same_char "0" c && is_some (digits_value 8 0 (d ∷ rest)))
          (digits_value 8 0 (d ∷ rest)) (read_decimal (c ∷ d ∷ rest))
          (not (any (λ x. not (is_digit x)) (c ∷ d ∷ rest))) long
          (raises-read_decimal (c ∷ d ∷ rest))
      ∙ ap
          (λ o.
            not (any (λ x. not (is_digit x)) (c ∷ d ∷ rest))
            && (long && not (same_char "0" c && o)))
          (octal_digits 0 (d ∷ rest))
]
  where
    hex : Bool
    hex = same_char "0" c && is_x d && is_some (digits_value 16 0 rest)

    octal : Bool
    octal = is_octal (c ∷ d ∷ rest)

    long : Bool
    long = ltb 4300 (length (c ∷ d ∷ rest))

    others : Result (Option ℕ)
    others =
        if same_char "0" c && is_some (digits_value 8 0 (d ∷ rest))
        then ok (digits_value 8 0 (d ∷ rest))
        else read_decimal (c ∷ d ∷ rest)

    not_all : (a l : Bool) → (not (a || true) && l) ≡ false
    not_all true l = refl
    not_all false l = refl

    otherwise :
        (b : Bool) (v : Option ℕ) (r : Result (Option ℕ)) (x l : Bool)
        → raises r ≡ (x && l)
        → raises (if b then ok v else r) ≡ (x && (l && not b))
    otherwise true v r true true h = refl
    otherwise true v r true false h = refl
    otherwise true v r false l h = refl
    otherwise false v r true true h = h
    otherwise false v r true false h = h
    otherwise false v r false l h = h

raises-traverse {ℓ κ} :
    {A : Type ℓ} {B : Type κ} (f : A → Result B) (xs : List A)
    → raises (traverse f xs) ≡ any (λ x. raises (f x)) xs
raises-traverse f [] = refl
raises-traverse {B = B} f (x ∷ xs) = of_head (f x) (raises-traverse f xs)
  where
    of_tail : (y : B) (r : Result (List B)) → raises (r >>= λ ys. ok (y ∷ ys)) ≡ raises r
    of_tail y (ok ys) = refl
    of_tail y (err e) = refl

    of_head :
        (r : Result B)
        → raises (traverse f xs) ≡ any (λ x. raises (f x)) xs
        → raises (r >>= λ y. traverse f xs >>= λ ys. ok (y ∷ ys))
          ≡ (raises r || any (λ x. raises (f x)) xs)
    of_head (err e) h = refl
    of_head (ok y) h = of_tail y (traverse f xs) ∙ h

any_same {ℓ} :
    {A : Type ℓ} (p q : A → Bool) (xs : List A) → ((x : A) → p x ≡ q x) → any p xs ≡ any q xs
any_same p q [] h = refl
any_same p q (x ∷ xs) h = ap₂ (λ a b. a || b) (h x) (any_same p q xs h)

-- `_parse_loose_ipv4` raises exactly for a host of at most four parts between dots, one of which is a decimal
-- number of more than 4300 digits (an octal one may be as long as it likes).
pub raises-parse_loose_ipv4 :
    (host : String)
    → raises (parse_loose_ipv4 host) ≡ (
        leb (length (cut (same_char ".") (chars host))) 4
        && any is_long_decimal (cut (same_char ".") (chars host)))
unfolding parse_loose_ipv4
raises-parse_loose_ipv4 host = elim (Bool-cases (ltb 4 (length parts))) [
  | inl many ↦
      let beyond : leb (length parts) 4 ≡ false = ground (arith, many) in
      ap (λ b. raises (if b then ok none else numbered)) many
      ∙ sym (ap (λ b. b && any is_long_decimal parts) beyond)
  | inr few ↦
      let within : leb (length parts) 4 ≡ true = ground (arith, few) in
      ap (λ b. raises (if b then ok none else numbered)) few
      ∙ unchanged (traverse parse_ip_number parts)
      ∙ raises-traverse parse_ip_number parts
      ∙ any_same (λ x. raises (parse_ip_number x)) is_long_decimal parts raises-parse_ip_number
      ∙ sym (ap (λ b. b && any is_long_decimal parts) within)
]
  where
    parts : List (List Char)
    parts = cut (same_char ".") (chars host)

    value_of : List (Option ℕ) → Option ℕ
    value_of ns = elim (all_numbers ns) [ none ↦ none | some l ↦ address_of 3 l ]

    numbered : Result (Option ℕ)
    numbered = traverse parse_ip_number parts >>= λ ns. ok (value_of ns)

    unchanged : (r : Result (List (Option ℕ))) → raises (r >>= λ ns. ok (value_of ns)) ≡ raises r
    unchanged (ok ns) = refl
    unchanged (err e) = refl
