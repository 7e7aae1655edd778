-- ===== src/Domains/Organisations.antt =====
-- The organisation of a domain, src/heron/analysis/domains.py.
use heron_mail.Prelude.{
  Bool-cases, List, String, ap, ap₂, arith, drop, drop-drop, false, inl, inr, leb, leb→le, length,
  length-drop, le→leb, ltb, refl, subst, sym, true, ℕ, ◌&&◌, ◌-◌, ◌<◌, ◌∙◌, ◌≡◌, ◌≤◌,
}
use heron_mail.Domains.{is_suffix_of_size, last_n, organisation, suffixes}
use heron_mail.Text.{has_text, join}

length-last_n {ℓ} : {A : Type ℓ} (n : ℕ) (xs : List A) → n ≤ length xs → length (last_n n xs) ≡ n
length-last_n n xs h = length-drop (length xs - n) xs ∙ omega arith

last_n-last_n {ℓ} :
    {A : Type ℓ} (m n : ℕ) (xs : List A)
    → m ≤ n
    → n ≤ length xs
    → last_n m (last_n n xs) ≡ last_n m xs
last_n-last_n m n xs h k =
    ap (λ l. drop (l - m) (last_n n xs)) (length-last_n n xs k)
    ∙ drop-drop (n - m) (length xs - n) xs
    ∙ ap (λ l. drop l xs) (omega arith)

last_n_all {ℓ} : {A : Type ℓ} (n : ℕ) (xs : List A) → length xs ≡ n → last_n n xs ≡ xs
last_n_all n xs h = let e : length xs - n ≡ 0 = omega (arith, h) in ap (λ l. drop l xs) e

-- A suffix of the last labels is one of all labels.
is_suffix_of_size-last_n :
    (size n : ℕ) (labels : List String)
    → size < n
    → n ≤ length labels
    → is_suffix_of_size size (last_n n labels) ≡ is_suffix_of_size size labels
unfolding is_suffix_of_size
is_suffix_of_size-last_n size n labels h k =
    let e : ltb size (length (last_n n labels)) ≡ ltb size (length labels) =
      ground (arith, length-last_n n labels k) in
    ap₂ (λ b l. b && has_text (join "." l) suffixes) e (last_n-last_n size n labels (omega arith) k)

fits :
    (size : ℕ) (labels : List String) → is_suffix_of_size size labels ≡ true → size < length labels
unfolding is_suffix_of_size
fits size labels h = ground arith

module _ (labels : List String) where
  short : length labels ≤ 2 → organisation labels ≡ labels
  unfolding organisation
  short h = rw (le→leb (length labels) 2 h)

  after_three : is_suffix_of_size 3 labels ≡ true → organisation labels ≡ last_n 4 labels
  unfolding organisation
  after_three h =
      let long : leb (length labels) 2 ≡ false = ground (arith, fits 3 labels h) in rw (long, h)

  after_two :
      is_suffix_of_size 3 labels ≡ false
      → is_suffix_of_size 2 labels ≡ true
      → organisation labels ≡ last_n 3 labels
  unfolding organisation
  after_two k h =
      let long : leb (length labels) 2 ≡ false = ground (arith, fits 2 labels h) in rw (long, k, h)

  otherwise :
      leb (length labels) 2 ≡ false
      → is_suffix_of_size 3 labels ≡ false
      → is_suffix_of_size 2 labels ≡ false
      → organisation labels ≡ last_n 2 labels
  unfolding organisation
  otherwise long k h = rw (long, k, h)

too_short : (labels : List String) → length labels ≡ 3 → is_suffix_of_size 3 labels ≡ false
unfolding is_suffix_of_size
too_short labels h = ground arith

Keeps : List String → List String → Type 0
Keeps labels kept = ((k : ℕ) × (kept ≡ drop k labels)) × (organisation kept ≡ kept)

Keeps-last :
    (n : ℕ) (labels : List String)
    → organisation labels ≡ last_n n labels
    → organisation (last_n n labels) ≡ last_n n labels
    → Keeps labels (organisation labels)
unfolding Keeps
Keeps-last n labels e f =
    subst (λ l. ((k : ℕ) × (l ≡ drop k labels)) × (organisation l ≡ l)) (sym e)
      ((length labels - n, refl), f)

pub organisation_some :
    (labels : List String) → 1 ≤ length labels → 1 ≤ length (organisation labels)
organisation_some labels h = elim (Bool-cases (leb (length labels) 2)) [
  | inl e ↦ subst (λ l. 1 ≤ length l) (sym (short labels (leb→le _ _ e))) h
  | inr e ↦ elim (Bool-cases (is_suffix_of_size 3 labels)) [
    | inl t ↦
        subst (λ l. 1 ≤ length l) (sym (after_three labels t))
          (omega (arith, length-last_n 4 labels (fits 3 labels t)))
    | inr f ↦ elim (Bool-cases (is_suffix_of_size 2 labels)) [
      | inl t ↦
          subst (λ l. 1 ≤ length l) (sym (after_two labels f t))
            (omega (arith, length-last_n 3 labels (fits 2 labels t)))
      | inr g ↦
          let long : 2 ≤ length labels = ground arith in
          subst (λ l. 1 ≤ length l) (sym (otherwise labels e f g))
            (omega (arith, length-last_n 2 labels long))
    ]
  ]
]

-- The labels that `organisation` keeps are the last ones, and it keeps all of them when it is applied to
-- them again.
pub organisation_lem :
    (labels : List String)
    → ((k : ℕ) × (organisation labels ≡ drop k labels))
      × (organisation (organisation labels) ≡ organisation labels)
unfolding Keeps
organisation_lem labels = elim (Bool-cases (leb (length labels) 2)) [
  | inl e ↦ let s = short labels (leb→le _ _ e) in ((0, s), ap organisation s)
  | inr e ↦ elim (Bool-cases (is_suffix_of_size 3 labels)) [
    | inl t ↦
        let n = fits 3 labels t in
        Keeps-last 4 labels (after_three labels t) (
          after_three (last_n 4 labels) (is_suffix_of_size-last_n 3 4 labels (omega arith) n ∙ t)
          ∙ last_n_all 4 (last_n 4 labels) (length-last_n 4 labels n))
    | inr f ↦ elim (Bool-cases (is_suffix_of_size 2 labels)) [
      | inl t ↦
          let n = fits 2 labels t in
          Keeps-last 3 labels (after_two labels f t) (
            after_two (last_n 3 labels) (too_short (last_n 3 labels) (length-last_n 3 labels n))
              (is_suffix_of_size-last_n 2 3 labels (omega arith) n ∙ t)
            ∙ last_n_all 3 (last_n 3 labels) (length-last_n 3 labels n))
      | inr g ↦
          let long : 2 ≤ length labels = ground arith in
          let n = length-last_n 2 labels long in
          Keeps-last 2 labels (otherwise labels e f g) (short (last_n 2 labels) (omega (arith, n)))
    ]
  ]
]
