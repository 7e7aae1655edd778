-- ===== src/Domains/Registered.antt =====
-- `registered_domain` of src/heron/analysis/domains.py, on texts.
use Prim.Native.Char.{Char}
use heron_mail.Prelude.{
  All, Bool-cases, List, String, [], ap, arith, drop, false, inl, inr, length, map, subst, suc, sym,
  zero, ℕ, ◌∙◌, ◌∷◌, ◌≡◌, ◌≤◌,
}
use heron_mail.Domains.{bare_domain, organisation, registered_domain}
use heron_mail.Domains.Organisations.{organisation_lem, organisation_some}
use heron_mail.Strings.{Unicode, cut, is_empty, onto_first, same_char, split, strip_of}
use heron_mail.Strings.Labels.{AreLabels, is_dot, split-AreLabels, split-join, strip_of-join}
use heron_mail.Text.{chars, from_chars, join}

All-drop {ℓ κ} : {A : Type ℓ} (P : A → Type κ) (n : ℕ) (xs : List A) → All P xs → All P (drop n xs)
All-drop P zero xs h = h
All-drop P (suc n) [] h = tt
All-drop P (suc n) (x ∷ xs) h = All-drop P n xs h.1

split_some : (c : Char) (s : String) → 1 ≤ length (split c s)
unfolding split cut
split_some c s = parts (chars s)
  where
    first : (d : Char) (ws : List (List Char)) → 1 ≤ length (map from_chars (onto_first d ws))
    first d [] = omega arith
    first d (w ∷ ws) = omega arith

    parts : (cs : List Char) → 1 ≤ length (map from_chars (cut (same_char c) cs))
    parts [] = omega arith
    parts (d ∷ cs) = elim (Bool-cases (same_char c d)) [
      | inl e ↦ rw e (omega arith)
      | inr e ↦ rw e (first d (cut (same_char c) cs))
    ]

module _ (unicode : Unicode) where
  -- Of the labels of an organisation, joined again.
  kept :
      (labels : List String)
      → AreLabels labels
      → 1 ≤ length labels
      → unicode.lower (join "." labels) ≡ join "." labels
      → (split "." (join "." labels) ≡ labels)
        × (registered_domain unicode (join "." labels) ≡ join "." (organisation labels))
  unfolding registered_domain bare_domain
  kept [] h nonempty lowered = absurd (omega (arith, nonempty))
  kept (s ∷ ss) h nonempty lowered = (
    split-join s ss h,
    ap (λ t. join "." (organisation (split "." (strip_of is_dot t)))) lowered
        ∙ ap (λ t. join "." (organisation (split "." t))) (strip_of-join s ss h)
        ∙ ap (λ l. join "." (organisation l)) (split-join s ss h),
  )

-- For a domain that has no empty label between its dots and whose result is left as it is by lowering, as
-- text in lower case is: `registered_domain` keeps the last labels of the lowered domain without outer dots,
-- and applied to its own result it returns that result.
pub registered_domain_lem :
    (unicode : Unicode) (domain : String)
    → All (λ s. is_empty s ≡ false) (split "." (bare_domain unicode domain))
    → unicode.lower (registered_domain unicode domain) ≡ registered_domain unicode domain
    → ((k : ℕ) × (split "." (registered_domain unicode domain)
          ≡ drop k (split "." (bare_domain unicode domain))))
      × (registered_domain unicode (registered_domain unicode domain)
          ≡ registered_domain unicode domain)
unfolding registered_domain AreLabels
registered_domain_lem unicode domain full lowered =
    let labels = split "." (bare_domain unicode domain) in
    let ((k, last), again) = organisation_lem labels in
    let are : AreLabels (organisation labels) =
      subst AreLabels (sym last)
        (All-drop _ k labels (split-AreLabels (bare_domain unicode domain) full)) in
    let (parts, same) =
      kept unicode (organisation labels) are
        (organisation_some labels (split_some "." (bare_domain unicode domain))) lowered in
    ((k, parts ∙ last), same ∙ ap (join ".") again)
