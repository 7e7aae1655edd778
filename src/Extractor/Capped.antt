-- ===== src/Extractor/Capped.antt =====
-- What the cap of src/heron/analysis/extractor.py keeps and drops.
use heron_mail.Prelude.{
  All, Bool-cases, List, String, [], any, any-append, ap, ap₂, arith, eq_refl, false, inl, inr,
  length, ltb, refl, suc, true, update, ◌++◌, ◌+◌, ◌||◌, ◌∙◌, ◌∷◌, ◌≡◌, ◌≤◌,
}
use heron_mail.Extractor.Gathering.{Noted, add_to, has_key, is_truncated, note, note_all}

any-adding :
    (k key source : String) (ns : List Noted)
    → any (has_key k) (update (has_key key) (add_to source) ns) ≡ any (has_key k) ns
any-adding k key source [] = refl
any-adding k key source (n ∷ ns) = elim (Bool-cases (has_key key n)) [
  | inl e ↦ rw e (ap (λ b. has_key k n || b) (any-adding k key source ns))
  | inr e ↦ rw e (ap (λ b. has_key k n || b) (any-adding k key source ns))
]

length-adding :
    (key source : String) (ns : List Noted)
    → length (update (has_key key) (add_to source) ns) ≡ length ns
length-adding key source [] = refl
length-adding key source (n ∷ ns) = ap suc (length-adding key source ns)

length-snoc : (ns : List Noted) (n : Noted) → length (ns ++ n ∷ []) ≡ length ns + 1
length-snoc [] n = refl
length-snoc (m ∷ ns) n = omega (arith, length-snoc ns n)

-- A bucket after one more call: no key is lost, it does not shrink, it holds at most one entry past the cap,
-- and below the cap it has the key.
record Noting (key : String) (before after : List Noted) : Type 0 where
  keeps : (k : String) → any (has_key k) before ≡ true → any (has_key k) after ≡ true
  grows : length before ≤ length after
  capped : length before ≤ 1001 → length after ≤ 1001
  present : length after ≤ 1000 → any (has_key key) after ≡ true

note-Noting :
    (key source : String) (bucket : List Noted) → Noting key bucket (note bucket key source)
unfolding note
note-Noting key source bucket = elim (Bool-cases (any (has_key key) bucket)) [
  | inl known ↦ rw known (record {
    keeps = λ k h. any-adding k key source bucket ∙ h;
    grows = omega (arith, length-adding key source bucket);
    capped = λ h. omega (arith, length-adding key source bucket);
    present = λ h. any-adding key key source bucket ∙ known;
  })
  | inr new ↦ elim (Bool-cases (ltb 1000 (length bucket))) [
    | inl full ↦
        rw (new, full)
          (record {
            keeps = λ k h. h;
            grows = omega arith;
            capped = λ h. h;
            present = λ h. absurd (ground arith);
          })
    | inr space ↦
        let added : Noted = record { key = key; sources = source ∷ [] } in
        rw (new, space)
          (record {
            keeps = λ k h.
                any-append (has_key k) bucket (added ∷ [])
                ∙ ap (λ b. b || any (has_key k) (added ∷ [])) h;
            grows = omega (arith, length-snoc bucket added);
            capped = λ h. ground (arith, length-snoc bucket added);
            present = λ h.
                any-append (has_key key) bucket (added ∷ [])
                ∙ ap₂ (λ a b. a || (b || false)) new (eq_refl key);
          })
  ]
]

note_all-keeps :
    (calls : List (String × String)) (bucket : List Noted) (k : String)
    → any (has_key k) bucket ≡ true
    → any (has_key k) (note_all calls bucket) ≡ true
unfolding note_all
note_all-keeps [] bucket k h = h
note_all-keeps ((key, source) ∷ calls) bucket k h =
    note_all-keeps calls (note bucket key source) k ((note-Noting key source bucket).keeps k h)

note_all-grows :
    (calls : List (String × String)) (bucket : List Noted)
    → length bucket ≤ length (note_all calls bucket)
unfolding note_all
note_all-grows [] bucket = omega arith
note_all-grows ((key, source) ∷ calls) bucket =
    omega
      (arith, (note-Noting key source bucket).grows, note_all-grows calls (note bucket key source))

-- A bucket never holds more than one entry past the cap, however many calls there are.
pub note_all_capped :
    (calls : List (String × String)) (bucket : List Noted)
    → length bucket ≤ 1001
    → length (note_all calls bucket) ≤ 1001
unfolding note_all
note_all_capped [] bucket h = h
note_all_capped ((key, source) ∷ calls) bucket h =
    note_all_capped calls (note bucket key source) ((note-Noting key source bucket).capped h)

-- Where a bucket is not truncated at the end, it has the key of each call: nothing was dropped.
pub note_all_complete :
    (calls : List (String × String)) (bucket : List Noted)
    → is_truncated (note_all calls bucket) ≡ false
    → All (λ (c : String × String). any (has_key c.0) (note_all calls bucket) ≡ true) calls
unfolding note_all
note_all_complete [] bucket h = tt
note_all_complete ((key, source) ∷ calls) bucket h =
    let next = note bucket key source in
    let below : length next ≤ 1000 = ground (arith, note_all-grows calls next) in
    (
      note_all-keeps calls next key ((note-Noting key source bucket).present below),
      note_all_complete calls next h,
    )
