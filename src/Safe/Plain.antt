-- ===== src/Safe/Plain.antt =====
-- What `clean_text` of src/heron/ui/safe.py lets through.
use Prim.Native.Char.{code}
use Prim.Native.Char.{Char}
use heron_mail.Prelude.{
  All, All-append, All-if, All-take, Bool, Bool-cases, List, String, [], ap, arith, false, has,
  if◌then◌else◌, inl, inr, length, length-take-le, ltb, map, not, refl, subst, suc, sym, take, true,
  ℕ, ◌&&◌, ◌++◌, ◌+◌, ◌-◌, ◌==◌, ◌∙◌, ◌∷◌, ◌≡◌, ◌≤◌,
}
use heron_mail.Safe.{blanked, clean_chars, clean_text, is_unsafe_char, kept_length}
use heron_mail.Strings.Chars.{chars-from_chars}
use heron_mail.Text.{before_rest, chars, collapse, is_space, rstrip}

module _ (P : Char → Type 0) where
  All-collapse :
      (started gap : Bool) (cs : List Char)
      → P " "
      → All (λ c. is_space c ≡ false → P c) cs
      → All P (collapse started gap cs)
  unfolding collapse
  All-collapse started gap [] blank h = tt
  All-collapse started gap (c ∷ cs) blank (first, rest) = elim (Bool-cases (is_space c)) [
    | inl e ↦ rw e (All-collapse started true cs blank rest)
    | inr e ↦
        let letter : All P (c ∷ collapse true false cs) =
          (first e, All-collapse true false cs blank rest) in
        rw e (All-if P (started && gap) _ _ (blank, letter) letter)
  ]

  All-rstrip : (cs : List Char) → All P cs → All P (rstrip cs)
  unfolding rstrip
  All-rstrip [] h = tt
  All-rstrip (c ∷ cs) (first, rest) = before c (rstrip cs) first (All-rstrip cs rest)
    where
      before : (d : Char) (es : List Char) → P d → All P es → All P (before_rest d es)
      before d [] k l = All-if P (is_space d) [] (d ∷ []) tt (k, tt)
      before d (e ∷ es) k l = (k, l)

length-rstrip : (cs : List Char) → length (rstrip cs) ≤ length cs
unfolding rstrip
length-rstrip [] = omega arith
length-rstrip (c ∷ cs) = before c (rstrip cs) (length-rstrip cs)
  where
    before :
        (d : Char) (es : List Char)
        → length es ≤ length cs
        → length (before_rest d es) ≤ suc (length cs)
    before d [] h = ground arith
    before d (e ∷ es) h = omega arith

-- LRM and RLM, the embeddings and overrides with their end, and the isolates with theirs.
abbrev pub direction_marks : List ℕ
direction_marks =
    0x200e ∷ 0x200f ∷ 0x202a ∷ 0x202b ∷ 0x202c ∷ 0x202d ∷ 0x202e ∷ 0x2066 ∷ 0x2067 ∷ 0x2068 ∷ 0x2069
    ∷ []

-- A character that neither breaks a line nor turns the direction of the text.
pub record IsVisible (c : Char) : Type 0 where
  pub printable : ltb (code c) 0x20 ≡ false
  pub not_delete : (code c == 0x7f) ≡ false
  pub undirected : has (code c) direction_marks ≡ false
  pub one_line : (is_space c && not (code c == 0x20)) ≡ false

space-IsVisible : IsVisible " "
space-IsVisible = record { printable = refl; not_delete = refl; undirected = refl; one_line = refl }

ellipsis-IsVisible : IsVisible "…"
ellipsis-IsVisible = record {
  printable = refl;
  not_delete = refl;
  undirected = refl;
  one_line = refl;
}

blanked-IsVisible : (cs : List Char) → All (λ c. is_space c ≡ false → IsVisible c) (map blanked cs)
blanked-IsVisible [] = tt
blanked-IsVisible (c ∷ cs) = (one, blanked-IsVisible cs)
  where
    one : is_space (blanked c) ≡ false → IsVisible (blanked c)
    one visible = elim (Bool-cases (is_unsafe_char c)) [
      | inl e ↦ cc (sym (ap (λ b. is_space (if b then " " else c)) e) ∙ visible)
      | inr e ↦
          let same : blanked c ≡ c = ap (λ b. if b then " " else c) e in
          let seen : is_space c ≡ false = sym (ap is_space same) ∙ visible in
          subst IsVisible (sym same) (record {
            printable = ground (arith, e);
            not_delete = ground (arith, e);
            undirected = ground (arith, e);
            one_line = rw seen refl;
          })
    ]

length-snoc : (cs : List Char) (c : Char) → length (cs ++ c ∷ []) ≡ length cs + 1
length-snoc [] c = refl
length-snoc (d ∷ cs) c = omega (arith, length-snoc cs c)

-- For `max_len` from 1 on, `clean_text` returns one line of at most `max_len` characters: none is below
-- U+0020 or is U+007F, none is one of the eleven marks of direction in `direction_marks` (those of Unicode
-- but U+061C), and no white space is left but the space.
pub clean_text-IsVisible :
    (text : String) (max_len : ℕ)
    → 1 ≤ max_len
    → (length (chars (clean_text text max_len)) ≤ max_len)
      × All IsVisible (chars (clean_text text max_len))
unfolding clean_text clean_chars
clean_text-IsVisible text max_len positive =
    subst (λ cs. (length cs ≤ max_len) × All IsVisible cs)
      (sym (chars-from_chars (clean_chars (chars text) max_len)))
      (elim (Bool-cases (ltb max_len (length cleaned))) [
        | inl e ↦
            rw e
              (cut_length, All-append IsVisible cut ("…" ∷ []) cut_plain (ellipsis-IsVisible, tt))
        | inr e ↦ rw e (ground (arith, e), plain)
      ])
  where
    cleaned : List Char
    cleaned = collapse false false (map blanked (chars text))

    plain : All IsVisible cleaned
    plain =
        All-collapse IsVisible false false (map blanked (chars text)) space-IsVisible
          (blanked-IsVisible (chars text))

    cut : List Char
    cut = rstrip (take (kept_length max_len cleaned) cleaned)

    cut_plain : All IsVisible cut
    cut_plain =
        All-rstrip IsVisible _ (All-take IsVisible (kept_length max_len cleaned) cleaned plain)

    cut_length : length (cut ++ "…" ∷ []) ≤ max_len
    cut_length =
        let kept : kept_length max_len cleaned ≡ max_len - 1 = ground (arith, positive) in
        omega (
          arith,
          length-snoc cut "…",
          length-rstrip (take (kept_length max_len cleaned) cleaned),
          length-take-le (kept_length max_len cleaned) cleaned,
          kept,
          positive,
        )
