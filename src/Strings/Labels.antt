-- ===== src/Strings/Labels.antt =====
-- Labels joined by dots, and a text cut at its dots.
use Prim.Native.Char.{Char}
use Prim.Native.String.{◌++◌ as str_append}
use heron_mail.Prelude.{
  All, All-mono, Bool, Bool-cases, List, String, [], any, ap, ap₂, arith, false, inl, inr, map,
  refl, subst, sym, true, ◌++◌, ◌∙◌, ◌∷◌, ◌≡◌,
}
use heron_mail.Strings.{
  cut, is_empty, keep_before, onto_first, same_char, split, strip_left, strip_of, strip_right,
}
use heron_mail.Strings.Chars.{chars-append, chars-from_chars, from_chars-chars}
use heron_mail.Text.{chars, from_chars, join}

abbrev pub is_dot : Char → Bool
is_dot = same_char "."

-- ".".join(words), in characters.
abbrev glue : List (List Char) → List Char
glue [] = []
glue (w ∷ []) = w
glue (w ∷ v ∷ ws) = w ++ "." ∷ glue (v ∷ ws)

abbrev pub HasNoDot : List Char → Type 0
HasNoDot w = any is_dot w ≡ false

-- A label: a character first, and no dot.
abbrev pub IsLabel : List Char → Type 0
IsLabel [] = true ≡ false
IsLabel (c ∷ cs) = HasNoDot (c ∷ cs)

IsLabel-HasNoDot : (w : List Char) → IsLabel w → HasNoDot w
IsLabel-HasNoDot [] h = refl
IsLabel-HasNoDot (c ∷ cs) h = h

chars-join : (ss : List String) → chars (join "." ss) ≡ glue (map chars ss)
chars-join [] = refl
chars-join (s ∷ []) = refl
chars-join (s ∷ t ∷ ss) =
    chars-append s (str_append "." (join "." (t ∷ ss)))
    ∙ ap (λ l. chars s ++ l)
        (chars-append "." (join "." (t ∷ ss)) ∙ ap (λ l. "." ∷ l) (chars-join (t ∷ ss)))

cut-append : (w cs : List Char) → HasNoDot w → cut is_dot (w ++ "." ∷ cs) ≡ w ∷ cut is_dot cs
unfolding cut
cut-append [] cs h = refl
cut-append (c ∷ w) cs h =
    let plain : is_dot c ≡ false = ground (arith, h) in
    let later : HasNoDot w = ground (arith, h) in
    rw plain (ap (onto_first c) (cut-append w cs later))

cut_plain : (w : List Char) → HasNoDot w → cut is_dot w ≡ w ∷ []
unfolding cut
cut_plain [] h = refl
cut_plain (c ∷ w) h =
    let plain : is_dot c ≡ false = ground (arith, h) in
    let later : HasNoDot w = ground (arith, h) in rw plain (ap (onto_first c) (cut_plain w later))

cut-glue :
    (w : List Char) (ws : List (List Char))
    → All HasNoDot (w ∷ ws)
    → cut is_dot (glue (w ∷ ws)) ≡ w ∷ ws
cut-glue w [] h = cut_plain w h.0
cut-glue w (v ∷ ws) h = cut-append w (glue (v ∷ ws)) h.0 ∙ ap (λ l. w ∷ l) (cut-glue v ws h.1)

cut-HasNoDot : (cs : List Char) → All HasNoDot (cut is_dot cs)
unfolding cut
cut-HasNoDot [] = (refl, tt)
cut-HasNoDot (c ∷ cs) = elim (Bool-cases (is_dot c)) [
  | inl e ↦ rw e (refl, cut-HasNoDot cs)
  | inr e ↦ rw e (onto (cut is_dot cs) e (cut-HasNoDot cs))
]
  where
    onto :
        (ws : List (List Char))
        → is_dot c ≡ false
        → All HasNoDot ws
        → All HasNoDot (onto_first c ws)
    onto [] e h = (rw e refl, tt)
    onto (w ∷ ws) e h = (rw e h.0, h.1)

strip_left-glue :
    (w : List Char) (ws : List (List Char))
    → IsLabel w
    → strip_left is_dot (glue (w ∷ ws)) ≡ glue (w ∷ ws)
unfolding strip_left
strip_left-glue [] ws h = cc
strip_left-glue (c ∷ w) [] h = let plain : is_dot c ≡ false = ground (arith, h) in rw plain refl
strip_left-glue (c ∷ w) (v ∷ ws) h =
    let plain : is_dot c ≡ false = ground (arith, h) in rw plain refl

strip_right_plain : (w : List Char) → HasNoDot w → strip_right is_dot w ≡ w
unfolding strip_right
strip_right_plain [] h = refl
strip_right_plain (c ∷ w) h =
    let plain : is_dot c ≡ false = ground (arith, h) in
    let later : HasNoDot w = ground (arith, h) in
    ap (keep_before is_dot c) (strip_right_plain w later) ∙ kept w plain
  where
    kept : (cs : List Char) → is_dot c ≡ false → keep_before is_dot c cs ≡ c ∷ cs
    kept [] e = rw e refl
    kept (d ∷ ds) e = refl

-- Nothing is stripped before a text that keeps its end.
strip_right-append :
    (w : List Char) (c : Char) (cs : List Char)
    → strip_right is_dot (c ∷ cs) ≡ c ∷ cs
    → strip_right is_dot (w ++ c ∷ cs) ≡ w ++ c ∷ cs
unfolding strip_right
strip_right-append [] c cs h = h
strip_right-append (d ∷ []) c cs h = ap (keep_before is_dot d) h
strip_right-append (d ∷ e ∷ w) c cs h =
    ap (keep_before is_dot d) (strip_right-append (e ∷ w) c cs h)

strip_right-glue :
    (w : List Char) (ws : List (List Char))
    → All IsLabel (w ∷ ws)
    → strip_right is_dot (glue (w ∷ ws)) ≡ glue (w ∷ ws)
unfolding strip_right
strip_right-glue w [] h = strip_right_plain w (IsLabel-HasNoDot w h.0)
strip_right-glue w ([] ∷ ws) h = let no = h.1.0 in cc
strip_right-glue w ((c ∷ v) ∷ []) h =
    strip_right-append w "." (c ∷ v) (ap (keep_before is_dot ".") (strip_right-glue (c ∷ v) [] h.1))
strip_right-glue w ((c ∷ v) ∷ u ∷ ws) h =
    strip_right-append w "." (glue ((c ∷ v) ∷ u ∷ ws))
      (ap (keep_before is_dot ".") (strip_right-glue (c ∷ v) (u ∷ ws) h.1))

-- Texts that are labels.
unfoldable pub AreLabels : List String → Type 0
AreLabels ss = All (λ s. IsLabel (chars s)) ss

All-chars :
    (P : List Char → Type 0) (ss : List String) → All (λ s. P (chars s)) ss → All P (map chars ss)
All-chars P [] h = tt
All-chars P (s ∷ ss) h = (h.0, All-chars P ss h.1)

map_back : (ss : List String) → map from_chars (map chars ss) ≡ ss
map_back [] = refl
map_back (s ∷ ss) = ap₂ (λ x l. x ∷ l) (from_chars-chars s) (map_back ss)

pub split-join :
    (s : String) (ss : List String) → AreLabels (s ∷ ss) → split "." (join "." (s ∷ ss)) ≡ s ∷ ss
unfolding split AreLabels
split-join s ss h =
    let labels = All-chars IsLabel (s ∷ ss) h in
    ap (λ l. map from_chars (cut is_dot l)) (chars-join (s ∷ ss))
    ∙ ap (map from_chars) (
        cut-glue (chars s) (map chars ss)
          (All-mono IsLabel HasNoDot (map chars (s ∷ ss)) IsLabel-HasNoDot labels))
    ∙ map_back (s ∷ ss)

pub strip_of-join :
    (s : String) (ss : List String)
    → AreLabels (s ∷ ss)
    → strip_of is_dot (join "." (s ∷ ss)) ≡ join "." (s ∷ ss)
unfolding strip_of AreLabels
strip_of-join s ss h =
    let labels = All-chars IsLabel (s ∷ ss) h in
    ap (λ l. from_chars (strip_right is_dot (strip_left is_dot l))) (chars-join (s ∷ ss))
    ∙ ap (λ l. from_chars (strip_right is_dot l))
        (strip_left-glue (chars s) (map chars ss) labels.0)
    ∙ ap from_chars (strip_right-glue (chars s) (map chars ss) labels)
    ∙ ap from_chars (sym (chars-join (s ∷ ss)))
    ∙ from_chars-chars (join "." (s ∷ ss))

-- The parts between the dots of a text are labels where none is empty.
pub split-AreLabels :
    (t : String) → All (λ s. is_empty s ≡ false) (split "." t) → AreLabels (split "." t)
unfolding split AreLabels is_empty
split-AreLabels t h = parts (cut is_dot (chars t)) (cut-HasNoDot (chars t)) h
  where
    parts :
        (ws : List (List Char))
        → All HasNoDot ws
        → All (λ s. is_empty s ≡ false) (map from_chars ws)
        → All (λ s. IsLabel (chars s)) (map from_chars ws)
    parts [] plain full = tt
    parts ([] ∷ ws) plain full = let no = full.0 in cc
    parts ((c ∷ w) ∷ ws) plain full =
        (subst HasNoDot (sym (chars-from_chars (c ∷ w))) plain.0, parts ws plain.1 full.1)
