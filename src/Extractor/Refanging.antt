-- ===== src/Extractor/Refanging.antt =====
-- Defanging and refanging undo one another, src/heron/analysis/extractor.py.
use Prim.Native.Char.{Char, code}
use text.Mathlib.TextEquality.{Char-path}
use heron_mail.Prelude.{
  ==_iff, Bool, Bool-cases, List, Option, String, [], any, ap, ap₂, arith, drop, false,
  if◌then◌else◌, inl, inr, length, none, refl, some, suc, true, zero, ℕ, ◌-◌, ◌||◌, ◌∙◌, ◌∷◌, ◌≡◌,
}
use heron_mail.Extractor.Defang.{
  colon_follows, defang_domain, dots_wrapped, is_masked_ftp, is_masked_http, refang, refang_chars,
  unmasked,
}
use heron_mail.Strings.{Unicode, begins, replace, same_char, substitute}
use heron_mail.Strings.Chars.{chars-from_chars, from_chars-chars}
use heron_mail.Text.{chars, from_chars}

any-begins :
    (p : Char → Bool) (old cs : List Char)
    → ((c d : Char) → same_char c d ≡ true → p c ≡ true → p d ≡ true)
    → begins old cs ≡ true
    → any p old ≡ true
    → any p cs ≡ true
unfolding begins
any-begins p [] cs same h a = cc
any-begins p (d ∷ ds) [] same h a = cc
any-begins p (d ∷ ds) (c ∷ cs) same h a = elim (Bool-cases (p d)) [
  | inl e ↦ ground (arith, same d c)
  | inr e ↦ ground (arith, any-begins p ds cs same)
]

any-drop : (p : Char → Bool) (n : ℕ) (cs : List Char) → any p (drop n cs) ≡ true → any p cs ≡ true
any-drop p zero cs h = h
any-drop p (suc n) [] h = h
any-drop p (suc n) (c ∷ cs) h = ground (arith, any-drop p n cs h)

-- A test that needs a character which the text lacks changes nothing.
substitute_absent :
    (test : Option Char → List Char → Bool) (extra : ℕ) (new : List Char) (p : Char → Bool)
    → ((before : Option Char) (cs : List Char) → test before cs ≡ true → any p cs ≡ true)
    → (before : Option Char) (cs : List Char) → any p cs ≡ false
    → substitute test extra new 0 before cs ≡ cs
unfolding substitute
substitute_absent test extra new p needs before [] h = refl
substitute_absent test extra new p needs before (c ∷ cs) h =
    elim (Bool-cases (test before (c ∷ cs))) [
      | inl e ↦ cc (needs before (c ∷ cs) e)
      | inr e ↦
          rw e
            (ap (λ l. c ∷ l) (substitute_absent test extra new p needs (some c) cs (ground arith)))
    ]

same_char_trans :
    (a c d : Char) → same_char c d ≡ true → same_char a c ≡ true → same_char a d ≡ true
same_char_trans a c d h k = ground arith

replace_absent :
    (d : Char) (old new cs : List Char)
    → any (same_char d) old ≡ true
    → any (same_char d) cs ≡ false
    → replace old new cs ≡ cs
unfolding replace
replace_absent d old new cs a h =
    substitute_absent (λ before rest. begins old rest) (length old - 1) new (same_char d)
      (λ before rest e. any-begins (same_char d) old rest (same_char_trans d) e a) none cs h

colon_inside : (cs : List Char) → colon_follows cs ≡ true → any (same_char ":") cs ≡ true
colon_inside cs h = elim (Bool-cases (begins (chars ":") cs)) [
  | inl e ↦ any-begins (same_char ":") (chars ":") cs (same_char_trans ":") e refl
  | inr e ↦ any-begins (same_char ":") (chars "[:") cs (same_char_trans ":") (ground arith) refl
]

module _ (unicode : Unicode) where
  colon_in_http :
      (before : Option Char) (cs : List Char)
      → is_masked_http unicode before cs ≡ true
      → any (same_char ":") cs ≡ true
  unfolding is_masked_http
  colon_in_http before cs h = elim (Bool-cases (colon_follows (drop 4 cs))) [
    | inl e ↦ any-drop (same_char ":") 4 cs (colon_inside (drop 4 cs) e)
    | inr e ↦ any-drop (same_char ":") 5 cs (colon_inside (drop 5 cs) (ground arith))
  ]

  colon_in_ftp :
      (before : Option Char) (cs : List Char)
      → is_masked_ftp unicode before cs ≡ true
      → any (same_char ":") cs ≡ true
  unfolding is_masked_ftp
  colon_in_ftp before cs h = any-drop (same_char ":") 3 cs (colon_inside (drop 3 cs) (ground arith))

  unmasked_plain : (cs : List Char) → any (same_char ":") cs ≡ false → unmasked unicode cs ≡ cs
  unfolding unmasked
  unmasked_plain cs h =
      ap (λ l. substitute (is_masked_ftp unicode) 2 (chars "ftp") 0 none l)
        (substitute_absent (is_masked_http unicode) 3 (chars "http") (same_char ":") colon_in_http
          none cs h)
      ∙ substitute_absent (is_masked_ftp unicode) 2 (chars "ftp") (same_char ":") colon_in_ftp none
          cs h

-- Every dot in brackets, without the loop of `str.replace`.
wrap : List Char → List Char
wrap [] = []
wrap (c ∷ cs) = let rest = wrap cs in if same_char "." c then "[" ∷ "." ∷ "]" ∷ rest else c ∷ rest

dots-wrap :
    (before : Option Char) (cs : List Char)
    → substitute (λ b rest. begins (chars ".") rest) 0 (chars "[.]") 0 before cs ≡ wrap cs
unfolding substitute begins wrap
dots-wrap before [] = refl
dots-wrap before (c ∷ cs) = elim (Bool-cases (same_char "." c)) [
  | inl e ↦ rw (e, dots-wrap (some c) cs)
  | inr e ↦ rw (e, dots-wrap (some c) cs)
]

any-wrap :
    (d : Char) (cs : List Char)
    → any (same_char d) (chars "[.]") ≡ false
    → any (same_char d) cs ≡ false
    → any (same_char d) (wrap cs) ≡ false
unfolding wrap
any-wrap d [] n h = refl
any-wrap d (c ∷ cs) n h = elim (Bool-cases (same_char "." c)) [
  | inl e ↦ rw e (ground (arith, any-wrap d cs n))
  | inr e ↦ rw e (ground (arith, any-wrap d cs n))
]

unwrap-wrap :
    (before : Option Char) (cs : List Char)
    → any (same_char "[") cs ≡ false
    → substitute (λ b rest. begins (chars "[.]") rest) 2 (chars ".") 0 before (wrap cs) ≡ cs
unfolding substitute begins wrap
unwrap-wrap before [] h = refl
unwrap-wrap before (c ∷ cs) h = elim (Bool-cases (same_char "." c)) [
  | inl e ↦ rw e (
      ap₂ (λ x l. x ∷ l) (Char-path "." c ((==_iff b'.' (code c)).0 e))
        (unwrap-wrap _ cs (ground arith)))
  | inr e ↦
      let k : same_char "[" c ≡ false = ground arith in
      rw (e, k, unwrap-wrap (some c) cs (ground arith))
]

any_weaker :
    (p q : Char → Bool)
    → ((c : Char) → p c ≡ true → q c ≡ true)
    → (cs : List Char) → any q cs ≡ false
    → any p cs ≡ false
any_weaker p q imp [] h = refl
any_weaker p q imp (c ∷ cs) h = ground (arith, imp c, any_weaker p q imp cs)

-- The characters that refanging reads as marks of a defanged text.
abbrev pub is_mark : Char → Bool
is_mark c = same_char "[" c || same_char "(" c || same_char "{" c || same_char ":" c

replace-dots : (cs : List Char) → replace (chars ".") (chars "[.]") cs ≡ wrap cs
unfolding replace
replace-dots cs = dots-wrap none cs

replace-wrap :
    (cs : List Char)
    → any (same_char "[") cs ≡ false
    → replace (chars "[.]") (chars ".") (wrap cs) ≡ cs
unfolding replace
replace-wrap cs h = unwrap-wrap none cs h

refang-wrap :
    (unicode : Unicode) (cs : List Char)
    → any is_mark cs ≡ false
    → refang_chars unicode (dots_wrapped cs) ≡ cs
unfolding refang_chars dots_wrapped
refang-wrap unicode cs h =
    let bracket : any (same_char "[") cs ≡ false =
      any_weaker (same_char "[") is_mark (λ c e. ground arith) cs h in
    let paren : any (same_char "(") cs ≡ false =
      any_weaker (same_char "(") is_mark (λ c e. ground arith) cs h in
    let brace : any (same_char "{") cs ≡ false =
      any_weaker (same_char "{") is_mark (λ c e. ground arith) cs h in
    let colon : any (same_char ":") cs ≡ false =
      any_weaker (same_char ":") is_mark (λ c e. ground arith) cs h in
    let no_colon : any (same_char ":") (wrap cs) ≡ false = any-wrap ":" cs refl colon in
    rw (
      replace-dots cs,
      unmasked_plain unicode (wrap cs) no_colon,
      replace_absent ":" (chars "[://]") (chars "://") (wrap cs) refl no_colon,
      replace_absent ":" (chars "[:]") (chars ":") (wrap cs) refl no_colon,
      replace-wrap cs bracket,
      replace_absent "(" (chars "(.)") (chars ".") cs refl paren,
      replace_absent "{" (chars "{.}") (chars ".") cs refl brace,
      replace_absent "[" (chars "[@]") (chars "@") cs refl bracket,
      replace_absent "[" (chars "[at]") (chars "@") cs refl bracket,
    )

-- Refanging gives back a domain that was defanged, where the domain has none of the characters that
-- mark a defanged text.
pub refang-defang_domain :
    (unicode : Unicode) (d : String)
    → any is_mark (chars d) ≡ false
    → refang unicode (defang_domain d) ≡ d
unfolding refang defang_domain
refang-defang_domain unicode d h =
    ap (λ cs. from_chars (refang_chars unicode cs)) (chars-from_chars (dots_wrapped (chars d)))
    ∙ ap from_chars (refang-wrap unicode (chars d) h)
    ∙ from_chars-chars d
