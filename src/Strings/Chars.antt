-- ===== src/Strings/Chars.antt =====
-- The characters of a text, and the text of some characters.
use Prim.Native.Char.{Char}
use Prim.Native.String.{◌++◌ as str_append}
use text.Mathlib.TextLemmas.{cons-append, nil-append}
use heron_mail.Prelude.{
  All, Bool, List, String, [], any, any-append, ap, ap₂, false, refl, ◌++◌, ◌||◌, ◌∙◌, ◌∷◌, ◌≡◌,
}
use heron_mail.Text.{chars, concat, from_chars}

pub chars-append : (s t : String) → chars (str_append s t) ≡ chars s ++ chars t
chars-append String.[] t = ap chars (nil-append t)
chars-append (String.◌∷◌ c s) t = ap chars (cons-append c s t) ∙ ap (λ l. c ∷ l) (chars-append s t)

pub any-concat :
    (p : Char → Bool) (ss : List String)
    → All (λ s. any p (chars s) ≡ false) ss
    → any p (chars (concat ss)) ≡ false
any-concat p [] h = refl
any-concat p (s ∷ ss) h =
    ap (any p) (chars-append s (concat ss))
    ∙ any-append p (chars s) (chars (concat ss))
    ∙ ap₂ (λ a b. a || b) h.0 (any-concat p ss h.1)

pub chars-from_chars : (cs : List Char) → chars (from_chars cs) ≡ cs
chars-from_chars [] = refl
chars-from_chars (c ∷ cs) = ap (λ l. c ∷ l) (chars-from_chars cs)

pub from_chars-chars : (s : String) → from_chars (chars s) ≡ s
from_chars-chars String.[] = refl
from_chars-chars (String.◌∷◌ c s) = ap (λ t. String.◌∷◌ c t) (from_chars-chars s)
