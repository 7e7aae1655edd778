-- ===== src/Safe/Tests.antt =====
-- Showing concrete texts, src/heron/ui/safe.py.
use heron_mail.Prelude.{All, arith, false, length, refl, some, ◌≡◌, ◌≤◌}
use heron_mail.Safe.{clean_text, is_special, md_safe}
use heron_mail.Safe.Escapes.{literal, literal-md_safe}
use heron_mail.Safe.Plain.{IsVisible, clean_text-IsVisible}
use heron_mail.Text.{chars}

cleans_lines : clean_text "a\tb\n\n c " 200 ≡ "a b c"
unfolding clean_text
cleans_lines = refl

cuts_text : clean_text "abcdef" 4 ≡ "abc…"
unfolding clean_text
cuts_text = refl

escapes_image : md_safe "![x](a)" 200 ≡ "\\!\\[x\\]\\(a\\)"
unfolding md_safe is_special
escapes_image = refl

clean_text-IsVisible_example :
    (length (chars (clean_text "a\tbcdef" 4)) ≤ 4) × All IsVisible (chars (clean_text "a\tbcdef" 4))
clean_text-IsVisible_example = clean_text-IsVisible "a\tbcdef" 4 (omega arith)

literal-md_safe_example :
    literal false (chars (md_safe "![x](a)" 200)) ≡ some (chars (clean_text "![x](a)" 200))
literal-md_safe_example = literal-md_safe "![x](a)" 200
