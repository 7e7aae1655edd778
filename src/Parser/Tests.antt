-- ===== src/Parser/Tests.antt =====
-- Cleaning concrete names and addresses, src/heron/analysis/parser.py.
use heron_mail.Prelude.{[], false, none, refl, some, ◌∷◌, ◌≡◌}
use heron_mail.Parser.{clean_filename, join_capped, lower_domain}
use heron_mail.Strings.Ascii.{ascii}

drops_directory : clean_filename (some "..\\a/b\u{7f}.exe ") ≡ some "b.exe"
unfolding clean_filename
drops_directory = refl

nothing_left : clean_filename (some "a/ ") ≡ none
unfolding clean_filename
nothing_left = refl

lowers_domain : lower_domain ascii "A@B@Evil.ORG" ≡ "A@B@evil.org"
unfolding lower_domain
lowers_domain = refl

joins_parts : join_capped ("a" ∷ "b" ∷ []) ≡ ("a\nb", false)
unfolding join_capped
joins_parts = refl
