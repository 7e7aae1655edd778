-- ===== src/Pages/Tests.antt =====
-- The pages on concrete data, and the theorems there.
use heron_mail.Prelude.{List, [], none, refl, some, ◌∷◌, ◌≡◌}
use heron_mail.Pages.{JobReply, check_range}
use heron_mail.Text.{decimal}

long_range :
    check_range 100 140 200
    ≡ record { errors = []; warnings = "41 days is a lot of mail. This can take a long time." ∷ [] }
unfolding check_range decimal
long_range = refl

abbrev replies : List JobReply
replies =
    record { id = 1; status = some "done"; error = none }
    ∷ record { id = 2; status = some "failed"; error = some "login failed" }
    ∷ record { id = 3; status = none; error = none }
    ∷ []
