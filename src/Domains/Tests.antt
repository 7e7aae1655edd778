-- ===== src/Domains/Tests.antt =====
-- Domains and their organisations.
use heron_mail.Prelude.{drop, refl, ℕ, ◌≡◌}
use heron_mail.Domains.{bare_domain, registered_domain, suffixes}
use heron_mail.Domains.Registered.{registered_domain_lem}
use heron_mail.Strings.{is_empty, split}
use heron_mail.Strings.Ascii.{ascii}

same_company : registered_domain ascii "News.Example.CO.UK." ≡ "example.co.uk"
unfolding registered_domain suffixes
same_company = refl

hosted_page : registered_domain ascii "evil.pages.dev" ≡ "evil.pages.dev"
unfolding registered_domain suffixes
hosted_page = refl

bucket : registered_domain ascii "a.b.s3.amazonaws.com" ≡ "b.s3.amazonaws.com"
unfolding registered_domain suffixes
bucket = refl

registered_domain_lem_example :
    ((k : ℕ) × (split "." (registered_domain ascii "News.Example.CO.UK.")
        ≡ drop k (split "." (bare_domain ascii "News.Example.CO.UK."))))
    × (registered_domain ascii (registered_domain ascii "News.Example.CO.UK.")
        ≡ registered_domain ascii "News.Example.CO.UK.")
unfolding registered_domain suffixes is_empty
registered_domain_lem_example =
    registered_domain_lem ascii "News.Example.CO.UK." (refl, (refl, (refl, (refl, tt)))) refl
