-- ===== src/Domains.antt =====
-- src/heron/analysis/domains.py. The sets of suffixes are lists, in the order of the source.
pub mod Organisations
pub mod Registered
pub mod Tests
use heron_mail.Prelude.{
  Bool, List, String, [], drop, if◌then◌else◌, leb, length, ltb, ℕ, ◌&&◌, ◌++◌, ◌-◌, ◌∷◌,
}
use heron_mail.Email.{domain}
use heron_mail.Strings.{Unicode, same_char, split, strip_of}
use heron_mail.Text.{has_text, join}

abbrev pub multi_label_suffixes : List String
multi_label_suffixes =
    "co.uk" ∷ "org.uk" ∷ "ac.uk" ∷ "gov.uk" ∷ "me.uk" ∷ "ltd.uk" ∷ "plc.uk" ∷ "com.au" ∷ "net.au"
    ∷ "org.au" ∷ "edu.au" ∷ "gov.au" ∷ "co.nz" ∷ "org.nz" ∷ "net.nz" ∷ "govt.nz" ∷ "co.jp" ∷ "ne.jp"
    ∷ "or.jp" ∷ "ac.jp" ∷ "go.jp" ∷ "co.kr" ∷ "or.kr" ∷ "go.kr" ∷ "co.in" ∷ "net.in" ∷ "org.in"
    ∷ "ac.in" ∷ "gov.in" ∷ "co.za" ∷ "org.za" ∷ "co.il" ∷ "org.il" ∷ "com.br" ∷ "net.br" ∷ "org.br"
    ∷ "gov.br" ∷ "com.cn" ∷ "net.cn" ∷ "org.cn" ∷ "gov.cn" ∷ "com.hk" ∷ "com.tw" ∷ "com.sg"
    ∷ "com.my" ∷ "com.mx" ∷ "com.ar" ∷ "com.co" ∷ "com.pe" ∷ "com.tr" ∷ "com.ua" ∷ "com.pl"
    ∷ "com.ng" ∷ "com.eg" ∷ "com.sa" ∷ "com.pk" ∷ "com.ph" ∷ "com.vn" ∷ "co.id" ∷ "co.th" ∷ []

abbrev pub hosting_suffixes : List String
hosting_suffixes =
    "github.io" ∷ "gitlab.io" ∷ "pages.dev" ∷ "workers.dev" ∷ "netlify.app" ∷ "vercel.app"
    ∷ "web.app" ∷ "firebaseapp.com" ∷ "herokuapp.com" ∷ "blogspot.com" ∷ "wordpress.com"
    ∷ "azurewebsites.net" ∷ "cloudfront.net" ∷ "appspot.com" ∷ "onrender.com" ∷ "glitch.me"
    ∷ "weebly.com" ∷ "wixsite.com" ∷ "sites.google.com" ∷ "s3.amazonaws.com" ∷ []

unfoldable pub suffixes : List String
suffixes = multi_label_suffixes ++ hosting_suffixes

unfoldable pub freemail_domains : List String
freemail_domains =
    "gmail.com" ∷ "googlemail.com" ∷ "yahoo.com" ∷ "yahoo.co.uk" ∷ "yahoo.co.in" ∷ "ymail.com"
    ∷ "outlook.com" ∷ "hotmail.com" ∷ "hotmail.co.uk" ∷ "live.com" ∷ "msn.com" ∷ "aol.com"
    ∷ "icloud.com" ∷ "me.com" ∷ "mac.com" ∷ "proton.me" ∷ "protonmail.com" ∷ "pm.me" ∷ "gmx.com"
    ∷ "gmx.net" ∷ "gmx.de" ∷ "mail.com" ∷ "zoho.com" ∷ "yandex.com" ∷ "yandex.ru" ∷ "mail.ru"
    ∷ "qq.com" ∷ "163.com" ∷ "126.com" ∷ "tutanota.com" ∷ "tuta.com" ∷ []

-- labels[-n:]
abbrev pub last_n {ℓ} : {A : Type ℓ} → ℕ → List A → List A
last_n n xs = drop (length xs - n) xs

-- `size < len(labels) and ".".join(labels[-size:]) in _SUFFIXES`
unfoldable pub is_suffix_of_size : ℕ → List String → Bool
is_suffix_of_size size labels =
    ltb size (length labels) && has_text (join "." (last_n size labels)) suffixes

-- The loop over the sizes of a suffix, the longest first: the labels that are joined.
unfoldable pub organisation : List String → List String
unfolding is_suffix_of_size
organisation labels =
    if leb (length labels) 2
    then labels
    else if is_suffix_of_size 3 labels
    then last_n 4 labels
    else if is_suffix_of_size 2 labels
    then last_n 3 labels
    else last_n 2 labels

module _ (unicode : Unicode) where
  -- `domain.lower().strip(".")`
  unfoldable pub bare_domain : String → String
  unfolding strip_of
  bare_domain domain = strip_of (same_char ".") (unicode.lower domain)

  unfoldable pub registered_domain : String → String
  unfolding organisation split bare_domain
  registered_domain domain = join "." (organisation (split "." (bare_domain domain)))

  unfoldable pub is_freemail : String → Bool
  unfolding bare_domain freemail_domains
  is_freemail domain = has_text (bare_domain domain) freemail_domains
