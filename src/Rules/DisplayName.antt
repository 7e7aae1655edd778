-- ===== src/Rules/DisplayName.antt =====
-- src/heron/rules/display_name.py: a sender's name that claims another identity than its address has.
use Prim.Native.Char.{Char}
use heron_mail.Prelude.{
  Bool, List, Option, String, [], any, drop, if◌then◌else◌, length, ltb, map, none, not, select,
  some, str_eq, ℕ, ◌&&◌, ◌++◌, ◌+◌, ◌==◌, ◌||◌, ◌∷◌,
}
use heron_mail.Result.{Result, ok, ◌>>=◌}
use heron_mail.Domains.{registered_domain}
use heron_mail.Email.{Address, domain, from_address}
use heron_mail.Rules.{Finding, RuleContext, high, medium}
use heron_mail.Strings.{
  Unicode, begins, cut, find_matches, from_first, is_ascii_letter, is_ascii_lower, is_digit,
  is_empty, same_char, until,
}
use heron_mail.Text.{chars, concat, from_chars, has_text}
use heron_mail.WebAddress.{web_addresses, with_scheme}

pub record Brand : Type 0 where
  pub word : String
  pub owned : List String

-- `BRAND_DOMAINS`
unfoldable pub brand_domains : List Brand
brand_domains =
    record {
      word = "microsoft";
      owned =
          "microsoft.com" ∷ "microsoftonline.com" ∷ "office.com" ∷ "office365.com" ∷ "live.com"
          ∷ "outlook.com" ∷ "windows.com" ∷ "azure.com" ∷ "xbox.com" ∷ "skype.com" ∷ [];
    }
    ∷ record {
      word = "google";
      owned = "google.com" ∷ "gmail.com" ∷ "googlemail.com" ∷ "youtube.com" ∷ [];
    }
    ∷ record { word = "apple"; owned = "apple.com" ∷ "icloud.com" ∷ "me.com" ∷ [] }
    ∷ record {
      word = "amazon";
      owned =
          "amazon.com" ∷ "amazon.in" ∷ "amazon.co.uk" ∷ "amazon.de" ∷ "amazon.ca" ∷ "amazon.fr"
          ∷ "amazon.es" ∷ "amazon.it" ∷ "amazon.co.jp" ∷ [];
    }
    ∷ record { word = "paypal"; owned = "paypal.com" ∷ [] }
    ∷ record { word = "netflix"; owned = "netflix.com" ∷ [] }
    ∷ record { word = "dhl"; owned = "dhl.com" ∷ "dhl.de" ∷ [] }
    ∷ record { word = "fedex"; owned = "fedex.com" ∷ [] }
    ∷ record { word = "docusign"; owned = "docusign.com" ∷ "docusign.net" ∷ [] }
    ∷ record { word = "linkedin"; owned = "linkedin.com" ∷ [] }
    ∷ record { word = "facebook"; owned = "facebook.com" ∷ "facebookmail.com" ∷ "meta.com" ∷ [] }
    ∷ record { word = "instagram"; owned = "instagram.com" ∷ [] }
    ∷ record { word = "dropbox"; owned = "dropbox.com" ∷ "dropboxmail.com" ∷ [] }
    ∷ record { word = "adobe"; owned = "adobe.com" ∷ "adobesign.com" ∷ "echosign.com" ∷ [] }
    ∷ record { word = "zoom"; owned = "zoom.us" ∷ "zoom.com" ∷ [] }
    ∷ record { word = "github"; owned = "github.com" ∷ [] }
    ∷ record { word = "slack"; owned = "slack.com" ∷ [] }
    ∷ record { word = "whatsapp"; owned = "whatsapp.com" ∷ [] }
    ∷ []

-- `[A-Za-z0-9._%+-]`
abbrev pub is_local_char : Char → Bool
is_local_char c =
    is_ascii_letter c
    || is_digit c
    || same_char "." c
    || same_char "_" c
    || same_char "%" c
    || same_char "+" c
    || same_char "-" c

-- `[A-Za-z0-9-]`
abbrev pub is_label_char : Char → Bool
is_label_char c = is_ascii_letter c || is_digit c || same_char "-" c

-- The length of the longest start of the labels, joined by dots, that ends in a dot and at least two
-- letters after a label, or 0. `read` is the length of the labels and dots before.
unfoldable pub domain_size : ℕ → List (List Char) → ℕ
unfolding until
domain_size read [] = 0
domain_size read (w ∷ ws) =
    let letters = length (until (λ c. not (is_ascii_letter c)) w) in
    let later = domain_size (read + length w + 1) ws in
    if length w == 0
    then 0
    else if later == 0 && ltb 0 read && ltb 1 letters
    then read + letters
    else later

-- The length of the domain that `_ADDRESS_RE` finds after "@", or 0.
unfoldable pub domain_at : List Char → ℕ
unfolding domain_size cut until
domain_at cs =
    domain_size 0 (cut (same_char ".") (until (λ c. not (is_label_char c || same_char "." c)) cs))

-- The length of the match of `_ADDRESS_RE` at the start, or 0.
unfoldable pub address_size : List Char → ℕ
unfolding until from_first domain_at
address_size cs =
    let name = length (until (λ c. not (is_local_char c)) cs) in
    let rest = drop name cs in
    let size = domain_at (drop 1 rest) in
    if ltb 0 name && begins (chars "@") rest && ltb 0 size then name + 1 + size else 0

-- `match.group(1)` of a match: what follows its "@".
abbrev pub domain_group : List Char → String
domain_group cs = from_chars (drop 1 (from_first (same_char "@") cs))

-- `word == brand or re.fullmatch(rf"{brand}\d+", word)`, for a word of `[a-z0-9]+`
unfoldable pub uses_brand : List Char → List Char → Bool
unfolding begins
uses_brand brand word =
    let rest = drop (length brand) word in
    begins brand word && not (any (λ c. not (is_digit c)) rest)

-- `re.findall(r"[a-z0-9]+", text)`
unfoldable pub name_words : List Char → List (List Char)
unfolding cut
name_words cs = select (λ w. ltb 0 (length w)) (cut (λ c. not (is_ascii_lower c || is_digit c)) cs)

abbrev pub name_evidence : Address → List String
name_evidence sender =
    concat ("display name: " ∷ sender.display_name ∷ [])
    ∷ concat ("actual sender: " ∷ sender.address ∷ [])
    ∷ []

abbrev pub address_mismatch : Address → Finding
address_mismatch sender = record {
  rule_id = "display_name.address_mismatch";
  severity = high;
  title = "Sender name shows a different address";
  detail =
      "The name displayed as the sender contains an address on another domain than the one this message was actually sent from.";
  evidence = name_evidence sender;
}

-- `if host: domains.append(host)`
unfoldable pub keep_host : Option String → List String → List String
unfolding is_empty
keep_host none rest = rest
keep_host (some host) rest = if is_empty host then rest else host ∷ rest

module _ (unicode : Unicode) where
  unfoldable pub brand_finding : Address → String → Finding
  brand_finding sender brand = record {
    rule_id = "display_name.brand";
    severity = medium;
    title = concat ("Sender name uses the " ∷ unicode.title brand ∷ " brand" ∷ []);
    detail = concat (
        "The sender's name mentions "
        ∷ unicode.title brand
        ∷ ", but the message was sent from a domain that brand does not use."
        ∷ []);
    evidence = name_evidence sender;
  }

  -- The loop over the brands, which ends at the first finding.
  unfoldable pub brand_findings : Address → String → List (List Char) → List Brand → List Finding
  unfolding uses_brand brand_finding
  brand_findings sender org words [] = []
  brand_findings sender org words (b ∷ brands) =
      let rest = brand_findings sender org words brands in
      if any (uses_brand (chars b.word)) words && not (has_text org b.owned)
      then brand_finding sender b.word ∷ []
      else rest

  -- Truth of `foreign`.
  unfoldable pub claims_foreign : String → List String → Bool
  unfolding registered_domain
  claims_foreign org domains = any (λ d. not (str_eq (registered_domain unicode d) org)) domains

  unfoldable pub name_findings : Address → List String → List Finding
  unfolding registered_domain domain claims_foreign brand_findings name_words brand_domains
  name_findings sender claimed =
      let org = registered_domain unicode (domain sender) in
      (if claims_foreign org claimed then address_mismatch sender ∷ [] else [])
      ++ brand_findings sender org (name_words (chars (unicode.lower sender.display_name)))
          brand_domains

module _ (unicode : Unicode) (hostname : String → Result (Option String)) where
  -- The loop over the web addresses in the name.
  unfoldable pub web_hosts : List String → Result (List String)
  unfolding with_scheme keep_host
  web_hosts [] = ok []
  web_hosts (raw ∷ rest) =
      hostname (with_scheme raw) >>= λ host. web_hosts rest >>= λ hosts. ok (keep_host host hosts)

  unfoldable pub claimed_domains : String → Result (List String)
  unfolding address_size find_matches web_addresses web_hosts from_first
  claimed_domains name =
      let addresses =
        map (λ cs. unicode.lower (domain_group cs))
          (find_matches (λ before cs. address_size cs) (chars name)) in
      web_hosts (web_addresses name) >>= λ hosts. ok (addresses ++ hosts)

  -- `check` of a sender.
  unfoldable pub check_sender : Address → Result (List Finding)
  unfolding domain is_empty claimed_domains name_findings
  check_sender sender =
      if is_empty (domain sender) || is_empty sender.display_name
      then ok []
      else (claimed_domains sender.display_name >>= λ claimed.
          ok (name_findings unicode sender claimed))

  unfoldable pub check_display_name : RuleContext → Result (List Finding)
  unfolding from_address check_sender
  check_display_name ctx = elim (from_address ctx.email) [
    | none ↦ ok []
    | some sender ↦ check_sender sender
  ]
