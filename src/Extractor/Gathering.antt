-- ===== src/Extractor/Gathering.antt =====
-- The dictionaries that `extract_iocs` of src/heron/analysis/extractor.py fills.
use heron_mail.Prelude.{
  Bool, List, String, [], any, if◌then◌else◌, length, ltb, map, str_eq, take, update, ◌++◌, ◌∷◌,
}
use heron_mail.Email.{ExtractedDomain}
use heron_mail.Extractor.Urls.{max_per_kind}

-- `_Sources.add`: a set of labels in the order of their insertion.
abbrev pub add_source : String → List String → List String
add_source label sources = if any (str_eq label) sources then sources else sources ++ label ∷ []

-- An entry of a dictionary of `_Sources`.
pub record Noted : Type 0 where
  pub key : String
  pub sources : List String

abbrev pub has_key : String → Noted → Bool
has_key key n = str_eq key n.key

abbrev pub add_to : String → Noted → Noted
add_to source n = record n { sources = add_source source n.sources }

unfoldable pub note : List Noted → String → String → List Noted
note bucket key source =
    if any (has_key key) bucket
    then update (has_key key) (add_to source) bucket
    else if ltb max_per_kind (length bucket)
    then bucket
    else bucket ++ record { key = key; sources = source ∷ [] } ∷ []

-- Any sequence of calls of `_note` on one bucket, each with a key and a source. Which calls a message gives
-- rise to is not modelled.
unfoldable pub note_all : List (String × String) → List Noted → List Noted
unfolding note
note_all [] bucket = bucket
note_all ((key, source) ∷ rest) bucket = note_all rest (note bucket key source)

-- `list(domains.items())[:MAX_PER_KIND]`
unfoldable pub build_domains : List Noted → List ExtractedDomain
build_domains bucket =
    map (λ (n : Noted). record { domain = n.key; sources = n.sources }) (take max_per_kind bucket)

-- `len(bucket) > MAX_PER_KIND`
abbrev pub is_truncated : List Noted → Bool
is_truncated bucket = ltb max_per_kind (length bucket)
