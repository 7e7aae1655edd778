-- ===== src/Rules/Authentication/Headers.antt =====
-- src/heron/rules/authentication.py: reading the headers.
use Prim.Native.Char.{Char}
use mathlib.Core.List.{head?}
use heron_mail.Prelude.{
  Bool, List, Option, String, [], any, drop, if◌then◌else◌, is_some, length, ltb, none, not, some,
  take, ◌&&◌, ◌||◌, ◌∷◌,
}
use heron_mail.Email.{ParsedEmail, header_values}
use heron_mail.Rules.{Finding, RuleContext}
use heron_mail.Rules.Authentication.{
  AuthOutcome, AuthResults, add_result, best, judge, results_of, spf_words, tokens,
  without_comments,
}
use heron_mail.Strings.{
  Unicode, begins_any_case, cut, from_first, is_ascii_letter, same_char, strip_left, until,
}
use heron_mail.Text.{chars, from_chars, is_space}

module _ (unicode : Unicode) where
  abbrev pub is_method_char : Char → Bool
  is_method_char c = unicode.is_word c || same_char "-" c

  -- What follows the method: `\s*=\s*([A-Za-z]+)`.
  unfoldable pub read_result : List Char → List Char → Option (String × String)
  unfolding strip_left until
  read_result method cs = elim (strip_left is_space cs) [
    | [] ↦ none
    | e ∷ after ↦
        let result = until (λ c. not (is_ascii_letter c)) (strip_left is_space after) in
        if same_char "=" e && ltb 0 (length result)
        then some (unicode.lower (from_chars method), unicode.lower (from_chars result))
        else none
  ]

  -- `_RESULT_RE.match(segment)`, both groups lowercased
  unfoldable pub match_result : List Char → Option (String × String)
  unfolding strip_left until from_first read_result
  match_result segment = elim (strip_left is_space segment) [
    | [] ↦ none
    | c ∷ cs ↦
        if is_ascii_letter c
        then read_result (c ∷ until (λ d. not (is_method_char d)) cs)
            (from_first (λ d. not (is_method_char d)) cs)
        else none
  ]

  -- The body of the loop over the segments.
  abbrev pub note_result :
      Option (String × String) → List (String × List String) → List (String × List String)
  note_result none results = results
  note_result (some (method, result)) results = add_result method result results

  unfoldable pub read_segments :
      List (List Char) → List (String × List String) → List (String × List String)
  unfolding match_result add_result
  read_segments [] results = results
  read_segments (s ∷ rest) results = read_segments rest (note_result (match_result s) results)

  -- `tokens[0].lower() if tokens else None`
  abbrev pub first_token : List (List Char) → Option String
  first_token [] = none
  first_token (w ∷ ws) = some (unicode.lower (from_chars w))

  abbrev pub parse_segments : List (List Char) → AuthResults
  parse_segments [] = record { authserv = none; results = [] }
  parse_segments (first ∷ segments) = record {
    authserv = first_token (tokens first);
    results = read_segments segments [];
  }

  unfoldable pub parse_authentication_results : String → AuthResults
  unfolding without_comments cut tokens read_segments
  parse_authentication_results value =
      let cleaned = without_comments (without_comments (without_comments (chars value))) in
      parse_segments (cut (same_char ";") cleaned)

  -- The first word of the list that stands at the start, in any case, and that no word character
  -- follows; lowercased.
  unfoldable pub match_word : List String → List Char → Option String
  unfolding begins_any_case
  match_word [] cs = none
  match_word (w ∷ ws) cs =
      let rest = match_word ws cs in
      let n = length (chars w) in
      if begins_any_case (chars w) cs && not (any unicode.is_word (take 1 (drop n cs)))
      then some (unicode.lower (from_chars (take n cs)))
      else rest

  -- `_RECEIVED_SPF_RE.match(value)`
  unfoldable pub match_received_spf : String → Option String
  unfolding strip_left match_word
  match_received_spf value = match_word spf_words (strip_left is_space (chars value))

  -- The loop over `email.header_values("Received-SPF")[:1]`.
  abbrev pub received_spf : Option String → Option String
  received_spf none = none
  received_spf (some value) = match_received_spf value

  -- `parse_authentication_results(headers[0]) if headers else (None, {})`
  unfoldable pub topmost : Option String → AuthResults
  unfolding parse_authentication_results
  topmost none = record { authserv = none; results = [] }
  topmost (some value) = parse_authentication_results value

  abbrev pub or_else {ℓ} : {A : Type ℓ} → Option A → Option A → Option A
  or_else none y = y
  or_else (some x) y = some x

  -- The results of the first Authentication-Results and the first Received-SPF header.
  unfoldable pub outcome_of : Option String → Option String → AuthOutcome
  unfolding topmost best results_of match_received_spf
  outcome_of header spf_header =
      let parsed = topmost header in
      record {
        has_header = is_some header;
        authserv = parsed.authserv;
        spf = or_else (best (results_of "spf" parsed.results)) (received_spf spf_header);
        dkim = best (results_of "dkim" parsed.results);
        dmarc = best (results_of "dmarc" parsed.results);
      }

  unfoldable pub outcome : ParsedEmail → AuthOutcome
  unfolding header_values outcome_of
  outcome email =
      outcome_of (head? (header_values unicode "Authentication-Results" email))
        (head? (header_values unicode "Received-SPF" email))

  unfoldable pub check_authentication : RuleContext → List Finding
  unfolding outcome judge
  check_authentication ctx = judge (outcome ctx.email)
