-- ===== src/Extractor/Ipv4.antt =====
-- The addresses that a browser reads, `_parse_loose_ipv4` of src/heron/analysis/extractor.py.
use Prim.Native.Char.{Char, code}
use mathlib.Core.Option
use heron_mail.Prelude.{
  Bool, List, Option, String, [], any, if◌then◌else◌, is_some, leb, length, ltb, none, not, some, ℕ,
  ◌&&◌, ◌*◌, ◌+◌, ◌-◌, ◌^◌, ◌||◌, ◌∷◌,
}
use heron_mail.Result.{Error, Result, err, ok, traverse, value_error, ◌>>=◌}
use heron_mail.Strings.{cut, is_digit, is_empty, same_char}
use heron_mail.Text.{chars, concat, decimal}

-- The value of a hexadecimal digit, `none` for another character.
unfoldable pub hex_value : Char → Option ℕ
hex_value c =
    let n = code c in
    if is_digit c
    then some (n - b'0')
    else if leb b'a' n && leb n b'f'
    then some (n - b'a' + 10)
    else if leb b'A' n && leb n b'F'
    then some (n - b'A' + 10)
    else none

-- The number of the digits, or `none` if a character is no digit of the base. `so_far` is the number read
-- before.
unfoldable pub digits_value : ℕ → ℕ → List Char → Option ℕ
unfolding hex_value
digits_value base so_far [] = some so_far
digits_value base so_far (c ∷ cs) = elim (hex_value c) [
  | none ↦ none
  | some d ↦
      let rest = digits_value base (so_far * base + d) cs in if ltb d base then rest else none
]

abbrev pub is_x : Char → Bool
is_x c = same_char "x" c || same_char "X" c

abbrev pub too_long : ℕ → Error
too_long n = value_error (
    concat (
      "Exceeds the limit (4300 digits) for integer string conversion: value has "
      ∷ decimal n
      ∷ " digits; use sys.set_int_max_str_digits() to increase the limit"
      ∷ []))

-- `int(part)` for digits. Python raises ValueError for a decimal number of more than 4300 digits.
unfoldable pub read_decimal : List Char → Result (Option ℕ)
unfolding digits_value
read_decimal cs =
    if any (λ c. not (is_digit c)) cs
    then ok none
    else if ltb 4300 (length cs)
    then err (too_long (length cs))
    else ok (digits_value 10 0 cs)

unfoldable pub parse_ip_number : List Char → Result (Option ℕ)
unfolding digits_value read_decimal
parse_ip_number [] = ok none
parse_ip_number (c ∷ []) = read_decimal (c ∷ [])
parse_ip_number (c ∷ d ∷ rest) =
    if same_char "0" c && is_x d && is_some (digits_value 16 0 rest)
    then ok (digits_value 16 0 rest)
    else if same_char "0" c && is_some (digits_value 8 0 (d ∷ rest))
    then ok (digits_value 8 0 (d ∷ rest))
    else read_decimal (c ∷ d ∷ rest)

-- The numbers, `none` if one of them is None.
abbrev pub all_numbers : List (Option ℕ) → Option (List ℕ)
all_numbers [] = some []
all_numbers (none ∷ ns) = none
all_numbers (some n ∷ ns) = Option.map (λ l. n ∷ l) (all_numbers ns)

-- The address of the numbers: each but the last is one byte, from `256 ^ left` down, and the last one fills
-- the bytes that are left. `none` where a number is too large.
unfoldable pub address_of : ℕ → List ℕ → Option ℕ
address_of left [] = none
address_of left (n ∷ []) = if ltb n (256 ^ (left + 1)) then some n else none
address_of left (n ∷ m ∷ rest) = elim (address_of (left - 1) (m ∷ rest)) [
  | none ↦ none
  | some lower ↦ if ltb 255 n then none else some (n * 256 ^ left + lower)
]

unfoldable pub parse_loose_ipv4 : String → Result (Option ℕ)
unfolding parse_ip_number address_of cut
parse_loose_ipv4 host =
    let parts = cut (same_char ".") (chars host) in
    if ltb 4 (length parts)
    then ok none
    else (traverse parse_ip_number parts >>= λ ns.
        ok (elim (all_numbers ns) [ none ↦ none | some l ↦ address_of 3 l ]))

-- The texts of _normalise_ip_host: `address_text` is str(ipaddress.ip_address(host)), `none` if that raises
-- ValueError, and `ipv4_text` is str(ipaddress.IPv4Address(number)).
module _ (address_text : String → Option String) (ipv4_text : ℕ → String) where
  abbrev pub ip_text : Option ℕ → Option String
  ip_text none = none
  ip_text (some n) = some (ipv4_text n)

  unfoldable pub normalise_ip_host : String → Result (Option String)
  unfolding is_empty parse_loose_ipv4
  normalise_ip_host host = if is_empty host then ok none else (elim (address_text host) [
    | some text ↦ ok (some text)
    | none ↦ parse_loose_ipv4 host >>= λ value. ok (ip_text value)
  ])
