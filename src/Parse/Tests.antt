-- ===== src/Parse/Tests.antt =====
-- Concrete lines, and the theorems at concrete inputs.
use cl.Common.{true, false, ℕ, ◌^◌, ◌%◌, ◌≡◌, refl, arith, some, List, [], ◌∷◌}
use cl.Parse.{
  above_blank, skip_ws, cut_token, take_token, parse_token, digit_of, read_digits, read_base,
  string_to_long, parse_number,
}
use cl.Parse.Token.{Tokenized, parse_token-Tokenized}
use cl.Parse.Number.{Digit, hexadecimal, written, value, string_to_long-written}

-- " 0x1F q"
abbrev line : List ℕ
line = 0x20 ∷ 0x30 ∷ 0x78 ∷ 0x31 ∷ 0x46 ∷ 0x20 ∷ 0x71 ∷ []

number_31 : parse_number line ≡ (some 31, 0x71 ∷ [])
unfolding parse_number parse_token take_token skip_ws cut_token above_blank string_to_long read_base
    read_digits digit_of
number_31 = refl

-- A byte from 128 on is a blank.
accented : parse_token (0x61 ∷ 0xc3 ∷ 0xa9 ∷ 0x62 ∷ []) ≡ (some (0x61 ∷ []), 0xa9 ∷ 0x62 ∷ [])
unfolding parse_token take_token skip_ws cut_token above_blank
accented = refl

-- 1Fb, where a digit is a capital and another is not.
abbrev digits : List Digit
digits = (1, false) ∷ (15, true) ∷ (11, false) ∷ []

string_to_long-written_example :
    string_to_long (written (hexadecimal true) digits) ≡ some (value 16 digits % 2 ^ 64)
string_to_long-written_example =
    string_to_long-written (hexadecimal true) digits (omega arith, (omega arith, (omega arith, tt)))
      tt

parse_token-Tokenized_example : Tokenized line (parse_token line).0 (parse_token line).1
parse_token-Tokenized_example = parse_token-Tokenized line
