-- ===== src/Strings/Tests.antt =====
-- Runs of the parsing of numbers, and its theorems at concrete strings.
use nexus_c.Base.{ℕ, ◌-◌, ◌^◌, ◌≡◌, refl, Bool, true, none, some, List, [], ◌∷◌}
use nexus_c.Strings.Decimal.{decimal, at_most, wrapped, parse_uint-at_most}
use nexus_c.Strings.Hex.{hex_number, IsHexText, parse_hex_uint-at_most}
use nexus_c.Strings.Numbers.{
  parse_digits, parse_unsigned_decimal, cast_to, parse_uint8, parse_uint16, parse_uint32,
  parse_uint64, digit_value, parse_hex_digits, hex_body, parse_hex_body, parse_hex_uint64, narrow,
  parse_hex_uint8, parse_hex_uint16, parse_hex_uint32,
}
use nexus_c.Strings.Signed.{
  negsuc, negated, sign_of, signed_value, max_magnitude, parse_signed_decimal, parse_int8,
  parse_int16, parse_int32, signed_at_most, IsSignedText, parse_int-signed_at_most,
}

-- "255", "256" and "18446744073709551617".
abbrev in_range : List ℕ
in_range = 50 ∷ 53 ∷ 53 ∷ []

abbrev above : List ℕ
above = 50 ∷ 53 ∷ 54 ∷ []

abbrev above_word : List ℕ
above_word =
    49 ∷ 56 ∷ 52 ∷ 52 ∷ 54 ∷ 55 ∷ 52 ∷ 52 ∷ 48 ∷ 55 ∷ 51 ∷ 55 ∷ 48 ∷ 57 ∷ 53 ∷ 53 ∷ 49 ∷ 54 ∷ 49
    ∷ 55 ∷ []

-- "0xFf".
abbrev prefixed : List ℕ
prefixed = 48 ∷ 120 ∷ 70 ∷ 102 ∷ []

runs :
    (parse_uint8 (some in_range) ≡ some 255)
    × (parse_uint8 (some above) ≡ none)
    × (parse_uint64 (some above_word) true ≡ some 1)
    × (parse_hex_uint8 (some prefixed) ≡ some 255)
unfolding parse_digits parse_unsigned_decimal cast_to parse_uint8 parse_uint64 digit_value
    parse_hex_digits hex_body parse_hex_body parse_hex_uint64 narrow parse_hex_uint8
runs = (refl, refl, refl, refl)

parse_uint-at_most_example :
    (parse_uint8 (some above_word) ≡ at_most (2 ^ 8 - 1) (decimal above_word))
    × (parse_uint16 (some above_word) ≡ at_most (2 ^ 16 - 1) (decimal above_word))
    × (parse_uint32 (some above_word) ≡ at_most (2 ^ 32 - 1) (decimal above_word))
    × (parse_uint64 (some above_word) true ≡ wrapped (decimal above_word))
parse_uint-at_most_example = parse_uint-at_most above_word

parse_hex_uint-at_most_example :
    (digits : List ℕ) × IsHexText prefixed digits
    × (parse_hex_uint8 (some prefixed) ≡ at_most (2 ^ 8 - 1) (hex_number digits))
    × (parse_hex_uint16 (some prefixed) ≡ at_most (2 ^ 16 - 1) (hex_number digits))
    × (parse_hex_uint32 (some prefixed) ≡ at_most (2 ^ 32 - 1) (hex_number digits))
    × (parse_hex_uint64 (some prefixed) true ≡ at_most (2 ^ 64 - 1) (hex_number digits))
parse_hex_uint-at_most_example = parse_hex_uint-at_most prefixed

-- "-128".
abbrev lowest : List ℕ
lowest = 45 ∷ 49 ∷ 50 ∷ 56 ∷ []

reads_lowest : parse_int8 (some lowest) ≡ some (negsuc 127)
unfolding parse_int8 parse_signed_decimal sign_of signed_value negated max_magnitude
    parse_unsigned_decimal parse_digits
reads_lowest = refl

parse_int-signed_at_most_example :
    (negative : Bool) × (digits : List ℕ) × IsSignedText lowest negative digits
    × (parse_int8 (some lowest) ≡ signed_at_most (2 ^ 7) negative digits)
    × (parse_int16 (some lowest) ≡ signed_at_most (2 ^ 15) negative digits)
    × (parse_int32 (some lowest) ≡ signed_at_most (2 ^ 31) negative digits)
parse_int-signed_at_most_example = parse_int-signed_at_most lowest
