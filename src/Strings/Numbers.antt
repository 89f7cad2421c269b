-- ===== src/Strings/Numbers.antt =====
-- The parsing of unsigned numbers (src/n_strings.c, lines 648 to 674, 733 to 774 and 1013 to 1112). A
-- string is the list of its characters before the terminator, `none` is a NULL pointer, and the last
-- argument says whether `out_value` is given. The result `none` is NEXUS_ERROR_INVALID_ARGUMENT; a
-- number is what is written to `*out_value` under NEXUS_ERROR_NONE.
use nexus_c.Base.{
  ℕ, ◌+◌, ◌*◌, ◌-◌, ◌^◌, ◌%◌, Bool, true, false, ◌||◌, ◌&&◌, Option, none, some, List, [], ◌∷◌,
  if◌then◌else◌, ltb, leb, ◌==◌, bit_or, u64, ◌<<<◌, ◌>>>◌,
}

unfoldable pub parse_digits : List ℕ → ℕ → ℕ → Option ℕ
parse_digits [] max_value parsed_value = some parsed_value
parse_digits (c ∷ cs) max_value parsed_value =
    let next = u64 (u64 (parsed_value * 10) + (c - 48)) in
    let rest = parse_digits cs max_value next in
    if ltb c 48 || ltb 57 c then none else if ltb max_value next then none else rest

unfoldable pub parse_unsigned_decimal : Option (List ℕ) → ℕ → Bool → Option ℕ
parse_unsigned_decimal none max_value has_out = none
parse_unsigned_decimal (some string) max_value false = none
parse_unsigned_decimal (some []) max_value true = none
parse_unsigned_decimal (some (c ∷ cs)) max_value true = parse_digits (c ∷ cs) max_value 0

-- The cast of a parsed value to the result's type.
unfoldable pub cast_to : ℕ → Option ℕ → Option ℕ
cast_to width none = none
cast_to width (some parsed_value) = some (parsed_value % 2 ^ width)

-- These write to `*out_value` without a test, so it is given.
unfoldable pub parse_uint8 : Option (List ℕ) → Option ℕ
parse_uint8 string = cast_to 8 (parse_unsigned_decimal string (2 ^ 8 - 1) true)

unfoldable pub parse_uint16 : Option (List ℕ) → Option ℕ
parse_uint16 string = cast_to 16 (parse_unsigned_decimal string (2 ^ 16 - 1) true)

unfoldable pub parse_uint32 : Option (List ℕ) → Option ℕ
parse_uint32 string = cast_to 32 (parse_unsigned_decimal string (2 ^ 32 - 1) true)

unfoldable pub parse_uint64 : Option (List ℕ) → Bool → Option ℕ
parse_uint64 string has_out = parse_unsigned_decimal string (2 ^ 64 - 1) has_out

unfoldable pub digit_value : ℕ → Option ℕ
digit_value c =
    if leb 48 c && leb c 57
    then some (c - 48)
    else if leb 97 c && leb c 102
    then some (u64 (u64 (c + 2 ^ 64 - 97) + 10))
    else if leb 65 c && leb c 70
    then some (u64 (u64 (c + 2 ^ 64 - 65) + 10))
    else none

unfoldable pub parse_hex_digits : List ℕ → ℕ → Option ℕ
parse_hex_digits [] parsed_value = some parsed_value
parse_hex_digits (c ∷ cs) parsed_value = elim (digit_value c) [
  | none ↦ none
  | some digit ↦
      let rest = parse_hex_digits cs (bit_or (u64 (parsed_value <<< 4)) digit) in
      if ltb ((2 ^ 64 - 1) >>> 4) parsed_value then none else rest
]

-- The characters from `index` on, after a prefix 0x or 0X.
unfoldable pub hex_body : List ℕ → List ℕ
hex_body [] = []
hex_body (a ∷ []) = a ∷ []
hex_body (a ∷ b ∷ cs) = if (a == 48) && ((b == 120) || (b == 88)) then cs else a ∷ b ∷ cs

-- The loop, on a string that does not end where it starts.
unfoldable pub parse_hex_body : List ℕ → Option ℕ
parse_hex_body [] = none
parse_hex_body (c ∷ cs) = parse_hex_digits (c ∷ cs) 0

unfoldable pub parse_hex_uint64 : Option (List ℕ) → Bool → Option ℕ
parse_hex_uint64 none has_out = none
parse_hex_uint64 (some string) false = none
parse_hex_uint64 (some []) true = none
parse_hex_uint64 (some (c ∷ cs)) true = parse_hex_body (hex_body (c ∷ cs))

-- The test of the bound and the cast of the narrower types.
unfoldable pub narrow : ℕ → ℕ → Option ℕ → Option ℕ
narrow width max_value none = none
narrow width max_value (some parsed_value) =
    if ltb max_value parsed_value then none else some (parsed_value % 2 ^ width)

unfoldable pub parse_hex_uint8 : Option (List ℕ) → Option ℕ
parse_hex_uint8 string = narrow 8 (2 ^ 8 - 1) (parse_hex_uint64 string true)

unfoldable pub parse_hex_uint16 : Option (List ℕ) → Option ℕ
parse_hex_uint16 string = narrow 16 (2 ^ 16 - 1) (parse_hex_uint64 string true)

unfoldable pub parse_hex_uint32 : Option (List ℕ) → Option ℕ
parse_hex_uint32 string = narrow 32 (2 ^ 32 - 1) (parse_hex_uint64 string true)

-- The signed results are never negative, so the tests of the lower bounds hold.
unfoldable pub parse_hex_int64 : Option (List ℕ) → Option ℕ
parse_hex_int64 string = narrow 64 (2 ^ 63 - 1) (parse_hex_uint64 string true)

unfoldable pub parse_hex_int32 : Option (List ℕ) → Option ℕ
parse_hex_int32 string = narrow 32 (2 ^ 31 - 1) (parse_hex_int64 string)

unfoldable pub parse_hex_int16 : Option (List ℕ) → Option ℕ
parse_hex_int16 string = narrow 16 (2 ^ 15 - 1) (parse_hex_int64 string)

unfoldable pub parse_hex_int8 : Option (List ℕ) → Option ℕ
parse_hex_int8 string = narrow 8 (2 ^ 7 - 1) (parse_hex_int64 string)
