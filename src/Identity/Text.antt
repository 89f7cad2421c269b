-- ===== src/Identity/Text.antt =====
-- The text of a UUID (src/n_identity.c, lines 41 to 64 and 116 to 223). A string is the list of its
-- characters before the terminator.
use nexus_c.Base.{
  ℕ, zero, suc, ◌+◌, ◌-◌, Bool, ◌||◌, ◌&&◌, not, Option, none, some, List, [], ◌∷◌, if◌then◌else◌,
  leb, ◌==◌, bit_and, bit_or, u8, length, get_or, ◌<<<◌, ◌>>>◌,
}
use nexus_c.Uint128.Arith.{Uint128}
use nexus_c.Uint128.Bytes.{bytes_big_endian_write, bytes_big_endian_read}

unfoldable pub ascii_whitespace_get : ℕ → Bool
ascii_whitespace_get c = c == 32 || c == 9 || c == 10 || c == 13 || c == 12 || c == 11

unfoldable pub hex_nibble_get : ℕ → Option ℕ
hex_nibble_get c =
    if leb 48 c && leb c 57
    then some (c - 48)
    else if leb 97 c && leb c 102
    then some (c - 97 + 10)
    else if leb 65 c && leb c 70
    then some (c - 65 + 10)
    else none

-- "0123456789abcdef".
abbrev pub hexadecimal : ℕ → ℕ
hexadecimal i =
    get_or (48 ∷ 49 ∷ 50 ∷ 51 ∷ 52 ∷ 53 ∷ 54 ∷ 55 ∷ 56 ∷ 57 ∷ 97 ∷ 98 ∷ 99 ∷ 100 ∷ 101 ∷ 102 ∷ []) i
      0

unfoldable pub dash_before : ℕ → Bool
dash_before byte_index = byte_index == 4 || byte_index == 6 || byte_index == 8 || byte_index == 10

-- The loop from a byte on, with `n` bytes left.
unfoldable pub write_loop : ℕ → (ℕ → ℕ) → ℕ → List ℕ
write_loop zero bytes byte_index = []
write_loop (suc n) bytes byte_index =
    let pair =
      hexadecimal (bit_and (bytes byte_index >>> 4) 0x0F)
      ∷ hexadecimal (bit_and (bytes byte_index) 0x0F)
      ∷ write_loop n bytes (byte_index + 1) in
    if dash_before byte_index then 45 ∷ pair else pair

-- The bytes are written over what their buffer holds.
unfoldable pub string_write : Uint128 → (ℕ → ℕ) → List ℕ
string_write uuid bytes = write_loop 16 (bytes_big_endian_write uuid bytes) 0

-- The loop that moves `begin`.
unfoldable pub trim_front : List ℕ → List ℕ
trim_front [] = []
trim_front (c ∷ cs) = let rest = trim_front cs in if ascii_whitespace_get c then rest else c ∷ cs

-- The loop that moves `end`.
unfoldable pub trim_back : List ℕ → List ℕ
trim_back [] = []
trim_back (c ∷ cs) = elim (trim_back cs) [
  | [] ↦ if ascii_whitespace_get c then [] else c ∷ []
  | r ∷ rest ↦ c ∷ r ∷ rest
]

unfoldable pub dash_at : ℕ → Bool
dash_at string_index =
    string_index == 8 || string_index == 13 || string_index == 18 || string_index == 23

-- The bytes that the characters from an index on stand for.
unfoldable pub parse_loop : ℕ → List ℕ → Option (List ℕ)
parse_loop string_index [] = some []
parse_loop string_index (c ∷ []) = if dash_at string_index then some [] else none
parse_loop string_index (c ∷ d ∷ cs) =
    let past = parse_loop (string_index + 1) (d ∷ cs) in
    let rest = parse_loop (string_index + 2) cs in
    if dash_at string_index then past else elim (hex_nibble_get c) [
      | none ↦ none
      | some high ↦ elim (hex_nibble_get d) [
        | none ↦ none
        | some low ↦ elim rest [
          | none ↦ none
          | some bytes ↦ some (u8 (bit_or (high <<< 4) low) ∷ bytes)
        ]
      ]
    ]

-- `begin` up to `end`; the error is NEXUS_ERROR_INVALID_ARGUMENT.
unfoldable pub parse_normalized : List ℕ → Option Uint128
parse_normalized begin =
    if not (length begin == 36)
    then none
    else if not (
        get_or begin 8 0 == 45
        && get_or begin 13 0 == 45
        && get_or begin 18 0 == 45
        && get_or begin 23 0 == 45)
    then none
    else elim (parse_loop 0 begin) [
      | none ↦ none
      | some bytes ↦
          if not (length bytes == 16)
          then none
          else some (bytes_big_endian_read (λ i. get_or bytes i 0))
    ]

-- The result can be written; the string may be NULL.
unfoldable pub string_parse : Option (List ℕ) → Option Uint128
string_parse none = none
string_parse (some string) = parse_normalized (trim_back (trim_front string))
