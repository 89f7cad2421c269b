-- ===== src/Strings/Hex.antt =====
-- What the parsing of hexadecimal numbers returns.
use nexus_c.Base.{
  ℕ, ◌+◌, ◌*◌, ◌-◌, ◌^◌, ◌%◌, ◌<◌, ◌≤◌, ◌≡◌, ◌≢◌, ◌∙◌, ◌==◌, ap, sym, refl, true, false, ◌&&◌,
  Option, none, some, List, [], ◌∷◌, if◌then◌else◌, leb→le, ltb, leb, u64, Bool-cases, inl, inr,
  Option-cases, arith, ◌<<<◌, ◌>>>◌,
}
use native.Mathlib.Nat.{mod-eq_of_lt, one-le-pow, pow-le-pow_right}
use nexus_c.Base.Bits.{bit_or_disjoint}
use nexus_c.Strings.Decimal.{at_most}
use nexus_c.Strings.Numbers.{
  digit_value, parse_hex_digits, hex_body, parse_hex_body, parse_hex_uint64, narrow,
  parse_hex_uint8, parse_hex_uint16, parse_hex_uint32,
}

-- The digit that a character stands for.
unfoldable pub hex_digit : ℕ → Option ℕ
hex_digit c =
    if leb 48 c && leb c 57
    then some (c - 48)
    else if leb 97 c && leb c 102
    then some (c - 87)
    else if leb 65 c && leb c 70
    then some (c - 55)
    else none

-- The number of a string of hexadecimal digits, without any bound, after a number read before.
abbrev pub hex_from : ℕ → List ℕ → Option ℕ
hex_from n [] = some n
hex_from n (c ∷ cs) = elim (hex_digit c) [ none ↦ none | some d ↦ hex_from (n * 16 + d) cs ]

-- The number of a string after its prefix; where no digit follows, there is none.
abbrev pub hex_number : List ℕ → Option ℕ
hex_number [] = none
hex_number (c ∷ cs) = hex_from 0 (c ∷ cs)

digit_value-hex_digit : (c : ℕ) → digit_value c ≡ hex_digit c
unfolding digit_value hex_digit
digit_value-hex_digit c = ground arith

hex_digit_lt : (c d : ℕ) → hex_digit c ≡ some d → d < 16
unfolding hex_digit
hex_digit_lt c d e = ground arith

exceeded : (cs : List ℕ) (bound n : ℕ) → bound < n → at_most bound (hex_from n cs) ≡ none
exceeded [] bound n h = ground arith
exceeded (c ∷ cs) bound n h = elim (Option-cases (hex_digit c)) [
  | inl e ↦ rw (e, at_most) refl
  | inr (d, e) ↦ rw (e, at_most) (exceeded cs bound (n * 16 + d) (omega (arith, h)))
]

parse_hex_digits_exact :
    (cs : List ℕ) (n : ℕ)
    → n < 2 ^ 64
    → parse_hex_digits cs n ≡ at_most (2 ^ 64 - 1) (hex_from n cs)
unfolding parse_hex_digits
parse_hex_digits_exact [] n h = ground arith
parse_hex_digits_exact (c ∷ cs) n h = elim (Option-cases (hex_digit c)) [
  | inl e ↦ rw (digit_value-hex_digit c, e, parse_hex_digits, at_most) refl
  | inr (d, e) ↦
      let small = hex_digit_lt c d e in
      elim (Bool-cases (ltb ((2 ^ 64 - 1) >>> 4) n)) [
        | inl over ↦
            rw (digit_value-hex_digit c, e, over, parse_hex_digits, at_most)
              (sym (exceeded cs (2 ^ 64 - 1) (n * 16 + d) (ground (arith, over))))
        | inr under ↦
            let room : u64 (n <<< 4) ≡ n * 2 ^ 4 = ground (arith, under) in
            rw
              (
                digit_value-hex_digit c,
                e,
                under,
                room,
                bit_or_disjoint 4 n d small,
                parse_hex_digits,
                at_most,
              )
              (parse_hex_digits_exact cs (n * 16 + d) (ground (arith, under, small)))
      ]
]

parse_hex_body-at_most : (cs : List ℕ) → parse_hex_body cs ≡ at_most (2 ^ 64 - 1) (hex_number cs)
unfolding parse_hex_body
parse_hex_body-at_most [] = refl
parse_hex_body-at_most (c ∷ cs) = parse_hex_digits_exact (c ∷ cs) 0 (omega arith)

parse_hex_uint64-at_most :
    (string : List ℕ)
    → parse_hex_uint64 (some string) true ≡ at_most (2 ^ 64 - 1) (hex_number (hex_body string))
unfolding parse_hex_uint64 hex_body
parse_hex_uint64-at_most [] = refl
parse_hex_uint64-at_most (c ∷ cs) = parse_hex_body-at_most (hex_body (c ∷ cs))

narrow-at_most :
    (width : ℕ) (o : Option ℕ)
    → width ≤ 64
    → narrow width (2 ^ width - 1) (at_most (2 ^ 64 - 1) o) ≡ at_most (2 ^ width - 1) o
unfolding narrow
narrow-at_most width none h = refl
narrow-at_most width (some n) h =
    let bound = pow-le-pow_right {n = 2} (omega arith) {i = width} {j = 64} h in
    let some_bit = one-le-pow width 2 (omega arith) in
    elim (Bool-cases (leb n (2 ^ width - 1))) [
      | inl fits ↦
          let inside : leb n (2 ^ 64 - 1) ≡ true = ground (arith, bound, fits) in
          let under : ltb (2 ^ width - 1) n ≡ false = ground (arith, fits) in
          let e : n % 2 ^ width ≡ n = mod-eq_of_lt (omega (arith, leb→le _ _ fits, some_bit)) in
          rw (inside, fits, narrow, under) (ap some e)
      | inr large ↦
          let over : ltb (2 ^ width - 1) n ≡ true = ground (arith, large) in
          elim (Bool-cases (leb n (2 ^ 64 - 1))) [
            | inl inside ↦ rw (inside, large, narrow, over) refl
            | inr outside ↦ rw (outside, large, narrow) refl
          ]
    ]

-- A string and its digits: they stand behind the prefix 0x or 0X, or are all of a string that starts
-- with neither.
pub data IsHexText (string digits : List ℕ) : Type 0 where
  lower : string ≡ 48 ∷ 120 ∷ digits → IsHexText string digits
  upper : string ≡ 48 ∷ 88 ∷ digits → IsHexText string digits
  bare :
      ((ds : List ℕ) → string ≢ 48 ∷ 120 ∷ ds)
      → ((ds : List ℕ) → string ≢ 48 ∷ 88 ∷ ds)
      → string ≡ digits
      → IsHexText string digits

hex_body-IsHexText : (string : List ℕ) → IsHexText string (hex_body string)
unfolding hex_body
hex_body-IsHexText [] = bare (λ ds e. ground (arith, e)) (λ ds e. ground (arith, e)) refl
hex_body-IsHexText (a ∷ []) = bare (λ ds e. ground (arith, e)) (λ ds e. ground (arith, e)) refl
hex_body-IsHexText (a ∷ b ∷ cs) = elim (Bool-cases (a == 48)) [
  | inr other ↦
      rw other (bare (λ ds e. ground (arith, other, e)) (λ ds e. ground (arith, other, e)) refl)
  | inl nought ↦
      let p : a ≡ 48 = ground (arith, nought) in
      elim (Bool-cases (b == 120)) [
        | inl x ↦
            let q : b ≡ 120 = ground (arith, x) in
            rw (nought, x) (lower (ap (λ k. k ∷ b ∷ cs) p ∙ ap (λ k. 48 ∷ k ∷ cs) q))
        | inr no_x ↦ elim (Bool-cases (b == 88)) [
          | inl big_x ↦
              let q : b ≡ 88 = ground (arith, big_x) in
              rw (nought, no_x, big_x) (upper (ap (λ k. k ∷ b ∷ cs) p ∙ ap (λ k. 48 ∷ k ∷ cs) q))
          | inr no_big_x ↦
              rw (nought, no_x, no_big_x)
                (bare (λ ds e. ground (arith, no_x, e)) (λ ds e. ground (arith, no_big_x, e)) refl)
        ]
      ]
]

-- A hexadecimal number is read exactly by the parsers of 8, 16, 32 and 64 bits: the digits are what
-- follows the prefix 0x or 0X, or the whole string where it has neither, and the result is the number
-- that they stand for, and an error if it does not fit in the type, if there is no digit or if a
-- character is no digit.
pub parse_hex_uint-at_most :
    (string : List ℕ)
    → (digits : List ℕ) × IsHexText string digits
      × (parse_hex_uint8 (some string) ≡ at_most (2 ^ 8 - 1) (hex_number digits))
      × (parse_hex_uint16 (some string) ≡ at_most (2 ^ 16 - 1) (hex_number digits))
      × (parse_hex_uint32 (some string) ≡ at_most (2 ^ 32 - 1) (hex_number digits))
      × (parse_hex_uint64 (some string) true ≡ at_most (2 ^ 64 - 1) (hex_number digits))
unfolding parse_hex_uint8 parse_hex_uint16 parse_hex_uint32
parse_hex_uint-at_most string =
    let e = parse_hex_uint64-at_most string in
    let number = hex_number (hex_body string) in
    (
      hex_body string,
      hex_body-IsHexText string,
      ap (narrow 8 (2 ^ 8 - 1)) e ∙ narrow-at_most 8 number (omega arith),
      ap (narrow 16 (2 ^ 16 - 1)) e ∙ narrow-at_most 16 number (omega arith),
      ap (narrow 32 (2 ^ 32 - 1)) e ∙ narrow-at_most 32 number (omega arith),
      e,
    )
