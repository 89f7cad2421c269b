-- ===== src/Strings/Decimal.antt =====
-- What the parsing of decimal numbers returns: the number that the digits stand for, or an error.
use nexus_c.Base.{
  ℕ, ◌+◌, ◌*◌, ◌-◌, ◌^◌, ◌%◌, ◌<◌, ◌≤◌, ◌≡◌, ◌∙◌, ap, sym, refl, true, false, ◌||◌, ◌&&◌, Option,
  none, some, List, [], ◌∷◌, if◌then◌else◌, ltb→lt, leb→le, ltb, leb, u64, Bool-cases, inl, inr,
  arith,
}
use native.Mathlib.Nat.{mod-eq_of_lt, one-le-pow}
use nexus_c.Strings.Numbers.{
  parse_digits, parse_unsigned_decimal, cast_to, parse_uint8, parse_uint16, parse_uint32,
  parse_uint64,
}

-- The number of a string of decimal digits, without any bound, after a number read before.
abbrev pub decimal_from : ℕ → List ℕ → Option ℕ
decimal_from n [] = some n
decimal_from n (c ∷ cs) =
    let rest = decimal_from (n * 10 + (c - 48)) cs in if leb 48 c && leb c 57 then rest else none

-- The number of a string; the empty string has none.
abbrev pub decimal : List ℕ → Option ℕ
decimal [] = none
decimal (c ∷ cs) = decimal_from 0 (c ∷ cs)

-- A number up to a bound.
abbrev pub at_most : ℕ → Option ℕ → Option ℕ
at_most bound none = none
at_most bound (some n) = if leb n bound then some n else none

-- The number of a string, cut off to 64 bits.
abbrev pub wrapped : Option ℕ → Option ℕ
wrapped none = none
wrapped (some n) = some (n % 2 ^ 64)

exceeded : (cs : List ℕ) (bound n : ℕ) → bound < n → at_most bound (decimal_from n cs) ≡ none
exceeded [] bound n h = ground arith
exceeded (c ∷ cs) bound n h = ground (arith, exceeded cs bound (n * 10 + (c - 48)))

-- The code's test of a character, and the same test the other way round.
not_digit : (c : ℕ) → (ltb c 48 || ltb 57 c) ≡ true → (leb 48 c && leb c 57) ≡ false
not_digit c h = ground arith

is_digit : (c : ℕ) → (ltb c 48 || ltb 57 c) ≡ false → ((leb 48 c && leb c 57) ≡ true) × (c ≤ 57)
is_digit c h = (ground arith, ground arith)

parse_digits_exact :
    (cs : List ℕ) (bound n : ℕ)
    → bound * 10 + 9 < 2 ^ 64
    → n ≤ bound
    → parse_digits cs bound n ≡ at_most bound (decimal_from n cs)
unfolding parse_digits
parse_digits_exact [] bound n b h = ground arith
parse_digits_exact (c ∷ cs) bound n b h = elim (Bool-cases (ltb c 48 || ltb 57 c)) [
  | inl bad ↦ rw (bad, not_digit c bad) refl
  | inr good ↦
      let (digit, small) = is_digit c good in
      let next : u64 (u64 (n * 10) + (c - 48)) ≡ n * 10 + (c - 48) = omega arith in
      elim (Bool-cases (ltb bound (n * 10 + (c - 48)))) [
        | inl over ↦
            rw (good, digit, next, over)
              (sym (exceeded cs bound (n * 10 + (c - 48)) (ltb→lt _ _ over)))
        | inr under ↦
            rw (good, digit, next, under)
              (parse_digits_exact cs bound (n * 10 + (c - 48)) b (ground (arith, under)))
      ]
]

parse_digits_wraps :
    (cs : List ℕ) (n : ℕ) → parse_digits cs (2 ^ 64 - 1) (n % 2 ^ 64) ≡ wrapped (decimal_from n cs)
unfolding parse_digits
parse_digits_wraps [] n = refl
parse_digits_wraps (c ∷ cs) n = elim (Bool-cases (ltb c 48 || ltb 57 c)) [
  | inl bad ↦ rw (bad, not_digit c bad) refl
  | inr good ↦
      let (digit, small) = is_digit c good in
      let next : u64 (u64 (n % 2 ^ 64 * 10) + (c - 48)) ≡ (n * 10 + (c - 48)) % 2 ^ 64 =
        omega arith in
      let within : ltb (2 ^ 64 - 1) ((n * 10 + (c - 48)) % 2 ^ 64) ≡ false = ground arith in
      rw (good, digit, next, within) (parse_digits_wraps cs (n * 10 + (c - 48)))
]

-- A number is read exactly if its bound leaves room for one more digit in 64 bits: the result is the
-- number that the string's digits stand for, and an error if it is above the bound, if the string is
-- empty or if a character is no digit.
pub parse_unsigned_decimal-at_most :
    (string : List ℕ) (max_value : ℕ)
    → max_value * 10 + 9 < 2 ^ 64
    → parse_unsigned_decimal (some string) max_value true ≡ at_most max_value (decimal string)
unfolding parse_unsigned_decimal
parse_unsigned_decimal-at_most [] max_value b = refl
parse_unsigned_decimal-at_most (c ∷ cs) max_value b =
    parse_digits_exact (c ∷ cs) max_value 0 b (omega arith)

cast_to-at_most :
    (width : ℕ) (o : Option ℕ)
    → cast_to width (at_most (2 ^ width - 1) o) ≡ at_most (2 ^ width - 1) o
unfolding cast_to
cast_to-at_most width none = refl
cast_to-at_most width (some n) = elim (Bool-cases (leb n (2 ^ width - 1))) [
  | inl fits ↦
      let e : n % 2 ^ width ≡ n =
        mod-eq_of_lt (omega (arith, leb→le _ _ fits, one-le-pow width 2 (omega arith))) in
      rw (fits, cast_to) (ap some e)
  | inr large ↦ rw (large, cast_to) refl
]

parse_uint64-wrapped :
    (string : List ℕ) → parse_uint64 (some string) true ≡ wrapped (decimal string)
unfolding parse_uint64 parse_unsigned_decimal
parse_uint64-wrapped [] = refl
parse_uint64-wrapped (c ∷ cs) = parse_digits_wraps (c ∷ cs) 0

-- The decimal parsers of 8, 16 and 32 bits read a string's number exactly, or report an error. With 64
-- bits no number is refused for its size: a string of digits is read as the number that it stands for
-- modulo 2^64, and every other string is an error.
pub parse_uint-at_most :
    (string : List ℕ)
    → (parse_uint8 (some string) ≡ at_most (2 ^ 8 - 1) (decimal string))
      × (parse_uint16 (some string) ≡ at_most (2 ^ 16 - 1) (decimal string))
      × (parse_uint32 (some string) ≡ at_most (2 ^ 32 - 1) (decimal string))
      × (parse_uint64 (some string) true ≡ wrapped (decimal string))
unfolding parse_uint8 parse_uint16 parse_uint32
parse_uint-at_most string = (
  ap (cast_to 8) (parse_unsigned_decimal-at_most string (2 ^ 8 - 1) (omega arith))
      ∙ cast_to-at_most 8 (decimal string),
  ap (cast_to 16) (parse_unsigned_decimal-at_most string (2 ^ 16 - 1) (omega arith))
      ∙ cast_to-at_most 16 (decimal string),
  ap (cast_to 32) (parse_unsigned_decimal-at_most string (2 ^ 32 - 1) (omega arith))
      ∙ cast_to-at_most 32 (decimal string),
  parse_uint64-wrapped string,
)
