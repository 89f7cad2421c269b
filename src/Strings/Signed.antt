-- ===== src/Strings/Signed.antt =====
-- The parsing of signed decimal numbers (src/n_strings.c, lines 676 to 731 and 776 to 826).
use mathlib.Core.Option
use nexus_c.Base.{
  ℕ, zero, suc, ◌+◌, ◌*◌, ◌-◌, ◌^◌, ◌<◌, ◌≡◌, ◌≢◌, ◌∙◌, ap, refl, Bool-cases, inl, inr, Bool, true,
  false, Option, none, some, List, [], ◌∷◌, if◌then◌else◌, ◌==◌, u64, arith,
}
use nexus_c.Strings.Decimal.{decimal, at_most, parse_unsigned_decimal-at_most}
use nexus_c.Strings.Numbers.{parse_unsigned_decimal}

-- A signed number: `negsuc n` is -(n + 1).
pub data ℤ : Type 0 where
  pos : ℕ → ℤ
  negsuc : ℕ → ℤ

-- `-(int64)magnitude`, and the smallest number for the magnitude 2^63.
unfoldable pub negated : ℕ → ℤ
negated zero = pos zero
negated (suc n) = negsuc n

-- The sign of a string, and the characters from `index` on.
unfoldable pub sign_of : List ℕ → Bool × List ℕ
sign_of [] = (false, [])
sign_of (c ∷ cs) = if c == 45 then (true, cs) else if c == 43 then (false, cs) else (false, c ∷ cs)

-- The value written for a parsed magnitude.
unfoldable pub signed_value : Bool → Option ℕ → Option ℤ
signed_value negative none = none
signed_value true (some magnitude) = some (negated magnitude)
signed_value false (some magnitude) = some (pos magnitude)

-- `(uint64)(-(min_value))`, which for the smallest number is written as INT64_MAX_VAL + 1.
unfoldable pub max_magnitude : ℤ → ℕ
max_magnitude (pos n) = u64 (2 ^ 64 - n)
max_magnitude (negsuc n) = n + 1

-- `max_value` is not negative in any call.
unfoldable pub parse_signed_decimal : Option (List ℕ) → ℤ → ℕ → Bool → Option ℤ
parse_signed_decimal none min_value max_value has_out = none
parse_signed_decimal (some string) min_value max_value false = none
parse_signed_decimal (some string) min_value max_value true =
    let (negative, digits) = sign_of string in
    signed_value negative (
      parse_unsigned_decimal (some digits) (if negative then max_magnitude min_value else max_value)
        true)

-- The casts to the narrower types keep the value, which lies within their bounds.
unfoldable pub parse_int8 : Option (List ℕ) → Option ℤ
parse_int8 string = parse_signed_decimal string (negsuc (2 ^ 7 - 1)) (2 ^ 7 - 1) true

unfoldable pub parse_int16 : Option (List ℕ) → Option ℤ
parse_int16 string = parse_signed_decimal string (negsuc (2 ^ 15 - 1)) (2 ^ 15 - 1) true

unfoldable pub parse_int32 : Option (List ℕ) → Option ℤ
parse_int32 string = parse_signed_decimal string (negsuc (2 ^ 31 - 1)) (2 ^ 31 - 1) true

unfoldable pub parse_int64 : Option (List ℕ) → Bool → Option ℤ
parse_int64 string has_out = parse_signed_decimal string (negsuc (2 ^ 63 - 1)) (2 ^ 63 - 1) has_out

-- A string by its sign and its digits: a minus, a plus or neither stands before them.
pub data IsSignedText (string : List ℕ) : Bool → List ℕ → Type 0 where
  minus : {digits : List ℕ} → string ≡ 45 ∷ digits → IsSignedText string true digits
  plus : {digits : List ℕ} → string ≡ 43 ∷ digits → IsSignedText string false digits
  bare :
      {digits : List ℕ}
      → ((ds : List ℕ) → string ≢ 45 ∷ ds)
      → ((ds : List ℕ) → string ≢ 43 ∷ ds)
      → string ≡ digits
      → IsSignedText string false digits

-- The integer of a sign and a magnitude.
abbrev pub integer : Bool → ℕ → ℤ
integer false n = pos n
integer true zero = pos zero
integer true (suc n) = negsuc n

-- The integer of a sign and digits, at most `half` below zero and less than `half` above.
abbrev pub signed_at_most : ℕ → Bool → List ℕ → Option ℤ
signed_at_most half true digits = Option.map (integer true) (at_most half (decimal digits))
signed_at_most half false digits = Option.map (integer false) (at_most (half - 1) (decimal digits))

sign_of-IsSignedText : (string : List ℕ) → IsSignedText string (sign_of string).0 (sign_of string).1
unfolding sign_of
sign_of-IsSignedText [] = bare (λ ds e. ground (arith, e)) (λ ds e. ground (arith, e)) refl
sign_of-IsSignedText (c ∷ cs) = elim (Bool-cases (c == 45)) [
  | inl e ↦ let p : c ≡ 45 = ground (arith, e) in rw e (minus (ap (λ k. k ∷ cs) p))
  | inr e ↦ elim (Bool-cases (c == 43)) [
    | inl e' ↦ let p : c ≡ 43 = ground (arith, e') in rw (e, e') (plus (ap (λ k. k ∷ cs) p))
    | inr e' ↦ rw (e, e') (bare (λ ds q. ground (arith, e, q)) (λ ds q. ground (arith, e', q)) refl)
  ]
]

signed_value-map :
    (negative : Bool) (o : Option ℕ) → signed_value negative o ≡ Option.map (integer negative) o
unfolding signed_value negated
signed_value-map negative none = refl
signed_value-map false (some n) = refl
signed_value-map true (some zero) = refl
signed_value-map true (some (suc n)) = refl

reads_signed :
    (negative : Bool) (digits : List ℕ) (half : ℕ)
    → half * 10 + 9 < 2 ^ 64
    → signed_value negative
        (parse_unsigned_decimal (some digits) (if negative then half else half - 1) true)
      ≡ signed_at_most half negative digits
reads_signed true digits half b =
    ap (signed_value true) (parse_unsigned_decimal-at_most digits half b)
    ∙ signed_value-map true (at_most half (decimal digits))
reads_signed false digits half b =
    ap (signed_value false) (parse_unsigned_decimal-at_most digits (half - 1) (omega arith))
    ∙ signed_value-map false (at_most (half - 1) (decimal digits))

-- The three narrower signed types read a string exactly: a minus or a plus is taken off, and the
-- number of the digits that follow, negated after a minus, is the result if it lies within the type's
-- bounds. Every other string is an error.
pub parse_int-signed_at_most :
    (string : List ℕ)
    → (negative : Bool) × (digits : List ℕ) × IsSignedText string negative digits
      × (parse_int8 (some string) ≡ signed_at_most (2 ^ 7) negative digits)
      × (parse_int16 (some string) ≡ signed_at_most (2 ^ 15) negative digits)
      × (parse_int32 (some string) ≡ signed_at_most (2 ^ 31) negative digits)
unfolding parse_signed_decimal parse_int8 parse_int16 parse_int32 max_magnitude
parse_int-signed_at_most string =
    let (negative, digits) = sign_of string in
    (
      negative,
      digits,
      sign_of-IsSignedText string,
      reads_signed negative digits (2 ^ 7) (omega arith),
      reads_signed negative digits (2 ^ 15) (omega arith),
      reads_signed negative digits (2 ^ 31) (omega arith),
    )
