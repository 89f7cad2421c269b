-- ===== src/BitFields/Single.antt =====
-- One bit of a word (nexus.h, lines 4692 to 4777). The functions for the widths have the same text.
use nexus_c.Base.{
  ℕ, suc, ◌-◌, ◌^◌, ◌%◌, ◌<◌, ◌≡◌, ◌∙◌, refl, ap, Bool, if◌then◌else◌, ◌==◌, ==_iff, bit_and,
  bit_or, ◌<<<◌, ◌>>>◌, Bool-cases, inl, inr, arith,
}
use native.Mathlib.Nat.{one-le-pow, pow-suc, mod-eq_of_lt, pow-le-pow_right}
use nexus_c.Base.Bits.{bit_and_low}
use nexus_c.Base.Digits.{
  digit, digit-bit_or, digit-bit_and, digit-pow_self, digit-pow_ne, digit-complement,
}

unfoldable pub bit_get : ℕ → ℕ → Bool
bit_get value bit_index = bit_and (value >>> bit_index) 1 == 1

unfoldable pub bit_set : ℕ → ℕ → ℕ → Bool → ℕ
bit_set width value bit_index bit_value =
    let mask = (1 <<< bit_index) % 2 ^ width in
    if bit_value then bit_or value mask else bit_and value (2 ^ width - 1 - mask)

unfoldable pub uint8_get : ℕ → ℕ → Bool
uint8_get value bit_index = bit_get value bit_index

unfoldable pub uint8_set : ℕ → ℕ → Bool → ℕ
uint8_set value bit_index bit_value = bit_set 8 value bit_index bit_value

unfoldable pub uint16_get : ℕ → ℕ → Bool
uint16_get value bit_index = bit_get value bit_index

unfoldable pub uint16_set : ℕ → ℕ → Bool → ℕ
uint16_set value bit_index bit_value = bit_set 16 value bit_index bit_value

unfoldable pub uint32_get : ℕ → ℕ → Bool
uint32_get value bit_index = bit_get value bit_index

unfoldable pub uint32_set : ℕ → ℕ → Bool → ℕ
uint32_set value bit_index bit_value = bit_set 32 value bit_index bit_value

unfoldable pub uint64_get : ℕ → ℕ → Bool
uint64_get value bit_index = bit_get value bit_index

unfoldable pub uint64_set : ℕ → ℕ → Bool → ℕ
uint64_set value bit_index bit_value = bit_set 64 value bit_index bit_value

bit_get-digit : (value i : ℕ) → bit_get value i ≡ (digit i value == 1)
unfolding bit_get
bit_get-digit value i = rw (bit_and_low 1 (value >>> i)) refl

digit-cases : (i x : ℕ) → digit i x < 2
digit-cases i x = omega arith

module _ (width value i j : ℕ) (fits : value < 2 ^ width) (inside : i < width)
    (below : j < width) where
  mask : (1 <<< i) % 2 ^ width ≡ 2 ^ i
  mask =
      let one : 1 <<< i ≡ 2 ^ i = omega arith in
      let small = pow-le-pow_right {n = 2} (omega arith) {i = suc i} {j = width} (omega arith) in
      ap (λ n. n % 2 ^ width) one
      ∙ mod-eq_of_lt (omega (arith, pow-suc 2 i, small, one-le-pow i 2 (omega arith)))

  set_digit :
      (bit_value : Bool)
      → digit j (if bit_value then bit_or value (2 ^ i) else bit_and value (2 ^ width - 1 - 2 ^ i))
        ≡ (if j == i then (if bit_value then 1 else 0) else digit j value)
  set_digit bit_value =
      let small = pow-le-pow_right {n = 2} (omega arith) {i = suc i} {j = width} (omega arith) in
      let p : 2 ^ i < 2 ^ width = omega (arith, pow-suc 2 i, small, one-le-pow i 2 (omega arith)) in
      let d = digit-cases j value in
      let inverse = digit-complement width j (2 ^ i) p below in
      elim (Bool-cases (j == i)) [
        | inl e ↦
            let self : digit j (2 ^ i) ≡ 1 =
              ap (λ k. digit k (2 ^ i)) ((==_iff j i).0 e) ∙ digit-pow_self i in
            elim (Bool-cases bit_value) [
              | inl on ↦ rw (e, on) (omega (arith, digit-bit_or j value (2 ^ i), self, d))
              | inr off ↦
                  rw (e, off)
                    (omega (arith, digit-bit_and j value (2 ^ width - 1 - 2 ^ i), inverse, self, d))
            ]
        | inr e ↦
            let other = digit-pow_ne i j (ground (arith, e)) in
            elim (Bool-cases bit_value) [
              | inl on ↦ rw (e, on) (omega (arith, digit-bit_or j value (2 ^ i), other, d))
              | inr off ↦
                  rw (e, off)
                    (omega
                      (arith, digit-bit_and j value (2 ^ width - 1 - 2 ^ i), inverse, other, d))
            ]
      ]

  -- A word of any width, one bit of which is set: this bit has the new value, and every other bit of
  -- the word the old one.
  pub bit_get-bit_set :
      (bit_value : Bool)
      → bit_get (bit_set width value i bit_value) j
        ≡ (if j == i then bit_value else bit_get value j)
  unfolding bit_set
  bit_get-bit_set bit_value =
      rw (mask, bit_get-digit _ j, bit_get-digit value j, set_digit bit_value) (ground arith)
