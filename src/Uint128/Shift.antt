-- ===== src/Uint128/Shift.antt =====
-- The right shift of a 128-bit integer as a division.
use nexus_c.Base.{
  ℕ, Bool-cases, inl, inr, ltb, ltb→lt, ◌==◌, ==_iff, ◌+◌, ◌*◌, ◌-◌, ◌^◌, ◌%◌, ◌/◌, ◌<◌, ◌≤◌, ◌≡◌,
  ◌∙◌, ap, sym, bit_or, u64, arith,
}
use nexus_c.Base.Bits.{bit_or_disjoint_low}
use nexus_c.Base.Powers.{pow_add, join_shifted, scaled_mod, div_lt}
use native.Mathlib.Nat.{one-le-pow, div-div-eq-div-mul, pow-le-pow_right}
use mathlib.Core.Path.{subst}
use nexus_c.Uint128.Arith.{Uint128, shift_right, zero128, make, add, mul}
use nexus_c.Uint128.Multiply.{Fits, value, value-add, value-mul}

module _ (lo hi : ℕ) (lo_fits : lo < 2 ^ 64) (hi_fits : hi < 2 ^ 64) (shift : ℕ) where
  -- The bits of the high half that move into the low half.
  carried :
      shift < 64
      → bit_or (lo / 2 ^ shift) (u64 (hi * 2 ^ (64 - shift)))
        ≡ hi % 2 ^ shift * 2 ^ (64 - shift) + lo / 2 ^ shift
  carried below =
      let e : shift + (64 - shift) ≡ 64 = omega arith in
      let e' : 64 - shift + shift ≡ 64 = omega arith in
      let whole = sym (pow_add 2 shift (64 - shift)) ∙ ap (λ k. 2 ^ k) e in
      let whole' = sym (pow_add 2 (64 - shift) shift) ∙ ap (λ k. 2 ^ k) e' in
      let pos = one-le-pow shift 2 (omega arith) in
      let pos' = one-le-pow (64 - shift) 2 (omega arith) in
      ap (bit_or (lo / 2 ^ shift)) (
        ap (λ w. hi * 2 ^ (64 - shift) % w) (sym whole)
        ∙ scaled_mod hi (2 ^ shift) (2 ^ (64 - shift)) pos pos')
      ∙ bit_or_disjoint_low (64 - shift) (hi % 2 ^ shift) (lo / 2 ^ shift)
          (div_lt lo (2 ^ shift) (2 ^ (64 - shift)) pos (subst (λ w. lo < w) (sym whole') lo_fits))

  short :
      shift < 64
      → hi / 2 ^ shift * 2 ^ 64 + bit_or (lo / 2 ^ shift) (u64 (hi * 2 ^ (64 - shift)))
        ≡ (hi * 2 ^ 64 + lo) / 2 ^ shift
  short below =
      let e : shift + (64 - shift) ≡ 64 = omega arith in
      let whole = sym (pow_add 2 shift (64 - shift)) ∙ ap (λ k. 2 ^ k) e in
      rw (carried below) (
        subst
          (λ w.
            hi / 2 ^ shift * w + (hi % 2 ^ shift * 2 ^ (64 - shift) + lo / 2 ^ shift)
            ≡ (hi * w + lo) / 2 ^ shift)
          whole
          (join_shifted hi lo (2 ^ shift) (2 ^ (64 - shift)) (one-le-pow shift 2 (omega arith))))

  long : 64 ≤ shift → hi / 2 ^ (shift - 64) ≡ (hi * 2 ^ 64 + lo) / 2 ^ shift
  long above =
      let e : 64 + (shift - 64) ≡ shift = omega arith in
      let upper : hi ≡ (hi * 2 ^ 64 + lo) / 2 ^ 64 = omega arith in
      ap (λ x. x / 2 ^ (shift - 64)) upper
      ∙ div-div-eq-div-mul (hi * 2 ^ 64 + lo) (2 ^ 64) (2 ^ (shift - 64))
      ∙ ap (λ x. (hi * 2 ^ 64 + lo) / x) (sym (pow_add 2 64 (shift - 64)) ∙ ap (λ k. 2 ^ k) e)

  gone : 128 ≤ shift → 0 ≡ (hi * 2 ^ 64 + lo) / 2 ^ shift
  gone above =
      let large = pow-le-pow_right {n = 2} (omega arith) {i = 128} {j = shift} above in
      omega (
        arith,
        div_lt (hi * 2 ^ 64 + lo) (2 ^ shift) 1 (one-le-pow shift 2 (omega arith))
            (omega (arith, large, hi_fits, lo_fits)),
      )

value-shift_right :
    (v : Uint128) (shift : ℕ) → Fits v → value (shift_right v shift) ≡ value v / 2 ^ shift
unfolding shift_right zero128 make
value-shift_right v shift f = elim (Bool-cases (shift == 0)) [
  | inl e ↦ rw e (omega (arith, ap (λ k. value v / 2 ^ k) ((==_iff shift 0).0 e)))
  | inr e ↦ elim (Bool-cases (ltb shift 64)) [
    | inl below ↦ rw (e, below) (short v.lo v.hi f.lo f.hi shift (ltb→lt _ _ below))
    | inr above ↦ elim (Bool-cases (ltb shift 128)) [
      | inl below ↦
          rw (e, above, below)
            (omega (arith, long v.lo v.hi f.lo f.hi shift (ground (arith, above))))
      | inr high ↦ rw (e, above, high) (gone v.lo v.hi f.lo f.hi shift (ground (arith, high)))
    ]
  ]
]

-- On halves below 2^64, add and mul are addition and multiplication modulo 2^128, and shift_right
-- divides by a power of two, for every shift.
pub value-operations :
    (a b : Uint128) (shift : ℕ)
    → Fits a
    → Fits b
    → (value (add a b) ≡ (value a + value b) % 2 ^ 128)
      × (value (mul a b) ≡ value a * value b % 2 ^ 128)
      × (value (shift_right a shift) ≡ value a / 2 ^ shift)
value-operations a b shift fa fb =
    (value-add a b fa fb, value-mul a b fa fb, value-shift_right a shift fa)
