-- ===== src/Uint128/Multiply.antt =====
-- Addition and multiplication of 128-bit integers as arithmetic on the numbers they stand for.
use nexus_c.Base.{
  ℕ, ◌+◌, ◌*◌, ◌-◌, ◌^◌, ◌%◌, ◌/◌, ◌<◌, ◌≡◌, ◌∙◌, ap, sym, bit_and, bit_or, u64, arith,
}
use nexus_c.Base.Bits.{bit_and_low, bit_or_disjoint_low}
use nexus_c.Uint128.Arith.{Uint128, add, mul64_to128, mul}
use mathlib.Core.Path.{subst}
use native.Mathlib.Nat.{mul-le-mul}

pub record Fits (v : Uint128) : Type 0 where
  pub lo : v.lo < 2 ^ 64
  pub hi : v.hi < 2 ^ 64

-- The number that the halves stand for.
abbrev pub value : Uint128 → ℕ
value v = v.hi * 2 ^ 64 + v.lo

pub value-add : (a b : Uint128) → Fits a → Fits b → value (add a b) ≡ (value a + value b) % 2 ^ 128
unfolding add
value-add a b fa fb = ground (arith, fa.lo, fa.hi, fb.lo, fb.hi)

product_fits : (x y : ℕ) → x < 2 ^ 32 → y < 2 ^ 32 → x * y < 2 ^ 64
product_fits x y p q = omega (
  arith,
  mul-le-mul {n₁ = x} {m₁ = y} {n₂ = 2 ^ 32 - 1} {m₂ = 2 ^ 32 - 1} (omega (arith, p))
      (omega (arith, q)),
)

-- The two halves of the result, from the four partial products.
abbrev middle_of : ℕ → ℕ → ℕ → ℕ
middle_of p0 p1 p2 = u64 (u64 (p0 / 2 ^ 32 + p1 % 2 ^ 32) + p2 % 2 ^ 32)

abbrev high_of : ℕ → ℕ → ℕ → ℕ → ℕ
high_of p0 p1 p2 p3 = u64 (u64 (u64 (p3 + p1 / 2 ^ 32) + p2 / 2 ^ 32) + middle_of p0 p1 p2 / 2 ^ 32)

low_half :
    (low middle : ℕ)
    → low < 2 ^ 32
    → bit_or low (u64 (middle * 2 ^ 32)) ≡ middle % 2 ^ 32 * 2 ^ 32 + low
low_half low middle fits =
    let cut : u64 (middle * 2 ^ 32) ≡ middle % 2 ^ 32 * 2 ^ 32 = omega arith in
    ap (bit_or low) cut ∙ bit_or_disjoint_low 32 (middle % 2 ^ 32) low fits

joined :
    (p0 p1 p2 p3 : ℕ)
    → p0 < 2 ^ 64
    → p1 < 2 ^ 64
    → p2 < 2 ^ 64
    → p3 * 2 ^ 64 + (p1 + p2) * 2 ^ 32 + p0 < 2 ^ 128
    → high_of p0 p1 p2 p3 * 2 ^ 64 + bit_or (p0 % 2 ^ 32) (u64 (middle_of p0 p1 p2 * 2 ^ 32))
      ≡ p3 * 2 ^ 64 + (p1 + p2) * 2 ^ 32 + p0
joined p0 p1 p2 p3 b0 b1 b2 b =
    omega (arith, low_half (p0 % 2 ^ 32) (middle_of p0 p1 p2) (omega arith))

expand :
    (a b c d : ℕ)
    → a * c * 2 ^ 64 + (b * c + a * d) * 2 ^ 32 + b * d ≡ (a * 2 ^ 32 + b) * (c * 2 ^ 32 + d)
expand a b c d = omega arith

word_id : (n : ℕ) → n < 2 ^ 64 → u64 n ≡ n
word_id n fits = omega arith

halves : (n : ℕ) → n / 2 ^ 32 * 2 ^ 32 + n % 2 ^ 32 ≡ n
halves n = omega arith

module _ (l r : ℕ) (l_fits : l < 2 ^ 64) (r_fits : r < 2 ^ 64) where
  -- The product by halves of 32 bits.
  schoolbook :
      l / 2 ^ 32 * (r / 2 ^ 32) * 2 ^ 64
        + (l % 2 ^ 32 * (r / 2 ^ 32) + l / 2 ^ 32 * (r % 2 ^ 32)) * 2 ^ 32
        + l % 2 ^ 32 * (r % 2 ^ 32)
      ≡ l * r
  schoolbook =
      expand (l / 2 ^ 32) (l % 2 ^ 32) (r / 2 ^ 32) (r % 2 ^ 32)
      ∙ ap (λ x. x * (r / 2 ^ 32 * 2 ^ 32 + r % 2 ^ 32)) (halves l)
      ∙ ap (λ x. l * x) (halves r)

  product_bound : l * r < 2 ^ 128
  product_bound = omega (
    arith,
    mul-le-mul {n₁ = l} {m₁ = r} {n₂ = 2 ^ 64 - 1} {m₂ = 2 ^ 64 - 1} (omega (arith, l_fits))
        (omega (arith, r_fits)),
  )

  -- For two factors below 2^64, the halves that `mul64_to128` returns make up the exact product.
  pub mul64_to128-product : (mul64_to128 l r).0 * 2 ^ 64 + (mul64_to128 l r).1 ≡ l * r
  unfolding mul64_to128
  mul64_to128-product =
      let b0 = product_fits (l % 2 ^ 32) (r % 2 ^ 32) (omega arith) (omega arith) in
      let b1 = product_fits (l % 2 ^ 32) (r / 2 ^ 32) (omega arith) (omega arith) in
      let b2 = product_fits (l / 2 ^ 32) (r % 2 ^ 32) (omega arith) (omega arith) in
      let b3 = product_fits (l / 2 ^ 32) (r / 2 ^ 32) (omega arith) (omega arith) in
      let low = bit_and_low 32 in
      rw
        (
          low l,
          low r,
          word_id _ b0,
          word_id _ b1,
          word_id _ b2,
          word_id _ b3,
          low (l % 2 ^ 32 * (r % 2 ^ 32)),
          low (l % 2 ^ 32 * (r / 2 ^ 32)),
          low (l / 2 ^ 32 * (r % 2 ^ 32)),
        )
        (joined (l % 2 ^ 32 * (r % 2 ^ 32)) (l % 2 ^ 32 * (r / 2 ^ 32)) (l / 2 ^ 32 * (r % 2 ^ 32))
            (l / 2 ^ 32 * (r / 2 ^ 32)) b0 b1 b2
            (subst (λ x. x < 2 ^ 128) (sym schoolbook) product_bound)
          ∙ schoolbook)

low_part : (p middle : ℕ) → bit_or (bit_and p (2 ^ 32 - 1)) (u64 (middle * 2 ^ 32)) < 2 ^ 64
low_part p middle = rw (bit_and_low 32 p, low_half (p % 2 ^ 32) middle (omega arith)) (omega arith)

mul64_to128-low : (l r : ℕ) → (mul64_to128 l r).1 < 2 ^ 64
unfolding mul64_to128
mul64_to128-low l r = low_part _ _

wide :
    (h0 l0 h1 l1 h2 l2 p : ℕ)
    → l0 < 2 ^ 64
    → (u64 (u64 (h0 + l1) + l2) * 2 ^ 64 + l0)
      ≡ (h0 * 2 ^ 64 + l0 + (h1 * 2 ^ 64 + l1 + (h2 * 2 ^ 64 + l2)) * 2 ^ 64 + p * 2 ^ 128)
        % 2 ^ 128
wide h0 l0 h1 l1 h2 l2 p b = omega arith

expand_wide :
    (a b c d : ℕ)
    → b * d + (b * c + a * d) * 2 ^ 64 + a * c * 2 ^ 128 ≡ (a * 2 ^ 64 + b) * (c * 2 ^ 64 + d)
expand_wide a b c d = omega arith

pub value-mul : (a b : Uint128) → Fits a → Fits b → value (mul a b) ≡ value a * value b % 2 ^ 128
unfolding mul
value-mul a b fa fb =
    let e0 = mul64_to128-product a.lo b.lo fa.lo fb.lo in
    let e1 = mul64_to128-product a.lo b.hi fa.lo fb.hi in
    let e2 = mul64_to128-product a.hi b.lo fa.hi fb.lo in
    wide (mul64_to128 a.lo b.lo).0 (mul64_to128 a.lo b.lo).1 (mul64_to128 a.lo b.hi).0
      (mul64_to128 a.lo b.hi).1 (mul64_to128 a.hi b.lo).0 (mul64_to128 a.hi b.lo).1 (a.hi * b.hi)
      (mul64_to128-low a.lo b.lo)
    ∙ rw (e0, e1, e2) (ap (λ n. n % 2 ^ 128) (expand_wide a.hi a.lo b.hi b.lo))
