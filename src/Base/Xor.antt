-- ===== src/Base/Xor.antt =====
-- `^`: a commutative group in which every number is its own inverse.
use Prim.Native.Nat.{ℕ, zero, suc, ◌+◌, ◌*◌, ◌/◌, ◌%◌, ◌≤◌, ◌<◌, bit_xor}
use Prim.Native.Nat.{differ, bit_xor-bitwise}
use mathlib.Core.Path.{◌≡◌, refl, ap, ◌∙◌}
use native.Mathlib.Omega.{arith}
use nexus_c.Base.Bits.{digits_low}

differ_digit : (x y : ℕ) → x < 2 → y < 2 → differ x y ≡ (x + y) % 2
differ_digit zero y p q = omega arith
differ_digit (suc zero) zero p q = refl
differ_digit (suc zero) (suc zero) p q = refl
differ_digit (suc zero) (suc (suc y)) p q = absurd (omega arith)
differ_digit (suc (suc x)) y p q = absurd (omega arith)

-- The lowest digit of `^`.
bit_xor-halves : (a b : ℕ) → bit_xor a b ≡ bit_xor (a / 2) (b / 2) * 2 + (a + b) % 2
bit_xor-halves zero b = simp bit_xor-bitwise (omega arith)
bit_xor-halves (suc a) b = simp bit_xor-bitwise (
    digits_low (λ y. y) differ a b
    ∙ omega (arith, differ_digit (suc a % 2) (b % 2) (omega arith) (omega arith)))

swap_below : (f a b : ℕ) → a ≤ f → b ≤ f → bit_xor a b ≡ bit_xor b a
swap_below zero a b p q = ground arith
swap_below (suc f) zero zero p q = refl
swap_below (suc f) a b p q =
    ground (arith, bit_xor-halves a b, bit_xor-halves b a, swap_below f (a / 2) (b / 2))

pub bit_xor_comm : (a b : ℕ) → bit_xor a b ≡ bit_xor b a
bit_xor_comm a b = swap_below (a + b) a b (omega arith) (omega arith)

assoc_below :
    (f a b c : ℕ) → a ≤ f → b ≤ f → c ≤ f → bit_xor (bit_xor a b) c ≡ bit_xor a (bit_xor b c)
assoc_below zero zero zero zero p q r = refl
assoc_below zero (suc a) b c p q r = absurd (omega arith)
assoc_below zero zero (suc b) c p q r = absurd (omega arith)
assoc_below zero zero zero (suc c) p q r = absurd (omega arith)
assoc_below (suc f) a b c p q r =
    let left : bit_xor a b / 2 ≡ bit_xor (a / 2) (b / 2) = omega (arith, bit_xor-halves a b) in
    let right : bit_xor b c / 2 ≡ bit_xor (b / 2) (c / 2) = omega (arith, bit_xor-halves b c) in
    omega (
      arith,
      bit_xor-halves a b,
      bit_xor-halves b c,
      bit_xor-halves (bit_xor a b) c,
      bit_xor-halves a (bit_xor b c),
      ap (λ k. bit_xor k (c / 2)) left,
      ap (bit_xor (a / 2)) right,
      assoc_below f (a / 2) (b / 2) (c / 2) (omega arith) (omega arith) (omega arith),
    )

pub bit_xor_assoc : (a b c : ℕ) → bit_xor (bit_xor a b) c ≡ bit_xor a (bit_xor b c)
bit_xor_assoc a b c = assoc_below (a + b + c) a b c (omega arith) (omega arith) (omega arith)

self_below : (f a : ℕ) → a ≤ f → bit_xor a a ≡ 0
self_below zero a p = ground arith
self_below (suc f) zero p = refl
self_below (suc f) (suc a) p =
    omega (arith, bit_xor-halves (suc a) (suc a), self_below f (suc a / 2) (omega arith))

pub bit_xor_self : (a : ℕ) → bit_xor a a ≡ 0
bit_xor_self a = self_below a a (omega arith)

pub bit_xor_zero : (a : ℕ) → bit_xor 0 a ≡ a
bit_xor_zero a = simp bit_xor-bitwise (omega arith)
