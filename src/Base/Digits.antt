-- ===== src/Base/Digits.antt =====
-- One binary digit of a number, and of the results of the bit operations.
use Prim.Native.Nat.{ℕ, zero, suc, ◌-◌, ◌/◌, ◌%◌, ◌^◌, ◌<◌, min, max, bit_and, bit_or}
use mathlib.Core.Path.{◌≡◌, refl, ap, ◌∙◌, sym}
use mathlib.Core.Logic.{◌≢◌}
use native.Mathlib.Nat.{pow-suc, pow-succ', div-div-eq-div-mul}
use native.Mathlib.Omega.{arith}
use nexus_c.Base.Bits.{bit_or-halves, bit_and-halves}

abbrev pub digit : ℕ → ℕ → ℕ
digit j x = x / 2 ^ j % 2

digit-suc : (j x : ℕ) → digit (suc j) x ≡ digit j (x / 2)
digit-suc j x =
    ap (λ n. x / n % 2) (pow-succ' 2 j) ∙ ap (λ n. n % 2) (sym (div-div-eq-div-mul x 2 (2 ^ j)))

digit-zero : (x : ℕ) → digit 0 x ≡ x % 2
digit-zero x = omega arith

pub digit-bit_or : (j x y : ℕ) → digit j (bit_or x y) ≡ max (digit j x) (digit j y)
digit-bit_or zero x y =
    omega (arith, digit-zero x, digit-zero y, digit-zero (bit_or x y), bit_or-halves x y)
digit-bit_or (suc j) x y =
    let half : bit_or x y / 2 ≡ bit_or (x / 2) (y / 2) = omega (arith, bit_or-halves x y) in
    rw (digit-suc j (bit_or x y), digit-suc j x, digit-suc j y, half)
      (digit-bit_or j (x / 2) (y / 2))

pub digit-bit_and : (j x y : ℕ) → digit j (bit_and x y) ≡ min (digit j x) (digit j y)
digit-bit_and zero x y =
    omega (arith, digit-zero x, digit-zero y, digit-zero (bit_and x y), bit_and-halves x y)
digit-bit_and (suc j) x y =
    let half : bit_and x y / 2 ≡ bit_and (x / 2) (y / 2) = omega (arith, bit_and-halves x y) in
    rw (digit-suc j (bit_and x y), digit-suc j x, digit-suc j y, half)
      (digit-bit_and j (x / 2) (y / 2))

pub digit-pow_self : (i : ℕ) → digit i (2 ^ i) ≡ 1
digit-pow_self zero = refl
digit-pow_self (suc i) =
    let half : 2 ^ suc i / 2 ≡ 2 ^ i = omega (arith, pow-suc 2 i) in
    rw (digit-suc i (2 ^ suc i), half) (digit-pow_self i)

digit-none : (j : ℕ) → digit j 0 ≡ 0
digit-none zero = refl
digit-none (suc j) = digit-suc j 0 ∙ digit-none j

pub digit-pow_ne : (i j : ℕ) → i ≢ j → digit j (2 ^ i) ≡ 0
digit-pow_ne zero zero h = absurd (h refl)
digit-pow_ne zero (suc j) h = digit-suc j 1 ∙ digit-none j
digit-pow_ne (suc i) zero h = omega (arith, pow-suc 2 i)
digit-pow_ne (suc i) (suc j) h =
    let half : 2 ^ suc i / 2 ≡ 2 ^ i = omega (arith, pow-suc 2 i) in
    rw (digit-suc j (2 ^ suc i), half) (digit-pow_ne i j (λ e. h (ap suc e)))

-- The complement of a number of `w` digits.
pub digit-complement : (w j x : ℕ) → x < 2 ^ w → j < w → digit j (2 ^ w - 1 - x) ≡ 1 - digit j x
digit-complement zero j x fits below = absurd (omega arith)
digit-complement (suc w) zero x fits below =
    let p = pow-suc 2 w in omega (arith, digit-zero x, digit-zero (2 ^ suc w - 1 - x))
digit-complement (suc w) (suc j) x fits below =
    let p = pow-suc 2 w in
    let half : (2 ^ suc w - 1 - x) / 2 ≡ 2 ^ w - 1 - x / 2 = omega arith in
    rw (digit-suc j (2 ^ suc w - 1 - x), digit-suc j x, half)
      (digit-complement w j (x / 2) (omega arith) (omega arith))
