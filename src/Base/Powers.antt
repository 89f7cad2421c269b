-- ===== src/Base/Powers.antt =====
-- Products, quotients and remainders by powers of two with a variable exponent.
use Prim.Native.Nat.{ℕ, zero, suc, ◌+◌, ◌*◌, ◌/◌, ◌%◌, ◌^◌, ◌≤◌, ◌<◌}
use mathlib.Core.Path.{◌≡◌, ap, sym, ◌∙◌}
use native.Mathlib.Nat.{
  mod-eq_of_lt, add-mul-div_right, pow-zero, pow-suc, mul-add-mod_self_right, mul-le-mul,
  div-lt_iff_lt-mul, div-add-mod',
}
use native.Mathlib.Omega.{arith}

pub pow_add : (n a b : ℕ) → n ^ (a + b) ≡ n ^ a * n ^ b
pow_add n a zero =
    let e : a + 0 ≡ a = omega arith in
    ap (λ k. n ^ k) e ∙ omega (arith, ap (λ x. n ^ a * x) (pow-zero n))
pow_add n a (suc b) =
    let e : a + suc b ≡ suc (a + b) = omega arith in
    ap (λ k. n ^ k) e
    ∙ pow-suc n (a + b)
    ∙ ap (λ x. x * n) (pow_add n a b)
    ∙ omega (arith, ap (λ x. n ^ a * x) (pow-suc n b))

-- A product of factors below `k` and `t`, and the remainder of a multiple.
pub scaled_room : (r s t : ℕ) → r < s → r * t + t ≤ s * t
scaled_room r s t h =
    omega (arith, mul-le-mul {n₁ = suc r} {m₁ = t} {n₂ = s} {m₂ = t} h (omega arith))

pub scaled_lt : (r s t : ℕ) → r < s → 0 < t → r * t < s * t
scaled_lt r s t h p = omega (arith, scaled_room r s t h)

pub scaled_mod : (n s t : ℕ) → 0 < s → 0 < t → n * t % (s * t) ≡ n % s * t
scaled_mod n s t p q =
    ap (λ x. x * t % (s * t)) (sym (div-add-mod' n s))
    ∙ ap (λ x. x % (s * t)) (omega arith)
    ∙ mul-add-mod_self_right (n / s) (s * t) (n % s * t)
    ∙ mod-eq_of_lt (scaled_lt (n % s) s t (omega arith) q)

pub div_lt : (n s t : ℕ) → 0 < s → n < t * s → n / s < t
div_lt n s t p h = (div-lt_iff_lt-mul p).1 h

-- A number of two parts divided: the remainder of the upper part moves into the lower one.
pub join_shifted :
    (hi lo s t : ℕ) → 0 < s → hi / s * (s * t) + (hi % s * t + lo / s) ≡ (hi * (s * t) + lo) / s
join_shifted hi lo s t p =
    let e : lo + hi * t * s ≡ hi * (s * t) + lo = omega arith in
    let upper : hi / s * (s * t) + (hi % s * t + lo / s) ≡ lo / s + hi * t =
      omega (arith, ap (λ x. x * t) (div-add-mod' hi s)) in
    upper ∙ sym (add-mul-div_right lo (hi * t) p) ∙ ap (λ x. x / s) e
