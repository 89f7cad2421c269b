-- ===== src/Base/Bits.antt =====
-- The bit operations at variables: `|` of disjoint fields is a sum, `&` with a low mask is a
-- remainder. Both go down the binary digits, two numbers halved at a time.
use Prim.Native.Nat.{
  ℕ, zero, suc, ◌+◌, ◌-◌, ◌*◌, ◌/◌, ◌%◌, ◌^◌, ◌≤◌, ◌<◌, min, max, bit_and, bit_or,
}
use Prim.Native.Nat.{digits, bit_and-bitwise, bit_or-bitwise}
use mathlib.Core.Path.{◌≡◌, refl, ap, ◌∙◌, sym}
use native.Mathlib.Nat.{pow-suc, one-le-pow, mod-add-div', div-div-eq-div-mul, pow-succ'}
use native.Mathlib.Omega.{arith}

-- Any fuel that covers the first number gives the same digits.
module _ (rest : ℕ → ℕ) (op : ℕ → ℕ → ℕ) where
  digits_more : (f g a b : ℕ) → a ≤ f → a ≤ g → digits rest op f a b ≡ digits rest op g a b
  digits_more zero zero zero b p q = refl
  digits_more zero (suc g) zero b p q = refl
  digits_more (suc f) zero zero b p q = refl
  digits_more (suc f) (suc g) zero b p q = refl
  digits_more zero g (suc a) b p q = absurd (omega arith)
  digits_more (suc f) zero (suc a) b p q = absurd (omega arith)
  digits_more (suc f) (suc g) (suc a) b p q =
      rw (digits_more f g (suc a / 2) (b / 2) (omega arith) (omega arith))

  pub digits_low :
      (a b : ℕ)
      → digits rest op (suc a) (suc a) b
        ≡ digits rest op (suc a / 2) (suc a / 2) (b / 2) * 2 + op (suc a % 2) (b % 2)
  digits_low a b = rw (digits_more a (suc a / 2) (suc a / 2) (b / 2) (omega arith) (omega arith))

-- The lowest digit of `|` and of `&`.
pub bit_or-halves : (a b : ℕ) → bit_or a b ≡ bit_or (a / 2) (b / 2) * 2 + max (a % 2) (b % 2)
bit_or-halves zero b = simp bit_or-bitwise (omega arith)
bit_or-halves (suc a) b = simp bit_or-bitwise (digits_low (λ y. y) max a b)

pub bit_and-halves : (a b : ℕ) → bit_and a b ≡ bit_and (a / 2) (b / 2) * 2 + min (a % 2) (b % 2)
bit_and-halves zero b = simp bit_and-bitwise (omega arith)
bit_and-halves (suc a) b = simp bit_and-bitwise (digits_low (λ y. 0) min a b)

bit_or-none : (f a : ℕ) → a ≤ f → bit_or a 0 ≡ a
bit_or-none f zero h = refl
bit_or-none zero (suc a) h = absurd (omega arith)
bit_or-none (suc f) (suc a) h =
    omega (arith, bit_or-halves (suc a) 0, bit_or-none f (suc a / 2) (omega arith))

bit_and-none : (f a : ℕ) → a ≤ f → bit_and a 0 ≡ 0
bit_and-none f zero h = refl
bit_and-none zero (suc a) h = absurd (omega arith)
bit_and-none (suc f) (suc a) h =
    omega (arith, bit_and-halves (suc a) 0, bit_and-none f (suc a / 2) (omega arith))

shift_one_more : (q k : ℕ) → q * 2 ^ suc k ≡ 2 * (q * 2 ^ k)
shift_one_more q k = omega (arith, ap (λ (t : ℕ). q * t) (pow-suc 2 k))

-- A field above bit `k` joined to one below it.
pub bit_or_disjoint : (k hi lo : ℕ) → lo < 2 ^ k → bit_or (hi * 2 ^ k) lo ≡ hi * 2 ^ k + lo
bit_or_disjoint zero hi lo fits = ground (arith, bit_or-none hi hi)
bit_or_disjoint (suc k) hi lo fits = ground (
  arith,
  bit_or-halves (hi * 2 ^ suc k) lo,
  shift_one_more hi k,
  pow-suc 2 k,
  bit_or_disjoint k hi (lo / 2),
)

bit_and_split : (k q r : ℕ) → r < 2 ^ k → bit_and (q * 2 ^ k + r) (2 ^ k - 1) ≡ r
bit_and_split zero q r fits = ground (arith, bit_and-none (q * 1 + r) (q * 1 + r))
bit_and_split (suc k) q r fits = ground (
  arith,
  bit_and-halves (q * 2 ^ suc k + r) (2 ^ suc k - 1),
  shift_one_more q k,
  pow-suc 2 k,
  one-le-pow k 2,
  bit_and_split k q (r / 2),
)

-- A mask of `k` ones keeps the remainder by `2 ^ k`.
pub bit_and_low : (k a : ℕ) → bit_and a (2 ^ k - 1) ≡ a % 2 ^ k
bit_and_low k a = ground (arith, one-le-pow k 2, bit_and_split k (a / 2 ^ k) (a % 2 ^ k))

bit_or_swap : (f a b : ℕ) → a ≤ f → b ≤ f → bit_or a b ≡ bit_or b a
bit_or_swap zero a b p q = ground arith
bit_or_swap (suc f) zero zero p q = refl
bit_or_swap (suc f) a b p q =
    ground (arith, bit_or-halves a b, bit_or-halves b a, bit_or_swap f (a / 2) (b / 2))

pub bit_or_comm : (a b : ℕ) → bit_or a b ≡ bit_or b a
bit_or_comm a b = bit_or_swap (a + b) a b (omega arith) (omega arith)

-- The parts of a number below and above bit `k`, joined in this order.
pub bit_or_disjoint_low : (k hi lo : ℕ) → lo < 2 ^ k → bit_or lo (hi * 2 ^ k) ≡ hi * 2 ^ k + lo
bit_or_disjoint_low k hi lo fits = bit_or_comm lo (hi * 2 ^ k) ∙ bit_or_disjoint k hi lo fits

-- `|` of numbers without a common digit, the one with the lower digits first or last.
pub bit_or_below : (k x y : ℕ) → x < 2 ^ k → y % 2 ^ k ≡ 0 → bit_or x y ≡ x + y
bit_or_below k x y h e =
    let whole : y / 2 ^ k * 2 ^ k ≡ y = omega (arith, mod-add-div' y (2 ^ k)) in
    omega (arith, whole, rw whole at (bit_or_disjoint_low k (y / 2 ^ k) x h))

pub bit_or_above : (k x y : ℕ) → x % 2 ^ k ≡ 0 → y < 2 ^ k → bit_or x y ≡ x + y
bit_or_above k x y e h = omega (arith, bit_or_comm x y, bit_or_below k y x h e)

bit_and_scaled : (k a m : ℕ) → bit_and a (m * 2 ^ k) ≡ bit_and (a / 2 ^ k) m * 2 ^ k
bit_and_scaled zero a m =
    let e : m * 2 ^ 0 ≡ m = omega arith in
    let e' : a ≡ a / 2 ^ 0 = omega arith in
    ap (bit_and a) e ∙ ap (λ n. bit_and n m) e' ∙ omega arith
bit_and_scaled (suc k) a m =
    let e : a / 2 / 2 ^ k ≡ a / 2 ^ suc k =
      div-div-eq-div-mul a 2 (2 ^ k) ∙ ap (λ n. a / n) (sym (pow-succ' 2 k)) in
    let half : m * 2 ^ suc k / 2 ≡ m * 2 ^ k = omega (arith, shift_one_more m k) in
    omega (
      arith,
      bit_and-halves a (m * 2 ^ suc k),
      ap (bit_and (a / 2)) half,
      bit_and_scaled k (a / 2) m,
      shift_one_more m k,
      shift_one_more (bit_and (a / 2 ^ suc k) m) k,
      ap (λ n. bit_and n m * 2 ^ k) e,
    )

-- A mask of `w` ones from bit `k` on.
pub bit_and_field : (k w a : ℕ) → bit_and a ((2 ^ w - 1) * 2 ^ k) ≡ a / 2 ^ k % 2 ^ w * 2 ^ k
bit_and_field k w a =
    bit_and_scaled k a (2 ^ w - 1) ∙ ap (λ n. n * 2 ^ k) (bit_and_low w (a / 2 ^ k))
