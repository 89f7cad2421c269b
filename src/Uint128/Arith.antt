-- ===== src/Uint128/Arith.antt =====
-- The 128-bit integers of src/n_uint128.c (lines 1 to 91): two halves of 64 bits.
use nexus_c.Base.{
  ℕ, if◌then◌else◌, ◌+◌, ◌*◌, ◌-◌, ◌^◌, bit_and, bit_or, bit_xor, ltb, ◌==◌, u64, ◌<<<◌, ◌>>>◌,
}

pub record Uint128 : Type 0 where
  pub lo : ℕ
  pub hi : ℕ

unfoldable pub make : ℕ → ℕ → Uint128
make lo hi = record { lo = lo; hi = hi }

unfoldable pub zero128 : Uint128
zero128 = make 0 0

unfoldable pub add : Uint128 → Uint128 → Uint128
add left right =
    let lo = u64 (left.lo + right.lo) in
    let carry_lo = if ltb lo left.lo then 1 else 0 in
    record { lo = lo; hi = u64 (u64 (left.hi + right.hi) + carry_lo) }

unfoldable pub xor : Uint128 → Uint128 → Uint128
xor left right = record { lo = bit_xor left.lo right.lo; hi = bit_xor left.hi right.hi }

-- The source's out-parameters `out_hi` and `out_lo`, in this order.
unfoldable pub mul64_to128 : ℕ → ℕ → ℕ × ℕ
mul64_to128 left right =
    let left_lo = bit_and left (2 ^ 32 - 1) in
    let left_hi = left >>> 32 in
    let right_lo = bit_and right (2 ^ 32 - 1) in
    let right_hi = right >>> 32 in
    let product0 = u64 (left_lo * right_lo) in
    let product1 = u64 (left_lo * right_hi) in
    let product2 = u64 (left_hi * right_lo) in
    let product3 = u64 (left_hi * right_hi) in
    let middle =
      u64
        (u64 ((product0 >>> 32) + bit_and product1 (2 ^ 32 - 1)) + bit_and product2 (2 ^ 32 - 1)) in
    (
      u64 (u64 (u64 (product3 + (product1 >>> 32)) + (product2 >>> 32)) + (middle >>> 32)),
      bit_or (bit_and product0 (2 ^ 32 - 1)) (u64 (middle <<< 32)),
    )

unfoldable pub mul : Uint128 → Uint128 → Uint128
mul left right =
    let (hi, lo) = mul64_to128 left.lo right.lo in
    let (term_hi1, term_lo1) = mul64_to128 left.lo right.hi in
    let (term_hi2, term_lo2) = mul64_to128 left.hi right.lo in
    record { lo = lo; hi = u64 (u64 (hi + term_lo1) + term_lo2) }

unfoldable pub shift_right : Uint128 → ℕ → Uint128
shift_right value shift =
    if shift == 0
    then value
    else if ltb shift 64
    then record {
      lo = bit_or (value.lo >>> shift) (u64 (value.hi <<< (64 - shift)));
      hi = value.hi >>> shift;
    }
    else if ltb shift 128
    then record { lo = value.hi >>> (shift - 64); hi = 0 }
    else zero128

unfoldable pub fold_to_uint64 : Uint128 → ℕ
fold_to_uint64 value = bit_xor value.hi value.lo
