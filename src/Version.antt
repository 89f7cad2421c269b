-- ===== src/Version.antt =====
-- Semantic versions (nexus.h and src/n_version.c, lines 3 to 17): four fields of 16 bits in one number.
use nexus_c.Base.{
  ℕ, ◌*◌, ◌+◌, ◌^◌, ◌<◌, ◌≡◌, ◌∙◌, ap, bit_and, bit_or, u16, u64, ◌<<<◌, ◌>>>◌, arith,
}
use nexus_c.Base.Bits.{bit_and_low, bit_or_disjoint}
mod Tests

unfoldable pub version_pack : ℕ → ℕ → ℕ → ℕ → ℕ
version_pack variant major minor patch =
    bit_or
      (bit_or (bit_or (u64 (bit_and variant 0xFFFF <<< 48)) (u64 (bit_and major 0xFFFF <<< 32)))
        (u64 (bit_and minor 0xFFFF <<< 16)))
      (bit_and patch 0xFFFF)

-- The variant, the major and the minor number, and the patch.
unfoldable pub version_unpack : ℕ → ℕ × ℕ × ℕ × ℕ
version_unpack version = (
  u16 (bit_and (version >>> 48) 0xFFFF),
  u16 (bit_and (version >>> 32) 0xFFFF),
  u16 (bit_and (version >>> 16) 0xFFFF),
  u16 (bit_and version 0xFFFF),
)

version_pack-parts :
    (a b c d : ℕ)
    → a < 2 ^ 16
    → b < 2 ^ 16
    → c < 2 ^ 16
    → d < 2 ^ 16
    → version_pack a b c d ≡ ((a * 2 ^ 16 + b) * 2 ^ 16 + c) * 2 ^ 16 + d
unfolding version_pack
version_pack-parts a b c d ha hb hc hd =
    let e1 : u64 (bit_and a 0xFFFF <<< 48) ≡ a * 2 ^ 48 = omega (arith, bit_and_low 16 a) in
    let e2 : u64 (bit_and b 0xFFFF <<< 32) ≡ b * 2 ^ 32 = omega (arith, bit_and_low 16 b) in
    let e3 : u64 (bit_and c 0xFFFF <<< 16) ≡ c * 2 ^ 16 = omega (arith, bit_and_low 16 c) in
    let e4 : bit_and d 0xFFFF ≡ d = omega (arith, bit_and_low 16 d) in
    let j1 : bit_or (a * 2 ^ 48) (b * 2 ^ 32) ≡ (a * 2 ^ 16 + b) * 2 ^ 32 =
      bit_or_disjoint 48 a (b * 2 ^ 32) (omega arith) ∙ omega arith in
    let j2 : bit_or ((a * 2 ^ 16 + b) * 2 ^ 32) (c * 2 ^ 16)
        ≡ ((a * 2 ^ 16 + b) * 2 ^ 16 + c) * 2 ^ 16 =
      bit_or_disjoint 32 (a * 2 ^ 16 + b) (c * 2 ^ 16) (omega arith) ∙ omega arith in
    rw (e1, e2, e3, e4)
      (ap (λ x. bit_or (bit_or x (c * 2 ^ 16)) d) j1
        ∙ ap (λ x. bit_or x d) j2
        ∙ bit_or_disjoint 16 ((a * 2 ^ 16 + b) * 2 ^ 16 + c) d hd)

field : (n : ℕ) → u16 (bit_and n 0xFFFF) ≡ u16 n
field n = omega (arith, bit_and_low 16 n)

-- What is packed is unpacked again, for fields of 16 bits.
pub version_unpack-version_pack :
    (a b c d : ℕ)
    → a < 2 ^ 16
    → b < 2 ^ 16
    → c < 2 ^ 16
    → d < 2 ^ 16
    → version_unpack (version_pack a b c d) ≡ (a, b, c, d)
unfolding version_unpack
version_unpack-version_pack a b c d ha hb hc hd =
    let v = version_pack a b c d in
    let e = version_pack-parts a b c d ha hb hc hd in
    let e1 : u16 (bit_and (v >>> 48) 0xFFFF) ≡ a = omega (arith, field (v >>> 48), e) in
    let e2 : u16 (bit_and (v >>> 32) 0xFFFF) ≡ b = omega (arith, field (v >>> 32), e) in
    let e3 : u16 (bit_and (v >>> 16) 0xFFFF) ≡ c = omega (arith, field (v >>> 16), e) in
    let e4 : u16 (bit_and v 0xFFFF) ≡ d = omega (arith, field v, e) in λ i. (e1 i, e2 i, e3 i, e4 i)
