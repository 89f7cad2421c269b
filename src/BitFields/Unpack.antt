-- ===== src/BitFields/Unpack.antt =====
-- Words taken apart into narrower words and packed again, for each pair of widths.
use nexus_c.Base.{ℕ, ◌^◌, ◌%◌, ◌<◌, ◌≡◌, ◌∙◌, ap, bit_and, u8, u16, u32, arith, ◌>>>◌}
use nexus_c.Base.Bits.{bit_and_low}
use nexus_c.BitFields.Join.{
  join_2u8_lsb, join_2u8_msb, join_2u16_lsb, join_2u16_msb, join_2u32_lsb, join_2u32_msb,
  join_4u8_lsb, join_4u8_msb, join_4u16_lsb, join_4u16_msb, join_8u8_lsb, join_8u8_msb,
}
use nexus_c.BitFields.Pack.{
  uint16_pack_2u8_lsb, uint16_pack_2u8_msb, uint16_unpack_2u8_lsb, uint16_unpack_2u8_msb,
  uint32_pack_2u16_lsb, uint32_pack_2u16_msb, uint32_unpack_2u16_lsb, uint32_unpack_2u16_msb,
  uint32_pack_4u8_lsb, uint32_pack_4u8_msb, uint32_unpack_4u8_lsb, uint32_unpack_4u8_msb,
  uint64_pack_2u32_lsb, uint64_pack_2u32_msb, uint64_unpack_2u32_lsb, uint64_unpack_2u32_msb,
  uint64_pack_4u16_lsb, uint64_pack_4u16_msb, uint64_unpack_4u16_lsb, uint64_unpack_4u16_msb,
  uint64_pack_8u8_lsb, uint64_pack_8u8_msb, uint64_unpack_8u8_lsb, uint64_unpack_8u8_msb,
}

field8 : (x : ℕ) → u8 (bit_and x 0xFF) ≡ x % 2 ^ 8
field8 x = omega (arith, bit_and_low 8 x)

field8_lt : (x : ℕ) → u8 (bit_and x 0xFF) < 2 ^ 8
field8_lt x = omega arith

field16 : (x : ℕ) → u16 (bit_and x 0xFFFF) ≡ x % 2 ^ 16
field16 x = omega (arith, bit_and_low 16 x)

field16_lt : (x : ℕ) → u16 (bit_and x 0xFFFF) < 2 ^ 16
field16_lt x = omega arith

field32 : (x : ℕ) → u32 (bit_and x 0xFFFF_FFFF) ≡ x % 2 ^ 32
field32 x = omega (arith, bit_and_low 32 x)

field32_lt : (x : ℕ) → u32 (bit_and x 0xFFFF_FFFF) < 2 ^ 32
field32_lt x = omega arith

pub uint16_pack_2u8_lsb_unpack :
    (value : ℕ)
    → (let (b0, b1) = uint16_unpack_2u8_lsb value in uint16_pack_2u8_lsb b0 b1) ≡ value % 2 ^ 16
unfolding uint16_pack_2u8_lsb uint16_unpack_2u8_lsb
uint16_pack_2u8_lsb_unpack value =
    ap u16 (
      join_2u8_lsb (u8 (bit_and value 0xFF)) (u8 (bit_and (value >>> 8) 0xFF)) (field8_lt value)
        (field8_lt (value >>> 8)))
    ∙ omega (arith, field8 value, field8 (value >>> 8))

pub uint16_pack_2u8_msb_unpack :
    (value : ℕ)
    → (let (b0, b1) = uint16_unpack_2u8_msb value in uint16_pack_2u8_msb b0 b1) ≡ value % 2 ^ 16
unfolding uint16_pack_2u8_msb uint16_unpack_2u8_msb
uint16_pack_2u8_msb_unpack value =
    ap u16 (
      join_2u8_msb (u8 (bit_and (value >>> 8) 0xFF)) (u8 (bit_and value 0xFF))
        (field8_lt (value >>> 8)) (field8_lt value))
    ∙ omega (arith, field8 (value >>> 8), field8 value)

pub uint32_pack_2u16_lsb_unpack :
    (value : ℕ)
    → (let (b0, b1) = uint32_unpack_2u16_lsb value in uint32_pack_2u16_lsb b0 b1) ≡ value % 2 ^ 32
unfolding uint32_pack_2u16_lsb uint32_unpack_2u16_lsb
uint32_pack_2u16_lsb_unpack value =
    join_2u16_lsb (u16 (bit_and value 0xFFFF)) (u16 (bit_and (value >>> 16) 0xFFFF))
      (field16_lt value) (field16_lt (value >>> 16))
    ∙ omega (arith, field16 value, field16 (value >>> 16))

pub uint32_pack_2u16_msb_unpack :
    (value : ℕ)
    → (let (b0, b1) = uint32_unpack_2u16_msb value in uint32_pack_2u16_msb b0 b1) ≡ value % 2 ^ 32
unfolding uint32_pack_2u16_msb uint32_unpack_2u16_msb
uint32_pack_2u16_msb_unpack value =
    join_2u16_msb (u16 (bit_and (value >>> 16) 0xFFFF)) (u16 (bit_and value 0xFFFF))
      (field16_lt (value >>> 16)) (field16_lt value)
    ∙ omega (arith, field16 (value >>> 16), field16 value)

pub uint32_pack_4u8_lsb_unpack :
    (value : ℕ)
    → (let (b0, b1, b2, b3) = uint32_unpack_4u8_lsb value in uint32_pack_4u8_lsb b0 b1 b2 b3)
      ≡ value % 2 ^ 32
unfolding uint32_pack_4u8_lsb uint32_unpack_4u8_lsb
uint32_pack_4u8_lsb_unpack value =
    join_4u8_lsb (u8 (bit_and value 0xFF)) (u8 (bit_and (value >>> 8) 0xFF))
      (u8 (bit_and (value >>> 16) 0xFF)) (u8 (bit_and (value >>> 24) 0xFF)) (field8_lt value)
      (field8_lt (value >>> 8)) (field8_lt (value >>> 16)) (field8_lt (value >>> 24))
    ∙ omega
        (arith, field8 value, field8 (value >>> 8), field8 (value >>> 16), field8 (value >>> 24))

pub uint32_pack_4u8_msb_unpack :
    (value : ℕ)
    → (let (b0, b1, b2, b3) = uint32_unpack_4u8_msb value in uint32_pack_4u8_msb b0 b1 b2 b3)
      ≡ value % 2 ^ 32
unfolding uint32_pack_4u8_msb uint32_unpack_4u8_msb
uint32_pack_4u8_msb_unpack value =
    join_4u8_msb (u8 (bit_and (value >>> 24) 0xFF)) (u8 (bit_and (value >>> 16) 0xFF))
      (u8 (bit_and (value >>> 8) 0xFF)) (u8 (bit_and value 0xFF)) (field8_lt (value >>> 24))
      (field8_lt (value >>> 16)) (field8_lt (value >>> 8)) (field8_lt value)
    ∙ omega
        (arith, field8 (value >>> 24), field8 (value >>> 16), field8 (value >>> 8), field8 value)

pub uint64_pack_2u32_lsb_unpack :
    (value : ℕ)
    → (let (b0, b1) = uint64_unpack_2u32_lsb value in uint64_pack_2u32_lsb b0 b1) ≡ value % 2 ^ 64
unfolding uint64_pack_2u32_lsb uint64_unpack_2u32_lsb
uint64_pack_2u32_lsb_unpack value =
    join_2u32_lsb (u32 (bit_and value 0xFFFF_FFFF)) (u32 (bit_and (value >>> 32) 0xFFFF_FFFF))
      (field32_lt value) (field32_lt (value >>> 32))
    ∙ omega (arith, field32 value, field32 (value >>> 32))

pub uint64_pack_2u32_msb_unpack :
    (value : ℕ)
    → (let (b0, b1) = uint64_unpack_2u32_msb value in uint64_pack_2u32_msb b0 b1) ≡ value % 2 ^ 64
unfolding uint64_pack_2u32_msb uint64_unpack_2u32_msb
uint64_pack_2u32_msb_unpack value =
    join_2u32_msb (u32 (bit_and (value >>> 32) 0xFFFF_FFFF)) (u32 (bit_and value 0xFFFF_FFFF))
      (field32_lt (value >>> 32)) (field32_lt value)
    ∙ omega (arith, field32 (value >>> 32), field32 value)

pub uint64_pack_4u16_lsb_unpack :
    (value : ℕ)
    → (let (b0, b1, b2, b3) = uint64_unpack_4u16_lsb value in uint64_pack_4u16_lsb b0 b1 b2 b3)
      ≡ value % 2 ^ 64
unfolding uint64_pack_4u16_lsb uint64_unpack_4u16_lsb
uint64_pack_4u16_lsb_unpack value =
    join_4u16_lsb (u16 (bit_and value 0xFFFF)) (u16 (bit_and (value >>> 16) 0xFFFF))
      (u16 (bit_and (value >>> 32) 0xFFFF)) (u16 (bit_and (value >>> 48) 0xFFFF)) (field16_lt value)
      (field16_lt (value >>> 16)) (field16_lt (value >>> 32)) (field16_lt (value >>> 48))
    ∙ omega (
      arith,
      field16 value,
      field16 (value >>> 16),
      field16 (value >>> 32),
      field16 (value >>> 48),
    )

pub uint64_pack_4u16_msb_unpack :
    (value : ℕ)
    → (let (b0, b1, b2, b3) = uint64_unpack_4u16_msb value in uint64_pack_4u16_msb b0 b1 b2 b3)
      ≡ value % 2 ^ 64
unfolding uint64_pack_4u16_msb uint64_unpack_4u16_msb
uint64_pack_4u16_msb_unpack value =
    join_4u16_msb (u16 (bit_and (value >>> 48) 0xFFFF)) (u16 (bit_and (value >>> 32) 0xFFFF))
      (u16 (bit_and (value >>> 16) 0xFFFF)) (u16 (bit_and value 0xFFFF)) (field16_lt (value >>> 48))
      (field16_lt (value >>> 32)) (field16_lt (value >>> 16)) (field16_lt value)
    ∙ omega (
      arith,
      field16 (value >>> 48),
      field16 (value >>> 32),
      field16 (value >>> 16),
      field16 value,
    )

pub uint64_pack_8u8_lsb_unpack :
    (value : ℕ)
    → (let (b0, b1, b2, b3, b4, b5, b6, b7) = uint64_unpack_8u8_lsb value in
        uint64_pack_8u8_lsb b0 b1 b2 b3 b4 b5 b6 b7)
      ≡ value % 2 ^ 64
unfolding uint64_pack_8u8_lsb uint64_unpack_8u8_lsb
uint64_pack_8u8_lsb_unpack value =
    join_8u8_lsb (u8 (bit_and value 0xFF)) (u8 (bit_and (value >>> 8) 0xFF))
      (u8 (bit_and (value >>> 16) 0xFF)) (u8 (bit_and (value >>> 24) 0xFF))
      (u8 (bit_and (value >>> 32) 0xFF)) (u8 (bit_and (value >>> 40) 0xFF))
      (u8 (bit_and (value >>> 48) 0xFF)) (u8 (bit_and (value >>> 56) 0xFF)) (field8_lt value)
      (field8_lt (value >>> 8)) (field8_lt (value >>> 16)) (field8_lt (value >>> 24))
      (field8_lt (value >>> 32)) (field8_lt (value >>> 40)) (field8_lt (value >>> 48))
      (field8_lt (value >>> 56))
    ∙ omega (
      arith,
      field8 value,
      field8 (value >>> 8),
      field8 (value >>> 16),
      field8 (value >>> 24),
      field8 (value >>> 32),
      field8 (value >>> 40),
      field8 (value >>> 48),
      field8 (value >>> 56),
    )

pub uint64_pack_8u8_msb_unpack :
    (value : ℕ)
    → (let (b0, b1, b2, b3, b4, b5, b6, b7) = uint64_unpack_8u8_msb value in
        uint64_pack_8u8_msb b0 b1 b2 b3 b4 b5 b6 b7)
      ≡ value % 2 ^ 64
unfolding uint64_pack_8u8_msb uint64_unpack_8u8_msb
uint64_pack_8u8_msb_unpack value =
    join_8u8_msb (u8 (bit_and (value >>> 56) 0xFF)) (u8 (bit_and (value >>> 48) 0xFF))
      (u8 (bit_and (value >>> 40) 0xFF)) (u8 (bit_and (value >>> 32) 0xFF))
      (u8 (bit_and (value >>> 24) 0xFF)) (u8 (bit_and (value >>> 16) 0xFF))
      (u8 (bit_and (value >>> 8) 0xFF)) (u8 (bit_and value 0xFF)) (field8_lt (value >>> 56))
      (field8_lt (value >>> 48)) (field8_lt (value >>> 40)) (field8_lt (value >>> 32))
      (field8_lt (value >>> 24)) (field8_lt (value >>> 16)) (field8_lt (value >>> 8))
      (field8_lt value)
    ∙ omega (
      arith,
      field8 (value >>> 56),
      field8 (value >>> 48),
      field8 (value >>> 40),
      field8 (value >>> 32),
      field8 (value >>> 24),
      field8 (value >>> 16),
      field8 (value >>> 8),
      field8 value,
    )
