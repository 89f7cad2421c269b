-- ===== src/BitFields/Pack.antt =====
-- Words packed from narrower words and taken apart (nexus.h, lines 4783 to 5060).
use nexus_c.Base.{ℕ, u8, u16, u32, bit_and, bit_or, ◌<<<◌, ◌>>>◌}

unfoldable pub uint16_lo_u8 : ℕ → ℕ
uint16_lo_u8 value = u8 (bit_and value 0xFF)

unfoldable pub uint16_hi_u8 : ℕ → ℕ
uint16_hi_u8 value = u8 (bit_and (value >>> 8) 0xFF)

unfoldable pub uint32_lo_u16 : ℕ → ℕ
uint32_lo_u16 value = u16 (bit_and value 0xFFFF)

unfoldable pub uint32_hi_u16 : ℕ → ℕ
uint32_hi_u16 value = u16 (bit_and (value >>> 16) 0xFFFF)

unfoldable pub uint64_lo_u32 : ℕ → ℕ
uint64_lo_u32 value = u32 (bit_and value 0xFFFF_FFFF)

unfoldable pub uint64_hi_u32 : ℕ → ℕ
uint64_hi_u32 value = u32 (bit_and (value >>> 32) 0xFFFF_FFFF)

unfoldable pub uint16_pack_2u8_lsb : ℕ → ℕ → ℕ
uint16_pack_2u8_lsb b0 b1 = u16 (bit_or b0 (b1 <<< 8))

unfoldable pub uint16_unpack_2u8_lsb : ℕ → ℕ × ℕ
uint16_unpack_2u8_lsb value = (u8 (bit_and value 0xFF), u8 (bit_and (value >>> 8) 0xFF))

unfoldable pub uint16_pack_2u8_msb : ℕ → ℕ → ℕ
uint16_pack_2u8_msb b0 b1 = u16 (bit_or (b0 <<< 8) b1)

unfoldable pub uint16_unpack_2u8_msb : ℕ → ℕ × ℕ
uint16_unpack_2u8_msb value = (u8 (bit_and (value >>> 8) 0xFF), u8 (bit_and value 0xFF))

unfoldable pub uint32_pack_2u16_lsb : ℕ → ℕ → ℕ
uint32_pack_2u16_lsb b0 b1 = bit_or b0 (b1 <<< 16)

unfoldable pub uint32_unpack_2u16_lsb : ℕ → ℕ × ℕ
uint32_unpack_2u16_lsb value = (u16 (bit_and value 0xFFFF), u16 (bit_and (value >>> 16) 0xFFFF))

unfoldable pub uint32_pack_2u16_msb : ℕ → ℕ → ℕ
uint32_pack_2u16_msb b0 b1 = bit_or (b0 <<< 16) b1

unfoldable pub uint32_unpack_2u16_msb : ℕ → ℕ × ℕ
uint32_unpack_2u16_msb value = (u16 (bit_and (value >>> 16) 0xFFFF), u16 (bit_and value 0xFFFF))

unfoldable pub uint32_pack_4u8_lsb : ℕ → ℕ → ℕ → ℕ → ℕ
uint32_pack_4u8_lsb b0 b1 b2 b3 = bit_or (bit_or (bit_or b0 (b1 <<< 8)) (b2 <<< 16)) (b3 <<< 24)

unfoldable pub uint32_unpack_4u8_lsb : ℕ → ℕ × ℕ × ℕ × ℕ
uint32_unpack_4u8_lsb value = (
  u8 (bit_and value 0xFF),
  u8 (bit_and (value >>> 8) 0xFF),
  u8 (bit_and (value >>> 16) 0xFF),
  u8 (bit_and (value >>> 24) 0xFF),
)

unfoldable pub uint32_pack_4u8_msb : ℕ → ℕ → ℕ → ℕ → ℕ
uint32_pack_4u8_msb b0 b1 b2 b3 = bit_or (bit_or (bit_or (b0 <<< 24) (b1 <<< 16)) (b2 <<< 8)) b3

unfoldable pub uint32_unpack_4u8_msb : ℕ → ℕ × ℕ × ℕ × ℕ
uint32_unpack_4u8_msb value = (
  u8 (bit_and (value >>> 24) 0xFF),
  u8 (bit_and (value >>> 16) 0xFF),
  u8 (bit_and (value >>> 8) 0xFF),
  u8 (bit_and value 0xFF),
)

unfoldable pub uint64_pack_2u32_lsb : ℕ → ℕ → ℕ
uint64_pack_2u32_lsb b0 b1 = bit_or b0 (b1 <<< 32)

unfoldable pub uint64_unpack_2u32_lsb : ℕ → ℕ × ℕ
uint64_unpack_2u32_lsb value =
    (u32 (bit_and value 0xFFFF_FFFF), u32 (bit_and (value >>> 32) 0xFFFF_FFFF))

unfoldable pub uint64_pack_2u32_msb : ℕ → ℕ → ℕ
uint64_pack_2u32_msb b0 b1 = bit_or (b0 <<< 32) b1

unfoldable pub uint64_unpack_2u32_msb : ℕ → ℕ × ℕ
uint64_unpack_2u32_msb value =
    (u32 (bit_and (value >>> 32) 0xFFFF_FFFF), u32 (bit_and value 0xFFFF_FFFF))

unfoldable pub uint64_pack_4u16_lsb : ℕ → ℕ → ℕ → ℕ → ℕ
uint64_pack_4u16_lsb b0 b1 b2 b3 = bit_or (bit_or (bit_or b0 (b1 <<< 16)) (b2 <<< 32)) (b3 <<< 48)

unfoldable pub uint64_unpack_4u16_lsb : ℕ → ℕ × ℕ × ℕ × ℕ
uint64_unpack_4u16_lsb value = (
  u16 (bit_and value 0xFFFF),
  u16 (bit_and (value >>> 16) 0xFFFF),
  u16 (bit_and (value >>> 32) 0xFFFF),
  u16 (bit_and (value >>> 48) 0xFFFF),
)

unfoldable pub uint64_pack_4u16_msb : ℕ → ℕ → ℕ → ℕ → ℕ
uint64_pack_4u16_msb b0 b1 b2 b3 = bit_or (bit_or (bit_or (b0 <<< 48) (b1 <<< 32)) (b2 <<< 16)) b3

unfoldable pub uint64_unpack_4u16_msb : ℕ → ℕ × ℕ × ℕ × ℕ
uint64_unpack_4u16_msb value = (
  u16 (bit_and (value >>> 48) 0xFFFF),
  u16 (bit_and (value >>> 32) 0xFFFF),
  u16 (bit_and (value >>> 16) 0xFFFF),
  u16 (bit_and value 0xFFFF),
)

unfoldable pub uint64_pack_8u8_lsb : ℕ → ℕ → ℕ → ℕ → ℕ → ℕ → ℕ → ℕ → ℕ
uint64_pack_8u8_lsb b0 b1 b2 b3 b4 b5 b6 b7 =
    bit_or
      (bit_or
        (bit_or
          (bit_or (bit_or (bit_or (bit_or b0 (b1 <<< 8)) (b2 <<< 16)) (b3 <<< 24)) (b4 <<< 32))
          (b5 <<< 40))
        (b6 <<< 48))
      (b7 <<< 56)

unfoldable pub uint64_unpack_8u8_lsb : ℕ → ℕ × ℕ × ℕ × ℕ × ℕ × ℕ × ℕ × ℕ
uint64_unpack_8u8_lsb value = (
  u8 (bit_and value 0xFF),
  u8 (bit_and (value >>> 8) 0xFF),
  u8 (bit_and (value >>> 16) 0xFF),
  u8 (bit_and (value >>> 24) 0xFF),
  u8 (bit_and (value >>> 32) 0xFF),
  u8 (bit_and (value >>> 40) 0xFF),
  u8 (bit_and (value >>> 48) 0xFF),
  u8 (bit_and (value >>> 56) 0xFF),
)

unfoldable pub uint64_pack_8u8_msb : ℕ → ℕ → ℕ → ℕ → ℕ → ℕ → ℕ → ℕ → ℕ
uint64_pack_8u8_msb b0 b1 b2 b3 b4 b5 b6 b7 =
    bit_or
      (bit_or
        (bit_or
          (bit_or (bit_or (bit_or (bit_or (b0 <<< 56) (b1 <<< 48)) (b2 <<< 40)) (b3 <<< 32))
            (b4 <<< 24))
          (b5 <<< 16))
        (b6 <<< 8))
      b7

unfoldable pub uint64_unpack_8u8_msb : ℕ → ℕ × ℕ × ℕ × ℕ × ℕ × ℕ × ℕ × ℕ
uint64_unpack_8u8_msb value = (
  u8 (bit_and (value >>> 56) 0xFF),
  u8 (bit_and (value >>> 48) 0xFF),
  u8 (bit_and (value >>> 40) 0xFF),
  u8 (bit_and (value >>> 32) 0xFF),
  u8 (bit_and (value >>> 24) 0xFF),
  u8 (bit_and (value >>> 16) 0xFF),
  u8 (bit_and (value >>> 8) 0xFF),
  u8 (bit_and value 0xFF),
)
