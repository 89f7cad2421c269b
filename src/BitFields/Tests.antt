-- ===== src/BitFields/Tests.antt =====
-- Runs of the bit operations, and their theorems at concrete words.
use nexus_c.Base.{ℕ, ◌^◌, ◌%◌, ◌≡◌, refl, true, false, if◌then◌else◌, ◌==◌, arith}
use nexus_c.BitFields.Bytes.{
  uint16_to_bytes_lsb, uint16_to_bytes_msb, uint16_from_bytes_lsb, uint16_from_bytes_msb,
  uint32_to_bytes_lsb, uint32_to_bytes_msb, uint32_from_bytes_lsb, uint32_from_bytes_msb,
  uint64_to_bytes_lsb, uint64_to_bytes_msb, uint64_from_bytes_lsb, uint64_from_bytes_msb,
}
use nexus_c.BitFields.Pack.{
  uint16_pack_2u8_lsb, uint16_pack_2u8_msb, uint16_unpack_2u8_lsb, uint16_unpack_2u8_msb,
  uint32_pack_2u16_lsb, uint32_pack_2u16_msb, uint32_unpack_2u16_lsb, uint32_unpack_2u16_msb,
  uint32_pack_4u8_lsb, uint32_pack_4u8_msb, uint32_unpack_4u8_lsb, uint32_unpack_4u8_msb,
  uint64_pack_2u32_lsb, uint64_pack_2u32_msb, uint64_unpack_2u32_lsb, uint64_unpack_2u32_msb,
  uint64_pack_4u16_lsb, uint64_pack_4u16_msb, uint64_unpack_4u16_lsb, uint64_unpack_4u16_msb,
  uint64_pack_8u8_lsb, uint64_pack_8u8_msb, uint64_unpack_8u8_lsb, uint64_unpack_8u8_msb,
}
use nexus_c.BitFields.RoundTrip.{from_bytes-to_bytes, pack-unpack}
use nexus_c.BitFields.Single.{bit_get, bit_set, bit_get-bit_set, uint8_set, uint8_get}

abbrev buffer : ℕ → ℕ
buffer i = 170

runs :
    (uint32_to_bytes_msb buffer 0x1234_5678 3 ≡ 0x78)
    × (uint16_pack_2u8_msb 0x12 0x34 ≡ 0x1234)
    × (uint8_set 0xFF 3 false ≡ 0xF7)
    × (uint8_get 0xF7 3 ≡ false)
unfolding uint32_to_bytes_msb uint16_pack_2u8_msb uint8_set uint8_get bit_set bit_get
runs = (refl, refl, refl, refl)

from_bytes-to_bytes_example :
    (uint16_from_bytes_lsb (uint16_to_bytes_lsb buffer 0x1234_5678_9ABC_DEF1)
      ≡ 0x1234_5678_9ABC_DEF1 % 2 ^ 16)
    × (uint16_from_bytes_msb (uint16_to_bytes_msb buffer 0x1234_5678_9ABC_DEF1)
        ≡ 0x1234_5678_9ABC_DEF1 % 2 ^ 16)
    × (uint32_from_bytes_lsb (uint32_to_bytes_lsb buffer 0x1234_5678_9ABC_DEF1)
        ≡ 0x1234_5678_9ABC_DEF1 % 2 ^ 32)
    × (uint32_from_bytes_msb (uint32_to_bytes_msb buffer 0x1234_5678_9ABC_DEF1)
        ≡ 0x1234_5678_9ABC_DEF1 % 2 ^ 32)
    × (uint64_from_bytes_lsb (uint64_to_bytes_lsb buffer 0x1234_5678_9ABC_DEF1)
        ≡ 0x1234_5678_9ABC_DEF1 % 2 ^ 64)
    × (uint64_from_bytes_msb (uint64_to_bytes_msb buffer 0x1234_5678_9ABC_DEF1)
        ≡ 0x1234_5678_9ABC_DEF1 % 2 ^ 64)
from_bytes-to_bytes_example = from_bytes-to_bytes buffer 0x1234_5678_9ABC_DEF1

pack-unpack_example :
    ((let (b0, b1) = uint16_unpack_2u8_lsb 0x1234_5678_9ABC_DEF1 in uint16_pack_2u8_lsb b0 b1)
      ≡ 0x1234_5678_9ABC_DEF1 % 2 ^ 16)
    × ((let (b0, b1) = uint16_unpack_2u8_msb 0x1234_5678_9ABC_DEF1 in uint16_pack_2u8_msb b0 b1)
        ≡ 0x1234_5678_9ABC_DEF1 % 2 ^ 16)
    × ((let (b0, b1) = uint32_unpack_2u16_lsb 0x1234_5678_9ABC_DEF1 in uint32_pack_2u16_lsb b0 b1)
        ≡ 0x1234_5678_9ABC_DEF1 % 2 ^ 32)
    × ((let (b0, b1) = uint32_unpack_2u16_msb 0x1234_5678_9ABC_DEF1 in uint32_pack_2u16_msb b0 b1)
        ≡ 0x1234_5678_9ABC_DEF1 % 2 ^ 32)
    × ((let (b0, b1, b2, b3) = uint32_unpack_4u8_lsb 0x1234_5678_9ABC_DEF1 in
          uint32_pack_4u8_lsb b0 b1 b2 b3)
        ≡ 0x1234_5678_9ABC_DEF1 % 2 ^ 32)
    × ((let (b0, b1, b2, b3) = uint32_unpack_4u8_msb 0x1234_5678_9ABC_DEF1 in
          uint32_pack_4u8_msb b0 b1 b2 b3)
        ≡ 0x1234_5678_9ABC_DEF1 % 2 ^ 32)
    × ((let (b0, b1) = uint64_unpack_2u32_lsb 0x1234_5678_9ABC_DEF1 in uint64_pack_2u32_lsb b0 b1)
        ≡ 0x1234_5678_9ABC_DEF1 % 2 ^ 64)
    × ((let (b0, b1) = uint64_unpack_2u32_msb 0x1234_5678_9ABC_DEF1 in uint64_pack_2u32_msb b0 b1)
        ≡ 0x1234_5678_9ABC_DEF1 % 2 ^ 64)
    × ((let (b0, b1, b2, b3) = uint64_unpack_4u16_lsb 0x1234_5678_9ABC_DEF1 in
          uint64_pack_4u16_lsb b0 b1 b2 b3)
        ≡ 0x1234_5678_9ABC_DEF1 % 2 ^ 64)
    × ((let (b0, b1, b2, b3) = uint64_unpack_4u16_msb 0x1234_5678_9ABC_DEF1 in
          uint64_pack_4u16_msb b0 b1 b2 b3)
        ≡ 0x1234_5678_9ABC_DEF1 % 2 ^ 64)
    × ((let (b0, b1, b2, b3, b4, b5, b6, b7) = uint64_unpack_8u8_lsb 0x1234_5678_9ABC_DEF1 in
          uint64_pack_8u8_lsb b0 b1 b2 b3 b4 b5 b6 b7)
        ≡ 0x1234_5678_9ABC_DEF1 % 2 ^ 64)
    × ((let (b0, b1, b2, b3, b4, b5, b6, b7) = uint64_unpack_8u8_msb 0x1234_5678_9ABC_DEF1 in
          uint64_pack_8u8_msb b0 b1 b2 b3 b4 b5 b6 b7)
        ≡ 0x1234_5678_9ABC_DEF1 % 2 ^ 64)
pack-unpack_example = pack-unpack 0x1234_5678_9ABC_DEF1

bit_get-bit_set_example :
    bit_get (bit_set 8 0xA0 3 true) 7 ≡ (if 7 == 3 then true else bit_get 0xA0 7)
bit_get-bit_set_example = bit_get-bit_set 8 0xA0 3 7 (omega arith) (omega arith) (omega arith) true
