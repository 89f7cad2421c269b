-- ===== src/BitFields/RoundTrip.antt =====
-- Words written to bytes and read, and taken apart and packed.
use nexus_c.Base.{ℕ, ◌^◌, ◌%◌, ◌≡◌}
use nexus_c.BitFields.Bytes.{
  uint16_to_bytes_lsb, uint16_to_bytes_msb, uint16_from_bytes_lsb, uint16_from_bytes_msb,
  uint32_to_bytes_lsb, uint32_to_bytes_msb, uint32_from_bytes_lsb, uint32_from_bytes_msb,
  uint64_to_bytes_lsb, uint64_to_bytes_msb, uint64_from_bytes_lsb, uint64_from_bytes_msb,
}
use nexus_c.BitFields.Pack.{
  uint16_pack_2u8_lsb, uint16_pack_2u8_msb, uint16_unpack_2u8_lsb, uint16_unpack_2u8_msb,
  uint32_pack_2u16_lsb, uint32_pack_2u16_msb, uint32_unpack_2u16_lsb, uint32_unpack_2u16_msb,
  uint32_pack_4u8_lsb, uint32_pack_4u8_msb, uint32_unpack_4u8_lsb, uint32_unpack_4u8_msb,
  uint64_pack_2u32_lsb, uint64_pack_2u32_msb, uint64_unpack_2u32_lsb, uint64_unpack_2u32_msb,
  uint64_pack_4u16_lsb, uint64_pack_4u16_msb, uint64_unpack_4u16_lsb, uint64_unpack_4u16_msb,
  uint64_pack_8u8_lsb, uint64_pack_8u8_msb, uint64_unpack_8u8_lsb, uint64_unpack_8u8_msb,
}
use nexus_c.BitFields.Unpack.{
  uint16_pack_2u8_lsb_unpack, uint16_pack_2u8_msb_unpack, uint32_pack_2u16_lsb_unpack,
  uint32_pack_2u16_msb_unpack, uint32_pack_4u8_lsb_unpack, uint32_pack_4u8_msb_unpack,
  uint64_pack_2u32_lsb_unpack, uint64_pack_2u32_msb_unpack, uint64_pack_4u16_lsb_unpack,
  uint64_pack_4u16_msb_unpack, uint64_pack_8u8_lsb_unpack, uint64_pack_8u8_msb_unpack,
}

uint16_bytes_lsb :
    (out : ℕ → ℕ) (value : ℕ)
    → uint16_from_bytes_lsb (uint16_to_bytes_lsb out value) ≡ value % 2 ^ 16
unfolding uint16_from_bytes_lsb uint16_to_bytes_lsb
uint16_bytes_lsb out value =
    unfold uint16_pack_2u8_lsb uint16_unpack_2u8_lsb in uint16_pack_2u8_lsb_unpack value

uint16_bytes_msb :
    (out : ℕ → ℕ) (value : ℕ)
    → uint16_from_bytes_msb (uint16_to_bytes_msb out value) ≡ value % 2 ^ 16
unfolding uint16_from_bytes_msb uint16_to_bytes_msb
uint16_bytes_msb out value =
    unfold uint16_pack_2u8_msb uint16_unpack_2u8_msb in uint16_pack_2u8_msb_unpack value

uint32_bytes_lsb :
    (out : ℕ → ℕ) (value : ℕ)
    → uint32_from_bytes_lsb (uint32_to_bytes_lsb out value) ≡ value % 2 ^ 32
unfolding uint32_from_bytes_lsb uint32_to_bytes_lsb
uint32_bytes_lsb out value =
    unfold uint32_pack_4u8_lsb uint32_unpack_4u8_lsb in uint32_pack_4u8_lsb_unpack value

uint32_bytes_msb :
    (out : ℕ → ℕ) (value : ℕ)
    → uint32_from_bytes_msb (uint32_to_bytes_msb out value) ≡ value % 2 ^ 32
unfolding uint32_from_bytes_msb uint32_to_bytes_msb
uint32_bytes_msb out value =
    unfold uint32_pack_4u8_msb uint32_unpack_4u8_msb in uint32_pack_4u8_msb_unpack value

uint64_bytes_lsb :
    (out : ℕ → ℕ) (value : ℕ)
    → uint64_from_bytes_lsb (uint64_to_bytes_lsb out value) ≡ value % 2 ^ 64
unfolding uint64_from_bytes_lsb uint64_to_bytes_lsb
uint64_bytes_lsb out value =
    unfold uint64_pack_8u8_lsb uint64_unpack_8u8_lsb in uint64_pack_8u8_lsb_unpack value

uint64_bytes_msb :
    (out : ℕ → ℕ) (value : ℕ)
    → uint64_from_bytes_msb (uint64_to_bytes_msb out value) ≡ value % 2 ^ 64
unfolding uint64_from_bytes_msb uint64_to_bytes_msb
uint64_bytes_msb out value =
    unfold uint64_pack_8u8_msb uint64_unpack_8u8_msb in uint64_pack_8u8_msb_unpack value

-- A word written to bytes, lowest or highest first, is read back modulo its width, whatever the buffer
-- held before.
pub from_bytes-to_bytes :
    (out : ℕ → ℕ) (value : ℕ)
    → (uint16_from_bytes_lsb (uint16_to_bytes_lsb out value) ≡ value % 2 ^ 16)
      × (uint16_from_bytes_msb (uint16_to_bytes_msb out value) ≡ value % 2 ^ 16)
      × (uint32_from_bytes_lsb (uint32_to_bytes_lsb out value) ≡ value % 2 ^ 32)
      × (uint32_from_bytes_msb (uint32_to_bytes_msb out value) ≡ value % 2 ^ 32)
      × (uint64_from_bytes_lsb (uint64_to_bytes_lsb out value) ≡ value % 2 ^ 64)
      × (uint64_from_bytes_msb (uint64_to_bytes_msb out value) ≡ value % 2 ^ 64)
from_bytes-to_bytes out value = (
  uint16_bytes_lsb out value,
  uint16_bytes_msb out value,
  uint32_bytes_lsb out value,
  uint32_bytes_msb out value,
  uint64_bytes_lsb out value,
  uint64_bytes_msb out value,
)

-- A word taken apart into narrower words, lowest or highest first, is packed again modulo its width.
pub pack-unpack :
    (value : ℕ)
    → ((let (b0, b1) = uint16_unpack_2u8_lsb value in uint16_pack_2u8_lsb b0 b1) ≡ value % 2 ^ 16)
      × ((let (b0, b1) = uint16_unpack_2u8_msb value in uint16_pack_2u8_msb b0 b1) ≡ value % 2 ^ 16)
      × ((let (b0, b1) = uint32_unpack_2u16_lsb value in uint32_pack_2u16_lsb b0 b1)
          ≡ value % 2 ^ 32)
      × ((let (b0, b1) = uint32_unpack_2u16_msb value in uint32_pack_2u16_msb b0 b1)
          ≡ value % 2 ^ 32)
      × ((let (b0, b1, b2, b3) = uint32_unpack_4u8_lsb value in uint32_pack_4u8_lsb b0 b1 b2 b3)
          ≡ value % 2 ^ 32)
      × ((let (b0, b1, b2, b3) = uint32_unpack_4u8_msb value in uint32_pack_4u8_msb b0 b1 b2 b3)
          ≡ value % 2 ^ 32)
      × ((let (b0, b1) = uint64_unpack_2u32_lsb value in uint64_pack_2u32_lsb b0 b1)
          ≡ value % 2 ^ 64)
      × ((let (b0, b1) = uint64_unpack_2u32_msb value in uint64_pack_2u32_msb b0 b1)
          ≡ value % 2 ^ 64)
      × ((let (b0, b1, b2, b3) = uint64_unpack_4u16_lsb value in uint64_pack_4u16_lsb b0 b1 b2 b3)
          ≡ value % 2 ^ 64)
      × ((let (b0, b1, b2, b3) = uint64_unpack_4u16_msb value in uint64_pack_4u16_msb b0 b1 b2 b3)
          ≡ value % 2 ^ 64)
      × ((let (b0, b1, b2, b3, b4, b5, b6, b7) = uint64_unpack_8u8_lsb value in
            uint64_pack_8u8_lsb b0 b1 b2 b3 b4 b5 b6 b7)
          ≡ value % 2 ^ 64)
      × ((let (b0, b1, b2, b3, b4, b5, b6, b7) = uint64_unpack_8u8_msb value in
            uint64_pack_8u8_msb b0 b1 b2 b3 b4 b5 b6 b7)
          ≡ value % 2 ^ 64)
pack-unpack value = (
  uint16_pack_2u8_lsb_unpack value,
  uint16_pack_2u8_msb_unpack value,
  uint32_pack_2u16_lsb_unpack value,
  uint32_pack_2u16_msb_unpack value,
  uint32_pack_4u8_lsb_unpack value,
  uint32_pack_4u8_msb_unpack value,
  uint64_pack_2u32_lsb_unpack value,
  uint64_pack_2u32_msb_unpack value,
  uint64_pack_4u16_lsb_unpack value,
  uint64_pack_4u16_msb_unpack value,
  uint64_pack_8u8_lsb_unpack value,
  uint64_pack_8u8_msb_unpack value,
)
