-- ===== src/Identity/Stamp.antt =====
-- What setting the version and the variant does to a UUID, and what the generators return.
use nexus_c.Base.{ℕ, ◌+◌, ◌*◌, ◌^◌, ◌/◌, ◌%◌, ◌<◌, ◌≡◌, ◌∙◌, bit_and, bit_or, u8, arith}
use nexus_c.Base.Bits.{bit_and_low, bit_or_disjoint, bit_or_comm}
use nexus_c.Identity.Generate.{version_set}
use nexus_c.Uint128.Arith.{Uint128}
use nexus_c.Uint128.Bytes.{bytes_big_endian_read}
use nexus_c.Uint128.ByteOrder.{
  AllBytes, update-AllBytes, big_endian, hi-bytes_big_endian_read, lo-bytes_big_endian_read,
}

-- A UUID of a version, in all other places equal to some plain 128 bits.
pub record IsStamped (version : ℕ) (plain u : Uint128) : Type 0 where
  pub upper : u.hi / 2 ^ 16 ≡ plain.hi / 2 ^ 16
  pub version_nibble : u.hi / 2 ^ 12 % 16 ≡ version
  pub middle : u.hi % 2 ^ 12 ≡ plain.hi % 2 ^ 12
  pub variant_bits : u.lo / 2 ^ 62 ≡ 2
  pub lower : u.lo % 2 ^ 62 ≡ plain.lo % 2 ^ 62

version_byte : (b v : ℕ) → v < 16 → u8 (bit_or (bit_and b 0x0F) (v * 2 ^ 4)) ≡ v * 16 + b % 16
version_byte b v h =
    let low : bit_and b 0x0F ≡ b % 16 = omega (arith, bit_and_low 4 b) in
    rw low
      (omega (arith, bit_or_comm (b % 16) (v * 2 ^ 4), bit_or_disjoint 4 v (b % 16) (omega arith)))

variant_byte : (b : ℕ) → u8 (bit_or (bit_and b 0x3F) 0x80) ≡ 128 + b % 64
variant_byte b =
    let low : bit_and b 0x3F ≡ b % 64 = omega (arith, bit_and_low 6 b) in
    rw low (omega (arith, bit_or_comm (b % 64) 0x80, bit_or_disjoint 7 1 (b % 64) (omega arith)))

version_set-AllBytes : (v : ℕ) (bytes : ℕ → ℕ) → AllBytes bytes → AllBytes (version_set v bytes)
unfolding version_set
version_set-AllBytes v bytes h =
    update-AllBytes 8 (u8 (bit_or (bit_and (bytes 8) 0x3F) 0x80))
      (update-AllBytes 6 (u8 (bit_or (bit_and (bytes 6) 0x0F) v)) h (omega arith)) (omega arith)

module _ (v : ℕ) (bytes : ℕ → ℕ) (h : AllBytes bytes) (small : v < 16) where
  pub hi_stamped :
      (bytes_big_endian_read (version_set (v * 2 ^ 4) bytes)).hi
      ≡ big_endian 6 bytes * 2 ^ 16 + (v * 16 + bytes 6 % 16) * 256 + bytes 7
  unfolding version_set
  hi_stamped =
      hi-bytes_big_endian_read (version_set (v * 2 ^ 4) bytes)
        (version_set-AllBytes (v * 2 ^ 4) bytes h)
      ∙ omega (arith, version_byte (bytes 6) v small)

  pub lo_stamped :
      (bytes_big_endian_read (version_set (v * 2 ^ 4) bytes)).lo
      ≡ (128 + bytes 8 % 64) * 2 ^ 56 + big_endian 7 (λ i. bytes (i + 9))
  unfolding version_set
  lo_stamped =
      lo-bytes_big_endian_read (version_set (v * 2 ^ 4) bytes)
        (version_set-AllBytes (v * 2 ^ 4) bytes h)
      ∙ omega (arith, variant_byte (bytes 8))

  pub version_set-IsStamped :
      IsStamped v
        (bytes_big_endian_read bytes)
        (bytes_big_endian_read (version_set (v * 2 ^ 4) bytes))
  version_set-IsStamped = record {
    upper = omega (arith, hi_stamped, hi-bytes_big_endian_read bytes h, h 6, h 7);
    version_nibble = omega (arith, hi_stamped, h 7);
    middle = omega (arith, hi_stamped, hi-bytes_big_endian_read bytes h, h 6, h 7);
    variant_bits = omega (arith, lo_stamped, h 8, h 9, h 10, h 11, h 12, h 13, h 14, h 15);
    lower = omega (
      arith,
      lo_stamped,
      lo-bytes_big_endian_read bytes h,
      h 8,
      h 9,
      h 10,
      h 11,
      h 12,
      h 13,
      h 14,
      h 15,
    );
  }
