-- ===== src/BitFields/Join.antt =====
-- Fields joined by `|`, the lowest first and the highest first, are a sum.
use nexus_c.Base.{ℕ, ◌+◌, ◌*◌, ◌^◌, ◌<◌, ◌≡◌, refl, bit_or, arith, ◌<<<◌}
use nexus_c.Base.Bits.{bit_or_below, bit_or_above}

pub join_2u8_lsb : (b0 b1 : ℕ) → b0 < 2 ^ 8 → b1 < 2 ^ 8 → bit_or b0 (b1 <<< 8) ≡ b0 + b1 * 2 ^ 8
join_2u8_lsb b0 b1 h0 h1 = rw (bit_or_below 8 (b0) (b1 * 2 ^ 8) (omega arith) (omega arith)) refl

pub join_2u8_msb : (b0 b1 : ℕ) → b0 < 2 ^ 8 → b1 < 2 ^ 8 → bit_or (b0 <<< 8) b1 ≡ b0 * 2 ^ 8 + b1
join_2u8_msb b0 b1 h0 h1 = rw (bit_or_above 8 (b0 * 2 ^ 8) b1 (omega arith) (omega arith)) refl

pub join_2u16_lsb :
    (b0 b1 : ℕ) → b0 < 2 ^ 16 → b1 < 2 ^ 16 → bit_or b0 (b1 <<< 16) ≡ b0 + b1 * 2 ^ 16
join_2u16_lsb b0 b1 h0 h1 = rw (bit_or_below 16 (b0) (b1 * 2 ^ 16) (omega arith) (omega arith)) refl

pub join_2u16_msb :
    (b0 b1 : ℕ) → b0 < 2 ^ 16 → b1 < 2 ^ 16 → bit_or (b0 <<< 16) b1 ≡ b0 * 2 ^ 16 + b1
join_2u16_msb b0 b1 h0 h1 = rw (bit_or_above 16 (b0 * 2 ^ 16) b1 (omega arith) (omega arith)) refl

pub join_2u32_lsb :
    (b0 b1 : ℕ) → b0 < 2 ^ 32 → b1 < 2 ^ 32 → bit_or b0 (b1 <<< 32) ≡ b0 + b1 * 2 ^ 32
join_2u32_lsb b0 b1 h0 h1 = rw (bit_or_below 32 (b0) (b1 * 2 ^ 32) (omega arith) (omega arith)) refl

pub join_2u32_msb :
    (b0 b1 : ℕ) → b0 < 2 ^ 32 → b1 < 2 ^ 32 → bit_or (b0 <<< 32) b1 ≡ b0 * 2 ^ 32 + b1
join_2u32_msb b0 b1 h0 h1 = rw (bit_or_above 32 (b0 * 2 ^ 32) b1 (omega arith) (omega arith)) refl

pub join_4u8_lsb :
    (b0 b1 b2 b3 : ℕ)
    → b0 < 2 ^ 8
    → b1 < 2 ^ 8
    → b2 < 2 ^ 8
    → b3 < 2 ^ 8
    → bit_or (bit_or (bit_or b0 (b1 <<< 8)) (b2 <<< 16)) (b3 <<< 24)
      ≡ b0 + b1 * 2 ^ 8 + b2 * 2 ^ 16 + b3 * 2 ^ 24
join_4u8_lsb b0 b1 b2 b3 h0 h1 h2 h3 =
    rw
      (
        bit_or_below 8 (b0) (b1 * 2 ^ 8) (omega arith) (omega arith),
        bit_or_below 16 (b0 + b1 * 2 ^ 8) (b2 * 2 ^ 16) (omega arith) (omega arith),
        bit_or_below 24 (b0 + b1 * 2 ^ 8 + b2 * 2 ^ 16) (b3 * 2 ^ 24) (omega arith) (omega arith),
      )
      refl

pub join_4u8_msb :
    (b0 b1 b2 b3 : ℕ)
    → b0 < 2 ^ 8
    → b1 < 2 ^ 8
    → b2 < 2 ^ 8
    → b3 < 2 ^ 8
    → bit_or (bit_or (bit_or (b0 <<< 24) (b1 <<< 16)) (b2 <<< 8)) b3
      ≡ b0 * 2 ^ 24 + b1 * 2 ^ 16 + b2 * 2 ^ 8 + b3
join_4u8_msb b0 b1 b2 b3 h0 h1 h2 h3 =
    rw
      (
        bit_or_above 24 (b0 * 2 ^ 24) (b1 * 2 ^ 16) (omega arith) (omega arith),
        bit_or_above 16 (b0 * 2 ^ 24 + b1 * 2 ^ 16) (b2 * 2 ^ 8) (omega arith) (omega arith),
        bit_or_above 8 (b0 * 2 ^ 24 + b1 * 2 ^ 16 + b2 * 2 ^ 8) b3 (omega arith) (omega arith),
      )
      refl

pub join_4u16_lsb :
    (b0 b1 b2 b3 : ℕ)
    → b0 < 2 ^ 16
    → b1 < 2 ^ 16
    → b2 < 2 ^ 16
    → b3 < 2 ^ 16
    → bit_or (bit_or (bit_or b0 (b1 <<< 16)) (b2 <<< 32)) (b3 <<< 48)
      ≡ b0 + b1 * 2 ^ 16 + b2 * 2 ^ 32 + b3 * 2 ^ 48
join_4u16_lsb b0 b1 b2 b3 h0 h1 h2 h3 =
    rw
      (
        bit_or_below 16 (b0) (b1 * 2 ^ 16) (omega arith) (omega arith),
        bit_or_below 32 (b0 + b1 * 2 ^ 16) (b2 * 2 ^ 32) (omega arith) (omega arith),
        bit_or_below 48 (b0 + b1 * 2 ^ 16 + b2 * 2 ^ 32) (b3 * 2 ^ 48) (omega arith) (omega arith),
      )
      refl

pub join_4u16_msb :
    (b0 b1 b2 b3 : ℕ)
    → b0 < 2 ^ 16
    → b1 < 2 ^ 16
    → b2 < 2 ^ 16
    → b3 < 2 ^ 16
    → bit_or (bit_or (bit_or (b0 <<< 48) (b1 <<< 32)) (b2 <<< 16)) b3
      ≡ b0 * 2 ^ 48 + b1 * 2 ^ 32 + b2 * 2 ^ 16 + b3
join_4u16_msb b0 b1 b2 b3 h0 h1 h2 h3 =
    rw
      (
        bit_or_above 48 (b0 * 2 ^ 48) (b1 * 2 ^ 32) (omega arith) (omega arith),
        bit_or_above 32 (b0 * 2 ^ 48 + b1 * 2 ^ 32) (b2 * 2 ^ 16) (omega arith) (omega arith),
        bit_or_above 16 (b0 * 2 ^ 48 + b1 * 2 ^ 32 + b2 * 2 ^ 16) b3 (omega arith) (omega arith),
      )
      refl

pub join_8u8_lsb :
    (b0 b1 b2 b3 b4 b5 b6 b7 : ℕ)
    → b0 < 2 ^ 8
    → b1 < 2 ^ 8
    → b2 < 2 ^ 8
    → b3 < 2 ^ 8
    → b4 < 2 ^ 8
    → b5 < 2 ^ 8
    → b6 < 2 ^ 8
    → b7 < 2 ^ 8
    → bit_or
        (bit_or
          (bit_or
            (bit_or (bit_or (bit_or (bit_or b0 (b1 <<< 8)) (b2 <<< 16)) (b3 <<< 24)) (b4 <<< 32))
            (b5 <<< 40))
          (b6 <<< 48))
        (b7 <<< 56)
      ≡ b0
        + b1 * 2 ^ 8
        + b2 * 2 ^ 16
        + b3 * 2 ^ 24
        + b4 * 2 ^ 32
        + b5 * 2 ^ 40
        + b6 * 2 ^ 48
        + b7 * 2 ^ 56
join_8u8_lsb b0 b1 b2 b3 b4 b5 b6 b7 h0 h1 h2 h3 h4 h5 h6 h7 =
    rw
      (
        bit_or_below 8 (b0) (b1 * 2 ^ 8) (omega arith) (omega arith),
        bit_or_below 16 (b0 + b1 * 2 ^ 8) (b2 * 2 ^ 16) (omega arith) (omega arith),
        bit_or_below 24 (b0 + b1 * 2 ^ 8 + b2 * 2 ^ 16) (b3 * 2 ^ 24) (omega arith) (omega arith),
        bit_or_below 32 (b0 + b1 * 2 ^ 8 + b2 * 2 ^ 16 + b3 * 2 ^ 24) (b4 * 2 ^ 32) (omega arith)
            (omega arith),
        bit_or_below 40 (b0 + b1 * 2 ^ 8 + b2 * 2 ^ 16 + b3 * 2 ^ 24 + b4 * 2 ^ 32) (b5 * 2 ^ 40)
            (omega arith) (omega arith),
        bit_or_below 48 (b0 + b1 * 2 ^ 8 + b2 * 2 ^ 16 + b3 * 2 ^ 24 + b4 * 2 ^ 32 + b5 * 2 ^ 40)
            (b6 * 2 ^ 48) (omega arith) (omega arith),
        bit_or_below 56
            (b0 + b1 * 2 ^ 8 + b2 * 2 ^ 16 + b3 * 2 ^ 24 + b4 * 2 ^ 32 + b5 * 2 ^ 40 + b6 * 2 ^ 48)
            (b7 * 2 ^ 56) (omega arith) (omega arith),
      )
      refl

pub join_8u8_msb :
    (b0 b1 b2 b3 b4 b5 b6 b7 : ℕ)
    → b0 < 2 ^ 8
    → b1 < 2 ^ 8
    → b2 < 2 ^ 8
    → b3 < 2 ^ 8
    → b4 < 2 ^ 8
    → b5 < 2 ^ 8
    → b6 < 2 ^ 8
    → b7 < 2 ^ 8
    → bit_or
        (bit_or
          (bit_or
            (bit_or
              (bit_or (bit_or (bit_or (b0 <<< 56) (b1 <<< 48)) (b2 <<< 40)) (b3 <<< 32))
              (b4 <<< 24))
            (b5 <<< 16))
          (b6 <<< 8))
        b7
      ≡ b0 * 2 ^ 56
        + b1 * 2 ^ 48
        + b2 * 2 ^ 40
        + b3 * 2 ^ 32
        + b4 * 2 ^ 24
        + b5 * 2 ^ 16
        + b6 * 2 ^ 8
        + b7
join_8u8_msb b0 b1 b2 b3 b4 b5 b6 b7 h0 h1 h2 h3 h4 h5 h6 h7 =
    rw
      (
        bit_or_above 56 (b0 * 2 ^ 56) (b1 * 2 ^ 48) (omega arith) (omega arith),
        bit_or_above 48 (b0 * 2 ^ 56 + b1 * 2 ^ 48) (b2 * 2 ^ 40) (omega arith) (omega arith),
        bit_or_above 40 (b0 * 2 ^ 56 + b1 * 2 ^ 48 + b2 * 2 ^ 40) (b3 * 2 ^ 32) (omega arith)
            (omega arith),
        bit_or_above 32 (b0 * 2 ^ 56 + b1 * 2 ^ 48 + b2 * 2 ^ 40 + b3 * 2 ^ 32) (b4 * 2 ^ 24)
            (omega arith) (omega arith),
        bit_or_above 24 (b0 * 2 ^ 56 + b1 * 2 ^ 48 + b2 * 2 ^ 40 + b3 * 2 ^ 32 + b4 * 2 ^ 24)
            (b5 * 2 ^ 16) (omega arith) (omega arith),
        bit_or_above 16
            (b0 * 2 ^ 56 + b1 * 2 ^ 48 + b2 * 2 ^ 40 + b3 * 2 ^ 32 + b4 * 2 ^ 24 + b5 * 2 ^ 16)
            (b6 * 2 ^ 8) (omega arith) (omega arith),
        bit_or_above 8
            (b0 * 2 ^ 56
              + b1 * 2 ^ 48
              + b2 * 2 ^ 40
              + b3 * 2 ^ 32
              + b4 * 2 ^ 24
              + b5 * 2 ^ 16
              + b6 * 2 ^ 8)
            b7 (omega arith) (omega arith),
      )
      refl
