-- ===== src/BitFields/Bytes.antt =====
-- Words written to bytes and read from them (nexus.h, lines 4520 to 4670). A byte buffer is a function of
-- the index.
use nexus_c.Base.{ℕ, u8, u16, bit_and, bit_or, update, ◌<<<◌, ◌>>>◌}

unfoldable pub uint16_to_bytes_lsb : (ℕ → ℕ) → ℕ → ℕ → ℕ
uint16_to_bytes_lsb out value =
    update (update out 0 (u8 (bit_and value 0xFF))) 1 (u8 (bit_and (value >>> 8) 0xFF))

unfoldable pub uint32_to_bytes_lsb : (ℕ → ℕ) → ℕ → ℕ → ℕ
uint32_to_bytes_lsb out value =
    update
      (update (update (update out 0 (u8 (bit_and value 0xFF))) 1 (u8 (bit_and (value >>> 8) 0xFF)))
        2 (u8 (bit_and (value >>> 16) 0xFF)))
      3 (u8 (bit_and (value >>> 24) 0xFF))

unfoldable pub uint64_to_bytes_lsb : (ℕ → ℕ) → ℕ → ℕ → ℕ
uint64_to_bytes_lsb out value =
    update
      (update
        (update
          (update
            (update
              (update
                (update (update out 0 (u8 (bit_and value 0xFF))) 1
                  (u8 (bit_and (value >>> 8) 0xFF)))
                2 (u8 (bit_and (value >>> 16) 0xFF)))
              3 (u8 (bit_and (value >>> 24) 0xFF)))
            4 (u8 (bit_and (value >>> 32) 0xFF)))
          5 (u8 (bit_and (value >>> 40) 0xFF)))
        6 (u8 (bit_and (value >>> 48) 0xFF)))
      7 (u8 (bit_and (value >>> 56) 0xFF))

unfoldable pub uint16_from_bytes_lsb : (ℕ → ℕ) → ℕ
uint16_from_bytes_lsb bytes = u16 (bit_or (bytes 0) (bytes 1 <<< 8))

unfoldable pub uint32_from_bytes_lsb : (ℕ → ℕ) → ℕ
uint32_from_bytes_lsb bytes =
    bit_or (bit_or (bit_or (bytes 0) (bytes 1 <<< 8)) (bytes 2 <<< 16)) (bytes 3 <<< 24)

unfoldable pub uint64_from_bytes_lsb : (ℕ → ℕ) → ℕ
uint64_from_bytes_lsb bytes =
    bit_or
      (bit_or
        (bit_or
          (bit_or
            (bit_or (bit_or (bit_or (bytes 0) (bytes 1 <<< 8)) (bytes 2 <<< 16)) (bytes 3 <<< 24))
            (bytes 4 <<< 32))
          (bytes 5 <<< 40))
        (bytes 6 <<< 48))
      (bytes 7 <<< 56)

unfoldable pub uint16_to_bytes_msb : (ℕ → ℕ) → ℕ → ℕ → ℕ
uint16_to_bytes_msb out value =
    update (update out 0 (u8 (bit_and (value >>> 8) 0xFF))) 1 (u8 (bit_and value 0xFF))

unfoldable pub uint32_to_bytes_msb : (ℕ → ℕ) → ℕ → ℕ → ℕ
uint32_to_bytes_msb out value =
    update
      (update
        (update (update out 0 (u8 (bit_and (value >>> 24) 0xFF))) 1
          (u8 (bit_and (value >>> 16) 0xFF)))
        2 (u8 (bit_and (value >>> 8) 0xFF)))
      3 (u8 (bit_and value 0xFF))

unfoldable pub uint64_to_bytes_msb : (ℕ → ℕ) → ℕ → ℕ → ℕ
uint64_to_bytes_msb out value =
    update
      (update
        (update
          (update
            (update
              (update
                (update (update out 0 (u8 (bit_and (value >>> 56) 0xFF))) 1
                  (u8 (bit_and (value >>> 48) 0xFF)))
                2 (u8 (bit_and (value >>> 40) 0xFF)))
              3 (u8 (bit_and (value >>> 32) 0xFF)))
            4 (u8 (bit_and (value >>> 24) 0xFF)))
          5 (u8 (bit_and (value >>> 16) 0xFF)))
        6 (u8 (bit_and (value >>> 8) 0xFF)))
      7 (u8 (bit_and value 0xFF))

unfoldable pub uint16_from_bytes_msb : (ℕ → ℕ) → ℕ
uint16_from_bytes_msb bytes = u16 (bit_or (bytes 0 <<< 8) (bytes 1))

unfoldable pub uint32_from_bytes_msb : (ℕ → ℕ) → ℕ
uint32_from_bytes_msb bytes =
    bit_or (bit_or (bit_or (bytes 0 <<< 24) (bytes 1 <<< 16)) (bytes 2 <<< 8)) (bytes 3)

unfoldable pub uint64_from_bytes_msb : (ℕ → ℕ) → ℕ
uint64_from_bytes_msb bytes =
    bit_or
      (bit_or
        (bit_or
          (bit_or
            (bit_or (bit_or (bit_or (bytes 0 <<< 56) (bytes 1 <<< 48)) (bytes 2 <<< 40))
              (bytes 3 <<< 32))
            (bytes 4 <<< 24))
          (bytes 5 <<< 16))
        (bytes 6 <<< 8))
      (bytes 7)
