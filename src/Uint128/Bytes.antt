-- ===== src/Uint128/Bytes.antt =====
-- The byte order of 128-bit integers (src/n_uint128.c, lines 92 to 152). A buffer is a function of the
-- index; each loop is given by the state after a number of rounds.
use nexus_c.Base.{ℕ, zero, suc, ◌+◌, ◌*◌, ◌-◌, bit_or, u8, ◌<<<◌, ◌>>>◌, update}
use nexus_c.Uint128.Arith.{Uint128}

-- The bytes of a word, the lowest first, each written to its place.
unfoldable pub word_write : ℕ → (ℕ → ℕ) → ℕ → (ℕ → ℕ) → ℕ → ℕ
word_write zero place word out = out
word_write (suc n) place word out =
    update (word_write n place word out) (place n) (u8 (word >>> (n * 8)))

-- Bytes joined to a word, each shifted as its number says.
unfoldable pub word_read : ℕ → (ℕ → ℕ) → (ℕ → ℕ) → ℕ
word_read zero shift bytes = 0
word_read (suc n) shift bytes = bit_or (word_read n shift bytes) (bytes n <<< shift n)

unfoldable pub bytes_little_endian_write : Uint128 → (ℕ → ℕ) → ℕ → ℕ
bytes_little_endian_write value out =
    word_write 8 (λ i. i + 8) value.hi (word_write 8 (λ i. i) value.lo out)

unfoldable pub bytes_little_endian_read : (ℕ → ℕ) → Uint128
bytes_little_endian_read bytes = record {
  lo = word_read 8 (λ i. i * 8) bytes;
  hi = word_read 8 (λ i. i * 8) (λ i. bytes (i + 8));
}

unfoldable pub bytes_big_endian_write : Uint128 → (ℕ → ℕ) → ℕ → ℕ
bytes_big_endian_write value out =
    word_write 8 (λ i. 15 - i) value.hi (word_write 8 (λ i. 7 - i) value.lo out)

unfoldable pub bytes_big_endian_read : (ℕ → ℕ) → Uint128
bytes_big_endian_read bytes = record {
  hi = word_read 8 (λ i. (7 - i) * 8) bytes;
  lo = word_read 8 (λ i. (7 - i) * 8) (λ i. bytes (i + 8));
}
