-- ===== src/Identity/Order.antt =====
-- The number that a monotonic UUID stands for, and its order.
use nexus_c.Base.{
  ℕ, ◌+◌, ◌*◌, ◌^◌, ◌/◌, ◌%◌, ◌<◌, ◌≡◌, ◌∙◌, ap, bit_and, bit_or, u8, ◌<<<◌, ◌>>>◌, arith,
}
use nexus_c.Base.Bits.{bit_and_low, bit_or_disjoint}
use nexus_c.Identity.{timestamp_write}
use nexus_c.Identity.Monotonic.{monotonic_bytes}
use nexus_c.Uint128.Bytes.{bytes_big_endian_read}
use nexus_c.Uint128.ByteOrder.{AllBytes, update-AllBytes, big_endian, value-bytes_big_endian_read}
use nexus_c.Uint128.Multiply.{value}

pub timestamp_write-AllBytes :
    (bytes : ℕ → ℕ) (n : ℕ) → AllBytes bytes → AllBytes (timestamp_write bytes n)
unfolding timestamp_write
timestamp_write-AllBytes bytes n h =
    update-AllBytes 5 (u8 n)
      (update-AllBytes 4 (u8 (n >>> 8))
        (update-AllBytes 3 (u8 (n >>> 16))
          (update-AllBytes 2 (u8 (n >>> 24))
            (update-AllBytes 1 (u8 (n >>> 32)) (update-AllBytes 0 (u8 (n >>> 40)) h (omega arith))
              (omega arith))
            (omega arith))
          (omega arith))
        (omega arith))
      (omega arith)

version_byte : (f : ℕ) → f < 4096 → u8 (bit_or 0x70 (bit_and (f >>> 8) 0x0F)) ≡ 0x70 + f / 256
version_byte f h =
    let low = bit_and_low 4 (f >>> 8) in
    omega (arith, ap (λ x. bit_or 0x70 x) low, bit_or_disjoint 4 7 (f / 256 % 16) (omega arith))

fraction_byte : (f : ℕ) → u8 (bit_and f 0xFF) ≡ f % 256
fraction_byte f = omega (arith, bit_and_low 8 f)

variant_byte : (c : ℕ) → c < 4096 → u8 (bit_or 0x80 (bit_and (c >>> 6) 0x3F)) ≡ 0x80 + c / 64
variant_byte c h =
    let low = bit_and_low 6 (c >>> 6) in
    omega (arith, ap (λ x. bit_or 0x80 x) low, bit_or_disjoint 7 1 (c / 64 % 64) (omega arith))

counter_byte : (c r : ℕ) → u8 (bit_or (bit_and c 0x3F <<< 2) (bit_and r 0x03)) ≡ c % 64 * 4 + r % 4
counter_byte c r =
    let low : bit_and c 0x3F ≡ c % 64 = omega (arith, bit_and_low 6 c) in
    let two : bit_and r 0x03 ≡ r % 4 = omega (arith, bit_and_low 2 r) in
    rw (low, two) (omega (arith, bit_or_disjoint 2 (c % 64) (r % 4) (omega arith)))

-- The 50 bits that are left to chance.
abbrev pub suffix : (ℕ → ℕ) → ℕ
suffix r = r 0 % 4 * 2 ^ 48 + big_endian 6 (λ i. r (i + 1))

-- The parts of a UUID by their places.
abbrev pub monotonic_value : ℕ → ℕ → ℕ → (ℕ → ℕ) → ℕ
monotonic_value ms f c r = (ms * 2 ^ 16 + 0x7000 + f) * 2 ^ 64 + 2 ^ 63 + c * 2 ^ 50 + suffix r

suffix_lt : (r : ℕ → ℕ) → AllBytes r → suffix r < 2 ^ 50
suffix_lt r h = omega (arith, h 1, h 2, h 3, h 4, h 5, h 6)

monotonic_bytes-AllBytes :
    (buffer r : ℕ → ℕ) (ms f c : ℕ)
    → AllBytes buffer
    → AllBytes r
    → AllBytes (monotonic_bytes buffer ms f c r)
unfolding monotonic_bytes
monotonic_bytes-AllBytes buffer r ms f c hb hr =
    let b = timestamp_write-AllBytes buffer ms hb in
    let b = update-AllBytes 6 (u8 (bit_or 0x70 (bit_and (f >>> 8) 0x0F))) b (omega arith) in
    let b = update-AllBytes 7 (u8 (bit_and f 0xFF)) b (omega arith) in
    let b = update-AllBytes 8 (u8 (bit_or 0x80 (bit_and (c >>> 6) 0x3F))) b (omega arith) in
    let b =
      update-AllBytes 9 (u8 (bit_or (bit_and c 0x3F <<< 2) (bit_and (r 0) 0x03))) b (omega arith) in
    let b = update-AllBytes 10 (r 1) b (hr 1) in
    let b = update-AllBytes 11 (r 2) b (hr 2) in
    let b = update-AllBytes 12 (r 3) b (hr 3) in
    let b = update-AllBytes 13 (r 4) b (hr 4) in
    let b = update-AllBytes 14 (r 5) b (hr 5) in update-AllBytes 15 (r 6) b (hr 6)

-- The number of a monotonic UUID, by its parts.
pub value-monotonic_bytes :
    (buffer r : ℕ → ℕ) (ms f c : ℕ)
    → AllBytes buffer
    → AllBytes r
    → ms < 2 ^ 48
    → f < 4096
    → c < 4096
    → value (bytes_big_endian_read (monotonic_bytes buffer ms f c r)) ≡ monotonic_value ms f c r
unfolding monotonic_bytes timestamp_write
value-monotonic_bytes buffer r ms f c hb hr hms hf hc =
    value-bytes_big_endian_read (monotonic_bytes buffer ms f c r)
      (monotonic_bytes-AllBytes buffer r ms f c hb hr)
    ∙ omega (arith, version_byte f hf, fraction_byte f, variant_byte c hc, counter_byte c (r 0))

-- The logical clock: milliseconds, fraction and counter in one number.
abbrev pub rank : ℕ → ℕ → ℕ → ℕ
rank ms f c = (ms * 4096 + f) * 4096 + c

-- A later reading of the logical clock gives a larger UUID, whatever the random bytes are.
pub monotonic_value_lt :
    (ms f c ms' f' c' : ℕ) (r r' : ℕ → ℕ)
    → AllBytes r
    → AllBytes r'
    → f < 4096
    → c < 4096
    → f' < 4096
    → c' < 4096
    → rank ms f c < rank ms' f' c'
    → monotonic_value ms f c r < monotonic_value ms' f' c' r'
monotonic_value_lt ms f c ms' f' c' r r' h h' hf hc hf' hc' lt = omega (arith, suffix_lt r h)
