-- ===== src/Uint128/ByteOrder.antt =====
-- What the byte orders mean: the number that a sequence of bytes stands for, and round trips.
use nexus_c.Base.{
  ℕ, zero, suc, ◌+◌, ◌*◌, ◌-◌, ◌^◌, ◌<◌, ◌≤◌, ◌≡◌, ◌∙◌, ap, refl, u8, arith, ◌>>>◌, update,
  Bool-cases, inl, inr, ◌==◌,
}
use nexus_c.Base.Bits.{bit_or_disjoint, bit_or_disjoint_low}
use nexus_c.Base.Powers.{pow_add, scaled_lt, scaled_room}
use nexus_c.Uint128.Arith.{Uint128, make}
use nexus_c.Uint128.Bytes.{
  word_read, word_write, bytes_little_endian_write, bytes_little_endian_read,
  bytes_big_endian_write, bytes_big_endian_read,
}
use nexus_c.Uint128.Multiply.{Fits, value}
use native.Mathlib.Nat.{one-le-pow}

-- The number of the first `n` bytes, the lowest digit first, and the highest digit first.
abbrev pub little_endian : ℕ → (ℕ → ℕ) → ℕ
little_endian zero bytes = 0
little_endian (suc n) bytes = bytes n * 2 ^ (n * 8) + little_endian n bytes

abbrev pub big_endian : ℕ → (ℕ → ℕ) → ℕ
big_endian zero bytes = 0
big_endian (suc n) bytes = big_endian n bytes * 256 + bytes n

-- Every place holds a byte.
abbrev pub AllBytes : (ℕ → ℕ) → Type 0
AllBytes bytes = (i : ℕ) → bytes i < 256

little_endian_lt : (n : ℕ) (bytes : ℕ → ℕ) → AllBytes bytes → little_endian n bytes < 2 ^ (n * 8)
little_endian_lt zero bytes h = omega arith
little_endian_lt (suc n) bytes h =
    let e : suc n * 8 ≡ n * 8 + 8 = omega arith in
    omega (
      arith,
      little_endian_lt n bytes h,
      h n,
      ap (λ k. 2 ^ k) e,
      pow_add 2 (n * 8) 8,
      scaled_room (bytes n) 256 (2 ^ (n * 8)) (h n),
    )

word_read-little :
    (n : ℕ) (bytes : ℕ → ℕ)
    → AllBytes bytes
    → word_read n (λ i. i * 8) bytes ≡ little_endian n bytes
unfolding word_read
word_read-little zero bytes h = refl
word_read-little (suc n) bytes h =
    rw (word_read-little n bytes h)
      (bit_or_disjoint_low (n * 8) (bytes n) (little_endian n bytes) (little_endian_lt n bytes h))

word_read-big :
    (n : ℕ) (bytes : ℕ → ℕ)
    → n ≤ 8
    → AllBytes bytes
    → word_read n (λ i. (7 - i) * 8) bytes ≡ big_endian n bytes * 2 ^ ((8 - n) * 8)
unfolding word_read
word_read-big zero bytes le h = refl
word_read-big (suc n) bytes le h =
    let q = (7 - n) * 8 in
    let b = big_endian n bytes in
    let e : (8 - n) * 8 ≡ q + 8 = omega arith in
    let e' : (8 - suc n) * 8 ≡ q = omega arith in
    let wide = ap (λ k. 2 ^ k) e ∙ pow_add 2 q 8 in
    let fits = scaled_lt (bytes n) 256 (2 ^ q) (h n) (one-le-pow q 2 (omega arith)) in
    rw (word_read-big n bytes (omega arith) h) (
      bit_or_disjoint ((8 - n) * 8) b (bytes n * 2 ^ q) (omega (arith, wide, fits))
      ∙ omega (arith, ap (λ x. b * x) wide, ap (λ k. (b * 256 + bytes n) * 2 ^ k) e'))

value-bytes_little_endian_read :
    (bytes : ℕ → ℕ)
    → AllBytes bytes
    → value (bytes_little_endian_read bytes) ≡ little_endian 16 bytes
unfolding bytes_little_endian_read
value-bytes_little_endian_read bytes h =
    omega
      (arith, word_read-little 8 bytes h, word_read-little 8 (λ i. bytes (i + 8)) (λ i. h (i + 8)))

pub value-bytes_big_endian_read :
    (bytes : ℕ → ℕ) → AllBytes bytes → value (bytes_big_endian_read bytes) ≡ big_endian 16 bytes
unfolding bytes_big_endian_read
value-bytes_big_endian_read bytes h = omega (
  arith,
  word_read-big 8 bytes (omega arith) h,
  word_read-big 8 (λ i. bytes (i + 8)) (omega arith) (λ i. h (i + 8)),
)

-- Sixteen bytes stand for the number of which they are the digits to the base 256, read as
-- little-endian with the lowest digit first, and read as big-endian with the highest first.
pub value-bytes_read :
    (bytes : ℕ → ℕ)
    → AllBytes bytes
    → (value (bytes_little_endian_read bytes) ≡ little_endian 16 bytes)
      × (value (bytes_big_endian_read bytes) ≡ big_endian 16 bytes)
value-bytes_read bytes h =
    (value-bytes_little_endian_read bytes h, value-bytes_big_endian_read bytes h)

-- The halves, read as big-endian.
pub hi-bytes_big_endian_read :
    (bytes : ℕ → ℕ) → AllBytes bytes → (bytes_big_endian_read bytes).hi ≡ big_endian 8 bytes
unfolding bytes_big_endian_read
hi-bytes_big_endian_read bytes h = omega (arith, word_read-big 8 bytes (omega arith) h)

pub lo-bytes_big_endian_read :
    (bytes : ℕ → ℕ)
    → AllBytes bytes
    → (bytes_big_endian_read bytes).lo ≡ big_endian 8 (λ i. bytes (i + 8))
unfolding bytes_big_endian_read
lo-bytes_big_endian_read bytes h =
    omega (arith, word_read-big 8 (λ i. bytes (i + 8)) (omega arith) (λ i. h (i + 8)))

word_digits_little : (w : ℕ) → w < 2 ^ 64 → little_endian 8 (λ i. u8 (w >>> (i * 8))) ≡ w
word_digits_little w fits = omega arith

word_digits_big : (w : ℕ) → w < 2 ^ 64 → big_endian 8 (λ i. u8 (w >>> ((7 - i) * 8))) ≡ w
word_digits_big w fits = omega arith

low_byte : (n : ℕ) → u8 n < 256
low_byte n = omega arith

word_little : (w : ℕ) → w < 2 ^ 64 → word_read 8 (λ i. i * 8) (λ i. u8 (w >>> (i * 8))) ≡ w
word_little w fits =
    word_read-little 8 (λ i. u8 (w >>> (i * 8))) (λ i. low_byte (w >>> (i * 8)))
    ∙ word_digits_little w fits

word_big : (w : ℕ) → w < 2 ^ 64 → word_read 8 (λ i. (7 - i) * 8) (λ i. u8 (w >>> ((7 - i) * 8))) ≡ w
word_big w fits =
    word_read-big 8 (λ i. u8 (w >>> ((7 - i) * 8))) (omega arith)
      (λ i. low_byte (w >>> ((7 - i) * 8)))
    ∙ omega (arith, word_digits_big w fits)

equal_halves : {a b c d : ℕ} → a ≡ c → b ≡ d → make a b ≡ make c d
equal_halves {b = b} {c = c} e f = ap (λ x. make x b) e ∙ ap (make c) f

bytes_little_endian_read-write :
    (v : Uint128) (out : ℕ → ℕ)
    → Fits v
    → bytes_little_endian_read (bytes_little_endian_write v out) ≡ v
unfolding bytes_little_endian_read bytes_little_endian_write word_read word_write
bytes_little_endian_read-write v out f =
    unfold make in equal_halves (word_little v.lo f.lo) (word_little v.hi f.hi)

pub bytes_big_endian_read-write :
    (v : Uint128) (out : ℕ → ℕ)
    → Fits v
    → bytes_big_endian_read (bytes_big_endian_write v out) ≡ make v.hi v.lo
unfolding bytes_big_endian_read bytes_big_endian_write word_read word_write make
bytes_big_endian_read-write v out f = equal_halves (word_big v.hi f.hi) (word_big v.lo f.lo)

-- What is written as little-endian is read back, and what is written as big-endian is read back with
-- the two halves exchanged, whatever the buffer held before.
pub bytes_read-write :
    (v : Uint128) (out : ℕ → ℕ)
    → Fits v
    → (bytes_little_endian_read (bytes_little_endian_write v out) ≡ v)
      × (bytes_big_endian_read (bytes_big_endian_write v out) ≡ make v.hi v.lo)
bytes_read-write v out f =
    (bytes_little_endian_read-write v out f, bytes_big_endian_read-write v out f)

-- A byte that is written among bytes.
pub update-AllBytes :
    {bytes : ℕ → ℕ} (i v : ℕ) → AllBytes bytes → v < 256 → AllBytes (update bytes i v)
update-AllBytes i v h small j = elim (Bool-cases (j == i)) [
  | inl e ↦ rw e small
  | inr e ↦ rw e (h j)
]

word_write-AllBytes :
    (n : ℕ) (place : ℕ → ℕ) (word : ℕ) {out : ℕ → ℕ}
    → AllBytes out
    → AllBytes (word_write n place word out)
unfolding word_write
word_write-AllBytes zero place word h = h
word_write-AllBytes (suc n) place word h =
    let rest = word_write-AllBytes n place word h in
    update-AllBytes (place n) (u8 (word >>> (n * 8))) rest (omega arith)

pub bytes_big_endian_write-AllBytes :
    (v : Uint128) (out : ℕ → ℕ) → AllBytes out → AllBytes (bytes_big_endian_write v out)
unfolding bytes_big_endian_write
bytes_big_endian_write-AllBytes v out h =
    word_write-AllBytes 8 (λ i. 15 - i) v.hi (word_write-AllBytes 8 (λ i. 7 - i) v.lo h)
