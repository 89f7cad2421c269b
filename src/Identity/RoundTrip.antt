-- ===== src/Identity/RoundTrip.antt =====
-- Parsing the text that was written for a UUID.
use mathlib.Core.Path.{subst}
use nexus_c.Base.{
  ℕ, zero, suc, ◌+◌, ◌*◌, ◌/◌, ◌%◌, ◌<◌, ◌≡◌, ◌∙◌, ap, refl, sym, Bool, true, false, some, List,
  ◌∷◌, ◌++◌, if◌then◌else◌, ◌&&◌, ◌==◌, ltb, bit_and, bit_or, u8, length, get_or, Bool-cases, inl,
  inr, ◌<<<◌, ◌>>>◌, arith,
}
use nexus_c.Base.Bits.{bit_and_low, bit_or_disjoint}
use nexus_c.Identity.Generate.{buffer_bytes}
use nexus_c.Identity.Text.{
  ascii_whitespace_get, hex_nibble_get, hexadecimal, dash_before, write_loop, string_write, dash_at,
  parse_loop, parse_normalized, string_parse,
}
use nexus_c.Identity.Trim.{AllWhite, AllInk, trimmed}
use nexus_c.Uint128.Arith.{Uint128, make}
use nexus_c.Uint128.Bytes.{bytes_big_endian_write, bytes_big_endian_read, word_read}
use nexus_c.Uint128.ByteOrder.{
  AllBytes, bytes_big_endian_read-write, bytes_big_endian_write-AllBytes,
}
use nexus_c.Uint128.Multiply.{Fits}

abbrev AllBelow : ℕ → (ℕ → Type 0) → Type 0
AllBelow zero P = Unit
AllBelow (suc n) P = P n × AllBelow n P

AllBelow-at : (n : ℕ) (P : ℕ → Type 0) → AllBelow n P → (i : ℕ) → i < n → P i
AllBelow-at zero P h i lt = absurd (omega arith)
AllBelow-at (suc n) P (p, h) i lt = elim (Bool-cases (i == n)) [
  | inl e ↦ subst P (ground (arith, e)) p
  | inr e ↦ AllBelow-at n P h i (ground (arith, e))
]

-- A digit is read back, and is no white space.
IsDigit : ℕ → Type 0
IsDigit d =
    (hex_nibble_get (hexadecimal d) ≡ some d) × (ascii_whitespace_get (hexadecimal d) ≡ false)

hexadecimal-IsDigit : (d : ℕ) → d < 16 → IsDigit d
unfolding IsDigit hex_nibble_get ascii_whitespace_get
hexadecimal-IsDigit d h =
    AllBelow-at 16 IsDigit
      (
        (refl, refl),
        (
          (refl, refl),
          (
            (refl, refl),
            (
              (refl, refl),
              (
                (refl, refl),
                (
                  (refl, refl),
                  (
                    (refl, refl),
                    (
                      (refl, refl),
                      (
                        (refl, refl),
                        (
                          (refl, refl),
                          (
                            (refl, refl),
                            (
                              (refl, refl),
                              ((refl, refl), ((refl, refl), ((refl, refl), ((refl, refl), tt)))),
                            ),
                          ),
                        ),
                      ),
                    ),
                  ),
                ),
              ),
            ),
          ),
        ),
      )
      d h

-- Where the characters of a byte start in the text.
abbrev position : ℕ → ℕ
position b =
    2 * b
    + (if ltb 4 b then 1 else 0)
    + (if ltb 6 b then 1 else 0)
    + (if ltb 8 b then 1 else 0)
    + (if ltb 10 b then 1 else 0)

dash_at-position : (b : ℕ) → dash_at (position b) ≡ dash_before b
unfolding dash_at dash_before
dash_at-position b = ground arith

dash_at-after : (b : ℕ) → dash_before b ≡ true → dash_at (position b + 1) ≡ false
unfolding dash_at dash_before
dash_at-after b h = ground arith

position-dash : (b : ℕ) → dash_before b ≡ true → position b + 1 + 2 ≡ position (b + 1)
unfolding dash_before
position-dash b h = ground arith

position-plain : (b : ℕ) → dash_before b ≡ false → position b + 2 ≡ position (b + 1)
unfolding dash_before
position-plain b h = ground arith

high_nibble : (b : ℕ) → b < 256 → bit_and (b >>> 4) 0x0F ≡ b / 16
high_nibble b h = omega (arith, bit_and_low 4 (b >>> 4))

low_nibble : (b : ℕ) → bit_and b 0x0F ≡ b % 16
low_nibble b = omega (arith, bit_and_low 4 b)

nibbles_join : (b : ℕ) → b < 256 → u8 (bit_or ((b / 16) <<< 4) (b % 16)) ≡ b
nibbles_join b h = omega (arith, bit_or_disjoint 4 (b / 16) (b % 16) (omega arith))

-- Two characters of a byte, and what follows them.
byte_step :
    (i c d h l : ℕ) (cs bytes : List ℕ)
    → dash_at i ≡ false
    → hex_nibble_get c ≡ some h
    → hex_nibble_get d ≡ some l
    → parse_loop (i + 2) cs ≡ some bytes
    → parse_loop i (c ∷ d ∷ cs) ≡ some (u8 (bit_or (h <<< 4) l) ∷ bytes)
unfolding parse_loop
byte_step i c d h l cs bytes plain high low rest = rw (plain, high, low, rest) refl

byte_text : ℕ → List ℕ → List ℕ
byte_text b rest = hexadecimal (bit_and (b >>> 4) 0x0F) ∷ hexadecimal (bit_and b 0x0F) ∷ rest

byte_text_step :
    (i b : ℕ) (cs bytes : List ℕ)
    → b < 256
    → dash_at i ≡ false
    → parse_loop (i + 2) cs ≡ some bytes
    → parse_loop i (byte_text b cs) ≡ some (b ∷ bytes)
unfolding byte_text IsDigit
byte_text_step i b cs bytes h plain rest =
    rw (high_nibble b h, low_nibble b)
      (byte_step i (hexadecimal (b / 16)) (hexadecimal (b % 16)) (b / 16) (b % 16) cs bytes plain
          ((hexadecimal-IsDigit (b / 16) (omega arith)).0)
          ((hexadecimal-IsDigit (b % 16) (omega arith)).0) rest
        ∙ ap (λ x. some (x ∷ bytes)) (nibbles_join b h))

parse_loop-dash :
    (i c : ℕ) (cs : List ℕ)
    → dash_at i ≡ true
    → parse_loop i (45 ∷ c ∷ cs) ≡ parse_loop (i + 1) (c ∷ cs)
unfolding parse_loop
parse_loop-dash i c cs h = rw h refl

parse_loop-write_loop :
    (n : ℕ) (bytes : ℕ → ℕ) (b : ℕ)
    → AllBytes bytes
    → parse_loop (position b) (write_loop n bytes b) ≡ some (buffer_bytes n b bytes)
unfolding write_loop buffer_bytes byte_text
parse_loop-write_loop zero bytes b h = unfold parse_loop in refl
parse_loop-write_loop (suc n) bytes b h =
    let rest : parse_loop (position (b + 1)) (write_loop n bytes (b + 1))
        ≡ some (buffer_bytes n (b + 1) bytes) =
      parse_loop-write_loop n bytes (b + 1) h in
    elim (Bool-cases (dash_before b)) [
      | inl e ↦
          let after =
            subst
              (λ p. parse_loop p (write_loop n bytes (b + 1)) ≡ some (buffer_bytes n (b + 1) bytes))
              (sym (position-dash b e)) rest in
          rw e (
            parse_loop-dash (position b) _ _ (dash_at-position b ∙ e)
            ∙ byte_text_step (position b + 1) (bytes b) (write_loop n bytes (b + 1))
                (buffer_bytes n (b + 1) bytes) (h b) (dash_at-after b e) after)
      | inr e ↦
          let after =
            subst
              (λ p. parse_loop p (write_loop n bytes (b + 1)) ≡ some (buffer_bytes n (b + 1) bytes))
              (sym (position-plain b e)) rest in
          rw e (
            byte_text_step (position b) (bytes b) (write_loop n bytes (b + 1))
              (buffer_bytes n (b + 1) bytes) (h b) (dash_at-position b ∙ e) after)
    ]

byte_text-AllInk : (b : ℕ) (cs : List ℕ) → b < 256 → AllInk cs → AllInk (byte_text b cs)
unfolding byte_text IsDigit
byte_text-AllInk b cs h k =
    rw (high_nibble b h, low_nibble b)
      (
        (hexadecimal-IsDigit (b / 16) (omega arith)).1,
        ((hexadecimal-IsDigit (b % 16) (omega arith)).1, k),
      )

write_loop-AllInk : (n : ℕ) (bytes : ℕ → ℕ) (b : ℕ) → AllBytes bytes → AllInk (write_loop n bytes b)
unfolding write_loop byte_text ascii_whitespace_get
write_loop-AllInk zero bytes b h = tt
write_loop-AllInk (suc n) bytes b h =
    let rest : AllInk (write_loop n bytes (b + 1)) = write_loop-AllInk n bytes (b + 1) h in
    let pair = byte_text-AllInk (bytes b) (write_loop n bytes (b + 1)) (h b) rest in
    elim (Bool-cases (dash_before b)) [ inl e ↦ rw e (refl, pair) | inr e ↦ rw e pair ]

dashes : List ℕ → Bool
dashes begin =
    get_or begin 8 0 == 45
    && get_or begin 13 0 == 45
    && get_or begin 18 0 == 45
    && get_or begin 23 0 == 45

parse_normalized-dashes :
    (begin bytes : List ℕ)
    → length begin ≡ 36
    → dashes begin ≡ true
    → parse_loop 0 begin ≡ some bytes
    → length bytes ≡ 16
    → parse_normalized begin ≡ some (bytes_big_endian_read (λ i. get_or bytes i 0))
unfolding parse_normalized dashes
parse_normalized-dashes begin bytes n d e k = rw (n, d, e, k) refl

length-write_loop : (bytes : ℕ → ℕ) → length (write_loop 16 bytes 0) ≡ 36
unfolding write_loop dash_before
length-write_loop bytes = refl

dashes-write_loop : (bytes : ℕ → ℕ) → dashes (write_loop 16 bytes 0) ≡ true
unfolding write_loop dash_before dashes
dashes-write_loop bytes = refl

length-buffer_bytes : (n at : ℕ) (bytes : ℕ → ℕ) → length (buffer_bytes n at bytes) ≡ n
unfolding buffer_bytes
length-buffer_bytes zero at bytes = refl
length-buffer_bytes (suc n) at bytes = ap suc (length-buffer_bytes n (at + 1) bytes)

bytes_big_endian_read-buffer_bytes :
    (bytes : ℕ → ℕ)
    → bytes_big_endian_read (λ i. get_or (buffer_bytes 16 0 bytes) i 0)
      ≡ bytes_big_endian_read bytes
unfolding bytes_big_endian_read word_read buffer_bytes
bytes_big_endian_read-buffer_bytes bytes = refl

parse_normalized-write_loop :
    (bytes : ℕ → ℕ)
    → AllBytes bytes
    → parse_normalized (write_loop 16 bytes 0) ≡ some (bytes_big_endian_read bytes)
parse_normalized-write_loop bytes h =
    parse_normalized-dashes (write_loop 16 bytes 0) (buffer_bytes 16 0 bytes)
      (length-write_loop bytes) (dashes-write_loop bytes) (parse_loop-write_loop 16 bytes 0 h)
      (length-buffer_bytes 16 0 bytes)
    ∙ ap some (bytes_big_endian_read-buffer_bytes bytes)

-- Between any white space, the text that is written for a UUID is parsed to the UUID with its two
-- halves exchanged, whatever the buffer of the bytes held before.
pub string_parse-string_write :
    (u : Uint128) (out : ℕ → ℕ) (front back : List ℕ)
    → Fits u
    → AllBytes out
    → AllWhite front
    → AllWhite back
    → string_parse (some (front ++ (string_write u out ++ back))) ≡ some (make u.hi u.lo)
unfolding string_parse string_write
string_parse-string_write u out front back f h hf hb =
    let bytes = bytes_big_endian_write u out in
    let good = bytes_big_endian_write-AllBytes u out h in
    ap parse_normalized
      (trimmed front (write_loop 16 bytes 0) back hf (write_loop-AllInk 16 bytes 0 good) hb)
    ∙ parse_normalized-write_loop bytes good
    ∙ ap some (bytes_big_endian_read-write u out f)
