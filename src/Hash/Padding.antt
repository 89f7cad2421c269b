-- ===== src/Hash/Padding.antt =====
-- The end of SHA-1 is the padding of the message: the marker, zeros and the length in bits.
use nexus_c.Base.{
  ℕ, zero, suc, ◌+◌, ◌-◌, ◌%◌, ◌≤◌, ◌≡◌, ◌∙◌, sym, ap, refl, true, List, [], ◌∷◌, ◌++◌, ◌==◌,
  length, replicate, update, u8, ◌>>>◌, arith, length-append, length-replicate,
}
use nexus_c.Hash.Block.{block_process}
use nexus_c.Hash.Sha1.{Context, bytes_copy, settle, zero_fill, put_length, finish}
use nexus_c.Hash.Stream.{feed_all, HasRoom, filled, feed_all-filled}

-- A length in bits as eight bytes, the highest first.
abbrev pub length_bytes : ℕ → List ℕ
length_bytes n =
    u8 (n >>> 56)
    ∷ u8 (n >>> 48)
    ∷ u8 (n >>> 40)
    ∷ u8 (n >>> 32)
    ∷ u8 (n >>> 24)
    ∷ u8 (n >>> 16)
    ∷ u8 (n >>> 8)
    ∷ u8 (n >>> 0)
    ∷ []

abbrev pub zeros : ℕ → List ℕ
zeros n = replicate n 0

-- The padding of a message whose last block has `count` bytes: zeros up to 56 bytes in a block.
abbrev pub padding : ℕ → ℕ → List ℕ
padding count bit_length = 128 ∷ zeros ((119 - count) % 64) ++ length_bytes bit_length

pub zero_fill-bytes_copy :
    (n : ℕ) (block : ℕ → ℕ) (at : ℕ) → zero_fill n block at ≡ bytes_copy block at (zeros n)
unfolding zero_fill bytes_copy
zero_fill-bytes_copy zero block at = refl
zero_fill-bytes_copy (suc n) block at = zero_fill-bytes_copy n (update block at 0) (at + 1)

put_length-bytes_copy :
    (bit_length : ℕ) (block : ℕ → ℕ)
    → put_length 8 bit_length block ≡ bytes_copy block 56 (length_bytes bit_length)
unfolding put_length bytes_copy
put_length-bytes_copy bit_length block = refl

bytes_copy-append :
    (block : ℕ → ℕ) (at : ℕ) (xs ys : List ℕ)
    → bytes_copy block at (xs ++ ys) ≡ bytes_copy (bytes_copy block at xs) (at + length xs) ys
unfolding bytes_copy
bytes_copy-append block at [] ys =
    let e : at ≡ at + 0 = omega arith in ap (λ k. bytes_copy block k ys) e
bytes_copy-append block at (x ∷ xs) ys =
    let e : at + 1 + length xs ≡ at + length (x ∷ xs) = omega arith in
    bytes_copy-append (update block at x) (at + 1) xs ys
    ∙ ap (λ k. bytes_copy (bytes_copy (update block at x) (at + 1) xs) k ys) e

pub zeros-add : (m n : ℕ) → zeros (m + n) ≡ zeros m ++ zeros n
zeros-add zero n = let e : 0 + n ≡ n = omega arith in ap zeros e
zeros-add (suc m) n =
    let e : suc m + n ≡ suc (m + n) = omega arith in
    ap zeros e ∙ ap (λ (xs : List ℕ). 0 ∷ xs) (zeros-add m n)

settle_full :
    (c : Context)
    → c.block_byte_count ≡ 64
    → settle c ≡ record c { state = block_process c.state c.block; block_byte_count = 0 }
unfolding settle
settle_full c h = let e : (c.block_byte_count == 64) ≡ true = ground arith in rw e refl

-- Bytes that just fill the block.
pub feed_all_full :
    (c : Context) (bytes : List ℕ)
    → HasRoom c
    → c.block_byte_count + length bytes ≡ 64
    → feed_all c bytes ≡ record c {
      block = bytes_copy c.block c.block_byte_count bytes;
      state = block_process c.state (bytes_copy c.block c.block_byte_count bytes);
      block_byte_count = 0;
    }
feed_all_full c bytes h full =
    feed_all-filled c bytes h (omega arith) ∙ settle_full (filled c bytes) full

-- The last block, from a context with room for the length.
pub finish-feed_all :
    (c : Context) (bit_length : ℕ)
    → c.block_byte_count ≤ 56
    → finish c.state c.block c.block_byte_count bit_length
      ≡ (feed_all c (zeros (56 - c.block_byte_count) ++ length_bytes bit_length)).state
unfolding finish
finish-feed_all c bit_length h =
    let fill = zeros (56 - c.block_byte_count) in
    let bytes = fill ++ length_bytes bit_length in
    let n = length-replicate {A = ℕ} (56 - c.block_byte_count) 0 in
    let full : c.block_byte_count + length bytes ≡ 64 =
      omega (arith, length-append fill (length_bytes bit_length), n) in
    let at : c.block_byte_count + length fill ≡ 56 = omega (arith, n) in
    ap (block_process c.state) (
      ap (put_length 8 bit_length)
        (zero_fill-bytes_copy (56 - c.block_byte_count) c.block c.block_byte_count)
      ∙ put_length-bytes_copy bit_length (bytes_copy c.block c.block_byte_count fill)
      ∙ ap
          (λ k. bytes_copy (bytes_copy c.block c.block_byte_count fill) k (length_bytes bit_length))
          (sym at)
      ∙ sym (bytes_copy-append c.block c.block_byte_count fill (length_bytes bit_length)))
    ∙ sym (ap (λ k. k.state) (feed_all_full c bytes (omega arith) full))
