-- ===== src/Hash/Digest.antt =====
-- The digest of a message: its bytes and its padding, fed one by one.
use nexus_c.Base.{
  ℕ, ◌+◌, ◌*◌, ◌-◌, ◌%◌, ◌<◌, ◌≤◌, ◌≡◌, ◌∙◌, sym, ap, inl, inr, List, [], ◌∷◌, ◌++◌, append_assoc,
  ltb, ◌==◌, length, update, length-replicate, u64, Bool-cases, arith,
}
use nexus_c.Hash.Block.{block_process}
use nexus_c.Hash.Padding.{
  zeros, length_bytes, padding, zero_fill-bytes_copy, feed_all_full, finish-feed_all, zeros-add,
}
use nexus_c.Hash.Sha1.{
  Context, bytes_copy, settle, zero_fill, digest_of, finish, sha1_begin, sha1_end, sha1,
}
use nexus_c.Hash.Stream.{
  feed, feed_all, HasRoom, feed_all-append, settle_below, settle-HasRoom, sha1_bytes-feed_all,
  feed_all-HasRoom, set_total, feed_all-set_total,
}

-- The context with the marker written.
abbrev marked : Context → Context
marked c = record c {
  block = update c.block c.block_byte_count 128;
  block_byte_count = c.block_byte_count + 1;
}

module _ (c : Context) (bit_length : ℕ) (h : HasRoom c) where
  -- The padding ends in the block that holds the marker.
  ends_in_block :
      c.block_byte_count + 1 ≤ 56
      → finish c.state (marked c).block (c.block_byte_count + 1) bit_length
        ≡ (feed_all c (padding c.block_byte_count bit_length)).state
  unfolding feed_all feed
  ends_in_block room =
      let e : 56 - (c.block_byte_count + 1) ≡ (119 - c.block_byte_count) % 64 = omega arith in
      let rest = zeros ((119 - c.block_byte_count) % 64) ++ length_bytes bit_length in
      finish-feed_all (marked c) bit_length room
      ∙ ap (λ k. (feed_all (marked c) (zeros k ++ length_bytes bit_length)).state) e
      ∙ ap (λ d. (feed_all d rest).state) (sym (settle_below (marked c) (omega (arith, room))))

  -- The padding needs a block of its own.
  ends_in_next :
      56 < c.block_byte_count + 1
      → (let full =
            zero_fill (64 - (c.block_byte_count + 1)) (marked c).block (c.block_byte_count + 1) in
          finish (block_process c.state full) full 0 bit_length)
        ≡ (feed_all c (padding c.block_byte_count bit_length)).state
  unfolding bytes_copy
  ends_in_next over =
      let m = 64 - (c.block_byte_count + 1) in
      let run = bytes_copy c.block c.block_byte_count (128 ∷ zeros m) in
      let next : Context = record c {
        block = run;
        state = block_process c.state run;
        block_byte_count = 0;
      } in
      let last = zeros 56 ++ length_bytes bit_length in
      let e : m + 56 ≡ (119 - c.block_byte_count) % 64 = omega (arith, over, h) in
      let full : c.block_byte_count + length (128 ∷ zeros m) ≡ 64 =
        omega (arith, length-replicate {A = ℕ} m 0, h) in
      ap (λ f. finish (block_process c.state f) f 0 bit_length)
        (zero_fill-bytes_copy m (marked c).block (c.block_byte_count + 1))
      ∙ finish-feed_all next bit_length (omega arith)
      ∙ ap (λ d. (feed_all d last).state) (sym (feed_all_full c (128 ∷ zeros m) h full))
      ∙ ap (λ d. d.state) (feed_all-append c (128 ∷ zeros m) last)
      ∙ ap (λ ys. (feed_all c (128 ∷ ys)).state)
          (sym (append_assoc (zeros m) (zeros 56) (length_bytes bit_length))
            ∙ ap (λ z. z ++ length_bytes bit_length) (sym (zeros-add m 56))
            ∙ ap (λ k. zeros k ++ length_bytes bit_length) e)

-- On a context whose block is not full, `sha1_end` returns the digest of the context after the
-- padding.
sha1_end-feed_all :
    (c : Context)
    → HasRoom c
    → sha1_end c
      ≡ digest_of (feed_all c (padding c.block_byte_count (u64 (c.total_byte_count * 8)))).state
unfolding sha1_end
sha1_end-feed_all c h =
    let bit_length = u64 (c.total_byte_count * 8) in
    elim (Bool-cases (ltb 56 (c.block_byte_count + 1))) [
      | inl over ↦ rw over (ap digest_of (ends_in_next c bit_length h (ground (arith, over))))
      | inr room ↦ rw room (ap digest_of (ends_in_block c bit_length h (ground (arith, room))))
    ]

block_byte_count-settle :
    (c : Context) → c.block_byte_count ≤ 64 → (settle c).block_byte_count ≡ c.block_byte_count % 64
unfolding settle
block_byte_count-settle c h = elim (Bool-cases (c.block_byte_count == 64)) [
  | inl e ↦ rw e (ground (arith, e))
  | inr e ↦ rw e (ground (arith, e))
]

block_byte_count-feed_all :
    (c : Context) (bytes : List ℕ)
    → HasRoom c
    → (feed_all c bytes).block_byte_count ≡ (c.block_byte_count + length bytes) % 64
unfolding feed_all feed
block_byte_count-feed_all c [] h = omega arith
block_byte_count-feed_all c (b ∷ bytes) h =
    let c' : Context = record c {
      block = update c.block c.block_byte_count b;
      block_byte_count = c.block_byte_count + 1;
    } in
    omega (
      arith,
      block_byte_count-settle c' (omega arith),
      block_byte_count-feed_all (settle c') bytes (settle-HasRoom c' (omega arith)),
    )

-- The digest is that of the message with its padding, fed byte by byte: the marker, zeros up to 56
-- bytes modulo 64, and the length in bits modulo 2^64 as eight bytes.
pub sha1-padded :
    (block : ℕ → ℕ) (bytes : List ℕ)
    → sha1 block bytes
      ≡ digest_of
          (feed_all
            (sha1_begin block)
            (bytes ++ padding (length bytes % 64) (u64 (length bytes * 8)))).state
unfolding sha1 sha1_begin
sha1-padded block bytes =
    let c = sha1_begin block in
    let fed = feed_all c bytes in
    let n = u64 (0 + length bytes) in
    let room : HasRoom fed = feed_all-HasRoom c bytes (omega arith) in
    let count : fed.block_byte_count ≡ length bytes % 64 =
      omega (arith, block_byte_count-feed_all c bytes (omega arith)) in
    let bits : u64 (n * 8) ≡ u64 (length bytes * 8) = omega arith in
    ap sha1_end (sha1_bytes-feed_all c bytes (omega arith))
    ∙ sha1_end-feed_all (set_total n fed) room
    ∙ ap (λ d. digest_of d.state)
        (feed_all-set_total n fed (padding fed.block_byte_count (u64 (n * 8))))
    ∙ ap (λ k. digest_of (feed_all fed (padding k (u64 (n * 8)))).state) count
    ∙ ap (λ k. digest_of (feed_all fed (padding (length bytes % 64) k)).state) bits
    ∙ ap (λ d. digest_of d.state)
        (feed_all-append c bytes (padding (length bytes % 64) (u64 (length bytes * 8))))
