-- ===== src/Hash/Sha1.antt =====
-- SHA-1 in pieces (src/n_hash.c, lines 107 to 224). The context and `out_digest` are given. Data is a list of
-- bytes, `none` where it is a NULL pointer, with `byte_count` its length.
use nexus_c.Base.{
  ℕ, zero, suc, ◌+◌, ◌*◌, ◌-◌, Option, none, some, List, [], ◌∷◌, ◌++◌, if◌then◌else◌, ltb, ◌==◌,
  length, take, drop, update, u8, u32, u64, ◌>>>◌,
}
use nexus_c.Hash.Block.{State, block_process}

pub record Context : Type 0 where
  pub state : State
  pub total_byte_count : ℕ
  pub block : ℕ → ℕ
  pub block_byte_count : ℕ

-- The block holds what it held before.
unfoldable pub sha1_begin : (ℕ → ℕ) → Context
sha1_begin block = record {
  state = record { a = 1732584193; b = 4023233417; c = 2562383102; d = 271733878; e = 3285377520 };
  total_byte_count = 0;
  block = block;
  block_byte_count = 0;
}

-- `nexus_memory_bytes_copy` to a place of the block.
unfoldable pub bytes_copy : (ℕ → ℕ) → ℕ → List ℕ → ℕ → ℕ
bytes_copy block at [] = block
bytes_copy block at (b ∷ bytes) = bytes_copy (update block at b) (at + 1) bytes

-- A full block is processed.
unfoldable pub settle : Context → Context
settle c =
    if c.block_byte_count == 64
    then record c { state = block_process c.state c.block; block_byte_count = 0 }
    else c

-- The loop, with `fuel` rounds at most; each round takes a byte at least.
unfoldable pub absorb : ℕ → Context → List ℕ → Context
absorb zero c bytes = c
absorb (suc fuel) c [] = c
absorb (suc fuel) c (b ∷ bytes) =
    let remaining = length (b ∷ bytes) in
    let room = 64 - c.block_byte_count in
    let copy_count = if ltb remaining room then remaining else room in
    absorb fuel
      (settle (record c {
        block = bytes_copy c.block c.block_byte_count (take copy_count (b ∷ bytes));
        block_byte_count = u32 (c.block_byte_count + copy_count);
      }))
      (drop copy_count (b ∷ bytes))

unfoldable pub sha1_bytes : Context → Option (List ℕ) → Context
sha1_bytes c none = c
sha1_bytes c (some bytes) =
    absorb (length bytes) (record c { total_byte_count = u64 (c.total_byte_count + length bytes) })
      bytes

-- The loops that fill the block with zeros, with `n` places left.
unfoldable pub zero_fill : ℕ → (ℕ → ℕ) → ℕ → ℕ → ℕ
zero_fill zero block at = block
zero_fill (suc n) block at = zero_fill n (update block at 0) (at + 1)

-- The loop that writes the length, after `n` rounds.
unfoldable pub put_length : ℕ → ℕ → (ℕ → ℕ) → ℕ → ℕ
put_length zero bit_length block = block
put_length (suc n) bit_length block =
    update (put_length n bit_length block) (56 + n) (u8 (bit_length >>> ((7 - n) * 8)))

unfoldable pub word_bytes : ℕ → List ℕ
word_bytes w = u8 (w >>> 24) ∷ u8 (w >>> 16) ∷ u8 (w >>> 8) ∷ u8 w ∷ []

unfoldable pub digest_of : State → List ℕ
digest_of s = word_bytes s.a ++ word_bytes s.b ++ word_bytes s.c ++ word_bytes s.d ++ word_bytes s.e

-- The last blocks: the marker is already written, and the block has `count` bytes.
unfoldable pub finish : State → (ℕ → ℕ) → ℕ → ℕ → State
finish state block count bit_length =
    block_process state (put_length 8 bit_length (zero_fill (56 - count) block count))

unfoldable pub sha1_end : Context → List ℕ
sha1_end c =
    let bit_length = u64 (c.total_byte_count * 8) in
    let block = update c.block c.block_byte_count 128 in
    let count = c.block_byte_count + 1 in
    digest_of (
      if ltb 56 count
      then (let full = zero_fill (64 - count) block count in
          finish (block_process c.state full) full 0 bit_length)
      else finish c.state block count bit_length)

-- The data is given, or is empty.
unfoldable pub sha1 : (ℕ → ℕ) → List ℕ → List ℕ
sha1 block bytes = sha1_end (sha1_bytes (sha1_begin block) (some bytes))
