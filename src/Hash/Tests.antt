-- ===== src/Hash/Tests.antt =====
-- Runs of the hashes, and their theorems at concrete data.
use nexus_c.Base.{
  ℕ, ◌*◌, ◌≡◌, refl, zero, suc, none, some, List, [], ◌∷◌, ◌++◌, length, ◌%◌, u64, arith,
}
use nexus_c.Hash.Block.{
  rotate_left, uint32_be_read, block_words, next_word, more_words, round_function, round_constant,
  round, rounds, block_process,
}
use nexus_c.Hash.Digest.{sha1-padded}
use nexus_c.Hash.Fnv.{fnv1a64_begin, fnv1a64_byte, fnv1a64_bytes, fnv1a64}
use nexus_c.Hash.Padding.{padding}
use nexus_c.Hash.Sha1.{
  Context, sha1_begin, bytes_copy, settle, absorb, sha1_bytes, zero_fill, put_length, word_bytes,
  digest_of, finish, sha1_end, sha1,
}
use nexus_c.Errors.{invalid_argument}
use nexus_c.BitFields.Bytes.{uint64_from_bytes_lsb}
use nexus_c.Hash.Zobrist.{
  Fill, given, failed, ZobristTable, fill_keys, fill_array, table_fill, hash_replace,
  hash_from_keys, hash_replace-hash_from_keys,
}
use nexus_c.Hash.Stream.{feed_all, HasRoom}

abbrev abc : List ℕ
abc = 97 ∷ 98 ∷ 99 ∷ []

-- The published hash of the letter a.
published_hash : fnv1a64 (97 ∷ []) ≡ 12638187200555641996
unfolding fnv1a64 fnv1a64_begin fnv1a64_byte fnv1a64_bytes
published_hash = refl

-- The published digest of the message abc.
published_digest :
    sha1 (λ i. 0) abc
    ≡ 169 ∷ 153 ∷ 62 ∷ 54 ∷ 71 ∷ 6 ∷ 129 ∷ 106 ∷ 186 ∷ 62 ∷ 37 ∷ 113 ∷ 120 ∷ 80 ∷ 194 ∷ 108 ∷ 156
      ∷ 208 ∷ 216 ∷ 157 ∷ []
unfolding rotate_left uint32_be_read block_words next_word more_words round_function round_constant
    round rounds block_process sha1_begin bytes_copy settle absorb sha1_bytes zero_fill put_length
    word_bytes digest_of finish sha1_end sha1
published_digest = refl

-- A context with 60 bytes in its block.
abbrev started : Context
started = record (sha1_begin (λ i. 7)) { block_byte_count = 60; total_byte_count = 60 }

started-HasRoom : HasRoom started
started-HasRoom = omega arith

sha1-padded_example :
    sha1 (λ i. 7) abc
    ≡ digest_of
        (feed_all
          (sha1_begin (λ i. 7))
          (abc ++ padding (length abc % 64) (u64 (length abc * 8)))).state
sha1-padded_example = sha1-padded (λ i. 7) abc

hash_replace-hash_from_keys_example :
    hash_replace (hash_from_keys ((5 ∷ []) ++ 9 ∷ 7 ∷ [])) 9 12
    ≡ hash_from_keys ((5 ∷ []) ++ 12 ∷ 7 ∷ [])
hash_replace-hash_from_keys_example = hash_replace-hash_from_keys (5 ∷ []) (7 ∷ []) 9 12

-- A provider of random bytes that fails with the error 7 after some calls.
abbrev counted_fill : Fill ℕ
counted_fill zero = (failed 7, zero)
counted_fill (suc n) = (given (λ i. n), n)

abbrev two_keys : ZobristTable
two_keys = record { keys = some (8 ∷ 9 ∷ []); key_count = 2 }

partial_fill :
    (table_fill (some counted_fill) 1 (some two_keys)
      ≡ (some (record { keys = some (0 ∷ 9 ∷ []); key_count = 2 }), 7))
    × ((table_fill {S = ℕ} none 1 (some two_keys)).1 ≡ invalid_argument)
    × ((table_fill (some counted_fill) 1 (some (record { keys = none; key_count = 1 }))).1
        ≡ invalid_argument)
unfolding table_fill fill_array fill_keys uint64_from_bytes_lsb
partial_fill = (refl, refl, refl)
