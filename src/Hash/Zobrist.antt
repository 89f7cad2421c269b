-- ===== src/Hash/Zobrist.antt =====
-- Zobrist hashing (nexus.h, lines 5093 to 5200). The provider of random bytes is a
-- parameter: from its state it returns eight bytes or an error, and the next state.
use nexus_c.Base.{
  ℕ, zero, suc, ltb, if◌then◌else◌, ◌≡◌, ◌∙◌, refl, ap, sym, Option, none, some, List, [], ◌∷◌,
  ◌++◌, bit_xor, get_or,
}
use nexus_c.Base.Xor.{bit_xor_comm, bit_xor_assoc, bit_xor_self, bit_xor_zero}
use nexus_c.Errors.{error_none, invalid_argument}
use nexus_c.BitFields.Bytes.{uint64_from_bytes_lsb}

pub record ZobristTable : Type 0 where
  pub keys : Option (List ℕ)
  pub key_count : ℕ

-- What a call of the provider does: eight bytes, or an error code that is not 0.
pub data Filled : Type 0 where
  given : (ℕ → ℕ) → Filled
  failed : ℕ → Filled

abbrev pub Fill {ℓ} : Type ℓ → Type ℓ
Fill S = S → Filled × S

-- The loop, with `n` keys left, and the error that it returns; the rest keep their values. The array
-- has as many keys as the table says.
unfoldable pub fill_keys {ℓ} : {S : Type ℓ} → Fill S → S → ℕ → List ℕ → List ℕ × ℕ
fill_keys fill s zero keys = (keys, error_none)
fill_keys fill s (suc n) [] = ([], error_none)
fill_keys fill s (suc n) (k ∷ keys) =
    let (answer, next) = fill s in
    elim answer [
      | failed error ↦ (k ∷ keys, error)
      | given key_bytes ↦
          let (rest, error) = fill_keys fill next n keys in
          (uint64_from_bytes_lsb key_bytes ∷ rest, error)
    ]

unfoldable pub fill_array {ℓ} : {S : Type ℓ} → Fill S → S → ZobristTable → ZobristTable × ℕ
fill_array fill s table = elim (table.keys) [
  | none ↦ (table, if ltb 0 table.key_count then invalid_argument else error_none)
  | some keys ↦
      let (filled, error) = fill_keys fill s table.key_count keys in
      (record table { keys = some filled }, error)
]

-- The tests for NULL, then the loop.
unfoldable pub table_fill {ℓ} :
    {S : Type ℓ} → Option (Fill S) → S → Option ZobristTable → Option ZobristTable × ℕ
table_fill fill s none = (none, invalid_argument)
table_fill none s (some table) = (some table, invalid_argument)
table_fill (some fill) s (some table) =
    let (filled, error) = fill_array fill s table in (some filled, error)

-- The index is in the table, as the debug assertion asks.
unfoldable pub key_get : List ℕ → ℕ → ℕ
key_get keys index = get_or keys index 0

unfoldable pub hash_update : ℕ → ℕ → ℕ
hash_update hash key = bit_xor hash key

unfoldable pub hash_replace : ℕ → ℕ → ℕ → ℕ
hash_replace hash remove_key add_key = hash_update (hash_update hash remove_key) add_key

unfoldable pub hash_xor : ℕ → ℕ → ℕ
hash_xor hash key = hash_update hash key

-- The loop, from a hash.
unfoldable pub hash_keys : ℕ → List ℕ → ℕ
hash_keys hash [] = hash
hash_keys hash (k ∷ keys) = hash_keys (hash_update hash k) keys

unfoldable pub hash_from_keys : List ℕ → ℕ
hash_from_keys keys = hash_keys 0 keys

-- A key before a run of keys is a key after it.
hash_keys-hash_update :
    (h k : ℕ) (keys : List ℕ) → hash_keys (hash_update h k) keys ≡ hash_update (hash_keys h keys) k
unfolding hash_keys hash_update
hash_keys-hash_update h k [] = refl
hash_keys-hash_update h k (x ∷ keys) =
    ap (λ n. hash_keys n keys)
      (bit_xor_assoc h k x ∙ ap (bit_xor h) (bit_xor_comm k x) ∙ sym (bit_xor_assoc h x k))
    ∙ hash_keys-hash_update (bit_xor h x) k keys

hash_keys-append : (h : ℕ) (xs ys : List ℕ) → hash_keys h (xs ++ ys) ≡ hash_keys (hash_keys h xs) ys
unfolding hash_keys
hash_keys-append h [] ys = refl
hash_keys-append h (x ∷ xs) ys = hash_keys-append (hash_update h x) xs ys

-- The hash with a key anywhere among the keys is the hash of the other keys, updated by it.
keyed :
    (xs ys : List ℕ) (k : ℕ)
    → hash_from_keys (xs ++ k ∷ ys) ≡ hash_update (hash_from_keys (xs ++ ys)) k
unfolding hash_from_keys hash_keys
keyed xs ys k =
    hash_keys-append 0 xs (k ∷ ys)
    ∙ hash_keys-hash_update (hash_keys 0 xs) k ys
    ∙ ap (λ n. hash_update n k) (sym (hash_keys-append 0 xs ys))

hash_update_twice : (h k : ℕ) → hash_update (hash_update h k) k ≡ h
unfolding hash_update
hash_update_twice h k =
    bit_xor_assoc h k k ∙ ap (bit_xor h) (bit_xor_self k) ∙ bit_xor_comm h 0 ∙ bit_xor_zero h

-- Replacing a key in the hash of some keys gives the hash of the keys with this key replaced, wherever
-- it stands.
pub hash_replace-hash_from_keys :
    (xs ys : List ℕ) (remove_key add_key : ℕ)
    → hash_replace (hash_from_keys (xs ++ remove_key ∷ ys)) remove_key add_key
      ≡ hash_from_keys (xs ++ add_key ∷ ys)
unfolding hash_replace
hash_replace-hash_from_keys xs ys r a =
    ap (λ n. hash_update (hash_update n r) a) (keyed xs ys r)
    ∙ ap (λ n. hash_update n a) (hash_update_twice (hash_from_keys (xs ++ ys)) r)
    ∙ sym (keyed xs ys a)
