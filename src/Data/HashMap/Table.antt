-- ===== src/Data/HashMap/Table.antt =====
-- The struct of a hash map (src/n_data.c, lines 19 to 55), and what it asks of its keys.
use nexus_c.Base.{ℕ, ◌+◌, ◌*◌, ◌%◌, ◌≡◌, Bool, true, bit_and, ◌>>>◌}

-- How a table hashes a key to 64 bits, and how it compares a stored key with a sought one. The
-- mode of a table fixes both, and a table keeps its mode.
pub record KeyOps {ℓ} (K : Type ℓ) : Type ℓ where
  pub hash : K → ℕ
  pub same : K → K → Bool
  pub same_refl : (a : K) → same a a ≡ true
  pub same_symm : (a b : K) → same a b ≡ same b a
  pub same_trans : (a b c : K) → same a b ≡ true → same b c ≡ true → same a c ≡ true
  pub hash-same : (a b : K) → same a b ≡ true → hash a ≡ hash b

abbrev pub group_slot_count : ℕ
group_slot_count = 8

abbrev pub group_load_limit : ℕ
group_load_limit = 7

-- The control bytes of a slot that was never used, and of one whose entry was deleted.
abbrev pub swiss_empty : ℕ
swiss_empty = 0x80

abbrev pub swiss_deleted : ℕ
swiss_deleted = 0xFE

-- `control` is the metadata, one byte for a slot; slot `s` of group `g` has the number
-- `g * 8 + s`, and its key and its value stand in `data` under the same number.
pub record HashMap {ℓ} (K V : Type ℓ) : Type ℓ where
  pub control : ℕ → ℕ
  pub key_at : ℕ → K
  pub value_at : ℕ → V
  pub capacity_groups : ℕ
  pub element_count : ℕ
  pub deleted_count : ℕ
  pub key_size_bytes : ℕ
  pub value_size_bytes : ℕ

pub record HashMapHash : Type 0 where
  pub initial_group_idx : ℕ
  pub fingerprint : ℕ

pub record HashMapProbe : Type 0 where
  pub found : Bool
  pub insertable : Bool
  pub group_idx : ℕ
  pub slot_idx : ℕ
  pub fingerprint : ℕ

abbrev pub slot_number : ℕ → ℕ → ℕ
slot_number g s = g * group_slot_count + s

module _ {ℓ} {K V : Type ℓ} ⦃ops : KeyOps K⦄ where
  unfoldable pub hash_get : HashMap K V → K → HashMapHash
  hash_get m key =
      let hash = ops.hash key in
      record {
        initial_group_idx = (hash >>> 7) % m.capacity_groups;
        fingerprint = bit_and hash 0x7F;
      }
