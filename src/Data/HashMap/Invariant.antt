-- ===== src/Data/HashMap/Invariant.antt =====
-- When the slots of a table are consistent.
use nexus_c.Base.{
  ℕ, zero, suc, ◌+◌, ◌*◌, ◌/◌, ◌^◌, ◌≤◌, ◌<◌, ◌≡◌, Bool, true, false, arith, ◌==◌, if◌then◌else◌,
}
use nexus_c.Base.Bits.{bit_and_low}
use nexus_c.Data.HashMap.Outcome.{Lacks}
use nexus_c.Data.HashMap.Resize.{is_active}
use nexus_c.Data.HashMap.Table.{KeyOps, HashMap, HashMapHash, swiss_empty, swiss_deleted, hash_get}
use nexus_c.Data.HashMap.Walk.{walk}

-- How many numbers below `n` pass a test.
unfoldable pub count_below : ℕ → (ℕ → Bool) → ℕ
count_below zero test = 0
count_below (suc n) test = (if test n then 1 else 0) + count_below n test

module _ {ℓ} {K V : Type ℓ} where
  abbrev pub slots : HashMap K V → ℕ
  slots m = m.capacity_groups * 8

  -- The bytes of a block with a control byte, a key and a value for each slot of some groups.
  abbrev pub storage_bytes : HashMap K V → ℕ → ℕ
  storage_bytes m groups = groups * 8 + groups * 8 * (m.key_size_bytes + m.value_size_bytes)

  -- The slot has the fingerprint of the hash, and its group is one that a probe with that hash
  -- visits before any EMPTY slot.
  pub record IsPlaced (m : HashMap K V) (hash : HashMapHash) (i : ℕ) : Type 0 where
    pub print : m.control i ≡ hash.fingerprint
    pub steps : ℕ
    pub within : steps < m.capacity_groups
    pub group : i / 8 ≡ walk m.capacity_groups hash.initial_group_idx steps
    pub path :
        (j : ℕ) → j < steps → Lacks m swiss_empty (walk m.capacity_groups hash.initial_group_idx j)

  abbrev pub is_deleted : HashMap K V → ℕ → Bool
  is_deleted m i = m.control i == swiss_deleted

module _ {ℓ} {K V : Type ℓ} ⦃ops : KeyOps K⦄ where
  -- The slot has an entry under a key that compares equal.
  pub record Holds (m : HashMap K V) (key : K) (i : ℕ) : Type 0 where
    pub inside : i < slots m
    pub active : is_active m i ≡ true
    pub same : ops.same (m.key_at i) key ≡ true

  -- Entries are where a probe finds them, no two of them have the same key, and the two counters
  -- count the active and the DELETED slots. The bytes of the block can be counted in 64 bits.
  pub record IsTable (m : HashMap K V) : Type 0 where
    pub has_group : 0 < m.capacity_groups
    pub addressable : slots m < 2 ^ 64
    pub sized : storage_bytes m (m.capacity_groups) < 2 ^ 64
    pub stored :
        (i : ℕ) → i < slots m → is_active m i ≡ true → IsPlaced m (hash_get m (m.key_at i)) i
    pub unique : (i j : ℕ) → i < slots m → is_active m i ≡ true → Holds m (m.key_at i) j → j ≡ i
    pub counts_active : m.element_count ≡ count_below (slots m) (is_active m)
    pub counts_deleted : m.deleted_count ≡ count_below (slots m) (is_deleted m)

  -- At most seven slots of eight are in use, so that there is an EMPTY one.
  abbrev pub IsLoaded : HashMap K V → Type 0
  IsLoaded m = m.element_count + m.deleted_count ≤ m.capacity_groups * 7

  pub print-lt : (m : HashMap K V) (k : K) → (hash_get m k).fingerprint < 128
  unfolding hash_get
  print-lt m k = omega (arith, bit_and_low 7 (ops.hash k))

  pub home-lt :
      (m : HashMap K V) (k : K)
      → 0 < m.capacity_groups
      → (hash_get m k).initial_group_idx < m.capacity_groups
  unfolding hash_get
  home-lt m k h = omega arith

  pub hash_get-same :
      (m : HashMap K V) (a b : K) → ops.same a b ≡ true → hash_get m a ≡ hash_get m b
  unfolding hash_get
  hash_get-same m a b h = rw (ops.hash-same a b h)

  pub print-active :
      (m : HashMap K V) (k : K) (i : ℕ)
      → m.control i ≡ (hash_get m k).fingerprint
      → is_active m i ≡ true
  print-active m k i e = ground (arith, print-lt m k)

module _ {ℓ} {K V : Type ℓ} where
  pub is_active-empty :
      (m : HashMap K V) (i : ℕ) → m.control i ≡ swiss_empty → is_active m i ≡ false
  is_active-empty m i e = ground arith

  pub is_active-deleted :
      (m : HashMap K V) (i : ℕ) → m.control i ≡ swiss_deleted → is_active m i ≡ false
  is_active-deleted m i e = ground arith
