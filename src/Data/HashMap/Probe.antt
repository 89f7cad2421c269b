-- ===== src/Data/HashMap/Probe.antt =====
-- `nexus_data_hashmap_probe` (src/n_data.c, lines 81 to 198).
use nexus_c.Base.{ℕ, zero, suc, ◌+◌, ◌%◌, Bool, true, false, ◌&&◌, Option, none, some, ◌==◌}
use nexus_c.Data.HashMap.Table.{
  KeyOps, HashMap, HashMapHash, HashMapProbe, group_slot_count, swiss_empty, swiss_deleted,
  slot_number, hash_get,
}

-- A loop over slots that stops at the first one with a property, with `n` slots left.
unfoldable pub scan : ℕ → ℕ → (ℕ → Bool) → Option ℕ
scan zero slot test = none
scan (suc n) slot test = elim (test slot) [ true ↦ some slot | false ↦ scan n (slot + 1) test ]

-- Take a slot for the insertion target, unless there is one already.
unfoldable pub offer : HashMapProbe → ℕ → Option ℕ → HashMapProbe
offer result group none = result
offer result group (some slot) = elim (result.insertable) [
  | true ↦ result
  | false ↦ record result { insertable = true; group_idx = group; slot_idx = slot }
]

abbrev pub no_result : HashMapHash → HashMapProbe
no_result hash = record {
  found = false;
  insertable = false;
  group_idx = 0;
  slot_idx = 0;
  fingerprint = hash.fingerprint;
}

module _ {ℓ} {K V : Type ℓ} ⦃ops : KeyOps K⦄ where
  -- A slot of the group whose fingerprint and whose key are the sought ones.
  abbrev pub matches : HashMap K V → K → ℕ → ℕ → ℕ → Bool
  matches m key fingerprint group slot =
      (m.control (slot_number group slot) == fingerprint)
      && ops.same (m.key_at (slot_number group slot)) key

  unfoldable pub find_match : HashMap K V → K → ℕ → ℕ → Option ℕ
  find_match m key fingerprint group = scan group_slot_count 0 (matches m key fingerprint group)

module _ {ℓ} {K V : Type ℓ} where
  -- The first slot of the group with a given control byte.
  unfoldable pub find_control : HashMap K V → ℕ → ℕ → Option ℕ
  find_control m byte group =
      scan group_slot_count 0 (λ slot. m.control (slot_number group slot) == byte)

  unfoldable pub note_tombstone : HashMap K V → ℕ → HashMapProbe → HashMapProbe
  note_tombstone m group result = offer result group (find_control m swiss_deleted group)

module _ {ℓ} {K V : Type ℓ} ⦃ops : KeyOps K⦄ where
  -- The loop at a group, with `rounds` groups left to look at.
  unfoldable pub probe_loop : ℕ → HashMap K V → K → HashMapHash → ℕ → HashMapProbe → HashMapProbe
  probe_loop zero m key hash group result = result
  probe_loop (suc rounds) m key hash group result = elim (find_match m key hash.fingerprint group) [
    | some slot ↦ record result { found = true; group_idx = group; slot_idx = slot }
    | none ↦ elim (find_control m swiss_empty group) [
      | some slot ↦ offer (note_tombstone m group result) group (some slot)
      | none ↦ elim ((group + 1) % m.capacity_groups == hash.initial_group_idx) [
        | true ↦ note_tombstone m group result
        | false ↦
            probe_loop rounds m key hash ((group + 1) % m.capacity_groups)
              (note_tombstone m group result)
      ]
    ]
  ]

  -- The loop ends by itself within `capacity_groups` rounds.
  unfoldable pub probe : HashMap K V → K → HashMapProbe
  probe m key =
      let hash = hash_get m key in
      probe_loop m.capacity_groups m key hash hash.initial_group_idx (no_result hash)
