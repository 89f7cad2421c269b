-- ===== src/Data/HashMap/Resize.antt =====
-- Storage, iteration and resizing (src/n_data.c, lines 252 to 389).
use nexus_c.Base.{
  update, ℕ, zero, suc, ◌+◌, ◌*◌, Bool, true, false, Option, none, some, ◌==◌, ◌||◌, ltb, u64,
}
use nexus_c.Data.HashMap.Table.{
  KeyOps, HashMap, group_slot_count, swiss_empty, swiss_deleted, slot_number,
}
use nexus_c.Data.HashMap.Write.{insert_without_resize}

-- One call of `malloc`: whether it succeeds at a size, and what the new block holds.
pub record Allocator {ℓ} (K V : Type ℓ) : Type ℓ where
  pub succeeds : ℕ → Bool
  pub stale_key : ℕ → K
  pub stale_value : ℕ → V

-- Where the iteration stands.
pub record Cursor : Type 0 where
  pub group_idx : ℕ
  pub slot_idx : ℕ

module _ {ℓ} {K V : Type ℓ} where
  abbrev pub is_active : HashMap K V → ℕ → Bool
  is_active m i = elim (m.control i == swiss_empty || m.control i == swiss_deleted) [
    | true ↦ false
    | false ↦ true
  ]

  -- The two nested loops, with `n` steps left. The result is the number of the next active slot.
  unfoldable pub active_entry_loop : ℕ → HashMap K V → Cursor → Option ℕ × Cursor
  active_entry_loop zero m c = (none, c)
  active_entry_loop (suc n) m c = elim (ltb c.group_idx m.capacity_groups) [
    | false ↦ (none, c)
    | true ↦ elim (ltb c.slot_idx group_slot_count) [
      | false ↦ active_entry_loop n m (record { group_idx = c.group_idx + 1; slot_idx = 0 })
      | true ↦ elim (is_active m (slot_number c.group_idx c.slot_idx)) [
        | true ↦ (some (slot_number c.group_idx c.slot_idx), record c { slot_idx = c.slot_idx + 1 })
        | false ↦ active_entry_loop n m (record c { slot_idx = c.slot_idx + 1 })
      ]
    ]
  ]

  -- A step takes a slot, or goes on from the end of a group to the next one.
  unfoldable pub active_entry_next : HashMap K V → Cursor → Option ℕ × Cursor
  active_entry_next m c = active_entry_loop (m.capacity_groups * 9 + 1) m c

  -- The fields of a table whose storage was just created; the control bytes are all EMPTY.
  unfoldable pub cleared : Allocator K V → HashMap K V → ℕ → HashMap K V
  cleared heap m groups = record m {
    control = λ i. swiss_empty;
    key_at = heap.stale_key;
    value_at = heap.stale_value;
    capacity_groups = groups;
    element_count = 0;
    deleted_count = 0;
  }

  -- The argument of `malloc`.
  unfoldable pub storage_size : HashMap K V → ℕ → ℕ
  storage_size m groups =
      let entry_size = u64 (m.key_size_bytes + m.value_size_bytes) in
      let slot_count = u64 (groups * group_slot_count) in
      let data_size = u64 (slot_count * entry_size) in
      let metadata_size = u64 (groups * 8) in u64 (metadata_size + data_size)

  -- The table has every slot of its groups. The block has room for them where the size does not wrap,
  -- which the theorems ask and keep: C does not test for it.
  unfoldable pub storage_create : Allocator K V → HashMap K V → ℕ → Option (HashMap K V)
  storage_create heap m groups = elim (heap.succeeds (storage_size m groups)) [
    | false ↦ none
    | true ↦ some (cleared heap m groups)
  ]

  -- The value follows its key into the new table; a failed insertion ends the loop.
  unfoldable pub store_moved :
      (HashMap K V → Option (HashMap K V)) → V → HashMap K V × Option ℕ → Option (HashMap K V)
  store_moved rest value (grown, none) = none
  store_moved rest value (grown, some j) =
      rest (record grown { value_at = update grown.value_at j value })

module _ {ℓ} {K V : Type ℓ} ⦃ops : KeyOps K⦄ where
  -- Move the entries from the cursor on into `fresh`, with `n` entries left at most.
  unfoldable pub move_entries : ℕ → HashMap K V → Cursor → HashMap K V → Option (HashMap K V)
  move_entries zero old c fresh = some fresh
  move_entries (suc n) old c fresh =
      let (next, c') = active_entry_next old c in
      elim next [
        | none ↦ some fresh
        | some i ↦
            store_moved (move_entries n old c') (old.value_at i)
              (insert_without_resize fresh (old.key_at i))
      ]

  -- `none` is FALSE; the old table is kept.
  unfoldable pub resize : Allocator K V → HashMap K V → ℕ → Option (HashMap K V)
  resize heap m groups = elim (storage_create heap m groups) [
    | none ↦ none
    | some fresh ↦
        move_entries (m.capacity_groups * group_slot_count + 1) m
          (record { group_idx = 0; slot_idx = 0 }) fresh
  ]
