-- ===== src/Data/HashMap/Api.antt =====
-- The public interface of the hash map (src/n_data.c, lines 395 to 660). Handles and keys are not
-- NULL, as the debug assertions of each function ask.
use nexus_c.Base.{update, ℕ, ◌+◌, ◌*◌, ◌-◌, ◌^◌, Bool, true, false, Option, none, some, leb, u64}
use nexus_c.Data.HashMap.Probe.{probe}
use nexus_c.Data.HashMap.Resize.{Allocator, Cursor, active_entry_next, storage_create, resize}
use nexus_c.Data.HashMap.Table.{
  KeyOps, HashMap, group_load_limit, swiss_deleted, swiss_empty, slot_number,
}
use nexus_c.Data.HashMap.Write.{insert_without_resize}

unfoldable pub enumerator_init : Cursor
enumerator_init = record { group_idx = 0; slot_idx = 0 }

module _ {ℓ} {K V : Type ℓ} where
  -- The struct before its storage is created.
  unfoldable pub without_storage : Allocator K V → ℕ → ℕ → HashMap K V
  without_storage heap key_size value_size = record {
    control = λ i. swiss_empty;
    key_at = heap.stale_key;
    value_at = heap.stale_value;
    capacity_groups = 0;
    element_count = 0;
    deleted_count = 0;
    key_size_bytes = key_size;
    value_size_bytes = value_size;
  }

  -- `none` is NULL. The struct itself is allocated first, if `gets_struct` says so.
  unfoldable pub create : Bool → Allocator K V → ℕ → ℕ → ℕ → Option (HashMap K V)
  create gets_struct heap key_size value_size groups = elim gets_struct [
    | false ↦ none
    | true ↦ storage_create heap (without_storage heap key_size value_size) groups
  ]

  unfoldable pub enumerator_next : HashMap K V → Cursor → Option (K × V) × Cursor
  enumerator_next m c =
      let (next, c') = active_entry_next m c in
      (elim next [ none ↦ none | some i ↦ some (m.key_at i, m.value_at i) ], c')

module _ {ℓ} {K V : Type ℓ} where
  -- The copy of the value into the storage that an insertion returned.
  unfoldable pub store_value : V → HashMap K V × Option ℕ → HashMap K V
  store_value value (m, none) = m
  store_value value (m, some i) = record m { value_at = update m.value_at i value }

  -- The writes of `delete` to the slot that it found.
  unfoldable pub mark_deleted : HashMap K V → ℕ → HashMap K V
  mark_deleted m i = record m {
    control = update m.control i swiss_deleted;
    element_count = u64 (m.element_count + 2 ^ 64 - 1);
    deleted_count = u64 (m.deleted_count + 1);
  }

module _ {ℓ} {K V : Type ℓ} ⦃ops : KeyOps K⦄ where
  -- The map after the call and the slot whose value storage is returned; `none` is NULL.
  unfoldable pub insert : Allocator K V → HashMap K V → K → HashMap K V × Option ℕ
  insert heap m key =
      elim (leb (u64 (m.capacity_groups * group_load_limit))
        (u64 (m.element_count + m.deleted_count))) [
          | true ↦ elim (resize heap m (u64 (m.capacity_groups * 2))) [
            | none ↦ (m, none)
            | some larger ↦ insert_without_resize larger key
          ]
          | false ↦ insert_without_resize m key
        ]

  unfoldable pub put : Allocator K V → HashMap K V → K → V → HashMap K V
  put heap m key value = store_value value (insert heap m key)

  -- The slot whose value storage is returned; `none` is NULL.
  unfoldable pub get : HashMap K V → K → Option ℕ
  get m key =
      let p = probe m key in
      elim (p.found) [ false ↦ none | true ↦ some (slot_number p.group_idx p.slot_idx) ]

  unfoldable pub get_copy : HashMap K V → K → Option V
  get_copy m key = elim (get m key) [ none ↦ none | some i ↦ some (m.value_at i) ]

  unfoldable pub delete : HashMap K V → K → HashMap K V × Bool
  delete m key =
      let p = probe m key in
      elim (p.found) [
        | false ↦ (m, false)
        | true ↦ (mark_deleted m (slot_number p.group_idx p.slot_idx), true)
      ]
