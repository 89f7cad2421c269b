-- ===== src/Data/HashMap/Write.antt =====
-- `nexus_data_hashmap_insert_without_resize` (src/n_data.c, lines 204 to 246).
use nexus_c.Base.{
  update, ℕ, ◌+◌, ◌-◌, ◌^◌, true, false, Option, none, some, ◌==◌, u64, if◌then◌else◌,
}
use nexus_c.Data.HashMap.Probe.{probe}
use nexus_c.Data.HashMap.Table.{KeyOps, HashMap, HashMapProbe, swiss_deleted, slot_number}

module _ {ℓ} {K V : Type ℓ} where
  -- Write a key and its fingerprint into the slot that a probe gave.
  unfoldable pub claim_slot : HashMap K V → K → HashMapProbe → HashMap K V
  claim_slot m key p =
      let i = slot_number p.group_idx p.slot_idx in
      record m {
        control = update m.control i p.fingerprint;
        key_at = update m.key_at i key;
        element_count = u64 (m.element_count + 1);
        deleted_count =
            if m.control i == swiss_deleted
            then u64 (m.deleted_count + 2 ^ 64 - 1)
            else m.deleted_count;
      }

module _ {ℓ} {K V : Type ℓ} ⦃ops : KeyOps K⦄ where
  -- The result is the number of the slot whose value storage the C function returns, `none` for
  -- NULL. The storage of a new entry still holds what the slot held before.
  unfoldable pub insert_without_resize : HashMap K V → K → HashMap K V × Option ℕ
  insert_without_resize m key =
      let p = probe m key in
      elim (p.found) [
        | true ↦ (m, some (slot_number p.group_idx p.slot_idx))
        | false ↦ elim (p.insertable) [
          | true ↦ (claim_slot m key p, some (slot_number p.group_idx p.slot_idx))
          | false ↦ (m, none)
        ]
      ]
