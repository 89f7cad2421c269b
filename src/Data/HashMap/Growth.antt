-- ===== src/Data/HashMap/Growth.antt =====
-- New storage is empty, and a resized table has the lookups of the old one.
use nexus_c.Base.{
  ℕ, ◌+◌, ◌*◌, ◌^◌, ◌≤◌, ◌<◌, ◌≡◌, refl, sym, ◌∙◌, ap, Bool, true, false, Option, none, some, arith,
  Option-cases, ltb, lt→ltb, if◌then◌else◌, inl, inr,
}
use nexus_c.Data.HashMap.Api.{get, get_copy}
use nexus_c.Data.HashMap.Count.{count_below-none}
use nexus_c.Data.HashMap.Invariant.{slots, storage_bytes, is_deleted, count_below, IsTable}
use nexus_c.Data.HashMap.Lookup.{get-Holds, not-Holds-get}
use nexus_c.Data.HashMap.Moving.{Moved, moved_copy, move_entries-Moved}
use nexus_c.Data.HashMap.Resize.{
  Allocator, is_active, cleared, storage_size, storage_create, resize,
}
use nexus_c.Data.HashMap.Table.{KeyOps, HashMap}

module _ {ℓ} {K V : Type ℓ} (m : HashMap K V) where
  moved_copy_zero : (o : Option ℕ) → moved_copy m 0 o ≡ none
  moved_copy_zero none = refl
  moved_copy_zero (some i) =
      let e : ltb i 0 ≡ false = ground arith in
      ap (λ (b : Bool). if b then some (m.value_at i) else none) e

module _ {ℓ} {K V : Type ℓ} ⦃ops : KeyOps K⦄ (heap : Allocator K V) (m : HashMap K V) (groups : ℕ)
    (pos : 0 < groups) (fits : storage_bytes m groups < 2 ^ 64) where
  cleared_inactive : (i : ℕ) → is_active (cleared heap m groups) i ≡ false
  unfolding cleared
  cleared_inactive i = refl

  cleared_undeleted : (i : ℕ) → is_deleted (cleared heap m groups) i ≡ false
  unfolding cleared
  cleared_undeleted i = refl

  pub cleared-IsTable : IsTable (cleared heap m groups)
  cleared-IsTable = record {
    has_group = unfold cleared in pos;
    addressable = unfold cleared in omega (arith, fits);
    sized = unfold cleared in fits;
    stored = λ i lt a. absurd (ground (arith, cleared_inactive i));
    unique = λ i j lt a h. absurd (ground (arith, cleared_inactive i));
    counts_active =
        unfold cleared in
        sym (count_below-none (groups * 8) (is_active (cleared heap m groups)) cleared_inactive);
    counts_deleted =
        unfold cleared in
        sym (count_below-none (groups * 8) (is_deleted (cleared heap m groups)) cleared_undeleted);
  }

  pub get-cleared : (q : K) → get (cleared heap m groups) q ≡ none
  get-cleared q =
      not-Holds-get (cleared heap m groups) q cleared-IsTable
        λ i h. ground (arith, h.active, cleared_inactive i)

module _ {ℓ} {K V : Type ℓ} ⦃ops : KeyOps K⦄ (heap : Allocator K V) (m : HashMap K V)
    (groups : ℕ) where
  cleared-Moved :
      (t : IsTable m)
      → storage_bytes m groups < 2 ^ 64
      → m.capacity_groups ≤ groups
      → Moved m t groups 0 (cleared heap m groups)
  unfolding get_copy
  cleared-Moved t fits le =
      let pos : 0 < groups = omega (arith, t.has_group, le) in
      record {
        table = cleared-IsTable heap m groups pos fits;
        lookups = λ q.
            rw (get-cleared heap m groups pos fits q, get_copy) (sym (moved_copy_zero m (get m q)));
        elements = unfold cleared count_below in refl;
        deleted = unfold cleared in refl;
        groups = unfold cleared in refl;
        larger = le;
      }

  -- Where the storage is granted, every entry is moved.
  pub resize-Moved :
      (t : IsTable m)
      → storage_bytes m groups < 2 ^ 64
      → m.capacity_groups ≤ groups
      → heap.succeeds (storage_size m groups) ≡ true
      → (after : HashMap K V) × (resize heap m groups ≡ some after)
        × Moved m t groups (slots m) after
  unfolding resize storage_create
  resize-Moved t fits le granted =
      let (after, run, moved) =
        move_entries-Moved m t groups (m.capacity_groups * 8 + 1)
          (record { group_idx = 0; slot_idx = 0 }) (cleared heap m groups) (omega arith)
          (omega arith) (omega arith) (cleared-Moved t fits le) in
      (after, rw (granted, resize) run, moved)

  moved_copy_all : (t : IsTable m) (q : K) → moved_copy m (slots m) (get m q) ≡ get_copy m q
  unfolding get_copy
  moved_copy_all t q = elim (Option-cases (get m q)) [
    | inl e ↦ rw (e, get_copy)
    | inr (i, e) ↦
        let e' : ltb i (slots m) ≡ true = lt→ltb _ _ (get-Holds m q i t.has_group e).inside in
        rw (e, get_copy) (ap (λ (b : Bool). if b then some (m.value_at i) else none) e')
  ]

  -- A table that holds every entry of the old one.
  pub Moved-all :
      (t : IsTable m) (after : HashMap K V)
      → Moved m t groups (slots m) after
      → ((q : K) → get_copy after q ≡ get_copy m q)
        × (after.element_count ≡ m.element_count)
        × (after.deleted_count ≡ 0)
  Moved-all t after moved = (
    λ q. moved.lookups q ∙ moved_copy_all t q,
    moved.elements ∙ sym t.counts_active,
    moved.deleted,
  )
