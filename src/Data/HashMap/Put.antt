-- ===== src/Data/HashMap/Put.antt =====
-- `put` on a table that may have to grow first.
use nexus_c.Base.{
  ℕ, ◌+◌, ◌*◌, ◌^◌, ◌≤◌, ◌<◌, ◌≡◌, inl, inr, sym, ◌∙◌, ap, Bool, true, false, none, some, arith,
  Bool-cases, leb, leb→le, u64, if◌then◌else◌,
}
use mathlib.Core.Path.{subst}
use nexus_c.Data.HashMap.Api.{get_copy, insert, store_value, put}
use nexus_c.Data.HashMap.Growth.{resize-Moved, Moved-all}
use nexus_c.Data.HashMap.Insert.{Inserted, insert_without_resize-Inserted}
use nexus_c.Data.HashMap.Invariant.{IsTable, IsLoaded, storage_bytes}
use nexus_c.Data.HashMap.Resize.{Allocator, storage_size, resize}
use nexus_c.Data.HashMap.Table.{KeyOps, HashMap}
use nexus_c.Data.HashMap.Values.{set_value, set_value-IsTable, set_value-lookups}
use nexus_c.Data.HashMap.Write.{insert_without_resize}

module _ {ℓ} {K V : Type ℓ} ⦃ops : KeyOps K⦄ where
  -- A consistent table with an EMPTY slot left.
  pub record IsValid (m : HashMap K V) : Type 0 where
    pub table : IsTable m
    pub loaded : IsLoaded m

  -- Where a table is at its load limit, the doubled storage is granted and its bytes can be
  -- counted in 64 bits.
  abbrev pub CanGrow : Allocator K V → HashMap K V → Type 0
  CanGrow heap m =
      m.capacity_groups * 7 ≤ m.element_count + m.deleted_count
      → (storage_bytes m (m.capacity_groups * 2) < 2 ^ 64)
        × (heap.succeeds (storage_size m (m.capacity_groups * 2)) ≡ true)

  -- `after` binds the key to the value, and every other key as before; a new key is counted.
  pub record Updates (m : HashMap K V) (key : K) (value : V) (after : HashMap K V) : Type ℓ where
    pub valid : IsValid after
    pub lookups : (q : K) → get_copy after q ≡ (if ops.same q key then some value else get_copy m q)
    pub elements :
        after.element_count
        ≡ elim (get_copy m key) [ none ↦ m.element_count + 1 | some v ↦ m.element_count ]

  at_limit : HashMap K V → Bool
  at_limit m = leb (u64 (m.capacity_groups * 7)) (u64 (m.element_count + m.deleted_count))

  at_limit-le :
      (m : HashMap K V)
      → IsValid m
      → at_limit m ≡ true
      → m.capacity_groups * 7 ≤ m.element_count + m.deleted_count
  unfolding at_limit
  at_limit-le m v h = omega (arith, leb→le _ _ h, v.table.addressable, v.loaded)

  below_limit :
      (m : HashMap K V)
      → IsValid m
      → at_limit m ≡ false
      → m.element_count + m.deleted_count < m.capacity_groups * 7
  unfolding at_limit
  below_limit m v h = ground (arith, v.table.addressable, v.loaded)

  -- The write of the value after an insertion that had room.
  Inserted-Updates :
      (m : HashMap K V) (key : K) (value : V) (after : HashMap K V) (i : ℕ)
      → IsTable m
      → m.element_count + m.deleted_count < m.capacity_groups * 7
      → Inserted m key after i
      → Updates m key value (set_value after i value)
  unfolding get_copy
  Inserted-Updates m key value after i t room ins = record {
    valid = record {
      table = set_value-IsTable after i value ins.table;
      loaded = omega (arith, ins.used, ins.groups);
    };
    lookups = λ q. unfold get_copy in set_value-lookups m key after i t ins value q;
    elements = ground (arith, ins.elements);
  }

  Updates-of_equal :
      (m n : HashMap K V) (key : K) (value : V) (after : HashMap K V)
      → ((q : K) → get_copy n q ≡ get_copy m q)
      → n.element_count ≡ m.element_count
      → Updates n key value after
      → Updates m key value after
  Updates-of_equal m n key value after same count u = record {
    valid = u.valid;
    lookups = λ q. rw (← same q) (u.lookups q);
    elements = ground (arith, u.elements, same key, count);
  }

  insert_below :
      (heap : Allocator K V) (m : HashMap K V) (key : K)
      → at_limit m ≡ false
      → insert heap m key ≡ insert_without_resize m key
  unfolding insert at_limit
  insert_below heap m key below = rw (below, insert)

  insert_full :
      (heap : Allocator K V) (m : HashMap K V) (key : K) (larger : HashMap K V)
      → at_limit m ≡ true
      → resize heap m (u64 (m.capacity_groups * 2)) ≡ some larger
      → insert heap m key ≡ insert_without_resize larger key
  unfolding insert at_limit
  insert_full heap m key larger full grown = rw (full, grown, insert)

  -- On a valid table, if the doubled storage is granted and its bytes can be counted in 64 bits where the table
  -- is at its load limit, `put` leaves a valid table: `get_copy` then reads the value under the key
  -- and what it read before under every other key, and a new key is counted, an old one is not.
  pub put-Updates :
      (heap : Allocator K V) (m : HashMap K V) (key : K) (value : V)
      → IsValid m
      → CanGrow heap m
      → Updates m key value (put heap m key value)
  unfolding put store_value
  put-Updates heap m key value v can_grow = elim (Bool-cases (at_limit m)) [
    | inr below ↦
        let room = below_limit m v below in
        let (after, i, run, ins) =
          insert_without_resize-Inserted m key v.table (omega (arith, room)) in
        let e = ap (store_value value) (insert_below heap m key below ∙ run) in
        subst (Updates m key value) (sym e) (Inserted-Updates m key value after i v.table room ins)
    | inl full ↦
        let (fits, granted) = can_grow (at_limit-le m v full) in
        let no_wrap : u64 (m.capacity_groups * 2) ≡ m.capacity_groups * 2 = omega arith in
        let (larger, grown, moved) =
          resize-Moved heap m (m.capacity_groups * 2) v.table fits (omega arith) granted in
        let (same, count, none_deleted) =
          Moved-all heap m (m.capacity_groups * 2) v.table larger moved in
        let room : larger.element_count + larger.deleted_count < larger.capacity_groups * 7 =
          omega (arith, count, none_deleted, v.loaded, moved.groups, v.table.has_group) in
        let (after, i, run, ins) =
          insert_without_resize-Inserted larger key moved.table (omega (arith, room)) in
        let e =
          ap (store_value value)
            (insert_full heap m key larger full (ap (resize heap m) no_wrap ∙ grown) ∙ run) in
        subst (Updates m key value) (sym e) (
          Updates-of_equal m larger key value (set_value after i value) same count
            (Inserted-Updates larger key value after i moved.table room ins))
  ]
