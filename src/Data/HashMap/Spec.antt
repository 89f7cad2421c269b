-- ===== src/Data/HashMap/Spec.antt =====
-- The map that a table stands for: a function from keys to values.
use nexus_c.Base.{
  refl, ◌&&◌, ℕ, zero, suc, ◌+◌, ◌∙◌, u64, ◌*◌, ◌^◌, ◌<◌, ◌≡◌, ◌↔◌, inl, inr, ap, Bool, true, false,
  Option, none, some, List, [], ◌∷◌, arith, Option-cases, Bool-cases, if◌then◌else◌,
}
use nexus_c.Data.HashMap.Api.{without_storage, create, get, get_copy, put, delete}
use nexus_c.Data.HashMap.Delete.{delete-Deleted}
use nexus_c.Data.HashMap.Growth.{cleared-IsTable, get-cleared}
use nexus_c.Data.HashMap.Invariant.{Holds, IsTable, storage_bytes}
use nexus_c.Data.HashMap.Lookup.{get-Holds, Holds-get}
use nexus_c.Data.HashMap.Put.{IsValid, CanGrow, put-Updates}
use nexus_c.Data.HashMap.Resize.{Allocator, cleared, storage_size, storage_create}
use nexus_c.Data.HashMap.Table.{KeyOps, HashMap}

-- An entry is no larger than the block of all entries.
entry_le :
    (groups entry : ℕ) → 0 < groups → groups * 8 + groups * 8 * entry < 2 ^ 64 → entry < 2 ^ 64
entry_le zero entry pos fits = absurd (omega (arith, pos))
entry_le (suc n) entry pos fits =
    let e : suc n * 8 * entry ≡ entry + (n * 8 + 7) * entry = grind arith in omega (arith, fits, e)

module _ {ℓ} {K V : Type ℓ} ⦃ops : KeyOps K⦄ where
  -- In a consistent table `get` returns a slot exactly when the slot has an entry under the key,
  -- compared as the mode of the table says.
  pub get_iff :
      (m : HashMap K V) (key : K) (i : ℕ) → IsTable m → (get m key ≡ some i) ↔ Holds m key i
  get_iff m key i t = (get-Holds m key i t.has_group, Holds-get m key i t)

  -- A table that is valid and reads as the function `f`.
  pub record Models (f : K → Option V) (m : HashMap K V) : Type ℓ where
    pub valid : IsValid m
    pub reads : (q : K) → get_copy m q ≡ f q

  storage_size-bytes :
      (heap : Allocator K V) (key_size value_size groups : ℕ)
      → groups * 8 + groups * 8 * (key_size + value_size) < 2 ^ 64
      → key_size + value_size < 2 ^ 64
      → storage_size (without_storage heap key_size value_size) groups
        ≡ groups * 8 + groups * 8 * (key_size + value_size)
  unfolding storage_size without_storage
  storage_size-bytes heap key_size value_size groups fits entry =
      let e1 : u64 (key_size + value_size) ≡ key_size + value_size = omega (arith, entry) in
      let e2 : u64 (groups * 8) ≡ groups * 8 = omega (arith, fits) in
      let e3 : u64 (groups * 8 * (key_size + value_size)) ≡ groups * 8 * (key_size + value_size) =
        omega (arith, fits) in
      rw (e1, e2, e3) (omega (arith, fits))

  -- The table of some groups before any entry is put.
  pub cleared-Models :
      (heap : Allocator K V) (m : HashMap K V) (groups : ℕ)
      → 0 < groups
      → storage_bytes m groups < 2 ^ 64
      → Models (λ _. none) (cleared heap m groups)
  cleared-Models heap m groups pos fits = record {
    valid = record {
      table = cleared-IsTable heap m groups pos fits;
      loaded = unfold cleared in omega arith;
    };
    reads = λ q. unfold get_copy in rw (get-cleared heap m groups pos fits q, get_copy);
  }

  -- What creating a table gives: a valid table that stands for the empty map, if the struct and the
  -- bytes of all slots are granted, and nothing if one of them is not.
  pub data Creates (gets_struct : Bool) (heap : Allocator K V) (bytes : ℕ)
      : Option (HashMap K V) → Type ℓ where
    created :
        (m : HashMap K V)
        → (gets_struct && heap.succeeds bytes) ≡ true
        → Models (λ _. none) m
        → Creates gets_struct heap bytes (some m)
    not_granted : (gets_struct && heap.succeeds bytes) ≡ false → Creates gets_struct heap bytes none

  -- For a positive number of groups where the control bytes, the keys and the values of all slots can
  -- be counted in 64 bits, `create` asks for exactly these bytes. It returns a table exactly where they
  -- and the struct are granted, and the table is valid and stands for the empty map.
  pub create-Creates :
      (gets_struct : Bool) (heap : Allocator K V) (key_size value_size groups : ℕ)
      → 0 < groups
      → groups * 8 + groups * 8 * (key_size + value_size) < 2 ^ 64
      → Creates gets_struct heap
          (groups * 8 + groups * 8 * (key_size + value_size))
          (create gets_struct heap key_size value_size groups)
  unfolding create storage_create
  create-Creates false heap key_size value_size groups pos fits = not_granted refl
  create-Creates true heap key_size value_size groups pos fits =
      let base = without_storage heap key_size value_size in
      let room : storage_bytes base groups < 2 ^ 64 = unfold without_storage in fits in
      let entry : key_size + value_size < 2 ^ 64 =
        entry_le groups (key_size + value_size) pos fits in
      let size = storage_size-bytes heap key_size value_size groups fits entry in
      elim (Bool-cases (heap.succeeds (groups * 8 + groups * 8 * (key_size + value_size)))) [
        | inl granted ↦
            rw (ap heap.succeeds size ∙ granted, storage_create)
              (created (cleared heap base groups) granted
                (cleared-Models heap base groups pos room))
        | inr refused ↦ rw (ap heap.succeeds size ∙ refused, storage_create) (not_granted refused)
      ]

  get_copy-deleted :
      (m : HashMap K V) (key : K)
      → IsTable m
      → (q : K) → get_copy (delete m key).0 q ≡ (if ops.same q key then none else get_copy m q)
  unfolding get_copy
  get_copy-deleted m key t q =
      let d = delete-Deleted m key t in
      elim (Option-cases (get m q)) [
        | inl e ↦ ground (arith, d.lookups q)
        | inr (i, e) ↦ ground (arith, d.lookups q, ap (λ (f : ℕ → V). f i) d.values)
      ]

  delete-Models :
      (m : HashMap K V) (f : K → Option V) (key : K)
      → Models f m
      → Models (λ q. if ops.same q key then none else f q) (delete m key).0
  delete-Models m f key h =
      let d = delete-Deleted m key h.valid.table in
      record {
        valid = record {
          table = d.table;
          loaded = omega (arith, d.used, d.groups, h.valid.loaded);
        };
        reads = λ q. rw (← h.reads q) (get_copy-deleted m key h.valid.table q);
      }

  put-Models :
      (heap : Allocator K V) (m : HashMap K V) (f : K → Option V) (key : K) (value : V)
      → Models f m
      → CanGrow heap m
      → Models (λ q. if ops.same q key then some value else f q) (put heap m key value)
  put-Models heap m f key value h grow =
      let u = put-Updates heap m key value h.valid grow in
      record { valid = u.valid; reads = λ q. rw (← h.reads q) (u.lookups q) }

-- A call that changes a table, with the allocator as it is at the time of the call.
pub data Request {ℓ} (K V : Type ℓ) : Type ℓ where
  put_request : Allocator K V → K → V → Request K V
  delete_request : K → Request K V

module _ {ℓ} {K V : Type ℓ} ⦃ops : KeyOps K⦄ where
  -- The calls on a table, and on the map that it stands for.
  abbrev pub perform : HashMap K V → Request K V → HashMap K V
  perform m (put_request heap key value) = put heap m key value
  perform m (delete_request key) = (delete m key).0

  abbrev pub perform_all : HashMap K V → List (Request K V) → HashMap K V
  perform_all m [] = m
  perform_all m (r ∷ rs) = perform_all (perform m r) rs

  abbrev pub update_map : (K → Option V) → Request K V → K → Option V
  update_map f (put_request heap key value) q = if ops.same q key then some value else f q
  update_map f (delete_request key) q = if ops.same q key then none else f q

  abbrev pub update_all : (K → Option V) → List (Request K V) → K → Option V
  update_all f [] = f
  update_all f (r ∷ rs) = update_all (update_map f r) rs

  -- Each call of `put` in the sequence may grow the table that it meets.
  abbrev pub AllCanGrow : HashMap K V → List (Request K V) → Type 0
  AllCanGrow m [] = Unit
  AllCanGrow m (put_request heap key value ∷ rs) =
      CanGrow heap m × AllCanGrow (put heap m key value) rs
  AllCanGrow m (delete_request key ∷ rs) = AllCanGrow (delete m key).0 rs

  -- Any sequence of `put` and `delete` calls on a table that stands for a map leaves a valid table
  -- that stands for the map changed by the same calls, where the storage that the calls need is
  -- granted.
  pub perform_all-Models :
      (m : HashMap K V) (f : K → Option V) (rs : List (Request K V))
      → Models f m
      → AllCanGrow m rs
      → Models (update_all f rs) (perform_all m rs)
  perform_all-Models m f [] h g = h
  perform_all-Models m f (put_request heap key value ∷ rs) h (grow, g) =
      perform_all-Models (put heap m key value) (update_map f (put_request heap key value)) rs
        (put-Models heap m f key value h grow) g
  perform_all-Models m f (delete_request key ∷ rs) h g =
      perform_all-Models (delete m key).0 (update_map f (delete_request key)) rs
        (delete-Models m f key h) g
