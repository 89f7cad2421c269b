-- ===== src/Data/HashMap/Values.antt =====
-- Writing a value changes no lookup of a slot.
use nexus_c.Base.{
  update, ℕ, ◌≡◌, ◌≢◌, inl, inr, ap, some, arith, Option-cases, Bool-cases, if◌then◌else◌,
}
use nexus_c.Data.HashMap.Api.{get, get_copy}
use nexus_c.Data.HashMap.Insert.{Inserted, Holds-agree}
use nexus_c.Data.HashMap.Invariant.{Holds, IsTable, IsPlaced}
use nexus_c.Data.HashMap.Lookup.{get-Holds, Holds-get, not-Holds-get}
use nexus_c.Data.HashMap.Table.{KeyOps, HashMap, HashMapHash, hash_get}

module _ {ℓ} {K V : Type ℓ} where
  abbrev pub set_value : HashMap K V → ℕ → V → HashMap K V
  set_value m i v = record m { value_at = update m.value_at i v }

  IsPlaced-set_value :
      (m : HashMap K V) (i : ℕ) (v : V) (hash : HashMapHash) (j : ℕ)
      → IsPlaced m hash j
      → IsPlaced (set_value m i v) hash j
  IsPlaced-set_value m i v hash j q = record {
    print = q.print;
    steps = q.steps;
    within = q.within;
    group = q.group;
    path = q.path;
  }

module _ {ℓ} {K V : Type ℓ} ⦃ops : KeyOps K⦄ (m : HashMap K V) (i : ℕ) (v : V) where
  pub Holds-set_value : (q : K) (j : ℕ) → Holds m q j → Holds (set_value m i v) q j
  Holds-set_value q j h = record { inside = h.inside; active = h.active; same = h.same }

  pub Holds-of_set_value : (q : K) (j : ℕ) → Holds (set_value m i v) q j → Holds m q j
  Holds-of_set_value q j h = record { inside = h.inside; active = h.active; same = h.same }

  pub set_value-IsTable : IsTable m → IsTable (set_value m i v)
  set_value-IsTable t = record {
    has_group = t.has_group;
    addressable = t.addressable;
    sized = t.sized;
    stored = λ j lt a.
        unfold hash_get in (IsPlaced-set_value m i v (hash_get m (m.key_at j)) j (t.stored j lt a));
    unique = λ a b lt active h. t.unique a b lt active (Holds-of_set_value (m.key_at a) b h);
    counts_active = t.counts_active;
    counts_deleted = t.counts_deleted;
  }

  pub get-set_value : IsTable m → (q : K) → get (set_value m i v) q ≡ get m q
  get-set_value t q = elim (Option-cases (get m q)) [
    | inr (j, e) ↦ rw e (
        Holds-get (set_value m i v) q j (set_value-IsTable t)
          (Holds-set_value q j (get-Holds m q j t.has_group e)))
    | inl e ↦ rw e (
        not-Holds-get (set_value m i v) q (set_value-IsTable t)
          λ j h. let there = Holds-get m q j t (Holds-of_set_value q j h) in cc)
  ]

module _ {ℓ} {K V : Type ℓ} ⦃ops : KeyOps K⦄ where
  -- A key that was inserted, and its value written, is bound to that value.
  pub set_value-lookups :
      (m : HashMap K V) (key : K) (after : HashMap K V) (i : ℕ)
      → IsTable m
      → Inserted m key after i
      → (v : V) (q : K)
      → get_copy (set_value after i v) q ≡ (if ops.same q key then some v else get_copy m q)
  unfolding get_copy
  set_value-lookups m key after i t ins v q =
      rw (get-set_value after i v ins.table q, get_copy)
        (elim (Bool-cases (ops.same q key)) [
          | inl is_same ↦ ground (arith, ins.lookups q)
          | inr other ↦ elim (Option-cases (get m q)) [
            | inl e ↦ ground (arith, ins.lookups q)
            | inr (j, e) ↦
                let there : get after q ≡ some j = ground (arith, ins.lookups q) in
                let ne : j ≢ i = λ same_slot. ground (
                  arith,
                  other,
                  Holds-agree after q key j i (get-Holds after q j ins.table.has_group there)
                      ins.holds same_slot,
                ) in
                let same_value = ap (λ (f : ℕ → V). f j) ins.values in ground (arith, there, e, ne)
          ]
        ])
