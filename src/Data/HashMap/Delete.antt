-- ===== src/Data/HashMap/Delete.antt =====
-- What `delete` does to the lookups of a table.
use nexus_c.Base.{
  ℕ, ◌+◌, ◌≡◌, ◌≢◌, inl, inr, refl, sym, ◌∙◌, ap, Bool, true, false, none, some, arith,
  Option-cases, Bool-cases, if◌then◌else◌,
}
use mathlib.Core.Option.{some-injective}
use native.Mathlib.Decide.{ℕ_discrete}
use nexus_c.Data.HashMap.Api.{get, mark_deleted, delete}
use nexus_c.Data.HashMap.Count.{count_below_one_more, count_below-le}
use nexus_c.Data.HashMap.Insert.{Holds-same, Holds-agree}
use nexus_c.Data.HashMap.Invariant.{slots, is_deleted, Holds, IsTable, IsPlaced, count_below}
use nexus_c.Data.HashMap.Lookup.{get-Holds, Holds-get, not-Holds-get}
use nexus_c.Data.HashMap.Outcome.{Lacks}
use nexus_c.Data.HashMap.Resize.{is_active}
use nexus_c.Data.HashMap.Table.{
  KeyOps, HashMap, HashMapHash, slot_number, hash_get, swiss_deleted, swiss_empty,
}

module _ {ℓ} {K V : Type ℓ} ⦃ops : KeyOps K⦄ (m : HashMap K V) (key : K) where
  -- `delete` marks the slot that `get` returns.
  delete-some : (i : ℕ) → get m key ≡ some i → delete m key ≡ (mark_deleted m i, true)
  unfolding get delete
  delete-some i h = ground arith

  delete-none : get m key ≡ none → delete m key ≡ (m, false)
  unfolding get delete
  delete-none h = ground arith

  module _ (i : ℕ) (t : IsTable m) (h : Holds m key i) where
    abbrev after : HashMap K V
    after = mark_deleted m i

    control_here : after.control i ≡ swiss_deleted
    unfolding mark_deleted
    control_here = ground arith

    control_there : (j : ℕ) → j ≢ i → after.control j ≡ m.control j
    unfolding mark_deleted
    control_there j ne = ground arith

    active_there : (j : ℕ) → j ≢ i → is_active after j ≡ is_active m j
    active_there j ne = ground (arith, control_there j)

    active_here : is_active after i ≡ false
    active_here = ground (arith, control_here)

    deleted_there : (j : ℕ) → j ≢ i → is_deleted m j ≡ is_deleted after j
    deleted_there j ne = ground (arith, control_there j)

    not_deleted : is_deleted m i ≡ false
    not_deleted = ground (arith, h.active)

    deleted_here : is_deleted after i ≡ true
    deleted_here = ground (arith, control_here)

    active_elsewhere : (j : ℕ) → is_active after j ≡ true → j ≢ i
    active_elsewhere j a e = ground (arith, active_here)

    Lacks-after : (g : ℕ) → Lacks m swiss_empty g → Lacks after swiss_empty g
    Lacks-after g lacks s small e = elim (ℕ_discrete (slot_number g s) i) [
      | yes here ↦ ground (arith, control_here)
      | no ne ↦ lacks s small (sym (control_there (slot_number g s) ne) ∙ e)
    ]

    IsPlaced-after :
        (hash : HashMapHash) (j : ℕ) → j ≢ i → IsPlaced m hash j → IsPlaced after hash j
    unfolding mark_deleted
    IsPlaced-after hash j ne q = record {
      print = control_there j ne ∙ q.print;
      steps = q.steps;
      within = q.within;
      group = q.group;
      path = λ k lt. Lacks-after _ (q.path k lt);
    }

    Holds-before : (q : K) (j : ℕ) → Holds after q j → (j ≢ i) × Holds m q j
    unfolding mark_deleted
    Holds-before q j r =
        let ne = active_elsewhere j r.active in
        (
          ne,
          record { inside = r.inside; active = sym (active_there j ne) ∙ r.active; same = r.same },
        )

    Holds-after : (q : K) (j : ℕ) → j ≢ i → Holds m q j → Holds after q j
    unfolding mark_deleted
    Holds-after q j ne r = record {
      inside = r.inside;
      active = active_there j ne ∙ r.active;
      same = r.same;
    }

    active_count : m.element_count ≡ count_below (slots m) (is_active after) + 1
    active_count =
        t.counts_active
        ∙ count_below_one_more (slots m) i (is_active after) (is_active m) h.inside active_here
            h.active active_there

    deleted_count : count_below (slots m) (is_deleted after) ≡ m.deleted_count + 1
    deleted_count =
        count_below_one_more (slots m) i (is_deleted m) (is_deleted after) h.inside not_deleted
          deleted_here deleted_there
        ∙ ap (λ (n : ℕ). n + 1) (sym t.counts_deleted)

    mark_deleted-counts :
        (after.element_count + 1 ≡ m.element_count) × (after.deleted_count ≡ m.deleted_count + 1)
    unfolding mark_deleted
    mark_deleted-counts = (
      omega (
        arith,
        active_count,
        t.counts_active,
        count_below-le (slots m) (is_active m),
        t.addressable,
      ),
      omega (
        arith,
        deleted_count,
        count_below-le (slots m) (is_deleted (mark_deleted m i)),
        t.addressable,
      ),
    )

    mark_deleted-IsTable : IsTable after
    mark_deleted-IsTable = record {
      has_group = unfold mark_deleted in t.has_group;
      addressable = unfold mark_deleted in t.addressable;
      sized = unfold mark_deleted in t.sized;
      stored = λ j lt a.
          unfold mark_deleted hash_get in
          (let ne = active_elsewhere j a in
            IsPlaced-after (hash_get m (m.key_at j)) j ne
              (t.stored j lt (sym (active_there j ne) ∙ a)));
      unique = λ a b lt active r.
          unfold mark_deleted in
          t.unique a b lt (sym (active_there a (active_elsewhere a active)) ∙ active)
            (Holds-before (m.key_at a) b r).1;
      counts_active = unfold mark_deleted in omega (arith, mark_deleted-counts.0, active_count);
      counts_deleted = unfold mark_deleted in (mark_deleted-counts.1 ∙ sym deleted_count);
    }

module _ {ℓ} {K V : Type ℓ} ⦃ops : KeyOps K⦄ (m : HashMap K V) (key : K) where
  -- The key is gone, nothing else has changed, and the flag says whether the key was there.
  pub record Deleted (after : HashMap K V) (was_there : Bool) : Type ℓ where
    pub table : IsTable after
    pub lookups : (q : K) → get after q ≡ (if ops.same q key then none else get m q)
    pub values : after.value_at ≡ m.value_at
    pub groups : after.capacity_groups ≡ m.capacity_groups
    pub flag : was_there ≡ elim (get m key) [ none ↦ false | some i ↦ true ]
    pub elements :
        m.element_count
        ≡ elim (get m key) [ none ↦ after.element_count | some i ↦ after.element_count + 1 ]
    pub used : after.element_count + after.deleted_count ≡ m.element_count + m.deleted_count

  lookup_deleted :
      (i : ℕ)
      → IsTable m
      → Holds m key i
      → (q : K) → get (mark_deleted m i) q ≡ (if ops.same q key then none else get m q)
  lookup_deleted i t h q =
      let after_table = mark_deleted-IsTable m key i t h in
      elim (Bool-cases (ops.same q key)) [
        | inl is_same ↦ rw is_same (
            not-Holds-get (mark_deleted m i) q after_table λ j r.
              let (ne, old) = Holds-before m key i t h q j r in
              let e = Holds-get m key j t (Holds-same m q key j old is_same) in
              ne (some-injective _ _ (sym e ∙ Holds-get m key i t h)))
        | inr other ↦ rw other (elim (Option-cases (get m q)) [
          | inl e ↦ rw e (
              not-Holds-get (mark_deleted m i) q after_table
                λ j r. let there = Holds-get m q j t (Holds-before m key i t h q j r).1 in cc)
          | inr (j, e) ↦
              let r = get-Holds m q j t.has_group e in
              rw e (
                Holds-get (mark_deleted m i) q j after_table (
                  Holds-after m key i t h q j
                    (λ here. ground (arith, other, Holds-agree m q key j i r h here)) r))
        ])
      ]

  -- On a table that keeps the invariant, `delete` leaves a table that keeps it: afterwards `get`
  -- finds nothing under the key and the same slot as before under every other key, no value and no
  -- group has changed, the flag says whether the key was there, a key that was there is counted out
  -- of the elements, and elements and deleted slots together are as many as before.
  pub delete-Deleted : IsTable m → Deleted (delete m key).0 (delete m key).1
  delete-Deleted t = elim (Option-cases (get m key)) [
    | inl e ↦ rw (delete-none m key e) (record {
      table = t;
      lookups = λ q. elim (Bool-cases (ops.same q key)) [
        | inl is_same ↦ rw is_same (
            not-Holds-get m q t
              λ j r. let there = Holds-get m key j t (Holds-same m q key j r is_same) in cc)
        | inr other ↦ rw other
      ];
      values = refl;
      groups = refl;
      flag = rw e;
      elements = rw e;
      used = refl;
    })
    | inr (i, e) ↦
        let h = get-Holds m key i t.has_group e in
        let (elements, deleted) = mark_deleted-counts m key i t h in
        rw (delete-some m key i e) (record {
          table = mark_deleted-IsTable m key i t h;
          lookups = lookup_deleted i t h;
          values = unfold mark_deleted in refl;
          groups = unfold mark_deleted in refl;
          flag = rw e;
          elements = rw e (sym elements);
          used = omega (arith, elements, deleted);
        })
  ]
