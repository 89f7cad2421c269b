-- ===== src/Data/HashMap/Insert.antt =====
-- What `insert_without_resize` does to the lookups of a table that is not full.
use nexus_c.Base.{
  ℕ, ◌+◌, ◌≤◌, ◌<◌, ◌≡◌, inl, inr, refl, ◌∙◌, true, false, none, some, arith, Option-cases,
  Bool-cases, if◌then◌else◌,
}
use native.Mathlib.Decide.{ℕ_discrete}
use nexus_c.Data.HashMap.Api.{get}
use nexus_c.Data.HashMap.Claim.{
  Missing-insertable, Holds-claimed, Holds-kept, Holds-still, claim-counts, claim-IsTable,
}
use nexus_c.Data.HashMap.Invariant.{slots, Holds, IsTable}
use nexus_c.Data.HashMap.Lookup.{
  probe-Outcome, Missing-not-Holds, get-Holds, Holds-get, not-Holds-get,
}
use nexus_c.Data.HashMap.Outcome.{Missing}
use nexus_c.Data.HashMap.Probe.{probe}
use nexus_c.Data.HashMap.Table.{KeyOps, HashMap, slot_number, hash_get}
use nexus_c.Data.HashMap.Write.{claim_slot, insert_without_resize}

module _ {ℓ} {K V : Type ℓ} ⦃ops : KeyOps K⦄ where
  pub Holds-same :
      (m : HashMap K V) (a b : K) (i : ℕ) → Holds m a i → ops.same a b ≡ true → Holds m b i
  Holds-same m a b i h e = record {
    inside = h.inside;
    active = h.active;
    same = ops.same_trans _ _ _ h.same e;
  }

  -- Two keys that one slot holds are the same.
  pub Holds-agree :
      (m : HashMap K V) (a b : K) (i j : ℕ)
      → Holds m a i
      → Holds m b j
      → i ≡ j
      → ops.same a b ≡ true
  Holds-agree m a b i j ha hb e =
      ops.same_trans a (m.key_at i) b (ops.same_symm _ _ ∙ ha.same) (rw e hb.same)

  -- The key `key` has slot `i` of the table `after`, and nothing else has changed.
  pub record Inserted (m : HashMap K V) (key : K) (after : HashMap K V) (i : ℕ) : Type ℓ where
    pub table : IsTable after
    pub holds : Holds after key i
    pub lookups : (q : K) → get after q ≡ (if ops.same q key then some i else get m q)
    pub values : after.value_at ≡ m.value_at
    pub groups : after.capacity_groups ≡ m.capacity_groups
    pub elements :
        after.element_count
        ≡ elim (get m key) [ none ↦ m.element_count + 1 | some j ↦ m.element_count ]
    pub used : after.element_count + after.deleted_count ≤ m.element_count + m.deleted_count + 1

  module _ (m : HashMap K V) (key : K) (t : IsTable m) where
    found-Inserted : (i : ℕ) → get m key ≡ some i → Inserted m key m i
    found-Inserted i e =
        let h = get-Holds m key i t.has_group e in
        record {
          table = t;
          holds = h;
          lookups = λ q. elim (Bool-cases (ops.same q key)) [
            | inl is_same ↦
                rw is_same
                  (Holds-get m q i t (Holds-same m key q i h (ops.same_symm _ _ ∙ is_same)))
            | inr other ↦ rw other
          ];
          values = refl;
          groups = refl;
          elements = rw e;
          used = omega arith;
        }

    module _ (gone : Missing m key (hash_get m key) (probe m key))
        (insertable : (probe m key).insertable ≡ true) where
      absent : (i : ℕ) → Holds m key i → ⊥
      absent i h = Missing-not-Holds m key i t gone h

      abbrev spot : ℕ
      spot = slot_number (probe m key).group_idx (probe m key).slot_idx

      abbrev claimed : HashMap K V
      claimed = claim_slot m key (probe m key)

      IsTable-after : IsTable claimed
      IsTable-after =
          claim-IsTable m key t absent (probe m key) gone.fingerprint (gone.target insertable)

      Holds-spot : Holds claimed key spot
      Holds-spot =
          Holds-claimed m key t absent (probe m key) gone.fingerprint (gone.target insertable)

      lookup_other : (q : K) → ops.same q key ≡ false → get claimed q ≡ get m q
      lookup_other q other = elim (Option-cases (get m q)) [
        | inr (j, e) ↦ rw e (
            Holds-get claimed q j IsTable-after (
              Holds-still m key t absent (probe m key) gone.fingerprint (gone.target insertable) q j
                (get-Holds m q j t.has_group e)))
        | inl e ↦ rw e (
            not-Holds-get claimed q IsTable-after λ j h. elim (ℕ_discrete j spot) [
              | yes here ↦ ground (arith, other, Holds-agree claimed q key j spot h Holds-spot here)
              | no ne ↦
                  let kept = Holds-get m q j t (
                    Holds-kept m key t absent (probe m key) gone.fingerprint
                      (gone.target insertable) q j ne h) in
                  cc
            ])
      ]

      claimed-Inserted : Inserted m key claimed spot
      claimed-Inserted =
          let (elements, deleted) =
            claim-counts m key t absent (probe m key) gone.fingerprint (gone.target insertable) in
          record {
            table = IsTable-after;
            holds = Holds-spot;
            lookups = λ q. elim (Bool-cases (ops.same q key)) [
              | inl is_same ↦ rw is_same (
                  Holds-get claimed q spot IsTable-after
                    (Holds-same claimed key q spot Holds-spot (ops.same_symm _ _ ∙ is_same)))
              | inr other ↦ rw other (lookup_other q other)
            ];
            values = unfold claim_slot in refl;
            groups = unfold claim_slot in refl;
            elements = rw (not-Holds-get m key t absent) elements;
            used = omega (arith, elements, deleted);
          }

    -- A table with a free slot takes the key.
    pub insert_without_resize-Inserted :
        m.element_count + m.deleted_count < slots m
        → (after : HashMap K V) × (i : ℕ) × (insert_without_resize m key ≡ (after, some i))
          × Inserted m key after i
    unfolding insert_without_resize get
    insert_without_resize-Inserted room = elim (probe-Outcome m key t.has_group) [
      | inl f ↦ (
        m,
        slot_number (probe m key).group_idx (probe m key).slot_idx,
        rw (f.found, insert_without_resize),
        found-Inserted _ (rw (f.found, get)),
      )
      | inr gone ↦
          let yes_target = Missing-insertable m key t room gone in
          (
            claim_slot m key (probe m key),
            slot_number (probe m key).group_idx (probe m key).slot_idx,
            ground (arith, gone.not_found, yes_target),
            claimed-Inserted gone yes_target,
          )
    ]
