-- ===== src/Data/HashMap/Claim.antt =====
-- Claiming a free slot keeps a table consistent, and a table that is not full has a slot to claim.
use nexus_c.Base.{
  ℕ, ◌+◌, ◌/◌, ◌%◌, ◌<◌, ◌≡◌, ◌≢◌, inl, inr, refl, sym, ◌∙◌, ap, true, false, arith, Bool-cases,
  if◌then◌else◌,
}
use native.Mathlib.Decide.{ℕ_discrete}
use nexus_c.Data.HashMap.Count.{
  count_below-le, count_below_ext, count_below_one_more, count_below_free,
}
use nexus_c.Data.HashMap.Invariant.{
  slots, is_deleted, count_below, IsPlaced, Holds, IsTable, print-lt, home-lt, is_active-empty,
  is_active-deleted,
}
use nexus_c.Data.HashMap.Lookup.{slot_inside}
use nexus_c.Data.HashMap.Outcome.{Lacks, Missing, IsTarget}
use nexus_c.Data.HashMap.Probe.{probe}
use nexus_c.Data.HashMap.Resize.{is_active}
use nexus_c.Data.HashMap.Table.{
  KeyOps, HashMap, HashMapHash, HashMapProbe, swiss_empty, slot_number, hash_get,
}
use nexus_c.Data.HashMap.Walk.{walk-lt, walk_onto}
use nexus_c.Data.HashMap.Write.{claim_slot}

module _ {ℓ} {K V : Type ℓ} where
  neither-empty :
      (m : HashMap K V) (i : ℕ)
      → is_active m i ≡ false
      → is_deleted m i ≡ false
      → m.control i ≡ swiss_empty
  neither-empty m i a d = ground arith

module _ {ℓ} {K V : Type ℓ} ⦃ops : KeyOps K⦄ (m : HashMap K V) (key : K) (t : IsTable m) where
  -- With a slot left that is neither active nor DELETED, a probe that misses has a target.
  pub Missing-insertable :
      m.element_count + m.deleted_count < slots m
      → Missing m key (hash_get m key) (probe m key)
      → (probe m key).insertable ≡ true
  Missing-insertable room gone = elim (gone.ended) [
    | inr (_, _, _, _, _, yes_target) ↦ yes_target
    | inl (all, lacks) ↦
        let (i, inside, a, d) =
          count_below_free (slots m) (is_active m) (is_deleted m)
            (omega (arith, t.counts_active, t.counts_deleted)) in
        let (j, lt, visited) =
          walk_onto m.capacity_groups (hash_get m key).initial_group_idx (home-lt m key t.has_group)
            (i / 8) (omega arith) in
        let e : slot_number (i / 8) (i % 8) ≡ i = omega arith in
        absurd (
          rw visited at (lacks j (omega arith)) (i % 8) (omega arith)
            (rw e (neither-empty m i a d)))
  ]

  module _ (absent : (i : ℕ) → Holds m key i → ⊥) (p : HashMapProbe)
      (print : p.fingerprint ≡ (hash_get m key).fingerprint)
      (target : IsTarget m key (hash_get m key) p) where
    abbrev spot : ℕ
    spot = slot_number p.group_idx p.slot_idx

    abbrev after : HashMap K V
    after = claim_slot m key p

    spot_inside : spot < slots m
    spot_inside =
        slot_inside p.group_idx p.slot_idx m.capacity_groups
          (rw target.group (walk-lt m.capacity_groups _ (home-lt m key t.has_group) target.steps))
          target.slot

    spot_free : is_active m spot ≡ false
    spot_free = elim (target.free) [
      | inl e ↦ is_active-empty m spot e
      | inr e ↦ is_active-deleted m spot e
    ]

    control_here : (j : ℕ) → j ≡ spot → after.control j ≡ (hash_get m key).fingerprint
    unfolding claim_slot
    control_here j e = ground (arith, print)

    control_there : (j : ℕ) → j ≢ spot → after.control j ≡ m.control j
    unfolding claim_slot
    control_there j ne = ground arith

    key_here : (j : ℕ) → j ≡ spot → after.key_at j ≡ key
    unfolding claim_slot
    key_here j e = ground arith

    key_there : (j : ℕ) → j ≢ spot → after.key_at j ≡ m.key_at j
    unfolding claim_slot
    key_there j ne = ground arith

    hash_after : (k : K) → hash_get after k ≡ hash_get m k
    unfolding hash_get claim_slot
    hash_after k = refl

    active_here : is_active after spot ≡ true
    active_here = ground (arith, control_here spot, print-lt m key)

    active_there : (j : ℕ) → j ≢ spot → is_active m j ≡ is_active after j
    active_there j ne = ground (arith, control_there j)

    Lacks-after : (g : ℕ) → Lacks m swiss_empty g → Lacks after swiss_empty g
    Lacks-after g lacks s small e = lacks s small (elim (ℕ_discrete (slot_number g s) spot) [
      | yes same ↦ absurd (ground (arith, control_here (slot_number g s), print-lt m key))
      | no ne ↦ ground (arith, control_there (slot_number g s))
    ])

    IsPlaced-after :
        (hash : HashMapHash) (j : ℕ) → j ≢ spot → IsPlaced m hash j → IsPlaced after hash j
    unfolding claim_slot
    IsPlaced-after hash j ne q = record {
      print = control_there j ne ∙ q.print;
      steps = q.steps;
      within = q.within;
      group = q.group;
      path = λ i lt. Lacks-after _ (q.path i lt);
    }

    IsPlaced-spot : IsPlaced after (hash_get m key) spot
    unfolding claim_slot
    IsPlaced-spot = record {
      print = control_here spot refl;
      steps = target.steps;
      within = target.within;
      group = omega (arith, target.group, target.slot);
      path = λ i lt. Lacks-after _ (target.before i lt);
    }

    stored_after :
        (j : ℕ)
        → j < slots m
        → is_active after j ≡ true
        → IsPlaced after (hash_get after (after.key_at j)) j
    stored_after j lt active = rw (hash_after (after.key_at j)) (elim (ℕ_discrete j spot) [
      | yes e ↦ rw (key_here j e, e) IsPlaced-spot
      | no ne ↦
          rw (key_there j ne) (IsPlaced-after _ j ne (t.stored j lt (active_there j ne ∙ active)))
    ])

    pub Holds-claimed : Holds after key spot
    Holds-claimed = record {
      inside = unfold claim_slot in spot_inside;
      active = active_here;
      same = rw (key_here spot refl) (ops.same_refl key);
    }

    -- Another slot of the new table holds what it held.
    pub Holds-kept : (q : K) (j : ℕ) → j ≢ spot → Holds after q j → Holds m q j
    Holds-kept q j ne h = record {
      inside = unfold claim_slot in h.inside;
      active = active_there j ne ∙ h.active;
      same = rw (key_there j ne) at (h.same);
    }

    pub Holds-still : (q : K) (j : ℕ) → Holds m q j → Holds after q j
    Holds-still q j h =
        let ne : j ≢ spot = λ e. ground (arith, h.active, spot_free) in
        record {
          inside = unfold claim_slot in h.inside;
          active = sym (active_there j ne) ∙ h.active;
          same = rw (key_there j ne) h.same;
        }

    unique_after :
        (i j : ℕ) → i < slots m → is_active after i ≡ true → Holds after (after.key_at i) j → j ≡ i
    unique_after i j lt active h = elim (ℕ_discrete i spot) [
      | yes at_spot ↦ elim (ℕ_discrete j spot) [
        | yes e ↦ e ∙ sym at_spot
        | no ne ↦ absurd (absent j (Holds-kept key j ne (rw (key_here i at_spot) at h)))
      ]
      | no ne_i ↦
          let old = rw (key_there i ne_i) at h in
          let active_i = active_there i ne_i ∙ active in
          elim (ℕ_discrete j spot) [
            | yes e ↦ absurd (
                absent i (record {
                  inside = lt;
                  active = active_i;
                  same = ops.same_symm _ _ ∙ rw (key_here j e) at (old.same);
                }))
            | no ne ↦ t.unique i j lt active_i (Holds-kept (m.key_at i) j ne old)
          ]
    ]

    active_count : count_below (slots m) (is_active after) ≡ m.element_count + 1
    active_count =
        count_below_one_more (slots m) spot (is_active m) (is_active after) spot_inside spot_free
          active_here active_there
        ∙ ap (λ (n : ℕ). n + 1) (sym t.counts_active)

    deleted_there : (j : ℕ) → j ≢ spot → is_deleted after j ≡ is_deleted m j
    deleted_there j ne = ground (arith, control_there j)

    deleted_here : is_deleted after spot ≡ false
    deleted_here = ground (arith, control_here spot, print-lt m key)

    deleted_same : is_deleted m spot ≡ false → (j : ℕ) → is_deleted after j ≡ is_deleted m j
    deleted_same was_not j = elim (ℕ_discrete j spot) [
      | yes e ↦ rw e (deleted_here ∙ sym was_not)
      | no ne ↦ deleted_there j ne
    ]

    deleted_count :
        count_below (slots m) (is_deleted after) + (if is_deleted m spot then 1 else 0)
        ≡ m.deleted_count
    deleted_count = elim (Bool-cases (is_deleted m spot)) [
      | inl was ↦ rw was (
          sym (
            count_below_one_more (slots m) spot (is_deleted after) (is_deleted m) spot_inside
              deleted_here was deleted_there)
          ∙ sym t.counts_deleted)
      | inr was_not ↦ rw was_not (
          omega (
            arith,
            t.counts_deleted,
            count_below_ext (slots m) (is_deleted after) (is_deleted m)
                (λ j lt. deleted_same was_not j),
          ))
    ]

    pub claim-counts :
        (after.element_count ≡ m.element_count + 1)
        × (after.deleted_count + (if is_deleted m spot then 1 else 0) ≡ m.deleted_count)
    unfolding claim_slot
    claim-counts = (
      omega (
        arith,
        active_count,
        count_below-le (slots m) (is_active (claim_slot m key p)),
        t.addressable,
      ),
      ground (
        arith,
        deleted_count,
        count_below-le (slots m) (is_deleted m),
        t.counts_deleted,
        t.addressable,
      ),
    )

    pub claim-IsTable : IsTable after
    claim-IsTable = record {
      has_group = unfold claim_slot in t.has_group;
      addressable = unfold claim_slot in t.addressable;
      sized = unfold claim_slot in t.sized;
      stored = λ j lt. stored_after j (unfold claim_slot in lt);
      unique = λ i j lt. unique_after i j (unfold claim_slot in lt);
      counts_active = unfold claim_slot in (claim-counts.0 ∙ sym active_count);
      counts_deleted = unfold claim_slot in omega (arith, claim-counts.1, deleted_count);
    }
