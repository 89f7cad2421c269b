-- ===== src/Data/HashMap/Lookup.antt =====
-- A probe finds the entry of a key exactly where the table holds it.
use nexus_c.Base.{
  ℕ, ◌*◌, ◌/◌, ◌%◌, ◌<◌, ◌≡◌, ◌⊎◌, inl, inr, ◌∙◌, ap, true, false, none, some, arith, Option-cases,
}
use mathlib.Core.Path.{subst}
use mathlib.Core.Option.{some-injective}
use native.Mathlib.Decide.{dec_lt}
use nexus_c.Data.HashMap.Api.{get}
use nexus_c.Data.HashMap.Invariant.{IsPlaced, Holds, IsTable, home-lt, hash_get-same, print-active}
use nexus_c.Data.HashMap.Outcome.{Lacks, Found, Missing, probe_loop-Outcome}
use nexus_c.Data.HashMap.Probe.{probe, matches}
use nexus_c.Data.HashMap.Table.{KeyOps, HashMap, swiss_empty, slot_number, hash_get}
use nexus_c.Data.HashMap.Walk.{walk-lt}

pub slot_inside : (g s cap : ℕ) → g < cap → s < 8 → slot_number g s < cap * 8
slot_inside g s cap h small = omega arith

module _ {ℓ} {K V : Type ℓ} ⦃ops : KeyOps K⦄ (m : HashMap K V) where
  pub probe-Outcome :
      (key : K)
      → 0 < m.capacity_groups
      → Found m key (hash_get m key) (probe m key) ⊎ Missing m key (hash_get m key) (probe m key)
  unfolding probe
  probe-Outcome key pos = probe_loop-Outcome m key (hash_get m key) (home-lt m key pos)

  pub Found-Holds :
      (key : K)
      → 0 < m.capacity_groups
      → Found m key (hash_get m key) (probe m key)
      → Holds m key (slot_number (probe m key).group_idx (probe m key).slot_idx)
  Found-Holds key pos f =
      let p = probe m key in
      let group_inside : p.group_idx < m.capacity_groups =
        rw f.group (walk-lt m.capacity_groups _ (home-lt m key pos) f.steps) in
      let i = slot_number p.group_idx p.slot_idx in
      let byte : m.control i ≡ (hash_get m key).fingerprint = ground (arith, f.holds) in
      record {
        inside = slot_inside p.group_idx p.slot_idx m.capacity_groups group_inside f.slot;
        active = print-active m key i byte;
        same = ground (arith, f.holds);
      }

  lacks_key_at :
      (key : K) (i : ℕ)
      → ((s : ℕ) → s < 8 → matches m key (hash_get m key).fingerprint (i / 8) s ≡ false)
      → m.control i ≡ (hash_get m key).fingerprint
      → ops.same (m.key_at i) key ≡ true
      → ⊥
  lacks_key_at key i none_here print same =
      let e : slot_number (i / 8) (i % 8) ≡ i = omega arith in
      let no_match = rw e at (none_here (i % 8) (omega arith)) in ground (arith, no_match)

  Lacks-empty_at :
      (g s : ℕ) → Lacks m swiss_empty g → s < 8 → m.control (slot_number g s) ≡ swiss_empty → ⊥
  Lacks-empty_at g s lacks small e = lacks s small e

  -- A key that the table holds is not missed.
  pub Missing-not-Holds :
      (key : K) (i : ℕ)
      → IsTable m
      → Missing m key (hash_get m key) (probe m key)
      → Holds m key i
      → ⊥
  Missing-not-Holds key i t gone h =
      let at_i =
        subst (λ hash. IsPlaced m hash i) (hash_get-same m (m.key_at i) key h.same)
          (t.stored i h.inside h.active) in
      elim (dec_lt at_i.steps gone.steps) [
        | yes p ↦ lacks_key_at key i (rw at_i.group (gone.no_key at_i.steps p)) at_i.print h.same
        | no p ↦ elim (gone.ended) [
          | inl whole ↦ absurd (omega (arith, at_i.within, whole.0))
          | inr (last, e, s, small, is_empty, _) ↦
              at_i.path last (omega (arith, e)) s small is_empty
        ]
      ]

  -- `get` returns a slot that holds the key.
  pub get-Holds : (key : K) (i : ℕ) → 0 < m.capacity_groups → get m key ≡ some i → Holds m key i
  unfolding get
  get-Holds key i pos h = elim (probe-Outcome key pos) [
    | inl f ↦
        let e : some (slot_number (probe m key).group_idx (probe m key).slot_idx) ≡ some i =
          rw (f.found, get) at h in
        subst (Holds m key) (some-injective _ _ e) (Found-Holds key pos f)
    | inr gone ↦ absurd (ground (arith, gone.not_found))
  ]

  -- And it returns every slot that holds the key.
  pub Holds-get : (key : K) (i : ℕ) → IsTable m → Holds m key i → get m key ≡ some i
  unfolding get
  Holds-get key i t h = elim (probe-Outcome key t.has_group) [
    | inl f ↦
        let there = Found-Holds key t.has_group f in
        let same_slot = t.unique i _ h.inside h.active (record {
          inside = there.inside;
          active = there.active;
          same = ops.same_trans _ _ _ there.same (ops.same_symm _ _ ∙ h.same);
        }) in
        rw (f.found, get) (ap some same_slot)
    | inr gone ↦ absurd (Missing-not-Holds key i t gone h)
  ]

  pub not-Holds-get : (key : K) → IsTable m → ((i : ℕ) → Holds m key i → ⊥) → get m key ≡ none
  not-Holds-get key t none_holds = elim (Option-cases (get m key)) [
    | inl e ↦ e
    | inr (i, e) ↦ absurd (none_holds i (get-Holds key i t.has_group e))
  ]
