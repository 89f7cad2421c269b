-- ===== src/Data/HashMap/Moving.antt =====
-- Resizing moves every entry: the new table has the lookups of the old one.
use nexus_c.Base.{
  ℕ, zero, suc, ◌+◌, ◌≤◌, ◌<◌, ◌≡◌, ◌≢◌, inl, inr, sym, ◌∙◌, ap, Bool, true, Option, none, some,
  arith, Option-cases, Bool-cases, ltb, if◌then◌else◌,
}
use native.Mathlib.Decide.{dec_lt}
use nexus_c.Data.HashMap.Api.{get, get_copy}
use nexus_c.Data.HashMap.Count.{count_below-le}
use nexus_c.Data.HashMap.Cursors.{position, Quiet, IsNext-cases, active_entry_next-IsNext}
use nexus_c.Data.HashMap.Insert.{Inserted, Holds-same, Holds-agree, insert_without_resize-Inserted}
use nexus_c.Data.HashMap.Invariant.{slots, count_below, Holds, IsTable}
use nexus_c.Data.HashMap.Lookup.{get-Holds, Holds-get}
use nexus_c.Data.HashMap.Resize.{Cursor, is_active, active_entry_next, move_entries, store_moved}
use nexus_c.Data.HashMap.Table.{KeyOps, HashMap}
use nexus_c.Data.HashMap.Values.{set_value, set_value-IsTable, set_value-lookups}

module _ {ℓ} {K V : Type ℓ} where
  -- What the entries below slot `p` of the old table say of a key.
  abbrev pub moved_copy : HashMap K V → ℕ → Option ℕ → Option V
  moved_copy old p none = none
  moved_copy old p (some i) = if ltb i p then some (old.value_at i) else none

module _ {ℓ} {K V : Type ℓ} ⦃ops : KeyOps K⦄ (old : HashMap K V) (t : IsTable old) where
  -- `fresh` holds the entries below slot `p`.
  pub record Moved (target p : ℕ) (fresh : HashMap K V) : Type ℓ where
    pub table : IsTable fresh
    pub lookups : (q : K) → get_copy fresh q ≡ moved_copy old p (get old q)
    pub elements : fresh.element_count ≡ count_below p (is_active old)
    pub deleted : fresh.deleted_count ≡ 0
    pub groups : fresh.capacity_groups ≡ target
    pub larger : old.capacity_groups ≤ target

  count_below-Quiet :
      (p q : ℕ)
      → p ≤ q
      → Quiet old p q
      → count_below q (is_active old) ≡ count_below p (is_active old)
  unfolding count_below
  count_below-Quiet p zero le quiet = let e : p ≡ 0 = omega arith in rw e
  count_below-Quiet p (suc q) le quiet = elim (dec_lt q p) [
    | yes above ↦ let e : p ≡ suc q = omega arith in rw e
    | no below ↦
        rw (quiet q (omega arith) (omega arith))
          (omega (arith, count_below-Quiet p q (omega arith) (λ i lo lt. quiet i lo (omega arith))))
  ]

  moved_copy-Quiet :
      (p q : ℕ) (k : K)
      → p ≤ q
      → Quiet old p q
      → moved_copy old p (get old k) ≡ moved_copy old q (get old k)
  moved_copy-Quiet p q k le quiet = elim (Option-cases (get old k)) [
    | inl e ↦ rw e
    | inr (j, e) ↦
        let h = get-Holds old k j t.has_group e in
        let same_test : ltb j p ≡ ltb j q = ground (arith, h.active, quiet j) in
        rw e (ap (λ (b : Bool). if b then some (old.value_at j) else none) same_test)
  ]

  module _ (target : ℕ) where
    -- Passing over slots that are not active.
    Moved-Quiet :
        (p q : ℕ) (fresh : HashMap K V)
        → p ≤ q
        → Quiet old p q
        → Moved target p fresh
        → Moved target q fresh
    Moved-Quiet p q fresh le quiet moved = record {
      table = moved.table;
      lookups = λ k. moved.lookups k ∙ moved_copy-Quiet p q k le quiet;
      elements = moved.elements ∙ sym (count_below-Quiet p q le quiet);
      deleted = moved.deleted;
      groups = moved.groups;
      larger = moved.larger;
    }

    get_copy-none : (m : HashMap K V) (q : K) → get_copy m q ≡ none → get m q ≡ none
    unfolding get_copy
    get_copy-none m q h = ground arith

    module _ (i : ℕ) (lt : i < slots old) (active : is_active old i ≡ true) where
      Holds-own : Holds old (old.key_at i) i
      Holds-own = record { inside = lt; active = active; same = ops.same_refl _ }

      moved_copy_step :
          (q : K) (below : Option V)
          → below ≡ moved_copy old i (get old q)
          → (if ops.same q (old.key_at i) then some (old.value_at i) else below)
            ≡ moved_copy old (suc i) (get old q)
      moved_copy_step q below e = elim (Bool-cases (ops.same q (old.key_at i))) [
        | inl is_same ↦
            let there =
              Holds-get old q i t
                (Holds-same old (old.key_at i) q i Holds-own (ops.same_symm _ _ ∙ is_same)) in
            rw (is_same, there) (ground arith)
        | inr other ↦ elim (Option-cases (get old q)) [
          | inl gone ↦ rw (other, gone) (rw gone at e)
          | inr (x, at_x) ↦
              let ne : x ≢ i = λ same_slot. ground (
                arith,
                other,
                Holds-agree old q (old.key_at i) x i (get-Holds old q x t.has_group at_x) Holds-own
                    same_slot,
              ) in
              rw (other, at_x) (ground (arith, rw at_x at e, ne))
        ]
      ]

      -- Moving the entry of one slot.
      Moved-step :
          (fresh after : HashMap K V) (j : ℕ)
          → Moved target i fresh
          → Inserted fresh (old.key_at i) after j
          → Moved target (suc i) (set_value after j (old.value_at i))
      unfolding count_below
      Moved-step fresh after j moved ins =
          let there = Holds-get old (old.key_at i) i t Holds-own in
          let absent : get_copy fresh (old.key_at i) ≡ none =
            moved.lookups (old.key_at i) ∙ rw there (ground arith) in
          let elements : after.element_count ≡ fresh.element_count + 1 =
            rw (get_copy-none fresh (old.key_at i) absent) at (ins.elements) in
          record {
            table = set_value-IsTable after j (old.value_at i) ins.table;
            lookups = λ q.
                set_value-lookups fresh (old.key_at i) after j moved.table ins (old.value_at i) q
                ∙ moved_copy_step q (get_copy fresh q) (moved.lookups q);
            elements = rw active (omega (arith, elements, moved.elements));
            deleted = omega (arith, elements, ins.used, moved.deleted);
            groups = ins.groups ∙ moved.groups;
            larger = moved.larger;
          }

    Moved-room :
        (p : ℕ) (fresh : HashMap K V)
        → p < slots old
        → Moved target p fresh
        → fresh.element_count + fresh.deleted_count < slots fresh
    Moved-room p fresh lt moved = omega (
      arith,
      moved.elements,
      moved.deleted,
      moved.groups,
      moved.larger,
      count_below-le p (is_active old),
    )

    -- With enough rounds every entry is moved, and no insertion fails.
    pub move_entries-Moved :
        (n : ℕ) (c : Cursor) (fresh : HashMap K V)
        → c.slot_idx ≤ 8
        → slots old < position c + n
        → position c ≤ slots old
        → Moved target (position c) fresh
        → (after : HashMap K V) × (move_entries n old c fresh ≡ some after)
          × Moved target (slots old) after
    unfolding move_entries store_moved
    move_entries-Moved zero c fresh small enough le moved = absurd (omega arith)
    move_entries-Moved (suc n) c fresh small enough le moved =
        elim (IsNext-cases old c (active_entry_next-IsNext old c small)) [
          | inl (none_left, quiet) ↦ (
            fresh,
            rw (none_left, move_entries),
            Moved-Quiet (position c) (slots old) fresh le quiet moved,
          )
          | inr (i, next, lo, hi, active, quiet, small', at_next) ↦
              let before = Moved-Quiet (position c) i fresh lo quiet moved in
              let (grown, j, run, ins) =
                insert_without_resize-Inserted fresh (old.key_at i) before.table
                  (Moved-room i fresh hi before) in
              let step = rw (← at_next) at (Moved-step i hi active fresh grown j before ins) in
              let (after, rest, done) =
                move_entries-Moved n (active_entry_next old c).1
                  (set_value grown j (old.value_at i)) small' (omega arith) (omega arith) step in
              (after, rw (next, run, move_entries) rest, done)
        ]
