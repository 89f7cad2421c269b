-- ===== src/Data/HashMap/Cursors.antt =====
-- `nexus_data_hashmap_active_entry_next` steps to the next active slot, group by group.
use nexus_c.Base.{
  ℕ, zero, suc, ◌+◌, ◌*◌, ◌≤◌, ◌<◌, ◌≡◌, ◌⊎◌, inl, inr, refl, true, false, Option, none, some,
  arith, Bool-cases, ltb, ltb→lt,
}
use native.Mathlib.Decide.{dec_lt}
use nexus_c.Data.HashMap.Invariant.{slots}
use nexus_c.Data.HashMap.Resize.{Cursor, is_active, active_entry_loop, active_entry_next}
use nexus_c.Data.HashMap.Table.{HashMap, slot_number}

-- The number of the slot that the cursor stands before.
abbrev pub position : Cursor → ℕ
position c = slot_number c.group_idx c.slot_idx

module _ {ℓ} {K V : Type ℓ} where
  -- No slot of a range is active.
  abbrev pub Quiet : HashMap K V → ℕ → ℕ → Type 0
  Quiet m lo hi = (i : ℕ) → lo ≤ i → i < hi → is_active m i ≡ false

  -- No slot from the cursor on is active, or the result is the first one that is.
  pub data IsNext (m : HashMap K V) (c : Cursor) : Option ℕ × Cursor → Type ℓ where
    at_end : {c' : Cursor} → Quiet m (position c) (slots m) → IsNext m c (none, c')
    at_slot :
        {c' : Cursor} (i : ℕ)
        → position c ≤ i
        → i < slots m
        → is_active m i ≡ true
        → Quiet m (position c) i
        → c'.slot_idx ≤ 8
        → position c' ≡ i + 1
        → IsNext m c (some i, c')

  Quiet-back :
      (m : HashMap K V) (p q hi : ℕ)
      → q ≤ p + 1
      → (p < q → is_active m p ≡ false)
      → Quiet m q hi
      → Quiet m p hi
  Quiet-back m p q hi near skipped quiet i lo lt = elim (dec_lt i q) [
    | yes below ↦ let e : p ≡ i = omega arith in rw (← e) (skipped (omega arith))
    | no above ↦ quiet i (omega arith) lt
  ]

  -- A step over one inactive slot, or over the end of a group.
  IsNext-back :
      (m : HashMap K V) (c d : Cursor) {r : Option ℕ × Cursor}
      → position d ≤ position c + 1
      → position c ≤ position d
      → (position c < position d → is_active m (position c) ≡ false)
      → IsNext m d r
      → IsNext m c r
  IsNext-back m c d near le skipped (at_end quiet) =
      at_end (Quiet-back m (position c) (position d) _ near skipped quiet)
  IsNext-back m c d near le skipped (at_slot i lo hi active quiet small e) =
      at_slot i (omega arith) hi active
        (Quiet-back m (position c) (position d) i near skipped quiet) small e

  active_entry_loop-IsNext :
      (n : ℕ) (m : HashMap K V) (c : Cursor)
      → c.slot_idx ≤ 8
      → m.capacity_groups * 9 < c.group_idx * 9 + c.slot_idx + n
      → IsNext m c (active_entry_loop n m c)
  unfolding active_entry_loop
  active_entry_loop-IsNext zero m c small enough = at_end λ i lo hi. absurd (omega arith)
  active_entry_loop-IsNext (suc n) m c small enough =
      elim (Bool-cases (ltb c.group_idx m.capacity_groups)) [
        | inr past ↦
            let out : m.capacity_groups ≤ c.group_idx = ground arith in
            rw (past, active_entry_loop) (at_end λ i lo hi. absurd (omega arith))
        | inl inside ↦
            let group_inside = ltb→lt _ _ inside in
            elim (Bool-cases (ltb c.slot_idx 8)) [
              | inr full ↦
                  let at_8 : c.slot_idx ≡ 8 = ground arith in
                  let d : Cursor = record { group_idx = c.group_idx + 1; slot_idx = 0 } in
                  rw (inside, full, active_entry_loop)
                    (IsNext-back m c d (omega arith) (omega arith) (λ lt. absurd (omega arith))
                      (active_entry_loop-IsNext n m d (omega arith) (omega arith)))
              | inl some_left ↦
                  let slot_inside = ltb→lt _ _ some_left in
                  let d : Cursor = record c { slot_idx = c.slot_idx + 1 } in
                  elim (Bool-cases (is_active m (position c))) [
                    | inl active ↦
                        rw (inside, some_left, active, active_entry_loop)
                          (at_slot (position c) (omega arith) (omega arith) active
                            (λ i lo hi. absurd (omega arith)) (omega arith) (omega arith))
                    | inr inactive ↦
                        rw (inside, some_left, inactive, active_entry_loop)
                          (IsNext-back m c d (omega arith) (omega arith) (λ lt. inactive)
                            (active_entry_loop-IsNext n m d (omega arith) (omega arith)))
                  ]
            ]
      ]

  pub active_entry_next-IsNext :
      (m : HashMap K V) (c : Cursor) → c.slot_idx ≤ 8 → IsNext m c (active_entry_next m c)
  unfolding active_entry_next
  active_entry_next-IsNext m c small =
      active_entry_loop-IsNext (m.capacity_groups * 9 + 1) m c small (omega arith)

  pub IsNext-cases :
      (m : HashMap K V) (c : Cursor) {r : Option ℕ × Cursor}
      → IsNext m c r
      → ((r.0 ≡ none) × Quiet m (position c) (slots m))
        ⊎ ((i : ℕ) × (r.0 ≡ some i)
            × (position c ≤ i)
            × (i < slots m)
            × (is_active m i ≡ true)
            × Quiet m (position c) i
            × (r.1.slot_idx ≤ 8)
            × (position r.1 ≡ suc i))
  IsNext-cases m c (at_end quiet) = inl (refl, quiet)
  IsNext-cases m c (at_slot i lo hi active quiet small e) =
      inr (i, refl, lo, hi, active, quiet, small, omega arith)
