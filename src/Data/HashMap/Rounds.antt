-- ===== src/Data/HashMap/Rounds.antt =====
-- The loop of the probe ends by its own tests: more rounds than groups change nothing.
use nexus_c.Base.{
  ℕ, zero, suc, ◌+◌, ◌%◌, ◌≤◌, ◌<◌, ◌≡◌, inl, inr, sym, ◌∙◌, ap, ◌-◌, false, arith, Option-cases,
  Bool-cases, ◌==◌,
}
use nexus_c.Data.HashMap.Invariant.{home-lt}
use nexus_c.Data.HashMap.Probe.{
  find_match, find_control, note_tombstone, probe_loop, no_result, probe,
}
use nexus_c.Data.HashMap.Table.{KeyOps, HashMap, HashMapHash, HashMapProbe, swiss_empty, hash_get}
use nexus_c.Data.HashMap.Walk.{walk, walk-zero, walk-suc, walk-all}

module _ {ℓ} {K V : Type ℓ} ⦃ops : KeyOps K⦄ (m : HashMap K V) (key : K) (hash : HashMapHash)
    (inside : hash.initial_group_idx < m.capacity_groups) where
  abbrev at_step : ℕ → ℕ
  at_step j = walk m.capacity_groups hash.initial_group_idx j

  -- The last group is followed by the first one.
  last_wraps :
      (j : ℕ)
      → j + 1 ≡ m.capacity_groups
      → (at_step j + 1) % m.capacity_groups ≡ hash.initial_group_idx
  last_wraps j e =
      walk-suc m.capacity_groups hash.initial_group_idx inside j
      ∙ ap at_step e
      ∙ walk-all m.capacity_groups hash.initial_group_idx inside

  abbrev next_group : ℕ → ℕ
  next_group j = (at_step j + 1) % m.capacity_groups

  -- A round gives the same result whatever rounds follow, if the next round does.
  probe_loop_round :
      (a b j : ℕ) (r : HashMapProbe)
      → ((next_group j == hash.initial_group_idx) ≡ false
          → (r' : HashMapProbe)
          → probe_loop a m key hash (next_group j) r' ≡ probe_loop b m key hash (next_group j) r')
      → probe_loop (suc a) m key hash (at_step j) r ≡ probe_loop (suc b) m key hash (at_step j) r
  unfolding probe_loop
  probe_loop_round a b j r same_rest =
      elim (Option-cases (find_match m key hash.fingerprint (at_step j))) [
        | inr (s, hit) ↦ rw (hit, probe_loop)
        | inl miss ↦ elim (Option-cases (find_control m swiss_empty (at_step j))) [
          | inr (s, hit) ↦ rw (miss, hit, probe_loop)
          | inl full ↦
              elim (Bool-cases ((at_step j + 1) % m.capacity_groups == hash.initial_group_idx)) [
                | inl back ↦ rw (miss, full, back, probe_loop)
                | inr on ↦
                    rw (miss, full, on, probe_loop) (same_rest on (note_tombstone m (at_step j) r))
              ]
        ]
      ]

  probe_loop_more :
      (rounds total j : ℕ) (r : HashMapProbe)
      → rounds ≤ total
      → j + suc rounds ≡ m.capacity_groups
      → probe_loop (suc total) m key hash (at_step j) r
        ≡ probe_loop (suc rounds) m key hash (at_step j) r
  probe_loop_more zero total j r le e =
      probe_loop_round total zero j r λ on r'. absurd (ground (arith, last_wraps j (omega arith)))
  probe_loop_more (suc rounds) zero j r le e = absurd (omega arith)
  probe_loop_more (suc rounds) (suc total) j r le e =
      probe_loop_round (suc total) (suc rounds) j r λ on r'.
        rw (walk-suc m.capacity_groups hash.initial_group_idx inside j)
          (probe_loop_more rounds total (j + 1) r' (omega arith) (omega arith))

  probe_loop_from_home :
      (n : ℕ) (r : HashMapProbe)
      → m.capacity_groups ≤ n
      → probe_loop n m key hash hash.initial_group_idx r
        ≡ probe_loop m.capacity_groups m key hash hash.initial_group_idx r
  probe_loop_from_home zero r le = absurd (omega arith)
  probe_loop_from_home (suc n) r le =
      let groups : m.capacity_groups ≡ suc (m.capacity_groups - 1) = omega arith in
      let more = probe_loop_more (m.capacity_groups - 1) n 0 r (omega arith) (omega arith) in
      rw (walk-zero m.capacity_groups hash.initial_group_idx inside) at more
      ∙ ap (λ k. probe_loop k m key hash hash.initial_group_idx r) (sym groups)

module _ {ℓ} {K V : Type ℓ} ⦃ops : KeyOps K⦄ where
  -- In a table with a group, a loop with any number of rounds from the number of groups on gives
  -- the probe: it always ends at a match, an EMPTY slot or the group that it began with.
  pub probe_rounds :
      (m : HashMap K V) (key : K) (rounds : ℕ)
      → 0 < m.capacity_groups
      → m.capacity_groups ≤ rounds
      → probe_loop rounds m key
          (hash_get m key)
          (hash_get m key).initial_group_idx
          (no_result (hash_get m key))
        ≡ probe m key
  unfolding probe
  probe_rounds m key rounds pos le =
      probe_loop_from_home m key (hash_get m key) (home-lt m key pos) rounds _ le
