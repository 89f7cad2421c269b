-- ===== src/Data/HashMap/Outcome.antt =====
-- What a probe finds: the two ways in which its loop ends, whatever the table holds.
use nexus_c.Base.{
  ℕ, zero, suc, ◌+◌, ◌%◌, ◌<◌, ◌≡◌, ◌≢◌, refl, true, false, Option, none, some, arith, ◌⊎◌, inl,
  inr, ◌∙◌, sym, Bool-cases, Option-cases, ◌==◌, ==_iff,
}
use mathlib.Core.Path.{subst}
use native.Mathlib.Decide.{dec_lt}
use nexus_c.Data.HashMap.Probe.{
  matches, find_match, find_control, offer, note_tombstone, probe_loop, no_result,
}
use nexus_c.Data.HashMap.Table.{
  KeyOps, HashMap, HashMapHash, HashMapProbe, swiss_empty, swiss_deleted, slot_number,
}
use nexus_c.Data.HashMap.Walk.{walk, walk-zero, walk-suc, walk_back, scan-eq-some, scan-eq-none}

module _ {ℓ} {K V : Type ℓ} where
  -- No slot of the group has the control byte.
  abbrev pub Lacks : HashMap K V → ℕ → ℕ → Type 0
  Lacks m byte g = (s : ℕ) → s < 8 → m.control (slot_number g s) ≢ byte

  pub find_control-some :
      (m : HashMap K V) (byte g s : ℕ)
      → find_control m byte g ≡ some s
      → (s < 8) × (m.control (slot_number g s) ≡ byte)
  unfolding find_control
  find_control-some m byte g s h =
      ground (arith, scan-eq-some 8 0 (λ slot. m.control (slot_number g slot) == byte) s h)

  pub find_control-none :
      (m : HashMap K V) (byte g : ℕ) → find_control m byte g ≡ none → Lacks m byte g
  unfolding find_control
  find_control-none m byte g h s lt =
      ground (arith, scan-eq-none 8 0 (λ slot. m.control (slot_number g slot) == byte) s h)

below_next {ℓ} :
    (P : ℕ → Type ℓ) (j : ℕ) → ((i : ℕ) → i < j → P i) → P j → (i : ℕ) → i < j + 1 → P i
below_next P j below at_j i lt = elim (dec_lt i j) [
  | yes p ↦ below i p
  | no p ↦ subst P (omega arith) at_j
]

offer_old : (r : HashMapProbe) (g s : ℕ) → r.insertable ≡ true → offer r g (some s) ≡ r
unfolding offer
offer_old r g s h = ground arith

offer_new :
    (r : HashMapProbe) (g s : ℕ)
    → r.insertable ≡ false
    → offer r g (some s) ≡ record r { insertable = true; group_idx = g; slot_idx = s }
unfolding offer
offer_new r g s h = ground arith

module _ {ℓ} {K V : Type ℓ} ⦃ops : KeyOps K⦄ (m : HashMap K V) (key : K) (hash : HashMapHash) where
  abbrev pub group_after : ℕ → ℕ
  group_after j = walk m.capacity_groups hash.initial_group_idx j

  -- No slot of the group holds the key under its fingerprint.
  abbrev pub LacksKey : ℕ → Type 0
  LacksKey g = (s : ℕ) → s < 8 → matches m key hash.fingerprint g s ≡ false

  pub find_match-some :
      (g s : ℕ)
      → find_match m key hash.fingerprint g ≡ some s
      → (s < 8) × (matches m key hash.fingerprint g s ≡ true)
  unfolding find_match
  find_match-some g s h = ground (arith, scan-eq-some 8 0 (matches m key hash.fingerprint g) s h)

  pub find_match-none : (g : ℕ) → find_match m key hash.fingerprint g ≡ none → LacksKey g
  unfolding find_match
  find_match-none g h s lt =
      scan-eq-none 8 0 (matches m key hash.fingerprint g) s h (omega arith) (omega arith)

  -- The insertion target of a result, after `steps` steps without an EMPTY slot.
  pub record IsTarget (r : HashMapProbe) : Type 0 where
    pub steps : ℕ
    pub within : steps < m.capacity_groups
    pub group : r.group_idx ≡ group_after steps
    pub slot : r.slot_idx < 8
    pub free :
        (m.control (slot_number r.group_idx r.slot_idx) ≡ swiss_empty)
        ⊎ (m.control (slot_number r.group_idx r.slot_idx) ≡ swiss_deleted)
    pub before : (j : ℕ) → j < steps → Lacks m swiss_empty (group_after j)

  -- After `j` groups without the key and without an EMPTY slot.
  pub record Before (j : ℕ) (r : HashMapProbe) : Type 0 where
    pub not_found : r.found ≡ false
    pub fingerprint : r.fingerprint ≡ hash.fingerprint
    pub no_key : (i : ℕ) → i < j → LacksKey (group_after i)
    pub no_empty : (i : ℕ) → i < j → Lacks m swiss_empty (group_after i)
    pub target : r.insertable ≡ true → IsTarget r

  -- The key is in the slot of the result.
  pub record Found (r : HashMapProbe) : Type 0 where
    pub found : r.found ≡ true
    pub steps : ℕ
    pub within : steps < m.capacity_groups
    pub group : r.group_idx ≡ group_after steps
    pub slot : r.slot_idx < 8
    pub holds : matches m key hash.fingerprint r.group_idx r.slot_idx ≡ true

  -- The key is in none of the first `steps` groups, which are all of them, or the last of which
  -- has an EMPTY slot.
  pub record Missing (r : HashMapProbe) : Type 0 where
    pub not_found : r.found ≡ false
    pub fingerprint : r.fingerprint ≡ hash.fingerprint
    pub steps : ℕ
    pub no_key : (i : ℕ) → i < steps → LacksKey (group_after i)
    pub target : r.insertable ≡ true → IsTarget r
    pub ended :
        ((steps ≡ m.capacity_groups) × ((i : ℕ) → i < steps → Lacks m swiss_empty (group_after i)))
        ⊎ ((last : ℕ) × (steps ≡ suc last)
            × (s : ℕ) × (s < 8)
            × (m.control (slot_number (group_after last) s) ≡ swiss_empty)
            × (r.insertable ≡ true))

  -- Offering a slot of the next group keeps the target, or makes the slot the target.
  offer-IsTarget :
      (j g s : ℕ) (r : HashMapProbe)
      → Before j r
      → j < m.capacity_groups
      → g ≡ group_after j
      → s < 8
      → (m.control (slot_number g s) ≡ swiss_empty) ⊎ (m.control (slot_number g s) ≡ swiss_deleted)
      → IsTarget (offer r g (some s))
  offer-IsTarget j g s r b lt e small free = elim (Bool-cases r.insertable) [
    | inl old ↦ rw (offer_old r g s old) (b.target old)
    | inr new ↦ rw (offer_new r g s new) (record {
      steps = j;
      within = lt;
      group = e;
      slot = small;
      free = free;
      before = b.no_empty;
    })
  ]

  offer-insertable : (r : HashMapProbe) (g s : ℕ) → (offer r g (some s)).insertable ≡ true
  unfolding offer
  offer-insertable r g s = ground arith

  offer_keeps :
      (r : HashMapProbe) (g : ℕ) (o : Option ℕ)
      → ((offer r g o).found ≡ r.found) × ((offer r g o).fingerprint ≡ r.fingerprint)
  unfolding offer
  offer_keeps r g none = (refl, refl)
  offer_keeps r g (some s) = ground arith

  note_tombstone-Before :
      (j : ℕ) (r : HashMapProbe)
      → Before j r
      → j < m.capacity_groups
      → Before j (note_tombstone m (group_after j) r)
  unfolding note_tombstone
  note_tombstone-Before j r b lt =
      elim (Option-cases (find_control m swiss_deleted (group_after j))) [
        | inl e ↦ rw e (unfold offer in b)
        | inr (s, e) ↦
            let (small, deleted) = find_control-some m swiss_deleted (group_after j) s e in
            let kept = offer_keeps r (group_after j) (some s) in
            rw e (record {
              not_found = kept.0 ∙ b.not_found;
              fingerprint = kept.1 ∙ b.fingerprint;
              no_key = b.no_key;
              no_empty = b.no_empty;
              target = λ _. offer-IsTarget j (group_after j) s r b lt refl small (inr deleted);
            })
      ]

  Before-next :
      (j : ℕ) (r : HashMapProbe)
      → Before j r
      → LacksKey (group_after j)
      → Lacks m swiss_empty (group_after j)
      → Before (j + 1) r
  Before-next j r b no_key no_empty = record {
    not_found = b.not_found;
    fingerprint = b.fingerprint;
    no_key = λ i lt. below_next (λ i. LacksKey (group_after i)) j b.no_key no_key i lt;
    no_empty =
        λ i lt. below_next (λ i. Lacks m swiss_empty (group_after i)) j b.no_empty no_empty i lt;
    target = b.target;
  }

  all_visited : (j : ℕ) (r : HashMapProbe) → j ≡ m.capacity_groups → Before j r → Missing r
  all_visited j r e b = record {
    not_found = b.not_found;
    fingerprint = b.fingerprint;
    steps = j;
    no_key = b.no_key;
    target = b.target;
    ended = inl (e, b.no_empty);
  }

  stopped_at_empty :
      (j s : ℕ) (r : HashMapProbe)
      → Before j r
      → j < m.capacity_groups
      → LacksKey (group_after j)
      → find_control m swiss_empty (group_after j) ≡ some s
      → Missing (offer r (group_after j) (some s))
  stopped_at_empty j s r b lt no_key hit =
      let (small, is_empty) = find_control-some m swiss_empty (group_after j) s hit in
      let kept = offer_keeps r (group_after j) (some s) in
      record {
        not_found = kept.0 ∙ b.not_found;
        fingerprint = kept.1 ∙ b.fingerprint;
        steps = suc j;
        no_key =
            λ i le. below_next (λ i. LacksKey (group_after i)) j b.no_key no_key i (omega arith);
        target = λ _. offer-IsTarget j (group_after j) s r b lt refl small (inl is_empty);
        ended = inr (j, refl, s, small, is_empty, offer-insertable r (group_after j) s);
      }

  -- The loop from the group after `j` steps on, with a round left for each group that is left.
  probe_loop_outcome :
      (rounds j : ℕ) (r : HashMapProbe)
      → hash.initial_group_idx < m.capacity_groups
      → j + rounds ≡ m.capacity_groups
      → Before j r
      → let out = probe_loop rounds m key hash (group_after j) r in Found out ⊎ Missing out
  unfolding probe_loop
  probe_loop_outcome zero j r inside e b = inr (all_visited j r (omega arith) b)
  probe_loop_outcome (suc rounds) j r inside e b =
      let noted = note_tombstone-Before j r b (omega arith) in
      elim (Option-cases (find_match m key hash.fingerprint (group_after j))) [
        | inr (s, hit) ↦
            let (small, holds) = find_match-some (group_after j) s hit in
            rw (hit, probe_loop)
              (inl (record {
                found = refl;
                steps = j;
                within = omega arith;
                group = refl;
                slot = small;
                holds = holds;
              }))
        | inl miss ↦
            let no_key = find_match-none (group_after j) miss in
            elim (Option-cases (find_control m swiss_empty (group_after j))) [
              | inr (s, hit) ↦
                  rw (miss, hit, probe_loop)
                    (inr (stopped_at_empty j s _ noted (omega arith) no_key hit))
              | inl full ↦
                  let next =
                    Before-next j _ noted no_key (find_control-none m swiss_empty _ full) in
                  let step = walk-suc m.capacity_groups hash.initial_group_idx inside j in
                  elim (Bool-cases
                    ((group_after j + 1) % m.capacity_groups == hash.initial_group_idx)) [
                      | inl back ↦
                          rw (miss, full, back, probe_loop)
                            (inr (
                              all_visited (j + 1) _
                                (walk_back m.capacity_groups hash.initial_group_idx inside (j + 1)
                                  (omega arith) (omega arith) (sym step ∙ (==_iff _ _).0 back))
                                next))
                      | inr on ↦
                          rw (miss, full, on, step, probe_loop)
                            (probe_loop_outcome rounds (j + 1) _ inside (omega arith) next)
                    ]
            ]
      ]

  pub probe_loop-Outcome :
      hash.initial_group_idx < m.capacity_groups
      → let out = probe_loop m.capacity_groups m key hash hash.initial_group_idx (no_result hash) in
        Found out ⊎ Missing out
  probe_loop-Outcome inside = rw (walk-zero m.capacity_groups hash.initial_group_idx inside) at (
      probe_loop_outcome m.capacity_groups 0 (no_result hash) inside (omega arith) (record {
        not_found = refl;
        fingerprint = refl;
        no_key = λ i lt. absurd (omega arith);
        no_empty = λ i lt. absurd (omega arith);
        target = λ h. cc;
      }))
