-- ===== src/Data/KeySearch.antt =====
-- The binary search of pairs by their key (nexus.h, the macro NEXUS_KEY_VALUE_PAIR_DEFINE). The
-- macro has the same text for every type of key and value; the model reads them as numbers. The
-- function that it declares returns a uint32 for every type of value.
use nexus_c.Base.{
  ℕ, zero, suc, ◌+◌, ◌-◌, ◌/◌, ◌^◌, ◌≤◌, ◌<◌, ◌≡◌, ◌≢◌, if◌then◌else◌, ltb, leb, ◌==◌, u32, refl,
  false, Bool-cases, inl, inr, ◌⊎◌, arith,
}

pub record KeyValuePair : Type 0 where
  pub key : ℕ
  pub value : ℕ

module _ (items : ℕ → KeyValuePair) (target_key : ℕ) where
  -- The `while` loop, with `fuel` rounds at most; `count` is what it returns when it finds nothing.
  unfoldable pub search_loop : ℕ → ℕ → ℕ → ℕ → ℕ
  search_loop zero count low high = count
  search_loop (suc fuel) count low high =
      let mid = low + (high - low) / 2 in
      let above = search_loop fuel count (u32 (mid + 1)) high in
      let below = search_loop fuel count low (mid - 1) in
      if leb low high
      then (if (items mid).key == target_key
          then u32 ((items mid).value)
          else (if ltb (items mid).key target_key
              then above
              else (if mid == 0 then count else below)))
      else count

  unfoldable pub search_binary_kv : ℕ → ℕ
  search_binary_kv count = if count == 0 then 0 else search_loop count count 0 (count - 1)

  abbrev pub IsSorted : ℕ → Type 0
  IsSorted count = (i j : ℕ) → i ≤ j → j < count → (items i).key ≤ (items j).key

  -- The low 32 bits of the value of a pair with the key, or the count where no pair has it.
  abbrev pub Finds : ℕ → ℕ → Type 0
  Finds count result =
      ((i : ℕ) × (i < count) × ((items i).key ≡ target_key) × (result ≡ u32 ((items i).value)))
      ⊎ (((i : ℕ) → i < count → (items i).key ≢ target_key) × (result ≡ count))

  -- The key stands, if anywhere, between the two ends.
  record Within (count low high : ℕ) : Type 0 where
    inside : high < count
    bounded : low ≤ count
    small : count < 2 ^ 32
    before : (i : ℕ) → i < low → (items i).key < target_key
    after : (i : ℕ) → high < i → i < count → target_key < (items i).key

  Within-above :
      {count low high : ℕ} (mid : ℕ)
      → IsSorted count
      → Within count low high
      → mid ≤ high
      → (items mid).key < target_key
      → Within count (mid + 1) high
  Within-above mid s w p under =
      let inside = w.inside in
      record {
        inside = inside;
        bounded = omega arith;
        small = w.small;
        before = λ i q. ground (arith, under, s i mid);
        after = w.after;
      }

  Within-below :
      {count low high : ℕ} (mid : ℕ)
      → IsSorted count
      → Within count low high
      → mid ≤ high
      → 0 < mid
      → target_key < (items mid).key
      → Within count low (mid - 1)
  Within-below mid s w p pos over =
      let inside = w.inside in
      record {
        inside = omega arith;
        bounded = w.bounded;
        small = w.small;
        before = w.before;
        after = λ i q r. ground (arith, over, s mid i);
      }

  search_loop-Finds :
      (fuel count low high : ℕ)
      → IsSorted count
      → Within count low high
      → high + 1 - low ≤ fuel
      → Finds count (search_loop fuel count low high)
  unfolding search_loop
  search_loop-Finds zero count low high s w f =
      inr (λ i p. ground (arith, w.before i, w.after i), refl)
  search_loop-Finds (suc fuel) count low high s w f =
      let inside = w.inside in
      let small = w.small in
      let mid = low + (high - low) / 2 in
      elim (Bool-cases (leb low high)) [
        | inr done ↦ rw (done) (inr (λ i p. ground (arith, done, w.before i, w.after i), refl))
        | inl more ↦
            let half : mid ≤ high = ground (arith, more) in
            elim (Bool-cases ((items mid).key == target_key)) [
              | inl hit ↦ rw (more, hit) (inl (mid, omega arith, ground (arith, hit), refl))
              | inr miss ↦ elim (Bool-cases (ltb (items mid).key target_key)) [
                | inl under ↦
                    let next : u32 (mid + 1) ≡ mid + 1 = omega arith in
                    let rest =
                      search_loop-Finds fuel count (mid + 1) high s
                        (Within-above mid s w half (ground (arith, under))) (omega arith) in
                    rw (more, miss, under, next) rest
                | inr over ↦
                    let beyond : target_key < (items mid).key = ground (arith, miss, over) in
                    elim (Bool-cases (mid == 0)) [
                      | inl start ↦
                          rw (more, miss, over, start)
                            (inr (λ i p. ground (arith, start, beyond, s mid i), refl))
                      | inr later ↦
                          let rest =
                            search_loop-Finds fuel count low (mid - 1) s
                              (Within-below mid s w half (ground (arith, later)) beyond)
                              (ground (arith, more, later)) in
                          rw (more, miss, over, later) rest
                    ]
              ]
            ]
      ]

  -- Where the keys of fewer than 2^32 pairs are sorted, the binary search gives the low 32 bits of the
  -- value of a pair with the key, or the count where no pair has the key.
  pub search_binary_kv-Finds :
      (count : ℕ) → IsSorted count → count < 2 ^ 32 → Finds count (search_binary_kv count)
  unfolding search_binary_kv
  search_binary_kv-Finds zero s small = inr (λ i p. absurd (omega arith), refl)
  search_binary_kv-Finds (suc r) s small =
      let all : Within (suc r) 0 (suc r - 1) = record {
        inside = omega arith;
        bounded = omega arith;
        small = small;
        before = λ i p. absurd (omega arith);
        after = λ i p q. absurd (omega arith);
      } in
      let run = search_loop-Finds (suc r) (suc r) 0 (suc r - 1) s all (omega arith) in
      let some_items : (suc r == 0) ≡ false = ground arith in rw (some_items) run
