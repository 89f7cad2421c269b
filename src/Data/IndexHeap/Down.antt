-- ===== src/Data/IndexHeap/Down.antt =====
-- The pop from the heap of indices: the order, and what the heap holds.
use nexus_c.Base.{
  ℕ, zero, suc, ◌+◌, ◌-◌, ◌*◌, ◌^◌, ◌≤◌, ◌<◌, ◌≡◌, ◌≢◌, ◌∙◌, ap, refl, true, false, ltb, ◌==◌, ◌&&◌,
  update, u32, Bool-cases, inl, inr, ◌⊎◌, arith,
}
use nexus_c.Data.IndexHeap.{swap, parent, smallest_of, pop_loop, pop}
use nexus_c.Data.IndexHeap.Order.{IsHeap, IsBridged, root_least}
use nexus_c.Data.IndexHeap.Content.{one_if, occurrences, occurrences-swap, occurrences-update}

module _ (keys : ℕ → ℕ) where
  -- Only the edges below the place may be out of order.
  record DownInv (n : ℕ) (queue : ℕ → ℕ) (i : ℕ) : Type 0 where
    edges : (c : ℕ) → 0 < c → c < n → parent c ≢ i → keys (queue (parent c)) ≤ keys (queue c)
    bridged : IsBridged keys n queue i

  -- The place is not above its children, or the other one is its least child and below it.
  record IsLeastChild (n : ℕ) (queue : ℕ → ℕ) (i m : ℕ) : Type 0 where
    inside : m < n
    child : (m ≡ 2 * i + 1) ⊎ (m ≡ 2 * i + 2)
    below : keys (queue m) < keys (queue i)
    least : (c : ℕ) → 0 < c → c < n → parent c ≡ i → keys (queue m) ≤ keys (queue c)

  abbrev IsSettled : ℕ → (ℕ → ℕ) → ℕ → Type 0
  IsSettled n queue i = (c : ℕ) → 0 < c → c < n → parent c ≡ i → keys (queue i) ≤ keys (queue c)

  children : (c : ℕ) {i : ℕ} → 0 < c → parent c ≡ i → (c ≡ 2 * i + 1) ⊎ (c ≡ 2 * i + 2)
  children c p t = omega arith

  smallest_of-IsLeastChild :
      (queue : ℕ → ℕ) (n i : ℕ)
      → i < 2 ^ 31 - 1
      → ((smallest_of keys queue n i ≡ i) × IsSettled n queue i)
        ⊎ IsLeastChild n queue i (smallest_of keys queue n i)
  unfolding smallest_of
  smallest_of-IsLeastChild queue n i small =
      let left : u32 (2 * i + 1) ≡ 2 * i + 1 = omega arith in
      let right : u32 (2 * i + 2) ≡ 2 * i + 2 = omega arith in
      elim (Bool-cases (ltb (2 * i + 1) n && ltb (keys (queue (2 * i + 1))) (keys (queue i)))) [
        | inl l ↦
            elim (Bool-cases
              (ltb (2 * i + 2) n && ltb (keys (queue (2 * i + 2))) (keys (queue (2 * i + 1))))) [
                | inl r ↦
                    rw (left, right, l, r)
                      (inr (record {
                        inside = ground (arith, l, r);
                        child = inr refl;
                        below = ground (arith, l, r);
                        least = λ c p q t. ground (arith, l, r, children c p t);
                      }))
                | inr r ↦
                    rw (left, right, l, r)
                      (inr (record {
                        inside = ground (arith, l, r);
                        child = inl refl;
                        below = ground (arith, l, r);
                        least = λ c p q t. ground (arith, l, r, children c p t);
                      }))
              ]
        | inr l ↦
            elim (Bool-cases
              (ltb (2 * i + 2) n && ltb (keys (queue (2 * i + 2))) (keys (queue i)))) [
                | inl r ↦
                    rw (left, right, l, r)
                      (inr (record {
                        inside = ground (arith, l, r);
                        child = inr refl;
                        below = ground (arith, l, r);
                        least = λ c p q t. ground (arith, l, r, children c p t);
                      }))
                | inr r ↦
                    rw (left, right, l, r)
                      (inl (refl, λ c p q t. ground (arith, l, r, children c p t)))
              ]
      ]

  swap-DownInv :
      (n : ℕ) (queue : ℕ → ℕ) (i m : ℕ)
      → DownInv n queue i
      → IsLeastChild n queue i m
      → DownInv n (swap queue i m) m
  swap-DownInv n queue i m v s =
      let h = s.child in
      let b = s.below in
      let inside = s.inside in
      let up : parent m ≡ i = omega arith in
      record {
        edges = λ c p q r.
            ground (arith, v.edges c p q, v.bridged m (omega arith) inside up, s.least c p q);
        bridged = λ c p q r t. ground (arith, v.edges c p q);
      }

  pop_loop-IsHeap :
      (fuel : ℕ) (queue : ℕ → ℕ) (n i : ℕ)
      → n - i < fuel
      → n < 2 ^ 31
      → i < 2 ^ 31 - 1
      → DownInv n queue i
      → IsHeap keys n (pop_loop keys fuel queue n i)
  unfolding pop_loop
  pop_loop-IsHeap zero queue n i f g k v = absurd (omega arith)
  pop_loop-IsHeap (suc fuel) queue n i f g k v = elim (smallest_of-IsLeastChild queue n i k) [
    | inl settled ↦
        let stays : (smallest_of keys queue n i == i) ≡ true = ground (arith, settled.0) in
        rw (stays) (λ c p q. ground (arith, v.edges c p q, settled.1 c p q))
    | inr s ↦
        let child = s.child in
        let inside = s.inside in
        let moves : (smallest_of keys queue n i == i) ≡ false = ground (arith, child) in
        let further : n - smallest_of keys queue n i < fuel = omega arith in
        let below = swap-DownInv n queue i (smallest_of keys queue n i) v s in
        let rest =
          pop_loop-IsHeap fuel (swap queue i (smallest_of keys queue n i)) n
            (smallest_of keys queue n i) further g (omega arith) below in
        rw (moves) rest
  ]

  pop_loop-occurrences :
      (fuel : ℕ) (queue : ℕ → ℕ) (n i v : ℕ)
      → n < 2 ^ 31
      → i < 2 ^ 31 - 1
      → occurrences v (pop_loop keys fuel queue n i) n ≡ occurrences v queue n
  unfolding pop_loop
  pop_loop-occurrences zero queue n i v g k = refl
  pop_loop-occurrences (suc fuel) queue n i v g k = elim (smallest_of-IsLeastChild queue n i k) [
    | inl settled ↦
        let stays : (smallest_of keys queue n i == i) ≡ true = ground (arith, settled.0) in
        rw (stays) refl
    | inr s ↦
        let child = s.child in
        let inside = s.inside in
        let moves : (smallest_of keys queue n i == i) ≡ false = ground (arith, child) in
        let moved =
          occurrences-swap v queue n i (smallest_of keys queue n i) (omega arith) inside in
        let rest =
          pop_loop-occurrences fuel (swap queue i (smallest_of keys queue n i)) n
            (smallest_of keys queue n i) v g (omega arith) in
        rw (moves) (rest ∙ moved)
  ]

  last_moved :
      (v : ℕ) (queue : ℕ → ℕ) (r : ℕ)
      → occurrences v (update queue 0 (queue r)) r + one_if (queue 0) v
        ≡ occurrences v queue r + one_if (queue r) v
  last_moved v queue zero = refl
  last_moved v queue (suc r) = occurrences-update v queue (suc r) 0 (queue (suc r)) (omega arith)

  -- A pop from a heap of 1 to 2^31 indices gives an index whose key is least, and leaves a heap,
  -- with a count of one less, that holds this index once less than before and every other one as
  -- often.
  pub pop-IsHeap :
      (queue : ℕ → ℕ) (r : ℕ)
      → IsHeap keys (suc r) queue
      → suc r ≤ 2 ^ 31
      → ((i : ℕ) → i < suc r → keys (pop keys queue (suc r)).0 ≤ keys (queue i))
        × ((pop keys queue (suc r)).2 ≡ r)
        × IsHeap keys r (pop keys queue (suc r)).1
        × ((v : ℕ)
            → occurrences v (pop keys queue (suc r)).1 r + one_if (pop keys queue (suc r)).0 v
              ≡ occurrences v queue (suc r))
  unfolding pop
  pop-IsHeap queue r h small =
      let less : u32 (suc r + 2 ^ 32 - 1) ≡ r = omega arith in
      let start : DownInv r (update queue 0 (queue r)) 0 = record {
        edges = λ c p q t. ground (arith, h c);
        bridged = λ c p q t u. absurd (omega arith);
      } in
      let moved = update queue 0 (queue r) in
      rw (less) (
        λ i p. root_least keys (suc r) queue i h p,
        refl,
        pop_loop-IsHeap (r + 1) moved r 0 (omega arith) (omega arith) (omega arith) start,
        λ v.
            ap (λ k. k + one_if (queue 0) v)
              (pop_loop-occurrences (r + 1) moved r 0 v (omega arith) (omega arith))
            ∙ last_moved v queue r,
      )
