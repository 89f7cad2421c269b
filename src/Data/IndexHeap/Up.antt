-- ===== src/Data/IndexHeap/Up.antt =====
-- The push on the heap of indices: the order, and what the heap holds.
use nexus_c.Base.{
  ℕ, zero, suc, ◌+◌, ◌^◌, ◌≤◌, ◌<◌, ◌≡◌, ◌≢◌, ◌∙◌, refl, ltb, update, Bool-cases, inl, inr, arith,
}
use nexus_c.Data.IndexHeap.{swap, parent, push_loop, push}
use nexus_c.Data.IndexHeap.Order.{IsHeap, IsBridged}
use nexus_c.Data.IndexHeap.Content.{
  one_if, occurrences, occurrences-swap, occurrences-update_beyond,
}

module _ (keys : ℕ → ℕ) where
  -- Only the edge above the place may be out of order.
  record UpInv (n : ℕ) (queue : ℕ → ℕ) (i : ℕ) : Type 0 where
    inside : i < n
    edges : (c : ℕ) → 0 < c → c < n → c ≢ i → keys (queue (parent c)) ≤ keys (queue c)
    bridged : IsBridged keys n queue i

  swap-UpInv :
      (n : ℕ) (queue : ℕ → ℕ) (i : ℕ)
      → UpInv n queue i
      → 0 < i
      → keys (queue i) < keys (queue (parent i))
      → UpInv n (swap queue i (parent i)) (parent i)
  swap-UpInv n queue i v pos below = record {
    inside = let h = v.inside in omega arith;
    edges = λ c p q r. ground (arith, v.edges c, v.bridged c);
    bridged = λ c p q r s. ground (arith, v.edges c, v.edges (parent i));
  }

  push_loop_restores :
      (fuel n : ℕ) (queue : ℕ → ℕ) (i : ℕ)
      → i < fuel
      → UpInv n queue i
      → IsHeap keys n (push_loop keys fuel queue i)
  unfolding push_loop
  push_loop_restores zero n queue i f v = absurd (omega arith)
  push_loop_restores (suc fuel) n queue zero f v = λ c p q. v.edges c p q (omega arith)
  push_loop_restores (suc fuel) n queue (suc i) f v =
      elim (Bool-cases (ltb (keys (queue (suc i))) (keys (queue (parent (suc i)))))) [
        | inl below ↦
            let above = swap-UpInv n queue (suc i) v (omega arith) (ground (arith, below)) in
            let rest =
              push_loop_restores fuel n (swap queue (suc i) (parent (suc i))) (parent (suc i))
                (omega arith) above in
            rw (below) rest
        | inr settled ↦ rw (settled) λ c p q. ground (arith, v.edges c, settled)
      ]

  push_loop-occurrences :
      (fuel n : ℕ) (queue : ℕ → ℕ) (i v : ℕ)
      → i < n
      → occurrences v (push_loop keys fuel queue i) n ≡ occurrences v queue n
  unfolding push_loop
  push_loop-occurrences zero n queue i v p = refl
  push_loop-occurrences (suc fuel) n queue zero v p = refl
  push_loop-occurrences (suc fuel) n queue (suc i) v p =
      elim (Bool-cases (ltb (keys (queue (suc i))) (keys (queue (parent (suc i)))))) [
        | inl below ↦
            let moved = occurrences-swap v queue n (suc i) (parent (suc i)) p (omega arith) in
            let rest =
              push_loop-occurrences fuel n (swap queue (suc i) (parent (suc i))) (parent (suc i)) v
                (omega arith) in
            rw (below) (rest ∙ moved)
        | inr settled ↦ rw (settled) refl
      ]

  -- A push on a heap of fewer than 2^32 - 1 indices leaves a heap, with a count of one more, that
  -- holds the new index once more than before and every other index as often.
  pub push-IsHeap :
      (queue : ℕ → ℕ) (n index : ℕ)
      → IsHeap keys n queue
      → n + 1 < 2 ^ 32
      → ((push keys queue n index).1 ≡ n + 1)
        × IsHeap keys (n + 1) (push keys queue n index).0
        × ((v : ℕ)
            → occurrences v (push keys queue n index).0 (n + 1)
              ≡ occurrences v queue n + one_if index v)
  unfolding push
  push-IsHeap queue n index h small =
      let start : UpInv (n + 1) (update queue n index) n = record {
        inside = omega arith;
        edges = λ c p q r. ground (arith, h c);
        bridged = λ c p q r s. omega arith;
      } in
      (
        omega arith,
        push_loop_restores (n + 1) (n + 1) (update queue n index) n (omega arith) start,
        λ v.
            let kept =
              push_loop-occurrences (n + 1) (n + 1) (update queue n index) n v (omega arith) in
            let beyond = occurrences-update_beyond v queue n n index (omega arith) in
            kept ∙ ground (arith, beyond),
      )
