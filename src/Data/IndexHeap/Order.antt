-- ===== src/Data/IndexHeap/Order.antt =====
-- The order of a heap.
use nexus_c.Base.{ℕ, zero, suc, ◌≤◌, ◌<◌, ◌≡◌, arith}
use nexus_c.Data.IndexHeap.{parent}

module _ (keys : ℕ → ℕ) where
  -- No key is below its parent's.
  abbrev pub IsHeap : ℕ → (ℕ → ℕ) → Type 0
  IsHeap n queue = (c : ℕ) → 0 < c → c < n → keys (queue (parent c)) ≤ keys (queue c)

  -- The keys below a place are not below the key above it.
  abbrev pub IsBridged : ℕ → (ℕ → ℕ) → ℕ → Type 0
  IsBridged n queue i =
      (c : ℕ) → 0 < c → c < n → parent c ≡ i → 0 < i → keys (queue (parent i)) ≤ keys (queue c)

  least_above :
      (fuel n : ℕ) (queue : ℕ → ℕ) (i : ℕ)
      → IsHeap n queue
      → i < fuel
      → i < n
      → keys (queue 0) ≤ keys (queue i)
  least_above zero n queue i h f p = absurd (omega arith)
  least_above (suc fuel) n queue zero h f p = omega arith
  least_above (suc fuel) n queue (suc i) h f p =
      let above = least_above fuel n queue (parent (suc i)) h (omega arith) (omega arith) in
      omega (arith, above, h (suc i) (omega arith) p)

  -- The root has the least key.
  pub root_least :
      (n : ℕ) (queue : ℕ → ℕ) (i : ℕ) → IsHeap n queue → i < n → keys (queue 0) ≤ keys (queue i)
  root_least n queue i h p = least_above (suc i) n queue i h (omega arith) p
