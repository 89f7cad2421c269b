-- ===== src/Data/IndexHeap/Content.antt =====
-- What a queue holds: how often an index stands among its first places.
use nexus_c.Base.{
  ℕ, zero, suc, ◌+◌, ◌≤◌, ◌<◌, ◌≡◌, refl, if◌then◌else◌, ◌==◌, update, Bool-cases, inl, inr, arith,
}
use nexus_c.Data.IndexHeap.{swap}

abbrev pub one_if : ℕ → ℕ → ℕ
one_if a b = if a == b then 1 else 0

abbrev pub occurrences : ℕ → (ℕ → ℕ) → ℕ → ℕ
occurrences v queue zero = 0
occurrences v queue (suc n) = occurrences v queue n + one_if (queue n) v

pub occurrences-update_beyond :
    (v : ℕ) (queue : ℕ → ℕ) (n i x : ℕ)
    → n ≤ i
    → occurrences v (update queue i x) n ≡ occurrences v queue n
occurrences-update_beyond v queue zero i x h = refl
occurrences-update_beyond v queue (suc n) i x h =
    let ih = occurrences-update_beyond v queue n i x (omega arith) in ground (arith, ih)

-- A write trades one occurrence for another.
pub occurrences-update :
    (v : ℕ) (queue : ℕ → ℕ) (n i x : ℕ)
    → i < n
    → occurrences v (update queue i x) n + one_if (queue i) v ≡ occurrences v queue n + one_if x v
occurrences-update v queue zero i x h = absurd (omega arith)
occurrences-update v queue (suc n) i x h = elim (Bool-cases (i == n)) [
  | inl last ↦ ground (arith, occurrences-update_beyond v queue n i x, last)
  | inr before ↦ ground (arith, occurrences-update v queue n i x, before)
]

pub occurrences-swap :
    (v : ℕ) (queue : ℕ → ℕ) (n i j : ℕ)
    → i < n
    → j < n
    → occurrences v (swap queue i j) n ≡ occurrences v queue n
occurrences-swap v queue n i j p q =
    let first = occurrences-update v queue n i (queue j) p in
    let second = occurrences-update v (update queue i (queue j)) n j (queue i) q in
    ground (arith, first, second)
