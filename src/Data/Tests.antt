-- ===== src/Data/Tests.antt =====
-- Runs of the heap of indices and of the binary search, and their theorems at concrete arrays.
use nexus_c.Base.{ℕ, zero, suc, ◌+◌, ◌<◌, ◌≤◌, ◌≡◌, refl, [], ◌∷◌, get_or, ◌*◌, arith}
use nexus_c.Data.IndexHeap.{push_loop, push, smallest_of, pop_loop, pop}
use nexus_c.Data.IndexHeap.Content.{occurrences, one_if}
use nexus_c.Data.IndexHeap.Down.{pop-IsHeap}
use nexus_c.Data.IndexHeap.Order.{IsHeap}
use nexus_c.Data.IndexHeap.Up.{push-IsHeap}
use nexus_c.Data.KeySearch.{
  KeyValuePair, search_loop, search_binary_kv, IsSorted, Finds, search_binary_kv-Finds,
}

abbrev keys : ℕ → ℕ
keys i = get_or (50 ∷ 10 ∷ 40 ∷ 20 ∷ []) i 0

-- The indices 1, 0 and 2, with the keys 10, 50 and 40.
abbrev queue : ℕ → ℕ
queue i = get_or (1 ∷ 0 ∷ 2 ∷ []) i 0

queue-IsHeap : IsHeap keys 3 queue
queue-IsHeap zero p q = absurd (omega (arith, p))
queue-IsHeap (suc zero) p q = omega arith
queue-IsHeap (suc (suc zero)) p q = omega arith
queue-IsHeap (suc (suc (suc c))) p q = absurd (omega (arith, q))

-- The pairs with the keys 10, 20 and 30 and the values 1, 2 and 3.
abbrev pairs : ℕ → KeyValuePair
pairs i = record { key = 10 + 10 * i; value = i + 1 }

pairs-IsSorted : (target : ℕ) → IsSorted pairs target 3
pairs-IsSorted target i j p q = omega (arith, p)

runs :
    ((push keys queue 3 3).0 1 ≡ 3)
    × ((pop keys queue 3).0 ≡ 1)
    × ((pop keys queue 3).1 0 ≡ 2)
    × (search_binary_kv pairs 20 3 ≡ 2)
    × (search_binary_kv pairs 25 3 ≡ 3)
unfolding push push_loop pop pop_loop smallest_of search_binary_kv search_loop
runs = (refl, refl, refl, refl, refl)

push-IsHeap_example :
    ((push keys queue 3 3).1 ≡ 3 + 1)
    × IsHeap keys (3 + 1) (push keys queue 3 3).0
    × ((v : ℕ) → occurrences v (push keys queue 3 3).0 (3 + 1) ≡ occurrences v queue 3 + one_if 3 v)
push-IsHeap_example = push-IsHeap keys queue 3 3 queue-IsHeap (omega arith)

pop-IsHeap_example :
    ((i : ℕ) → i < 3 → keys (pop keys queue 3).0 ≤ keys (queue i))
    × ((pop keys queue 3).2 ≡ 2)
    × IsHeap keys 2 (pop keys queue 3).1
    × ((v : ℕ)
        → occurrences v (pop keys queue 3).1 2 + one_if (pop keys queue 3).0 v
          ≡ occurrences v queue 3)
pop-IsHeap_example = pop-IsHeap keys queue 2 queue-IsHeap (omega arith)

search_binary_kv-Finds_example : Finds pairs 25 3 (search_binary_kv pairs 25 3)
search_binary_kv-Finds_example = search_binary_kv-Finds pairs 25 3 (pairs-IsSorted 25) (omega arith)
