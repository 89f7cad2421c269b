-- ===== src/Data/IndexHeap.antt =====
-- The heap of indices, least key first (nexus.h, the macro NEXUS_DATA_HEAP_MIN_INDEX_DEFINE): the
-- operations. The queue is a function of the place, and a key is a number for each index; the macro
-- has the same text for every type of key. The children prove the order and what the queue holds.
pub mod Order
pub mod Content
pub mod Up
pub mod Down
use nexus_c.Base.{
  ℕ, zero, suc, ◌+◌, ◌-◌, ◌*◌, ◌/◌, ◌^◌, if◌then◌else◌, ltb, ◌==◌, ◌&&◌, update, u32,
}

-- The exchange of two places, as the three assignments with `swap_tmp` do it.
abbrev pub swap : (ℕ → ℕ) → ℕ → ℕ → ℕ → ℕ
swap queue i j = update (update queue i (queue j)) j (queue i)

abbrev pub parent : ℕ → ℕ
parent c = (c - 1) / 2

module _ (keys : ℕ → ℕ) where
  -- The loop of `push` at a place, with `fuel` rounds at most.
  unfoldable pub push_loop : ℕ → (ℕ → ℕ) → ℕ → ℕ → ℕ
  push_loop zero queue current = queue
  push_loop (suc fuel) queue zero = queue
  push_loop (suc fuel) queue (suc c) =
      let rest = push_loop fuel (swap queue (suc c) (parent (suc c))) (parent (suc c)) in
      if ltb (keys (queue (suc c))) (keys (queue (parent (suc c)))) then rest else queue

  unfoldable pub push : (ℕ → ℕ) → ℕ → ℕ → (ℕ → ℕ) × ℕ
  push queue count index = (push_loop (count + 1) (update queue count index) count, u32 (count + 1))

  -- The least of a place and its children.
  unfoldable pub smallest_of : (ℕ → ℕ) → ℕ → ℕ → ℕ
  smallest_of queue count current =
      let left = u32 (2 * current + 1) in
      let right = u32 (2 * current + 2) in
      let smallest =
        if ltb left count && ltb (keys (queue left)) (keys (queue current))
        then left
        else current in
      if ltb right count && ltb (keys (queue right)) (keys (queue smallest))
      then right
      else smallest

  -- The loop of `pop` at a place, with `fuel` rounds at most.
  unfoldable pub pop_loop : ℕ → (ℕ → ℕ) → ℕ → ℕ → ℕ → ℕ
  pop_loop zero queue count current = queue
  pop_loop (suc fuel) queue count current =
      let smallest = smallest_of queue count current in
      let rest = pop_loop fuel (swap queue current smallest) count smallest in
      if smallest == current then queue else rest

  -- The root, and the queue and its count afterwards.
  unfoldable pub pop : (ℕ → ℕ) → ℕ → ℕ × (ℕ → ℕ) × ℕ
  pop queue count =
      let rest = u32 (count + 2 ^ 32 - 1) in
      (queue 0, pop_loop (rest + 1) (update queue 0 (queue rest)) rest 0, rest)
