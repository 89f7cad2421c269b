-- ===== src/Memory/Release.antt =====
-- Freeing a payload (nexus_memory_paged_allocator_free), on the blocks of a page.
use nexus_c.Base.{
  ℕ, ◌+◌, ◌^◌, ◌<◌, ◌≡◌, ◌∙◌, ap, sym, refl, Bool, true, false, if◌then◌else◌, ◌==◌, u64, update,
  List, [], ◌∷◌, ◌++◌, append_assoc, Bool-cases, inl, inr, ◌⊎◌, arith,
}
use mathlib.Core.Path.{subst}
use nexus_c.Memory.{Region, Store, region_bytes, set_prev, coalesce_right, coalesce_left, free}
use nexus_c.Memory.Chain.{Block, head_of, Tiles, Tiles-le, Tiles-append, Tiles-join, Chain-append}
use nexus_c.Memory.Relink.{Chain-merge}
use nexus_c.Memory.Take.{Laid, mark, mark-Laid}

-- Two blocks as one.
abbrev pub joined : Block → Block → Block
joined b n = record b { size = b.size + (region_bytes + n.size) }

-- A block before others, after it has taken in the next one if that is available.
abbrev pub absorbing : Block → List Block → Block
absorbing b [] = b
absorbing b (n ∷ ys) = if n.available then joined b n else b

abbrev pub absorbed : List Block → List Block
absorbed [] = []
absorbed (n ∷ ys) = if n.available then ys else n ∷ ys

-- Blocks before a block, the last of which takes it in if it is available.
abbrev pub rejoin : List Block → Block → List Block → List Block
rejoin [] b ys = b ∷ ys
rejoin (p ∷ []) b ys = if p.available then joined p b ∷ ys else p ∷ b ∷ ys
rejoin (p ∷ q ∷ xs) b ys = p ∷ rejoin (q ∷ xs) b ys

abbrev pub released : List Block → Block → List Block → List Block
released xs b ys =
    let freed : Block = record b { available = true } in
    rejoin xs (absorbing freed ys) (absorbed ys)

-- Two neighbours become one in the store.
merge-Laid :
    (regions : ℕ → Region) (base limit : ℕ) (xs : List Block) (b n : Block) (ys : List Block)
    → Laid regions base limit (xs ++ b ∷ n ∷ ys)
    → Laid
        (set_prev
          (update regions b.address (record (regions b.address) {
            byte_size = b.size + (region_bytes + n.size);
            next = head_of ys 0;
          }))
          (head_of ys 0)
          b.address)
        base
        limit
        (xs ++ joined b n ∷ ys)
merge-Laid regions base limit xs b n ys laid =
    let (middle, l, q) = Tiles-append base xs (b ∷ n ∷ ys) limit laid.tiles in
    let end : middle + region_bytes + b.size + region_bytes + n.size
        ≡ middle + region_bytes + (b.size + (region_bytes + n.size)) =
      omega arith in
    record {
      chain =
          Chain-merge regions 0 base xs limit b n ys (b.size + (region_bytes + n.size)) laid.pos
            laid.tiles laid.chain;
      tiles =
          Tiles-join base xs (joined b n ∷ ys) middle limit l
            (q.0, subst (λ k. Tiles k ys limit) end q.1.1);
      pos = laid.pos;
    }

coalesce_right-Laid :
    (regions : ℕ → Region) (base limit : ℕ) (xs : List Block) (b : Block) (ys : List Block)
    → limit < 2 ^ 64
    → Laid regions base limit (xs ++ b ∷ ys)
    → Laid (coalesce_right regions b.address) base limit (xs ++ absorbing b ys ∷ absorbed ys)
unfolding coalesce_right
coalesce_right-Laid regions base limit xs b [] small laid =
    let m = (Chain-append regions 0 xs (b ∷ []) 0 laid.chain).1.0 in
    let null : ((regions b.address).next == 0) ≡ true = ground (arith, m.next_is) in rw null laid
coalesce_right-Laid regions base limit xs b (n ∷ ys) small laid =
    let (middle, l, q) = Tiles-append base xs (b ∷ n ∷ ys) limit laid.tiles in
    let high = Tiles-le (middle + region_bytes + b.size + region_bytes + n.size) ys limit q.1.1 in
    let back = (Chain-append regions 0 xs (b ∷ n ∷ ys) 0 laid.chain).1 in
    let m = back.0 in
    let m' = back.1.0 in
    let some_next : (n.address == 0) ≡ false = ground (arith, q.1.0) in
    let sum : u64 (b.size + (region_bytes + n.size)) ≡ b.size + (region_bytes + n.size) =
      omega (arith, small, high) in
    -- What is to be shown, by the flag of the next block.
    let Goal : (ℕ → Region) → Bool → Type 0 =
      λ r v. Laid r base limit (xs ++ (if v then joined b n else b) ∷ (if v then ys else n ∷ ys)) in
    elim (Bool-cases n.available) [
      | inl free ↦ subst (Goal (coalesce_right regions b.address)) (sym free) (
          rw (m.next_is, some_next, m'.available ∙ free, m.size, m'.size, m'.next_is, sum)
            (merge-Laid regions base limit xs b n ys laid))
      | inr taken ↦
          subst (Goal (coalesce_right regions b.address)) (sym taken)
            (rw (m.next_is, some_next, m'.available ∙ taken) laid)
    ]

last-cases :
    (xs : List Block) → (xs ≡ []) ⊎ ((front : List Block) × (p : Block) × (xs ≡ front ++ p ∷ []))
last-cases [] = inl refl
last-cases (x ∷ xs) = elim (last-cases xs) [
  | inl none ↦ inr ([], x, ap (λ k. x ∷ k) none)
  | inr (front, p, e) ↦ inr (x ∷ front, p, ap (λ k. x ∷ k) e)
]

rejoin-last :
    (front : List Block) (p b : Block) (ys : List Block)
    → rejoin (front ++ p ∷ []) b ys ≡ front ++ (if p.available then joined p b ∷ ys else p ∷ b ∷ ys)
rejoin-last [] p b ys = refl
rejoin-last (f ∷ []) p b ys = refl
rejoin-last (f ∷ g ∷ front) p b ys = ap (λ k. f ∷ k) (rejoin-last (g ∷ front) p b ys)

-- With a block before it.
coalesce_left-last :
    (regions : ℕ → Region) (base limit : ℕ) (front : List Block) (p b : Block) (ys : List Block)
    → limit < 2 ^ 64
    → Laid regions base limit (front ++ p ∷ b ∷ ys)
    → Laid
        (coalesce_left regions b.address)
        base
        limit
        (front ++ (if p.available then joined p b ∷ ys else p ∷ b ∷ ys))
unfolding coalesce_left
coalesce_left-last regions base limit front p b ys small laid =
    let (middle, l, q) = Tiles-append base front (p ∷ b ∷ ys) limit laid.tiles in
    let low = Tiles-le base front middle l in
    let high = Tiles-le (middle + region_bytes + p.size + region_bytes + b.size) ys limit q.1.1 in
    let back = (Chain-append regions 0 front (p ∷ b ∷ ys) 0 laid.chain).1 in
    let m = back.0 in
    let m' = back.1.0 in
    let some_prev : (p.address == 0) ≡ false = ground (arith, q.0, low, laid.pos) in
    let sum : u64 (p.size + (region_bytes + b.size)) ≡ p.size + (region_bytes + b.size) =
      omega (arith, small, high) in
    let Goal : Bool → Type 0 = λ v.
      Laid (coalesce_left regions b.address) base limit
        (front ++ (if v then joined p b ∷ ys else p ∷ b ∷ ys)) in
    elim (Bool-cases p.available) [
      | inl free ↦ subst Goal (sym free) (
          rw (m'.prev_is, some_prev, m.available ∙ free, m.size, m'.size, m'.next_is, sum)
            (subst
              (λ v.
                Laid
                  (set_prev
                    (update regions p.address (record (regions p.address) {
                      byte_size = p.size + (region_bytes + b.size);
                      available = v;
                      next = head_of ys 0;
                    }))
                    (head_of ys 0) p.address)
                  base limit (front ++ joined p b ∷ ys))
              (m.available ∙ free) (merge-Laid regions base limit front p b ys laid)))
      | inr taken ↦ subst Goal (sym taken) (rw (m'.prev_is, some_prev, m.available ∙ taken) laid)
    ]

-- With no block before it.
coalesce_left-first :
    (regions : ℕ → Region) (base limit : ℕ) (b : Block) (ys : List Block)
    → Laid regions base limit (b ∷ ys)
    → Laid (coalesce_left regions b.address) base limit (b ∷ ys)
unfolding coalesce_left
coalesce_left-first regions base limit b ys laid =
    let m = laid.chain.0 in
    let null : ((regions b.address).prev == 0) ≡ true = ground (arith, m.prev_is) in rw null laid

coalesce_left-Laid :
    (regions : ℕ → Region) (base limit : ℕ) (xs : List Block) (b : Block) (ys : List Block)
    → limit < 2 ^ 64
    → Laid regions base limit (xs ++ b ∷ ys)
    → Laid (coalesce_left regions b.address) base limit (rejoin xs b ys)
coalesce_left-Laid regions base limit xs b ys small laid = elim (last-cases xs) [
  | inl none ↦
      subst (λ k. Laid (coalesce_left regions b.address) base limit (rejoin k b ys)) (sym none)
        (coalesce_left-first regions base limit b ys
          (subst (λ k. Laid regions base limit (k ++ b ∷ ys)) none laid))
  | inr (front, p, e) ↦
      let divided =
        subst (Laid regions base limit)
          (ap (λ k. k ++ b ∷ ys) e ∙ append_assoc front (p ∷ []) (b ∷ ys)) laid in
      subst (Laid (coalesce_left regions b.address) base limit)
        (sym (ap (λ k. rejoin k b ys) e ∙ rejoin-last front p b ys))
        (coalesce_left-last regions base limit front p b ys small divided)
]

absorbing-address : (b : Block) (ys : List Block) → (absorbing b ys).address ≡ b.address
absorbing-address b [] = refl
absorbing-address b (n ∷ ys) = elim (Bool-cases n.available) [
  | inl free ↦ rw free refl
  | inr taken ↦ rw taken refl
]

-- A payload whose owner is the header of a block of a page is freed: the blocks then tile the page as
-- before, but this block is available and one with the block after it and the block before it, if
-- these are available, and no other block changes.
pub free-Laid :
    (store : Store) (base limit : ℕ) (xs : List Block) (b : Block) (ys : List Block) (pointer : ℕ)
    → Laid store.regions base limit (xs ++ b ∷ ys)
    → limit < 2 ^ 64
    → 0 < pointer
    → store.owners pointer ≡ b.address
    → Laid (free store pointer).regions base limit (released xs b ys)
unfolding free
free-Laid store base limit xs b ys pointer laid small pos owner =
    let some_pointer : (pointer == 0) ≡ false = ground (arith, pos) in
    let freed : Block = record b { available = true } in
    let marked = mark-Laid store.regions base limit xs b ys true laid in
    let regions = coalesce_right (mark store.regions b.address true) b.address in
    let right =
      coalesce_right-Laid (mark store.regions b.address true) base limit xs freed ys small marked in
    let left =
      coalesce_left-Laid regions base limit xs (absorbing freed ys) (absorbed ys) small right in
    rw (some_pointer, owner)
      (subst (λ k. Laid (coalesce_left regions k) base limit (released xs b ys))
        (absorbing-address freed ys) left)
