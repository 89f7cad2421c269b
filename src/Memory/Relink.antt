-- ===== src/Memory/Relink.antt =====
-- What the writes of the allocator do to a chain: a header changes, two blocks become one, one block
-- becomes two.
use nexus_c.Base.{
  ℕ, ◌+◌, ◌<◌, ◌≡◌, ◌≢◌, ◌∙◌, ap, sym, refl, false, ◌==◌, update, List, [], ◌∷◌, ◌++◌, arith,
}
use mathlib.Core.Path.{subst}
use nexus_c.Memory.{Region, region_bytes, set_prev}
use nexus_c.Memory.Chain.{
  update-same, update-other, Block, head_of, last_of, Matches, Chain, Tiles, Tiles-le, Tiles-append,
  Chain-append, Chain-join, Chain-agrees, Chain-set_prev,
}

-- A new predecessor of what comes after an address changes no header before it.
set_prev-before :
    (regions : ℕ → Region) (at : ℕ) (bs : List Block) (limit prev a : ℕ)
    → Tiles at bs limit
    → a < at
    → set_prev regions (head_of bs 0) prev a ≡ regions a
set_prev-before regions at [] limit prev a t p = refl
set_prev-before regions at (b ∷ bs) limit prev a t p =
    let some_address : (b.address == 0) ≡ false = ground (arith, t.0, p) in
    rw some_address (
      update-other regions b.address (record (regions b.address) { prev = prev }) a
        (λ e. absurd (omega (arith, e, p, t.0))))

module _ (regions : ℕ → Region) (before at : ℕ) (xs : List Block) (limit : ℕ) where
  -- The header of one block changes, but not its links.
  pub Chain-update :
      (b : Block) (ys : List Block) (after : ℕ) (r : Region) (b' : Block)
      → Tiles at (xs ++ b ∷ ys) limit
      → Chain regions before (xs ++ b ∷ ys) after
      → b'.address ≡ b.address
      → Matches r (last_of before xs) (head_of ys after) b'
      → Chain (update regions b.address r) before (xs ++ b' ∷ ys) after
  Chain-update b ys after r b' t c e m =
      let (middle, l, q) = Tiles-append at xs (b ∷ ys) limit t in
      let (front, back) = Chain-append regions before xs (b ∷ ys) after c in
      let here : update regions b.address r b'.address ≡ r =
        ap (update regions b.address r) e ∙ update-same regions b.address r in
      Chain-join (update regions b.address r) before xs (b' ∷ ys) after
        (subst (Chain (update regions b.address r) before xs) (sym e) (
          Chain-agrees regions (update regions b.address r) before at xs middle b.address l
            (λ a p s. update-other regions b.address r a (λ k. absurd (omega (arith, k, s, q.0))))
            front))
        (
          subst (λ k. Matches k (last_of before xs) (head_of ys after) b') (sym here) m,
          subst (λ k. Chain (update regions b.address r) k ys after) (sym e)
              (Chain-agrees regions (update regions b.address r) b.address
                (middle + region_bytes + b.size) ys limit after q.1
                (λ a p s.
                  update-other regions b.address r a (λ k. absurd (omega (arith, k, p, q.0))))
                back.1),
        )

  -- A block takes in the next one.
  pub Chain-merge :
      (b n : Block) (ys : List Block) (size : ℕ)
      → 0 < at
      → Tiles at (xs ++ b ∷ n ∷ ys) limit
      → Chain regions before (xs ++ b ∷ n ∷ ys) 0
      → Chain
          (set_prev
            (update regions b.address
              (record (regions b.address) { byte_size = size; next = head_of ys 0 }))
            (head_of ys 0)
            b.address)
          before
          (xs ++ record b { size = size } ∷ ys)
          0
  Chain-merge b n ys size pos t c =
      let (middle, l, q) = Tiles-append at xs (b ∷ n ∷ ys) limit t in
      let (front, back) = Chain-append regions before xs (b ∷ n ∷ ys) 0 c in
      let r : Region = record (regions b.address) { byte_size = size; next = head_of ys 0 } in
      let grown = update regions b.address r in
      let final = set_prev grown (head_of ys 0) b.address in
      let end = middle + region_bytes + b.size + region_bytes + n.size in
      let start = Tiles-le at xs middle l in
      let untouched : (a : ℕ) → a < end → final a ≡ grown a =
        λ a p. set_prev-before grown end ys limit b.address a q.1.1 p in
      let here : final b.address ≡ r =
        untouched b.address (omega (arith, q.0)) ∙ update-same regions b.address r in
      let m = back.0 in
      let match : Matches r (last_of before xs) (head_of ys 0) (record b { size = size }) = record {
        size = refl;
        available = m.available;
        next_is = refl;
        prev_is = m.prev_is;
      } in
      let rest : Chain grown n.address ys 0 =
        Chain-agrees regions grown n.address end ys limit 0 q.1.1
          (λ a p s. update-other regions b.address r a (λ k. absurd (omega (arith, k, p, q.0))))
          back.1.1 in
      Chain-join final before xs (record b { size = size } ∷ ys) 0
        (Chain-agrees regions final before at xs middle b.address l
          (λ a p s.
            untouched a (omega (arith, s))
            ∙ update-other regions b.address r a (λ k. absurd (omega (arith, k, s, q.0))))
          front)
        (
          subst (λ k. Matches k (last_of before xs) (head_of ys 0) (record b { size = size }))
              (sym here) match,
          Chain-set_prev grown n.address end ys limit 0 b.address (omega (arith, pos, start)) q.1.1
              rest,
        )

  -- A block is cut in two.
  pub Chain-cut :
      (b : Block) (ys : List Block) (size : ℕ) (new : Block)
      → 0 < at
      → Tiles at (xs ++ b ∷ ys) limit
      → Chain regions before (xs ++ b ∷ ys) 0
      → new.address ≡ b.address + region_bytes + size
      → size < b.size
      → let first : Region = record {
        byte_size = new.size;
        available = new.available;
        next = head_of ys 0;
        prev = b.address;
      } in
        let linked = set_prev (update regions new.address first) (head_of ys 0) new.address in
        Chain
          (update linked b.address
            (record (linked b.address) { next = new.address; byte_size = size }))
          before
          (xs ++ record b { size = size } ∷ new ∷ ys)
          0
  Chain-cut b ys size new pos t c e inside =
      let (middle, l, q) = Tiles-append at xs (b ∷ ys) limit t in
      let (front, back) = Chain-append regions before xs (b ∷ ys) 0 c in
      let first : Region = record {
        byte_size = new.size;
        available = new.available;
        next = head_of ys 0;
        prev = b.address;
      } in
      let added = update regions new.address first in
      let linked = set_prev added (head_of ys 0) new.address in
      let r : Region = record (linked b.address) { next = new.address; byte_size = size } in
      let final = update linked b.address r in
      let end = middle + region_bytes + b.size in
      let start = Tiles-le at xs middle l in
      let old : (a : ℕ) → a < end → a ≢ new.address → linked a ≡ regions a = λ a p s.
        set_prev-before added end ys limit new.address a q.1 p
        ∙ update-other regions new.address first a s in
      let here : linked b.address ≡ regions b.address =
        old b.address (omega (arith, q.0)) (λ k. absurd (omega (arith, k, e))) in
      let there : final new.address ≡ first =
        update-other linked b.address r new.address (λ k. absurd (omega (arith, k, e)))
        ∙ set_prev-before added end ys limit new.address new.address q.1
            (omega (arith, e, inside, q.0))
        ∙ update-same regions new.address first in
      let m = back.0 in
      let match : Matches r (last_of before xs) new.address (record b { size = size }) = record {
        size = refl;
        available = ap (λ k. k.available) here ∙ m.available;
        next_is = refl;
        prev_is = ap (λ k. k.prev) here ∙ m.prev_is;
      } in
      let match_new : Matches first b.address (head_of ys 0) new = record {
        size = refl;
        available = refl;
        next_is = refl;
        prev_is = refl;
      } in
      let rest : Chain added b.address ys 0 =
        Chain-agrees regions added b.address end ys limit 0 q.1
          (λ a p s.
            update-other regions new.address first a
              (λ k. absurd (omega (arith, k, p, e, inside, q.0))))
          back.1 in
      let relinked : Chain linked new.address ys 0 =
        Chain-set_prev added b.address end ys limit 0 new.address (omega (arith, pos, start)) q.1
          rest in
      Chain-join final before xs (record b { size = size } ∷ new ∷ ys) 0
        (Chain-agrees regions final before at xs middle b.address l
          (λ a p s.
            update-other linked b.address r a (λ k. absurd (omega (arith, k, s, q.0)))
            ∙ old a (omega (arith, s)) (λ k. absurd (omega (arith, k, s, e, q.0))))
          front)
        (
          subst (λ k. Matches k (last_of before xs) new.address (record b { size = size }))
              (sym (update-same linked b.address r)) match,
          (
            subst (λ k. Matches k b.address (head_of ys 0) new) (sym there) match_new,
            Chain-agrees linked final new.address end ys limit 0 q.1
                (λ a p s.
                  update-other linked b.address r a (λ k. absurd (omega (arith, k, p, q.0))))
                relinked,
          ),
        )
