-- ===== src/Memory/Frame.antt =====
-- The headers outside a page, when one of its regions is taken.
use nexus_c.Base.{
  ℕ, ◌+◌, ◌-◌, ◌^◌, ◌<◌, ◌≤◌, ◌≡◌, ◌∙◌, refl, true, false, ltb, ◌==◌, update, u64, List, [], ◌∷◌,
  ◌++◌, Bool-cases, inl, inr, ◌⊎◌, arith,
}
use nexus_c.Memory.{
  Region, Store, region_bytes, pointer_bytes, set_prev, aligned_pointer, required_space, cut_region,
  take_region,
}
use nexus_c.Memory.Chain.{Block, head_of, Tiles, Tiles-append, Tiles-le, Chain-append, update-other}
use nexus_c.Memory.Take.{Laid, required_space-ends}

-- An address outside a stretch of memory.
abbrev pub Outside : ℕ → ℕ → ℕ → Type 0
Outside base limit a = (a < base) ⊎ (limit ≤ a)

set_prev-Outside :
    (regions : ℕ → Region) (at : ℕ) (bs : List Block) (limit prev a : ℕ)
    → Tiles at bs limit
    → Outside at limit a
    → set_prev regions (head_of bs 0) prev a ≡ regions a
set_prev-Outside regions at [] limit prev a t out = refl
set_prev-Outside regions at (b ∷ bs) limit prev a t out =
    let far = Tiles-le (at + region_bytes + b.size) bs limit t.1 in
    elim (Bool-cases (b.address == 0)) [
      | inl null ↦ rw null refl
      | inr some ↦ rw some (
          update-other regions b.address (record (regions b.address) { prev = prev }) a
            (λ e. absurd (omega (arith, e, out, t.0, far))))
    ]

module _ (store : Store) (base limit : ℕ) (xs : List Block) (b : Block) (ys : List Block)
    (size alignment : ℕ) (laid : Laid store.regions base limit (xs ++ b ∷ ys)) where
  cut_region-Outside :
      (new_region required a : ℕ)
      → b.address < new_region
      → new_region < b.address + region_bytes + b.size
        ⊎ (ltb (region_bytes + 32) (b.size - required) ≡ false)
      → Outside base limit a
      → cut_region store.regions b.address new_region required a ≡ store.regions a
  unfolding cut_region
  cut_region-Outside new_region required a above inside out =
      let (middle, l, q) = Tiles-append base xs (b ∷ ys) limit laid.tiles in
      let low = Tiles-le base xs middle l in
      let high = Tiles-le (middle + region_bytes + b.size) ys limit q.1 in
      let m = (Chain-append store.regions 0 xs (b ∷ ys) 0 laid.chain).1.0 in
      elim (Bool-cases (ltb (region_bytes + 32) (b.size - required))) [
        | inl room ↦
            let end : new_region < b.address + region_bytes + b.size =
              ground (arith, inside, room) in
            let first : Region = record {
              byte_size = b.size - required - region_bytes;
              available = true;
              next = head_of ys 0;
              prev = b.address;
            } in
            let added = update store.regions new_region first in
            let linked = set_prev added (head_of ys 0) new_region in
            rw (m.size, m.next_is, room)
              (update-other linked b.address
                  (record (linked b.address) { next = new_region; byte_size = required }) a
                  (λ e. absurd (omega (arith, e, out, low, high, q.0)))
                ∙ set_prev-Outside added (middle + region_bytes + b.size) ys limit new_region a q.1
                    (omega (arith, out, low, high))
                ∙ update-other store.regions new_region first a
                    (λ e. absurd (omega (arith, e, out, low, high, q.0, end, above))))
        | inr whole ↦ rw (m.size, whole) refl
      ]

  pub take_region-Outside :
      required_space b.address size alignment ≤ b.size
      → limit + alignment + size + pointer_bytes < 2 ^ 64
      → (a : ℕ) → Outside base limit a
      → (take_region store b.address size alignment).1.regions a ≡ store.regions a
  unfolding take_region
  take_region-Outside fits small a out =
      let required = required_space b.address size alignment in
      let (middle, l, q) = Tiles-append base xs (b ∷ ys) limit laid.tiles in
      let low = Tiles-le base xs middle l in
      let high = Tiles-le (middle + region_bytes + b.size) ys limit q.1 in
      let ends = required_space-ends b.address size alignment (omega (arith, small, q.0, high)) in
      let new = u64 (aligned_pointer b.address alignment + size) in
      let at : new ≡ b.address + region_bytes + required =
        omega (arith, ends, small, q.0, high, fits) in
      let cut = cut_region store.regions b.address new required in
      update-other cut b.address (record (cut b.address) { available = false }) a
        (λ e. absurd (omega (arith, e, out, low, high, q.0)))
      ∙ cut_region-Outside new required a (omega (arith, at))
          (elim (Bool-cases (ltb (region_bytes + 32) (b.size - required))) [
            | inl room ↦ inl (ground (arith, at, room))
            | inr whole ↦ inr whole
          ])
          out
