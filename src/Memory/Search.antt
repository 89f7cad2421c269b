-- ===== src/Memory/Search.antt =====
-- The search of a page for a region, and the payload that an allocation returns.
use nexus_c.Base.{
  ℕ, zero, suc, ◌+◌, ◌*◌, ◌^◌, ◌<◌, ◌≤◌, ◌≡◌, ◌∙◌, sym, refl, true, false, leb, ◌==◌, ◌&&◌, update,
  Option, none, some, List, [], ◌∷◌, ◌++◌, append_assoc, length, Bool-cases, inl, inr, ◌⊎◌, arith,
}
use mathlib.Core.Path.{subst}
use nexus_c.Memory.{Store, region_bytes, pointer_bytes, required_space, take_region, search_page}
use nexus_c.Memory.Chain.{Block, head_of, Tiles, Tiles-append, Tiles-le, Chain-append}
use nexus_c.Memory.Frame.{take_region-Outside}
use nexus_c.Memory.Take.{
  Laid, Aligned, aligned_pointer-Aligned, required_space-ends, taken, take_region-Laid,
}

pub Tiles-length :
    (at : ℕ) (bs : List Block) (limit : ℕ)
    → Tiles at bs limit
    → at + length bs * region_bytes ≤ limit
Tiles-length at [] limit t = omega (arith, t)
Tiles-length at (b ∷ bs) limit t =
    omega (arith, Tiles-length (at + region_bytes + b.size) bs limit t.1)

module _ (size alignment : ℕ) where
  -- No available block has room.
  abbrev pub AllUnfit : List Block → Type 0
  AllUnfit [] = Unit
  AllUnfit (b ∷ bs) =
      (b.available ≡ true → b.size < required_space b.address size alignment) × AllUnfit bs

  -- The payload lies in an available block that becomes taken, aligned and whole, and its owner is the
  -- header of this block; the other blocks stay as they are.
  pub record Taken (store : Store) (base limit : ℕ) (blocks : List Block) (pointer : ℕ)
      (after : Store) : Type 0 where
    pub front : List Block
    pub block : Block
    pub rest : List Block
    pub split : blocks ≡ front ++ block ∷ rest
    pub was_available : block.available ≡ true
    pub aligned : Aligned block.address alignment pointer
    pub ends :
        pointer + size ≡ block.address + region_bytes + required_space block.address size alignment
    pub whole : pointer + size ≤ block.address + region_bytes + block.size
    pub owners : after.owners ≡ update store.owners pointer block.address
    pub others : (a : ℕ) → (a < base) ⊎ (limit ≤ a) → after.regions a ≡ store.regions a
    pub laid :
        Laid after.regions base limit
          (front ++ (taken block (required_space block.address size alignment) ++ rest))

  -- The result of a search of a part of the blocks.
  abbrev pub Searched : Store → ℕ → ℕ → List Block → List Block → Option (ℕ × Store) → Type 0
  Searched store base limit blocks part none = AllUnfit part
  Searched store base limit blocks part (some (pointer, after)) =
      Taken store base limit blocks pointer after

  take_region-Taken :
      (store : Store) (base limit : ℕ) (blocks xs : List Block) (b : Block) (ys : List Block)
      → blocks ≡ xs ++ b ∷ ys
      → Laid store.regions base limit blocks
      → b.available ≡ true
      → required_space b.address size alignment ≤ b.size
      → limit + alignment + size + pointer_bytes < 2 ^ 64
      → Taken store base limit blocks
          (take_region store b.address size alignment).0
          (take_region store b.address size alignment).1
  take_region-Taken store base limit blocks xs b ys split laid free fits small =
      let divided = subst (Laid store.regions base limit) split laid in
      let (middle, l, q) = Tiles-append base xs (b ∷ ys) limit divided.tiles in
      let inside = Tiles-le (middle + region_bytes + b.size) ys limit q.1 in
      let ends = required_space-ends b.address size alignment (omega (arith, small, q.0, inside)) in
      record {
        front = xs;
        block = b;
        rest = ys;
        split = split;
        was_available = free;
        aligned =
            unfold take_region in
            aligned_pointer-Aligned b.address alignment (omega (arith, small, q.0, inside));
        ends = unfold take_region in ends;
        whole = unfold take_region in omega (arith, ends, fits);
        owners = unfold take_region in refl;
        others = take_region-Outside store base limit xs b ys size alignment divided fits small;
        laid = take_region-Laid store base limit xs b ys size alignment divided fits small;
      }

  Searched-cons :
      (store : Store) (base limit : ℕ) (blocks : List Block) (b : Block) (ys : List Block)
      (r : Option (ℕ × Store))
      → (b.available ≡ true → b.size < required_space b.address size alignment)
      → Searched store base limit blocks ys r
      → Searched store base limit blocks (b ∷ ys) r
  Searched-cons store base limit blocks b ys none unfit s = (unfit, s)
  Searched-cons store base limit blocks b ys (some (pointer, after)) unfit s = s

  pub search_page-Searched :
      (fuel : ℕ) (store : Store) (base limit : ℕ) (blocks xs ys : List Block)
      → length ys < fuel
      → blocks ≡ xs ++ ys
      → Laid store.regions base limit blocks
      → limit + alignment + size + pointer_bytes < 2 ^ 64
      → Searched store base limit blocks ys (search_page fuel store (head_of ys 0) size alignment)
  unfolding search_page
  search_page-Searched zero store base limit blocks xs ys f split laid small =
      absurd (omega (arith, f))
  search_page-Searched (suc fuel) store base limit blocks xs [] f split laid small = tt
  search_page-Searched (suc fuel) store base limit blocks xs (b ∷ ys) f split laid small =
      let divided = subst (Laid store.regions base limit) split laid in
      let (middle, l, q) = Tiles-append base xs (b ∷ ys) limit divided.tiles in
      let low = Tiles-le base xs middle l in
      let some_region : (b.address == 0) ≡ false = ground (arith, low, q.0, laid.pos) in
      let m = (Chain-append store.regions 0 xs (b ∷ ys) 0 divided.chain).1.0 in
      let rest =
        search_page-Searched fuel store base limit blocks (xs ++ b ∷ []) ys (omega (arith, f))
          (split ∙ sym (append_assoc xs (b ∷ []) ys)) laid small in
      let required = required_space b.address size alignment in
      elim (Bool-cases (b.available && leb required b.size)) [
        | inl fit ↦
            rw (some_region, m.available, m.size, fit)
              (take_region-Taken store base limit blocks xs b ys split laid (ground (arith, fit))
                (ground (arith, fit)) small)
        | inr unfit ↦
            rw (some_region, m.available, m.size, unfit, m.next_is)
              (Searched-cons store base limit blocks b ys
                (search_page fuel store (head_of ys 0) size alignment)
                (λ free. ground (arith, unfit, free)) rest)
      ]
