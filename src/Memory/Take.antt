-- ===== src/Memory/Take.antt =====
-- Taking a region of a page: its payload, and the blocks of the page.
use nexus_c.Base.{
  ℕ, ◌+◌, ◌-◌, ◌*◌, ◌/◌, ◌%◌, ◌^◌, ◌<◌, ◌≤◌, ◌≡◌, ◌∙◌, ap, refl, Bool, true, false, if◌then◌else◌,
  ltb, ◌==◌, update, u64, List, [], ◌∷◌, ◌++◌, Bool-cases, inl, inr, arith,
}
use mathlib.Core.Path.{subst}
use native.Mathlib.Nat.{div-add-mod', mul-add-mod_self_right, mod-eq_of_lt, mod-lt, add-mul}
use nexus_c.Memory.{
  Region, Store, region_bytes, pointer_bytes, aligned_pointer, required_space, cut_region,
  take_region,
}
use nexus_c.Memory.Chain.{
  Block, head_of, last_of, Matches, Chain, Tiles, Tiles-append, Tiles-join, Tiles-le, Chain-append,
}
use nexus_c.Memory.Relink.{Chain-update, Chain-cut}

-- The headers in the store are those of blocks that fill a page.
pub record Laid (regions : ℕ → Region) (base limit : ℕ) (blocks : List Block) : Type 0 where
  pub chain : Chain regions 0 blocks 0
  pub tiles : Tiles base blocks limit
  pub pos : 0 < base

next_multiple : (n m : ℕ) → 0 < m → (n + (m - n % m)) % m ≡ 0
next_multiple n m pos =
    let whole : n + (m - n % m) ≡ (n / m + 1) * m + 0 =
      omega (arith, div-add-mod' n m, add-mul (n / m) 1 m, mod-lt n pos) in
    ap (λ k. k % m) whole ∙ mul-add-mod_self_right (n / m + 1) m 0 ∙ mod-eq_of_lt pos

-- The payload of a region.
pub record Aligned (region alignment pointer : ℕ) : Type 0 where
  pub above : region + region_bytes + pointer_bytes ≤ pointer
  pub near : pointer ≤ region + region_bytes + pointer_bytes + alignment
  pub multiple : 0 < alignment → pointer % alignment ≡ 0

pub aligned_pointer-Aligned :
    (region alignment : ℕ)
    → region + region_bytes + pointer_bytes + alignment < 2 ^ 64
    → Aligned region alignment (aligned_pointer region alignment)
unfolding aligned_pointer
aligned_pointer-Aligned region alignment small =
    let raw = region + region_bytes + pointer_bytes in
    let word : u64 (region + region_bytes + pointer_bytes) ≡ raw = omega arith in
    elim (Bool-cases (ltb 0 alignment)) [
      | inr none ↦
          rw (word, none)
            (record {
              above = omega arith;
              near = omega arith;
              multiple = λ p. absurd (ground (arith, none, p));
            })
      | inl some ↦ elim (Bool-cases (raw % alignment == 0)) [
        | inl even ↦
            rw (word, some, even)
              (record {
                above = omega arith;
                near = omega arith;
                multiple = λ p. ground (arith, even);
              })
        | inr odd ↦
            let moved : u64 (raw + (alignment - raw % alignment))
                ≡ raw + (alignment - raw % alignment) =
              omega arith in
            rw (word, some, odd, moved)
              (record {
                above = omega arith;
                near = omega arith;
                multiple = λ p. next_multiple raw alignment p;
              })
      ]
    ]

-- The block that is cut off.
abbrev pub cut_off : Block → ℕ → Block
cut_off b required = record {
  address = b.address + region_bytes + required;
  size = b.size - required - region_bytes;
  available = true;
}

-- What becomes of a block of which so many bytes are taken.
abbrev pub taken : Block → ℕ → List Block
taken b required =
    if ltb (region_bytes + 32) (b.size - required)
    then record b { size = required; available = false } ∷ cut_off b required ∷ []
    else record b { available = false } ∷ []

-- The bytes that are taken end with the payload.
pub required_space-ends :
    (region size alignment : ℕ)
    → region + region_bytes + pointer_bytes + alignment + size < 2 ^ 64
    → aligned_pointer region alignment + size
      ≡ region + region_bytes + required_space region size alignment
unfolding required_space
required_space-ends region size alignment small =
    let a = aligned_pointer-Aligned region alignment (omega arith) in omega (arith, a.above, a.near)

abbrev pub mark : (ℕ → Region) → ℕ → Bool → ℕ → Region
mark regions at value = update regions at (record (regions at) { available = value })

-- A header is marked as available or taken.
pub mark-Laid :
    (regions : ℕ → Region) (base limit : ℕ) (xs : List Block) (b : Block) (ys : List Block)
    (value : Bool)
    → Laid regions base limit (xs ++ b ∷ ys)
    → Laid (mark regions b.address value) base limit (xs ++ record b { available = value } ∷ ys)
mark-Laid regions base limit xs b ys value laid =
    let (middle, l, q) = Tiles-append base xs (b ∷ ys) limit laid.tiles in
    let m = (Chain-append regions 0 xs (b ∷ ys) 0 laid.chain).1.0 in
    let changed : Matches (record (regions b.address) { available = value }) (last_of 0 xs)
        (head_of ys 0) (record b { available = value }) =
      record { size = m.size; available = refl; next_is = m.next_is; prev_is = m.prev_is } in
    record {
      chain =
          Chain-update regions 0 base xs limit b ys 0
            (record (regions b.address) { available = value }) (record b { available = value })
            laid.tiles laid.chain refl changed;
      tiles = Tiles-join base xs (record b { available = value } ∷ ys) middle limit l q;
      pos = laid.pos;
    }

module _ (store : Store) (base limit : ℕ) (xs : List Block) (b : Block) (ys : List Block)
    (size alignment : ℕ) (laid : Laid store.regions base limit (xs ++ b ∷ ys)) where
  cut-Laid :
      (required : ℕ)
      → ltb (region_bytes + 32) (b.size - required) ≡ true
      → Laid
          (cut_region store.regions b.address (b.address + region_bytes + required) required)
          base
          limit
          (xs ++ record b { size = required } ∷ cut_off b required ∷ ys)
  unfolding cut_region
  cut-Laid required room =
      let (middle, l, q) = Tiles-append base xs (b ∷ ys) limit laid.tiles in
      let m = (Chain-append store.regions 0 xs (b ∷ ys) 0 laid.chain).1.0 in
      let end : middle + region_bytes + b.size
          ≡ middle + region_bytes + required + region_bytes + (b.size - required - region_bytes) =
        ground (arith, room) in
      record {
        chain =
            rw (m.size, m.next_is, room)
              (Chain-cut store.regions 0 base xs limit b ys required (cut_off b required) laid.pos
                laid.tiles laid.chain refl (ground (arith, room)));
        tiles =
            Tiles-join base xs (record b { size = required } ∷ cut_off b required ∷ ys) middle limit
              l (q.0, (omega (arith, q.0), subst (λ k. Tiles k ys limit) end q.1));
        pos = laid.pos;
      }

  uncut :
      (new_region required : ℕ)
      → ltb (region_bytes + 32) (b.size - required) ≡ false
      → cut_region store.regions b.address new_region required ≡ store.regions
  unfolding cut_region
  uncut new_region required whole =
      let m = (Chain-append store.regions 0 xs (b ∷ ys) 0 laid.chain).1.0 in rw (m.size, whole) refl

  -- The pages after a region is taken for a payload that fits in it.
  pub take_region-Laid :
      required_space b.address size alignment ≤ b.size
      → limit + alignment + size + pointer_bytes < 2 ^ 64
      → Laid
          (take_region store b.address size alignment).1.regions
          base
          limit
          (xs ++ (taken b (required_space b.address size alignment) ++ ys))
  unfolding take_region
  take_region-Laid fits small =
      let required = required_space b.address size alignment in
      let (middle, l, q) = Tiles-append base xs (b ∷ ys) limit laid.tiles in
      let inside = Tiles-le (middle + region_bytes + b.size) ys limit q.1 in
      let m = (Chain-append store.regions 0 xs (b ∷ ys) 0 laid.chain).1.0 in
      let ends = required_space-ends b.address size alignment (omega (arith, small, q.0, inside)) in
      let new : u64 (aligned_pointer b.address alignment + size)
          ≡ b.address + region_bytes + required =
        omega (arith, ends, small, q.0, inside, fits) in
      elim (Bool-cases (ltb (region_bytes + 32) (b.size - required))) [
        | inl room ↦
            rw (new, room)
              (mark-Laid
                (cut_region store.regions b.address (b.address + region_bytes + required) required)
                base limit xs (record b { size = required }) (cut_off b required ∷ ys) false
                (cut-Laid required room))
        | inr whole ↦
            rw (uncut (u64 (aligned_pointer b.address alignment + size)) required whole, whole)
              (mark-Laid store.regions base limit xs b ys false laid)
      ]
