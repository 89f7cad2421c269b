-- ===== src/Memory/Chain.antt =====
-- Chains of region headers in the store, and the blocks of memory that they stand for.
use nexus_c.Base.{
  ℕ, ◌+◌, ◌<◌, ◌≤◌, ◌≡◌, ◌≢◌, sym, refl, Bool, true, false, ◌==◌, update, List, [], ◌∷◌, ◌++◌,
  arith,
}
use mathlib.Core.Path.{subst}
use nexus_c.Memory.{Region, region_bytes, set_prev}

-- Reading an array after a write to one place.
pub update-same {ℓ} : {A : Type ℓ} (f : ℕ → A) (i : ℕ) (a : A) → update f i a i ≡ a
update-same f i a = let e : (i == i) ≡ true = ground arith in rw e refl

pub update-other {ℓ} :
    {A : Type ℓ} (f : ℕ → A) (i : ℕ) (a : A) (j : ℕ) → j ≢ i → update f i a j ≡ f j
update-other f i a j h = let e : (j == i) ≡ false = ground (arith, h) in rw e refl

-- A block: the address of its header, the bytes behind it, and whether they are available.
pub record Block : Type 0 where
  pub address : ℕ
  pub size : ℕ
  pub available : Bool

-- The first address of a run of blocks, or what comes after it.
abbrev pub head_of : List Block → ℕ → ℕ
head_of [] after = after
head_of (b ∷ bs) after = b.address

-- The last address of a run of blocks, or what comes before it.
abbrev pub last_of : ℕ → List Block → ℕ
last_of before [] = before
last_of before (b ∷ bs) = last_of b.address bs

pub record Matches (r : Region) (prev next : ℕ) (b : Block) : Type 0 where
  pub size : r.byte_size ≡ b.size
  pub available : r.available ≡ b.available
  pub next_is : r.next ≡ next
  pub prev_is : r.prev ≡ prev

-- The headers of the blocks, linked both ways.
abbrev pub Chain : (ℕ → Region) → ℕ → List Block → ℕ → Type 0
Chain regions before [] after = Unit
Chain regions before (b ∷ bs) after =
    Matches (regions b.address) before (head_of bs after) b × Chain regions b.address bs after

-- The blocks fill the memory from one address to another, without gaps or overlaps.
abbrev pub Tiles : ℕ → List Block → ℕ → Type 0
Tiles at [] limit = at ≡ limit
Tiles at (b ∷ bs) limit = (b.address ≡ at) × Tiles (at + region_bytes + b.size) bs limit

pub Tiles-le : (at : ℕ) (bs : List Block) (limit : ℕ) → Tiles at bs limit → at ≤ limit
Tiles-le at [] limit t = omega (arith, t)
Tiles-le at (b ∷ bs) limit t = omega (arith, Tiles-le (at + region_bytes + b.size) bs limit t.1)

pub Tiles-append :
    (at : ℕ) (xs ys : List Block) (limit : ℕ)
    → Tiles at (xs ++ ys) limit
    → (middle : ℕ) × Tiles at xs middle × Tiles middle ys limit
Tiles-append at [] ys limit t = (at, refl, t)
Tiles-append at (x ∷ xs) ys limit t =
    let (middle, l, r) = Tiles-append (at + region_bytes + x.size) xs ys limit t.1 in
    (middle, (t.0, l), r)

pub Tiles-join :
    (at : ℕ) (xs ys : List Block) (middle limit : ℕ)
    → Tiles at xs middle
    → Tiles middle ys limit
    → Tiles at (xs ++ ys) limit
Tiles-join at [] ys middle limit l r = subst (λ k. Tiles k ys limit) (sym l) r
Tiles-join at (x ∷ xs) ys middle limit l r =
    (l.0, Tiles-join (at + region_bytes + x.size) xs ys middle limit l.1 r)

pub Chain-append :
    (regions : ℕ → Region) (before : ℕ) (xs ys : List Block) (after : ℕ)
    → Chain regions before (xs ++ ys) after
    → Chain regions before xs (head_of ys after) × Chain regions (last_of before xs) ys after
Chain-append regions before [] ys after c = (tt, c)
Chain-append regions before (x ∷ []) ys after c = ((c.0, tt), c.1)
Chain-append regions before (x ∷ x' ∷ xs) ys after c =
    let (l, r) = Chain-append regions x.address (x' ∷ xs) ys after c.1 in ((c.0, l), r)

pub Chain-join :
    (regions : ℕ → Region) (before : ℕ) (xs ys : List Block) (after : ℕ)
    → Chain regions before xs (head_of ys after)
    → Chain regions (last_of before xs) ys after
    → Chain regions before (xs ++ ys) after
Chain-join regions before [] ys after l r = r
Chain-join regions before (x ∷ []) ys after l r = (l.0, r)
Chain-join regions before (x ∷ x' ∷ xs) ys after l r =
    (l.0, Chain-join regions x.address (x' ∷ xs) ys after l.1 r)

-- Two stores that agree between two addresses have the same chains there.
pub Chain-agrees :
    (regions other : ℕ → Region) (before at : ℕ) (bs : List Block) (limit after : ℕ)
    → Tiles at bs limit
    → ((a : ℕ) → at ≤ a → a < limit → other a ≡ regions a)
    → Chain regions before bs after
    → Chain other before bs after
Chain-agrees regions other before at [] limit after t same c = tt
Chain-agrees regions other before at (b ∷ bs) limit after t same c =
    let far = Tiles-le (at + region_bytes + b.size) bs limit t.1 in
    (
      subst (λ r. Matches r before (head_of bs after) b)
          (sym (same b.address (omega (arith, t.0)) (omega (arith, t.0, far)))) c.0,
      Chain-agrees regions other b.address (at + region_bytes + b.size) bs limit after t.1
          (λ a p q. same a (omega (arith, p)) q) c.1,
    )

last_of-lt :
    (before at : ℕ) (bs : List Block) (limit : ℕ)
    → Tiles at bs limit
    → before < at
    → last_of before bs < limit
last_of-lt before at [] limit t p = omega (arith, t, p)
last_of-lt before at (b ∷ bs) limit t p =
    last_of-lt b.address (at + region_bytes + b.size) bs limit t.1 (omega (arith, t.0))

-- The first header of a run gets another predecessor, and nothing else of the run changes.
pub Chain-set_prev :
    (regions : ℕ → Region) (before at : ℕ) (bs : List Block) (limit after prev : ℕ)
    → 0 < at
    → Tiles at bs limit
    → Chain regions before bs after
    → Chain (set_prev regions (head_of bs 0) prev) prev bs after
Chain-set_prev regions before at [] limit after prev pos t c = tt
Chain-set_prev regions before at (b ∷ bs) limit after prev pos t c =
    let some_address : (b.address == 0) ≡ false = ground (arith, t.0) in
    let m = c.0 in
    let first : set_prev regions b.address prev b.address
        ≡ record (regions b.address) { prev = prev } =
      rw some_address
        (update-same regions b.address (record (regions b.address) { prev = prev })) in
    let other : (a : ℕ)
        → at + region_bytes + b.size ≤ a
        → set_prev regions b.address prev a ≡ regions a =
      λ a p. rw some_address (
        update-other regions b.address (record (regions b.address) { prev = prev }) a
          (omega (arith, p, t.0))) in
    let changed : Matches (record (regions b.address) { prev = prev }) prev (head_of bs after) b =
      record { size = m.size; available = m.available; next_is = m.next_is; prev_is = refl } in
    (
      subst (λ r. Matches r prev (head_of bs after) b) (sym first) changed,
      Chain-agrees regions (set_prev regions b.address prev) b.address (at + region_bytes + b.size)
          bs limit after t.1 (λ a p q. other a p) c.1,
    )
