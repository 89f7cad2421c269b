-- ===== src/Memory/Members.antt =====
-- The blocks of a tiling: which of them are disjoint, and which stay where another one is released.
use nexus_c.Base.{
  ℕ, ◌+◌, ◌≤◌, ◌≡◌, ◌≢◌, ◌∙◌, ap, sym, true, false, if◌then◌else◌, List, [], ◌∷◌, ◌++◌, Bool-cases,
  inl, inr, ◌⊎◌, arith,
}
use mathlib.Core.Path.{subst}
use nexus_c.Memory.{region_bytes}
use nexus_c.Memory.Chain.{Block, Tiles, Tiles-le, Tiles-append}
use nexus_c.Memory.Release.{joined, absorbing, absorbed, rejoin, released}

-- Membership of a block.
abbrev pub In : Block → List Block → Type 0
In c [] = ⊥
In c (b ∷ bs) = (c ≡ b) ⊎ In c bs

pub In-left : (c : Block) (xs ys : List Block) → In c xs → In c (xs ++ ys)
In-left c [] ys i = elim i [ ]
In-left c (x ∷ xs) ys (inl e) = inl e
In-left c (x ∷ xs) ys (inr i) = inr (In-left c xs ys i)

pub In-right : (c : Block) (xs ys : List Block) → In c ys → In c (xs ++ ys)
In-right c [] ys i = i
In-right c (x ∷ xs) ys i = inr (In-right c xs ys i)

In-append : (c : Block) (xs ys : List Block) → In c (xs ++ ys) → In c xs ⊎ In c ys
In-append c [] ys i = inr i
In-append c (x ∷ xs) ys (inl e) = inl (inl e)
In-append c (x ∷ xs) ys (inr i) = elim (In-append c xs ys i) [ inl l ↦ inl (inr l) | inr r ↦ inr r ]

-- A block of a tiling lies between its ends.
pub In-Tiles :
    (at : ℕ) (bs : List Block) (limit : ℕ) (c : Block)
    → Tiles at bs limit
    → In c bs
    → (at ≤ c.address) × (c.address + region_bytes + c.size ≤ limit)
In-Tiles at [] limit c t i = elim i [ ]
In-Tiles at (b ∷ bs) limit c t (inl e) =
    let far = Tiles-le (at + region_bytes + b.size) bs limit t.1 in
    (
      omega (arith, t.0, ap (λ k. k.address) e),
      omega (arith, t.0, far, ap (λ k. k.address) e, ap (λ k. k.size) e),
    )
In-Tiles at (b ∷ bs) limit c t (inr i) =
    let inside = In-Tiles (at + region_bytes + b.size) bs limit c t.1 i in
    (omega (arith, inside.0), inside.1)

-- The other blocks end before a block or start after it.
abbrev pub Disjoint : Block → Block → Type 0
Disjoint c b =
    (c.address + region_bytes + c.size ≤ b.address)
    ⊎ (b.address + region_bytes + b.size ≤ c.address)

pub In-others :
    (base limit : ℕ) (xs : List Block) (b : Block) (ys : List Block) (c : Block)
    → Tiles base (xs ++ b ∷ ys) limit
    → ¬ (c ≡ b)
    → In c (xs ++ b ∷ ys)
    → (In c xs ⊎ In c ys) × Disjoint c b
In-others base limit xs b ys c t other i =
    let (middle, l, q) = Tiles-append base xs (b ∷ ys) limit t in
    elim (In-append c xs (b ∷ ys) i) [
      | inl left ↦ (inl left, inl (omega (arith, (In-Tiles base xs middle c l left).1, q.0)))
      | inr (inl e) ↦ absurd (other e)
      | inr (inr right) ↦ (
        inr right,
        inr (
            omega (arith, (In-Tiles (middle + region_bytes + b.size) ys limit c q.1 right).0, q.0)),
      )
    ]

-- Two blocks of a tiling with different addresses.
pub In-Disjoint :
    (at : ℕ) (bs : List Block) (limit : ℕ) (c b : Block)
    → Tiles at bs limit
    → c.address ≢ b.address
    → In c bs
    → In b bs
    → Disjoint c b
In-Disjoint at [] limit c b t other i j = elim i [ ]
In-Disjoint at (x ∷ bs) limit c b t other (inl e) (inl f) =
    absurd (other (ap (λ k. k.address) (e ∙ sym f)))
In-Disjoint at (x ∷ bs) limit c b t other (inl e) (inr j) = inl (
    omega (
      arith,
      (In-Tiles (at + region_bytes + x.size) bs limit b t.1 j).0,
      t.0,
      ap (λ k. k.address) e,
      ap (λ k. k.size) e,
    ))
In-Disjoint at (x ∷ bs) limit c b t other (inr i) (inl f) = inr (
    omega (
      arith,
      (In-Tiles (at + region_bytes + x.size) bs limit c t.1 i).0,
      t.0,
      ap (λ k. k.address) f,
      ap (λ k. k.size) f,
    ))
In-Disjoint at (x ∷ bs) limit c b t other (inr i) (inr j) =
    In-Disjoint (at + region_bytes + x.size) bs limit c b t.1 other i j

-- A block that is taken survives a release next to it.
In-absorbed : (c : Block) (ys : List Block) → c.available ≡ false → In c ys → In c (absorbed ys)
In-absorbed c [] held i = i
In-absorbed c (n ∷ ys) held i = elim (Bool-cases n.available) [
  | inr stays ↦ subst (λ v. In c (if v then ys else n ∷ ys)) (sym stays) i
  | inl goes ↦
      subst (λ v. In c (if v then ys else n ∷ ys)) (sym goes)
        (elim i [
          | inl e ↦ absurd (ground (arith, held, goes, ap (λ k. k.available) e))
          | inr j ↦ j
        ])
]

In-rejoin_left :
    (c : Block) (xs : List Block) (b : Block) (ys : List Block)
    → c.available ≡ false
    → In c xs
    → In c (rejoin xs b ys)
In-rejoin_left c [] b ys held i = elim i [ ]
In-rejoin_left c (p ∷ []) b ys held i = elim (Bool-cases p.available) [
  | inr stays ↦
      subst (λ v. In c (if v then joined p b ∷ ys else p ∷ b ∷ ys)) (sym stays)
        (In-left c (p ∷ []) (b ∷ ys) i)
  | inl goes ↦ elim i [
    | inl e ↦ absurd (ground (arith, held, goes, ap (λ k. k.available) e))
    | inr j ↦ elim j [ ]
  ]
]
In-rejoin_left c (p ∷ q ∷ xs) b ys held (inl e) = inl e
In-rejoin_left c (p ∷ q ∷ xs) b ys held (inr i) = inr (In-rejoin_left c (q ∷ xs) b ys held i)

In-rejoin_right :
    (c : Block) (xs : List Block) (b : Block) (ys : List Block) → In c ys → In c (rejoin xs b ys)
In-rejoin_right c [] b ys i = inr i
In-rejoin_right c (p ∷ []) b ys i = elim (Bool-cases p.available) [
  | inl goes ↦ subst (λ v. In c (if v then joined p b ∷ ys else p ∷ b ∷ ys)) (sym goes) (inr i)
  | inr stays ↦
      subst (λ v. In c (if v then joined p b ∷ ys else p ∷ b ∷ ys)) (sym stays) (inr (inr i))
]
In-rejoin_right c (p ∷ q ∷ xs) b ys i = inr (In-rejoin_right c (q ∷ xs) b ys i)

pub In-released :
    (c : Block) (xs : List Block) (b : Block) (ys : List Block)
    → c.available ≡ false
    → In c xs ⊎ In c ys
    → In c (released xs b ys)
In-released c xs b ys held (inl i) =
    In-rejoin_left c xs (absorbing (record b { available = true }) ys) (absorbed ys) held i
In-released c xs b ys held (inr i) =
    In-rejoin_right c xs (absorbing (record b { available = true }) ys) (absorbed ys)
      (In-absorbed c ys held i)

pub In-split :
    (c : Block) (bs : List Block)
    → In c bs
    → (xs : List Block) × (ys : List Block) × (bs ≡ xs ++ c ∷ ys)
In-split c [] i = elim i [ ]
In-split c (b ∷ bs) (inl e) = ([], bs, ap (λ k. k ∷ bs) (sym e))
In-split c (b ∷ bs) (inr i) = let (xs, ys, e) = In-split c bs i in (b ∷ xs, ys, ap (λ k. b ∷ k) e)
