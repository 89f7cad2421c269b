-- ===== src/Memory/Runs.antt =====
-- Runs of allocations and releases on one page.
use nexus_c.Base.{
  ℕ, suc, ◌+◌, ◌^◌, ◌<◌, ◌≤◌, ◌≡◌, ◌≢◌, ◌∙◌, ap, sym, refl, true, update, Option, none, some, List,
  [], ◌∷◌, Option-cases, inl, inr, ◌⊎◌, arith,
}
use mathlib.Core.Path.{subst}
use nexus_c.Memory.{Store, pointer_bytes, search_page, free}
use nexus_c.Memory.Chain.{Block, head_of, Tiles, update-same}
use nexus_c.Memory.Live.{
  present, Payload, Live, new_blocks, taken-Live, old-Held, freed_blocks, freed-Live,
}
use nexus_c.Memory.Members.{In-Tiles, In-Disjoint}
use nexus_c.Memory.Search.{Taken, Searched, search_page-Searched, Tiles-length}
use nexus_c.Memory.Take.{Laid}

-- What a run makes of a page that starts as one available block: the store, and the payloads that were
-- returned and not freed, by the addresses of their headers.
pub data Reaches (base capacity : ℕ) : Store → (ℕ → Option Payload) → Type 0 where
  start :
      (store : Store) (size : ℕ)
      → Laid store.regions base
          (base + capacity)
          (record { address = base; size = size; available = true } ∷ [])
      → Reaches base capacity store (λ owner. none)
  allocated :
      {store : Store} {live : ℕ → Option Payload} (size alignment pointer : ℕ) (after : Store)
      → Reaches base capacity store live
      → base + capacity + alignment + size + pointer_bytes < 2 ^ 64
      → search_page (suc capacity) store base size alignment ≡ some (pointer, after)
      → Reaches base capacity after
          (update live (after.owners pointer) (some (record { pointer = pointer; size = size })))
  freed :
      {store : Store} {live : ℕ → Option Payload} (owner : ℕ) (p : Payload)
      → Reaches base capacity store live
      → base + capacity < 2 ^ 64
      → live owner ≡ some p
      → Reaches base capacity (free store p.pointer) (update live owner none)

head_of-Tiles :
    (base : ℕ) (blocks : List Block) (limit : ℕ)
    → Tiles base blocks limit
    → base < limit
    → head_of blocks 0 ≡ base
head_of-Tiles base [] limit t p = absurd (omega (arith, t, p))
head_of-Tiles base (b ∷ blocks) limit t p = t.0

module _ (base capacity : ℕ) (some_bytes : 0 < capacity) where
  search-Taken :
      (store : Store) (blocks : List Block) (size alignment pointer : ℕ) (after : Store)
      → Laid store.regions base (base + capacity) blocks
      → base + capacity + alignment + size + pointer_bytes < 2 ^ 64
      → search_page (suc capacity) store base size alignment ≡ some (pointer, after)
      → Taken size alignment store base (base + capacity) blocks pointer after
  search-Taken store blocks size alignment pointer after laid small e =
      let tiles = Tiles-length base blocks (base + capacity) laid.tiles in
      let found =
        search_page-Searched size alignment (suc capacity) store base (base + capacity) blocks []
          blocks (omega (arith, tiles)) refl laid small in
      let at = head_of-Tiles base blocks (base + capacity) laid.tiles (omega (arith, some_bytes)) in
      subst (Searched size alignment store base (base + capacity) blocks blocks)
        (ap (λ k. search_page (suc capacity) store k size alignment) at ∙ e) found

  -- After every run the page is tiled, and each live payload lies in a taken block.
  Reaches-Live :
      (store : Store) (live : ℕ → Option Payload)
      → Reaches base capacity store live
      → (blocks : List Block) × Live store base (base + capacity) blocks live
  Reaches-Live store live (start _ size laid) = (
    _,
    record {
      laid = laid;
      payloads = λ owner p e. let gone = ap present e in absurd (ground (arith, gone));
    },
  )
  Reaches-Live store live
        (allocated {store = before} {live = had} size alignment pointer _ run small e) =
      let (blocks, l) = Reaches-Live before had run in
      let t = search-Taken before blocks size alignment pointer store l.laid small e in
      let owner : store.owners pointer ≡ t.block.address =
        ap (λ o. o pointer) t.owners ∙ update-same before.owners pointer t.block.address in
      (
        new_blocks size alignment before base (base + capacity) blocks had pointer store l t,
        subst
            (λ k.
              Live store base (base + capacity)
                (new_blocks size alignment before base (base + capacity) blocks had pointer store l
                  t)
                (update had k (some (record { pointer = pointer; size = size }))))
            (sym owner)
            (taken-Live size alignment before base (base + capacity) blocks had pointer store l t),
      )
  Reaches-Live store live (freed {store = before} {live = had} owner p run small e) =
      let (blocks, l) = Reaches-Live before had run in
      (
        freed_blocks before base (base + capacity) blocks had owner p l e small,
        freed-Live before base (base + capacity) blocks had owner p l e small,
      )

  -- An allocation gives a header that has no live payload.
  fresh :
      (store : Store) (live : ℕ → Option Payload) (size alignment pointer : ℕ) (after : Store)
      → Reaches base capacity store live
      → base + capacity + alignment + size + pointer_bytes < 2 ^ 64
      → search_page (suc capacity) store base size alignment ≡ some (pointer, after)
      → live (after.owners pointer) ≡ none
  fresh store live size alignment pointer after run small e =
      let (blocks, l) = Reaches-Live store live run in
      let t = search-Taken store blocks size alignment pointer after l.laid small e in
      let owner : after.owners pointer ≡ t.block.address =
        ap (λ o. o pointer) t.owners ∙ update-same store.owners pointer t.block.address in
      elim (Option-cases (live (after.owners pointer))) [
        | inl none_there ↦ none_there
        | inr (p, held) ↦ absurd (
            (old-Held size alignment store base (base + capacity) blocks live pointer after l t
                (after.owners pointer) p held).0
              owner)
      ]

  -- After a run of allocations and releases on one page with some bytes, two live payloads with
  -- different headers lie in the page and do not overlap, and the header of the payload that a next
  -- allocation within the address space returns has no live payload.
  pub Reaches-disjoint :
      (store : Store) (live : ℕ → Option Payload)
      → Reaches base capacity store live
      → ((a b : ℕ) (p q : Payload)
          → live a ≡ some p
          → live b ≡ some q
          → a ≢ b
          → (base ≤ p.pointer)
            × (p.pointer + p.size ≤ base + capacity)
            × ((p.pointer + p.size ≤ q.pointer) ⊎ (q.pointer + q.size ≤ p.pointer)))
        × ((size alignment pointer : ℕ) (after : Store)
            → base + capacity + alignment + size + pointer_bytes < 2 ^ 64
            → search_page (suc capacity) store base size alignment ≡ some (pointer, after)
            → live (after.owners pointer) ≡ none)
  Reaches-disjoint store live run =
      let (blocks, l) = Reaches-Live store live run in
      (
        λ a b p q e f differs.
            let h = l.payloads a p e in
            let g = l.payloads b q f in
            let inside = In-Tiles base blocks (base + capacity) h.block l.laid.tiles h.member in
            let apart =
              In-Disjoint base blocks (base + capacity) h.block g.block l.laid.tiles
                (λ same. differs (sym h.address ∙ same ∙ g.address)) h.member g.member in
            (
              omega (arith, inside.0, h.above, h.address),
              omega (arith, inside.1, h.whole, h.address),
              omega (arith, apart, h.above, h.whole, h.address, g.above, g.whole, g.address),
            ),
        λ size alignment pointer after small e.
            fresh store live size alignment pointer after run small e,
      )
