-- ===== src/Memory/Malloc.antt =====
-- The allocation on all pages (nexus_memory_paged_allocator_malloc): the pages as they are, and one more.
use nexus_c.Base.{
  ℕ, ◌+◌, ◌-◌, ◌^◌, ◌<◌, ◌≤◌, ◌≡◌, ◌∙◌, ap, refl, true, false, ltb, ◌==◌, u64, update, Option, some,
  List, [], ◌∷◌, ◌++◌, Option-cases, inl, inr, ◌⊎◌, arith,
}
use mathlib.Core.Path.{subst}
use nexus_c.Memory.{
  Store, Page, PagedAllocator, region_bytes, page_bytes, pointer_bytes, whole_words, search_pages,
  initial_region, page_create, page_store, allocate_loop, malloc,
}
use nexus_c.Memory.Chain.{update-same, update-other}
use nexus_c.Memory.Pages.{
  Layout, limit_of, pages_of, Apart, AllApart, AllLaid, AllSmall, PageLaid, PageLaid-agrees,
  PageTaken, NoneFits, PagesSearched, search_pages-PagesSearched,
}
use nexus_c.Memory.Search.{AllUnfit}
use nexus_c.Memory.Take.{aligned_pointer-Aligned, required_space-ends}

-- A page as it is created.
abbrev pub new_layout : ℕ → ℕ → Layout
new_layout address page_size = record {
  page = page_create address page_size;
  blocks =
      record { address = address + page_bytes; size = page_size - region_bytes; available = true }
      ∷ [];
}

AllApart-last :
    (p : Page) (lays : List Layout) (l : Layout)
    → AllApart p lays
    → Apart p l.page
    → AllApart p (lays ++ l ∷ [])
AllApart-last p [] l apart last = (last, tt)
AllApart-last p (k ∷ lays) l apart last = (apart.0, AllApart-last p lays l apart.1 last)

AllSmall-last :
    (size alignment : ℕ) (lays : List Layout) (l : Layout)
    → AllSmall size alignment lays
    → limit_of l.page + alignment + size + pointer_bytes < 2 ^ 64
    → AllSmall size alignment (lays ++ l ∷ [])
AllSmall-last size alignment [] l small last = (last, tt)
AllSmall-last size alignment (k ∷ lays) l small last =
    (small.0, AllSmall-last size alignment lays l small.1 last)

NoneFits-last :
    (size alignment : ℕ) (lays : List Layout) (l : Layout)
    → NoneFits size alignment (lays ++ l ∷ [])
    → AllUnfit size alignment l.blocks
NoneFits-last size alignment [] l f = f.0
NoneFits-last size alignment (k ∷ lays) l f = NoneFits-last size alignment lays l f.1

pages_of-last :
    (lays : List Layout) (l : Layout) → pages_of lays ++ (l.page ∷ []) ≡ pages_of (lays ++ l ∷ [])
pages_of-last [] l = refl
pages_of-last (k ∷ lays) l = ap (λ ps. k.page ∷ ps) (pages_of-last lays l)

module _ (address page_size : ℕ) (room : region_bytes ≤ page_size) (word : page_size < 2 ^ 64) where
  pub new-PageLaid :
      (store : Store)
      → PageLaid (page_store address page_size store).regions (new_layout address page_size)
  unfolding page_store page_create
  new-PageLaid store =
      let size : u64 (page_size + 2 ^ 64 - region_bytes) ≡ page_size - region_bytes =
        omega (arith, room, word) in
      let here = update-same store.regions (address + page_bytes) (initial_region page_size) in
      record {
        first = refl;
        laid = record {
          chain = (
            record {
              size = ap (λ r. r.byte_size) here ∙ size;
              available = ap (λ r. r.available) here;
              next_is = ap (λ r. r.next) here;
              prev_is = ap (λ r. r.prev) here;
            },
            tt,
          );
          tiles = (refl, omega (arith, room));
          pos = omega arith;
        };
      }

  AllLaid-last :
      (store : Store) (lays : List Layout)
      → AllLaid store.regions lays
      → AllApart (page_create address page_size) lays
      → AllLaid
          (page_store address page_size store).regions
          (lays ++ new_layout address page_size ∷ [])
  unfolding page_store page_create
  AllLaid-last store [] laid apart = (new-PageLaid store, tt, tt)
  AllLaid-last store (l ∷ lays) laid apart = (
    PageLaid-agrees store.regions
        (update store.regions (address + page_bytes) (initial_region page_size)) l
        (λ a low high.
          update-other store.regions (address + page_bytes) (initial_region page_size) a
            (λ e. absurd (ground (arith, e, apart.0, low, high, room))))
        laid.0,
    AllApart-last l.page lays (new_layout address page_size) laid.1 (ground (arith, apart.0)),
    AllLaid-last store lays laid.2 apart.1,
  )

-- The new page has an available block with room for every request that passes the test of the size.
new_fits :
    (size alignment address page_size : ℕ)
    → size + pointer_bytes + alignment + region_bytes ≤ page_size
    → address + page_bytes + page_size + alignment + size + pointer_bytes < 2 ^ 64
    → ¬ (AllUnfit size alignment (new_layout address page_size).blocks)
new_fits size alignment address page_size room small unfit =
    let at = address + page_bytes in
    let a = aligned_pointer-Aligned at alignment (omega (arith, small, room)) in
    let ends = required_space-ends at size alignment (omega (arith, small, room)) in
    absurd (omega (arith, unfit.0 refl, ends, a.near, room))

module _ {ℓ} {S : Type ℓ} (grant : S → ℕ → Option (ℕ × S)) (allocator : PagedAllocator)
    (store : Store) (lays : List Layout) (size alignment : ℕ) where
  -- The page that the system grants for a state starts at an address where no other page is.
  pub record Grants (system : S) (address : ℕ) (next : S) : Type ℓ where
    pub granted : grant system (u64 (page_bytes + allocator.page_size)) ≡ some (address, next)
    pub fresh : AllApart (page_create address allocator.page_size) lays
    pub small :
        address + page_bytes + allocator.page_size + alignment + size + pointer_bytes < 2 ^ 64

  -- An allocation that returns a payload: from the pages as they are, or after one more page.
  pub record Allocated (result : Option ℕ × PagedAllocator × Store × S) (address : ℕ) : Type ℓ where
    pub pointer : ℕ
    pub returned : result.0 ≡ some pointer
    pub pages :
        (PageTaken size alignment store lays pointer result.2 × (result.1.pages ≡ pages_of lays))
        ⊎ (PageTaken size alignment
              (page_store address allocator.page_size store)
              (lays ++ new_layout address allocator.page_size ∷ [])
              pointer
              result.2
            × (result.1.pages ≡ pages_of (lays ++ new_layout address allocator.page_size ∷ [])))

  module _ (same : allocator.pages ≡ pages_of lays) (laid : AllLaid store.regions lays)
      (small : AllSmall size alignment lays)
      (room : size + pointer_bytes + alignment + region_bytes ≤ allocator.page_size) (system : S)
      (address : ℕ) (next : S) (grants : Grants system address next) where
    abbrev more : List Layout
    more = lays ++ new_layout address allocator.page_size ∷ []

    abbrev grown : Store
    grown = page_store address allocator.page_size store

    second :
        PagesSearched size alignment grown more (search_pages (pages_of more) grown size alignment)
    second =
        search_pages-PagesSearched size alignment grown more
          (AllLaid-last address allocator.page_size (omega (arith, room))
            (omega (arith, grants.small)) store lays laid grants.fresh)
          (AllSmall-last size alignment lays (new_layout address allocator.page_size) small
            (unfold page_create in grants.small))

    allocate_loop-Allocated :
        Allocated (allocate_loop grant 2 allocator store system size alignment) address
    unfolding allocate_loop
    allocate_loop-Allocated =
        let first = search_pages-PagesSearched size alignment store lays laid small in
        let now = ap (λ ps. search_pages ps store size alignment) same in
        let pages : allocator.pages ++ (page_create address allocator.page_size ∷ [])
            ≡ pages_of more =
          ap (λ ps. ps ++ (page_create address allocator.page_size ∷ [])) same
          ∙ pages_of-last lays (new_layout address allocator.page_size) in
        let later = ap (λ ps. search_pages ps grown size alignment) pages in
        let fits : ltb allocator.page_size (u64 (size + pointer_bytes + alignment + region_bytes))
            ≡ false =
          ground (arith, room, grants.small) in
        elim (Option-cases (search_pages (pages_of lays) store size alignment)) [
          | inr (found, e) ↦
              rw (allocate_loop, now ∙ e)
                (record {
                  pointer = found.0;
                  returned = refl;
                  pages = inl (subst (PagesSearched size alignment store lays) e first, same);
                })
          | inl e ↦ elim (Option-cases (search_pages (pages_of more) grown size alignment)) [
            | inr (found, f) ↦
                rw (allocate_loop, now ∙ e, fits, grants.granted, later ∙ f)
                  (record {
                    pointer = found.0;
                    returned = refl;
                    pages = inr (subst (PagesSearched size alignment grown more) f second, pages);
                  })
            | inl f ↦ absurd (
                new_fits size alignment address allocator.page_size room grants.small (
                  NoneFits-last size alignment lays (new_layout address allocator.page_size)
                    (subst (PagesSearched size alignment grown more) f second)))
          ]
        ]

whole_words-le : (size : ℕ) → size + pointer_bytes < 2 ^ 64 → size ≤ whole_words size
unfolding whole_words
whole_words-le size small = ground (arith, small)

-- A request for some bytes that fits in a page, where the system grants a page apart from the others:
-- malloc returns a payload of at least as many bytes. It is aligned, it lies in a block that was
-- available and is taken now, and blocks tile every page afterwards: the pages as they are, or one more.
pub malloc-Allocated {ℓ} :
    {S : Type ℓ} (grant : S → ℕ → Option (ℕ × S)) (allocator : PagedAllocator) (store : Store)
    (lays : List Layout) (size alignment : ℕ) (system : S) (address : ℕ) (next : S)
    → 0 < size
    → size + pointer_bytes < 2 ^ 64
    → whole_words size + pointer_bytes + alignment + region_bytes ≤ allocator.page_size
    → allocator.pages ≡ pages_of lays
    → AllLaid store.regions lays
    → AllSmall (whole_words size) alignment lays
    → Grants grant allocator store lays (whole_words size) alignment system address next
    → (size ≤ whole_words size)
      × Allocated grant allocator store lays
          (whole_words size)
          alignment
          (malloc grant allocator store system size alignment)
          address
unfolding malloc
malloc-Allocated grant allocator store lays size alignment system address next pos word room same
      laid small grants =
    let some_bytes : (size == 0) ≡ false = ground (arith, pos) in
    let run =
      allocate_loop-Allocated grant allocator store lays (whole_words size) alignment same laid
        small room system address next grants in
    (whole_words-le size word, rw some_bytes run)
