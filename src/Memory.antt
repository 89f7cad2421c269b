-- ===== src/Memory.antt =====
-- The paged allocator of src/n_memory.c. The store gives the region header at each address, and what
-- stands in the pointer before a payload; sizes are those of 64-bit pointers. NULL is the address 0.
pub mod Chain
pub mod Relink
pub mod Take
pub mod Frame
pub mod Search
pub mod Pages
pub mod Malloc
pub mod Release
pub mod Members
pub mod Live
pub mod Runs
mod Tests
use nexus_c.Base.{
  ℕ, zero, suc, ◌+◌, ◌-◌, ◌%◌, ◌^◌, Bool, true, false, if◌then◌else◌, ltb, leb, ◌==◌, ◌&&◌, ◌||◌,
  update, u64, Option, none, some, List, [], ◌∷◌, ◌++◌,
}

pub record Region : Type 0 where
  pub byte_size : ℕ
  pub available : Bool
  pub next : ℕ
  pub prev : ℕ

pub record Page : Type 0 where
  pub memory_base : ℕ
  pub capacity : ℕ
  pub first_region : ℕ

pub record PagedAllocator : Type 0 where
  pub pages : List Page
  pub page_count : ℕ
  pub page_size : ℕ

pub record Store : Type 0 where
  pub regions : ℕ → Region
  pub owners : ℕ → ℕ

abbrev pub region_bytes : ℕ
region_bytes = 32

abbrev pub page_bytes : ℕ
page_bytes = 32

abbrev pub allocator_bytes : ℕ
allocator_bytes = 24

abbrev pub pointer_bytes : ℕ
pointer_bytes = 8

-- The size rounded up to whole machine words.
pub whole_words : ℕ → ℕ
whole_words size =
    let alignment_fix = size % pointer_bytes in
    if alignment_fix == 0 then size else u64 (size + (pointer_bytes - alignment_fix))

-- The payload of a region for an alignment.
pub aligned_pointer : ℕ → ℕ → ℕ
aligned_pointer region alignment =
    let raw_pointer = u64 (region + region_bytes + pointer_bytes) in
    let remainder = raw_pointer % alignment in
    if ltb 0 alignment
    then (if remainder == 0 then raw_pointer else u64 (raw_pointer + (alignment - remainder)))
    else raw_pointer

pub required_space : ℕ → ℕ → ℕ → ℕ
required_space region size alignment =
    let padding = u64 (aligned_pointer region alignment + 2 ^ 64 - u64 (region + region_bytes)) in
    u64 (padding + size)

abbrev pub set_prev : (ℕ → Region) → ℕ → ℕ → ℕ → Region
set_prev regions at prev =
    if at == 0 then regions else update regions at (record (regions at) { prev = prev })

-- A region that is not needed whole is cut after its payload.
pub cut_region : (ℕ → Region) → ℕ → ℕ → ℕ → ℕ → Region
cut_region regions region new_region required =
    let space_after = (regions region).byte_size - required in
    let new : Region = record {
      byte_size = space_after - region_bytes;
      available = true;
      next = (regions region).next;
      prev = region;
    } in
    let linked = set_prev (update regions new_region new) (regions region).next new_region in
    if ltb (region_bytes + 32) space_after
    then update linked region (record (linked region) { next = new_region; byte_size = required })
    else regions

-- The region is taken: the payload, and the store afterwards.
pub take_region : Store → ℕ → ℕ → ℕ → ℕ × Store
take_region store region size alignment =
    let pointer = aligned_pointer region alignment in
    let cut =
      cut_region store.regions region (u64 (pointer + size))
        (required_space region size alignment) in
    (
      pointer,
      record {
        regions = update cut region (record (cut region) { available = false });
        owners = update store.owners pointer region;
      },
    )

-- The loop over the regions of a page, with `fuel` rounds at most.
pub search_page : ℕ → Store → ℕ → ℕ → ℕ → Option (ℕ × Store)
search_page zero store region size alignment = none
search_page (suc fuel) store region size alignment =
    let r = store.regions region in
    let rest = search_page fuel store r.next size alignment in
    if region == 0
    then none
    else if r.available && leb (required_space region size alignment) r.byte_size
    then some (take_region store region size alignment)
    else rest

pub search_pages : List Page → Store → ℕ → ℕ → Option (ℕ × Store)
search_pages [] store size alignment = none
search_pages (page ∷ pages) store size alignment =
    elim (search_page (suc page.capacity) store page.first_region size alignment) [
      | some found ↦ some found
      | none ↦ search_pages pages store size alignment
    ]

abbrev pub initial_region : ℕ → Region
initial_region capacity = record {
  byte_size = u64 (capacity + 2 ^ 64 - region_bytes);
  available = true;
  next = 0;
  prev = 0;
}

-- A page that starts at an address, and the store with its first region.
pub page_create : ℕ → ℕ → Page
page_create address page_size = record {
  memory_base = address + page_bytes;
  capacity = page_size;
  first_region = address + page_bytes;
}

pub page_store : ℕ → ℕ → Store → Store
page_store address page_size store = record store {
  regions = update store.regions (address + page_bytes) (initial_region page_size);
}

module _ {ℓ} {S : Type ℓ} (grant : S → ℕ → Option (ℕ × S)) where
  -- The loop that makes the first pages; a page that is not granted makes an end of the allocator.
  unfoldable create_loop : ℕ → PagedAllocator → Store → S → Option PagedAllocator × Store × S
  create_loop zero allocator store system = (some allocator, store, system)
  create_loop (suc n) allocator store system =
      elim (grant system (u64 (page_bytes + allocator.page_size))) [
        | none ↦ (none, store, system)
        | some (address, granted) ↦
            create_loop n
              (record allocator {
                pages = allocator.pages ++ (page_create address allocator.page_size ∷ []);
                page_count = u64 (allocator.page_count + 1);
              })
              (page_store address allocator.page_size store) granted
      ]

  unfoldable create : ℕ → ℕ → Store → S → Option PagedAllocator × Store × S
  create page_size initial_pages store system = elim (grant system allocator_bytes) [
    | none ↦ (none, store, system)
    | some (handle, granted) ↦
        create_loop initial_pages (record { pages = []; page_count = 0; page_size = page_size })
          store granted
  ]

  -- The attempts, with `fuel` of them at most: the payload or NULL, and everything afterwards.
  pub allocate_loop : ℕ → PagedAllocator → Store → S → ℕ → ℕ → Option ℕ × PagedAllocator × Store × S
  allocate_loop zero allocator store system size alignment = (none, allocator, store, system)
  allocate_loop (suc fuel) allocator store system size alignment =
      elim (search_pages allocator.pages store size alignment) [
        | some (pointer, after) ↦ (some pointer, allocator, after, system)
        | none ↦
            if ltb allocator.page_size (u64 (size + pointer_bytes + alignment + region_bytes))
            then (none, allocator, store, system)
            else elim (grant system (u64 (page_bytes + allocator.page_size))) [
              | none ↦ (none, allocator, store, system)
              | some (address, granted) ↦
                  allocate_loop fuel
                    (record allocator {
                      pages = allocator.pages ++ (page_create address allocator.page_size ∷ []);
                      page_count = u64 (allocator.page_count + 1);
                    })
                    (page_store address allocator.page_size store) granted size alignment
            ]
      ]

  -- Two attempts are enough where the test of the size does not wrap around: the second one has a new
  -- page.
  pub malloc : PagedAllocator → Store → S → ℕ → ℕ → Option ℕ × PagedAllocator × Store × S
  malloc allocator store system size alignment =
      if size == 0
      then (none, allocator, store, system)
      else allocate_loop 2 allocator store system (whole_words size) alignment

-- A region takes in the one after it, if this one is available.
pub coalesce_right : (ℕ → Region) → ℕ → ℕ → Region
coalesce_right regions region =
    let r = regions region in
    let n = regions r.next in
    let grown =
      update regions region (record r {
        byte_size = u64 (r.byte_size + (region_bytes + n.byte_size));
        next = n.next;
      }) in
    if r.next == 0 then regions else if n.available then set_prev grown n.next region else regions

-- The region before takes it in, if that one is available.
pub coalesce_left : (ℕ → Region) → ℕ → ℕ → Region
coalesce_left regions region =
    let r = regions region in
    let p = regions r.prev in
    let grown =
      update regions r.prev (record p {
        byte_size = u64 (p.byte_size + (region_bytes + r.byte_size));
        next = r.next;
      }) in
    if r.prev == 0 then regions else if p.available then set_prev grown r.next r.prev else regions

pub free : Store → ℕ → Store
free store pointer =
    let region = store.owners pointer in
    let freed = update store.regions region (record (store.regions region) { available = true }) in
    if pointer == 0
    then store
    else record store { regions = coalesce_left (coalesce_right freed region) region }

-- The loop of the reset over the pages.
unfoldable reset_pages : (ℕ → Region) → List Page → List Page × (ℕ → Region)
reset_pages regions [] = ([], regions)
reset_pages regions (page ∷ pages) =
    let cleared = update regions page.memory_base (initial_region page.capacity) in
    let (rest, after) = reset_pages cleared pages in
    (record page { first_region = page.memory_base } ∷ rest, after)

unfoldable reset : PagedAllocator → Store → PagedAllocator × Store
reset allocator store =
    let (pages, regions) = reset_pages store.regions allocator.pages in
    (record allocator { pages = pages }, record store { regions = regions })
