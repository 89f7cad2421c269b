-- ===== src/Memory/Tests.antt =====
-- Runs of the paged allocator, and its theorems at concrete pages.
use nexus_c.Base.{
  ◌<◌, suc, update, ◌≢◌, ◌⊎◌, ℕ, ◌+◌, ◌-◌, ◌^◌, ◌≤◌, ◌≡◌, refl, true, false, if◌then◌else◌, ◌==◌,
  Option, none, some, [], ◌∷◌, arith,
}
use nexus_c.Memory.{
  pointer_bytes, Store, PagedAllocator, aligned_pointer, required_space, whole_words, cut_region,
  take_region, search_page, search_pages, page_create, page_store, allocate_loop, malloc,
  coalesce_right, coalesce_left, free,
}
use nexus_c.Memory.Chain.{Block}
use nexus_c.Memory.Malloc.{new_layout, new-PageLaid, Allocated, malloc-Allocated}
use nexus_c.Memory.Pages.{pages_of, PagesSearched, search_pages-PagesSearched}
use nexus_c.Memory.Release.{released, free-Laid}
use nexus_c.Memory.Live.{Payload}
use nexus_c.Memory.Runs.{Reaches, start, allocated, Reaches-disjoint}
use nexus_c.Memory.Take.{Laid}

abbrev untouched : Store
untouched = record {
  regions = λ at. record { byte_size = 0; available = false; next = 0; prev = 0 };
  owners = λ at. 0;
}

-- A system that grants pages 4096 bytes apart.
abbrev grant : ℕ → ℕ → Option (ℕ × ℕ)
grant next size = some (next, next + 4096)

abbrev no_pages : PagedAllocator
no_pages = record { pages = []; page_count = 0; page_size = 256 }

abbrev one_page : Store
one_page = page_store 4096 256 untouched

-- Three blocks of 64 bytes, of which the middle one is taken.
abbrev three_blocks : Store
three_blocks = record {
  regions = λ at.
      if at == 4128
      then record { byte_size = 64; available = true; next = 4224; prev = 0 }
      else if at == 4224
      then record { byte_size = 64; available = false; next = 4320; prev = 4128 }
      else record { byte_size = 64; available = true; next = 0; prev = 4224 };
  owners = λ at. 4224;
}

abbrev left : Block
left = record { address = 4128; size = 64; available = true }

abbrev middle : Block
middle = record { address = 4224; size = 64; available = false }

abbrev right : Block
right = record { address = 4320; size = 64; available = true }

three_blocks-Laid : Laid three_blocks.regions 4128 4416 (left ∷ middle ∷ right ∷ [])
three_blocks-Laid = record {
  chain = (
    record { size = refl; available = refl; next_is = refl; prev_is = refl },
    (
      record { size = refl; available = refl; next_is = refl; prev_is = refl },
      (record { size = refl; available = refl; next_is = refl; prev_is = refl }, tt),
    ),
  );
  tiles = (refl, (refl, (refl, refl)));
  pos = omega arith;
}

runs :
    ((malloc grant no_pages untouched 4096 20 64).0 ≡ some 4224)
    × ((malloc grant no_pages untouched 4096 20 64).1.page_count ≡ 1)
    × ((malloc grant no_pages untouched 4096 300 8).0 ≡ none)
    × (((free three_blocks 4264).regions 4128).byte_size ≡ 256)
unfolding aligned_pointer required_space whole_words cut_region take_region search_page search_pages
    page_create page_store allocate_loop malloc coalesce_right coalesce_left free
runs = (refl, refl, refl, refl)

-- A request of nearly the whole address space gets a payload: the space that it needs wraps around.
wrapped_request : (malloc grant no_pages untouched 4096 (2 ^ 64 - 8) 0).0 ≡ some 4168
unfolding aligned_pointer required_space whole_words cut_region take_region search_page search_pages
    page_create page_store allocate_loop malloc
wrapped_request = refl

search_pages-PagesSearched_example :
    PagesSearched 24 64 one_page
      (new_layout 4096 256 ∷ [])
      (search_pages (pages_of (new_layout 4096 256 ∷ [])) one_page 24 64)
search_pages-PagesSearched_example =
    search_pages-PagesSearched 24 64 one_page (new_layout 4096 256 ∷ [])
      (new-PageLaid 4096 256 (omega arith) (omega arith) untouched, tt, tt)
      (unfold page_create in omega arith, tt)

malloc-Allocated_example :
    (20 ≤ whole_words 20)
    × Allocated grant no_pages untouched []
        (whole_words 20)
        64
        (malloc grant no_pages untouched 4096 20 64)
        4096
malloc-Allocated_example =
    malloc-Allocated grant no_pages untouched [] 20 64 4096 4096 8192 (omega arith) (omega arith)
      (unfold whole_words in omega arith) refl tt tt
      (record { granted = refl; fresh = tt; small = unfold whole_words in omega arith })

free-Laid_example :
    Laid (free three_blocks 4264).regions 4128 4416 (released (left ∷ []) middle (right ∷ []))
free-Laid_example =
    free-Laid three_blocks 4128 4416 (left ∷ []) middle (right ∷ []) 4264 three_blocks-Laid
      (omega arith) (omega arith) refl

-- The page after a payload of 24 bytes, and after one of 16 bytes more.
abbrev after_one : Store
after_one = (take_region one_page 4128 24 8).1

abbrev after_two : Store
after_two = (take_region after_one 4192 16 8).1

abbrev live_two : ℕ → Option Payload
live_two =
    update
      (update (λ owner. none) (after_one.owners 4168) (some (record { pointer = 4168; size = 24 })))
      (after_two.owners 4232) (some (record { pointer = 4232; size = 16 }))

run_two : Reaches 4128 256 after_two live_two
unfolding page_store page_create take_region aligned_pointer required_space cut_region search_page
run_two =
    allocated 16 8 4232 after_two
      (allocated 24 8 4168 after_one
        (start one_page 224 (new-PageLaid 4096 256 (omega arith) (omega arith) untouched).laid)
        (omega arith) refl)
      (omega arith) refl

Reaches-disjoint_example :
    ((a b : ℕ) (p q : Payload)
      → live_two a ≡ some p
      → live_two b ≡ some q
      → a ≢ b
      → (4128 ≤ p.pointer)
        × (p.pointer + p.size ≤ 4128 + 256)
        × ((p.pointer + p.size ≤ q.pointer) ⊎ (q.pointer + q.size ≤ p.pointer)))
    × ((size alignment pointer : ℕ) (after : Store)
        → 4128 + 256 + alignment + size + pointer_bytes < 2 ^ 64
        → search_page (suc 256) after_two 4128 size alignment ≡ some (pointer, after)
        → live_two (after.owners pointer) ≡ none)
Reaches-disjoint_example = Reaches-disjoint 4128 256 (omega arith) after_two live_two run_two
