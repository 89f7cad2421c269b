-- ===== src/Data/HashMap/Tests.antt =====
-- Runs of the hash map, and its theorems at concrete tables.
use nexus_c.Base.{
  ℕ, zero, suc, ◌+◌, ◌*◌, ◌^◌, ◌≡◌, ◌↔◌, refl, true, none, some, List, [], ◌∷◌, arith, ltb,
}
use nexus_c.Data.HashMap.Api.{
  create, put, get, get_copy, delete, without_storage, store_value, insert, mark_deleted,
}
use nexus_c.Data.HashMap.Delete.{Deleted, delete-Deleted}
use nexus_c.Data.HashMap.Invariant.{Holds}
use nexus_c.Data.HashMap.Modes.{bytes_equal, first_word, prehashed_key}
use nexus_c.Data.HashMap.Probe.{
  scan, find_match, find_control, offer, note_tombstone, probe_loop, no_result, probe,
}
use nexus_c.Data.HashMap.Put.{CanGrow, Updates, put-Updates}
use nexus_c.Data.HashMap.Resize.{
  Allocator, active_entry_loop, active_entry_next, cleared, storage_size, storage_create,
  store_moved, move_entries, resize,
}
use nexus_c.Data.HashMap.Rounds.{probe_rounds}
use nexus_c.Data.HashMap.Spec.{
  Models, Creates, create-Creates, cleared-Models, get_iff, Request, put_request, delete_request,
  perform_all, update_all, AllCanGrow, perform_all-Models,
}
use nexus_c.Data.HashMap.Table.{KeyOps, HashMap, hash_get}
use nexus_c.Data.HashMap.Write.{claim_slot, insert_without_resize}

-- Keys of eight bytes, the first of which are given.
instance abbrev byte_keys : KeyOps (List ℕ)
byte_keys = prehashed_key

abbrev key : ℕ → List ℕ
key n = n ∷ 0 ∷ 0 ∷ 0 ∷ 0 ∷ 0 ∷ 0 ∷ 0 ∷ []

-- An allocator that grants what is below a bound.
abbrev heap_below : ℕ → Allocator (List ℕ) ℕ
heap_below bound = record { succeeds = λ n. ltb n bound; stale_key = λ i. []; stale_value = λ i. 0 }

abbrev heap : Allocator (List ℕ) ℕ
heap = heap_below (2 ^ 40)

program : Unit {0}
unfolding bytes_equal first_word scan find_match find_control offer note_tombstone probe_loop probe
    active_entry_loop active_entry_next cleared storage_size storage_create store_moved move_entries
    resize hash_get claim_slot insert_without_resize create store_value insert put get get_copy
    mark_deleted delete without_storage
program = tt

abbrev one_group : HashMap (List ℕ) ℕ
one_group = cleared heap (without_storage heap 8 4) 1

created : create true heap 8 4 1 ≡ some one_group
unfolding program
created = refl

abbrev fill : ℕ → HashMap (List ℕ) ℕ → HashMap (List ℕ) ℕ
fill zero m = m
fill (suc n) m = put heap (fill n m) (key n) (n * 10)

abbrev shown : HashMap (List ℕ) ℕ → ℕ × ℕ × ℕ
shown m = (m.capacity_groups, m.element_count, m.deleted_count)

-- Eight keys in one group: the eighth insertion doubles the table.
grows : shown (fill 8 one_group) ≡ (2, 8, 0)
unfolding program
grows = refl

reads_back : get_copy (fill 8 one_group) (key 5) ≡ some 50
unfolding program
reads_back = refl

-- A deleted slot is taken by the next new key of its group.
reuses : shown (put heap (delete (fill 5 one_group) (key 2)).0 (key 9) 1) ≡ (1, 5, 0)
unfolding program
reuses = refl

create-Creates_example : Creates true heap (1 * 8 + 1 * 8 * (8 + 4)) (create true heap 8 4 1)
create-Creates_example = create-Creates true heap 8 4 1 (omega arith) (omega arith)

one_group-Models : Models (λ _. none) one_group
one_group-Models =
    cleared-Models heap (without_storage heap 8 4) 1 (omega arith)
      (unfold without_storage in omega arith)

can_grow : CanGrow heap one_group
unfolding program
can_grow full = absurd (omega arith)

put-Updates_example : Updates one_group (key 3) 30 (put heap one_group (key 3) 30)
put-Updates_example = put-Updates heap one_group (key 3) 30 one_group-Models.valid can_grow

-- A table with one entry.
abbrev one_entry : HashMap (List ℕ) ℕ
one_entry = put heap one_group (key 3) 30

get_iff_example : (get one_entry (key 3) ≡ some 0) ↔ Holds one_entry (key 3) 0
get_iff_example = get_iff one_entry (key 3) 0 put-Updates_example.valid.table

get_iff_holds : get one_entry (key 3) ≡ some 0
unfolding program
get_iff_holds = refl

delete-Deleted_example :
    Deleted one_entry (key 3) (delete one_entry (key 3)).0 (delete one_entry (key 3)).1
delete-Deleted_example = delete-Deleted one_entry (key 3) put-Updates_example.valid.table

probe_rounds_example :
    probe_loop 20 one_group
      (key 1)
      (hash_get one_group (key 1))
      (hash_get one_group (key 1)).initial_group_idx
      (no_result (hash_get one_group (key 1)))
    ≡ probe one_group (key 1)
probe_rounds_example =
    probe_rounds one_group (key 1) 20 (unfold program in omega arith)
      (unfold program in omega arith)

abbrev requests : List (Request (List ℕ) ℕ)
requests =
    put_request heap (key 3) 30
    ∷ put_request heap (key 4) 40
    ∷ delete_request (key 3)
    ∷ put_request heap (key 4) 41
    ∷ []

requests_granted : AllCanGrow one_group requests
unfolding program
requests_granted = (
  λ full. absurd (omega arith),
  (λ full. absurd (omega arith), (λ full. absurd (omega arith), tt)),
)

perform_all-Models_example :
    Models (update_all (λ _. none) requests) (perform_all one_group requests)
perform_all-Models_example =
    perform_all-Models one_group (λ _. none) requests one_group-Models requests_granted
