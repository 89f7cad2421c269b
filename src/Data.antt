-- ===== src/Data.antt =====
-- The containers of src/n_data.c and nexus.h: the hash map, the heap of indices and the binary search.
pub mod HashMap
pub mod IndexHeap
pub mod KeySearch
mod Tests
