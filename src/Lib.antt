-- ===== src/Lib.antt =====
-- Nexus-C is a C library of system services (nexus.h with one file of src for each service). This
-- development models parts of it that compute: what they read and write is passed as arguments and
-- returned, and what the platform provides is a parameter.
--
-- * Data/HashMap is the hash map of src/n_data.c: a table of groups of eight slots whose control bytes
--   say EMPTY, DELETED or a fingerprint of seven bits. `HashMap`, `HashMapHash` and `HashMapProbe` are
--   the source's structs; the storage is three functions of the slot's number. `probe` is
--   nexus_data_hashmap_probe, `insert_without_resize`, `resize`, `active_entry_next`, `insert`, `put`,
--   `get`, `get_copy`, `delete`, `create`, `enumerator_init` and `enumerator_next` are the functions with
--   those names after nexus_data_hashmap_. A key's hash and its comparison depend on the mode of the
--   map: they are the interface `KeyOps`, which Data/HashMap/Modes fills for each of the three modes.
--   The calls of malloc are an `Allocator`: whether a size is granted, and what its memory holds.
--
-- * Uint128 is src/n_uint128.c: `Uint128` is the struct of two halves, and the operations have the names
--   after nexus_uint128_ (`mul64_to128` is p_uint128_mul64_to128, `zero128` nexus_uint128_zero). A byte
--   buffer is a function of the index.
-- * Data/IndexHeap and Data/KeySearch are the bodies of two macros of nexus.h, the heap of indices and the
--   binary search of pairs. `push`, `pop` and `search_binary_kv` are what NEXUS_DATA_HEAP_MIN_INDEX_DEFINE
--   and NEXUS_KEY_VALUE_PAIR_DEFINE define.
-- * Strings is the part of src/n_strings.c that copies, finds, splits and parses: Copy has the bounded
--   copies and `Writer`, which is NexusStringWriter, Search `find`, Split `split`, and Numbers the parsers of
--   decimal and hexadecimal numbers. A source string is the list of its characters before the terminator,
--   a destination a function of the index; an error is `none` or a constructor.
-- * Hash is src/n_hash.c and the hashes of nexus.h: FNV-1a, SHA-1, whose `Context` is
--   NexusHashSHA1Context, and Zobrist hashing. The functions have the names after nexus_hash_ and
--   nexus_hash_zobrist_; `absorb` is the loop of nexus_hash_sha1_bytes.
-- * BitFields is the bit operations of nexus.h, with the names after nexus_bits_. Its bytes are used by the
--   keys of Zobrist hashing.
--
-- * Memory is the paged allocator of src/n_memory.c. A `Store` gives the header (`Region`) at each address
--   and the pointer before each payload; `malloc`, `free`, `create` and `reset` are the functions with those
--   names after nexus_memory_paged_allocator_. The system's malloc is a parameter with a state. The
--   children read the headers of a page as a list of blocks (Chain) and follow it through a cut and a
--   merge (Relink), an allocation (Take, Frame, Search, Pages, Malloc) and a release
--   (Release, Members). `Reaches` in Runs is what a run of calls on one page makes of its store, with the
--   payloads that are live (Live).
--
-- * Identity is src/n_identity.c: Text writes and parses UUIDs, Generate has the versions 4, 5 and 7 that
--   take their bits from entropy or a hash, Monotonic the ordered UUIDs of version 7, with the names after
--   nexus_identity_uuid_. `MonotonicState` is the state that the lock guards; a call holds the lock while it
--   uses the state, so concurrent calls are a sequence (`monotonic_calls`). What the clock reads and what the
--   entropy gives are parameters. Version 5 uses the hash of Hash, all of them the byte order of Uint128.
--
-- * Errors is the codes of nexus.h and src/n_errors.c: `Registry` is its table of formatters with the count,
--   `formatter_register`, `formatter_unregister`, `formatter_lookup` and `message_write` are the functions that
--   end so. A formatter is a parameter; `Printed` is what is handed to the C library for printing. The calls
--   are not synchronised in the source, so they are taken one after the other.
--
-- * Threads is the wait group of src/n_threads.c. `System` is the counter, the holder of the mutex and the place
--   of each thread in the code (`Pc`); `thread_step` is what a thread does next in nexus_threads_waitgroup_add,
--   wait and try_wait, and `Step` in Moves lets any thread take a step, start a call, fail to lock the mutex,
--   wake by itself, or be ready for another call after a wait or a test. The mutex and the condition
--   variable are the platform's; the assertion that the counter is not negative ends the program.
--
-- * Paths is the part of src/n_paths.c that works on text, for systems whose separator is '/', with the names
--   after nexus_paths_. What the file system makes of a relative path (`canonicalize`) and which files exist are
--   parameters. The limit of 1024 characters is the header's, and the search for a marker has 64 levels.
--
-- * Version is the packing of a semantic version in nexus.h and src/n_version.c.
--
-- Integers are natural numbers, and every operation that can leave 64 bits is followed by `% 2 ^ 64`
-- (`u64`), of 32 bits by `% 2 ^ 32` (`u32`). The probe loop has as many rounds as there are groups and
-- the loops over entries one more than there are slots, and the loop of `sha1_bytes` as many as there
-- are bytes. The loops of the heap have a round for each place and one more, the binary search one for
-- each pair, and the clip of a cut text one for each of its bytes. A search of a page has a round for each of its
-- bytes and one more, and an allocation makes two attempts, which is one more than it needs where the test
-- of the page size does not wrap around. The theorems on them show that this is enough.
--
-- Not modelled: XXH3, the printing of formats and the other code of libraries, which are parameters or
-- left out; the debug assertions, which are the theorems' hypotheses; freeing memory, and the services
-- that call the operating system (processes, files, the other parts of threads, the terminal, hardware).
pub mod Base
pub mod Data
pub mod Uint128
pub mod Strings
pub mod Hash
pub mod BitFields
pub mod Memory
pub mod Identity
pub mod Errors
pub mod Threads
pub mod Paths
pub mod Version
