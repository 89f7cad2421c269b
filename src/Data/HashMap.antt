-- ===== src/Data/HashMap.antt =====
-- The hash map of src/n_data.c. The definitions: the struct and the interface of a key (Table), the
-- three hash modes (Modes), probing (Probe), the insertion (Write), storage, iteration and resizing
-- (Resize), and the public calls (Api). The laws: how the groups are walked (Walk, Rounds), what a
-- probe finds (Outcome), the invariant (Invariant), lookups (Lookup), the counters (Count), slots
-- taken and given up (Claim, Insert, Delete), the iteration and the copy of a table (Cursors, Values,
-- Moving, Growth), the public calls (Put) and the map that a table stands for (Spec).
pub mod Table
pub mod Modes
pub mod Probe
pub mod Walk
pub mod Outcome
pub mod Invariant
pub mod Lookup
pub mod Count
pub mod Claim
pub mod Insert
pub mod Delete
pub mod Cursors
pub mod Values
pub mod Moving
pub mod Growth
pub mod Put
pub mod Spec
pub mod Rounds
mod Tests
pub mod Write
pub mod Resize
pub mod Api
