-- ===== src/Hash.antt =====
-- The hashes of src/n_hash.c and nexus.h: FNV-1a (Fnv), Zobrist hashing (Zobrist), and SHA-1 by blocks (Block) and in pieces (Sha1). The laws
-- of SHA-1 are about pieces of data (Stream), the last blocks (Padding) and the digest (Digest).
pub mod Fnv
pub mod Zobrist
pub mod Block
pub mod Sha1
pub mod Stream
pub mod Padding
pub mod Digest
mod Tests
