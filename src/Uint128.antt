-- ===== src/Uint128.antt =====
-- The 128-bit integers of src/n_uint128.c: the operations (Arith), the writing and reading of bytes
-- (Bytes), and their laws (Multiply, Shift, ByteOrder).
pub mod Arith
pub mod Bytes
pub mod Multiply
pub mod Shift
pub mod ByteOrder
mod Tests
