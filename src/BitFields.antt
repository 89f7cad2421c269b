-- ===== src/BitFields.antt =====
-- The bit operations of nexus.h (lines 4518 to 5001): words to and from bytes (Bytes), the packing of
-- narrower words (Pack), single bits (Single), how shifted words join (Join), and the round trips
-- (Unpack, RoundTrip).
pub mod Bytes
pub mod Pack
pub mod Single
pub mod Join
pub mod Unpack
pub mod RoundTrip
mod Tests
