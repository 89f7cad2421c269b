-- ===== src/Strings.antt =====
-- The strings of src/n_strings.c: bounded copies and the writer (Copy), what a cut at a byte keeps
-- (Clip), what a copy (Truncate) and an append (Writer) do, finding (Search) and splitting (Split), the
-- parsing of numbers (Numbers), with what it returns for unsigned decimal (Decimal), hexadecimal (Hex)
-- and signed decimal (Signed) strings.
pub mod Copy
pub mod Clip
pub mod Truncate
pub mod Writer
pub mod Search
pub mod Split
pub mod Numbers
pub mod Decimal
pub mod Hex
pub mod Signed
mod Tests
mod TextTests
