-- ===== src/Strings/Copy.antt =====
-- Bounded copies (src/n_strings.c, lines 7 to 85 and 499 to 646). A destination is a function of the index. A source
-- is the list of its characters before the terminator.
use nexus_c.Base.{
  ℕ, zero, suc, ◌+◌, ◌-◌, Bool, true, false, ◌&&◌, List, [], ◌∷◌, if◌then◌else◌, ltb, leb, ◌==◌,
  not, bit_and, length, take, update,
}

pub record FormatResult : Type 0 where
  pub written_length : ℕ
  pub required_length : ℕ
  pub truncated : Bool
  pub success : Bool

unfoldable pub result_create : ℕ → ℕ → Bool → Bool → FormatResult
result_create written required truncated success = record {
  written_length = written;
  required_length = required;
  truncated = truncated;
  success = success;
}

-- `nexus_strings_string_length` of what a buffer holds from an index on, with `fuel` characters at most.
unfoldable pub string_length : ℕ → (ℕ → ℕ) → ℕ → ℕ
string_length zero buffer at = 0
string_length (suc fuel) buffer at =
    let rest = string_length fuel buffer (at + 1) in if buffer at == 0 then 0 else suc rest

-- `nexus_memory_bytes_copy` to a place of a buffer.
unfoldable pub characters_copy : (ℕ → ℕ) → ℕ → List ℕ → ℕ → ℕ
characters_copy dest at [] = dest
characters_copy dest at (c ∷ cs) = characters_copy (update dest at c) (at + 1) cs

-- The inner loop: back over continuation bytes.
unfoldable pub lead_index_loop : (ℕ → ℕ) → ℕ → ℕ
lead_index_loop string zero = 0
lead_index_loop string (suc n) =
    let rest = lead_index_loop string n in if bit_and (string n) 0xC0 == 0x80 then rest else suc n

-- The number of bytes of a sequence that starts with a byte; 0 where no sequence does.
unfoldable pub expected_bytes : ℕ → ℕ
expected_bytes lead =
    if bit_and lead 0xE0 == 0xC0
    then 2
    else if bit_and lead 0xF0 == 0xE0
    then 3
    else if bit_and lead 0xF8 == 0xF0
    then 4
    else 0

-- The outer loop at a length, with `fuel` rounds at most; each round but the last makes the string
-- shorter.
unfoldable pub clip_loop : ℕ → (ℕ → ℕ) → ℕ → ℕ → ℕ
clip_loop zero string length = string
clip_loop (suc fuel) string zero = string
clip_loop (suc fuel) string (suc n) =
    let lead_index = lead_index_loop string (suc n) in
    let cut_last = clip_loop fuel (update string n 0) n in
    let cut_run = clip_loop fuel (update string lead_index 0) lead_index in
    if lead_index == suc n
    then (if ltb (string n) 0x80 then string else cut_last)
    else if expected_bytes (string lead_index) == 0
    then cut_run
    else if leb (expected_bytes (string lead_index)) (suc n - lead_index)
    then string
    else cut_run

-- The string has fewer than `capacity` characters.
unfoldable pub clip_incomplete_tail : ℕ → (ℕ → ℕ) → ℕ → ℕ
clip_incomplete_tail capacity string =
    let length = string_length capacity string 0 in clip_loop length string length

unfoldable pub copy_exact : (ℕ → ℕ) → ℕ → List ℕ → (ℕ → ℕ) × FormatResult
copy_exact dest dest_max_len src =
    let src_length = length src in
    if leb dest_max_len src_length then (dest, result_create 0 src_length true false) else (
      update (characters_copy dest 0 src) src_length 0,
      result_create src_length src_length false true,
    )

unfoldable pub copy_with_truncation : (ℕ → ℕ) → ℕ → List ℕ → (ℕ → ℕ) × FormatResult
copy_with_truncation dest dest_max_len src =
    let src_length = length src in
    let copy_length = if leb dest_max_len src_length then dest_max_len - 1 else src_length in
    let copied = update (characters_copy dest 0 (take copy_length src)) copy_length 0 in
    let clipped = clip_incomplete_tail dest_max_len copied in
    if leb dest_max_len src_length
    then (clipped, result_create (string_length dest_max_len clipped 0) src_length true true)
    else (copied, result_create src_length src_length false true)

unfoldable pub string_copy : (ℕ → ℕ) → ℕ → List ℕ → ℕ → ℕ
string_copy dest dest_max_len src = (copy_with_truncation dest dest_max_len src).0

-- A pointer into a buffer, and the buffer after writes through it.
abbrev pub pointer : (ℕ → ℕ) → ℕ → ℕ → ℕ
pointer buffer at i = buffer (at + i)

abbrev pub written_at : (ℕ → ℕ) → ℕ → (ℕ → ℕ) → ℕ → ℕ
written_at buffer at target i = if ltb i at then buffer i else target (i - at)

-- Only whether the string has `dest_max_len` characters counts of a longer string.
unfoldable pub append : (ℕ → ℕ) → ℕ → List ℕ → (ℕ → ℕ) × Bool
append dest dest_max_len src =
    let cursor = string_length dest_max_len dest 0 in
    let (target, copy_result) =
      copy_with_truncation (pointer dest cursor) (dest_max_len - cursor) src in
    if leb dest_max_len cursor
    then ((if ltb 0 dest_max_len then update dest (dest_max_len - 1) 0 else dest), false)
    else (written_at dest cursor target, copy_result.success && not copy_result.truncated)

pub record Writer : Type 0 where
  pub buffer : ℕ → ℕ
  pub capacity : ℕ
  pub length : ℕ
  pub truncated : Bool

unfoldable pub writer_initialize : (ℕ → ℕ) → ℕ → Writer
writer_initialize buffer buffer_capacity = record {
  buffer = (copy_with_truncation buffer buffer_capacity []).0;
  capacity = buffer_capacity;
  length = 0;
  truncated = false;
}

unfoldable pub writer_string_append : Writer → List ℕ → Writer × FormatResult
writer_string_append writer string =
    let (target, result) =
      copy_with_truncation (pointer writer.buffer writer.length) (writer.capacity - writer.length)
        string in
    (
      record writer {
        buffer = written_at writer.buffer writer.length target;
        length = writer.length + result.written_length;
        truncated = if result.truncated then true else writer.truncated;
      },
      result,
    )

unfoldable pub writer_length_get : Writer → ℕ
writer_length_get writer = writer.length

unfoldable pub writer_truncated_get : Writer → Bool
writer_truncated_get writer = writer.truncated

unfoldable pub is_alphanumeric : ℕ → Bool
is_alphanumeric c =
    if leb 65 c && leb c 90
    then true
    else if leb 97 c && leb c 122
    then true
    else leb 48 c && leb c 57

-- The loop from a place of `dest` on: the buffer, the place of the terminator, and whether the rest
-- was cut off.
unfoldable pub replace_loop : (ℕ → ℕ) → ℕ → List ℕ → ℕ → ℕ → (ℕ → ℕ) × ℕ × Bool
replace_loop dest dest_max_len [] replacement at = (dest, at, false)
replace_loop dest dest_max_len (c ∷ cs) replacement at =
    let output_character = if is_alphanumeric c then c else replacement in
    let rest =
      replace_loop (update dest at output_character) dest_max_len cs replacement (at + 1) in
    if leb dest_max_len (at + 1) then (dest, at, true) else rest

unfoldable pub replace_non_alphanumeric : (ℕ → ℕ) → ℕ → List ℕ → ℕ → (ℕ → ℕ) × FormatResult
replace_non_alphanumeric dest dest_max_len src replacement =
    let (after, at, truncated) = replace_loop dest dest_max_len src replacement 0 in
    (update after at 0, result_create at at truncated true)
