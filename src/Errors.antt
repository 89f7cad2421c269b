-- ===== src/Errors.antt =====
-- Error codes and the registry of their formatters (nexus.h, lines 441 to 484, and src/n_errors.c). A
-- character is its byte. F stands for the formatters of other libraries.
use Prim.Native.String.{String}
use nexus_c.Base.{
  ◌||◌, ℕ, zero, suc, ◌+◌, ◌-◌, Bool, true, false, not, ◌&&◌, Option, none, some, if◌then◌else◌,
  leb, ◌==◌, bit_and, bit_or, u16, u32, ◌<<<◌, ◌>>>◌, update,
}
pub mod Codes
pub mod Facilities
pub mod Entries
pub mod Removal
pub mod Calls
mod Tests

abbrev pub error_none : ℕ
error_none = 0

unfoldable pub error_make : ℕ → ℕ → ℕ → ℕ
error_make c1 c2 code = bit_or (bit_or (u32 (c1 <<< 24)) (u32 (c2 <<< 16))) (u16 code)

unfoldable pub facility_byte_1_of : ℕ → ℕ
facility_byte_1_of err = bit_and (err >>> 24) 0xFF

unfoldable pub facility_byte_2_of : ℕ → ℕ
facility_byte_2_of err = bit_and (err >>> 16) 0xFF

unfoldable pub error_code : ℕ → ℕ
error_code err = u16 (bit_and err 0xFFFF)

-- 'N' and 'X'.
abbrev pub nexus_error : ℕ → ℕ
nexus_error code = error_make 78 88 code

abbrev pub invalid_argument : ℕ
invalid_argument = nexus_error 6

abbrev pub capacity : ℕ
capacity = nexus_error 9

pub record Entry {ℓ} (F : Type ℓ) : Type ℓ where
  pub facility_byte_1 : ℕ
  pub facility_byte_2 : ℕ
  pub formatter : Option F

pub record Registry {ℓ} (F : Type ℓ) : Type ℓ where
  pub formatters : ℕ → Entry F
  pub formatter_count : ℕ

unfoldable pub facility_is_nexus : ℕ → ℕ → Bool
facility_is_nexus b1 b2 = b1 == 78 && b2 == 88

unfoldable pub is_nexus : ℕ → Bool
is_nexus err = facility_byte_1_of err == 78 && facility_byte_2_of err == 88

module _ {ℓ} {F : Type ℓ} where
  unfoldable pub same_facility : Entry F → ℕ → ℕ → Bool
  same_facility e b1 b2 = e.facility_byte_1 == b1 && e.facility_byte_2 == b2

  -- The loop from an index on, with `n` entries left.
  unfoldable pub find_from : ℕ → ℕ → (ℕ → Entry F) → ℕ → ℕ → Option ℕ
  find_from zero index formatters b1 b2 = none
  find_from (suc n) index formatters b1 b2 =
      let rest = find_from n (index + 1) formatters b1 b2 in
      if same_facility (formatters index) b1 b2 then some index else rest

  unfoldable pub formatter_find : Registry F → ℕ → ℕ → Option ℕ
  formatter_find r b1 b2 = find_from r.formatter_count 0 r.formatters b1 b2

  unfoldable pub formatter_lookup : Registry F → ℕ → ℕ → Option F
  formatter_lookup r b1 b2 = elim (formatter_find r b1 b2) [
    | none ↦ none
    | some index ↦ (r.formatters index).formatter
  ]

  unfoldable pub entry_replace : Registry F → ℕ → F → Registry F
  entry_replace r index f = record r {
    formatters = update r.formatters index (record (r.formatters index) { formatter = some f });
  }

  unfoldable pub entry_add : Registry F → ℕ → ℕ → F → Registry F
  entry_add r b1 b2 f = record {
    formatters =
        update r.formatters r.formatter_count
          (record { facility_byte_1 = b1; facility_byte_2 = b2; formatter = some f });
    formatter_count = r.formatter_count + 1;
  }

  -- The last entry takes the place of the one that goes.
  unfoldable pub entry_remove : Registry F → ℕ → Registry F
  entry_remove r index =
      let last_index = r.formatter_count - 1 in
      let moved =
        if not (index == last_index)
        then update r.formatters index (r.formatters last_index)
        else r.formatters in
      record {
        formatters =
            update moved last_index
              (record { facility_byte_1 = 0; facility_byte_2 = 0; formatter = none });
        formatter_count = last_index;
      }

  -- NEXUS_ERROR_MESSAGE_FORMATTER_CAPACITY is 32.
  unfoldable pub formatter_register : Registry F → ℕ → ℕ → Option F → Registry F × ℕ
  formatter_register r b1 b2 none = (r, invalid_argument)
  formatter_register r b1 b2 (some f) =
      if facility_is_nexus b1 b2 then (r, invalid_argument) else elim (formatter_find r b1 b2) [
        | some index ↦ (entry_replace r index f, error_none)
        | none ↦
            if leb 32 r.formatter_count then (r, capacity) else (entry_add r b1 b2 f, error_none)
      ]

  unfoldable pub formatter_unregister : Registry F → ℕ → ℕ → Registry F
  formatter_unregister r b1 b2 = elim (formatter_find r b1 b2) [
    | none ↦ r
    | some index ↦ entry_remove r index
  ]

-- n_internal_nexus_error_message_for_code.
unfoldable pub nexus_error_message_for_code : ℕ → String
nexus_error_message_for_code code =
    if code == 1
    then "file not found"
    else if code == 2
    then "permission denied"
    else if code == 3
    then "already exists"
    else if code == 4
    then "directory not empty"
    else if code == 5
    then "disk full"
    else if code == 6
    then "invalid argument"
    else if code == 7
    then "I/O error"
    else if code == 8
    then "unsupported architecture for operation"
    else if code == 9
    then "capacity exhausted"
    else if code == 10
    then "interrupted process"
    else "unknown Nexus error"

-- What is printed: a message, or only the code, each with the prefix if there is one, and with the
-- facility and the local code of the error.
pub data Printed : Type 0 where
  resolved : Option String → String → ℕ → Printed
  generic : Option String → ℕ → Printed

-- The prefix that is used: NULL and the empty one are none.
unfoldable pub used_prefix : Option String → Option String
used_prefix none = none
used_prefix (some String.[]) = none
used_prefix (some (String.◌∷◌ c s)) = some (String.◌∷◌ c s)

unfoldable pub registered_message {ℓ} :
    {F : Type ℓ} → (F → ℕ → Option String) → Option F → ℕ → Option String → Printed
registered_message call none error prefix = generic prefix error
registered_message call (some formatter) error prefix = elim (call formatter (error_code error)) [
  | none ↦ generic prefix error
  | some message ↦ resolved prefix message error
]

-- Nothing for NEXUS_ERROR_NONE, where the text is empty. `call` is the call of a formatter.
unfoldable pub message_write {ℓ} :
    {F : Type ℓ} → (F → ℕ → Option String) → Registry F → ℕ → Option String → Option Printed
message_write call r error prefix =
    if error == error_none
    then none
    else if is_nexus error
    then some
        (resolved (used_prefix prefix) (nexus_error_message_for_code (error_code error)) error)
    else some (
        registered_message call
          (formatter_lookup r (facility_byte_1_of error) (facility_byte_2_of error)) error
          (used_prefix prefix))

-- The error numbers of the platform.
pub record Errno : Type 0 where
  pub enoent : ℕ
  pub eacces : ℕ
  pub eperm : ℕ
  pub eexist : ℕ
  pub enospc : ℕ
  pub enotempty : ℕ
  pub einval : ℕ

unfoldable pub from_errno : Errno → ℕ → ℕ
from_errno e errno =
    if errno == e.enoent
    then nexus_error 1
    else if errno == e.eacces || errno == e.eperm
    then nexus_error 2
    else if errno == e.eexist
    then nexus_error 3
    else if errno == e.enospc
    then nexus_error 5
    else if errno == e.enotempty
    then nexus_error 4
    else if errno == e.einval
    then nexus_error 6
    else nexus_error 7
