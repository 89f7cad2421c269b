-- ===== src/Uint128/Tests.antt =====
-- Runs of the 128-bit integers, and their theorems at concrete numbers.
use nexus_c.Base.{ℕ, ◌+◌, ◌*◌, ◌-◌, ◌/◌, ◌%◌, ◌^◌, ◌≡◌, refl, u8, arith}
use nexus_c.Uint128.Arith.{Uint128, make, add, xor, mul, shift_right, fold_to_uint64}
use nexus_c.Uint128.ByteOrder.{
  AllBytes, little_endian, big_endian, value-bytes_read, bytes_read-write,
}
use nexus_c.Uint128.Bytes.{
  bytes_little_endian_write, bytes_little_endian_read, bytes_big_endian_write,
  bytes_big_endian_read,
}
use nexus_c.Uint128.Multiply.{Fits, value}
use nexus_c.Uint128.Shift.{value-operations}

abbrev large : Uint128
large = record { lo = 2 ^ 64 - 3; hi = 2 ^ 63 + 5 }

abbrev other : Uint128
other = record { lo = 2 ^ 63 + 12345; hi = 77 }

large-Fits : Fits large
large-Fits = record { lo = omega arith; hi = omega arith }

other-Fits : Fits other
other-Fits = record { lo = omega arith; hi = omega arith }

carries : add large other ≡ make (2 ^ 63 + 12342) (2 ^ 63 + 83)
unfolding add make
carries = refl

folds : fold_to_uint64 (xor other other) ≡ 0
unfolding fold_to_uint64 xor
folds = refl

abbrev counted : ℕ → ℕ
counted i = u8 (i * 37 + 200)

counted_bytes : AllBytes counted
counted_bytes i = omega arith

value-operations_example :
    (value (add large other) ≡ (value large + value other) % 2 ^ 128)
    × (value (mul large other) ≡ value large * value other % 2 ^ 128)
    × (value (shift_right large 13) ≡ value large / 2 ^ 13)
value-operations_example = value-operations large other 13 large-Fits other-Fits

value-bytes_read_example :
    (value (bytes_little_endian_read counted) ≡ little_endian 16 counted)
    × (value (bytes_big_endian_read counted) ≡ big_endian 16 counted)
value-bytes_read_example = value-bytes_read counted counted_bytes

bytes_read-write_example :
    (bytes_little_endian_read (bytes_little_endian_write large counted) ≡ large)
    × (bytes_big_endian_read (bytes_big_endian_write large counted) ≡ make large.hi large.lo)
bytes_read-write_example = bytes_read-write large counted large-Fits
