-- ===== src/Errors/Tests.antt =====
-- Runs of the registry on concrete facilities.
use Prim.Native.String.{String}
use nexus_c.Base.{ℕ, ◌≡◌, ◌≢◌, refl, Option, some, none, arith}
use nexus_c.Errors.{
  Registry, Printed, error_none, error_make, formatter_lookup, formatter_register,
  formatter_unregister, message_write, same_facility, find_from, formatter_find, facility_is_nexus,
}
use nexus_c.Errors.Calls.{Registered, registry-IsMap}
use nexus_c.Errors.Codes.{IsUsed, message_write-registered}
use nexus_c.Errors.Facilities.{IsRegistry, at_facility}

-- A formatter is its number.
abbrev no_entries : Registry ℕ
no_entries = record {
  formatters = λ i. record { facility_byte_1 = 0; facility_byte_2 = 0; formatter = none };
  formatter_count = 0;
}

abbrev one_entry : Registry ℕ
one_entry = record {
  formatters = λ i. record { facility_byte_1 = 65; facility_byte_2 = 66; formatter = some 7 };
  formatter_count = 1;
}

one_entry-IsRegistry : IsRegistry one_entry
one_entry-IsRegistry = record {
  bounded = omega arith;
  distinct = λ i j b1 b2 p q s t. omega arith;
  present = λ i p. (7, refl);
}

adds : (formatter_register no_entries 65 66 (some 7)).1 ≡ error_none
unfolding formatter_register formatter_find find_from facility_is_nexus
adds = refl

registry-IsMap_example :
    Registered one_entry 67 68 9 (formatter_register one_entry 67 68 (some 9))
    × IsRegistry (formatter_unregister one_entry 67 68)
    × ((c1 c2 : ℕ)
        → formatter_lookup (formatter_unregister one_entry 67 68) c1 c2
          ≡ at_facility (formatter_lookup one_entry) 67 68 none c1 c2)
registry-IsMap_example = registry-IsMap one_entry 67 68 9 one_entry-IsRegistry

abbrev describe : ℕ → ℕ → Option String
describe formatter code = some "out of paper"

second_added : (formatter_register one_entry 67 68 (some 9)).1 ≡ error_none
unfolding formatter_register formatter_find find_from facility_is_nexus same_facility
second_added = refl

is_an_error : error_make 67 68 5 ≢ error_none
unfolding error_make
is_an_error e = omega (arith, e)

message_write-registered_example :
    (used : Option String) × IsUsed (some "printer") used
    × (message_write describe
          ((formatter_register one_entry 67 68 (some 9)).0)
          (error_make 67 68 5)
          (some "printer")
        ≡ some (Printed.resolved used "out of paper" (error_make 67 68 5)))
    × (message_write describe
          (formatter_unregister one_entry 67 68)
          (error_make 67 68 5)
          (some "printer")
        ≡ some (Printed.generic used (error_make 67 68 5)))
message_write-registered_example =
    message_write-registered describe one_entry 67 68 5 9 "out of paper" (some "printer")
      one_entry-IsRegistry (omega arith) (omega arith) (omega arith) is_an_error second_added refl
