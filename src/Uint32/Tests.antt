-- ===== src/Uint32/Tests.antt =====
-- Counters of a few bits.
use hekaton_system.Prelude.{◌+◌, ◌%◌, ◌^◌, ◌≡◌, refl, true, false, [], ◌∷◌, ltb}
use hekaton_system.Uint32.{
  Unsigned32, representation, increment_inplace, increment_inplace_var, is_greater_than,
}
use hekaton_system.Uint32.Increment.{representation-increment_inplace, increment_inplace_var_cases}
use hekaton_system.Uint32.Compare.{is_greater_than-representation}

abbrev eleven : Unsigned32
eleven = record { bits = true ∷ true ∷ false ∷ true ∷ [] }

abbrev six : Unsigned32
six = record { bits = false ∷ true ∷ true ∷ false ∷ [] }

representation-increment_inplace_example :
    representation (increment_inplace eleven) ≡ (representation eleven + 1) % 2 ^ 4
representation-increment_inplace_example = representation-increment_inplace eleven

increment_inplace_var_example :
    (increment_inplace_var true eleven ≡ increment_inplace eleven)
    × (increment_inplace_var false eleven ≡ eleven)
increment_inplace_var_example = increment_inplace_var_cases eleven

is_greater_than-representation_example :
    is_greater_than eleven six ≡ ltb (representation six) (representation eleven)
is_greater_than-representation_example = is_greater_than-representation eleven six refl
