-- ===== src/Uint32.antt =====
-- distributed-prover/src/uint32.rs: counters held as a list of bits, least significant first, and
-- their circuit form. A circuit bit stands for the value that the assignment gives it.
pub mod Value
pub mod Increment
pub mod Compare
mod Tests
use hekaton_system.Prelude.{
  ℕ, ◌+◌, ◌^◌, bit_or, Bool, true, false, not, xor, ◌&&◌, ◌||◌, List, [], ◌∷◌, reverse, replicate,
  Option, none, some, if◌then◌else◌,
}

pub record Unsigned32 : Type 0 where
  pub bits : List Bool

-- `Unsigned32::default`.
abbrev pub default : Unsigned32
default = record { bits = replicate 32 false }

-- The fold of `representation`: the bits left, the index of the first of them, the accumulator.
unfoldable pub representation_from : List Bool → ℕ → ℕ → ℕ
representation_from [] index acc = acc
representation_from (bit ∷ bits) index acc =
    representation_from bits (index + 1) (if bit then bit_or acc (2 ^ index) else acc)

unfoldable pub representation : Unsigned32 → ℕ
unfolding representation_from
representation u = representation_from u.bits 0 0

-- The loop of `increment_inplace`, which stops at the first position with no carry.
unfoldable pub increment_bits : List Bool → Bool → List Bool
increment_bits [] carry = []
increment_bits (bit ∷ bits) carry = if carry then not bit ∷ increment_bits bits bit else bit ∷ bits

unfoldable pub increment_inplace : Unsigned32 → Unsigned32
unfolding increment_bits
increment_inplace u = record { bits = increment_bits u.bits true }

-- `Boolean::conditionally_select`.
abbrev pub conditionally_select {ℓ} : {A : Type ℓ} → Bool → A → A → A
conditionally_select c a b = if c then a else b

-- The loop of the circuit's `increment_inplace` runs over every bit.
unfoldable pub increment_var_bits : List Bool → Bool → List Bool
increment_var_bits [] carry = []
increment_var_bits (bit ∷ bits) carry =
    conditionally_select carry (not bit) bit
    ∷ increment_var_bits bits (conditionally_select bit carry false)

-- `Unsigned32Var::increment_inplace`. The first carry is a new witness, so it is an argument here:
-- the code fills it with `true`, and adds no constraint to it.
unfoldable pub increment_inplace_var : Bool → Unsigned32 → Unsigned32
unfolding increment_var_bits
increment_inplace_var carry u = record { bits = increment_var_bits u.bits carry }

-- The variables of the loop of `is_greater_than`.
pub record Comparison : Type 0 where
  pub greater : Bool
  pub found_difference : Bool

-- One round, on the two bits at a position.
unfoldable pub compare_bit : Bool → Bool → Comparison → Comparison
unfolding xor
compare_bit a b c =
    let a_greater_b = a && not b in
    let difference = xor a b in
    let found_a_new_difference = not c.found_difference && difference in
    record {
      greater = conditionally_select found_a_new_difference a_greater_b c.greater;
      found_difference = c.found_difference || found_a_new_difference;
    }

-- The loop over the zipped lists, most significant bit first.
unfoldable pub compare_bits : List Bool → List Bool → Comparison → Comparison
unfolding compare_bit
compare_bits [] bs c = c
compare_bits (a ∷ as_left) [] c = c
compare_bits (a ∷ as_left) (b ∷ bs) c = compare_bits as_left bs (compare_bit a b c)

unfoldable pub is_greater_than : Unsigned32 → Unsigned32 → Bool
unfolding compare_bits
is_greater_than u v =
    (compare_bits (reverse u.bits) (reverse v.bits)
      (record { greater = false; found_difference = false })).greater

-- The loop of `enforce_equal`, which indexes the other counter at every position of the first.
unfoldable pub equal_bits : List Bool → List Bool → Option Bool
equal_bits [] bs = some true
equal_bits (a ∷ as_left) [] = none
equal_bits (a ∷ as_left) (b ∷ bs) = elim (equal_bits as_left bs) [
  | none ↦ none
  | some e ↦ some (not (xor a b) && e)
]

unfoldable pub enforce_equal : Unsigned32 → Unsigned32 → Option Bool
enforce_equal u v = equal_bits u.bits v.bits
