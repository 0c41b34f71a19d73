-- ===== src/Uint32/Value.antt =====
-- The number that a list of bits stands for, and `representation` as that number.
use native.Mathlib.Nat.{pow-suc}
use hekaton_system.Prelude.{
  ℕ, ◌+◌, ◌*◌, ◌^◌, ◌<◌, ◌≡◌, Bool, true, false, List, [], ◌∷◌, arith, length, bit_or-two_pow,
  two_pow-add-one, two_pow-add-one-mul,
}
use hekaton_system.Uint32.{Unsigned32, representation_from, representation}

abbrev pub of_bit : Bool → ℕ
of_bit true = 1
of_bit false = 0

-- Least significant bit first.
abbrev pub of_bits : List Bool → ℕ
of_bits [] = 0
of_bits (b ∷ bs) = of_bit b + 2 * of_bits bs

pub of_bits-lt : (bs : List Bool) → of_bits bs < 2 ^ length bs
of_bits-lt [] = omega arith
of_bits-lt (true ∷ bs) = omega (arith, of_bits-lt bs, pow-suc 2 (length bs))
of_bits-lt (false ∷ bs) = omega (arith, of_bits-lt bs, pow-suc 2 (length bs))

representation_from-of_bits :
    (bs : List Bool) (i acc : ℕ)
    → acc < 2 ^ i
    → representation_from bs i acc ≡ acc + 2 ^ i * of_bits bs
unfolding representation_from
representation_from-of_bits [] i acc h = omega arith
representation_from-of_bits (true ∷ bs) i acc h = ground (
  arith,
  bit_or-two_pow i acc h,
  two_pow-add-one-mul i (of_bits bs),
  representation_from-of_bits bs (i + 1) (acc + 2 ^ i) (omega (arith, two_pow-add-one i)),
)
representation_from-of_bits (false ∷ bs) i acc h = omega (
  arith,
  two_pow-add-one-mul i (of_bits bs),
  representation_from-of_bits bs (i + 1) acc (omega (arith, two_pow-add-one i)),
)

-- The fold of `|` over the bits computes the number that the bits spell.
pub representation-of_bits : (u : Unsigned32) → representation u ≡ of_bits u.bits
unfolding representation
representation-of_bits u = omega (arith, representation_from-of_bits u.bits 0 0 (omega arith))
