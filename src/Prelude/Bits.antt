-- ===== src/Prelude/Bits.antt =====
-- `acc | (1 << k)` is a sum while the accumulator stays below `1 << k`.
use Prim.Native.Nat.{ℕ, zero, suc, ◌+◌, ◌*◌, ◌/◌, ◌%◌, ◌^◌, ◌≤◌, ◌<◌, max}
use Prim.Native.Nat.{bit_or, digits, bit_or-bitwise}
use mathlib.Core.Path.{◌≡◌, refl, ap}
use native.Mathlib.Nat.{pow-suc}
use native.Mathlib.Numerals.{add-one}
use native.Mathlib.Omega.{arith}

abbrev or_digits : ℕ → ℕ → ℕ → ℕ
or_digits = digits (λ b. b) max

-- Fuel that covers the left operand gives one result.
or_digits-fuel : (f g a b : ℕ) → a ≤ f → a ≤ g → or_digits f a b ≡ or_digits g a b
or_digits-fuel zero zero a b p q = refl
or_digits-fuel zero (suc g) zero b p q = refl
or_digits-fuel zero (suc g) (suc a) b p q = absurd (omega arith)
or_digits-fuel (suc f) zero zero b p q = refl
or_digits-fuel (suc f) zero (suc a) b p q = absurd (omega arith)
or_digits-fuel (suc f) (suc g) zero b p q = refl
or_digits-fuel (suc f) (suc g) (suc a) b p q =
    omega (arith, or_digits-fuel f g (suc a / 2) (b / 2) (omega arith) (omega arith))

zero-bit_or : (b : ℕ) → bit_or 0 b ≡ b
zero-bit_or b = bit_or-bitwise 0 b

bit_or-halves : (a b : ℕ) → bit_or a b ≡ bit_or (a / 2) (b / 2) * 2 + max (a % 2) (b % 2)
bit_or-halves zero b = omega (arith, zero-bit_or b, zero-bit_or (b / 2))
bit_or-halves (suc a) b = omega (
  arith,
  bit_or-bitwise (suc a) b,
  bit_or-bitwise (suc a / 2) (b / 2),
  or_digits-fuel a (suc a / 2) (suc a / 2) (b / 2) (omega arith) (omega arith),
)

pub bit_or-two_pow : (k a : ℕ) → a < 2 ^ k → bit_or a (2 ^ k) ≡ a + 2 ^ k
bit_or-two_pow zero a h = let e : a ≡ 0 = omega arith in rw e refl
bit_or-two_pow (suc k) a h = ground (
  arith,
  pow-suc 2 k,
  bit_or-halves a (2 ^ suc k),
  bit_or-two_pow k (a / 2) (omega (arith, pow-suc 2 k)),
)

-- `1 << (k + 1)` is twice `1 << k`.
pub two_pow-add-one : (k : ℕ) → 2 ^ (k + 1) ≡ 2 * 2 ^ k
two_pow-add-one k = rw add-one (omega (arith, pow-suc 2 k))

pub two_pow-add-one-mul : (k v : ℕ) → 2 ^ (k + 1) * v ≡ 2 * (2 ^ k * v)
two_pow-add-one-mul k v = omega (arith, ap (λ (t : ℕ). t * v) (two_pow-add-one k))
