-- ===== src/Prelude/Xor.antt =====
-- The exclusive or of numbers, digit by digit.
use Prim.Native.Nat.{ℕ, zero, suc, ◌+◌, ◌*◌, ◌/◌, ◌%◌, ◌≤◌}
use Prim.Native.Nat.{bit_xor, digits, bit_xor-bitwise, differ}
use mathlib.Core.Path.{◌≡◌, refl}
use native.Mathlib.Omega.{arith}

abbrev xor_digits : ℕ → ℕ → ℕ → ℕ
xor_digits = digits (λ b. b) differ

-- Fuel that covers the left operand gives one result.
xor_digits-fuel : (f g a b : ℕ) → a ≤ f → a ≤ g → xor_digits f a b ≡ xor_digits g a b
xor_digits-fuel zero zero a b p q = refl
xor_digits-fuel zero (suc g) zero b p q = refl
xor_digits-fuel zero (suc g) (suc a) b p q = absurd (omega arith)
xor_digits-fuel (suc f) zero zero b p q = refl
xor_digits-fuel (suc f) zero (suc a) b p q = absurd (omega arith)
xor_digits-fuel (suc f) (suc g) zero b p q = refl
xor_digits-fuel (suc f) (suc g) (suc a) b p q =
    omega (arith, xor_digits-fuel f g (suc a / 2) (b / 2) (omega arith) (omega arith))

zero-bit_xor : (b : ℕ) → bit_xor 0 b ≡ b
zero-bit_xor b = bit_xor-bitwise 0 b

differ-zero : (a : ℕ) → differ a 0 ≡ a
differ-zero zero = refl
differ-zero (suc a) = refl

bit_xor-halves : (a b : ℕ) → bit_xor a b ≡ bit_xor (a / 2) (b / 2) * 2 + differ (a % 2) (b % 2)
bit_xor-halves zero b = omega (arith, zero-bit_xor b, zero-bit_xor (b / 2))
bit_xor-halves (suc a) b = omega (
  arith,
  bit_xor-bitwise (suc a) b,
  bit_xor-bitwise (suc a / 2) (b / 2),
  xor_digits-fuel a (suc a / 2) (suc a / 2) (b / 2) (omega arith) (omega arith),
)

bit_xor-zero_within : (f a : ℕ) → a ≤ f → bit_xor a 0 ≡ a
bit_xor-zero_within zero a h = let e : a ≡ 0 = omega arith in rw e (zero-bit_xor 0)
bit_xor-zero_within (suc f) a h =
    omega
      (arith, bit_xor-halves a 0, bit_xor-zero_within f (a / 2) (omega arith), differ-zero (a % 2))

pub bit_xor-zero : (a : ℕ) → bit_xor a 0 ≡ a
bit_xor-zero a = bit_xor-zero_within a a (omega arith)

pub half_even : (n : ℕ) → 2 * n / 2 ≡ n
half_even n = omega arith

pub half_odd : (n : ℕ) → (2 * n + 1) / 2 ≡ n
half_odd n = omega arith

digit_even : (n : ℕ) → 2 * n % 2 ≡ 0
digit_even n = omega arith

digit_odd : (n : ℕ) → (2 * n + 1) % 2 ≡ 1
digit_odd n = omega arith

-- The last digit apart.
pub bit_xor-odd_even : (a b : ℕ) → bit_xor (2 * a + 1) (2 * b) ≡ 2 * bit_xor a b + 1
bit_xor-odd_even a b =
    rw (bit_xor-halves (2 * a + 1) (2 * b), half_odd a, half_even b, digit_odd a, digit_even b)
      (omega arith)

pub bit_xor-odd_odd : (a b : ℕ) → bit_xor (2 * a + 1) (2 * b + 1) ≡ 2 * bit_xor a b
bit_xor-odd_odd a b =
    rw (bit_xor-halves (2 * a + 1) (2 * b + 1), half_odd a, half_odd b, digit_odd a, digit_odd b)
      (omega arith)

pub bit_xor-even_odd : (a b : ℕ) → bit_xor (2 * a) (2 * b + 1) ≡ 2 * bit_xor a b + 1
bit_xor-even_odd a b =
    rw (bit_xor-halves (2 * a) (2 * b + 1), half_even a, half_odd b, digit_even a, digit_odd b)
      (omega arith)
