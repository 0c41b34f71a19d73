-- ===== src/SparseTree/Index.antt =====
-- The sibling's index, `i ^ 1`, and what the tree holds at a node after an insertion elsewhere.
use Prim.Native.Nat.{digits, differ, bit_xor-bitwise}
use hekaton_system.Prelude.{ℕ, zero, suc, ◌+◌, ◌*◌, ◌/◌, ◌%◌, ◌≤◌, ◌≡◌, refl, ◌∙◌, bit_xor, arith}

differ-zero : (x : ℕ) → differ x 0 ≡ x
differ-zero zero = refl
differ-zero (suc x) = refl

xor_digits-zero : (f a : ℕ) → a ≤ f → digits (λ b. b) differ f a 0 ≡ a
xor_digits-zero zero a h = let e : a ≡ 0 = omega arith in rw e refl
xor_digits-zero (suc f) zero h = refl
xor_digits-zero (suc f) (suc a) h =
    omega (arith, xor_digits-zero f (suc a / 2) (omega arith), differ-zero (suc a % 2))

xor_one : (i : ℕ) → bit_xor i 1 ≡ i / 2 * 2 + differ (i % 2) 1
xor_one zero = bit_xor-bitwise 0 1
xor_one (suc a) =
    omega (arith, bit_xor-bitwise (suc a) 1, xor_digits-zero a (suc a / 2) (omega arith))

pub xor_one-even : (i : ℕ) → i % 2 ≡ 0 → bit_xor i 1 ≡ i / 2 * 2 + 1
xor_one-even i h = xor_one i ∙ rw h refl

pub xor_one-odd : (i : ℕ) → i % 2 ≡ 1 → bit_xor i 1 ≡ i / 2 * 2
xor_one-odd i h = xor_one i ∙ rw h (omega arith)
