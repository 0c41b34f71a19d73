-- ===== src/Field.antt =====
-- What the code relies on of arkworks' `PrimeField` and of its gadgets, which are not part of the
-- repository: the interface that the rest of the library is generic over. A circuit variable
-- `FpVar<F>` stands for the value that the assignment gives it, so a gadget is the operation on
-- values, and a `Boolean<F>` is a Boolean.
pub mod Tests
use hekaton_system.Prelude.{ℕ, ◌+◌, ◌<◌, ◌≡◌, ◌↔◌, Bool, true, List}
use hekaton_system.Uint32.Value.{of_bits}

-- The operations: `F::ZERO`, `F::one()`, `+`, `-`, `*`, `F::from` on unsigned integers, `is_eq` and
-- `Boolean::le_bits_to_fp_var`.
pub record FieldOps {ℓ} (F : Type ℓ) : Type ℓ where
  pub zero_elem : F
  pub one_elem : F
  pub add : F → F → F
  pub sub : F → F → F
  pub mul : F → F → F
  pub from_uint : ℕ → F
  pub is_eq : F → F → Bool
  pub le_bits_to_fp : List Bool → F

-- Their documented behaviour, as far as it is used. `modulus` is the field's characteristic.
pub record IsLawful {ℓ} {F : Type ℓ} (o : FieldOps F) : Type ℓ where
  pub modulus : ℕ
  pub is_eq_iff : (a b : F) → (o.is_eq a b ≡ true) ↔ (a ≡ b)
  pub mul_comm : (a b : F) → o.mul a b ≡ o.mul b a
  pub mul_assoc : (a b c : F) → o.mul (o.mul a b) c ≡ o.mul a (o.mul b c)
  pub one_mul : (a : F) → o.mul o.one_elem a ≡ a
  pub from_uint-zero : o.from_uint 0 ≡ o.zero_elem
  pub from_uint-one : o.from_uint 1 ≡ o.one_elem
  pub from_uint-add : (m n : ℕ) → o.from_uint (m + n) ≡ o.add (o.from_uint m) (o.from_uint n)
  pub from_uint-injective :
      (m n : ℕ) → m < modulus → n < modulus → o.from_uint m ≡ o.from_uint n → m ≡ n
  pub le_bits_to_fp_lem : (bs : List Bool) → o.le_bits_to_fp bs ≡ o.from_uint (of_bits bs)

pub record PrimeField {ℓ} (F : Type ℓ) : Type ℓ where
  pub ops : FieldOps F
  pub open ops use *
  pub lawful : IsLawful ops
  pub open lawful use *
