-- ===== src/Field/Tests.antt =====
-- The numbers without reduction, which have the properties that are asked of a field: for the
-- concrete inputs of the other modules' tests.
use native.Mathlib.Nat.{mul_comm, mul_assoc}
use hekaton_system.Prelude.{ℕ, ◌+◌, ◌-◌, ◌*◌, ◌^◌, refl, ◌==◌, ==_iff, arith}
use hekaton_system.Uint32.Value.{of_bits}
use hekaton_system.Field.{FieldOps, PrimeField}

abbrev number_ops : FieldOps ℕ
number_ops = record {
  zero_elem = 0;
  one_elem = 1;
  add = λ a b. a + b;
  sub = λ a b. a - b;
  mul = λ a b. a * b;
  from_uint = λ n. n;
  is_eq = λ a b. a == b;
  le_bits_to_fp = of_bits;
}

instance abbrev pub numbers : PrimeField ℕ
numbers = record {
  ops = number_ops;
  lawful = record {
    modulus = 2 ^ 216;
    is_eq_iff = ==_iff;
    mul_comm = mul_comm;
    mul_assoc = mul_assoc;
    one_mul = λ a. omega arith;
    from_uint-zero = refl;
    from_uint-one = refl;
    from_uint-add = λ m n. refl;
    from_uint-injective = λ m n h h' e. e;
    le_bits_to_fp_lem = λ bs. refl;
  };
}
