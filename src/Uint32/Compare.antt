-- ===== src/Uint32/Compare.antt =====
-- `is_greater_than` of uint32.rs and the order of the numbers.
use hekaton_system.Prelude.{
  ℕ, ◌+◌, ◌*◌, ◌≡◌, refl, ap, Bool, true, false, not, xor, List, [], ◌∷◌, ◌++◌, reverse,
  reverse-cons, arith, length, length-append, ltb, ◌==◌,
}
use hekaton_system.Uint32.{
  Unsigned32, Comparison, representation, compare_bit, compare_bits, is_greater_than,
}
use hekaton_system.Uint32.Value.{of_bit, of_bits, representation-of_bits}

length-reverse : (xs : List Bool) → length (reverse xs) ≡ length xs
length-reverse [] = refl
length-reverse (x ∷ xs) =
    omega
      (arith, ap length (reverse-cons x xs), length-append (reverse xs) (x ∷ []), length-reverse xs)

-- The last position of the zipped lists is compared last.
compare_bits-append :
    (xs ys : List Bool) (a b : Bool) (c : Comparison)
    → length xs ≡ length ys
    → compare_bits (xs ++ a ∷ []) (ys ++ b ∷ []) c ≡ compare_bit a b (compare_bits xs ys c)
unfolding compare_bits
compare_bits-append [] [] a b c e = refl
compare_bits-append [] (y ∷ ys) a b c e = absurd (omega arith)
compare_bits-append (x ∷ xs) [] a b c e = absurd (omega arith)
compare_bits-append (x ∷ xs) (y ∷ ys) a b c e =
    compare_bits-append xs ys a b (compare_bit x y c) (omega arith)

-- What the loop knows after the high bits: whether they differ, and which number is greater.
abbrev verdict : ℕ → ℕ → Comparison
verdict m n = record { greater = ltb n m; found_difference = not (m == n) }

compare_bit-verdict :
    (a b : Bool) (m n : ℕ)
    → compare_bit a b (verdict m n) ≡ verdict (of_bit a + 2 * m) (of_bit b + 2 * n)
unfolding compare_bit xor
compare_bit-verdict true true m n = ground arith
compare_bit-verdict true false m n = ground arith
compare_bit-verdict false true m n = ground arith
compare_bit-verdict false false m n = ground arith

compare_bits-verdict :
    (xs ys : List Bool)
    → length xs ≡ length ys
    → compare_bits (reverse xs) (reverse ys) (verdict 0 0) ≡ verdict (of_bits xs) (of_bits ys)
compare_bits-verdict [] [] e = unfold compare_bits in refl
compare_bits-verdict [] (y ∷ ys) e = absurd (omega arith)
compare_bits-verdict (x ∷ xs) [] e = absurd (omega arith)
compare_bits-verdict (x ∷ xs) (y ∷ ys) e =
    rw
      (
        reverse-cons x xs,
        reverse-cons y ys,
        compare_bits-append (reverse xs) (reverse ys) x y (verdict 0 0)
            (omega (arith, length-reverse xs, length-reverse ys)),
        compare_bits-verdict xs ys (omega arith),
      )
      (compare_bit-verdict x y (of_bits xs) (of_bits ys))

-- On counters of equal width the comparison circuit computes the order of the numbers.
pub is_greater_than-representation :
    (u v : Unsigned32)
    → length u.bits ≡ length v.bits
    → is_greater_than u v ≡ ltb (representation v) (representation u)
unfolding is_greater_than
is_greater_than-representation u v e =
    rw (representation-of_bits u, representation-of_bits v)
      (ap (λ c. c.greater) (compare_bits-verdict u.bits v.bits e))
