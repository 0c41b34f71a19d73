-- ===== src/Uint32/Increment.antt =====
-- `increment_inplace` in both its forms: what it does to the number.
use native.Mathlib.Nat.{pow-suc, mod-eq_of_lt, mod-eq-sub-mod}
use hekaton_system.Prelude.{
  ℕ, ◌+◌, ◌^◌, ◌%◌, ◌<◌, ◌≡◌, refl, sym, ap, ap₂, ◌∙◌, ◌-◌, ◌⊎◌, inl, inr, Bool, true, false, List,
  [], ◌∷◌, arith, length,
}
use hekaton_system.Uint32.{
  Unsigned32, representation, increment_bits, increment_inplace, increment_var_bits,
  increment_inplace_var,
}
use hekaton_system.Uint32.Value.{of_bit, of_bits, of_bits-lt, representation-of_bits}

-- The bits after hold the number before plus the carry, up to a wrap at the width.
abbrev Adds : List Bool → List Bool → ℕ → Type 0
Adds before after carry =
    (length after ≡ length before)
    × ((of_bits after ≡ of_bits before + carry)
        ⊎ (of_bits after + 2 ^ length before ≡ of_bits before + carry))

increment_var_bits-Adds :
    (bs : List Bool) (carry : Bool) → Adds bs (increment_var_bits bs carry) (of_bit carry)
unfolding increment_var_bits
increment_var_bits-Adds [] true = (refl, inr refl)
increment_var_bits-Adds [] false = (refl, inl refl)
increment_var_bits-Adds (true ∷ bs) true =
    ground (arith, increment_var_bits-Adds bs true, pow-suc 2 (length bs))
increment_var_bits-Adds (true ∷ bs) false = ground (
  arith,
  increment_var_bits-Adds bs false,
  of_bits-lt (increment_var_bits bs false),
  pow-suc 2 (length bs),
)
increment_var_bits-Adds (false ∷ bs) true =
    ground (arith, increment_var_bits-Adds bs false, pow-suc 2 (length bs))
increment_var_bits-Adds (false ∷ bs) false =
    ground (arith, increment_var_bits-Adds bs false, pow-suc 2 (length bs))

increment_var_bits-false : (bs : List Bool) → increment_var_bits bs false ≡ bs
unfolding increment_var_bits
increment_var_bits-false [] = refl
increment_var_bits-false (true ∷ bs) = ap (◌∷◌ true) (increment_var_bits-false bs)
increment_var_bits-false (false ∷ bs) = ap (◌∷◌ false) (increment_var_bits-false bs)

-- The loop with the early exit computes what the loop over all the bits does.
increment_bits-var : (bs : List Bool) (c : Bool) → increment_bits bs c ≡ increment_var_bits bs c
unfolding increment_bits increment_var_bits
increment_bits-var [] c = refl
increment_bits-var (true ∷ bs) true = ap (◌∷◌ false) (increment_bits-var bs true)
increment_bits-var (false ∷ bs) true = ap (◌∷◌ true) (increment_bits-var bs false)
increment_bits-var (b ∷ bs) false =
    ap₂ ◌∷◌ (ground arith)
      (sym (increment_var_bits-false bs) ∙ ap (increment_var_bits bs) (ground arith))

wraps : (r n m : ℕ) → r < m → (r ≡ n) ⊎ (r + m ≡ n) → r ≡ n % m
wraps r n m h (inl e) = rw (← e) (sym (mod-eq_of_lt h))
wraps r n m h (inr e) = omega (
  arith,
  mod-eq-sub-mod {n = n} {m = m} (omega arith),
  ap (λ (t : ℕ). t % m) (let d : n - m ≡ r = omega arith in d),
  mod-eq_of_lt h,
)

of_bits-increment_var :
    (bs : List Bool) (c : Bool)
    → of_bits (increment_var_bits bs c) ≡ (of_bits bs + of_bit c) % 2 ^ length bs
of_bits-increment_var bs c =
    let adds = increment_var_bits-Adds bs c in
    wraps _ _ _ (rw (← adds.0) (of_bits-lt (increment_var_bits bs c))) adds.1

-- Incrementing a counter adds one, modulo two to the number of its bits.
pub representation-increment_inplace :
    (u : Unsigned32)
    → representation (increment_inplace u) ≡ (representation u + 1) % 2 ^ length u.bits
unfolding increment_inplace
representation-increment_inplace u =
    rw (representation-of_bits u, representation-of_bits (increment_inplace u), increment_bits-var)
      (of_bits-increment_var u.bits true)

-- The circuit's increment with its carry witness at 1 is the native increment; with that witness
-- at 0 it leaves the counter as it was.
pub increment_inplace_var_cases :
    (u : Unsigned32)
    → (increment_inplace_var true u ≡ increment_inplace u) × (increment_inplace_var false u ≡ u)
unfolding increment_inplace increment_inplace_var
increment_inplace_var_cases u = (
  ap (λ bs. record { bits = bs }) (sym (increment_bits-var u.bits true)),
  ap (λ bs. record { bits = bs }) (increment_var_bits-false u.bits),
)
