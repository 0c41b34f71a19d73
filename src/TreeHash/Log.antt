-- ===== src/TreeHash/Log.antt =====
-- The binary logarithm of util.rs.
use native.Mathlib.Nat.{div-eq_of_lt, div-eq-sub-div, one-le-pow, pow-le-pow_right}
use hekaton_system.Prelude.{
  ℕ, zero, suc, ◌+◌, ◌-◌, ◌/◌, ◌^◌, ◌≤◌, ◌<◌, ◌≡◌, refl, ap, ◌∙◌, some, arith, Returns, returns,
  Returns-inv, true, false, ltb, ◌==◌, dec_lt, ◌⊎◌, inl, inr,
}
use hekaton_system.TreeHash.Node.{log2, log2_loop}

-- `x >> k` is positive exactly when `x` has a digit at `k` or above.
shift-small : (x k : ℕ) → x < 2 ^ k → ltb 0 (x / 2 ^ k) ≡ false
shift-small x k h = rw (div-eq_of_lt h) refl

shift-large : (x k : ℕ) → 2 ^ k ≤ x → ltb 0 (x / 2 ^ k) ≡ true
shift-large x k h = rw (div-eq-sub-div (one-le-pow k 2 (omega arith)) h) (ground arith)

abbrev IsLog : ℕ → ℕ → Type 0
IsLog x k = (2 ^ k ≤ x) × (x < 2 ^ (k + 1))

cancel : (k : ℕ) → k + 1 - 1 ≡ k
cancel k = omega arith

shift : (m n : ℕ) → suc m + n ≡ m + (n + 1)
shift m n = omega arith

log2_loop-more :
    (rounds x k : ℕ) → 2 ^ k ≤ x → log2_loop (suc rounds) x k ≡ log2_loop rounds x (k + 1)
unfolding log2_loop
log2_loop-more rounds x k p = rw (shift-large x k p) refl

log2_loop-IsLog :
    (rounds x k : ℕ)
    → 2 ^ k ≤ x
    → x < 2 ^ (rounds + k)
    → Returns (IsLog x) (log2_loop rounds x (k + 1))
unfolding log2_loop
log2_loop-IsLog zero x k p q =
    let e : 0 + k ≡ k = omega arith in absurd (omega (arith, ap (λ (t : ℕ). 2 ^ t) e))
log2_loop-IsLog (suc rounds) x k p q = elim (dec_lt x (2 ^ (k + 1))) [
  | yes h ↦ rw (shift-small x (k + 1) h) (rw (cancel k) (returns (p, h)))
  | no h ↦ rw (shift-large x (k + 1) (omega arith)) (
      log2_loop-IsLog rounds x (k + 1) (omega arith)
        (omega (arith, ap (λ (t : ℕ). 2 ^ t) (shift rounds k))))
]

positive : (x : ℕ) → (suc x == 0) ≡ false
positive x = ground arith

log2-suc : (x : ℕ) → log2 (suc x) ≡ log2_loop 64 (suc x) 0
unfolding log2
log2-suc x = rw (positive x) refl

-- The logarithm of a number below 2^63 is computed without a panic, and is the position of its
-- highest digit; that of 0 is 0.
pub log2-IsLog :
    (x : ℕ)
    → x < 2 ^ 63
    → (k : ℕ) × (log2 x ≡ some k) × (((x ≡ 0) × (k ≡ 0)) ⊎ ((2 ^ k ≤ x) × (x < 2 ^ (k + 1))))
unfolding log2
log2-IsLog zero h = (0, refl, inl (refl, refl))
log2-IsLog (suc x) h =
    let (k, e, p) = Returns-inv (log2_loop-IsLog 63 (suc x) 0 (omega arith) h) in
    (k, log2-suc x ∙ log2_loop-more 63 (suc x) 0 (omega arith) ∙ e, inr p)

log_le : (x j k : ℕ) → 2 ^ j ≤ x → x < 2 ^ (k + 1) → j ≤ k
log_le x j k p q = elim (dec_lt k j) [
  | no h ↦ omega arith
  | yes h ↦
      absurd
        (omega (arith, pow-le-pow_right {n = 2} (omega arith) {i = k + 1} {j = j} (omega arith)))
]

pub log2_unique : (x k : ℕ) → x < 2 ^ 63 → 2 ^ k ≤ x → x < 2 ^ (k + 1) → log2 x ≡ some k
log2_unique x k b p q =
    let (j, e, c) = log2-IsLog x b in
    elim c [
      | inl z ↦ absurd (omega (arith, z.0, one-le-pow k 2 (omega arith)))
      | inr t ↦
          let same : j ≡ k = omega (arith, log_le x j k t.0 q, log_le x k j p t.1) in
          e ∙ ap some same
    ]
