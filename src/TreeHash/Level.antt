-- ===== src/TreeHash/Level.antt =====
-- The tree math: the node at a place of a level, its level and its children.
use native.Mathlib.Nat.{pow-suc, pow-succ', mod-eq_of_lt, one-le-pow, pow-le-pow_right}
use hekaton_system.Prelude.{
  ℕ, zero, suc, ◌+◌, ◌-◌, ◌*◌, ◌%◌, ◌^◌, ◌≤◌, ◌<◌, ◌≡◌, refl, ap, ◌∙◌, sym, some, arith, true,
  false, ◌==◌, bit_xor, bit_xor-zero, bit_xor-odd_even, bit_xor-odd_odd, bit_xor-even_odd, half_odd,
  lt→ltb, two_pow-add-one, two_pow-add-one-mul,
}
use hekaton_system.TreeHash.Node.{trailing_ones, level, left_child, right_child, node_at, shl_one}

-- The node at a place of a level, counted from the left.
abbrev pub node_number : ℕ → ℕ → ℕ
node_number zero place = 2 * place
node_number (suc l) place = 2 * node_number l place + 1

pub node_number-closed : (l u : ℕ) → node_number l u ≡ u * 2 ^ (l + 1) + (2 ^ l - 1)
node_number-closed zero u = omega arith
node_number-closed (suc l) u = omega (
  arith,
  node_number-closed l u,
  two_pow-add-one-mul (suc l) u,
  two_pow-add-one-mul l u,
  pow-suc 2 l,
  one-le-pow l 2 (omega arith),
  ap (λ (t : ℕ). t * u) (pow-suc 2 l),
)

pub node_number-lt : (j l u : ℕ) → u < 2 ^ j → node_number l u < 2 ^ (j + l + 1)
node_number-lt j zero u h =
    omega (arith, two_pow-add-one j, ap (λ (t : ℕ). 2 ^ (t + 1)) (zero_right j))
  where
    zero_right : (n : ℕ) → n + 0 ≡ n
    zero_right n = omega arith
node_number-lt j (suc l) u h =
    omega
      (arith, node_number-lt j l u h, pow-suc 2 (j + l + 1), ap (λ (t : ℕ). 2 ^ t) (suc_inside j l))
  where
    suc_inside : (m n : ℕ) → m + suc n + 1 ≡ suc (m + n + 1)
    suc_inside m n = omega arith

even_digit : (n : ℕ) → ((2 * n) % 2 == 1) ≡ false
even_digit n = ground arith

odd_digit : (n : ℕ) → ((2 * n + 1) % 2 == 1) ≡ true
odd_digit n = ground arith

trailing_ones-node_number : (width l u : ℕ) → l ≤ width → trailing_ones width (node_number l u) ≡ l
unfolding trailing_ones
trailing_ones-node_number zero l u h = omega arith
trailing_ones-node_number (suc w) zero u h = rw (even_digit u) refl
trailing_ones-node_number (suc w) (suc l) u h =
    rw (odd_digit (node_number l u), half_odd (node_number l u))
      (ap suc (trailing_ones-node_number w l u (omega arith)))

pub level-node_number : (l u : ℕ) → l ≤ 32 → level (node_number l u) ≡ l
unfolding level
level-node_number l u h = trailing_ones-node_number 32 l u h

-- The child to the left clears the highest of the trailing ones.
node_number-left : (l u : ℕ) → bit_xor (node_number (suc l) u) (2 ^ l) ≡ node_number l (2 * u)
node_number-left zero u = bit_xor-odd_odd (2 * u) 0 ∙ ap (λ (t : ℕ). 2 * t) (bit_xor-zero (2 * u))
node_number-left (suc l) u =
    ap (bit_xor (node_number (suc (suc l)) u)) (pow-succ' 2 l)
    ∙ bit_xor-odd_even (node_number (suc l) u) (2 ^ l)
    ∙ ap (λ (t : ℕ). 2 * t + 1) (node_number-left l u)

three_doubled : (l : ℕ) → 3 * 2 ^ suc l ≡ 2 * (3 * 2 ^ l)
three_doubled l = omega (arith, pow-suc 2 l)

-- The child to the right sets the zero above them as well.
node_number-right :
    (l u : ℕ) → bit_xor (node_number (suc l) u) (3 * 2 ^ l) ≡ node_number l (2 * u + 1)
node_number-right zero u =
    bit_xor-odd_odd (2 * u) 1
    ∙ ap (λ (t : ℕ). 2 * t) (bit_xor-even_odd u 0 ∙ ap (λ (t : ℕ). 2 * t + 1) (bit_xor-zero u))
node_number-right (suc l) u =
    ap (bit_xor (node_number (suc (suc l)) u)) (three_doubled l)
    ∙ bit_xor-odd_even (node_number (suc l) u) (3 * 2 ^ l)
    ∙ ap (λ (t : ℕ). 2 * t + 1) (node_number-right l u)

level_minus_one : (l : ℕ) → suc l - 1 ≡ l
level_minus_one l = omega arith

level_positive : (l : ℕ) → (suc l == 0) ≡ false
level_positive l = ground arith

three_fits : (l : ℕ) → l < 31 → 3 * 2 ^ l % 2 ^ 32 ≡ 3 * 2 ^ l
three_fits l h =
    mod-eq_of_lt
      (omega (arith, pow-le-pow_right {n = 2} (omega arith) {i = l} {j = 30} (omega arith)))

-- The children of the node at a place of a level above the leaves stand on the level below, at twice
-- the place and the next place.
pub left_child-node_number :
    (l u : ℕ) → l < 32 → left_child (node_number (suc l) u) ≡ some (node_number l (2 * u))
unfolding left_child
left_child-node_number l u h =
    rw (level-node_number (suc l) u (omega arith), level_positive l, level_minus_one l)
      (ap some (node_number-left l u))

pub right_child-node_number :
    (l u : ℕ) → l < 31 → right_child (node_number (suc l) u) ≡ some (node_number l (2 * u + 1))
unfolding right_child
right_child-node_number l u h =
    rw
      (
        level-node_number (suc l) u (omega arith),
        level_positive l,
        level_minus_one l,
        three_fits l h,
      )
      (ap some (node_number-right l u))

pub shl_one-some : (k : ℕ) → k < 32 → shl_one k ≡ some (2 ^ k)
unfolding shl_one
shl_one-some k h = rw (lt→ltb k 32 h) refl

-- `node_at` computes the node, where the level is below 31 and the node has 32 bits.
pub node_at-node_number :
    (l u : ℕ) → l < 31 → node_number l u < 2 ^ 32 → node_at l u ≡ some (node_number l u)
unfolding node_at
node_at-node_number l u h p =
    let c = node_number-closed l u in
    rw (shl_one-some (l + 1) (omega arith))
      (rw (mod-eq_of_lt {n = u * 2 ^ (l + 1)} {m = 2 ^ 32} (omega arith)) (ap some (sym c)))
