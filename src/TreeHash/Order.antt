-- ===== src/TreeHash/Order.antt =====
-- tree_hash_circuit.rs: the order of the nodes in which the subcircuits compute them. The loop of
-- `subcircuit_idx_to_node_idx` goes from the leaves up, where its comment in the source says from top
-- to bottom.
use native.Mathlib.Nat.{pow-suc, pow-le-pow_right, one-le-pow}
use hekaton_system.Prelude.{
  ℕ, zero, suc, ◌+◌, ◌-◌, ◌*◌, ◌^◌, ◌≤◌, ◌<◌, ◌≡◌, refl, ap, ◌∙◌, some, arith, false, ltb, ◌==◌,
  two_pow-add-one, dec_lt, ℕ_discrete,
}
use hekaton_system.TreeHash.Node.{
  found, passed, search_level, search_levels, root_idx, log2, num_internal_nodes,
  subcircuit_idx_to_node_idx,
}
use hekaton_system.TreeHash.Log.{log2_unique}
use hekaton_system.TreeHash.Level.{
  node_number, node_number-lt, node_number-closed, node_at-node_number, level-node_number,
  shl_one-some,
}

-- The number of nodes below a level of the tree with 2^k leaves.
abbrev pub first_of_level : ℕ → ℕ → ℕ
first_of_level k zero = 0
first_of_level k (suc l) = first_of_level k l + 2 ^ (k - l)

-- Every node of the rest of the level has 32 bits.
abbrev IsNarrow : ℕ → ℕ → ℕ → Type 0
IsNarrow l left u = (v : ℕ) → v < u + left → node_number l v < 2 ^ 32

search_level-found :
    (idx l left u i : ℕ)
    → l < 31
    → IsNarrow l left u
    → i ≤ idx
    → idx < i + left
    → search_level idx l left u i ≡ found (node_number l (u + (idx - i)))
unfolding search_level
search_level-found idx l zero u i b n p q = absurd (omega arith)
search_level-found idx l (suc left) u i b n p q = elim (ℕ_discrete i idx) [
  | yes e ↦
      let here : u + (idx - i) ≡ u = omega arith in
      rw (node_at-node_number l u b (n u (omega arith)), search_level, here) (ground arith)
  | no ne ↦
      let there : u + 1 + (idx - (i + 1)) ≡ u + (idx - i) = omega arith in
      let other : (i == idx) ≡ false = ground arith in
      rw (node_at-node_number l u b (n u (omega arith)), other, search_level)
        (search_level-found idx l left (u + 1) (i + 1) b (λ v h. n v (omega arith)) (omega arith)
            (omega arith)
          ∙ ap (λ (t : ℕ). found (node_number l t)) there)
]

search_level-passed :
    (idx l left u i : ℕ)
    → l < 31
    → IsNarrow l left u
    → i + left ≤ idx
    → search_level idx l left u i ≡ passed (i + left)
unfolding search_level
search_level-passed idx l zero u i b n q = ap passed (omega arith)
search_level-passed idx l (suc left) u i b n q =
    let other : (i == idx) ≡ false = ground arith in
    let sum : i + 1 + left ≡ i + suc left = omega arith in
    rw (node_at-node_number l u b (n u (omega arith)), other, search_level)
      (search_level-passed idx l left (u + 1) (i + 1) b (λ v h. n v (omega arith)) (omega arith)
        ∙ ap passed sum)

pub first_of_level_mono : (k l d : ℕ) → first_of_level k l ≤ first_of_level k (l + d)
first_of_level_mono k l zero = let e : l + 0 ≡ l = omega arith in rw e (omega arith)
first_of_level_mono k l (suc d) =
    let e : l + suc d ≡ suc (l + d) = omega arith in rw e (omega (arith, first_of_level_mono k l d))

-- All nodes of the tree have 32 bits.
level-IsNarrow : (k l : ℕ) → l ≤ k → k < 31 → IsNarrow l (2 ^ (k - l)) 0
level-IsNarrow k l h b v p =
    let e : k - l + l + 1 ≡ k + 1 = omega arith in
    omega (
      arith,
      node_number-lt (k - l) l v (omega arith),
      ap (λ (t : ℕ). 2 ^ t) e,
      pow-le-pow_right {n = 2} (omega arith) {i = k + 1} {j = 31} (omega arith),
    )

search_levels-found :
    (idx k levels l i : ℕ) {n : ℕ}
    → l ≤ k
    → search_level idx l (2 ^ (k - l)) 0 i ≡ found n
    → search_levels idx k (suc levels) l i ≡ some n
unfolding search_levels
search_levels-found idx k levels l i h e =
    let inside : ltb k l ≡ false = ground arith in rw (inside, e) refl

search_levels-passed :
    (idx k levels l i : ℕ) {j : ℕ}
    → l ≤ k
    → search_level idx l (2 ^ (k - l)) 0 i ≡ passed j
    → search_levels idx k (suc levels) l i ≡ search_levels idx k levels (l + 1) j
unfolding search_levels
search_levels-passed idx k levels l i h e =
    let inside : ltb k l ≡ false = ground arith in rw (inside, e) refl

search_levels-node_number :
    (k levels l d u : ℕ)
    → k < 31
    → d < levels
    → l + d ≤ k
    → u < 2 ^ (k - (l + d))
    → search_levels (first_of_level k (l + d) + u) k levels l (first_of_level k l)
      ≡ some (node_number (l + d) u)
search_levels-node_number k zero l d u b f h p = absurd (omega arith)
search_levels-node_number k (suc levels) l zero u b f h p =
    let e : l + 0 ≡ l = omega arith in
    let at : 0 + (first_of_level k l + u - first_of_level k l) ≡ u = omega arith in
    let p' : u < 2 ^ (k - l) = rw e at p in
    rw e (
      search_levels-found (first_of_level k l + u) k levels l (first_of_level k l) (omega arith) (
        search_level-found (first_of_level k l + u) l (2 ^ (k - l)) 0 (first_of_level k l)
          (omega arith) (level-IsNarrow k l (omega arith) b) (omega arith) (omega arith)
        ∙ ap (λ (t : ℕ). found (node_number l t)) at))
search_levels-node_number k (suc levels) l (suc d) u b f h p =
    let e : l + suc d ≡ suc l + d = omega arith in
    let one : l + 1 ≡ suc l = omega arith in
    search_levels-passed (first_of_level k (l + suc d) + u) k levels l (first_of_level k l)
      (omega arith)
      (search_level-passed (first_of_level k (l + suc d) + u) l (2 ^ (k - l)) 0 (first_of_level k l)
        (omega arith) (level-IsNarrow k l (omega arith) b)
        (rw e (omega (arith, first_of_level_mono k (suc l) d))))
    ∙ rw (e, one)
        (search_levels-node_number k levels (suc l) d u b (omega arith) (omega arith) (rw e at p))

two_pow-le : (i j : ℕ) → i ≤ j → 2 ^ i ≤ 2 ^ j
two_pow-le i j h = pow-le-pow_right {n = 2} (omega arith) {i = i} {j = j} h

pub log2-two_pow : (k : ℕ) → k < 63 → log2 (2 ^ k) ≡ some k
log2-two_pow k h =
    log2_unique (2 ^ k) k
      (omega (
        arith,
        two_pow-le (k + 1) 63 (omega arith),
        two_pow-add-one k,
        one-le-pow k 2 (omega arith),
      ))
      (omega arith) (omega (arith, two_pow-add-one k, one-le-pow k 2 (omega arith)))

num_internal_nodes-positive : (n : ℕ) → 2 ≤ n → num_internal_nodes n ≡ 2 * (n - 1) + 1
unfolding num_internal_nodes
num_internal_nodes-positive n h = ground arith

log2-num_internal_nodes : (k : ℕ) → k < 31 → log2 (num_internal_nodes (2 ^ k)) ≡ some k
unfolding num_internal_nodes log2
log2-num_internal_nodes zero h = refl
log2-num_internal_nodes (suc k) h =
    let big : 2 ≤ 2 ^ suc k = omega (arith, pow-suc 2 k, one-le-pow k 2 (omega arith)) in
    let next = two_pow-add-one (suc k) in
    rw (num_internal_nodes-positive (2 ^ suc k) big) (
      log2_unique (2 * (2 ^ suc k - 1) + 1) (suc k)
        (omega (arith, two_pow-le (suc k) 31 (omega arith))) (omega arith) (omega arith))

pub root_idx-two_pow : (k : ℕ) → k < 31 → root_idx (2 ^ k) ≡ some (node_number k 0)
unfolding root_idx
root_idx-two_pow k h =
    let root : 2 ^ k - 1 ≡ node_number k 0 = omega (arith, node_number-closed k 0) in
    rw (log2-num_internal_nodes k h) (rw (shl_one-some k (omega arith)) (ap some root))

-- In a tree of at most 2^30 leaves, a power of two, the subcircuits are the nodes level by level from
-- the leaves up, and each level from the left: the one at a place of a level, counted after all the
-- nodes below, computes the node at that place, without a panic.
pub subcircuit_idx_to_node_idx-node_number :
    (k l u : ℕ)
    → k < 31
    → l ≤ k
    → u < 2 ^ (k - l)
    → subcircuit_idx_to_node_idx (first_of_level k l + u) (2 ^ k) ≡ some (node_number l u)
unfolding subcircuit_idx_to_node_idx
subcircuit_idx_to_node_idx-node_number k l u b h p =
    let e : 0 + l ≡ l = omega arith in
    rw (root_idx-two_pow k b) (
      rw (log2-two_pow k (omega arith)) (
        rw (level-node_number k 0 (omega arith)) (
          rw e at
            (search_levels-node_number k (k + 1) 0 l u b (omega arith) (omega arith) (rw e p)))))

-- The place of a node determines it.
pub node_number-injective :
    (l u l' u' : ℕ) → node_number l u ≡ node_number l' u' → (l ≡ l') × (u ≡ u')
node_number-injective zero u zero u' e = (refl, omega arith)
node_number-injective zero u (suc l') u' e = absurd (omega arith)
node_number-injective (suc l) u zero u' e = absurd (omega arith)
node_number-injective (suc l) u (suc l') u' e =
    let (p, q) = node_number-injective l u l' u' (omega arith) in (ap suc p, q)

first_of_level-le : (k l l' : ℕ) → l < l' → first_of_level k l + 2 ^ (k - l) ≤ first_of_level k l'
first_of_level-le k l l' h =
    let e : suc l + (l' - suc l) ≡ l' = omega arith in
    omega (arith, first_of_level_mono k (suc l) (l' - suc l), ap (first_of_level k) e)

-- So does its index.
pub index-injective :
    (k l u l' u' : ℕ)
    → u < 2 ^ (k - l)
    → u' < 2 ^ (k - l')
    → first_of_level k l + u ≡ first_of_level k l' + u'
    → (l ≡ l') × (u ≡ u')
index-injective k l u l' u' p q e = elim (ℕ_discrete l l') [
  | yes same ↦ (same, omega (arith, ap (first_of_level k) same))
  | no ne ↦ elim (dec_lt l l') [
    | yes lt ↦ absurd (omega (arith, first_of_level-le k l l' lt))
    | no ge ↦ absurd (omega (arith, first_of_level-le k l' l (omega arith)))
  ]
]

pub first_of_level-closed : (k l : ℕ) → l ≤ suc k → first_of_level k l + 2 ^ (suc k - l) ≡ 2 ^ suc k
first_of_level-closed k zero h =
    let e : suc k - 0 ≡ suc k = omega arith in omega (arith, ap (λ (t : ℕ). 2 ^ t) e)
first_of_level-closed k (suc l) h =
    let e : suc k - l ≡ suc (k - l) = omega arith in
    let e' : suc k - suc l ≡ k - l = omega arith in
    omega (
      arith,
      first_of_level-closed k l (omega arith),
      pow-suc 2 (k - l),
      ap (λ (t : ℕ). 2 ^ t) e,
      ap (λ (t : ℕ). 2 ^ t) e',
    )

-- Every index below the padding subcircuit's is that of a node.
pub index-decode :
    (k i l : ℕ)
    → l ≤ suc k
    → i < first_of_level k l
    → (l' : ℕ) × (u : ℕ) × (l' < l) × (u < 2 ^ (k - l')) × (i ≡ first_of_level k l' + u)
index-decode k i zero h p = absurd (omega arith)
index-decode k i (suc l) h p = elim (dec_lt i (first_of_level k l)) [
  | yes lt ↦
      let (l', u, a, b, c) = index-decode k i l (omega arith) lt in (l', u, omega arith, b, c)
  | no ge ↦ (l, i - first_of_level k l, omega arith, omega arith, omega arith)
]
