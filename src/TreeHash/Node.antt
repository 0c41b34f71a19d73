-- ===== src/TreeHash/Node.antt =====
-- util.rs, log2, and tree_hash_circuit.rs, the tree math and the order of the nodes. A panic is
-- `none`: the debug build's checks of shifts and subtractions count as such.
use hekaton_system.Prelude.{
  ℕ, zero, suc, ◌+◌, ◌-◌, ◌*◌, ◌/◌, ◌%◌, ◌^◌, Option, none, some, ◌>>=◌, if◌then◌else◌, ltb, ◌==◌,
  bit_xor,
}

-- The loop of `log2`: `x >> 64` is an overflow, so there are at most 64 rounds.
unfoldable pub log2_loop : ℕ → ℕ → ℕ → Option ℕ
log2_loop zero x k = none
log2_loop (suc rounds) x k =
    let rest = log2_loop rounds x (k + 1) in if ltb 0 (x / 2 ^ k) then rest else some (k - 1)

unfoldable pub log2 : ℕ → Option ℕ
unfolding log2_loop
log2 x = if x == 0 then some 0 else log2_loop 64 x 0

-- `u32::trailing_ones`, over the given number of bits.
unfoldable pub trailing_ones : ℕ → ℕ → ℕ
trailing_ones zero n = 0
trailing_ones (suc width) n =
    let rest = trailing_ones width (n / 2) in if n % 2 == 1 then suc rest else 0

unfoldable pub level : ℕ → ℕ
unfolding trailing_ones
level node = trailing_ones 32 node

unfoldable pub left_child : ℕ → Option ℕ
unfolding level
left_child node = if level node == 0 then none else some (bit_xor node (2 ^ (level node - 1)))

-- `0x03 << (k - 1)` loses the bits above the 32nd.
unfoldable pub right_child : ℕ → Option ℕ
unfolding level
right_child node =
    if level node == 0 then none else some (bit_xor node (3 * 2 ^ (level node - 1) % 2 ^ 32))

unfoldable pub num_internal_nodes : ℕ → ℕ
num_internal_nodes num_leaves = if ltb num_leaves 2 then 0 else 2 * (num_leaves - 1) + 1

-- `1 << k` of a 32-bit number.
unfoldable pub shl_one : ℕ → Option ℕ
shl_one k = if ltb k 32 then some (2 ^ k) else none

unfoldable pub root_idx : ℕ → Option ℕ
unfolding log2 num_internal_nodes shl_one
root_idx num_leaves = do w ← log2 (num_internal_nodes num_leaves); top ← shl_one w; some (top - 1)

-- How the search through one level ends.
pub data Search : Type 0 where
  found : ℕ → Search
  -- The number of nodes passed so far, on this level and below.
  passed : ℕ → Search
  overflow : Search

-- `(upper_half << (level + 1)) + trailing_ones`, where the shift's amount must be below 32.
unfoldable pub node_at : ℕ → ℕ → Option ℕ
unfolding shl_one
node_at level upper_half = do
  step ← shl_one (level + 1)
  some (upper_half * step % 2 ^ 32 + (2 ^ level - 1))

-- The inner loop of `subcircuit_idx_to_node_idx`: the nodes of a level that are left, the first one
-- of them, and the count `i`.
unfoldable pub search_level : ℕ → ℕ → ℕ → ℕ → ℕ → Search
unfolding node_at
search_level subcircuit_idx level zero upper_half i = passed i
search_level subcircuit_idx level (suc left) upper_half i =
    let rest = search_level subcircuit_idx level left (upper_half + 1) (i + 1) in
    elim (node_at level upper_half) [
      | none ↦ overflow
      | some node_idx ↦ if i == subcircuit_idx then found node_idx else rest
    ]

-- The outer loop: the levels that are left, the first one of them, and the count `i`. After the last
-- level the code panics.
unfoldable pub search_levels : ℕ → ℕ → ℕ → ℕ → ℕ → Option ℕ
unfolding search_level
search_levels subcircuit_idx log_leaves zero level i = none
search_levels subcircuit_idx log_leaves (suc levels) level i =
    if ltb log_leaves level
    then none
    else elim (search_level subcircuit_idx level (2 ^ (log_leaves - level)) 0 i) [
      | found node_idx ↦ some node_idx
      | passed i' ↦ search_levels subcircuit_idx log_leaves levels (level + 1) i'
      | overflow ↦ none
    ]

unfoldable pub subcircuit_idx_to_node_idx : ℕ → ℕ → Option ℕ
unfolding search_levels root_idx log2 level
subcircuit_idx_to_node_idx subcircuit_idx num_leaves = do
  root ← root_idx num_leaves
  log_leaves ← log2 num_leaves
  search_levels subcircuit_idx log_leaves (level root + 1) 0 0
