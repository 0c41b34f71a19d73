-- ===== src/TreeHash/Children.antt =====
-- tree_hash_circuit.rs: the places of a node's children in the order of the subcircuits.
use hekaton_system.Prelude.{ℕ, suc, ◌+◌, ◌-◌, ◌*◌, ◌^◌, ◌≤◌, ◌<◌, ◌≡◌, ap, some, arith}
use native.Mathlib.Nat.{pow-suc}
use hekaton_system.TreeHash.Node.{left_child, right_child, subcircuit_idx_to_node_idx}
use hekaton_system.TreeHash.Level.{node_number, left_child-node_number, right_child-node_number}
use hekaton_system.TreeHash.Order.{first_of_level, subcircuit_idx_to_node_idx-node_number}

-- In a tree of at most 2^30 leaves, a power of two, `left_child` and `right_child` of a node above the
-- leaves are the nodes of two subcircuits with smaller indices, the left one before the right one.
pub child-earlier :
    (k l u : ℕ)
    → k < 31
    → suc l ≤ k
    → u < 2 ^ (k - suc l)
    → (node : ℕ) × (left : ℕ) × (right : ℕ) × (i : ℕ) × (j : ℕ) × (subcircuit_idx_to_node_idx
          (first_of_level k (suc l) + u)
          (2 ^ k)
        ≡ some node)
      × (left_child node ≡ some left)
      × (right_child node ≡ some right)
      × (subcircuit_idx_to_node_idx i (2 ^ k) ≡ some left)
      × (subcircuit_idx_to_node_idx j (2 ^ k) ≡ some right)
      × (i < j)
      × (j < first_of_level k (suc l) + u)
child-earlier k l u b h p =
    let e : k - l ≡ suc (k - suc l) = omega arith in
    let room : 2 * u + 1 < 2 ^ (k - l) =
      omega (arith, pow-suc 2 (k - suc l), ap (λ (t : ℕ). 2 ^ t) e) in
    (
      node_number (suc l) u,
      node_number l (2 * u),
      node_number l (2 * u + 1),
      first_of_level k l + 2 * u,
      first_of_level k l + (2 * u + 1),
      subcircuit_idx_to_node_idx-node_number k (suc l) u b h p,
      left_child-node_number l u (omega arith),
      right_child-node_number l u (omega arith),
      subcircuit_idx_to_node_idx-node_number k l (2 * u) b (omega arith) (omega arith),
      subcircuit_idx_to_node_idx-node_number k l (2 * u + 1) b (omega arith) room,
      omega arith,
      omega arith,
    )
