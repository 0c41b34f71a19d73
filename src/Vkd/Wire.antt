-- ===== src/Vkd/Wire.antt =====
-- vkd/vkd_circuits.rs, `to_string` of the addresses: the names of the wires. The strings are a data
-- type; an index's name has the first 32 bytes of its leaf only.
use hekaton_system.Prelude.{ℕ, ℕ_discrete, take}
use hekaton_system.SparseTree.{Bytes}
use hekaton_system.Vkd.Layout.{IndexAddress, NodeAddress}

pub data WireName : Type 0 where
  path_root : ℕ → ℕ → WireName
  leaf_hash : Bytes → WireName
  null_leaf final_root initial_root : WireName
  intermediate_root : ℕ → ℕ → ℕ → WireName
  index : ℕ → Bytes → WireName

unfoldable pub Bytes-discrete : Discrete Bytes
Bytes-discrete = hlevel (ℕ_discrete)

unfoldable pub WireName-discrete : Discrete WireName
WireName-discrete = hlevel (ℕ_discrete, Bytes-discrete)

unfoldable pub node_wire : NodeAddress → WireName
node_wire (NodeAddress.path_root a) = path_root a.path_id a.update_idx
node_wire (NodeAddress.leaf_hash leaf) = leaf_hash leaf
node_wire NodeAddress.null_leaf = null_leaf
node_wire NodeAddress.final_root = final_root
node_wire NodeAddress.initial_root = initial_root
node_wire (NodeAddress.intermediate_root a) = intermediate_root a.path_id a.indicator a.update_idx

unfoldable pub index_wire : IndexAddress → WireName
index_wire a = index a.indicator (take 32 a.leaf)
