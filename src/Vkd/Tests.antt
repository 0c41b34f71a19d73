-- ===== src/Vkd/Tests.antt =====
-- A directory of depth 8 in which one user is appended and then gets a new key.
use hekaton_system.Prelude.{
  ℕ, ◌+◌, ◌*◌, ◌%◌, ◌≡◌, refl, true, some, none, Option, List, [], ◌∷◌, replicate, length, get_or,
  arith, ℕ_discrete,
}
use hekaton_system.Prelude.Assoc.{lookup, insert}
use hekaton_system.SparseTree.{
  Bytes, InnerHash, SparseMerkleTree, new, initial_hashes, insert_node, update_path, node_hash_of,
  lookup_internal_node, lookup_path, get_index,
}
use hekaton_system.SparseTree.New.{new-IsMerkle}
use hekaton_system.Vkd.Layout.{SubCircuit, vkd_update_to_subcircuit}
use hekaton_system.Vkd.Layout.Count.{vkd_update_to_subcircuit-length}
use hekaton_system.Vkd.{Update, append, concat, append_user, update_user, verify_circuit}
use hekaton_system.Vkd.Chain.{done, appended, updated, Run-verify_circuit}

abbrev hash : Bytes → Bytes
hash v = replicate 32 3

abbrev from_bytes_le : Bytes → ℕ
from_bytes_le v = get_or v 0 0 % 256

abbrev hash_leaf : Bytes → InnerHash
hash_leaf v = ((get_or v 0 0 + get_or v 1 0 + get_or v 3 0 + 1) % 256) ∷ replicate 26 0

abbrev hash_inner_node : InnerHash → InnerHash → InnerHash
hash_inner_node l r = ((3 * get_or l 0 0 + 5 * get_or r 0 0 + 1) % 256) ∷ replicate 26 0

abbrev null_leaf : InnerHash
null_leaf = hash_leaf (replicate 32 0)

abbrev alice : Bytes
alice = 9 ∷ []

abbrev initial : SparseMerkleTree
initial = new hash_leaf hash_inner_node 8

-- A move's update and tree.
abbrev after : Option (Update × SparseMerkleTree) → SparseMerkleTree
after none = initial
after (some (u, t)) = t

abbrev first : SparseMerkleTree
first = after (append_user hash from_bytes_le hash_leaf hash_inner_node 8 alice (4 ∷ []) initial)

abbrev second : SparseMerkleTree
second =
    after
      (update_user hash from_bytes_le hash_leaf hash_inner_node 8 alice 0 (4 ∷ []) (6 ∷ []) first)

abbrev made : Option (Update × SparseMerkleTree) → List Update → List Update
made none us = us
made (some (u, t)) us = u ∷ us

abbrev updates : List Update
updates = made (append_user hash from_bytes_le hash_leaf hash_inner_node 8 alice (4 ∷ []) initial) (
    made
      (update_user hash from_bytes_le hash_leaf hash_inner_node 8 alice 0 (4 ∷ []) (6 ∷ []) first)
      [])

Run-verify_circuit_example :
    verify_circuit hash from_bytes_le hash_leaf hash_inner_node 8
      (record { initial_root = initial.root; final_root = second.root; updates = updates })
      null_leaf
    ≡ some true
unfolding new initial_hashes insert_node update_path node_hash_of lookup_internal_node lookup_path
    get_index lookup insert concat append_user update_user ℕ_discrete
Run-verify_circuit_example =
    Run-verify_circuit hash from_bytes_le hash_leaf hash_inner_node 8 null_leaf initial second
      updates refl (λ i username x. ground arith) (new-IsMerkle hash_leaf hash_inner_node 8)
      (appended alice (4 ∷ []) 3 refl refl refl
        (updated alice (4 ∷ []) (6 ∷ []) 0 3 refl refl refl (done second)))

abbrev append_alice : Update
append_alice =
    append
      (record { username = replicate 32 9; key = replicate 32 4; path = replicate 8 null_leaf })

vkd_update_to_subcircuit-length_example :
    (scs : List SubCircuit) × (vkd_update_to_subcircuit (append_alice ∷ append_alice ∷ [])
      ≡ some scs)
    × (length scs ≡ 8 * 2 + 8)
vkd_update_to_subcircuit-length_example =
    vkd_update_to_subcircuit-length append_alice (append_alice ∷ [])
      ((refl, refl), ((refl, refl), tt))
