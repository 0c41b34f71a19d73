-- ===== src/SparseTree/Tests.antt =====
-- A tree of depth 3, with hashes of 27 bytes that are easy to compute.
use hekaton_system.Prelude.{
  ℕ, ◌+◌, ◌*◌, ◌%◌, ◌≡◌, refl, true, false, not, some, none, List, [], ◌∷◌, map, length, flatten,
  replicate, arith, ℕ_discrete, get_or,
}
use hekaton_system.Prelude.Assoc.{lookup, insert}
use hekaton_system.SparseTree.{
  Bytes, InnerHash, SparseMerkleTree, leaf, at, lookup_path, lookup_internal_node, insert_node, new,
  initial_hashes, update_path, node_hash_of, compute_root, climb, to_bit_vector,
}
use hekaton_system.SparseTree.Path.{node}
use hekaton_system.SparseTree.Merkle.{IsMerkle}
use hekaton_system.SparseTree.Update.{insert_node-lookup_path}
use hekaton_system.SparseTree.Verify.{insert_node-IsMerkle, climb-IsMerkle}
use hekaton_system.SparseTree.New.{new-IsMerkle}
use hekaton_system.SparseTree.Split.{split, split-flatten}
use hekaton_system.SparseTree.Circuit.{circuit_root, circuit_root-compute_root}

-- One byte of content, and 26 zeros.
abbrev hash_leaf : Bytes → InnerHash
hash_leaf v = (get_or v 0 0 + 1) ∷ replicate 26 0

abbrev hash_inner_node : InnerHash → InnerHash → InnerHash
hash_inner_node l r = ((3 * get_or l 0 0 + 5 * get_or r 0 0 + 1) % 256) ∷ replicate 26 0

abbrev tree : SparseMerkleTree
tree = new hash_leaf hash_inner_node 3

new-IsMerkle_example : IsMerkle hash_leaf hash_inner_node 3 (new hash_leaf hash_inner_node 3)
new-IsMerkle_example = new-IsMerkle hash_leaf hash_inner_node 3

insert_node-lookup_path_example :
    (path : List InnerHash) × (out : SparseMerkleTree) × (insert_node hash_leaf hash_inner_node
        (at 5 3)
        (7 ∷ [])
        leaf
        tree
      ≡ some out)
    × (lookup_path tree 5 3 ≡ some path)
    × (lookup_path out 5 3 ≡ some path)
    × (compute_root hash_leaf hash_inner_node path (7 ∷ []) (to_bit_vector 5 3) leaf
        ≡ some out.root)
unfolding node_hash_of new initial_hashes
insert_node-lookup_path_example =
    insert_node-lookup_path hash_leaf hash_inner_node 5 3 (7 ∷ []) leaf (hash_leaf (7 ∷ [])) tree
      refl (omega arith) (omega arith)

-- The tree with one leaf.
abbrev inserted : SparseMerkleTree
inserted = elim (insert_node hash_leaf hash_inner_node (at 5 3) (7 ∷ []) leaf tree) [
  | none ↦ tree
  | some t ↦ t
]

insert_node-IsMerkle_example :
    IsMerkle hash_leaf hash_inner_node 3 inserted
    × (node inserted 5 3 ≡ some (hash_leaf (7 ∷ [])))
    × (node inserted 4 3 ≡ node tree 4 3)
unfolding node_hash_of new initial_hashes insert_node update_path lookup_internal_node lookup insert
    ℕ_discrete
insert_node-IsMerkle_example =
    insert_node-IsMerkle hash_leaf hash_inner_node 5 3 4 (7 ∷ []) leaf (hash_leaf (7 ∷ [])) tree
      inserted refl (omega arith) (new-IsMerkle hash_leaf hash_inner_node 3) refl (λ q. omega arith)

abbrev siblings : List InnerHash
siblings = elim (lookup_path tree 5 3) [ none ↦ [] | some p ↦ p ]

climb-IsMerkle_example :
    climb hash_leaf hash_inner_node (hash_leaf (0 ∷ [])) siblings (to_bit_vector 5 3)
    ≡ some tree.root
unfolding new initial_hashes lookup_internal_node lookup lookup_path
climb-IsMerkle_example =
    climb-IsMerkle hash_leaf hash_inner_node 3 3 5 (hash_leaf (0 ∷ [])) siblings tree
      (new-IsMerkle hash_leaf hash_inner_node 3) (omega arith) (omega arith) refl refl

abbrev five : List ℕ
five = 1 ∷ 2 ∷ 3 ∷ 4 ∷ 5 ∷ []

split-flatten_example :
    (out : List (List ℕ)) × (split five 4 ≡ some out) × (flatten out ≡ five) × (length out ≡ 4)
split-flatten_example = split-flatten five 4 2 refl

-- The circuit's hashes on the first bytes, which the native ones are determined by.
abbrev inner_hash_to_fpvar : InnerHash → ℕ
inner_hash_to_fpvar h = get_or h 0 0

abbrev root_of_seven : InnerHash
root_of_seven =
    hash_inner_node (replicate 27 2) (hash_inner_node (hash_leaf (7 ∷ [])) (replicate 27 1))

circuit_root-compute_root_example :
    circuit_root
      (λ v. inner_hash_to_fpvar (hash_leaf v))
      (λ l r. (3 * l + 5 * r + 1) % 256)
      hash_leaf
      hash_inner_node
      inner_hash_to_fpvar
      leaf
      (replicate 27 1 ∷ replicate 27 2 ∷ [])
      (7 ∷ [])
      (map not (true ∷ false ∷ []))
    ≡ inner_hash_to_fpvar root_of_seven
unfolding compute_root node_hash_of climb
circuit_root-compute_root_example =
    circuit_root-compute_root (λ v. inner_hash_to_fpvar (hash_leaf v))
      (λ l r. (3 * l + 5 * r + 1) % 256) hash_leaf hash_inner_node inner_hash_to_fpvar (λ l r. refl)
      (λ v. refl) leaf (replicate 27 1 ∷ replicate 27 2 ∷ []) (7 ∷ []) root_of_seven
      (true ∷ false ∷ []) refl
