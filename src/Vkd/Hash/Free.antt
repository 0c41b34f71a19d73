-- ===== src/Vkd/Hash/Free.antt =====
-- vkd/hash.rs and vkd/sparse_tree_constraints.rs: what a prover may make of the hashes of a path.
use hekaton_system.Prelude.{◌<◌, ◌≡◌, refl, Bool, true, List, [], ◌∷◌, length, arith}
use hekaton_system.Field.{PrimeField}
use hekaton_system.SparseTree.{Bytes}
use hekaton_system.SparseTree.Circuit.{
  climb_var, compute_root_var_from_leaf, compute_root_var_from_internal_node,
  conditional_check_path_from_leaf, conditional_check_path_from_internal_node,
}
use hekaton_system.Vkd.Hash.{hash_inner_node_var}

module _ {ℓ} {F : Type ℓ} ⦃f : PrimeField F⦄ (hash_leaf_var : Bytes → F)
    (sha256_digest : Bytes → Bytes) (evaluate : F → F → F) (to_sponge_bytes : F → Bytes)
    (to_bits_le : F → List Bool) (root : F) where
  -- Every inner hash is assigned the wanted root.
  abbrev pub free_hash : F → F → F
  free_hash = hash_inner_node_var sha256_digest evaluate to_sponge_bytes to_bits_le (λ l r v. root)

  climb_var_same :
      (path : List F) (index : List Bool) → climb_var hash_leaf_var free_hash root path index ≡ root
  unfolding climb_var hash_inner_node_var
  climb_var_same [] index = refl
  climb_var_same (s ∷ path) [] = refl
  climb_var_same (s ∷ path) (b ∷ index) = climb_var_same path index

  climb_var_free :
      (node : F) (path : List F) (index : List Bool)
      → 0 < length path
      → 0 < length index
      → climb_var hash_leaf_var free_hash node path index ≡ root
  unfolding climb_var hash_inner_node_var
  climb_var_free node [] index h k = absurd (omega arith)
  climb_var_free node (s ∷ path) [] h k = absurd (omega arith)
  climb_var_free node (s ∷ path) (b ∷ index) h k = climb_var_same path index

  -- With Poseidon the prover can assign the hashes of a path so that the circuit computes any wanted
  -- root, from any leaf and from any internal node, along any path and index that are not empty, and
  -- both checks of the path against that root hold.
  pub compute_root_var_free :
      (path : List F) (value : Bytes) (node : F) (index : List Bool) (condition : Bool)
      → 0 < length path
      → 0 < length index
      → (compute_root_var_from_leaf hash_leaf_var free_hash path value index ≡ root)
        × (compute_root_var_from_internal_node hash_leaf_var free_hash path node index ≡ root)
        × (conditional_check_path_from_leaf hash_leaf_var free_hash path root value index condition
            ≡ true)
        × (conditional_check_path_from_internal_node hash_leaf_var free_hash path root node index
              condition
            ≡ true)
  unfolding compute_root_var_from_leaf compute_root_var_from_internal_node
      conditional_check_path_from_leaf conditional_check_path_from_internal_node
  compute_root_var_free path value node index condition h k =
      let a = climb_var_free (hash_leaf_var value) path index h k in
      let b = climb_var_free node path index h k in
      let same : f.is_eq root root ≡ true = (f.is_eq_iff root root).1 refl in
      (a, b, rw (a, same) (ground arith), rw (b, same) (ground arith))
