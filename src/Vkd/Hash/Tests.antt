-- ===== src/Vkd/Hash/Tests.antt =====
-- Hashes over the numbers: the gadgets of a leaf and of two nodes.
use hekaton_system.Prelude.{
  ℕ, ◌+◌, ◌*◌, ◌%◌, ◌≡◌, refl, true, some, List, [], ◌∷◌, replicate, length, flatten, arith,
}
use hekaton_system.Field.Tests.{numbers}
use hekaton_system.SparseTree.{Bytes, inner_hash_size}
use hekaton_system.SparseTree.Circuit.{
  compute_root_var_from_leaf, compute_root_var_from_internal_node, conditional_check_path_from_leaf,
  conditional_check_path_from_internal_node,
}
use hekaton_system.TreeHash.Digest.{of_le_bytes, bits_le}
use hekaton_system.TreeHash.Packing.{replicate-IsBytes}
use hekaton_system.Vkd.Constraints.{hash_leaf_var}
use hekaton_system.Vkd.Hash.{hash, hash_var, chunks, hash_inner_node_var}
use hekaton_system.Vkd.Hash.Leaf.{hash_var-hash}
use hekaton_system.Vkd.Hash.Free.{compute_root_var_free}

abbrev sha256_of : Bytes → Bytes
sha256_of v = replicate 32 (of_le_bytes v % 251)

-- The order of the elements counts.
abbrev squeeze : List ℕ → ℕ
squeeze [] = 1
squeeze (x ∷ xs) = x + 3 * squeeze xs

abbrev evaluate : ℕ → ℕ → ℕ
evaluate l r = l + 3 * r

abbrev to_sponge_bytes : ℕ → Bytes
to_sponge_bytes x = (x % 251) ∷ replicate 31 0

abbrev alice : Bytes
alice = replicate 32 9

-- Two chunks, one of 27 bytes and one of 5.
hash_var-hash_example :
    (hash_var sha256_of squeeze to_sponge_bytes alice
      ≡ some (hash sha256_of squeeze to_sponge_bytes alice))
    × (length (hash sha256_of squeeze to_sponge_bytes alice) ≡ 32)
    × (flatten (chunks inner_hash_size alice) ≡ alice)
hash_var-hash_example =
    hash_var-hash sha256_of squeeze squeeze to_sponge_bytes to_sponge_bytes (λ xs. refl) (λ x. refl)
      (λ x. refl) alice (replicate-IsBytes 32 9 (omega arith)) (omega arith)

abbrev leaf_var : Bytes → ℕ
leaf_var = hash_leaf_var sha256_of

abbrev free : ℕ → ℕ → ℕ
free = hash_inner_node_var sha256_of evaluate to_sponge_bytes (bits_le 216) (λ l r v. 77)

-- Any root, from a path of two nodes.
compute_root_var_free_example :
    (compute_root_var_from_leaf leaf_var free (1 ∷ 2 ∷ []) alice (true ∷ true ∷ []) ≡ 77)
    × (compute_root_var_from_internal_node leaf_var free (1 ∷ 2 ∷ []) 5 (true ∷ true ∷ []) ≡ 77)
    × (conditional_check_path_from_leaf leaf_var free (1 ∷ 2 ∷ []) 77 alice (true ∷ true ∷ []) true
        ≡ true)
    × (conditional_check_path_from_internal_node leaf_var free
          (1 ∷ 2 ∷ [])
          77
          5
          (true ∷ true ∷ [])
          true
        ≡ true)
compute_root_var_free_example =
    compute_root_var_free leaf_var sha256_of evaluate to_sponge_bytes (bits_le 216) 77 (1 ∷ 2 ∷ [])
      alice 5 (true ∷ true ∷ []) true (omega arith) (omega arith)
