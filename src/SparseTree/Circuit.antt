-- ===== src/SparseTree/Circuit.antt =====
-- vkd/sparse_tree_constraints.rs: the paths in a circuit. The constraints that a check enforces are
-- the Boolean that it returns. `hash_leaf_var` is the value that its gadget computes.
-- `hash_inner_node_var` is the value that the prover assigns to the result, from the inputs: with
-- Poseidon it is a new witness, which no constraint fixes (Vkd/Hash, Vkd/Hash/Free), so a computed root
-- is that of the assignment.
use hekaton_system.Prelude.{
  ◌≡◌, sym, ap, ◌∙◌, Bool, true, false, not, some, List, [], ◌∷◌, map, arith, Option-cases, inl,
  inr, if◌then◌else◌,
}
use hekaton_system.Field.{PrimeField}
use hekaton_system.Portal.{conditional}
use hekaton_system.SparseTree.{
  Bytes, InnerHash, NodeType, leaf, internal_node, climb, compute_root, node_hash_of,
  inner_hash_from,
}

-- `FpVar::conditionally_select`.
abbrev pub conditionally_select {ℓ} : {F : Type ℓ} → Bool → F → F → F
conditionally_select b true_value false_value = if b then true_value else false_value

module _ {ℓ} {F : Type ℓ} (hash_leaf_var : Bytes → F) (hash_inner_node_var : F → F → F) where
  -- The value of the root under the assignment of the inner hashes, by the loop of both functions
  -- below, over `index.iter().take(self.path.len())`.
  unfoldable pub climb_var : F → List F → List Bool → F
  climb_var current [] index = current
  climb_var current (sibling ∷ path) [] = current
  climb_var current (sibling ∷ path) (b ∷ index) =
      climb_var
        (hash_inner_node_var (conditionally_select b sibling current)
          (conditionally_select b current sibling))
        path index

  unfoldable pub compute_root_var_from_leaf : List F → Bytes → List Bool → F
  compute_root_var_from_leaf path value index = climb_var (hash_leaf_var value) path index

  unfoldable pub compute_root_var_from_internal_node : List F → F → List Bool → F
  compute_root_var_from_internal_node path node index = climb_var node path index

  -- `conditional_check_path_from_leaf` and the same from an internal node.
  unfoldable pub conditional_check_path_from_leaf :
      ⦃f : PrimeField F⦄ → List F → F → Bytes → List Bool → Bool → Bool
  conditional_check_path_from_leaf ⦃f⦄ path root value index condition =
      conditional (f.is_eq root (compute_root_var_from_leaf path value index)) condition

  unfoldable pub conditional_check_path_from_internal_node :
      ⦃f : PrimeField F⦄ → List F → F → F → List Bool → Bool → Bool
  conditional_check_path_from_internal_node ⦃f⦄ path root node index condition =
      conditional (f.is_eq root (compute_root_var_from_internal_node path node index)) condition

inner_hash_from-same : (value h : InnerHash) → inner_hash_from value ≡ some h → h ≡ value
inner_hash_from-same value h q = ground arith

module _ {ℓ} {F : Type ℓ} (hash_leaf_var : Bytes → F) (hash_inner_node_var : F → F → F)
    (hash_leaf : Bytes → InnerHash) (hash_inner_node : InnerHash → InnerHash → InnerHash)
    (inner_hash_to_fpvar : InnerHash → F) where
  climb_var-climb :
      (inner : (l r : InnerHash)
        → inner_hash_to_fpvar (hash_inner_node l r)
          ≡ hash_inner_node_var (inner_hash_to_fpvar l) (inner_hash_to_fpvar r))
      (h root : InnerHash) (path : List InnerHash) (index : List Bool)
      → climb hash_leaf hash_inner_node h path index ≡ some root
      → climb_var hash_leaf_var hash_inner_node_var
          (inner_hash_to_fpvar h)
          (map inner_hash_to_fpvar path)
          (map not index)
        ≡ inner_hash_to_fpvar root
  unfolding climb climb_var
  climb_var-climb inner h root [] index p =
      let same : h ≡ root = ground arith in ap inner_hash_to_fpvar same
  climb_var-climb inner h root (s ∷ path) [] p = ground arith
  climb_var-climb inner h root (s ∷ path) (true ∷ index) p =
      rw (← inner h s) (climb_var-climb inner (hash_inner_node h s) root path index p)
  climb_var-climb inner h root (s ∷ path) (false ∷ index) p =
      rw (← inner s h) (climb_var-climb inner (hash_inner_node s h) root path index p)

  -- The circuit's root from either kind of node.
  abbrev pub circuit_root : NodeType → List InnerHash → Bytes → List Bool → F
  circuit_root leaf path value index =
      compute_root_var_from_leaf hash_leaf_var hash_inner_node_var (map inner_hash_to_fpvar path)
        value index
  circuit_root internal_node path value index =
      compute_root_var_from_internal_node hash_leaf_var hash_inner_node_var
        (map inner_hash_to_fpvar path) (inner_hash_to_fpvar value) index

  -- Where the hash gadgets compute the fields' forms of the native hashes, the circuit computes
  -- the form of the native root, from a leaf and from an internal node. The circuit's
  -- index bit is set where the native one, which says whether the node is even, is not.
  pub circuit_root-compute_root :
      (inner : (l r : InnerHash)
        → inner_hash_to_fpvar (hash_inner_node l r)
          ≡ hash_inner_node_var (inner_hash_to_fpvar l) (inner_hash_to_fpvar r))
      (outer : (v : Bytes) → inner_hash_to_fpvar (hash_leaf v) ≡ hash_leaf_var v)
      (node_type : NodeType) (path : List InnerHash) (value root : Bytes) (index : List Bool)
      → compute_root hash_leaf hash_inner_node path value index node_type ≡ some root
      → circuit_root node_type path value (map not index) ≡ inner_hash_to_fpvar root
  unfolding compute_root compute_root_var_from_leaf compute_root_var_from_internal_node node_hash_of
  circuit_root-compute_root inner outer leaf path value root index p =
      rw (← outer value) (climb_var-climb inner (hash_leaf value) root path index p)
  circuit_root-compute_root inner outer internal_node path value root index p =
      elim (Option-cases (inner_hash_from value)) [
        | inl n ↦ ground arith
        | inr (h, q) ↦
            let same : h ≡ value = inner_hash_from-same value h q in
            climb_var-climb inner value root path index
              (ap (λ x. climb hash_leaf hash_inner_node x path index) (sym same) ∙ ground arith)
      ]
