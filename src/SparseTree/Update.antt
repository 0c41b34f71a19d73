-- ===== src/SparseTree/Update.antt =====
-- `SparseMerkleTree::insert` as a whole.
use hekaton_system.Prelude.{◌^◌, ℕ, ◌<◌, ◌≡◌, refl, zero, suc, ◌/◌, ◌∙◌, some, List, length}
use hekaton_system.Prelude.Assoc.{lookup-insert_self}
use hekaton_system.SparseTree.{
  Bytes, InnerHash, MerkleIndex, merkle_index_discrete, NodeType, leaf, internal_node,
  SparseMerkleTree, at, lookup_path, lookup_internal_node, insert_node, compute_root, to_bit_vector,
  node_hash_of, with_leaf,
}
use hekaton_system.SparseTree.Path.{
  with_node, lookup_path-some, lookup_path-suc, lookup_path-with_node,
}
use hekaton_system.SparseTree.Insert.{Climbs, update_path-Climbs}

-- A path reads the tree and the initial hashes only.
pub lookup_path-same :
    (i d : ℕ) (t : SparseMerkleTree) (leaves : List (MerkleIndex × Bytes)) (root : InnerHash)
    → lookup_path (record t { leaves = leaves; root = root }) i d ≡ lookup_path t i d
unfolding lookup_path lookup_internal_node
lookup_path-same i zero t leaves root = refl
lookup_path-same i (suc d) t leaves root =
    lookup_path-suc (record t { leaves = leaves; root = root }) t i i d refl
      (lookup_path-same (i / 2) d t leaves root)

module _ (hash_leaf : Bytes → InnerHash) (hash_inner_node : InnerHash → InnerHash → InnerHash) where
  -- The nodes are written alike for both kinds of node.
  with_leaf-fields :
      (index : MerkleIndex) (value : Bytes) (node_type : NodeType) (t : SparseMerkleTree)
      → (leaves : List (MerkleIndex × Bytes)) × (with_leaf hash_leaf hash_inner_node index value
            node_type t
          ≡ record t { leaves = leaves })
  with_leaf-fields index value internal_node t = (t.leaves, refl)
  with_leaf-fields index value leaf t = (_, refl)

  -- The run of the loop behind an insertion.
  pub insert_node-Climbs :
      (i d : ℕ) (value : Bytes) (node_type : NodeType) (h : InnerHash) (path : List InnerHash)
      (t : SparseMerkleTree)
      → node_hash_of hash_leaf hash_inner_node value node_type ≡ some h
      → i < 2 ^ d
      → d < length t.sparse_initial_hashes
      → lookup_path t i d ≡ some path
      → (leaves : List (MerkleIndex × Bytes)) × (c : Climbs hash_leaf hash_inner_node d i h path
          (with_node i d h (record t { leaves = leaves })))
        × (insert_node hash_leaf hash_inner_node (at i d) value node_type t
            ≡ some (record c.out { root = c.top }))
  unfolding insert_node
  insert_node-Climbs i d value node_type h path t e b n p =
      let (leaves, w) = with_leaf-fields (at i d) value node_type t in
      let t1 : SparseMerkleTree = record t { leaves = leaves } in
      let c =
        update_path-Climbs hash_leaf hash_inner_node d i h path (with_node i d h t1)
          (lookup-insert_self merkle_index_discrete (at i d) h t.tree) b n
          (lookup_path-with_node i d h t1 ∙ lookup_path-same i d t leaves t.root ∙ p) in
      (leaves, c, rw (e, w, insert_node) (rw c.returns (rw c.stores_top refl)))

  -- Inserting at an index that fits its depth, at a depth that has an initial hash, succeeds. The
  -- path to the index is the same before and after, and computes the new root from the new value.
  pub insert_node-lookup_path :
      (i d : ℕ) (value : Bytes) (node_type : NodeType) (h : InnerHash) (t : SparseMerkleTree)
      → node_hash_of hash_leaf hash_inner_node value node_type ≡ some h
      → i < 2 ^ d
      → d < length t.sparse_initial_hashes
      → (path : List InnerHash) × (out : SparseMerkleTree) × (insert_node hash_leaf hash_inner_node
            (at i d)
            value
            node_type
            t
          ≡ some out)
        × (lookup_path t i d ≡ some path)
        × (lookup_path out i d ≡ some path)
        × (compute_root hash_leaf hash_inner_node path value (to_bit_vector i d) node_type
            ≡ some out.root)
  unfolding compute_root
  insert_node-lookup_path i d value node_type h t e b n =
      let (path, p) = lookup_path-some t i d n in
      let (_, c, r) = insert_node-Climbs i d value node_type h path t e b n p in
      (
        path,
        record c.out { root = c.top },
        r,
        p,
        lookup_path-same i d c.out c.out.leaves c.top ∙ c.keeps_path,
        rw (e, compute_root) c.reaches_top,
      )
