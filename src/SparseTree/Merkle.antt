-- ===== src/SparseTree/Merkle.antt =====
-- The invariant of the sparse Merkle tree: each node is the hash of its children.
use hekaton_system.Prelude.{
  ℕ, zero, suc, ◌+◌, ◌*◌, ◌/◌, ◌<◌, ◌≡◌, ◌≢◌, refl, sym, ap, ap₂, subst, ◌∙◌, some, arith, length,
}
use hekaton_system.SparseTree.{
  Bytes, InnerHash, MerkleIndex, merkle_index_discrete, SparseMerkleTree, at, update_path,
}
use hekaton_system.SparseTree.Path.{
  node, with_node, node-with_node, node-with_node_ne, depth_ne, node-some,
}
use hekaton_system.SparseTree.Insert.{update_path-step}

module _ (hash_leaf : Bytes → InnerHash) (hash_inner_node : InnerHash → InnerHash → InnerHash) where
  -- The node at `j` and depth `e` is the hash of its two children.
  abbrev pub MerkleAt : SparseMerkleTree → ℕ → ℕ → Type 0
  MerkleAt t j e =
      (l r : InnerHash)
      → node t (j * 2) (suc e) ≡ some l
      → node t (j * 2 + 1) (suc e) ≡ some r
      → node t j e ≡ some (hash_inner_node l r)

  -- `(j, e)` is no ancestor of `(i, d)`.
  abbrev OffPath : ℕ → ℕ → ℕ → ℕ → Type 0
  OffPath zero i j e = Unit
  OffPath (suc d) i j e = (at (i / 2) d ≢ at j e) × OffPath d (i / 2) j e

  child-OffPath : (i d j e k : ℕ) → OffPath d i j e → k / 2 ≡ j → at i d ≢ at k (suc e)
  child-OffPath i zero j e k off s = depth_ne i zero k (suc e) (λ z. omega arith)
  child-OffPath i (suc d) j e k off s = λ q.
      let same : i ≡ k = ap (λ (x : MerkleIndex). x.index) q in
      let same_depth : suc d ≡ suc e = ap (λ (x : MerkleIndex). x.depth) q in
      let level : d ≡ e = omega arith in off.0 (ap₂ at (ap (λ (x : ℕ). x / 2) same ∙ s) level)

  -- Writing a node leaves the others as they were, but for its parent.
  pub with_node-MerkleAt :
      (i d : ℕ) (h : InnerHash) (t : SparseMerkleTree) (j e : ℕ)
      → at i d ≢ at j e
      → OffPath d i j e
      → MerkleAt t j e
      → MerkleAt (with_node i d h t) j e
  with_node-MerkleAt i d h t j e ne off m l r p q =
      node-with_node_ne i d j e h t ne
      ∙ m l r
          (sym (
              node-with_node_ne i d (j * 2) (suc e) h t
                (child-OffPath i d j e (j * 2) off (omega arith)))
            ∙ p)
          (sym (
              node-with_node_ne i d (j * 2 + 1) (suc e) h t
                (child-OffPath i d j e (j * 2 + 1) off (omega arith)))
            ∙ q)

  -- The node that is written holds the hash of its children.
  parent-MerkleAt :
      (i d : ℕ) (l r : InnerHash) (t : SparseMerkleTree)
      → node t (i * 2) (suc d) ≡ some l
      → node t (i * 2 + 1) (suc d) ≡ some r
      → MerkleAt (with_node i d (hash_inner_node l r) t) i d
  parent-MerkleAt i d l r t p q l' r' p' q' =
      let parent = hash_inner_node l r in
      let lp =
        sym p
        ∙ sym (
            node-with_node_ne i d (i * 2) (suc d) parent t
              (depth_ne i d (i * 2) (suc d) (λ z. omega arith)))
        ∙ p' in
      let rp =
        sym q
        ∙ sym (
            node-with_node_ne i d (i * 2 + 1) (suc d) parent t
              (depth_ne i d (i * 2 + 1) (suc d) (λ z. omega arith)))
        ∙ q' in
      let same : l ≡ l' = ground arith in
      let same_right : r ≡ r' = ground arith in
      node-with_node i d parent t ∙ rw (same, same_right) refl

  abbrev Good : ℕ → ℕ → ℕ → SparseMerkleTree → Type 0
  Good depth d i t = (j e : ℕ) → e < depth → OffPath d i j e → MerkleAt t j e

  Good-step :
      (depth d i : ℕ) (l r : InnerHash) (t : SparseMerkleTree)
      → node t (i / 2 * 2) (suc d) ≡ some l
      → node t (i / 2 * 2 + 1) (suc d) ≡ some r
      → Good depth (suc d) i t
      → Good depth d (i / 2) (with_node (i / 2) d (hash_inner_node l r) t)
  Good-step depth d i l r t p q g j e b off = elim (merkle_index_discrete (at (i / 2) d) (at j e)) [
    | no ne ↦ with_node-MerkleAt (i / 2) d (hash_inner_node l r) t j e ne off (g j e b (ne, off))
    | yes same ↦
        subst
          (λ (x : MerkleIndex).
            MerkleAt (with_node (i / 2) d (hash_inner_node l r) t) x.index x.depth)
          same (parent-MerkleAt (i / 2) d l r t p q)
  ]

  pub update_path-Good :
      (depth d i : ℕ) (t out : SparseMerkleTree)
      → d < length t.sparse_initial_hashes
      → Good depth d i t
      → update_path hash_leaf hash_inner_node d i t ≡ some out
      → Good depth 0 0 out
  unfolding update_path
  update_path-Good depth zero i t out n g h = let same : t ≡ out = ground arith in rw (← same) g
  update_path-Good depth (suc d) i t out n g h =
      let (l, _, lp) = node-some t (i / 2 * 2) (suc d) n in
      let (r, _, rp) = node-some t (i / 2 * 2 + 1) (suc d) n in
      update_path-Good depth d (i / 2) (with_node (i / 2) d (hash_inner_node l r) t) out
        (omega arith) (Good-step depth d i l r t (rw lp refl) (rw rp refl) g)
        (sym (update_path-step hash_leaf hash_inner_node d i t l r (rw lp refl) (rw rp refl)) ∙ h)

  -- A tree of some depth whose nodes are the hashes of their children, with the root at the top.
  pub record IsMerkle (depth : ℕ) (t : SparseMerkleTree) : Type 0 where
    pub hashes : length t.sparse_initial_hashes ≡ suc depth
    pub inner : (j e : ℕ) → e < depth → MerkleAt t j e
    pub top : node t 0 0 ≡ some t.root
