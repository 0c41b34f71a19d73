-- ===== src/SparseTree/Verify.antt =====
-- What holds of every path of a sparse Merkle tree that is built by insertions of leaves.
use native.Mathlib.Nat.{pow-suc}
use hekaton_system.Prelude.{
  ℕ, zero, suc, ◌+◌, ◌*◌, ◌/◌, ◌^◌, ◌≤◌, ◌<◌, ◌≡◌, ◌≢◌, refl, sym, ap, ◌∙◌, some, List, [], bit_xor,
  arith, length,
}
use hekaton_system.SparseTree.{
  Bytes, InnerHash, NodeType, SparseMerkleTree, at, lookup_path, insert_node, node_hash_of,
  lookup_internal_node, climb, to_bit_vector,
}
use hekaton_system.SparseTree.Path.{
  node, with_node, node-with_node, node-with_node_ne, depth_ne, index_ne, node-some,
  lookup_path-some,
}
use hekaton_system.SparseTree.Insert.{climb-step, lookup_path-cons, node-lookup, update_path-Below}
use hekaton_system.SparseTree.Update.{insert_node-Climbs}
use hekaton_system.SparseTree.Merkle.{IsMerkle, with_node-MerkleAt, update_path-Good}

module _ (hash_leaf : Bytes → InnerHash) (hash_inner_node : InnerHash → InnerHash → InnerHash) where
  -- Inserting a node at the bottom of the tree, at an index that fits the depth, keeps each node
  -- the hash of its children, stores the node, and leaves any other node `j` at the bottom alone.
  pub insert_node-IsMerkle :
      (i depth j : ℕ) (value : Bytes) (node_type : NodeType) (h : InnerHash)
      (t out : SparseMerkleTree)
      → node_hash_of hash_leaf hash_inner_node value node_type ≡ some h
      → i < 2 ^ depth
      → IsMerkle hash_leaf hash_inner_node depth t
      → insert_node hash_leaf hash_inner_node (at i depth) value node_type t ≡ some out
      → i ≢ j
      → IsMerkle hash_leaf hash_inner_node depth out
        × (node out i depth ≡ some h)
        × (node out j depth ≡ node t j depth)
  unfolding lookup_internal_node
  insert_node-IsMerkle i depth j value node_type h t out e b m r ne =
      let n : depth < length t.sparse_initial_hashes = omega (arith, m.hashes) in
      let (path, p) = lookup_path-some t i depth n in
      let (leaves, c, s) =
        insert_node-Climbs hash_leaf hash_inner_node i depth value node_type h path t e b n p in
      let t1 = with_node i depth h (record t { leaves = leaves }) in
      let same : out ≡ record c.out { root = c.top } = ground (arith, sym r ∙ s) in
      let below : (k : ℕ) → node c.out k depth ≡ node t1 k depth = λ k.
        update_path-Below hash_leaf hash_inner_node depth i t1 c.out k depth n (omega arith)
          c.returns in
      let good =
        update_path-Good hash_leaf hash_inner_node depth depth i t1 c.out n
          (λ k e b' off.
            with_node-MerkleAt hash_leaf hash_inner_node i depth h (record t { leaves = leaves }) k
              e (depth_ne i depth k e (λ z. omega arith)) off (m.inner k e b'))
          c.returns in
      rw same (
        record {
          hashes = ap length c.keeps_hashes ∙ m.hashes;
          inner = λ k e b'. good k e b' tt;
          top = node-lookup hash_leaf hash_inner_node c.out 0 0 c.top c.stores_top;
        },
        below i ∙ node-with_node i depth h t,
        below j ∙ node-with_node_ne i depth j depth h t (index_ne i depth j depth ne),
      )

  -- In a tree whose nodes are the hashes of their children, the path to a node computes the root
  -- from the node.
  pub climb-IsMerkle :
      (depth d i : ℕ) (h : InnerHash) (path : List InnerHash) (t : SparseMerkleTree)
      → IsMerkle hash_leaf hash_inner_node depth t
      → d ≤ depth
      → i < 2 ^ d
      → node t i d ≡ some h
      → lookup_path t i d ≡ some path
      → climb hash_leaf hash_inner_node h path (to_bit_vector i d) ≡ some t.root
  unfolding lookup_path climb
  climb-IsMerkle depth zero i h path t m le b p q =
      let zero_index : i ≡ 0 = omega arith in
      let empty : path ≡ [] = ground arith in
      rw empty (sym p ∙ ap (λ k. node t k 0) zero_index ∙ m.top)
  climb-IsMerkle depth (suc d) i h path t m le b p q =
      let (l, _, lp) = node-some t (i / 2 * 2) (suc d) (omega (arith, m.hashes)) in
      let (r, _, rp) = node-some t (i / 2 * 2 + 1) (suc d) (omega (arith, m.hashes)) in
      let (s, f, sp) = node-some t (bit_xor i 1) (suc d) (omega (arith, m.hashes)) in
      let (path', tail) = lookup_path-some t (i / 2) d (omega (arith, m.hashes)) in
      let split = lookup_path-cons hash_leaf hash_inner_node t i d s f path path' sp tail q in
      rw split (
        climb-step hash_leaf hash_inner_node i d h s l r path' t p (rw sp refl) (rw lp refl)
          (rw rp refl)
        ∙ climb-IsMerkle depth d (i / 2) (hash_inner_node l r) path' t m (omega arith)
            (omega (arith, pow-suc 2 d))
            (m.inner (i / 2) d (omega arith) l r (rw lp refl) (rw rp refl)) tail)
