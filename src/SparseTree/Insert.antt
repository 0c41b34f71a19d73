-- ===== src/SparseTree/Insert.antt =====
-- `SparseMerkleTree::insert` against the paths: what a path proves before and after.
use native.Mathlib.Nat.{pow-suc}
use hekaton_system.Prelude.{
  ℕ, zero, suc, ◌+◌, ◌*◌, ◌/◌, ◌^◌, ◌≤◌, ◌<◌, ◌≡◌, refl, sym, ap, ◌∙◌, inl, inr, Bool, some,
  Option-cases, List, [], ◌∷◌, bit_xor, arith, length,
}
use hekaton_system.Prelude.Assoc.{lookup, lookup-insert_self}
use hekaton_system.SparseTree.{
  Bytes, InnerHash, merkle_index_discrete, SparseMerkleTree, at, lookup_internal_node, lookup_path,
  update_path, climb, to_bit_vector,
}
use hekaton_system.SparseTree.Index.{xor_one-even, xor_one-odd}
use hekaton_system.SparseTree.Path.{
  node, with_node, node-with_node_ne, depth_ne, node-some, lookup_path-some, lookup_path-suc,
  lookup_path-with_node, parity,
}

module _ (hash_leaf : Bytes → InnerHash) (hash_inner_node : InnerHash → InnerHash → InnerHash) where
  -- One level of the loop: the hash that it writes above the node at `i`.
  pub update_path-step :
      (d i : ℕ) (t : SparseMerkleTree) (l r : InnerHash)
      → node t (i / 2 * 2) (suc d) ≡ some l
      → node t (i / 2 * 2 + 1) (suc d) ≡ some r
      → update_path hash_leaf hash_inner_node (suc d) i t
        ≡ update_path hash_leaf hash_inner_node d
            (i / 2)
            (with_node (i / 2) d (hash_inner_node l r) t)
  unfolding update_path
  update_path-step d i t l r p q =
      elim (Option-cases (lookup_internal_node t (i / 2 * 2) (suc d))) [
        | inl a ↦ ground arith
        | inr ((h, f), a) ↦ elim (Option-cases (lookup_internal_node t (i / 2 * 2 + 1) (suc d))) [
          | inl b ↦ ground arith
          | inr ((h', f'), b) ↦
              let same : h ≡ l = ground arith in
              let same' : h' ≡ r = ground arith in rw (a, b, update_path, same, same') refl
        ]
      ]

  -- The loop writes above its start only.
  pub update_path-Below :
      (d i : ℕ) (t t' : SparseMerkleTree) (j e : ℕ)
      → d < length t.sparse_initial_hashes
      → d ≤ e
      → update_path hash_leaf hash_inner_node d i t ≡ some t'
      → node t' j e ≡ node t j e
  unfolding update_path
  update_path-Below zero i t t' j e n b h = let same : t ≡ t' = ground arith in rw same refl
  update_path-Below (suc d) i t t' j e n b h =
      let (l, _, p) = node-some t (i / 2 * 2) (suc d) n in
      let (r, _, q) = node-some t (i / 2 * 2 + 1) (suc d) n in
      let s = update_path-step d i t l r (rw p refl) (rw q refl) in
      update_path-Below d (i / 2) (with_node (i / 2) d (hash_inner_node l r) t) t' j e (omega arith)
        (omega arith) (sym s ∙ h)
      ∙ node-with_node_ne (i / 2) d j e (hash_inner_node l r) t
          (depth_ne (i / 2) d j e (omega arith))

  -- One level of `climb`, by which of the two children the node is.
  pub climb-step :
      (i d : ℕ) (h s l r : InnerHash) (path : List InnerHash) (t : SparseMerkleTree)
      → node t i (suc d) ≡ some h
      → node t (bit_xor i 1) (suc d) ≡ some s
      → node t (i / 2 * 2) (suc d) ≡ some l
      → node t (i / 2 * 2 + 1) (suc d) ≡ some r
      → climb hash_leaf hash_inner_node h (s ∷ path) (to_bit_vector i (suc d))
        ≡ climb hash_leaf hash_inner_node (hash_inner_node l r) path (to_bit_vector (i / 2) d)
  unfolding climb to_bit_vector
  climb-step i d h s l r path t n x p q = elim (parity i) [
    | inl e ↦
        let i_even : i / 2 * 2 ≡ i = omega arith in
        let hl : h ≡ l = ground (arith, sym n ∙ ap (λ k. node t k (suc d)) (sym i_even) ∙ p) in
        let sr : s ≡ r =
          ground (arith, sym x ∙ ap (λ k. node t k (suc d)) (xor_one-even i e) ∙ q) in
        rw (hl, sr, e) refl
    | inr e ↦
        let i_odd : i / 2 * 2 + 1 ≡ i = omega arith in
        let hr : h ≡ r = ground (arith, sym n ∙ ap (λ k. node t k (suc d)) (sym i_odd) ∙ q) in
        let sl : s ≡ l = ground (arith, sym x ∙ ap (λ k. node t k (suc d)) (xor_one-odd i e) ∙ p) in
        rw (hr, sl, e) refl
  ]

  -- What the loop leaves behind, started at a node that holds `h` and has the path `path`.
  pub record Climbs (d i : ℕ) (h : InnerHash) (path : List InnerHash) (t : SparseMerkleTree)
      : Type 0 where
    pub out : SparseMerkleTree
    pub top : InnerHash
    pub returns : update_path hash_leaf hash_inner_node d i t ≡ some out
    pub keeps_path : lookup_path out i d ≡ some path
    pub stores_top : lookup merkle_index_discrete (at 0 0) out.tree ≡ some top
    pub reaches_top : climb hash_leaf hash_inner_node h path (to_bit_vector i d) ≡ some top
    pub keeps_hashes : out.sparse_initial_hashes ≡ t.sparse_initial_hashes

  pub node-lookup :
      (t : SparseMerkleTree) (i d : ℕ) (h : InnerHash)
      → lookup merkle_index_discrete (at i d) t.tree ≡ some h
      → node t i d ≡ some h
  unfolding lookup_internal_node
  node-lookup t i d h p = rw (p, lookup_internal_node) refl

  pub lookup_path-cons :
      (t : SparseMerkleTree) (i d : ℕ) (s : InnerHash) (f : Bool) (path path' : List InnerHash)
      → lookup_internal_node t (bit_xor i 1) (suc d) ≡ some (s, f)
      → lookup_path t (i / 2) d ≡ some path'
      → lookup_path t i (suc d) ≡ some path
      → path ≡ s ∷ path'
  unfolding lookup_path
  lookup_path-cons t i d s f path path' a b q =
      let r : lookup_path t i (suc d) ≡ some (s ∷ path') = rw (a, b, lookup_path) refl in
      let e : some path ≡ some (s ∷ path') = sym q ∙ r in ground arith

  -- One level more of the loop, below a parent from which it climbs.
  Climbs-step :
      (d i : ℕ) (h l r s : InnerHash) (f : Bool) (path path' : List InnerHash)
      (t : SparseMerkleTree)
      → d < length t.sparse_initial_hashes
      → node t i (suc d) ≡ some h
      → node t (i / 2 * 2) (suc d) ≡ some l
      → node t (i / 2 * 2 + 1) (suc d) ≡ some r
      → lookup_internal_node t (bit_xor i 1) (suc d) ≡ some (s, f)
      → lookup_path t (i / 2) d ≡ some path'
      → lookup_path t i (suc d) ≡ some path
      → Climbs d (i / 2) (hash_inner_node l r) path' (with_node (i / 2) d (hash_inner_node l r) t)
      → Climbs (suc d) i h path t
  Climbs-step d i h l r s f path path' t n p lp rp sp tail q c =
      let parent = hash_inner_node l r in
      let split = lookup_path-cons t i d s f path path' sp tail q in
      record {
        out = c.out;
        top = c.top;
        returns = update_path-step d i t l r lp rp ∙ c.returns;
        keeps_path =
            lookup_path-suc c.out t i i d
              (update_path-Below d (i / 2) (with_node (i / 2) d parent t) c.out (bit_xor i 1)
                  (suc d) n (omega arith) c.returns
                ∙ node-with_node_ne (i / 2) d (bit_xor i 1) (suc d) parent t
                    (depth_ne (i / 2) d (bit_xor i 1) (suc d) (omega arith)))
              (c.keeps_path ∙ sym tail)
            ∙ q;
        stores_top = c.stores_top;
        reaches_top =
            rw split (climb-step i d h s l r path' t p (rw sp refl) lp rp ∙ c.reaches_top);
        keeps_hashes = c.keeps_hashes;
      }

  pub update_path-Climbs :
      (d i : ℕ) (h : InnerHash) (path : List InnerHash) (t : SparseMerkleTree)
      → lookup merkle_index_discrete (at i d) t.tree ≡ some h
      → i < 2 ^ d
      → d < length t.sparse_initial_hashes
      → lookup_path t i d ≡ some path
      → Climbs d i h path t
  unfolding update_path climb lookup_path
  update_path-Climbs zero i h path t p b n q =
      let zero_index : i ≡ 0 = omega arith in
      let empty : path ≡ [] = ground arith in
      record {
        out = t;
        top = h;
        returns = refl;
        keeps_path = q;
        stores_top = rw zero_index at p;
        reaches_top = rw empty refl;
        keeps_hashes = refl;
      }
  update_path-Climbs (suc d) i h path t p b n q =
      let (l, _, lp) = node-some t (i / 2 * 2) (suc d) n in
      let (r, _, rp) = node-some t (i / 2 * 2 + 1) (suc d) n in
      let (s, f, sp) = node-some t (bit_xor i 1) (suc d) n in
      let (path', tail) = lookup_path-some t (i / 2) d (omega arith) in
      let parent = hash_inner_node l r in
      Climbs-step d i h l r s f path path' t (omega arith) (node-lookup t i (suc d) h p)
        (rw lp refl) (rw rp refl) sp tail q
        (update_path-Climbs d (i / 2) parent path' (with_node (i / 2) d parent t)
          (lookup-insert_self merkle_index_discrete (at (i / 2) d) parent t.tree)
          (omega (arith, pow-suc 2 d)) (omega arith)
          (lookup_path-with_node (i / 2) d parent t ∙ tail))
