-- ===== src/Vkd/Chain.antt =====
-- The updates that the directory makes of itself, and `verify` of vkd/vkd.rs.
use hekaton_system.Prelude.{
  ℕ, suc, ◌^◌, ◌<◌, ◌≡◌, refl, sym, ap, ◌∙◌, true, some, List, [], ◌∷◌, arith, length,
}
use hekaton_system.SparseTree.{
  Bytes, InnerHash, SparseMerkleTree, NodeType, leaf, internal_node, at, lookup_path, insert_node,
  compute_root, verify, bytes_eq, to_bit_vector, node_hash_of,
}
use hekaton_system.SparseTree.Path.{node}
use hekaton_system.SparseTree.Merkle.{IsMerkle}
use hekaton_system.SparseTree.Verify.{insert_node-IsMerkle, climb-IsMerkle}
use hekaton_system.SparseTree.Update.{insert_node-lookup_path}
use hekaton_system.Vkd.{
  Update, update, append, concat, next_counter, index_of, verify_step, verify_updates,
  verify_circuit, append_user, update_user,
}

pub bytes_eq_refl : (b : Bytes) → bytes_eq b b ≡ true
unfolding bytes_eq
bytes_eq_refl [] = refl
bytes_eq_refl (x ∷ xs) = ground (arith, bytes_eq_refl xs)

module _ (hash_leaf : Bytes → InnerHash) (hash_inner_node : InnerHash → InnerHash → InnerHash)
    (depth : ℕ) where
  -- An exchange of a value: the path proves the old one against the old root, and makes the new
  -- root out of the new one.
  record Exchange (i : ℕ) (old new : Bytes) (old_type : NodeType) (t : SparseMerkleTree)
      : Type 0 where
    pub path : List InnerHash
    pub out : SparseMerkleTree
    pub finds : lookup_path t i depth ≡ some path
    pub inserts : insert_node hash_leaf hash_inner_node (at i depth) new leaf t ≡ some out
    pub verifies :
        verify hash_leaf hash_inner_node path t.root old (to_bit_vector i depth) old_type
        ≡ some true
    pub computes :
        compute_root hash_leaf hash_inner_node path new (to_bit_vector i depth) leaf ≡ some out.root
    pub keeps : IsMerkle hash_leaf hash_inner_node depth out

  exchange :
      (i : ℕ) (old new : Bytes) (old_type : NodeType) (h : InnerHash) (t : SparseMerkleTree)
      → IsMerkle hash_leaf hash_inner_node depth t
      → i < 2 ^ depth
      → node_hash_of hash_leaf hash_inner_node old old_type ≡ some h
      → node t i depth ≡ some h
      → Exchange i old new old_type t
  unfolding verify compute_root node_hash_of
  exchange i old new old_type h t m b o n =
      let (path, out, r, p, _, c) =
        insert_node-lookup_path hash_leaf hash_inner_node i depth new leaf (hash_leaf new) t refl b
          (omega (arith, m.hashes)) in
      let climbs =
        climb-IsMerkle hash_leaf hash_inner_node depth depth i h path t m (omega arith) b n p in
      let kept =
        insert_node-IsMerkle hash_leaf hash_inner_node i depth (suc i) new leaf (hash_leaf new) t
          out refl b m r (λ q. omega arith) in
      record {
        path = path;
        out = out;
        finds = p;
        inserts = r;
        verifies = rw (o, verify) (rw (climbs, verify) (ap some (bytes_eq_refl t.root)));
        computes = c;
        keeps = kept.0;
      }

module _ (hash : Bytes → Bytes) (from_bytes_le : Bytes → ℕ) (hash_leaf : Bytes → InnerHash)
    (hash_inner_node : InnerHash → InnerHash → InnerHash) (depth : ℕ) (pp : InnerHash) where
  -- The runs of the directory: a user is appended where the tree has the null leaf `pp`, and gets a
  -- new key where the tree has the hash of the old one.
  pub data Run : SparseMerkleTree → List Update → SparseMerkleTree → Type 0 where
    done : (t : SparseMerkleTree) → Run t [] t
    appended :
        {t t' out : SparseMerkleTree} {u : Update} {us : List Update}
        → (username key : Bytes) (i : ℕ)
        → index_of hash from_bytes_le hash_leaf hash_inner_node depth username ≡ some (at i depth)
        → node t i depth ≡ some pp
        → append_user hash from_bytes_le hash_leaf hash_inner_node depth username key t
          ≡ some (u, t')
        → Run t' us out
        → Run t (u ∷ us) out
    updated :
        {t t' out : SparseMerkleTree} {u : Update} {us : List Update}
        → (username key1 key2 : Bytes) (counter i : ℕ)
        → index_of hash from_bytes_le hash_leaf hash_inner_node depth username ≡ some (at i depth)
        → node t i depth ≡ some (hash_leaf (concat username key1 counter))
        → update_user hash from_bytes_le hash_leaf hash_inner_node depth username counter key1 key2
            t
          ≡ some (u, t')
        → Run t' us out
        → Run t (u ∷ us) out

  abbrev Index : ℕ → Bytes → Type 0
  Index i username =
      index_of hash from_bytes_le hash_leaf hash_inner_node depth username ≡ some (at i depth)

  append_user-verify_step :
      (username key : Bytes) (i : ℕ) (t t' : SparseMerkleTree) (u : Update)
      → length pp ≡ 27
      → i < 2 ^ depth
      → IsMerkle hash_leaf hash_inner_node depth t
      → Index i username
      → node t i depth ≡ some pp
      → append_user hash from_bytes_le hash_leaf hash_inner_node depth username key t ≡ some (u, t')
      → (verify_step hash from_bytes_le hash_leaf hash_inner_node depth pp true t.root u
          ≡ some (true, t'.root))
        × IsMerkle hash_leaf hash_inner_node depth t'
  unfolding append_user verify_step
  append_user-verify_step username key i t t' u len b m x n h =
      let null : node_hash_of hash_leaf hash_inner_node pp internal_node ≡ some pp =
        unfold node_hash_of in rw len refl in
      let e =
        exchange hash_leaf hash_inner_node depth i pp (concat username key 0) internal_node pp t m b
          null n in
      let u' : Update = append (record { username = username; key = key; path = e.path }) in
      let r : append_user hash from_bytes_le hash_leaf hash_inner_node depth username key t
          ≡ some (u', e.out) =
        rw (x, append_user) (rw (e.finds, append_user) (rw (e.inserts, append_user) refl)) in
      let same : (u ≡ u') × (t' ≡ e.out) = ground (arith, sym h ∙ r) in
      rw same.0 (
        rw same.1 (
          rw (x, verify_step) (rw (e.verifies, verify_step) (rw (e.computes, verify_step) refl)),
          e.keeps,
        ))

  update_user-verify_step :
      (username key1 key2 : Bytes) (counter i : ℕ) (t t' : SparseMerkleTree) (u : Update)
      → i < 2 ^ depth
      → IsMerkle hash_leaf hash_inner_node depth t
      → Index i username
      → node t i depth ≡ some (hash_leaf (concat username key1 counter))
      → update_user hash from_bytes_le hash_leaf hash_inner_node depth username counter key1 key2 t
        ≡ some (u, t')
      → (verify_step hash from_bytes_le hash_leaf hash_inner_node depth pp true t.root u
          ≡ some (true, t'.root))
        × IsMerkle hash_leaf hash_inner_node depth t'
  unfolding update_user verify_step node_hash_of
  update_user-verify_step username key1 key2 counter i t t' u b m x n h =
      let new = concat username key2 (next_counter counter) in
      let old = concat username key1 counter in
      let e =
        exchange hash_leaf hash_inner_node depth i old new leaf (hash_leaf old) t m b refl n in
      let u' : Update = update (record {
        username = username;
        counter = counter;
        key1 = key1;
        path = e.path;
        key2 = key2;
      }) in
      let r : update_user hash from_bytes_le hash_leaf hash_inner_node depth username counter key1
            key2 t
          ≡ some (u', e.out) =
        rw (x, update_user) (rw (e.finds, update_user) (rw (e.inserts, update_user) refl)) in
      let same : (u ≡ u') × (t' ≡ e.out) = ground (arith, sym h ∙ r) in
      rw same.0 (
        rw same.1 (
          rw (x, verify_step) (rw (e.verifies, verify_step) (rw (e.computes, verify_step) refl)),
          e.keeps,
        ))

  Run-verify_updates :
      (t out : SparseMerkleTree) (us : List Update)
      → length pp ≡ 27
      → ((i : ℕ) (username : Bytes) → Index i username → i < 2 ^ depth)
      → IsMerkle hash_leaf hash_inner_node depth t
      → Run t us out
      → verify_updates hash from_bytes_le hash_leaf hash_inner_node depth pp true t.root us
        ≡ some (true, out.root)
  unfolding verify_updates
  Run-verify_updates t out us len fits m (done t0) = refl
  Run-verify_updates t out us len fits m
        (appended {t' = t'} {u = u} {us = us'} username key i x n h run) =
      let (v, m') = append_user-verify_step username key i t t' u len (fits i username x) m x n h in
      rw (v, verify_updates) (Run-verify_updates t' out us' len fits m' run)
  Run-verify_updates t out us len fits m
        (updated {t' = t'} {u = u} {us = us'} username key1 key2 counter i x n h run) =
      let (v, m') =
        update_user-verify_step username key1 key2 counter i t t' u (fits i username x) m x n h in
      rw (v, verify_updates) (Run-verify_updates t' out us' len fits m' run)

  -- Whatever sequence of appends and key updates the directory makes, from a tree whose nodes are
  -- the hashes of their children, `verify` accepts the updates that it records, with the tree's
  -- roots before and after. The null leaf has 27 bytes, an index fits the depth, an append finds
  -- the null leaf and an update the hash of the old key at its index.
  pub Run-verify_circuit :
      (t out : SparseMerkleTree) (us : List Update)
      → length pp ≡ 27
      → ((i : ℕ) (username : Bytes) → Index i username → i < 2 ^ depth)
      → IsMerkle hash_leaf hash_inner_node depth t
      → Run t us out
      → verify_circuit hash from_bytes_le hash_leaf hash_inner_node depth
          (record { initial_root = t.root; final_root = out.root; updates = us })
          pp
        ≡ some true
  unfolding verify_circuit
  Run-verify_circuit t out us len fits m run =
      rw (Run-verify_updates t out us len fits m run, verify_circuit)
        (rw (bytes_eq_refl out.root) refl)
