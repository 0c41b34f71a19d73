-- ===== src/Vm/Memory.antt =====
-- The Merkle memory of the virtual machine: the path that each access verifies.
use hekaton_system.Prelude.{
  ℕ, ◌^◌, ◌<◌, ◌≡◌, refl, some, List, arith, length, take, replicate, true, ◌==◌,
}
use hekaton_system.SparseTree.{Bytes, InnerHash, leaf, new, get_index, node_hash_of}
use hekaton_system.SparseTree.Update.{insert_node-lookup_path}
use hekaton_system.SparseTree.New.{new-IsMerkle}
use hekaton_system.Vm.{merkle_memory_depth, merkle_path_verification}

module _ (hash : Bytes → Bytes) (from_bytes_le : Bytes → ℕ) (hash_leaf : Bytes → InnerHash)
    (hash_inner_node : InnerHash → InnerHash → InnerHash) where
  -- Where the hash of the fixed leaf has 32 bytes and 4 bytes spell a number of 32 bits, an access of
  -- the Merkle memory verifies its path without a panic.
  pub merkle_path_verification-some :
      length (hash (replicate 32 1)) ≡ 32
      → ((d : Bytes) → from_bytes_le (take 4 d) < 2 ^ 32)
      → (path : List InnerHash) × (merkle_path_verification hash from_bytes_le hash_leaf
            hash_inner_node
          ≡ some path)
  unfolding merkle_path_verification get_index node_hash_of
  merkle_path_verification-some long narrow =
      let i = from_bytes_le (take 4 (hash (replicate 32 1))) in
      let whole : (length (hash (replicate 32 1)) == 32) ≡ true = ground (arith, long) in
      let tree = new-IsMerkle hash_leaf hash_inner_node merkle_memory_depth in
      let (path, out, inserted, before, after, root) =
        insert_node-lookup_path hash_leaf hash_inner_node i merkle_memory_depth (replicate 32 1)
          leaf (hash_leaf (replicate 32 1)) (new hash_leaf hash_inner_node merkle_memory_depth) refl
          (narrow (hash (replicate 32 1))) (omega (arith, tree.hashes)) in
      (path, rw (whole, merkle_path_verification) (rw inserted after))
