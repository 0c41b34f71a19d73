-- ===== src/TreeHash/Constraints.antt =====
-- tree_hash_circuit.rs: the constraints of each subcircuit of the Merkle tree, and the run of the
-- whole tree that records the subtraces.
use hekaton_system.Prelude.{
  ℕ, zero, suc, ◌+◌, ◌-◌, ◌/◌, Bool, true, Option, none, some, ◌>>=◌, List, [], ◌∷◌, ◌++◌, map,
  length, get_elem?, take, if◌then◌else◌, leb, ◌==◌,
}
use hekaton_system.Field.{PrimeField}
use hekaton_system.Transcript.{TranscriptEntry}
use hekaton_system.Portal.{PortalManager}
use hekaton_system.Portal.Rom.{SetupRomPortalManager, new_setup, start_subtrace, setup_manager}
use hekaton_system.SparseTree.{Bytes, inner_hash_size}
use hekaton_system.TreeHash.Node.{
  level, left_child, right_child, root_idx, subcircuit_idx_to_node_idx,
}
use hekaton_system.TreeHash.Digest.{digest_to_fpvar, fpvar_to_digest, input_digest}
use hekaton_system.TreeHash.Circuit.{
  WireName, WireName-discrete, node_hash, placeholder, MerkleTreeCircuit, MerkleTreeCircuitParams,
  num_subcircuits, iterate_sha256,
}

module _ {ℓ κ} {F : Type ℓ} {S : Type κ} (pm : PortalManager WireName F S) where
  -- The `get`s of the placeholder.
  unfoldable pub placeholder_gets : ℕ → S → Option S
  placeholder_gets zero s = some s
  placeholder_gets (suc n) s = do (v, s') ← pm.get placeholder s; placeholder_gets n s'

  -- One less than the number of portals, where that does not underflow.
  unfoldable pub placeholder_ops : MerkleTreeCircuitParams → S → Option S
  unfolding placeholder_gets
  placeholder_ops params s =
      if params.num_portals_per_subcircuit == 0
      then none
      else placeholder_gets (params.num_portals_per_subcircuit - 1) s

  unfoldable pub set_placeholder : ⦃f : PrimeField F⦄ → ℕ → S → Option S
  set_placeholder ⦃f⦄ idx s = if idx == 0 then pm.set placeholder f.zero_elem s else some s

module _ {ℓ} {F : Type ℓ} ⦃f : PrimeField F⦄ (sha256 : Bytes → Bytes) where
  -- The circuit's `iterated_sha256`.
  unfoldable pub iterated_sha256 : MerkleTreeCircuit → Bytes → F
  unfolding iterate_sha256 digest_to_fpvar
  iterated_sha256 c input =
      digest_to_fpvar (iterate_sha256 sha256 c.params.num_sha_iters_per_subcircuit input)

module _ {ℓ κ} {F : Type ℓ} ⦃f : PrimeField F⦄ (sha256 : Bytes → Bytes) (to_bits_le : F → List Bool)
    {S : Type κ} (pm : PortalManager WireName F S) where
  unfoldable pub leaf_constraints : MerkleTreeCircuit → ℕ → S → Option (S × Bool)
  unfolding iterated_sha256
  leaf_constraints c node s = do
    leaf ← get_elem? c.leaves (node / 2)
    s1 ← pm.set (node_hash node) (iterated_sha256 sha256 c leaf) s
    some (s1, true)

  unfoldable pub parent_constraints : MerkleTreeCircuit → ℕ → ℕ → S → Option (S × Bool)
  unfolding iterated_sha256 fpvar_to_digest input_digest left_child right_child
  parent_constraints c root node s = do
    left ← left_child node
    right ← right_child node
    (left_hash, s1) ← pm.get (node_hash left) s
    (right_hash, s2) ← pm.get (node_hash right) s1
    let parent_hash =
        iterated_sha256 sha256 c
          (fpvar_to_digest to_bits_le left_hash ++ fpvar_to_digest to_bits_le right_hash)
    s3 ← pm.set (node_hash node) parent_hash s2
    some (s3, if root == node then f.is_eq parent_hash (input_digest c.root_hash) else true)

  unfoldable pub node_constraints : MerkleTreeCircuit → ℕ → S → Option (S × Bool)
  node_constraints c idx s = do
    node ← subcircuit_idx_to_node_idx idx (length c.leaves)
    root ← root_idx (length c.leaves)
    if level node == 0 then leaf_constraints c node s else parent_constraints c root node s

  -- `generate_constraints`; the padding subcircuit throws its hash away.
  unfoldable pub generate_constraints : MerkleTreeCircuit → ℕ → S → Option (S × Bool)
  generate_constraints c idx s = if num_subcircuits c == 0 then none else do
    (s1, holds) ←
        (if idx == num_subcircuits c - 1 then some (s, true) else node_constraints c idx s)
    s2 ← set_placeholder pm idx s1
    s3 ← placeholder_ops pm c.params s2
    some (s3, holds)

abbrev pub Setup {ℓ} : Type ℓ → Type ℓ
Setup F = SetupRomPortalManager WireName F

abbrev pub setup {ℓ} : {F : Type ℓ} → PortalManager WireName F (Setup F)
setup = setup_manager WireName-discrete

module _ {ℓ} {F : Type ℓ} ⦃f : PrimeField F⦄ (sha256 : Bytes → Bytes)
    (to_bits_le : F → List Bool) where
  -- The native hash of `get_portal_subtraces`: `copy_from_slice` wants 32 bytes.
  unfoldable pub native_hash : MerkleTreeCircuit → Bytes → Option F
  native_hash c input =
      let digest = iterate_sha256 sha256 c.params.num_sha_iters_per_subcircuit input in
      if length digest == 32 then some (digest_to_fpvar digest) else none

  -- One round of the loop over the leaves.
  unfoldable pub leaf_subtrace : MerkleTreeCircuit → ℕ → Bytes → Setup F → Option (Setup F)
  leaf_subtrace c idx leaf pm = do
    leaf_hash ← native_hash c leaf
    node ← subcircuit_idx_to_node_idx idx (length c.leaves)
    pm1 ← setup.set (node_hash node) leaf_hash (start_subtrace pm)
    pm2 ← set_placeholder setup idx pm1
    placeholder_ops setup c.params pm2

  unfoldable pub leaf_subtraces : MerkleTreeCircuit → ℕ → List Bytes → Setup F → Option (Setup F)
  leaf_subtraces c idx [] pm = some pm
  leaf_subtraces c idx (leaf ∷ leaves) pm = do
    pm' ← leaf_subtrace c idx leaf pm
    leaf_subtraces c (idx + 1) leaves pm'

  -- `left_child[..INNER_HASH_SIZE]` of a child's bytes.
  unfoldable pub child_bytes : F → Option Bytes
  child_bytes x =
      let bytes = fpvar_to_digest to_bits_le x in
      if leb inner_hash_size (length bytes) then some (take inner_hash_size bytes) else none

  -- One round of the loop over the parents.
  unfoldable pub parent_subtrace : MerkleTreeCircuit → ℕ → Setup F → Option (Setup F)
  parent_subtrace c idx pm = do
    node ← subcircuit_idx_to_node_idx idx (length c.leaves)
    left ← left_child node
    right ← right_child node
    (left_value, pm1) ← setup.get (node_hash left) (start_subtrace pm)
    (right_value, pm2) ← setup.get (node_hash right) pm1
    left_bytes ← child_bytes left_value
    right_bytes ← child_bytes right_value
    parent_hash ← native_hash c (left_bytes ++ right_bytes)
    pm3 ← setup.set (node_hash node) parent_hash pm2
    placeholder_ops setup c.params pm3

  unfoldable pub parent_subtraces : MerkleTreeCircuit → ℕ → ℕ → Setup F → Option (Setup F)
  parent_subtraces c idx zero pm = some pm
  parent_subtraces c idx (suc left) pm = do
    pm' ← parent_subtrace c idx pm
    parent_subtraces c (idx + 1) left pm'

  -- The manager after all the loops of `get_portal_subtraces`: the parents are the indices from the
  -- number of leaves to `num_subcircuits - 1`, which underflows where there are no leaves.
  unfoldable pub record_subtraces : MerkleTreeCircuit → Option (Setup F)
  record_subtraces c = do
    pm ← leaf_subtraces c 0 c.leaves new_setup
    pm' ←
        (if num_subcircuits c == 0
          then none
          else parent_subtraces c (length c.leaves) (num_subcircuits c - 1 - length c.leaves) pm)
    placeholder_ops setup c.params (start_subtrace pm')

  unfoldable pub get_portal_subtraces : MerkleTreeCircuit → Option (List (List (TranscriptEntry F)))
  get_portal_subtraces c = do
    pm ← record_subtraces c
    some (map (map TranscriptEntry.rom) pm.subtraces)
