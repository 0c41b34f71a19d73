-- ===== src/Vkd/Constraints.antt =====
-- vkd/vkd_constraints.rs: the constraints of the directory's subcircuits. `hash` stands for `hash`
-- of vkd/hash.rs and its gadget `hash_var`, which have 32 bytes; arkworks' `to_bits_le` is a parameter,
-- and so is `depth`, 128 in the code. The parameter `hash_inner_node_var` is the value that the
-- prover assigns to the variable of that name's result, from the inputs: with Poseidon it is a new
-- witness, which no constraint fixes, so no check below enforces that hash. Vkd/Hash has the
-- function of the code, whose assignment is honest where it is the value of the code's closure. The
-- constraints are the Boolean that a run returns, and a panic is `none`.
pub mod Satisfied
pub mod Primitives
pub mod Run
pub mod Quarters
pub mod Index
pub mod Path
pub mod Native
pub mod Built
pub mod Step
pub mod Roots
pub mod Sound
pub mod Honest
pub mod Example
mod Tests
use hekaton_system.Prelude.{
  ℕ, zero, suc, ◌+◌, ◌*◌, ◌/◌, ◌^◌, Bool, true, ◌&&◌, Option, none, some, ◌>>=◌, List, [], ◌∷◌, map,
  flatten, length, get_elem?, take, if◌then◌else◌, leb,
}
use hekaton_system.Field.{PrimeField}
use hekaton_system.Portal.{PortalManager}
use hekaton_system.Portal.Rom.{SetupRomPortalManager, start_subtrace, setup_manager}
use hekaton_system.SparseTree.{Bytes, InnerHash, inner_hash_size}
use hekaton_system.SparseTree.Split.{split}
use hekaton_system.SparseTree.Circuit.{climb_var}
use hekaton_system.TreeHash.Digest.{bits_le, digest_to_fpvar, input_digest}
use hekaton_system.Vkd.{VerifiableKeyDirectoryCircuit}
use hekaton_system.Vkd.Layout.{
  split_factor, EqualityPrimitive, GetIndexPrimitive, ComputePathPrimitive, PrimitiveSubcircuit,
  equality, get_index, compute_path, hash_leaf, padding, write_public_parameter, SubCircuit,
}
use hekaton_system.Vkd.Wire.{
  WireName, WireName-discrete, leaf_hash, null_leaf, final_root, initial_root, index, node_wire,
  index_wire,
}

pub record VerifiableKeyDirectoryCircuitParams : Type 0 where
  pub log_num_subcircuits : ℕ
  pub null_leaf : InnerHash

-- The circuit's other fields.
pub record KeyDirectory : Type 0 where
  pub circuit : VerifiableKeyDirectoryCircuit
  pub params : VerifiableKeyDirectoryCircuitParams
  pub subcircuits : List SubCircuit

-- `hash_leaf`.
unfoldable pub leaf_digest : (Bytes → Bytes) → Bytes → InnerHash
leaf_digest hash leaf = take inner_hash_size (hash leaf)

-- `hash_leaf_var`.
unfoldable pub hash_leaf_var {ℓ} : {F : Type ℓ} ⦃f : PrimeField F⦄ → (Bytes → Bytes) → Bytes → F
hash_leaf_var hash leaf = digest_to_fpvar (take inner_hash_size (hash leaf))

-- `fpvar_to_boolean_index`: the slice panics where there are fewer bits.
unfoldable pub fpvar_to_boolean_index {ℓ} :
    {F : Type ℓ} → (F → List Bool) → ℕ → F → Option (List Bool)
fpvar_to_boolean_index to_bits_le path_length x =
    let boolean_vec = to_bits_le x in
    if leb path_length (length boolean_vec) then some (take path_length boolean_vec) else none

-- The bits of the hash that are the index, in `SPLIT_FACTOR` pieces.
unfoldable pub index_pieces : (Bytes → Bytes) → ℕ → Bytes → Option (List (List Bool))
index_pieces hash depth username =
    let bits = flatten (map (bits_le 8) (hash username)) in
    if leb depth (length bits) then split (take depth bits) split_factor else none

module _ {ℓ κ} {F : Type ℓ} ⦃f : PrimeField F⦄ (hash : Bytes → Bytes)
    (hash_inner_node_var : F → F → F) (to_bits_le : F → List Bool) (depth : ℕ) {S : Type κ}
    (pm : PortalManager WireName F S) where
  -- The loop over `0..SPLIT_FACTOR`, from a piece on.
  unfoldable pub set_index : Bytes → List (List Bool) → ℕ → ℕ → S → Option S
  set_index username bool_vec i zero s = some s
  set_index username bool_vec i (suc left) s = do
    piece ← get_elem? bool_vec i
    s' ← pm.set (index i username) (f.le_bits_to_fp piece) s
    set_index username bool_vec (i + 1) left s'

  unfoldable pub equality_constraints : EqualityPrimitive → S → Option (S × Bool)
  equality_constraints eq s = do
    (value1, s1) ← pm.get (node_wire eq.addr1) s
    (value2, s2) ← pm.get (node_wire eq.addr2) s1
    some (s2, f.is_eq value1 value2)

  unfoldable pub get_index_constraints : GetIndexPrimitive → S → Option (S × Bool)
  get_index_constraints ind s = do
    bool_vec ← index_pieces hash depth (take 32 ind.leaf)
    s' ← set_index (take 32 ind.leaf) bool_vec 0 split_factor s
    some (s', true)

  -- The final value is the root under the assignment of the inner hashes.
  unfoldable pub compute_path_constraints : ComputePathPrimitive → S → Option (S × Bool)
  compute_path_constraints p s = do
    (initial_node, s1) ← pm.get (node_wire p.initial_value_addr) s
    (index_fpvar, s2) ← pm.get (index_wire p.index_addr) s1
    index_bits ← fpvar_to_boolean_index to_bits_le (depth / split_factor) index_fpvar
    s3 ←
        pm.set (node_wire p.final_value_addr)
          (climb_var (hash_leaf_var hash) hash_inner_node_var initial_node (map input_digest p.path)
            index_bits)
          s2
    some (s3, true)

  unfoldable pub public_parameter_constraints : KeyDirectory → S → Option (S × Bool)
  public_parameter_constraints c s = do
    s1 ← pm.set initial_root (digest_to_fpvar c.circuit.initial_root) s
    s2 ← pm.set final_root (digest_to_fpvar c.circuit.final_root) s1
    s3 ← pm.set null_leaf (digest_to_fpvar c.params.null_leaf) s2
    some (s3, true)

  unfoldable pub primitive_constraints : KeyDirectory → PrimitiveSubcircuit → S → Option (S × Bool)
  primitive_constraints c (equality eq) s = equality_constraints eq s
  primitive_constraints c (get_index ind) s = get_index_constraints ind s
  primitive_constraints c (compute_path p) s = compute_path_constraints p s
  primitive_constraints c (hash_leaf leaf) s = do
    s' ← pm.set (leaf_hash leaf) (hash_leaf_var hash leaf) s
    some (s', true)
  primitive_constraints c write_public_parameter s = public_parameter_constraints c s
  primitive_constraints c padding s = some (s, true)

  unfoldable pub subcircuit_constraints : KeyDirectory → SubCircuit → S → Option (S × Bool)
  subcircuit_constraints c [] s = some (s, true)
  subcircuit_constraints c (p ∷ ps) s = do
    (s1, holds) ← primitive_constraints c p s
    (s2, rest) ← subcircuit_constraints c ps s1
    some (s2, holds && rest)

  unfoldable pub generate_constraints : KeyDirectory → ℕ → S → Option (S × Bool)
  generate_constraints c subcircuit_idx s = do
    subcircuit ← get_elem? c.subcircuits subcircuit_idx
    subcircuit_constraints c subcircuit s

abbrev pub Setup {ℓ} : Type ℓ → Type ℓ
Setup F = SetupRomPortalManager WireName F

abbrev pub setup {ℓ} : {F : Type ℓ} → PortalManager WireName F (Setup F)
setup = setup_manager WireName-discrete

module _ {ℓ} {F : Type ℓ} ⦃f : PrimeField F⦄ (hash : Bytes → Bytes)
    (hash_inner_node_var : F → F → F) (to_bits_le : F → List Bool) (depth : ℕ) where
  -- All subcircuits in order, each in a subtrace of its own: `left` of them, from an index on.
  unfoldable pub run_subcircuits : KeyDirectory → ℕ → ℕ → Setup F → Option (Setup F × Bool)
  run_subcircuits c idx zero pm = some (pm, true)
  run_subcircuits c idx (suc left) pm = do
    (pm1, holds) ←
        generate_constraints hash hash_inner_node_var to_bits_le depth setup c idx
          (start_subtrace pm)
    (pm2, rest) ← run_subcircuits c (idx + 1) left pm1
    some (pm2, holds && rest)
