-- ===== src/Vkd/Subtraces.antt =====
-- vkd/vkd_constraints.rs, `get_portal_subtraces` of the key directory: the subcircuits run on native
-- hashes, with a memory for the pieces of the indices and one for the inner nodes. A panic is `none`.
pub mod Split
pub mod Agree
pub mod Run
pub mod Trace
mod Tests
use hekaton_system.Prelude.{
  ℕ, zero, suc, ◌+◌, ◌/◌, Bool, Option, none, some, ◌>>=◌, List, [], ◌∷◌, map, length, get_elem?,
  take, if◌then◌else◌, leb,
}
use hekaton_system.Prelude.Assoc.{lookup, insert}
use hekaton_system.Field.{PrimeField}
use hekaton_system.Portal.Rom.{start_subtrace, new_setup}
use hekaton_system.SparseTree.{Bytes, InnerHash, internal_node, compute_root, to_bit_vector}
use hekaton_system.SparseTree as Tree
use hekaton_system.SparseTree.Split.{split}
use hekaton_system.Transcript.{TranscriptEntry}
use hekaton_system.TreeHash.Digest.{digest_to_fpvar, of_le_bytes}
use hekaton_system.Vkd.Layout.{
  split_factor, EqualityPrimitive, GetIndexPrimitive, ComputePathPrimitive, PrimitiveSubcircuit,
  equality, get_index, compute_path, hash_leaf, padding, write_public_parameter, SubCircuit,
  vkd_update_to_subcircuit,
}
use hekaton_system.Vkd.Wire.{
  WireName, WireName-discrete, leaf_hash, null_leaf, final_root, initial_root, index, node_wire,
  index_wire,
}
use hekaton_system.Vkd.Constraints.{KeyDirectory, Setup, setup, leaf_digest}

-- The local variables of the loop.
pub record NativeRun {ℓ} (F : Type ℓ) : Type ℓ where
  pub pm : Setup F
  pub index_memory : List (WireName × List Bool)
  pub inner_node_memory : List (WireName × InnerHash)

module _ {ℓ} {F : Type ℓ} ⦃f : PrimeField F⦄ (depth : ℕ) where
  -- One round of the loop of `hash_leaf_to_split_index`: `copy_from_slice` from a shorter piece panics.
  unfoldable pub piece_fpvar : Bytes → Option F
  piece_fpvar piece =
      let path_bytes = depth / split_factor / 8 in
      if leb path_bytes (length piece)
      then some (f.from_uint (of_le_bytes (take path_bytes piece)))
      else none

  unfoldable pub piece_fpvars : List Bytes → ℕ → ℕ → Option (List F)
  piece_fpvars pieces i zero = some []
  piece_fpvars pieces i (suc left) = do
    piece ← get_elem? pieces i
    fpvar ← piece_fpvar piece
    rest ← piece_fpvars pieces (i + 1) left
    some (fpvar ∷ rest)

  -- The pieces of the index, as field elements and as bits.
  unfoldable pub hash_leaf_to_split_index : Bytes → ℕ → Option (List F × List (List Bool))
  hash_leaf_to_split_index leaf_h factor = do
    at_index ← Tree.get_index of_le_bytes leaf_h depth
    split_index ← split (to_bit_vector at_index.index at_index.depth) factor
    split_leaf_h ←
        (if leb (depth / 8) (length leaf_h) then split (take (depth / 8) leaf_h) factor else none)
    fpvars ← piece_fpvars split_leaf_h 0 factor
    some (fpvars, split_index)

module _ {ℓ} {F : Type ℓ} ⦃f : PrimeField F⦄ where
  unfoldable pub native_set_index :
      Bytes → List F → List (List Bool) → ℕ → ℕ → NativeRun F → Option (NativeRun F)
  native_set_index username fpvars bits i zero s = some s
  native_set_index username fpvars bits i (suc left) s = do
    piece ← get_elem? bits i
    fpvar ← get_elem? fpvars i
    pm ← setup.set (index i username) fpvar s.pm
    native_set_index username fpvars bits (i + 1) left (record s {
      pm = pm;
      index_memory = insert WireName-discrete (index i username) piece s.index_memory;
    })

  -- A native hash goes to the memory and to its wire; the source fills the memory first, which the other
  -- does not look at.
  unfoldable pub put_node : WireName → InnerHash → NativeRun F → Option (NativeRun F)
  put_node name digest s = do
    pm ← setup.set name (digest_to_fpvar digest) s.pm
    some (record s {
      pm = pm;
      inner_node_memory = insert WireName-discrete name digest s.inner_node_memory;
    })

  unfoldable pub native_equality : EqualityPrimitive → NativeRun F → Option (NativeRun F)
  native_equality eq s = do
    (value1, pm1) ← setup.get (node_wire eq.addr1) s.pm
    (value2, pm2) ← setup.get (node_wire eq.addr2) pm1
    some (record s { pm = pm2 })

  unfoldable pub native_public_parameter : KeyDirectory → NativeRun F → Option (NativeRun F)
  native_public_parameter c s = do
    s1 ← put_node initial_root c.circuit.initial_root s
    s2 ← put_node final_root c.circuit.final_root s1
    put_node null_leaf c.params.null_leaf s2

module _ {ℓ} {F : Type ℓ} ⦃f : PrimeField F⦄ (hash : Bytes → Bytes)
    (hash_inner_node : InnerHash → InnerHash → InnerHash) (depth : ℕ) where
  unfoldable pub native_get_index : GetIndexPrimitive → NativeRun F → Option (NativeRun F)
  native_get_index ind s = do
    (fpvars, bits) ← hash_leaf_to_split_index depth (hash (take 32 ind.leaf)) split_factor
    native_set_index (take 32 ind.leaf) fpvars bits 0 split_factor s

  unfoldable pub native_compute_path : ComputePathPrimitive → NativeRun F → Option (NativeRun F)
  native_compute_path p s = do
    bits ← lookup WireName-discrete (index_wire p.index_addr) s.index_memory
    initial_value ← lookup WireName-discrete (node_wire p.initial_value_addr) s.inner_node_memory
    (value1, pm1) ← setup.get (node_wire p.initial_value_addr) s.pm
    (value2, pm2) ← setup.get (index_wire p.index_addr) pm1
    root ← compute_root (leaf_digest hash) hash_inner_node p.path initial_value bits internal_node
    put_node (node_wire p.final_value_addr) root (record s { pm = pm2 })

  unfoldable pub native_primitive :
      KeyDirectory → PrimitiveSubcircuit → NativeRun F → Option (NativeRun F)
  native_primitive c (equality eq) s = native_equality eq s
  native_primitive c (get_index ind) s = native_get_index ind s
  native_primitive c (compute_path p) s = native_compute_path p s
  native_primitive c (hash_leaf leaf) s = put_node (leaf_hash leaf) (leaf_digest hash leaf) s
  native_primitive c write_public_parameter s = native_public_parameter c s
  native_primitive c padding s = some s

  unfoldable pub native_primitives : KeyDirectory → SubCircuit → NativeRun F → Option (NativeRun F)
  native_primitives c [] s = some s
  native_primitives c (p ∷ ps) s = do s' ← native_primitive c p s; native_primitives c ps s'

  unfoldable pub native_subcircuits :
      KeyDirectory → List SubCircuit → NativeRun F → Option (NativeRun F)
  native_subcircuits c [] s = some s
  native_subcircuits c (sc ∷ scs) s = do
    s' ← native_primitives c sc (record s { pm = start_subtrace s.pm })
    native_subcircuits c scs s'

  -- The loops of `get_portal_subtraces`, which builds the subcircuits again.
  unfoldable pub record_subtraces : KeyDirectory → Option (NativeRun F)
  record_subtraces c = do
    subcircuits ← vkd_update_to_subcircuit c.circuit.updates
    native_subcircuits c subcircuits
        (record { pm = new_setup; index_memory = []; inner_node_memory = [] })

  unfoldable pub get_portal_subtraces : KeyDirectory → Option (List (List (TranscriptEntry F)))
  get_portal_subtraces c = do
    s ← record_subtraces c
    some (map (map TranscriptEntry.rom) s.pm.subtraces)
