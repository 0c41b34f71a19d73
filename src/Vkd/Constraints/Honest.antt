-- ===== src/Vkd/Constraints/Honest.antt =====
-- A run of the directory's subcircuits in which the hashes of two nodes, witnesses that no constraint
-- fixes, have the values that the code's own closures compute.
use hekaton_system.Prelude.{
  ℕ, ◌*◌, ◌/◌, ◌^◌, ◌≤◌, ◌≡◌, refl, true, Bool, some, List, All, take, length, length-take, arith,
}
use hekaton_system.Field.{PrimeField}
use hekaton_system.Portal.Rom.{new_setup}
use hekaton_system.SparseTree.{Bytes, inner_hash_size}
use hekaton_system.TreeHash.Digest.{of_le_bytes, input_digest}
use hekaton_system.TreeHash.Packing.{IsBytes, IsLeBits, take-IsBytes}
use hekaton_system.Vkd.{verify_circuit}
use hekaton_system.Vkd.Hash.{hash_inner_node, hash_inner_node_var, honest}
use hekaton_system.Vkd.Layout.{vkd_update_to_subcircuit}
use hekaton_system.Vkd.Constraints.{KeyDirectory, Setup, leaf_digest, run_subcircuits}
use hekaton_system.Vkd.Constraints.Native.{IsDigest, Suits}
use hekaton_system.Vkd.Constraints.Built.{IsFull}
use hekaton_system.Vkd.Constraints.Sound.{run_subcircuits-verify_circuit}

module _ {ℓ} {F : Type ℓ} ⦃f : PrimeField F⦄ (hash sha256_digest : Bytes → Bytes)
    (evaluate : F → F → F) (to_sponge_bytes : F → Bytes) (to_bits_le : F → List Bool)
    (depth width : ℕ) where
  -- What is relied on: the hash and the form of a field element have 32 bytes, the digits of a field
  -- element are those of its number, and the field has room for a digest. The depth is a number of
  -- bytes that the hash has, and has four parts.
  pub record Libraries : Type ℓ where
    pub hashes : (v : Bytes) → (length (hash v) ≡ 32) × IsBytes (hash v)
    pub sponge : (x : F) → (length (to_sponge_bytes x) ≡ 32) × IsBytes (to_sponge_bytes x)
    pub le : IsLeBits to_bits_le width
    pub wide : 216 ≤ width
    pub large : 2 ^ 216 ≤ f.modulus
    pub bytes : depth ≡ 8 * (depth / 8)
    pub fits : depth ≤ 256

  take-IsDigest : Libraries → (x : F) → IsDigest (take inner_hash_size (to_sponge_bytes x))
  take-IsDigest b x =
      let (l, h) = b.sponge x in
      (
        omega (arith, l, length-take inner_hash_size (to_sponge_bytes x)),
        take-IsBytes inner_hash_size (to_sponge_bytes x) h,
      )

  Libraries-Suits :
      Libraries
      → Suits hash
          (hash_inner_node sha256_digest evaluate to_sponge_bytes)
          (hash_inner_node_var sha256_digest evaluate to_sponge_bytes to_bits_le honest)
          to_bits_le
          depth
          width
  unfolding hash_inner_node hash_inner_node_var
  Libraries-Suits b = record {
    hashes = b.hashes;
    digests = λ l r. take-IsDigest b (evaluate (input_digest l) (input_digest r));
    gadget = λ l r. refl;
    le = b.le;
    wide = b.wide;
    large = b.large;
    bytes = b.bytes;
    fits = b.fits;
  }

  -- Let the hash and the form of a field element have 32 bytes, `to_bits_le` give the digits of a
  -- field element, at least 216 and always as many, the field have at least 2^216 elements, and the
  -- depth be a multiple of 8 up to 256. Let the witnesses that `hash_inner_node_var` returns have the
  -- values that its closure computes: with Poseidon no constraint fixes them, and nothing is said of
  -- other values.
  -- Let a circuit of the key directory have the subcircuits that its updates give, updates with
  -- arrays of the sizes that the source's types fix and paths as long as the tree is deep, and let
  -- its two roots and the null leaf be inner hashes. If all subcircuits then run without a panic in
  -- order, with the coordinator's manager, and every constraint holds, `verify` of the circuit, which
  -- checks every update's path against the root before it, returns true.
  pub run_honest-verify_circuit :
      Libraries
      → (c : KeyDirectory) (pm : Setup F)
      → vkd_update_to_subcircuit c.circuit.updates ≡ some c.subcircuits
      → All (IsFull depth) c.circuit.updates
      → IsDigest c.circuit.initial_root
      → IsDigest c.circuit.final_root
      → IsDigest c.params.null_leaf
      → run_subcircuits hash
          (hash_inner_node_var sha256_digest evaluate to_sponge_bytes to_bits_le honest)
          to_bits_le
          depth
          c
          0
          (length c.subcircuits)
          new_setup
        ≡ some (pm, true)
      → verify_circuit hash of_le_bytes
          (leaf_digest hash)
          (hash_inner_node sha256_digest evaluate to_sponge_bytes)
          depth
          c.circuit
          c.params.null_leaf
        ≡ some true
  run_honest-verify_circuit b =
      run_subcircuits-verify_circuit hash (hash_inner_node sha256_digest evaluate to_sponge_bytes)
        (hash_inner_node_var sha256_digest evaluate to_sponge_bytes to_bits_le honest) to_bits_le
        depth width (Libraries-Suits b)
