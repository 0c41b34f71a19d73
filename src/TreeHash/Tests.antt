-- ===== src/TreeHash/Tests.antt =====
-- A small Merkle tree over the numbers, with a checksum in the place of SHA-256.
use hekaton_system.Prelude.{
  ℕ, ◌+◌, ◌*◌, ◌%◌, ◌^◌, ◌≤◌, ◌<◌, ◌≡◌, refl, true, some, List, [], ◌∷◌, arith, length, take,
  replicate, ◌⊎◌,
}
use hekaton_system.Field.Tests.{numbers}
use hekaton_system.Transcript.{TranscriptEntry}
use hekaton_system.Portal.Rom.{new_setup}
use hekaton_system.SparseTree.{Bytes, inner_hash_size}
use hekaton_system.TreeHash.Circuit.{
  MerkleTreeCircuit, num_subcircuits, calculate_root, hash_leaves, next_level, climb_levels,
  iterate_sha256, iterated_sha256_inner,
}
use hekaton_system.TreeHash.Constraints.{Setup, record_subtraces, get_portal_subtraces}
use hekaton_system.TreeHash.Digest.{digest_to_fpvar, fpvar_to_digest, bits_le}
use hekaton_system.TreeHash.Level.{node_number}
use hekaton_system.TreeHash.Log.{log2-IsLog}
use hekaton_system.TreeHash.Native.{forget}
use hekaton_system.TreeHash.Native.Subtraces.{
  record_subtraces-run_subcircuits, get_portal_subtraces-returns,
}
use hekaton_system.TreeHash.Node.{log2, subcircuit_idx_to_node_idx, left_child, right_child}
use hekaton_system.TreeHash.Order.{first_of_level, subcircuit_idx_to_node_idx-node_number}
use hekaton_system.TreeHash.Packing.{
  IsLeBits, replicate-IsBytes, length-bits_le, of_bits-bits_le, fpvar_to_digest-digest_to_fpvar,
}
use hekaton_system.TreeHash.Progress.{IsHeld, node, node_digest}
use hekaton_system.TreeHash.Root.{IsSha256, calculate_root-node_digest}
use hekaton_system.TreeHash.Children.{child-earlier}
use hekaton_system.TreeHash.Whole.{run_subcircuits, run_subcircuits-calculate_root}

log2_example :
    (k : ℕ) × (log2 9 ≡ some k)
    × (((◌≡◌ {A = ℕ} 9 0) × (k ≡ 0)) ⊎ ((2 ^ k ≤ 9) × (9 < 2 ^ (k + 1))))
log2_example = log2-IsLog 9 (omega arith)

subcircuit_idx_example :
    subcircuit_idx_to_node_idx (first_of_level 2 1 + 1) (2 ^ 2) ≡ some (node_number 1 1)
subcircuit_idx_example =
    subcircuit_idx_to_node_idx-node_number 2 1 1 (omega arith) (omega arith) (omega arith)

checksum : Bytes → ℕ
checksum [] = 7
checksum (b ∷ bs) = (3 * b + checksum bs) % 256

abbrev digest : Bytes → Bytes
digest x = replicate 32 (checksum x)

checksum-lt : (x : Bytes) → checksum x < 256
unfolding checksum
checksum-lt [] = omega arith
checksum-lt (b ∷ bs) = omega arith

digest-IsSha256 : IsSha256 digest
digest-IsSha256 = record {
  long = λ x. refl;
  bytes = λ x. replicate-IsBytes 32 (checksum x) (checksum-lt x);
}

bits_le-IsLeBits : IsLeBits (bits_le 216) 216
bits_le-IsLeBits = record { same_width = length-bits_le 216; spells = of_bits-bits_le 216 }

abbrev circuit : MerkleTreeCircuit
circuit = record {
  leaves = (3 ∷ []) ∷ (4 ∷ []) ∷ [];
  root_hash = replicate 27 26;
  params = record {
    num_leaves = 2;
    num_sha_iters_per_subcircuit = 1;
    num_portals_per_subcircuit = 2;
  };
}

rooted : calculate_root digest circuit.leaves circuit.params ≡ some circuit.root_hash
unfolding calculate_root hash_leaves next_level climb_levels iterated_sha256_inner iterate_sha256
    checksum
rooted = refl

run_subcircuits-calculate_root_example :
    (pm : Setup ℕ) × (run_subcircuits digest
        (bits_le 216)
        circuit
        0
        (num_subcircuits circuit)
        new_setup
      ≡ some (pm, true))
    × (length pm.subtraces ≡ num_subcircuits circuit)
    × IsHeld pm.var_map (node 1 0) (digest_to_fpvar circuit.root_hash)
run_subcircuits-calculate_root_example =
    run_subcircuits-calculate_root digest (bits_le 216) circuit 1 216 digest-IsSha256
      bits_le-IsLeBits (omega arith) (omega arith) refl (omega arith) (omega arith) (omega arith)
      rooted

record_subtraces-run_subcircuits_example :
    record_subtraces digest (bits_le 216) circuit
    ≡ forget (run_subcircuits digest (bits_le 216) circuit 0 (num_subcircuits circuit) new_setup)
record_subtraces-run_subcircuits_example =
    record_subtraces-run_subcircuits digest (bits_le 216) circuit 1 216 digest-IsSha256
      bits_le-IsLeBits (omega arith) refl (omega arith) (omega arith)

get_portal_subtraces_example :
    (subtraces : List (List (TranscriptEntry ℕ))) × (get_portal_subtraces digest
        (bits_le 216)
        circuit
      ≡ some subtraces)
    × (length subtraces ≡ num_subcircuits circuit)
get_portal_subtraces_example =
    get_portal_subtraces-returns digest (bits_le 216) circuit 1 216 digest-IsSha256 bits_le-IsLeBits
      (omega arith) (omega arith) refl (omega arith) (omega arith) (omega arith) rooted

calculate_root-node_digest_example :
    calculate_root digest circuit.leaves circuit.params ≡ some (node_digest digest circuit 1 0)
calculate_root-node_digest_example =
    calculate_root-node_digest digest digest-IsSha256 circuit (omega arith) 1 refl

fpvar_to_digest_example :
    fpvar_to_digest (bits_le 216) (digest_to_fpvar (digest (5 ∷ [])))
    ≡ take inner_hash_size (digest (5 ∷ []))
fpvar_to_digest_example =
    fpvar_to_digest-digest_to_fpvar (bits_le 216) (digest (5 ∷ [])) 216 (omega arith)
      (replicate-IsBytes 32 (checksum (5 ∷ [])) (checksum-lt (5 ∷ []))) bits_le-IsLeBits
      (omega arith) (omega arith)

child-earlier_example :
    (n : ℕ) × (left : ℕ) × (right : ℕ) × (i : ℕ) × (j : ℕ) × (subcircuit_idx_to_node_idx
        (first_of_level 2 1 + 1)
        (2 ^ 2)
      ≡ some n)
    × (left_child n ≡ some left)
    × (right_child n ≡ some right)
    × (subcircuit_idx_to_node_idx i (2 ^ 2) ≡ some left)
    × (subcircuit_idx_to_node_idx j (2 ^ 2) ≡ some right)
    × (i < j)
    × (j < first_of_level 2 1 + 1)
child-earlier_example = child-earlier 2 0 1 (omega arith) (omega arith) (omega arith)
