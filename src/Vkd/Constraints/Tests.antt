-- ===== src/Vkd/Constraints/Tests.antt =====
-- A directory of depth 8 over the numbers: a user is appended, and then gets a new key.
use hekaton_system.Prelude.{
  ℕ, ◌+◌, ◌*◌, ◌%◌, ◌≡◌, refl, true, Bool, some, none, Option, List, [], ◌∷◌, replicate, length,
  arith, ℕ_discrete, flatten,
}
use hekaton_system.Prelude.Assoc.{lookup, insert}
use hekaton_system.Field.Tests.{numbers}
use hekaton_system.Portal.Rom.{new_setup, start_subtrace, log, setup_get, setup_set}
use hekaton_system.SparseTree.{Bytes, InnerHash}
use hekaton_system.TreeHash.Digest.{of_le_bytes, bits_le, input_digest, digest_to_fpvar}
use hekaton_system.TreeHash.Packing.{IsBytes, replicate-IsBytes, length-bits_le, of_bits-bits_le}
use hekaton_system.Vkd.{Update, update, append, concat, verify_circuit}
use hekaton_system.Vkd.Layout.{
  vkd_update_to_subcircuit, SubCircuit, all_subcircuits, update_subcircuits, four_paths,
  compute_path_at, get_node_addresses, node_addresses_at, get_previous_root_from_update_idx,
}
use hekaton_system.Vkd.Wire.{node_wire, index_wire, WireName-discrete, Bytes-discrete}
use hekaton_system.SparseTree.Split.{split, split_rounds, halve}
use hekaton_system.SparseTree.Circuit.{climb_var}
use hekaton_system.Portal.{push_last}
use hekaton_system.Vkd.Constraints.{
  KeyDirectory, Setup, leaf_digest, run_subcircuits, generate_constraints, subcircuit_constraints,
  primitive_constraints, equality_constraints, get_index_constraints, compute_path_constraints,
  public_parameter_constraints, set_index, index_pieces, fpvar_to_boolean_index, hash_leaf_var,
}
use hekaton_system.Vkd.Constraints.Example.{hash}
use hekaton_system.Vkd.Constraints.Honest.{Libraries, run_honest-verify_circuit}
use hekaton_system.Vkd.Hash.{hash_inner_node, hash_inner_node_var, honest}

-- The order of the children counts.
abbrev evaluate : ℕ → ℕ → ℕ
evaluate l r = l + 3 * r

abbrev to_sponge_bytes : ℕ → Bytes
to_sponge_bytes x = (x % 251) ∷ replicate 31 0

numbers-Libraries : Libraries hash hash evaluate to_sponge_bytes (bits_le 216) 8 216
unfolding of_le_bytes
numbers-Libraries = record {
  hashes = λ v. (refl, replicate-IsBytes 32 (of_le_bytes v % 251) (omega arith));
  sponge = λ x. (refl, (omega arith, replicate-IsBytes 31 0 (omega arith)));
  le = record { same_width = length-bits_le 216; spells = of_bits-bits_le 216 };
  wide = omega arith;
  large = omega arith;
  bytes = omega arith;
  fits = omega arith;
}

abbrev node_hash : InnerHash → InnerHash → InnerHash
node_hash = hash_inner_node hash evaluate to_sponge_bytes

abbrev node_hash_var : ℕ → ℕ → ℕ
node_hash_var = hash_inner_node_var hash evaluate to_sponge_bytes (bits_le 216) honest

abbrev alice : Bytes
alice = replicate 32 9

abbrev path : List InnerHash
path = ((5 + 3 * 6) ∷ replicate 26 0) ∷ replicate 7 (replicate 27 2)

abbrev null_digest : InnerHash
null_digest = replicate 27 4

abbrev updates : List Update
updates =
    append (record { username = alice; key = replicate 32 5; path = path })
    ∷ update (record {
      username = alice;
      counter = 0;
      key1 = replicate 32 5;
      path = path;
      key2 = replicate 32 6;
    })
    ∷ []

abbrev or_empty : Option (List SubCircuit) → List SubCircuit
or_empty none = []
or_empty (some scs) = scs

abbrev circuit : KeyDirectory
circuit = record {
  circuit = record {
    initial_root = 144 ∷ replicate 26 0;
    final_root = 63 ∷ replicate 26 0;
    updates = updates;
  };
  params = record { log_num_subcircuits = 5; null_leaf = null_digest };
  subcircuits = or_empty (vkd_update_to_subcircuit updates);
}

abbrev ran : Option (Setup ℕ × Bool)
ran =
    run_subcircuits hash node_hash_var (bits_le 216) 8 circuit 0 (length circuit.subcircuits)
      new_setup

abbrev final_manager : Option (Setup ℕ × Bool) → Setup ℕ
final_manager none = new_setup
final_manager (some (pm, holds)) = pm

zeros : IsBytes (replicate 26 0)
zeros = replicate-IsBytes 26 0 (omega arith)

built : vkd_update_to_subcircuit updates ≡ some circuit.subcircuits
unfolding vkd_update_to_subcircuit all_subcircuits update_subcircuits four_paths compute_path_at
    get_node_addresses node_addresses_at get_previous_root_from_update_idx split split_rounds halve
    concat
built = refl

ran_holds : ran ≡ some (final_manager ran, true)
unfolding vkd_update_to_subcircuit all_subcircuits update_subcircuits four_paths compute_path_at
    get_node_addresses node_addresses_at get_previous_root_from_update_idx split split_rounds halve
    concat run_subcircuits generate_constraints subcircuit_constraints primitive_constraints
    equality_constraints get_index_constraints compute_path_constraints public_parameter_constraints
    set_index index_pieces fpvar_to_boolean_index hash_leaf_var node_wire index_wire
    WireName-discrete Bytes-discrete ℕ_discrete lookup insert setup_get setup_set log start_subtrace
    push_last climb_var hash_inner_node_var input_digest digest_to_fpvar of_le_bytes bits_le flatten
ran_holds = refl

run_honest-verify_circuit_example :
    verify_circuit hash of_le_bytes (leaf_digest hash) node_hash 8 circuit.circuit null_digest
    ≡ some true
run_honest-verify_circuit_example =
    run_honest-verify_circuit hash hash evaluate to_sponge_bytes (bits_le 216) 8 216
      numbers-Libraries circuit (final_manager ran) built
      (((refl, refl), refl), (((refl, refl, refl), refl), tt)) (refl, (omega arith, zeros))
      (refl, (omega arith, zeros)) (refl, replicate-IsBytes 27 4 (omega arith)) ran_holds
