-- ===== src/Vkd/Subtraces/Tests.antt =====
-- A directory of depth 32 over the numbers, to which a user is appended.
use hekaton_system.Prelude.{
  map, ℕ, ◌≡◌, refl, Bool, some, none, Option, List, [], ◌∷◌, replicate, length, arith, ℕ_discrete,
  flatten,
}
use hekaton_system.Prelude.Assoc.{lookup, insert}
use hekaton_system.Field.Tests.{numbers}
use hekaton_system.Portal.Rom.{new_setup, start_subtrace, log, setup_get, setup_set}
use hekaton_system.SparseTree.{to_bit_vector, compute_root, node_hash_of, climb, get_index}
use hekaton_system.TreeHash.Digest.{of_le_bytes, bits_le, digest_to_fpvar}
use hekaton_system.TreeHash.Packing.{replicate-IsBytes}
use hekaton_system.Vkd.{Update, append, concat}
use hekaton_system.Vkd.Layout.{
  vkd_update_to_subcircuit, all_subcircuits, update_subcircuits, four_paths, compute_path_at,
  get_node_addresses, node_addresses_at, get_previous_root_from_update_idx,
}
use hekaton_system.Vkd.Wire.{node_wire, index_wire, WireName-discrete, Bytes-discrete}
use hekaton_system.SparseTree.Split.{split, split_rounds, halve}
use hekaton_system.Portal.{push_last}
use hekaton_system.Vkd.Constraints.{KeyDirectory, Setup, leaf_digest, run_subcircuits}
use hekaton_system.Vkd.Constraints.Example.{
  hash, hash_inner_node, hash_inner_node_var, numbers-Suits,
}
use hekaton_system.Vkd.Subtraces.{
  piece_fpvar, piece_fpvars, hash_leaf_to_split_index, native_set_index, put_node, native_equality,
  native_get_index, native_compute_path, native_public_parameter, native_primitive,
  native_primitives, native_subcircuits, record_subtraces, get_portal_subtraces,
}
use hekaton_system.Vkd.Subtraces.Trace.{get_portal_subtraces-run_subcircuits}
use hekaton_system.Transcript.{TranscriptEntry}

abbrev updates : List Update
updates =
    append (record {
      username = replicate 32 9;
      key = replicate 32 5;
      path = replicate 32 (replicate 27 2);
    })
    ∷ []

abbrev or_empty {ℓ} : {A : Type ℓ} → Option (List A) → List A
or_empty none = []
or_empty (some xs) = xs

abbrev circuit : KeyDirectory
circuit = record {
  circuit = record {
    initial_root = replicate 27 1;
    final_root = replicate 27 3;
    updates = updates;
  };
  params = record { log_num_subcircuits = 4; null_leaf = replicate 27 4 };
  subcircuits = or_empty (vkd_update_to_subcircuit updates);
}

abbrev recorded : Option (List (List (TranscriptEntry ℕ)))
recorded = get_portal_subtraces hash hash_inner_node 32 circuit

built : vkd_update_to_subcircuit updates ≡ some circuit.subcircuits
unfolding vkd_update_to_subcircuit all_subcircuits update_subcircuits four_paths compute_path_at
    get_node_addresses node_addresses_at get_previous_root_from_update_idx split split_rounds halve
    concat
built = refl

recorded-some : recorded ≡ some (or_empty recorded)
unfolding vkd_update_to_subcircuit all_subcircuits update_subcircuits four_paths compute_path_at
    get_node_addresses node_addresses_at get_previous_root_from_update_idx split split_rounds halve
    concat get_portal_subtraces record_subtraces native_subcircuits native_primitives
    native_primitive native_public_parameter native_compute_path native_get_index native_equality
    put_node native_set_index hash_leaf_to_split_index piece_fpvars piece_fpvar get_index
    to_bit_vector compute_root node_hash_of climb leaf_digest node_wire index_wire WireName-discrete
    Bytes-discrete ℕ_discrete lookup insert setup_get setup_set log start_subtrace push_last
    digest_to_fpvar of_le_bytes bits_le flatten
recorded-some = refl

get_portal_subtraces-run_subcircuits_example :
    (pm : Setup ℕ) × (holds : Bool) × (run_subcircuits hash hash_inner_node_var
        (bits_le 216)
        32
        circuit
        0
        (length circuit.subcircuits)
        new_setup
      ≡ some (pm, holds))
    × (map (map TranscriptEntry.rom) pm.subtraces ≡ or_empty recorded)
get_portal_subtraces-run_subcircuits_example =
    get_portal_subtraces-run_subcircuits hash hash_inner_node hash_inner_node_var (bits_le 216) 32
      216 1 (numbers-Suits 32 (omega arith) (omega arith)) (omega arith) circuit
      (refl, replicate-IsBytes 27 1 (omega arith)) (refl, replicate-IsBytes 27 3 (omega arith))
      (refl, replicate-IsBytes 27 4 (omega arith)) (or_empty recorded) built recorded-some
