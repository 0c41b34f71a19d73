-- ===== src/Vm/Tests.antt =====
-- A virtual machine of two subcircuits over the numbers.
use hekaton_system.Prelude.{
  ℕ, arith, ◌+◌, ◌*◌, ◌≡◌, refl, true, false, Bool, some, List, [], ◌∷◌, flatten, length, replicate,
}
use hekaton_system.Field.Tests.{numbers}
use hekaton_system.Portal.Ram.{new_setup}
use hekaton_system.Transcript.{TranscriptEntry}
use hekaton_system.Vm.{
  Setup, setup, VirtualMachine, generate_constraints, native_subcircuit, get_portal_subtraces,
  num_subcircuits,
}
use hekaton_system.Vm.Native.{generate_constraints-native_subcircuit}
use hekaton_system.Vm.Requests.{get_portal_subtraces-length}

abbrev machine : VirtualMachine ℕ
machine = record {
  registers = replicate 16 0;
  params = record {
    use_merkle_memory = false;
    log_num_subcircuit = 1;
    dummy_constraint_num = 30;
    operations_per_chunk = 2;
  };
}

get_portal_subtraces-length_example :
    (subtraces : List (List (TranscriptEntry ℕ))) × (get_portal_subtraces machine ≡ some subtraces)
    × (num_subcircuits machine ≡ some 2)
    × (length subtraces ≡ 2)
    × (length (flatten subtraces) + 16 ≡ 2 * (32 + 3 * 2))
get_portal_subtraces-length_example = get_portal_subtraces-length machine (omega arith)

abbrev opened : Setup ℕ
opened = record new_setup { subtraces = [] ∷ [] }

generate_constraints-native_subcircuit_example :
    (◌≡◌ {A = Bool} false false
      → generate_constraints {F = ℕ} (some ([])) setup machine 0 opened
        ≡ native_subcircuit machine 0 opened)
    × (◌≡◌ {A = Bool} false true
        → generate_constraints {F = ℕ} (some ([])) setup machine 0 opened ≡ some opened)
generate_constraints-native_subcircuit_example =
    generate_constraints-native_subcircuit (some ([])) [] machine 0 opened refl
