-- ===== src/Portal/Tests.antt =====
-- Short runs of the portal managers, over the numbers.
use hekaton_system.Prelude.{
  ℕ, ◌++◌, ◌<◌, ◌≡◌, refl, true, false, Bool, none, some, List, [], ◌∷◌, flatten, ℕ_discrete, arith,
}
use hekaton_system.Prelude.Assoc.{lookup, insert}
use hekaton_system.Uint32.{Unsigned32}
use hekaton_system.Field.Tests.{numbers}
use hekaton_system.Transcript.{RomTranscriptEntryVar, RamTranscriptEntryVar, RomTranscriptEntry}
use hekaton_system.Transcript.Evaluation.{
  rom_var_update_time_ordered, rom_var_update_addr_ordered, ram_var_update_time_ordered,
  ram_var_update_addr_ordered, ram_var_entry_repr,
}
use hekaton_system.Portal.{reads, writes, push_last}
use hekaton_system.Portal.Rom
use hekaton_system.Portal.Rom.{SetupRomPortalManager, RomProverPortalManager, coherence_check}
use hekaton_system.Portal.Rom.Coherence
use hekaton_system.Portal.Rom.Coherence.{prover_run-coherent}
use hekaton_system.Portal.Rom.Trace.{SetupAccess, starts, gets, sets, setup_run}
use hekaton_system.Portal.Rom.Total.{prover_run-some}
use hekaton_system.Portal.Rom.Trace.Run.{setup_run-coherent}
use hekaton_system.Portal.Rom.Trace.Binding.{setup_run-last_set}
use hekaton_system.Portal.Ram
use hekaton_system.Portal.Ram.Setup.{entry_at, setup_set-setup_get}
use hekaton_system.Portal.Ram.{
  SetupRamPortalManager, name_to_addr, RamProverPortalManager, address_step, memory_check,
  time_step, time_check,
}
use hekaton_system.Portal.Ram.Boundary.{prover_run, set_first, map_manager, prover_run-set_first}
use hekaton_system.Portal.Ram.Reads.{MemoryStep, prover_run-MemoryStep}
use hekaton_system.Uint32.{
  increment_inplace, increment_inplace_var, enforce_equal, equal_bits, is_greater_than,
}

abbrev wire : ℕ → ℕ → RomTranscriptEntryVar ℕ
wire addr val = record { val = val; addr = addr }

abbrev rom_manager : RomProverPortalManager ℕ
rom_manager = record {
  time_ordered_subtrace = wire 1 8 ∷ wire 1 8 ∷ [];
  addr_ordered_subtrace = wire 0 0 ∷ wire 1 8 ∷ wire 1 8 ∷ [];
  running_evals = record {
    time_ordered_eval = 1;
    addr_ordered_eval = 1;
    challenges = some (5, 70);
  };
  next_entry_idx = 0;
  satisfied = true;
}

prover_run-coherent_example : (wire 1 8).val ≡ (wire 1 8).val
unfolding Rom.Coherence.prover_run Rom.prover_get Rom.prover_set coherence_check
    rom_var_update_time_ordered rom_var_update_addr_ordered
prover_run-coherent_example =
    prover_run-coherent (reads ∷ writes 8 ∷ []) rom_manager 0 1 2 (wire 0 0) (wire 1 8) (wire 1 8)
      refl refl refl refl (omega arith) (omega arith) (omega arith) refl refl refl

abbrev logged : ℕ → ℕ → RomTranscriptEntry ℕ
logged addr val = record { addr = addr; val = val }

-- Two subcircuits: the first sets the wire 5 and reads it, the second reads it.
abbrev accesses : List (SetupAccess ℕ ℕ)
accesses = starts ∷ sets 5 9 ∷ gets 5 ∷ starts ∷ gets 5 ∷ []

abbrev recorded : SetupRomPortalManager ℕ ℕ
recorded = record {
  subtraces =
      (record { addr = 1; val = 9 } ∷ record { addr = 1; val = 9 } ∷ [])
      ∷ (record { addr = 1; val = 9 } ∷ [])
      ∷ [];
  next_var_addr = 2;
  var_map = (5, record { addr = 1; val = 9 }) ∷ [];
}

setup_run-coherent_example : (logged 1 9 ≡ logged 1 9) × (0 < 1)
unfolding setup_run Rom.start_subtrace Rom.setup_get Rom.setup_set Rom.log lookup insert push_last
    ℕ_discrete flatten
setup_run-coherent_example =
    setup_run-coherent ℕ_discrete accesses recorded 0 2 (logged 1 9) (logged 1 9) (omega arith) refl
      refl refl refl

abbrev before_set : SetupRomPortalManager ℕ ℕ
before_set = record { subtraces = [] ∷ []; next_var_addr = 1; var_map = [] }

abbrev after_set : SetupRomPortalManager ℕ ℕ
after_set = record {
  subtraces = (record { addr = 1; val = 9 } ∷ []) ∷ [];
  next_var_addr = 2;
  var_map = (5, record { addr = 1; val = 9 }) ∷ [];
}

setup_run-last_set_example :
    (read : SetupRomPortalManager ℕ ℕ) × (Rom.setup_get ℕ_discrete 5 recorded ≡ some (9, read))
    × (Rom.setup_set ℕ_discrete 5 4 recorded ≡ none)
unfolding setup_run Rom.start_subtrace Rom.setup_get Rom.setup_set Rom.log lookup insert push_last
    ℕ_discrete
setup_run-last_set_example =
    setup_run-last_set ℕ_discrete 5 9 4 before_set after_set (gets 5 ∷ starts ∷ gets 5 ∷ [])
      recorded refl refl

abbrev cell : ℕ → ℕ → Unsigned32 → Bool → RamTranscriptEntryVar ℕ
cell addr val i read = record { addr = addr; val = val; i = i; read = read }

abbrev time : Bool → Bool → Unsigned32
time low high = record { bits = low ∷ high ∷ [] }

abbrev ram_manager : RamProverPortalManager ℕ
ram_manager = record {
  time_ordered_subtrace = cell 1 8 (time true false) false ∷ cell 1 8 (time false true) true ∷ [];
  addr_ordered_subtrace =
      cell 0 0 (time false false) false
      ∷ cell 1 8 (time true false) false
      ∷ cell 1 8 (time false true) true
      ∷ [];
  running_evals = record {
    time_ordered_eval = 1;
    addr_ordered_eval = 1;
    challenges = some (5, 6, 7, 170);
  };
  next_entry_idx = 0;
  satisfied = true;
}

prover_run-MemoryStep_example :
    MemoryStep (cell 1 8 (time true false) false) (cell 1 8 (time false true) true)
unfolding prover_run Ram.prover_get Ram.prover_set address_step memory_check time_step time_check
    increment_inplace_var enforce_equal equal_bits is_greater_than ram_var_update_time_ordered
    ram_var_update_addr_ordered ram_var_entry_repr
prover_run-MemoryStep_example =
    prover_run-MemoryStep ((true, writes 8) ∷ (true, reads) ∷ []) ram_manager 1
      (cell 1 8 (time true false) false) (cell 1 8 (time false true) true) refl refl (omega arith)
      (omega arith) refl refl refl

prover_run-set_first_example :
    prover_run
      ((true, writes 8) ∷ (true, reads) ∷ [])
      (set_first (cell 5 6 (time true true) true) ram_manager)
    ≡ map_manager
        (set_first (cell 5 6 (time true true) true))
        (prover_run ((true, writes 8) ∷ (true, reads) ∷ []) ram_manager)
prover_run-set_first_example =
    prover_run-set_first ((true, writes 8) ∷ (true, reads) ∷ []) (cell 5 6 (time true true) true)
      ram_manager

abbrev ram_setup : SetupRamPortalManager ℕ ℕ
ram_setup = record {
  subtraces = [] ∷ [];
  address = Ram.new_addresses;
  time_index = time true false;
  var_map = [];
}

setup_set-setup_get_example :
    (pm1 : SetupRamPortalManager ℕ ℕ) × (pm2 : SetupRamPortalManager ℕ ℕ) × (Ram.setup_set
        ℕ_discrete 5 9 ram_setup
      ≡ some pm1)
    × (Ram.setup_get ℕ_discrete 5 pm1 ≡ some (9, pm2))
    × (flatten pm2.subtraces
        ≡ flatten ram_setup.subtraces
          ++ (entry_at (name_to_addr ℕ_discrete 5 Ram.new_addresses).0 9 (time true false) false
              ∷ entry_at
                  (name_to_addr ℕ_discrete 5 Ram.new_addresses).0
                  9
                  (increment_inplace (time true false))
                  true
              ∷ []))
setup_set-setup_get_example = setup_set-setup_get ℕ_discrete 5 9 ram_setup (omega arith)

prover_run-some_example :
    (out : RomProverPortalManager ℕ) × (Rom.Coherence.prover_run (reads ∷ writes 8 ∷ []) rom_manager
      ≡ some out)
prover_run-some_example =
    prover_run-some (reads ∷ writes 8 ∷ []) rom_manager (5, 70) refl (omega arith) (omega arith)
