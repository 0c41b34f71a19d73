-- ===== src/Subcircuit/Tests.antt =====
-- A ROM circuit of one subcircuit that reads a name twice, over the numbers.
use hekaton_system.Prelude.{
  ℕ, ◌≡◌, refl, true, false, Bool, some, List, [], ◌∷◌, ◌==◌, arith, ◌>>=◌, Option-cases, inl, inr,
}
use hekaton_system.Field.Tests.{numbers}
use hekaton_system.Portal.{reads}
use hekaton_system.Portal.Rom.{RomProverPortalManager}
use hekaton_system.Portal.Rom.Coherence.{prover_run}
use hekaton_system.Transcript.{
  MemType, TranscriptEntry, RomTranscriptEntry, RomTranscriptEntryVar, RunningEvaluation,
}
use hekaton_system.EvalTree
use hekaton_system.EvalTree.{leaf_padding, new_leaf_var}
use hekaton_system.Transcript
use hekaton_system.Transcript.Evaluation
use hekaton_system.Portal.Rom
use hekaton_system.Subcircuit
use hekaton_system.Subcircuit.{
  CircuitWithPortals, SubcircuitWithPortalsProver, rom_prover, stage_zero, stage_one,
}
use hekaton_system.Subcircuit.Coherent.{stage_one-coherent, MakesAccesses}

abbrev two_reads : CircuitWithPortals ℕ (RomProverPortalManager ℕ)
two_reads = record {
  num_subcircuits = λ circ. 1;
  generate_constraints = λ circ idx pm. do
    pm' ← prover_run (reads ∷ reads ∷ []) pm
    some (circ, pm', true);
}

-- The leaf begins with the root.
abbrev membership : ℕ → ℕ → List ℕ → Bool
membership root path leaf = elim leaf [ [] ↦ false | x ∷ xs ↦ x == root ]

two_reads-MakesAccesses : MakesAccesses {F = ℕ} two_reads membership 0 2
two_reads-MakesAccesses circ circ' pm pm' h = (
  reads ∷ reads ∷ [],
  refl,
  elim (Option-cases (prover_run (reads ∷ reads ∷ []) pm)) [
    | inl e ↦ absurd (ground arith)
    | inr (pm₁, e) ↦ ground arith
  ],
)

abbrev read_entry : RomTranscriptEntry ℕ
read_entry = record { val = 5; addr = 1 }

abbrev witnessed : SubcircuitWithPortalsProver ℕ ℕ ℕ ℕ
witnessed = stage_zero (record {
  subcircuit_idx = 0;
  circ = some 7;
  time_ordered_subtrace = TranscriptEntry.rom read_entry ∷ TranscriptEntry.rom read_entry ∷ [];
  addr_ordered_subtrace = TranscriptEntry.rom read_entry ∷ TranscriptEntry.rom read_entry ∷ [];
  time_ordered_subtrace_var = [];
  addr_ordered_subtrace_var = [];
  cur_leaf = leaf_padding MemType.rom;
  next_leaf_membership = 0;
  challenges = 1 ∷ 100 ∷ [];
  root = 8836;
})

witnessed-stage_one : stage_one rom_prover two_reads membership witnessed ≡ some (witnessed, true)
unfolding stage_one Subcircuit.first_leaf_check stage_zero Evaluation.is_padding new_leaf_var
    Evaluation.new_entry_var leaf_padding Evaluation.padding Transcript.set_challenges
    Evaluation.new_evaluation_var Evaluation.default Rom.new_prover prover_run Rom.prover_get
    Evaluation.rom_var_update_time_ordered Evaluation.rom_var_update_addr_ordered
    Subcircuit.last_leaf_check Transcript.time_ordered_eval EvalTree.leaf_to_constraint_field
    Rom.coherence_check Rom.convert_entries Subcircuit.last_entry Evaluation.new_rom_entry_var
    Evaluation.to_constraint_field Transcript.addr_ordered_eval
witnessed-stage_one = refl

abbrev read_var : RomTranscriptEntryVar ℕ
read_var = record { val = 5; addr = 1 }

abbrev padding_var : RomTranscriptEntryVar ℕ
padding_var = record { val = 0; addr = 0 }

stage_one-coherent_example : read_var.val ≡ read_var.val
unfolding Rom.convert_entries stage_zero new_leaf_var Evaluation.new_entry_var leaf_padding
    Evaluation.padding Evaluation.new_rom_entry_var
stage_one-coherent_example =
    stage_one-coherent two_reads membership witnessed witnessed 2 0 1 2
      (padding_var ∷ read_var ∷ read_var ∷ []) padding_var read_var read_var two_reads-MakesAccesses
      witnessed-stage_one refl refl refl (omega arith) (omega arith) (omega arith) refl refl refl
