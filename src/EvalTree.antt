-- ===== src/EvalTree.antt =====
-- distributed-prover/src/eval_tree.rs: the leaves of the execution tree.
pub mod Serial
use hekaton_system.Prelude.{List, ◌∷◌}
use hekaton_system.Field.{PrimeField}
use hekaton_system.Transcript.{
  MemType, TranscriptEntry, TranscriptEntryVar, RunningEvaluation, time_ordered_eval,
  addr_ordered_eval,
}
use hekaton_system.Transcript.Evaluation.{
  default, padding, to_field_elements, to_constraint_field, new_entry_var, new_evaluation_var,
}

pub record ExecTreeLeaf {ℓ} (F : Type ℓ) : Type ℓ where
  pub evals : RunningEvaluation F
  pub last_subtrace_entry : TranscriptEntry F

-- The circuit's leaf.
pub record ExecTreeLeafVar {ℓ} (F : Type ℓ) : Type ℓ where
  pub evals : RunningEvaluation F
  pub last_subtrace_entry : TranscriptEntryVar F

module _ {ℓ} {F : Type ℓ} ⦃f : PrimeField F⦄ where
  -- The leaf given to the first subcircuit.
  unfoldable pub leaf_padding : MemType → ExecTreeLeaf F
  leaf_padding mem_type = record {
    evals = default mem_type;
    last_subtrace_entry = padding mem_type;
  }

  -- `ExecTreeLeaf::to_field_elements`: what the Merkle tree hashes.
  unfoldable pub leaf_to_field_elements : ExecTreeLeaf F → List F
  leaf_to_field_elements l =
      time_ordered_eval l.evals
      ∷ addr_ordered_eval l.evals
      ∷ to_field_elements l.last_subtrace_entry

  unfoldable pub leaf_to_constraint_field : ExecTreeLeafVar F → List F
  leaf_to_constraint_field l =
      time_ordered_eval l.evals
      ∷ addr_ordered_eval l.evals
      ∷ to_constraint_field l.last_subtrace_entry

  -- `ExecTreeLeafVar::new_variable`.
  unfoldable pub new_leaf_var : ExecTreeLeaf F → ExecTreeLeafVar F
  new_leaf_var l = record {
    evals = new_evaluation_var l.evals;
    last_subtrace_entry = new_entry_var l.last_subtrace_entry;
  }
