-- ===== src/EvalTree/Serial.antt =====
-- What the execution tree hashes of a leaf, in the circuit and natively.
use hekaton_system.Prelude.{◌≡◌, refl, ap₂, ◌∷◌}
use hekaton_system.Field.{PrimeField}
use hekaton_system.Transcript.{RunningEvaluation, time_ordered_eval, addr_ordered_eval}
use hekaton_system.Transcript.Evaluation.{new_evaluation_var}
use hekaton_system.Transcript.Agreement.{to_constraint_field-new_entry_var}
use hekaton_system.EvalTree.{
  ExecTreeLeaf, leaf_to_field_elements, leaf_to_constraint_field, new_leaf_var,
}

module _ {ℓ} {F : Type ℓ} ⦃f : PrimeField F⦄ where
  -- Witnessing the evaluations drops their challenges and keeps both products.
  new_evaluation_var-evals :
      (ev : RunningEvaluation F)
      → (time_ordered_eval (new_evaluation_var ev) ≡ time_ordered_eval ev)
        × (addr_ordered_eval (new_evaluation_var ev) ≡ addr_ordered_eval ev)
  unfolding new_evaluation_var time_ordered_eval addr_ordered_eval
  new_evaluation_var-evals (RunningEvaluation.rom ev) = (refl, refl)
  new_evaluation_var-evals (RunningEvaluation.ram ev) = (refl, refl)

  -- A witnessed leaf serialises in the circuit as the native leaf does in the tree.
  pub leaf_to_constraint_field-new_leaf_var :
      (l : ExecTreeLeaf F) → leaf_to_constraint_field (new_leaf_var l) ≡ leaf_to_field_elements l
  unfolding leaf_to_constraint_field new_leaf_var leaf_to_field_elements
  leaf_to_constraint_field-new_leaf_var l =
      let (p, q) = new_evaluation_var-evals l.evals in
      ap₂ ◌∷◌ p (ap₂ ◌∷◌ q (to_constraint_field-new_entry_var l.last_subtrace_entry))
