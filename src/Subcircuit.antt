-- ===== src/Subcircuit.antt =====
-- distributed-prover/src/subcircuit_circuit.rs: SubcircuitWithPortalsProver, the circuit that proves
-- one subcircuit. The circuit with portals and its manager are interfaces, records of operations; the
-- Merkle tree of the leaves is arkworks': the membership test, a default path and a default root are
-- parameters. The constraints are the Boolean that a stage returns, and a panic is `none`.
pub mod Stages
pub mod Coherent
mod Tests
use hekaton_system.Prelude.{
  ℕ, zero, suc, ◌+◌, ◌-◌, Bool, true, ◌&&◌, Option, none, some, ◌>>=◌, List, [], ◌∷◌, map,
  replicate, if◌then◌else◌, ltb, ◌==◌,
}
use hekaton_system.Field.{PrimeField}
use hekaton_system.Transcript.{
  MemType, rom, ram, TranscriptEntry, TranscriptEntryVar, RunningEvaluation, time_ordered_eval,
  addr_ordered_eval, set_challenges,
}
use hekaton_system.Transcript.Evaluation.{new_entry_var, is_padding}
use hekaton_system.EvalTree.{
  ExecTreeLeaf, ExecTreeLeafVar, leaf_padding, new_leaf_var, leaf_to_constraint_field,
}
use hekaton_system.Portal.Rom
use hekaton_system.Portal.Rom.{RomProverPortalManager}
use hekaton_system.Portal.Ram
use hekaton_system.Portal.Ram.{RamProverPortalManager}
use hekaton_system.TreeHash.Node.{log2}

-- `ProverPortalManager`: how it is made, its evaluations, and whether all it enforced holds.
pub record ProverManager {ℓ κ} (F : Type ℓ) (S : Type κ) : Type (ℓ ⊔ κ) where
  pub new_manager :
      List (TranscriptEntryVar F) → List (TranscriptEntryVar F) → RunningEvaluation F → Option S
  pub running_evals : S → RunningEvaluation F
  pub enforced : S → Bool

abbrev pub rom_prover {ℓ} : {F : Type ℓ} → ProverManager F (RomProverPortalManager F)
rom_prover = record {
  new_manager = Rom.new_prover;
  running_evals = λ pm. RunningEvaluation.rom pm.running_evals;
  enforced = λ pm. pm.satisfied;
}

abbrev pub ram_prover {ℓ} : {F : Type ℓ} → ProverManager F (RamProverPortalManager F)
ram_prover = record {
  new_manager = Ram.new_prover;
  running_evals = λ pm. RunningEvaluation.ram pm.running_evals;
  enforced = λ pm. pm.satisfied;
}

-- `CircuitWithPortals`, as far as the prover uses it: `generate_constraints` may change the circuit,
-- changes the manager, and says whether its own constraints hold.
pub record CircuitWithPortals {ℓ κ} (P : Type ℓ) (S : Type κ) : Type (ℓ ⊔ κ) where
  pub num_subcircuits : P → ℕ
  pub generate_constraints : P → ℕ → S → Option (P × S × Bool)

pub record SubcircuitWithPortalsProver {ℓ κ μ ν} (F : Type ℓ) (P : Type κ) (MerklePath : Type μ)
    (Root : Type ν) : Type (ℓ ⊔ κ ⊔ μ ⊔ ν) where
  pub subcircuit_idx : ℕ
  pub circ : Option P
  pub time_ordered_subtrace : List (TranscriptEntry F)
  pub addr_ordered_subtrace : List (TranscriptEntry F)
  pub time_ordered_subtrace_var : List (TranscriptEntryVar F)
  pub addr_ordered_subtrace_var : List (TranscriptEntryVar F)
  pub cur_leaf : ExecTreeLeaf F
  pub next_leaf_membership : MerklePath
  pub challenges : List F
  pub root : Root

abbrev pub challenges_len : MemType → ℕ
challenges_len rom = 2
challenges_len ram = 4

-- `full_addr_ordered_subtrace.last()`.
unfoldable pub last_entry {ℓ} :
    {F : Type ℓ} → TranscriptEntryVar F → List (TranscriptEntryVar F) → TranscriptEntryVar F
last_entry e [] = e
last_entry e (x ∷ xs) = last_entry x xs

module _ {ℓ} {F : Type ℓ} ⦃f : PrimeField F⦄ where
  -- At subcircuit 0 the evaluations are 1 and the entry before the trace is padding.
  unfoldable pub first_leaf_check : ℕ → ExecTreeLeafVar F → Option Bool
  first_leaf_check idx leaf =
      if idx == 0
      then (do
        padded ← is_padding leaf.last_subtrace_entry
        some (
            f.is_eq (time_ordered_eval leaf.evals) f.one_elem
            && (f.is_eq (addr_ordered_eval leaf.evals) f.one_elem && padded)))
      else some true

  -- At the last subcircuit the two evaluations are equal.
  unfoldable pub last_leaf_check : ℕ → ℕ → ExecTreeLeafVar F → Option Bool
  last_leaf_check idx num_subcircuits leaf =
      if num_subcircuits == 0
      then none
      else if idx == num_subcircuits - 1
      then some (f.is_eq (time_ordered_eval leaf.evals) (addr_ordered_eval leaf.evals))
      else some true

module _ {ℓ κ μ ν} {F : Type ℓ} {P : Type κ} {MerklePath : Type μ} {Root : Type ν}
    ⦃f : PrimeField F⦄ where
  -- `new`: the difference below one level panics.
  unfoldable pub new_subcircuit :
      MemType
      → (ℕ → MerklePath)
      → Root
      → ℕ
      → Option (SubcircuitWithPortalsProver F P MerklePath Root)
  new_subcircuit mem_type default_path default_root num_subcircuits = do
    levels ← log2 num_subcircuits
    (if levels == 0
        then none
        else some (record {
          subcircuit_idx = 0;
          circ = none;
          time_ordered_subtrace = [];
          addr_ordered_subtrace = [];
          time_ordered_subtrace_var = [];
          addr_ordered_subtrace_var = [];
          cur_leaf = leaf_padding mem_type;
          next_leaf_membership = default_path (levels - 1);
          challenges = replicate (challenges_len mem_type) f.zero_elem;
          root = default_root;
        }))

  -- Stage 0 witnesses both subtraces.
  unfoldable pub stage_zero :
      SubcircuitWithPortalsProver F P MerklePath Root
      → SubcircuitWithPortalsProver F P MerklePath Root
  stage_zero p = record p {
    time_ordered_subtrace_var = map new_entry_var p.time_ordered_subtrace;
    addr_ordered_subtrace_var = map new_entry_var p.addr_ordered_subtrace;
  }

module _ {ℓ κ μ ν σ} {F : Type ℓ} {P : Type κ} {MerklePath : Type μ} {Root : Type ν} {S : Type σ}
    ⦃f : PrimeField F⦄ (m : ProverManager F S) (c : CircuitWithPortals P S)
    (verify_membership : Root → MerklePath → List F → Bool) where
  -- The leaf after this subcircuit: the manager's evaluations and the last entry.
  abbrev pub next_leaf : SubcircuitWithPortalsProver F P MerklePath Root → S → ExecTreeLeafVar F
  next_leaf p pm = record {
    evals = m.running_evals pm;
    last_subtrace_entry =
        last_entry (new_leaf_var p.cur_leaf).last_subtrace_entry p.addr_ordered_subtrace_var;
  }

  unfoldable pub stage_one :
      SubcircuitWithPortalsProver F P MerklePath Root
      → Option (SubcircuitWithPortalsProver F P MerklePath Root × Bool)
  stage_one p = do
    first ← first_leaf_check p.subcircuit_idx (new_leaf_var p.cur_leaf)
    evals ← set_challenges (new_leaf_var p.cur_leaf).evals p.challenges
    pm ←
        m.new_manager p.time_ordered_subtrace_var
          ((new_leaf_var p.cur_leaf).last_subtrace_entry ∷ p.addr_ordered_subtrace_var) evals
    circ ← p.circ
    (circ', pm', holds) ← c.generate_constraints circ p.subcircuit_idx pm
    last ← last_leaf_check p.subcircuit_idx (c.num_subcircuits circ') (next_leaf p pm')
    some (
      record p { circ = some circ' },
      first
          && (holds
              && (m.enforced pm'
                  && (verify_membership p.root p.next_leaf_membership
                        (leaf_to_constraint_field (next_leaf p pm'))
                      && last))),
    )

  -- `generate_constraints`, which panics after stage 1.
  unfoldable pub generate_stage :
      ℕ
      → SubcircuitWithPortalsProver F P MerklePath Root
      → Option (SubcircuitWithPortalsProver F P MerklePath Root × Bool)
  generate_stage zero p = some (stage_zero p, true)
  generate_stage (suc zero) p = stage_one p
  generate_stage (suc (suc stage)) p = none
