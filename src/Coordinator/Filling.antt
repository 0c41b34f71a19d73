-- ===== src/Coordinator/Filling.antt =====
-- The prover that a worker fills, and the leaf before the first subcircuit.
use Prim.Native.String.{String}
use mathlib.Core.Option.{some-injective}
use hekaton_system.Prelude.{
  ℕ, zero, suc, ◌==◌, ◌≡◌, refl, ap, subst, true, some, List, [], ◌∷◌, map, arith, get_elem?,
}
use hekaton_system.Field.{PrimeField}
use hekaton_system.Transcript.{
  RomTranscriptEntry, MemType, TranscriptEntry, RomRunningEvaluation, RunningEvaluation, challenges,
  time_ordered_eval, addr_ordered_eval,
}
use hekaton_system.Transcript.Evaluation.{
  rom_padding, new_entry_var, new_rom_entry_var, new_evaluation_var, is_padding,
}
use hekaton_system.EvalTree.{ExecTreeLeaf, new_leaf_var}
use hekaton_system.TreeHash.Node.{log2}
use hekaton_system.Subcircuit.{SubcircuitWithPortalsProver, new_subcircuit, stage_zero}
use hekaton_system.Subcircuit.Stages.{StartsTrace}
use hekaton_system.Coordinator.Stages.{
  WitnessedCircuit, Stage0Request, Stage1Request, CoordinatorStage0State, CoordinatorStage1State,
  stage0_gen_request, stage1_gen_request, current_leaf,
}
use hekaton_system.Coordinator.Worker.{
  committed_circuit, process_stage1_request_with_cb, process_stage1_request,
}
use hekaton_system.Coordinator.Honest.{roms}
use hekaton_system.Coordinator.Chain.{leaf_of}

module _ {ℓ κ μ β ν ρ} {F : Type ℓ} {P : Type κ} {Params : Type μ} {Bytes : Type β}
    {MerklePath : Type ν} {Root : Type ρ} ⦃f : PrimeField F⦄ (c : WitnessedCircuit F P Params Bytes)
    (default_path : ℕ → MerklePath) (default_root : Root) where
  -- The prover that a worker fills.
  abbrev pub worker_prover :
      Stage0Request F
      → Stage1Request F Params Bytes MerklePath Root
      → P
      → List F
      → SubcircuitWithPortalsProver F P MerklePath Root
  worker_prover req0 req1 circuit chals = record {
    subcircuit_idx = req0.subcircuit_idx;
    circ = some circuit;
    time_ordered_subtrace = req0.time_ordered_subtrace;
    addr_ordered_subtrace = req0.addr_ordered_subtrace;
    time_ordered_subtrace_var = map new_entry_var req0.time_ordered_subtrace;
    addr_ordered_subtrace_var = map new_entry_var req0.addr_ordered_subtrace;
    cur_leaf = req1.cur_leaf;
    next_leaf_membership = req1.next_leaf_membership;
    challenges = chals;
    root = req1.root;
  }

  pub process_stage1_request-worker_prover :
      (req0 : Stage0Request F) (req1 : Stage1Request F Params Bytes MerklePath Root) (circuit : P)
      (chals : List F)
      → req0.subcircuit_idx ≡ req1.subcircuit_idx
      → challenges req1.cur_leaf.evals ≡ some chals
      → c.set_serialized_witnesses
          (c.new_circuit req1.circ_params)
          req1.subcircuit_idx
          req1.serialized_witnesses
        ≡ some circuit
      → process_stage1_request c default_path default_root req0 req1
        ≡ some (worker_prover req0 req1 circuit chals)
  unfolding process_stage1_request committed_circuit process_stage1_request_with_cb new_subcircuit
      stage_zero log2
  process_stage1_request-worker_prover req0 req1 circuit chals e ec ew =
      let same : (req0.subcircuit_idx == req1.subcircuit_idx) ≡ true = ground arith in
      rw (ec, same, ew) refl

module _ {ℓ δ} {F : Type ℓ} {SuperCom : Type δ} ⦃f : PrimeField F⦄
    (hash : String → SuperCom → F) where
  -- `RunningEvaluation::new` of ROM memory.
  abbrev pub fresh : SuperCom → RomRunningEvaluation F
  fresh super_com = record {
    time_ordered_eval = f.one_elem;
    addr_ordered_eval = f.one_elem;
    challenges = some (hash "entry_chal" super_com, hash "tr_chal" super_com);
  }

  pub starts_at :
      (super_com : SuperCom) (leaves : List (ExecTreeLeaf F)) (i : ℕ) (l : ExecTreeLeaf F)
      → get_elem?
          (leaf_of (RunningEvaluation.rom (fresh super_com)) (TranscriptEntry.rom rom_padding)
            ∷ leaves)
          i
        ≡ some l
      → StartsTrace i (new_leaf_var l)
  unfolding time_ordered_eval addr_ordered_eval is_padding new_leaf_var new_entry_var
      new_evaluation_var new_rom_entry_var
  starts_at super_com leaves zero l p =
      subst (λ k. StartsTrace 0 (new_leaf_var k)) (some-injective _ _ p)
        (λ z. (refl, refl, ap some ((f.is_eq_iff _ _).1 f.from_uint-zero)))
  starts_at super_com leaves (suc i) l p = λ z. absurd (omega arith)

  pub challenges_at :
      (super_com : SuperCom) (ev : RomRunningEvaluation F)
      → ev.challenges ≡ (fresh super_com).challenges
      → challenges (RunningEvaluation.rom ev)
        ≡ some (hash "entry_chal" super_com ∷ hash "tr_chal" super_com ∷ [])
  unfolding challenges
  challenges_at super_com ev h = rw (h, challenges) refl

module _ {ℓ κ β} {F : Type ℓ} {Params : Type κ} {Bytes : Type β} where
  pub stage0_gen_request-some :
      (s : CoordinatorStage0State F Params Bytes) (idx : ℕ) (ts xs : List (TranscriptEntry F))
      → get_elem? s.time_ordered_subtraces idx ≡ some ts
      → get_elem? s.addr_ordered_subtraces idx ≡ some xs
      → stage0_gen_request s idx
        ≡ some (record {
          subcircuit_idx = idx;
          time_ordered_subtrace = ts;
          addr_ordered_subtrace = xs;
        })
  unfolding stage0_gen_request
  stage0_gen_request-some s idx ts xs t x = rw (t, x) refl

module _ {ℓ κ β μ ν γ σ δ} {F : Type ℓ} {Params : Type κ} {Bytes : Type β} {MerklePath : Type μ}
    {Root : Type ν} {Com : Type γ} {Seed : Type σ} {SuperCom : Type δ} ⦃f : PrimeField F⦄ where
  pub stage1_gen_request-some :
      (mem_type : MemType)
      (s : CoordinatorStage1State F Params Bytes MerklePath Root Com Seed SuperCom) (idx : ℕ)
      (leaf : ExecTreeLeaf F) (path : MerklePath) (witness : Bytes)
      → current_leaf mem_type s.exec_leaves idx ≡ some leaf
      → get_elem? s.exec_tree_leaf_auth_paths idx ≡ some path
      → get_elem? s.all_serialized_witnesses idx ≡ some witness
      → stage1_gen_request mem_type s idx
        ≡ some (record {
          subcircuit_idx = idx;
          cur_leaf = leaf;
          next_leaf_membership = path;
          root = s.exec_tree_root;
          serialized_witnesses = witness;
          circ_params = s.circ_params;
        })
  unfolding stage1_gen_request
  stage1_gen_request-some mem_type s idx leaf path witness l p w = rw (l, p, w) refl

module _ {ℓ} {F : Type ℓ} ⦃f : PrimeField F⦄ where
  -- The requests for a ROM subtrace.
  abbrev pub request0 :
      ℕ → List (RomTranscriptEntry F) → List (RomTranscriptEntry F) → Stage0Request F
  request0 idx ts xs = record {
    subcircuit_idx = idx;
    time_ordered_subtrace = roms ts;
    addr_ordered_subtrace = roms xs;
  }

module _ {ℓ κ β μ ν γ σ δ} {F : Type ℓ} {Params : Type κ} {Bytes : Type β} {MerklePath : Type μ}
    {Root : Type ν} {Com : Type γ} {Seed : Type σ} {SuperCom : Type δ} ⦃f : PrimeField F⦄ where
  abbrev pub request1 :
      CoordinatorStage1State F Params Bytes MerklePath Root Com Seed SuperCom
      → ℕ
      → RomRunningEvaluation F
      → RomTranscriptEntry F
      → MerklePath
      → Bytes
      → Stage1Request F Params Bytes MerklePath Root
  request1 s1 idx ev prev path witness = record {
    subcircuit_idx = idx;
    cur_leaf = leaf_of (RunningEvaluation.rom ev) (TranscriptEntry.rom prev);
    next_leaf_membership = path;
    root = s1.exec_tree_root;
    serialized_witnesses = witness;
    circ_params = s1.circ_params;
  }
