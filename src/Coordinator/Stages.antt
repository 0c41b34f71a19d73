-- ===== src/Coordinator/Stages.antt =====
-- coordinator.rs: the states of the coordinator and the requests it sends. Of the circuit it uses the
-- operations of `WitnessedCircuit`; the Merkle tree is arkworks', and the commitment to all
-- commitments and the hash of the challenges are parameters. A panic is `none`.
use Prim.Native.String.{String}
use hekaton_system.Prelude.{
  ℕ, zero, suc, Option, some, ◌>>=◌, List, [], ◌∷◌, ◌++◌, map, length, get_elem?,
}
use hekaton_system.Field.{PrimeField}
use hekaton_system.Transcript.{MemType, TranscriptEntry, challenges, copy_challenges_from}
use hekaton_system.Transcript.Evaluation.{padding}
use hekaton_system.Transcript.Evaluation
use hekaton_system.EvalTree.{ExecTreeLeaf, leaf_padding, leaf_to_field_elements}
use hekaton_system.Coordinator.{sort_subtraces_by_addr, exec_tree_leaves}
use hekaton_system.Coordinator.Responses.{Stage0Response, collect_commitments}

-- `CircuitWithPortals`, as far as the coordinator and the workers use it to pass on witnesses.
pub record WitnessedCircuit {ℓ κ μ ν} (F : Type ℓ) (P : Type κ) (Params : Type μ) (Bytes : Type ν)
    : Type (ℓ ⊔ κ ⊔ μ ⊔ ν) where
  pub mem_type : MemType
  pub get_params : P → Params
  pub subcircuit_count : P → ℕ
  pub get_serialized_witnesses : P → ℕ → Option Bytes
  pub get_subtraces : P → Option (List (List (TranscriptEntry F)))
  pub new_circuit : Params → P
  pub set_serialized_witnesses : P → ℕ → Bytes → Option P

-- arkworks' `MerkleTree`, and the field elements of its root.
pub record MerkleTree {ℓ κ μ ν} (F : Type ℓ) (Tree : Type κ) (MerklePath : Type μ) (Root : Type ν)
    : Type (ℓ ⊔ κ ⊔ μ ⊔ ν) where
  pub new_tree : List (List F) → Option Tree
  pub generate_proof : Tree → ℕ → Option MerklePath
  pub tree_root : Tree → Root
  pub root_field_elements : Root → Option (List F)

-- `(i..i + n).map(|idx| …).collect()`.
unfoldable pub collect_range {ℓ} : {A : Type ℓ} → (ℕ → Option A) → ℕ → ℕ → Option (List A)
collect_range get i zero = some []
collect_range get i (suc n) = do a ← get i; rest ← collect_range get (suc i) n; some (a ∷ rest)

pub record Stage0Request {ℓ} (F : Type ℓ) : Type ℓ where
  pub subcircuit_idx : ℕ
  pub time_ordered_subtrace : List (TranscriptEntry F)
  pub addr_ordered_subtrace : List (TranscriptEntry F)

pub record Stage1Request {ℓ κ μ ν ρ} (F : Type ℓ) (Params : Type κ) (Bytes : Type μ)
    (MerklePath : Type ν) (Root : Type ρ) : Type (ℓ ⊔ κ ⊔ μ ⊔ ν ⊔ ρ) where
  pub subcircuit_idx : ℕ
  pub cur_leaf : ExecTreeLeaf F
  pub next_leaf_membership : MerklePath
  pub root : Root
  pub serialized_witnesses : Bytes
  pub circ_params : Params

pub record CoordinatorStage0State {ℓ κ μ} (F : Type ℓ) (Params : Type κ) (Bytes : Type μ)
    : Type (ℓ ⊔ κ ⊔ μ) where
  pub time_ordered_subtraces : List (List (TranscriptEntry F))
  pub addr_ordered_subtraces : List (List (TranscriptEntry F))
  pub all_serialized_witnesses : List Bytes
  pub circ_params : Params

pub record CoordinatorStage1State {ℓ κ μ ν ρ γ σ δ} (F : Type ℓ) (Params : Type κ) (Bytes : Type μ)
    (MerklePath : Type ν) (Root : Type ρ) (Com : Type γ) (Seed : Type σ) (SuperCom : Type δ)
    : Type (ℓ ⊔ κ ⊔ μ ⊔ ν ⊔ ρ ⊔ γ ⊔ σ ⊔ δ) where
  pub time_ordered_subtraces : List (List (TranscriptEntry F))
  pub addr_ordered_subtraces : List (List (TranscriptEntry F))
  pub all_serialized_witnesses : List Bytes
  pub circ_params : Params
  pub coms : List Com
  pub seeds : List Seed
  pub super_com : SuperCom
  pub exec_leaves : List (ExecTreeLeaf F)
  pub exec_tree_root : Root
  pub exec_tree_leaf_auth_paths : List MerklePath

pub record FinalAggState {ℓ κ} (F : Type ℓ) (SuperCom : Type κ) : Type (ℓ ⊔ κ) where
  pub public_inputs : List F
  pub super_com : SuperCom

module _ {ℓ κ μ ν} {F : Type ℓ} {P : Type κ} {Params : Type μ} {Bytes : Type ν}
    (c : WitnessedCircuit F P Params Bytes) where
  -- `CoordinatorStage0State::new`.
  unfoldable pub stage0_new : P → Option (CoordinatorStage0State F Params Bytes)
  unfolding collect_range
  stage0_new circ = do
    witnesses ← collect_range (c.get_serialized_witnesses circ) 0 (c.subcircuit_count circ)
    subtraces ← c.get_subtraces circ
    sorted ← sort_subtraces_by_addr subtraces
    some (record {
      time_ordered_subtraces = subtraces;
      addr_ordered_subtraces = sorted;
      all_serialized_witnesses = witnesses;
      circ_params = c.get_params circ;
    })

module _ {ℓ κ μ} {F : Type ℓ} {Params : Type κ} {Bytes : Type μ} where
  -- `CoordinatorStage0State::gen_request`.
  unfoldable pub stage0_gen_request :
      CoordinatorStage0State F Params Bytes → ℕ → Option (Stage0Request F)
  stage0_gen_request s idx = do
    time_st ← get_elem? s.time_ordered_subtraces idx
    addr_st ← get_elem? s.addr_ordered_subtraces idx
    some (record {
      subcircuit_idx = idx;
      time_ordered_subtrace = time_st;
      addr_ordered_subtrace = addr_st;
    })

module _ {ℓ τ μ ν δ} {F : Type ℓ} {Tree : Type τ} {MerklePath : Type μ} {Root : Type ν}
    {SuperCom : Type δ} ⦃f : PrimeField F⦄ (mt : MerkleTree F Tree MerklePath Root)
    (hash : String → SuperCom → F) (mem_type : MemType) where
  -- `generate_exec_tree`.
  unfoldable pub generate_exec_tree :
      SuperCom
      → List (List (TranscriptEntry F))
      → List (List (TranscriptEntry F))
      → Option (Tree × List (ExecTreeLeaf F))
  generate_exec_tree super_com time_sts addr_sts = do
    leaves ←
        exec_tree_leaves (Evaluation.new hash mem_type super_com) (padding mem_type) time_sts
          addr_sts
    tree ← mt.new_tree (map leaf_to_field_elements leaves)
    some (tree, leaves)

  module _ {κ β γ σ} {Params : Type κ} {Bytes : Type β} {Com : Type γ} {Seed : Type σ} where
    -- `CoordinatorStage1State::new`, from the state of stage 0 and what was collected.
    unfoldable pub stage1_new :
        CoordinatorStage0State F Params Bytes
        → List Com
        → List Seed
        → SuperCom
        → Option (CoordinatorStage1State F Params Bytes MerklePath Root Com Seed SuperCom)
    unfolding generate_exec_tree collect_range
    stage1_new s coms seeds super_com = do
      (exec_tree, leaves) ←
          generate_exec_tree super_com s.time_ordered_subtraces s.addr_ordered_subtraces
      paths ← collect_range (mt.generate_proof exec_tree) 0 (length s.time_ordered_subtraces)
      some (record {
        time_ordered_subtraces = s.time_ordered_subtraces;
        addr_ordered_subtraces = s.addr_ordered_subtraces;
        all_serialized_witnesses = s.all_serialized_witnesses;
        circ_params = s.circ_params;
        coms = coms;
        seeds = seeds;
        super_com = super_com;
        exec_leaves = leaves;
        exec_tree_root = mt.tree_root exec_tree;
        exec_tree_leaf_auth_paths = paths;
      })

    -- `process_stage0_responses`.
    unfoldable pub process_stage0_responses :
        (List Com → Option SuperCom)
        → CoordinatorStage0State F Params Bytes
        → List (Stage0Response Com Seed)
        → Option (CoordinatorStage1State F Params Bytes MerklePath Root Com Seed SuperCom)
    unfolding stage1_new
    process_stage0_responses commit_only_left s responses =
        let (coms, com_seeds) = collect_commitments responses in
        do super_com ← commit_only_left coms; stage1_new s coms com_seeds super_com

module _ {ℓ} {F : Type ℓ} ⦃f : PrimeField F⦄ (mem_type : MemType) where
  -- The leaf before a subcircuit: the one of the subcircuit before it, and a padding leaf with
  -- the challenges of the others before the first.
  unfoldable pub current_leaf : List (ExecTreeLeaf F) → ℕ → Option (ExecTreeLeaf F)
  current_leaf leaves (suc idx) = get_elem? leaves idx
  current_leaf leaves zero = do
    first ← get_elem? leaves 0
    evals ← copy_challenges_from (leaf_padding {F = F} mem_type).evals first.evals
    some (record (leaf_padding mem_type) { evals = evals })

module _ {ℓ κ β μ ν γ σ δ} {F : Type ℓ} {Params : Type κ} {Bytes : Type β} {MerklePath : Type μ}
    {Root : Type ν} {Com : Type γ} {Seed : Type σ} {SuperCom : Type δ} where
  -- `CoordinatorStage1State::gen_request`.
  unfoldable pub stage1_gen_request :
      ⦃f : PrimeField F⦄
      → MemType
      → CoordinatorStage1State F Params Bytes MerklePath Root Com Seed SuperCom
      → ℕ
      → Option (Stage1Request F Params Bytes MerklePath Root)
  unfolding current_leaf
  stage1_gen_request mem_type s idx = do
    cur_leaf ← current_leaf mem_type s.exec_leaves idx
    path ← get_elem? s.exec_tree_leaf_auth_paths idx
    witnesses ← get_elem? s.all_serialized_witnesses idx
    some (record {
      subcircuit_idx = idx;
      cur_leaf = cur_leaf;
      next_leaf_membership = path;
      root = s.exec_tree_root;
      serialized_witnesses = witnesses;
      circ_params = s.circ_params;
    })

  -- `into_agg_state`.
  unfoldable pub into_agg_state {τ} :
      {Tree : Type τ}
      → MerkleTree F Tree MerklePath Root
      → CoordinatorStage1State F Params Bytes MerklePath Root Com Seed SuperCom
      → Option (FinalAggState F SuperCom)
  into_agg_state mt s = do
    first ← get_elem? s.exec_leaves 0
    chals ← challenges first.evals
    root ← mt.root_field_elements s.exec_tree_root
    some (record { public_inputs = chals ++ root; super_com = s.super_com })
