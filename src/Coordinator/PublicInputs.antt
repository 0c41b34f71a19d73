-- ===== src/Coordinator/PublicInputs.antt =====
-- The public inputs of the aggregate against the inputs of the workers' proofs.
use Prim.Native.String.{String}
use mathlib.Core.Option.{some-injective}
use hekaton_system.Prelude.{
  ℕ, ◌≡◌, refl, sym, ap, ◌∙◌, ◌==◌, if◌then◌else◌, Bool, true, false, Option, none, some, bind-inv,
  List, ◌++◌, arith, get_elem?,
}
use hekaton_system.Field.{PrimeField}
use hekaton_system.Transcript.{MemType, challenges}
use hekaton_system.Subcircuit.{SubcircuitWithPortalsProver}
use hekaton_system.Coordinator.Chain.{SameChallenges-challenges, exec_tree_leaves-SameChallenges}
use hekaton_system.Coordinator.Responses.{Stage0Response}
use hekaton_system.Coordinator.Stages.{
  WitnessedCircuit, MerkleTree, Stage1Request, CoordinatorStage0State, CoordinatorStage1State,
  FinalAggState, process_stage0_responses, current_leaf, stage1_gen_request, into_agg_state,
}
use hekaton_system.Coordinator.Requests.{
  process_stage0_responses-Built, current_leaf-SameChallenges,
}
use hekaton_system.Coordinator.Worker.{process_stage1_request_with_cb}

if-some {ℓ} :
    {A : Type ℓ} (b : Bool) (m : Option A) {a : A}
    → (if b then m else none) ≡ some a
    → (b ≡ true) × (m ≡ some a)
if-some true m h = (refl, h)
if-some false m h = absurd (ground arith)

module _ {ℓ κ μ ν ρ β} {F : Type ℓ} {P : Type κ} {Params : Type μ} {Bytes : Type β}
    {MerklePath : Type ν} {Root : Type ρ} (c : WitnessedCircuit F P Params Bytes) where
  -- What the worker takes from a request.
  request-fields :
      (cb p : SubcircuitWithPortalsProver F P MerklePath Root)
      (req : Stage1Request F Params Bytes MerklePath Root)
      → process_stage1_request_with_cb c cb req ≡ some p
      → (challenges req.cur_leaf.evals ≡ some p.challenges) × (p.root ≡ req.root)
  unfolding process_stage1_request_with_cb
  request-fields cb p req h =
      let (chals, e, h₁) = bind-inv (challenges req.cur_leaf.evals) _ h in
      let (same, h₂) = if-some (cb.subcircuit_idx == req.subcircuit_idx) _ h₁ in
      let (u, s, h₃) =
        bind-inv
          (c.set_serialized_witnesses (c.new_circuit req.circ_params) req.subcircuit_idx
            req.serialized_witnesses)
          _ h₂ in
      let eq = some-injective _ _ h₃ in
      (e ∙ ap (λ q. some q.challenges) eq, sym (ap (λ q. q.root) eq))

module _ {ℓ τ μ ν δ κ β γ σ} {F : Type ℓ} {Tree : Type τ} {MerklePath : Type μ} {Root : Type ν}
    {SuperCom : Type δ} {Params : Type κ} {Bytes : Type β} {Com : Type γ} {Seed : Type σ}
    ⦃f : PrimeField F⦄ (mt : MerkleTree F Tree MerklePath Root) (hash : String → SuperCom → F)
    (mem_type : MemType) where
  -- Let the coordinator have made its state of stage 1, the state of the aggregation from it, and a
  -- request, and let a worker have filled its prover from the request. Then the public inputs of the
  -- aggregation are the challenges and the root of the worker's prover.
  pub into_agg_state-public_inputs {π} :
      {P : Type π} (c : WitnessedCircuit F P Params Bytes)
      (cb p : SubcircuitWithPortalsProver F P MerklePath Root)
      (commit_only_left : List Com → Option SuperCom) (s0 : CoordinatorStage0State F Params Bytes)
      (responses : List (Stage0Response Com Seed)) (idx : ℕ)
      (s1 : CoordinatorStage1State F Params Bytes MerklePath Root Com Seed SuperCom)
      (agg : FinalAggState F SuperCom) (req : Stage1Request F Params Bytes MerklePath Root)
      → process_stage0_responses mt hash mem_type commit_only_left s0 responses ≡ some s1
      → into_agg_state mt s1 ≡ some agg
      → stage1_gen_request mem_type s1 idx ≡ some req
      → process_stage1_request_with_cb c cb req ≡ some p
      → (root : List F) × (mt.root_field_elements p.root ≡ some root)
        × (agg.public_inputs ≡ p.challenges ++ root)
  unfolding into_agg_state stage1_gen_request
  into_agg_state-public_inputs c cb p commit_only_left s0 responses idx s1 agg req hs ha hr hp =
      let (super_com, b) =
        process_stage0_responses-Built mt hash mem_type commit_only_left s0 responses hs in
      let (first, e, h₁) = bind-inv (get_elem? s1.exec_leaves 0) _ ha in
      let (chals, ec, h₂) = bind-inv (challenges first.evals) _ h₁ in
      let (root, er, h₃) = bind-inv (mt.root_field_elements s1.exec_tree_root) _ h₂ in
      let (leaf, el, k₁) = bind-inv (current_leaf mem_type s1.exec_leaves idx) _ hr in
      let (path, ep, k₂) = bind-inv (get_elem? s1.exec_tree_leaf_auth_paths idx) _ k₁ in
      let (w, ew, k₃) = bind-inv (get_elem? s1.all_serialized_witnesses idx) _ k₂ in
      let same_req = some-injective _ _ k₃ in
      let (pc, pr) = request-fields c cb p req hp in
      let one = exec_tree_leaves-SameChallenges _ _ _ _ 0 b.leaves e in
      let two = current_leaf-SameChallenges hash mem_type super_com _ _ idx b.leaves el in
      let same_chals : chals ≡ p.challenges = some-injective _ _ (
        sym ec
        ∙ SameChallenges-challenges one
        ∙ sym (SameChallenges-challenges two)
        ∙ ap (λ r. challenges r.cur_leaf.evals) same_req
        ∙ pc) in
      (
        root,
        ap mt.root_field_elements (pr ∙ sym (ap (λ r. r.root) same_req)) ∙ er,
        sym (ap (λ a. a.public_inputs) (some-injective _ _ h₃)) ∙ ap (λ x. x ++ root) same_chals,
      )
