-- ===== src/Coordinator/Complete.antt =====
-- From the coordinator's state to an accepted stage 1 of a worker, for ROM circuits.
use Prim.Native.String.{String}
use hekaton_system.Prelude.{
  ℕ, ◌≡◌, ◌≢◌, refl, ap, ◌∙◌, Bool, true, Option, some, List, map, flatten, arith, length,
  get_elem?, get_elem?-bound,
}
use hekaton_system.Field.{PrimeField}
use hekaton_system.Transcript.{MemType, RomTranscriptEntry}
use hekaton_system.Transcript.Evaluation.{rom_padding}
use hekaton_system.Portal.{Access}
use hekaton_system.Portal.Rom.{RomProverPortalManager}
use hekaton_system.Subcircuit.{
  CircuitWithPortals, SubcircuitWithPortalsProver, rom_prover, stage_one,
}
use hekaton_system.Coordinator.Responses.{Stage0Response}
use hekaton_system.Coordinator.Stages.{
  WitnessedCircuit, MerkleTree, Stage0Request, Stage1Request, CoordinatorStage0State,
  CoordinatorStage1State, stage0_new, stage0_gen_request, process_stage0_responses,
  stage1_gen_request,
}
use hekaton_system.Coordinator.Worker.{process_stage1_request}
use hekaton_system.Coordinator.Requests.{process_stage0_responses-Built}
use hekaton_system.Coordinator.Replay.{Makes, Chained}
use hekaton_system.Coordinator.Honest.{roms}
use hekaton_system.Coordinator.Filling.{
  worker_prover, process_stage1_request-worker_prover, starts_at, challenges_at, request0, request1,
}
use hekaton_system.Coordinator.BuiltAt.{
  stage0_new-sorted, Built-LeafAt, requests_at, ProofsVerify, RunsAccesses,
}
use hekaton_system.Coordinator.Accept.{stage_one-honest}

module _ {ℓ κ μ β ν ρ τ δ γ σ} {F : Type ℓ} {P : Type κ} {Params : Type μ} {Bytes : Type β}
    {MerklePath : Type ν} {Root : Type ρ} {Tree : Type τ} {SuperCom : Type δ} {Com : Type γ}
    {Seed : Type σ} ⦃f : PrimeField F⦄ (c : WitnessedCircuit F P Params Bytes)
    (cp : CircuitWithPortals P (RomProverPortalManager F)) (mt : MerkleTree F Tree MerklePath Root)
    (hash : String → SuperCom → F) (verify_membership : Root → MerklePath → List F → Bool)
    (default_path : ℕ → MerklePath) (default_root : Root) where
  -- Let a circuit's subtraces be ROM traces that, sorted by address, go on from the padding entry
  -- with entries at the same address with the same value, or at the next address, which is below
  -- the field's characteristic. Let the coordinator have made its states from the circuit and the
  -- responses. Let the circuit rebuilt from the witnesses of a subcircuit have as many subcircuits
  -- as there are subtraces. Let it, on any manager at the start of the subcircuit's time-ordered
  -- subtrace, make the accesses that the subtrace records, with the values recorded, and no
  -- constraint of its own fail; and let the tree's proofs verify. Then both requests for that
  -- subcircuit are made, the worker fills its prover from them, and stage 1 returns with every
  -- constraint satisfied.
  pub stage_one-accepts :
      (circ circuit circuit' : P) (rts rxs : List (List (RomTranscriptEntry F)))
      (commit_only_left : List Com → Option SuperCom) (responses : List (Stage0Response Com Seed))
      (idx : ℕ) (ts : List (RomTranscriptEntry F)) (ops : List (Access F)) (witness : Bytes)
      (s0 : CoordinatorStage0State F Params Bytes)
      (s1 : CoordinatorStage1State F Params Bytes MerklePath Root Com Seed SuperCom)
      → stage0_new c circ ≡ some s0
      → s0.time_ordered_subtraces ≡ map roms rts
      → s0.addr_ordered_subtraces ≡ map roms rxs
      → Chained rom_padding (flatten rxs)
      → process_stage0_responses mt hash MemType.rom commit_only_left s0 responses ≡ some s1
      → get_elem? rts idx ≡ some ts
      → Makes ops ts
      → get_elem? s0.all_serialized_witnesses idx ≡ some witness
      → c.set_serialized_witnesses (c.new_circuit s0.circ_params) idx witness ≡ some circuit
      → RunsAccesses cp idx circuit circuit' ts ops
      → cp.num_subcircuits circuit' ≡ length rts
      → ProofsVerify mt verify_membership
      → (req0 : Stage0Request F) × (req1 : Stage1Request F Params Bytes MerklePath Root)
        × (p : SubcircuitWithPortalsProver F P MerklePath Root) × (stage0_gen_request s0 idx
            ≡ some req0)
        × (stage1_gen_request MemType.rom s1 idx ≡ some req1)
        × (process_stage1_request c default_path default_root req0 req1 ≡ some p)
        × (stage_one rom_prover cp verify_membership p
            ≡ some (record p { circ = some circuit' }, true))
  stage_one-accepts circ circuit circuit' rts rxs commit_only_left responses idx ts ops witness s0
        s1 h0 et ex ch h1 ats m aw eu runs count proofs =
      let (super_com, b) =
        process_stage0_responses-Built mt hash MemType.rom commit_only_left s0 responses h1 in
      let la =
        Built-LeafAt mt hash rts rxs super_com idx ts s0 s1 (stage0_new-sorted c circ h0) et ex ch b
          ats in
      let (path, gen0, gen1, member) =
        requests_at mt hash verify_membership rts rxs super_com idx ts witness s0 s1 et ex b la ats
          aw proofs in
      let req0 = request0 idx ts la.xs in
      let req1 = request1 s1 idx la.ev la.prev path witness in
      let some_circuit : cp.num_subcircuits circuit' ≢ 0 =
        λ z. absurd (omega (arith, count, z, get_elem?-bound rts idx ts ats)) in
      let chals = challenges_at hash super_com la.ev la.same_challenges in
      let p = worker_prover c default_path default_root req0 req1 circuit _ in
      (
        req0,
        req1,
        p,
        gen0,
        gen1,
        process_stage1_request-worker_prover c default_path default_root req0 req1 circuit _ refl
            chals
            (ap (λ q. c.set_serialized_witnesses (c.new_circuit q) idx witness) b.params ∙ eu),
        stage_one-honest cp verify_membership p circuit circuit' la.ev la.prev ts la.xs ops
            la.next.evals la.next.last_subtrace_entry
            (record { circ = refl; times = refl; addresses = refl; leaf = refl; chals = chals }) m
            la.same_length la.chained la.evaluated runs
            (starts_at hash super_com s1.exec_leaves idx _ la.current_at) member some_circuit
            (λ e. la.ends (e ∙ count)),
      )
