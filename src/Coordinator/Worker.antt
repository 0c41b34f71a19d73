-- ===== src/Coordinator/Worker.antt =====
-- distributed-prover/src/worker.rs: how a worker fills the prover of its subcircuit from the
-- coordinator's requests. cp-groth16's commitment runs stage 0 of the circuit and its proof stage 1:
-- the functions here give the circuit that these run, and the commitment, the proof and their
-- randomness are left out. A failed assertion is `none`.
use hekaton_system.Prelude.{ℕ, Option, none, some, ◌>>=◌, ◌==◌, if◌then◌else◌}
use hekaton_system.Field.{PrimeField}
use hekaton_system.Transcript.{MemType, challenges}
use hekaton_system.Subcircuit.{SubcircuitWithPortalsProver, new_subcircuit, stage_zero}
use hekaton_system.Coordinator.Stages.{WitnessedCircuit, Stage0Request, Stage1Request}

module _ {ℓ κ ν ρ} {F : Type ℓ} {P : Type κ} {MerklePath : Type ν} {Root : Type ρ}
    ⦃f : PrimeField F⦄ (mem_type : MemType) (default_path : ℕ → MerklePath)
    (default_root : Root) where
  -- The circuit committed to in `process_stage0_request_get_cb`, after the commitment.
  unfoldable pub committed_circuit :
      Stage0Request F → Option (SubcircuitWithPortalsProver F P MerklePath Root)
  committed_circuit req = do
    prover ← new_subcircuit mem_type default_path default_root 2
    some (
        stage_zero (record prover {
          subcircuit_idx = req.subcircuit_idx;
          time_ordered_subtrace = req.time_ordered_subtrace;
          addr_ordered_subtrace = req.addr_ordered_subtrace;
        }))

module _ {ℓ κ μ ν ρ β} {F : Type ℓ} {P : Type κ} {Params : Type μ} {Bytes : Type β}
    {MerklePath : Type ν} {Root : Type ρ} (c : WitnessedCircuit F P Params Bytes) where
  -- The circuit proved in `process_stage1_request_with_cb`.
  unfoldable pub process_stage1_request_with_cb :
      SubcircuitWithPortalsProver F P MerklePath Root
      → Stage1Request F Params Bytes MerklePath Root
      → Option (SubcircuitWithPortalsProver F P MerklePath Root)
  process_stage1_request_with_cb cb req = do
    chals ← challenges req.cur_leaf.evals
    (if cb.subcircuit_idx == req.subcircuit_idx
        then (do
          underlying_circuit ←
              c.set_serialized_witnesses (c.new_circuit req.circ_params) req.subcircuit_idx
                req.serialized_witnesses
          some (record cb {
            circ = some underlying_circuit;
            cur_leaf = req.cur_leaf;
            next_leaf_membership = req.next_leaf_membership;
            root = req.root;
            challenges = chals;
          }))
        else none)

  -- `process_stage1_request`, which commits again first.
  unfoldable pub process_stage1_request :
      ⦃f : PrimeField F⦄
      → (ℕ → MerklePath)
      → Root
      → Stage0Request F
      → Stage1Request F Params Bytes MerklePath Root
      → Option (SubcircuitWithPortalsProver F P MerklePath Root)
  unfolding committed_circuit process_stage1_request_with_cb
  process_stage1_request default_path default_root stage0_req stage1_req = do
    cb ← committed_circuit c.mem_type default_path default_root stage0_req
    process_stage1_request_with_cb cb stage1_req
