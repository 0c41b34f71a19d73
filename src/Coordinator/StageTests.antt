-- ===== src/Coordinator/StageTests.antt =====
-- Two workers of a ROM circuit: the first writes a wire, the second reads it and writes the next.
use Prim.Native.String.{String, len}
use mathlib.Core.Option.{some-injective}
use hekaton_system.Prelude.{
  ap₂, bind-inv, if◌then◌else◌, length, subst, ap, ◌∙◌, flatten, ℕ, ◌+◌, ◌-◌, ◌*◌, ◌≡◌, refl, ◌&&◌,
  Bool, true, false, Option, some, none, ◌>>=◌, List, [], ◌∷◌, map, ◌==◌, arith, inl, inr,
  get_elem?, ==_iff,
}
use hekaton_system.Field.Tests.{numbers}
use hekaton_system.Transcript.{MemType, RomTranscriptEntry, RunningEvaluation, TranscriptEntry}
use hekaton_system.EvalTree.{ExecTreeLeaf}
use hekaton_system.Portal.{Access, reads, writes}
use hekaton_system.Portal.Rom.{RomProverPortalManager, prover_get, prover_set}
use hekaton_system.Transcript.{RomTranscriptEntryVar}
use hekaton_system.Transcript.Evaluation.{new_rom_entry_var}
use hekaton_system.Portal.Rom.Coherence.{prover_run}
use hekaton_system.Subcircuit.{
  CircuitWithPortals, SubcircuitWithPortalsProver, rom_prover, stage_one,
}
use hekaton_system.Transcript.{time_ordered_eval, addr_ordered_eval, addr}
use hekaton_system.EvalTree.{leaf_to_field_elements}
use hekaton_system.Transcript.Evaluation
use hekaton_system.Transcript.Evaluation.{
  update_time_ordered, update_addr_ordered, rom_update_time_ordered, rom_update_addr_ordered,
  rom_entry_repr, padding, to_field_elements,
}
use hekaton_system.Coordinator.{
  sort_subtraces_by_addr, sort_flat, sort_by, insert_sorted, key_le, rom_key_le, chunk_back,
  exec_tree_leaves, eval_subtrace,
}
use hekaton_system.Coordinator.Responses.{Stage0Response, collect_commitments, sort_by_key}
use hekaton_system.Coordinator.Stages.{
  process_stage0_responses, into_agg_state, collect_range, generate_exec_tree, WitnessedCircuit,
  MerkleTree, Stage0Request, Stage1Request, CoordinatorStage0State, CoordinatorStage1State,
  stage0_new, stage0_gen_request, stage1_new, stage1_gen_request,
}
use hekaton_system.Coordinator.Worker.{process_stage1_request, process_stage1_request_with_cb}
use hekaton_system.Coordinator.Stages.{current_leaf}
use hekaton_system.Transcript.{challenges}
use hekaton_system.Coordinator.Filling.{request0, worker_prover}
use hekaton_system.Coordinator.PublicInputs.{into_agg_state-public_inputs}
use hekaton_system.Coordinator.Replay.{Makes, Chained}
use hekaton_system.Coordinator.Honest.{roms}
use hekaton_system.Coordinator.BuiltAt.{ProofsVerify, RunsAccesses}
use hekaton_system.Coordinator.Complete.{stage_one-accepts}

abbrev entry : ℕ → ℕ → RomTranscriptEntry ℕ
entry addr val = record { addr = addr; val = val }

abbrev time_order : List (List (RomTranscriptEntry ℕ))
time_order = (entry 2 7 ∷ []) ∷ (entry 2 7 ∷ entry 1 8 ∷ []) ∷ []

abbrev addr_order : List (List (RomTranscriptEntry ℕ))
addr_order = (entry 1 8 ∷ []) ∷ (entry 2 7 ∷ entry 2 7 ∷ []) ∷ []

-- The circuit's witness is the value that its second subcircuit writes.
abbrev circuit : WitnessedCircuit ℕ ℕ ℕ (List ℕ)
circuit = record {
  mem_type = MemType.rom;
  get_params = λ p. 2;
  subcircuit_count = λ p. 2;
  get_serialized_witnesses = λ p idx. some (p ∷ idx ∷ []);
  get_subtraces = λ p. some (map roms time_order);
  new_circuit = λ params. 0;
  set_serialized_witnesses = λ p idx bytes. get_elem? bytes 0;
}

-- The first subcircuit writes 7. The second reads it, writes its successor, and checks that this is
-- the witness.
abbrev accessing : CircuitWithPortals ℕ (RomProverPortalManager ℕ)
accessing = record {
  num_subcircuits = λ p. 2;
  generate_constraints = λ p idx pm.
      if idx == 0
      then (do pm' ← prover_set 7 pm; some (p, pm', true))
      else (do (v, pm1) ← prover_get pm; pm2 ← prover_set (v + 1) pm1; some (p, pm2, v + 1 == p));
}

-- A tree that is its list of leaves, and whose paths are indices.
abbrev tree : MerkleTree ℕ (List (List ℕ)) ℕ (List (List ℕ))
tree = record {
  new_tree = λ leaves. some leaves;
  generate_proof = λ leaves idx. some idx;
  tree_root = λ leaves. leaves;
  root_field_elements = λ leaves. some (length leaves ∷ []);
}

abbrev same_list : List ℕ → List ℕ → Bool
same_list [] [] = true
same_list (x ∷ xs) (y ∷ ys) = (x == y) && same_list xs ys
same_list _ _ = false

abbrev same_leaf : Option (List ℕ) → List ℕ → Bool
same_leaf none leaf = false
same_leaf (some l) leaf = same_list l leaf

abbrev check_path : List (List ℕ) → ℕ → List ℕ → Bool
check_path root path leaf = same_leaf (get_elem? root path) leaf

same_list_refl : (xs : List ℕ) → same_list xs xs ≡ true
same_list_refl [] = refl
same_list_refl (x ∷ xs) = rw ((==_iff x x).1 refl, same_list_refl xs) refl

tree-ProofsVerify : ProofsVerify tree check_path
tree-ProofsVerify leaves t i path leaf m p g =
    let same_tree : leaves ≡ t = some-injective _ _ m in
    let same_path : i ≡ path = some-injective _ _ p in
    let at : get_elem? t path ≡ some leaf =
      subst (λ x. get_elem? x path ≡ some leaf) same_tree
        (subst (λ j. get_elem? leaves j ≡ some leaf) same_path g) in
    ap (λ l. same_leaf l leaf) at ∙ same_list_refl leaf

prover_get-reads :
    (pm pm1 : RomProverPortalManager ℕ) (v : ℕ) (e : RomTranscriptEntryVar ℕ)
    → prover_get pm ≡ some (v, pm1)
    → get_elem? pm.time_ordered_subtrace pm.next_entry_idx ≡ some e
    → v ≡ e.val
unfolding prover_get
prover_get-reads pm pm1 v e h g = ground arith

abbrev accesses : List (Access ℕ)
accesses = reads ∷ writes 8 ∷ []

accessing-RunsAccesses : RunsAccesses accessing 1 8 8 (entry 2 7 ∷ entry 1 8 ∷ []) accesses
unfolding prover_run new_rom_entry_var
accessing-RunsAccesses pm pm' time start h =
    let ((v, pm1), g, h₁) = bind-inv (prover_get pm) _ h in
    let (pm2, w, h₂) = bind-inv (prover_set 8 pm1) _ h₁ in
    let first : get_elem? pm.time_ordered_subtrace pm.next_entry_idx
        ≡ some (new_rom_entry_var (entry 2 7)) =
      ap₂ get_elem? time start in
    let seven : v ≡ 7 = prover_get-reads pm pm1 v (new_rom_entry_var (entry 2 7)) g first in
    let successor : prover_set (v + 1) pm1 ≡ some pm2 =
      ap (λ x. prover_set (x + 1) pm1) seven ∙ w in
    let checked : (v + 1 == 8) ≡ true = ap (λ x. x + 1 == 8) seven in
    rw g (
      rw successor
        (ap (λ b. some (8, pm2, b)) checked ∙ ap (λ q. some (8, q, true)) (some-injective _ _ h₂)))

abbrev hash : String → ℕ → ℕ
hash label commitment = commitment * (11 - len label)

abbrev stage0 : CoordinatorStage0State ℕ ℕ (List ℕ)
stage0 = record {
  time_ordered_subtraces = map roms time_order;
  addr_ordered_subtraces = map roms addr_order;
  all_serialized_witnesses = (8 ∷ 0 ∷ []) ∷ (8 ∷ 1 ∷ []) ∷ [];
  circ_params = 2;
}

-- The responses arrive in the wrong order.
abbrev responses : List (Stage0Response ℕ ℕ)
responses =
    record { subcircuit_idx = 1; commitment = 60; com_seed = 2 }
    ∷ record { subcircuit_idx = 0; commitment = 40; com_seed = 1 }
    ∷ []

abbrev commit : List ℕ → Option ℕ
commit [] = some 0
commit (x ∷ xs) = do rest ← commit xs; some (x + rest)

abbrev leaf : ℕ → ℕ → RomTranscriptEntry ℕ → ExecTreeLeaf ℕ
leaf time_eval addr_eval last = record {
  evals = RunningEvaluation.rom (record {
    time_ordered_eval = time_eval;
    addr_ordered_eval = addr_eval;
    challenges = some (100, 400);
  });
  last_subtrace_entry = TranscriptEntry.rom last;
}

abbrev stage1 : CoordinatorStage1State ℕ ℕ (List ℕ) ℕ (List (List ℕ)) ℕ ℕ ℕ
stage1 = record {
  time_ordered_subtraces = map roms time_order;
  addr_ordered_subtraces = map roms addr_order;
  all_serialized_witnesses = (8 ∷ 0 ∷ []) ∷ (8 ∷ 1 ∷ []) ∷ [];
  circ_params = 2;
  coms = 40 ∷ 60 ∷ [];
  seeds = 1 ∷ 2 ∷ [];
  super_com = 100;
  exec_leaves = leaf 193 292 (entry 1 8) ∷ leaf 10876708 10876708 (entry 2 7) ∷ [];
  exec_tree_root = (193 ∷ 292 ∷ 1 ∷ 8 ∷ []) ∷ (10876708 ∷ 10876708 ∷ 2 ∷ 7 ∷ []) ∷ [];
  exec_tree_leaf_auth_paths = 0 ∷ 1 ∷ [];
}

stage0-made : stage0_new circuit 8 ≡ some stage0
unfolding stage0_new collect_range sort_subtraces_by_addr flatten sort_flat sort_by insert_sorted
    key_le rom_key_le chunk_back addr
stage0-made = refl

stage1-made : process_stage0_responses tree hash MemType.rom commit stage0 responses ≡ some stage1
unfolding process_stage0_responses collect_commitments sort_by_key sort_by insert_sorted stage1_new
    generate_exec_tree collect_range exec_tree_leaves eval_subtrace update_time_ordered
    update_addr_ordered rom_update_time_ordered rom_update_addr_ordered rom_entry_repr
    Evaluation.new padding leaf_to_field_elements to_field_elements time_ordered_eval
    addr_ordered_eval
stage1-made = refl

ordered : Chained (entry 0 0) (flatten addr_order)
unfolding flatten
ordered = Chained.chain_next (inr (refl, omega arith)) (
    Chained.chain_next (inr (refl, omega arith))
      (Chained.chain_next (inl (refl, refl)) Chained.chain_end))

stage_one-accepts_example :
    (req0 : Stage0Request ℕ) × (req1 : Stage1Request ℕ ℕ (List ℕ) ℕ (List (List ℕ)))
    × (p : SubcircuitWithPortalsProver ℕ ℕ ℕ (List (List ℕ))) × (stage0_gen_request stage0 1
        ≡ some req0)
    × (stage1_gen_request MemType.rom stage1 1 ≡ some req1)
    × (process_stage1_request circuit (λ n. n) [] req0 req1 ≡ some p)
    × (stage_one rom_prover accessing check_path p ≡ some (record p { circ = some 8 }, true))
stage_one-accepts_example =
    stage_one-accepts circuit accessing tree hash check_path (λ n. n) [] 8 8 8 time_order addr_order
      commit responses 1 (entry 2 7 ∷ entry 1 8 ∷ []) accesses (8 ∷ 1 ∷ []) stage0 stage1
      stage0-made refl refl ordered stage1-made refl (Makes.read (Makes.write refl Makes.done)) refl
      refl accessing-RunsAccesses refl tree-ProofsVerify

-- The second worker's prover, before and after it is filled from the request of stage 1.
abbrev request : Stage1Request ℕ ℕ (List ℕ) ℕ (List (List ℕ))
request = record {
  subcircuit_idx = 1;
  cur_leaf = leaf 193 292 (entry 1 8);
  next_leaf_membership = 1;
  root = stage1.exec_tree_root;
  serialized_witnesses = 8 ∷ 1 ∷ [];
  circ_params = 2;
}

abbrev prover : List ℕ → SubcircuitWithPortalsProver ℕ ℕ ℕ (List (List ℕ))
prover chals =
    worker_prover circuit (λ n. n) []
      (request0 1 (entry 2 7 ∷ entry 1 8 ∷ []) (entry 2 7 ∷ entry 2 7 ∷ [])) request 8 chals

request-made : stage1_gen_request MemType.rom stage1 1 ≡ some request
unfolding stage1_gen_request current_leaf
request-made = refl

prover-filled :
    process_stage1_request_with_cb circuit (prover []) request ≡ some (prover (100 ∷ 400 ∷ []))
unfolding process_stage1_request_with_cb challenges
prover-filled = refl

aggregated :
    into_agg_state tree stage1
    ≡ some (record { public_inputs = 100 ∷ 400 ∷ 2 ∷ []; super_com = 100 })
unfolding into_agg_state challenges
aggregated = refl

into_agg_state-public_inputs_example :
    (root : List ℕ) × (some (2 ∷ []) ≡ some root) × (100 ∷ 400 ∷ 2 ∷ [] ≡ 100 ∷ 400 ∷ root)
into_agg_state-public_inputs_example =
    into_agg_state-public_inputs tree hash MemType.rom circuit (prover []) (prover (100 ∷ 400 ∷ []))
      commit stage0 responses 1 stage1
      (record { public_inputs = 100 ∷ 400 ∷ 2 ∷ []; super_com = 100 }) request stage1-made
      aggregated request-made prover-filled
