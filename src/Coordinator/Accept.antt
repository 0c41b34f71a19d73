-- ===== src/Coordinator/Accept.antt =====
-- Stage 1 on a prover that is filled with a leaf and the subtraces after it.
use hekaton_system.Prelude.{
  suc, ◌≡◌, ◌≢◌, refl, sym, ap, subst, ◌∙◌, Bool, true, some, List, [], ◌∷◌, map, arith, length,
  length-map, get_elem?-map, get_elem?,
}
use hekaton_system.Field.{PrimeField}
use hekaton_system.Transcript.{
  RomTranscriptEntry, TranscriptEntry, RomRunningEvaluation, RunningEvaluation, challenges,
  set_challenges, time_ordered_eval, addr_ordered_eval,
}
use hekaton_system.Transcript.Evaluation.{
  new_rom_entry_var, new_entry_var, new_evaluation_var, to_constraint_field,
}
use hekaton_system.Transcript.Agreement.{to_constraint_field-new_entry_var}
use hekaton_system.EvalTree.{new_leaf_var, leaf_to_field_elements, leaf_to_constraint_field}
use hekaton_system.Portal.{Access}
use hekaton_system.Portal.Rom.{RomProverPortalManager, new_prover, convert_entries}
use hekaton_system.Portal.Rom.Coherence.{prover_run}
use hekaton_system.Subcircuit.{
  CircuitWithPortals, SubcircuitWithPortalsProver, rom_prover, stage_one, last_entry, next_leaf,
}
use hekaton_system.Subcircuit.Stages.{StartsTrace, IsAccepted-stage_one}
use hekaton_system.Coordinator.{eval_subtrace}
use hekaton_system.Coordinator.Replay.{Makes, Chained, At}
use hekaton_system.Coordinator.Honest.{roms, Loaded, prover_run-replays, eval_subtrace-last_entry}

module _ {ℓ} {F : Type ℓ} ⦃f : PrimeField F⦄ where
  -- Setting the challenges of a witnessed evaluation again restores it.
  set_challenges-new :
      (ev : RunningEvaluation F) (cs : List F)
      → challenges ev ≡ some cs
      → set_challenges (new_evaluation_var ev) cs ≡ some ev
  unfolding set_challenges new_evaluation_var challenges
  set_challenges-new (RunningEvaluation.rom ev) cs h = ground arith
  set_challenges-new (RunningEvaluation.ram ev) cs h = ground arith

  convert_entries-new :
      (es : List (RomTranscriptEntry F))
      → convert_entries (map new_entry_var (roms es)) ≡ some (map new_rom_entry_var es)
  unfolding convert_entries new_entry_var
  convert_entries-new [] = refl
  convert_entries-new (e ∷ es) = rw (convert_entries-new es) refl

  At-map : (es : List (RomTranscriptEntry F)) → At (map new_rom_entry_var es) 0 es
  At-map es j e h =
      ap (get_elem? (map new_rom_entry_var es)) (omega arith)
      ∙ get_elem?-map new_rom_entry_var es j e h

  -- The manager that stage 1 makes.
  abbrev loaded_manager :
      RomRunningEvaluation F
      → RomTranscriptEntry F
      → List (RomTranscriptEntry F)
      → List (RomTranscriptEntry F)
      → RomProverPortalManager F
  loaded_manager ev last ts xs = record {
    time_ordered_subtrace = map new_rom_entry_var ts;
    addr_ordered_subtrace = map new_rom_entry_var (last ∷ xs);
    running_evals = ev;
    next_entry_idx = 0;
    satisfied = true;
  }

  loaded_manager-Loaded :
      (ev : RomRunningEvaluation F) (last : RomTranscriptEntry F)
      (ts xs : List (RomTranscriptEntry F))
      → Loaded (loaded_manager ev last ts xs) last ts xs
  loaded_manager-Loaded ev last ts xs = record {
    times = At-map ts;
    addresses = At-map (last ∷ xs);
    satisfied = refl;
  }

  new_prover-loaded :
      (ev : RomRunningEvaluation F) (last : RomTranscriptEntry F)
      (ts xs : List (RomTranscriptEntry F))
      → new_prover
          (map new_entry_var (roms ts))
          (map new_entry_var (roms (last ∷ xs)))
          (RunningEvaluation.rom ev)
        ≡ some (loaded_manager ev last ts xs)
  unfolding new_prover
  new_prover-loaded ev last ts xs =
      rw (convert_entries-new ts, new_prover) (rw (convert_entries-new (last ∷ xs)) refl)

  pub length-roms :
      (ts xs : List (RomTranscriptEntry F))
      → length ts ≡ length xs
      → length (roms ts) ≡ length (roms xs)
  length-roms ts xs h =
      length-map TranscriptEntry.rom ts ∙ h ∙ sym (length-map TranscriptEntry.rom xs)

  -- The leaf after the run serialises in the circuit as the coordinator's.
  leaf_to_constraint_field-next :
      (ev ev' : RunningEvaluation F) (last last' : TranscriptEntry F)
      (ts xs : List (TranscriptEntry F))
      → length ts ≡ length xs
      → eval_subtrace ev last ts xs ≡ some (ev', last')
      → leaf_to_constraint_field (record {
        evals = ev';
        last_subtrace_entry = last_entry (new_entry_var last) (map new_entry_var xs);
      })
        ≡ leaf_to_field_elements (record { evals = ev'; last_subtrace_entry = last' })
  unfolding leaf_to_constraint_field leaf_to_field_elements
  leaf_to_constraint_field-next ev ev' last last' ts xs len h =
      ap (λ es. time_ordered_eval ev' ∷ addr_ordered_eval ev' ∷ es)
        (ap to_constraint_field (eval_subtrace-last_entry ev last ts xs len h)
          ∙ to_constraint_field-new_entry_var last')

module _ {ℓ κ μ ν} {F : Type ℓ} {P : Type κ} {MerklePath : Type μ} {Root : Type ν}
    ⦃f : PrimeField F⦄ (c : CircuitWithPortals P (RomProverPortalManager F))
    (verify_membership : Root → MerklePath → List F → Bool) where
  -- What stage 1 finds in a prover that is filled for the subtraces after a leaf.
  pub record Filled (p : SubcircuitWithPortalsProver F P MerklePath Root) (circuit : P)
      (ev : RomRunningEvaluation F) (last : RomTranscriptEntry F)
      (ts xs : List (RomTranscriptEntry F)) : Type (ℓ ⊔ κ) where
    pub circ : p.circ ≡ some circuit
    pub times : p.time_ordered_subtrace_var ≡ map new_entry_var (roms ts)
    pub addresses : p.addr_ordered_subtrace_var ≡ map new_entry_var (roms xs)
    pub leaf : p.cur_leaf ≡ record {
      evals = RunningEvaluation.rom ev;
      last_subtrace_entry = TranscriptEntry.rom last;
    }
    pub chals : challenges (RunningEvaluation.rom ev) ≡ some p.challenges

  set_challenges-Filled :
      (p : SubcircuitWithPortalsProver F P MerklePath Root) (circuit : P)
      (ev : RomRunningEvaluation F) (last : RomTranscriptEntry F)
      (ts xs : List (RomTranscriptEntry F))
      → Filled p circuit ev last ts xs
      → set_challenges (new_leaf_var p.cur_leaf).evals p.challenges
        ≡ some (RunningEvaluation.rom ev)
  unfolding new_leaf_var
  set_challenges-Filled p circuit ev last ts xs fl =
      rw (fl.leaf) (set_challenges-new (RunningEvaluation.rom ev) p.challenges fl.chals)

  new_prover-Filled :
      (p : SubcircuitWithPortalsProver F P MerklePath Root) (circuit : P)
      (ev : RomRunningEvaluation F) (last : RomTranscriptEntry F)
      (ts xs : List (RomTranscriptEntry F))
      → Filled p circuit ev last ts xs
      → new_prover p.time_ordered_subtrace_var
          ((new_leaf_var p.cur_leaf).last_subtrace_entry ∷ p.addr_ordered_subtrace_var)
          (RunningEvaluation.rom ev)
        ≡ some (loaded_manager ev last ts xs)
  unfolding new_leaf_var
  new_prover-Filled p circuit ev last ts xs fl =
      rw (fl.leaf, fl.times, fl.addresses) (new_prover-loaded ev last ts xs)

  next_leaf-Filled :
      (p : SubcircuitWithPortalsProver F P MerklePath Root) (circuit : P)
      (ev : RomRunningEvaluation F) (ev' : RunningEvaluation F) (last : RomTranscriptEntry F)
      (ts xs : List (RomTranscriptEntry F)) (pm' : RomProverPortalManager F)
      → Filled p circuit ev last ts xs
      → ev' ≡ RunningEvaluation.rom pm'.running_evals
      → next_leaf rom_prover c verify_membership p pm' ≡ record {
        evals = ev';
        last_subtrace_entry =
            last_entry (new_entry_var (TranscriptEntry.rom last)) (map new_entry_var (roms xs));
      }
  unfolding new_leaf_var
  next_leaf-Filled p circuit ev ev' last ts xs pm' fl out = rw (fl.leaf, fl.addresses, out) refl

  pub stage_one-honest :
      (p : SubcircuitWithPortalsProver F P MerklePath Root) (circuit circuit' : P)
      (ev : RomRunningEvaluation F) (last : RomTranscriptEntry F)
      (ts xs : List (RomTranscriptEntry F)) (ops : List (Access F)) (ev' : RunningEvaluation F)
      (last' : TranscriptEntry F)
      → Filled p circuit ev last ts xs
      → Makes ops ts
      → length ts ≡ length xs
      → Chained last xs
      → eval_subtrace (RunningEvaluation.rom ev) (TranscriptEntry.rom last) (roms ts) (roms xs)
        ≡ some (ev', last')
      → ((pm pm' : RomProverPortalManager F)
          → pm.time_ordered_subtrace ≡ map new_rom_entry_var ts
          → pm.next_entry_idx ≡ 0
          → prover_run ops pm ≡ some pm'
          → c.generate_constraints circuit p.subcircuit_idx pm ≡ some (circuit', pm', true))
      → StartsTrace p.subcircuit_idx (new_leaf_var p.cur_leaf)
      → verify_membership p.root p.next_leaf_membership
          (leaf_to_field_elements (record { evals = ev'; last_subtrace_entry = last' }))
        ≡ true
      → c.num_subcircuits circuit' ≢ 0
      → (suc p.subcircuit_idx ≡ c.num_subcircuits circuit'
          → time_ordered_eval ev' ≡ addr_ordered_eval ev')
      → stage_one rom_prover c verify_membership p ≡ some (record p { circ = some circuit' }, true)
  stage_one-honest p circuit circuit' ev last ts xs ops ev' last' fl m len ch run gen starts member
        n ends =
      let pm = loaded_manager ev last ts xs in
      let (pm', r, sat, out) =
        prover_run-replays ops pm last ts xs m len (loaded_manager-Loaded ev last ts xs) ch run in
      let next = next_leaf-Filled p circuit ev ev' last ts xs pm' fl out in
      IsAccepted-stage_one rom_prover c verify_membership p (record {
        evals = RunningEvaluation.rom ev;
        pm = pm;
        circ = circuit;
        circ' = circuit';
        pm' = pm';
        starts = starts;
        challenged = set_challenges-Filled p circuit ev last ts xs fl;
        made = new_prover-Filled p circuit ev last ts xs fl;
        given = fl.circ;
        ran = gen pm pm' refl refl r;
        enforced = sat;
        member =
            ap (verify_membership p.root p.next_leaf_membership) (
              ap leaf_to_constraint_field next
              ∙ leaf_to_constraint_field-next (RunningEvaluation.rom ev) ev'
                  (TranscriptEntry.rom last) last' (roms ts) (roms xs) (length-roms ts xs len) run)
            ∙ member;
        ends = (n, λ e. subst (λ v. time_ordered_eval v ≡ addr_ordered_eval v) out (ends e));
      })
