-- ===== src/Coordinator/BuiltAt.antt =====
-- The coordinator's state of stage 1 around one ROM subtrace, and what the circuit and the tree do.
use Prim.Native.String.{String}
use mathlib.Core.Option.{some-injective}
use mathlib.Core.List.{Perm}
use mathlib.Core.List.Perm
use hekaton_system.Prelude.{
  ℕ, ◌<◌, ◌≡◌, refl, sym, ap, ap₂, subst, ◌∙◌, Bool, true, some, bind-inv, List, ◌∷◌, map, flatten,
  arith, length, get_elem?, get_elem?-map, get_elem?-bound,
}
use hekaton_system.Field.{PrimeField}
use hekaton_system.Transcript.{MemType, RomTranscriptEntry, TranscriptEntry, RunningEvaluation}
use hekaton_system.Transcript.Evaluation.{
  padding, rom_padding, new_entry_var, new_rom_entry_var, new_evaluation_var, is_padding,
}
use hekaton_system.Transcript.Evaluation
use hekaton_system.EvalTree.{ExecTreeLeaf, leaf_to_field_elements}
use hekaton_system.Portal.{Access}
use hekaton_system.Portal.Rom.{RomProverPortalManager}
use hekaton_system.Portal.Rom.Coherence.{prover_run}
use hekaton_system.Subcircuit.{CircuitWithPortals}
use hekaton_system.Coordinator.{exec_tree_leaves, sort_subtraces_by_addr}
use hekaton_system.Coordinator.Stages.{
  WitnessedCircuit, MerkleTree, CoordinatorStage0State, CoordinatorStage1State, stage0_new,
  collect_range, stage0_gen_request, stage1_gen_request,
}
use hekaton_system.Coordinator.Requests.{collect_range-get, Built, current_leaf-start}
use hekaton_system.Coordinator.Chain.{leaf_of}
use hekaton_system.Coordinator.Replay.{Chained}
use hekaton_system.Coordinator.Honest.{roms}
use hekaton_system.Coordinator.Ordered.{map-length-roms, sort_subtraces_by_addr-perm}
use hekaton_system.Coordinator.LeafAt.{LeafAt, exec_tree_leaves-LeafAt}
use hekaton_system.Coordinator.Filling.{
  fresh, request0, request1, stage0_gen_request-some, stage1_gen_request-some,
}

-- A sorted state of stage 0.
pub stage0_new-sorted {ℓ κ μ ν} :
    {F : Type ℓ} {P : Type κ} {Params : Type μ} {Bytes : Type ν}
    (c : WitnessedCircuit F P Params Bytes) (circ : P) {s0 : CoordinatorStage0State F Params Bytes}
    → stage0_new c circ ≡ some s0
    → sort_subtraces_by_addr s0.time_ordered_subtraces ≡ some s0.addr_ordered_subtraces
unfolding stage0_new
stage0_new-sorted c circ h =
    let (w, ew, h₁) =
      bind-inv (collect_range (c.get_serialized_witnesses circ) 0 (c.subcircuit_count circ)) _ h in
    let (tss, et, h₂) = bind-inv (c.get_subtraces circ) _ h₁ in
    let (xss, es, h₃) = bind-inv (sort_subtraces_by_addr tss) _ h₂ in
    subst (λ s. sort_subtraces_by_addr s.time_ordered_subtraces ≡ some s.addr_ordered_subtraces)
      (some-injective _ _ h₃) es

module _ {ℓ ν ρ τ} {F : Type ℓ} {MerklePath : Type ν} {Root : Type ρ} {Tree : Type τ}
    (mt : MerkleTree F Tree MerklePath Root)
    (verify_membership : Root → MerklePath → List F → Bool) where
  -- The Merkle tree's proofs verify.
  abbrev pub ProofsVerify : Type (ℓ ⊔ τ ⊔ ν)
  ProofsVerify =
      (leaves : List (List F)) (tree : Tree) (i : ℕ) (path : MerklePath) (leaf : List F)
      → mt.new_tree leaves ≡ some tree
      → mt.generate_proof tree i ≡ some path
      → get_elem? leaves i ≡ some leaf
      → verify_membership (mt.tree_root tree) path leaf ≡ true

module _ {ℓ κ} {F : Type ℓ} {P : Type κ} ⦃f : PrimeField F⦄
    (cp : CircuitWithPortals P (RomProverPortalManager F)) where
  -- On a manager at the start of the time-ordered subtrace `ts`, the circuit makes these accesses,
  -- and no constraint of its own fails. What it writes and checks may depend on what it reads, which
  -- is what the subtrace holds.
  abbrev pub RunsAccesses : ℕ → P → P → List (RomTranscriptEntry F) → List (Access F) → Type (ℓ ⊔ κ)
  RunsAccesses idx circuit circuit' ts ops =
      (pm pm' : RomProverPortalManager F)
      → pm.time_ordered_subtrace ≡ map new_rom_entry_var ts
      → pm.next_entry_idx ≡ 0
      → prover_run ops pm ≡ some pm'
      → cp.generate_constraints circuit idx pm ≡ some (circuit', pm', true)

module _ {ℓ μ β ν ρ τ δ γ σ} {F : Type ℓ} {Params : Type μ} {Bytes : Type β} {MerklePath : Type ν}
    {Root : Type ρ} {Tree : Type τ} {SuperCom : Type δ} {Com : Type γ} {Seed : Type σ}
    ⦃f : PrimeField F⦄ (mt : MerkleTree F Tree MerklePath Root) (hash : String → SuperCom → F) where
  -- The leaves of the state of stage 1 around a subtrace.
  pub Built-LeafAt :
      (rts rxs : List (List (RomTranscriptEntry F))) (super_com : SuperCom) (idx : ℕ)
      (ts : List (RomTranscriptEntry F)) (s0 : CoordinatorStage0State F Params Bytes)
      (s1 : CoordinatorStage1State F Params Bytes MerklePath Root Com Seed SuperCom)
      → sort_subtraces_by_addr s0.time_ordered_subtraces ≡ some s0.addr_ordered_subtraces
      → s0.time_ordered_subtraces ≡ map roms rts
      → s0.addr_ordered_subtraces ≡ map roms rxs
      → Chained rom_padding (flatten rxs)
      → Built mt hash MemType.rom s0 super_com s1
      → get_elem? rts idx ≡ some ts
      → LeafAt
          (leaf_of (RunningEvaluation.rom (fresh hash super_com)) (TranscriptEntry.rom rom_padding)
            ∷ s1.exec_leaves)
          s1.exec_leaves
          (fresh hash super_com)
          rxs
          (length rts)
          idx
          ts
  unfolding Evaluation.new padding
  Built-LeafAt rts rxs super_com idx ts s0 s1 sorted et ex ch b ats =
      let (lens, perm) = sort_subtraces_by_addr-perm s0.time_ordered_subtraces sorted in
      let lens' : map length (map roms rts) ≡ map length (map roms rxs) =
        ap (map length) (sym et) ∙ sym lens ∙ ap (map length) ex in
      let perm' : Perm (flatten (map roms rts)) (flatten (map roms rxs)) =
        subst (λ l. Perm (flatten l) (flatten (map roms rxs))) et
          (subst (λ l. Perm (flatten s0.time_ordered_subtraces) (flatten l)) ex (Perm.symm perm)) in
      exec_tree_leaves-LeafAt (fresh hash super_com) rom_padding _ rts rxs idx ts refl refl
        (sym (map-length-roms rts) ∙ lens' ∙ map-length-roms rxs) lens' perm' ch
        (ap₂ (exec_tree_leaves _ _) (sym et) (sym ex) ∙ b.leaves) ats

  -- The path of a leaf in the state of stage 1, which verifies.
  Built-path :
      (verify_membership : Root → MerklePath → List F → Bool) (super_com : SuperCom) (idx : ℕ)
      (s0 : CoordinatorStage0State F Params Bytes)
      (s1 : CoordinatorStage1State F Params Bytes MerklePath Root Com Seed SuperCom)
      (leaf : ExecTreeLeaf F)
      → ProofsVerify mt verify_membership
      → Built mt hash MemType.rom s0 super_com s1
      → idx < length s0.time_ordered_subtraces
      → get_elem? s1.exec_leaves idx ≡ some leaf
      → (path : MerklePath) × (get_elem? s1.exec_tree_leaf_auth_paths idx ≡ some path)
        × (verify_membership s1.exec_tree_root path (leaf_to_field_elements leaf) ≡ true)
  Built-path verify_membership super_com idx s0 s1 leaf proofs b bound at =
      let (path, gp, pat) =
        collect_range-get (mt.generate_proof b.tree) 0 (length s0.time_ordered_subtraces) idx
          b.paths bound in
      (
        path,
        pat,
        ap (λ r. verify_membership r path (leaf_to_field_elements leaf)) b.root
            ∙ proofs (map leaf_to_field_elements s1.exec_leaves) b.tree idx path
                (leaf_to_field_elements leaf) b.made
                (ap (mt.generate_proof b.tree) (omega arith) ∙ gp)
                (get_elem?-map leaf_to_field_elements s1.exec_leaves idx leaf at),
      )

  -- The requests of a subcircuit.
  pub requests_at :
      (verify_membership : Root → MerklePath → List F → Bool)
      (rts rxs : List (List (RomTranscriptEntry F))) (super_com : SuperCom) (idx : ℕ)
      (ts : List (RomTranscriptEntry F)) (witness : Bytes)
      (s0 : CoordinatorStage0State F Params Bytes)
      (s1 : CoordinatorStage1State F Params Bytes MerklePath Root Com Seed SuperCom)
      → s0.time_ordered_subtraces ≡ map roms rts
      → s0.addr_ordered_subtraces ≡ map roms rxs
      → Built mt hash MemType.rom s0 super_com s1
      → (la : LeafAt
          (leaf_of (RunningEvaluation.rom (fresh hash super_com)) (TranscriptEntry.rom rom_padding)
            ∷ s1.exec_leaves)
          s1.exec_leaves
          (fresh hash super_com)
          rxs
          (length rts)
          idx
          ts)
      → get_elem? rts idx ≡ some ts
      → get_elem? s0.all_serialized_witnesses idx ≡ some witness
      → ProofsVerify mt verify_membership
      → (path : MerklePath) × (stage0_gen_request s0 idx ≡ some (request0 idx ts la.xs))
        × (stage1_gen_request MemType.rom s1 idx
            ≡ some (request1 s1 idx la.ev la.prev path witness))
        × (verify_membership s1.exec_tree_root path (leaf_to_field_elements la.next) ≡ true)
  unfolding Evaluation.new padding
  requests_at verify_membership rts rxs super_com idx ts witness s0 s1 et ex b la ats aw proofs =
      let tat : get_elem? s0.time_ordered_subtraces idx ≡ some (roms ts) =
        ap (λ l. get_elem? l idx) et ∙ get_elem?-map roms rts idx ts ats in
      let xat : get_elem? s0.addr_ordered_subtraces idx ≡ some (roms la.xs) =
        ap (λ l. get_elem? l idx) ex ∙ get_elem?-map roms rxs idx la.xs la.addr_at in
      let leaf_at =
        current_leaf-start hash MemType.rom super_com s0.time_ordered_subtraces
          s0.addr_ordered_subtraces idx b.leaves la.next_at
        ∙ la.current_at in
      let (path, pat, member) =
        Built-path verify_membership super_com idx s0 s1 la.next proofs b
          (get_elem?-bound s0.time_ordered_subtraces idx (roms ts) tat) la.next_at in
      (
        path,
        stage0_gen_request-some s0 idx (roms ts) (roms la.xs) tat xat,
        stage1_gen_request-some MemType.rom s1 idx _ path witness leaf_at pat
            (ap (λ l. get_elem? l idx) b.witnesses ∙ aw),
        member,
      )
