-- ===== src/Coordinator/Requests.antt =====
-- The state of stage 1 taken apart, and the challenges that the requests carry.
use Prim.Native.String.{String}
use mathlib.Core.Option.{some-injective}
use hekaton_system.Prelude.{
  ℕ, zero, suc, ◌+◌, ◌<◌, ◌≡◌, refl, sym, ap, subst, ◌∙◌, Option, some, bind-inv, List, [], ◌∷◌,
  map, arith, length, get_elem?,
}
use hekaton_system.Field.{PrimeField}
use hekaton_system.Transcript.{MemType, TranscriptEntry, RunningEvaluation, copy_challenges_from}
use hekaton_system.Transcript.Evaluation.{padding, default}
use hekaton_system.Transcript.Evaluation
use hekaton_system.EvalTree.{ExecTreeLeaf, leaf_padding, leaf_to_field_elements}
use hekaton_system.Coordinator.{exec_tree_leaves}
use hekaton_system.Coordinator.Chain.{
  SameChallenges, SameChallenges-refl, leaf_of, exec_tree_leaves-SameChallenges,
}
use hekaton_system.Coordinator.Responses.{Stage0Response, collect_commitments}
use hekaton_system.Coordinator.Stages.{
  process_stage0_responses, MerkleTree, collect_range, CoordinatorStage0State,
  CoordinatorStage1State, generate_exec_tree, stage1_new, current_leaf,
}

pub collect_range-get {ℓ} :
    {A : Type ℓ} (get : ℕ → Option A) (i n j : ℕ) {l : List A}
    → collect_range get i n ≡ some l
    → j < n
    → (a : A) × (get (i + j) ≡ some a) × (get_elem? l j ≡ some a)
unfolding collect_range
collect_range-get get i zero j h b = absurd (omega arith)
collect_range-get get i (suc n) zero h b =
    let (a, e, h') = bind-inv (get i) _ h in
    let (rest, r, h'') = bind-inv (collect_range get (suc i) n) _ h' in
    (a, ap get (omega arith) ∙ e, ap (λ l. get_elem? l 0) (sym (some-injective _ _ h'')))
collect_range-get get i (suc n) (suc j) h b =
    let (a, e, h') = bind-inv (get i) _ h in
    let (rest, r, h'') = bind-inv (collect_range get (suc i) n) _ h' in
    let (c, p, q) = collect_range-get get (suc i) n j r (omega arith) in
    (c, ap get (omega arith) ∙ p, ap (λ l. get_elem? l (suc j)) (sym (some-injective _ _ h'')) ∙ q)

module _ {ℓ δ} {F : Type ℓ} {SuperCom : Type δ} ⦃f : PrimeField F⦄
    (hash : String → SuperCom → F) where
  -- The leaf before the first subcircuit.
  abbrev pub start : MemType → SuperCom → ExecTreeLeaf F
  start mem_type super_com = leaf_of (Evaluation.new hash mem_type super_com) (padding mem_type)

  copy-SameChallenges :
      (mem_type : MemType) (super_com : SuperCom) {ev : RunningEvaluation F}
      → SameChallenges (Evaluation.new hash mem_type super_com) ev
      → copy_challenges_from (default mem_type) ev ≡ some (Evaluation.new hash mem_type super_com)
  unfolding Evaluation.new default copy_challenges_from
  copy-SameChallenges MemType.rom super_com (SameChallenges.rom e) =
      ap
        (λ c. some (
          RunningEvaluation.rom (record {
            time_ordered_eval = f.one_elem;
            addr_ordered_eval = f.one_elem;
            challenges = c;
          })))
        e
  copy-SameChallenges MemType.ram super_com (SameChallenges.ram e) =
      ap
        (λ c. some (
          RunningEvaluation.ram (record {
            time_ordered_eval = f.one_elem;
            addr_ordered_eval = f.one_elem;
            challenges = c;
          })))
        e

  current_leaf-first :
      (mem_type : MemType) (super_com : SuperCom) (l : ExecTreeLeaf F) (ls : List (ExecTreeLeaf F))
      → SameChallenges (Evaluation.new hash mem_type super_com) l.evals
      → current_leaf mem_type (l ∷ ls) 0 ≡ some (start mem_type super_com)
  unfolding current_leaf leaf_padding
  current_leaf-first mem_type super_com l ls s = rw (copy-SameChallenges mem_type super_com s) refl

  -- The leaf of a request is the leaf before it, counted from the start.
  pub current_leaf-start :
      (mem_type : MemType) (super_com : SuperCom) (tss xss : List (List (TranscriptEntry F)))
      (i : ℕ) {leaves : List (ExecTreeLeaf F)} {l : ExecTreeLeaf F}
      → exec_tree_leaves (Evaluation.new hash mem_type super_com) (padding mem_type) tss xss
        ≡ some leaves
      → get_elem? leaves i ≡ some l
      → current_leaf mem_type leaves i ≡ get_elem? (start mem_type super_com ∷ leaves) i
  unfolding current_leaf
  current_leaf-start mem_type super_com tss xss i {leaves = []} h p = absurd (ground arith)
  current_leaf-start mem_type super_com tss xss (suc i) {leaves = k ∷ ks} h p = refl
  current_leaf-start mem_type super_com tss xss zero {leaves = k ∷ ks} h p =
      current_leaf-first mem_type super_com k ks
        (exec_tree_leaves-SameChallenges _ _ tss xss 0 h refl)

  pub current_leaf-SameChallenges :
      (mem_type : MemType) (super_com : SuperCom) (tss xss : List (List (TranscriptEntry F)))
      (i : ℕ) {leaves : List (ExecTreeLeaf F)} {l : ExecTreeLeaf F}
      → exec_tree_leaves (Evaluation.new hash mem_type super_com) (padding mem_type) tss xss
        ≡ some leaves
      → current_leaf mem_type leaves i ≡ some l
      → SameChallenges (Evaluation.new hash mem_type super_com) l.evals
  unfolding current_leaf
  current_leaf-SameChallenges mem_type super_com tss xss (suc i) h p =
      exec_tree_leaves-SameChallenges _ _ tss xss i h p
  current_leaf-SameChallenges mem_type super_com tss xss zero {leaves = []} h p =
      absurd (ground arith)
  current_leaf-SameChallenges mem_type super_com tss xss zero {leaves = k ∷ ks} h p =
      let first = exec_tree_leaves-SameChallenges _ _ tss xss 0 h refl in
      let same = sym (current_leaf-first mem_type super_com k ks first) ∙ p in
      subst (λ x. SameChallenges (Evaluation.new hash mem_type super_com) x.evals)
        (some-injective _ _ same) (SameChallenges-refl _)

module _ {ℓ τ μ ν δ κ β γ σ} {F : Type ℓ} {Tree : Type τ} {MerklePath : Type μ} {Root : Type ν}
    {SuperCom : Type δ} {Params : Type κ} {Bytes : Type β} {Com : Type γ} {Seed : Type σ}
    ⦃f : PrimeField F⦄ (mt : MerkleTree F Tree MerklePath Root) (hash : String → SuperCom → F)
    (mem_type : MemType) where
  -- What the state of stage 1 is made of.
  pub record Built (s0 : CoordinatorStage0State F Params Bytes) (super_com : SuperCom)
      (s1 : CoordinatorStage1State F Params Bytes MerklePath Root Com Seed SuperCom)
      : Type (ℓ ⊔ τ ⊔ μ ⊔ ν ⊔ κ ⊔ β) where
    pub tree : Tree
    pub leaves :
        exec_tree_leaves
          (Evaluation.new hash mem_type super_com)
          (padding mem_type)
          s0.time_ordered_subtraces
          s0.addr_ordered_subtraces
        ≡ some s1.exec_leaves
    pub made : mt.new_tree (map leaf_to_field_elements s1.exec_leaves) ≡ some tree
    pub paths :
        collect_range (mt.generate_proof tree) 0 (length s0.time_ordered_subtraces)
        ≡ some s1.exec_tree_leaf_auth_paths
    pub root : s1.exec_tree_root ≡ mt.tree_root tree
    pub witnesses : s1.all_serialized_witnesses ≡ s0.all_serialized_witnesses
    pub params : s1.circ_params ≡ s0.circ_params

  stage1_new-Built :
      (s0 : CoordinatorStage0State F Params Bytes) (coms : List Com) (seeds : List Seed)
      (super_com : SuperCom)
      {s1 : CoordinatorStage1State F Params Bytes MerklePath Root Com Seed SuperCom}
      → stage1_new mt hash mem_type s0 coms seeds super_com ≡ some s1
      → Built s0 super_com s1
  unfolding stage1_new generate_exec_tree
  stage1_new-Built s0 coms seeds super_com h =
      let ((tree, ls), e, h') =
        bind-inv
          (generate_exec_tree mt hash mem_type super_com s0.time_ordered_subtraces
            s0.addr_ordered_subtraces)
          _ h in
      let (ls', r, e') = bind-inv (exec_tree_leaves _ _ _ _) _ e in
      let (tree', m, e'') = bind-inv (mt.new_tree _) _ e' in
      let (paths, p, h'') =
        bind-inv (collect_range (mt.generate_proof tree) 0 (length s0.time_ordered_subtraces)) _
          h' in
      let same : (tree', ls') ≡ (tree, ls) = some-injective _ _ e'' in
      subst (Built s0 super_com) (some-injective _ _ h'') (record {
        tree = tree;
        leaves = r ∙ ap (λ x. some x.1) same;
        made =
            ap (λ x. mt.new_tree (map leaf_to_field_elements x.1)) (sym same)
            ∙ m
            ∙ ap (λ x. some x.0) same;
        paths = p;
        root = refl;
        witnesses = refl;
        params = refl;
      })

  pub process_stage0_responses-Built :
      (commit_only_left : List Com → Option SuperCom) (s0 : CoordinatorStage0State F Params Bytes)
      (responses : List (Stage0Response Com Seed))
      {s1 : CoordinatorStage1State F Params Bytes MerklePath Root Com Seed SuperCom}
      → process_stage0_responses mt hash mem_type commit_only_left s0 responses ≡ some s1
      → (super_com : SuperCom) × Built s0 super_com s1
  unfolding process_stage0_responses
  process_stage0_responses-Built commit_only_left s0 responses h =
      let (super_com, e, h') = bind-inv (commit_only_left (collect_commitments responses).0) _ h in
      (super_com, stage1_new-Built s0 _ _ super_com h')
