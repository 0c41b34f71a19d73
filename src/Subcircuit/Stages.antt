-- ===== src/Subcircuit/Stages.antt =====
-- distributed-prover/src/subcircuit_circuit.rs: what an accepted stage 1 enforces.
use hekaton_system.Prelude.{
  ℕ, suc, ◌≡◌, ◌≢◌, ap, ◌∙◌, Bool, true, ◌&&◌, Option, some, bind-inv, and-inv, List, ◌∷◌, arith,
}
use hekaton_system.Field.{PrimeField}
use hekaton_system.Subcircuit.{
  ProverManager, CircuitWithPortals, SubcircuitWithPortalsProver, next_leaf, stage_one,
  first_leaf_check, last_leaf_check,
}
use hekaton_system.EvalTree.{ExecTreeLeafVar, new_leaf_var, leaf_to_constraint_field}
use hekaton_system.Transcript.{
  RunningEvaluation, set_challenges, time_ordered_eval, addr_ordered_eval,
}
use hekaton_system.Transcript.Evaluation.{is_padding}

module _ {ℓ} {F : Type ℓ} ⦃f : PrimeField F⦄ where
  is_eq_same : (a b : F) → a ≡ b → f.is_eq a b ≡ true
  is_eq_same a b = (f.is_eq_iff a b).1

  is_eq_path : (a b : F) → f.is_eq a b ≡ true → a ≡ b
  is_eq_path a b = (f.is_eq_iff a b).0

  abbrev pub StartsTrace : ℕ → ExecTreeLeafVar F → Type ℓ
  StartsTrace idx leaf =
      idx ≡ 0
      → (time_ordered_eval leaf.evals ≡ f.one_elem)
        × (addr_ordered_eval leaf.evals ≡ f.one_elem)
        × (is_padding leaf.last_subtrace_entry ≡ some true)

  abbrev pub EndsTrace : ℕ → ℕ → ExecTreeLeafVar F → Type ℓ
  EndsTrace idx num_subcircuits leaf =
      (num_subcircuits ≢ 0)
      × (suc idx ≡ num_subcircuits → time_ordered_eval leaf.evals ≡ addr_ordered_eval leaf.evals)

  first_leaf_check-StartsTrace :
      (idx : ℕ) (leaf : ExecTreeLeafVar F)
      → (first_leaf_check idx leaf ≡ some true)
      → StartsTrace idx leaf
  unfolding first_leaf_check
  first_leaf_check-StartsTrace idx leaf h z = ground (
    arith,
    is_eq_path (time_ordered_eval leaf.evals) f.one_elem,
    is_eq_path (addr_ordered_eval leaf.evals) f.one_elem,
  )

  StartsTrace-first_leaf_check :
      (idx : ℕ) (leaf : ExecTreeLeafVar F)
      → StartsTrace idx leaf
      → (first_leaf_check idx leaf ≡ some true)
  unfolding first_leaf_check
  StartsTrace-first_leaf_check idx leaf s = ground (
    arith,
    is_eq_same (time_ordered_eval leaf.evals) f.one_elem,
    is_eq_same (addr_ordered_eval leaf.evals) f.one_elem,
  )

  last_leaf_check-EndsTrace :
      (idx n : ℕ) (leaf : ExecTreeLeafVar F)
      → (last_leaf_check idx n leaf ≡ some true)
      → EndsTrace idx n leaf
  unfolding last_leaf_check
  last_leaf_check-EndsTrace idx n leaf h = (
    λ z. ground arith,
    λ z. ground (arith, is_eq_path (time_ordered_eval leaf.evals) (addr_ordered_eval leaf.evals)),
  )

  EndsTrace-last_leaf_check :
      (idx n : ℕ) (leaf : ExecTreeLeafVar F)
      → EndsTrace idx n leaf
      → (last_leaf_check idx n leaf ≡ some true)
  unfolding last_leaf_check
  EndsTrace-last_leaf_check idx n leaf s =
      ground (arith, is_eq_same (time_ordered_eval leaf.evals) (addr_ordered_eval leaf.evals))

module _ {ℓ κ μ ν σ} {F : Type ℓ} {P : Type κ} {MerklePath : Type μ} {Root : Type ν} {S : Type σ}
    ⦃f : PrimeField F⦄ (m : ProverManager F S) (c : CircuitWithPortals P S)
    (verify_membership : Root → MerklePath → List F → Bool) where
  -- What the constraints of stage 1 ask of the prover's assignment: the leaf before the first
  -- subcircuit is the default, the circuit's own constraints and its manager's hold, the leaf after
  -- the subcircuit is in the tree, and after the last one the evaluations agree.
  pub record IsAccepted (p : SubcircuitWithPortalsProver F P MerklePath Root)
      : Type (ℓ ⊔ κ ⊔ σ) where
    pub evals : RunningEvaluation F
    pub pm : S
    pub circ : P
    pub circ' : P
    pub pm' : S
    pub starts : StartsTrace p.subcircuit_idx (new_leaf_var p.cur_leaf)
    pub challenged : set_challenges (new_leaf_var p.cur_leaf).evals p.challenges ≡ some evals
    pub made :
        m.new_manager p.time_ordered_subtrace_var
          ((new_leaf_var p.cur_leaf).last_subtrace_entry ∷ p.addr_ordered_subtrace_var)
          evals
        ≡ some pm
    pub given : p.circ ≡ some circ
    pub ran : c.generate_constraints circ p.subcircuit_idx pm ≡ some (circ', pm', true)
    pub enforced : m.enforced pm' ≡ true
    pub member :
        verify_membership p.root p.next_leaf_membership
          (leaf_to_constraint_field (next_leaf m c verify_membership p pm'))
        ≡ true
    pub ends :
        EndsTrace p.subcircuit_idx (c.num_subcircuits circ') (next_leaf m c verify_membership p pm')

  -- The steps of an accepted run, put together.
  accept :
      (p p' : SubcircuitWithPortalsProver F P MerklePath Root) (first : Bool)
      (evals : RunningEvaluation F) (pm : S) (circ : P) (end : P × S × Bool) (last : Bool)
      → first_leaf_check p.subcircuit_idx (new_leaf_var p.cur_leaf) ≡ some first
      → set_challenges (new_leaf_var p.cur_leaf).evals p.challenges ≡ some evals
      → m.new_manager p.time_ordered_subtrace_var
          ((new_leaf_var p.cur_leaf).last_subtrace_entry ∷ p.addr_ordered_subtrace_var)
          evals
        ≡ some pm
      → p.circ ≡ some circ
      → c.generate_constraints circ p.subcircuit_idx pm ≡ some end
      → last_leaf_check p.subcircuit_idx
          (c.num_subcircuits end.0)
          (next_leaf m c verify_membership p end.1)
        ≡ some last
      → ◌≡◌ {A = Option (SubcircuitWithPortalsProver F P MerklePath Root × Bool)}
          (some (
            record p { circ = some end.0 },
            first
                && (end.2
                    && (m.enforced end.1
                        && (verify_membership p.root p.next_leaf_membership
                              (leaf_to_constraint_field (next_leaf m c verify_membership p end.1))
                            && last))),
          ))
          (some (p', true))
      → IsAccepted p
  accept p p' first evals pm circ (circ', pm', holds) last e₀ e₁ e₂ e₃ e₄ e₅ h =
      let member =
        verify_membership p.root p.next_leaf_membership
          (leaf_to_constraint_field (next_leaf m c verify_membership p pm')) in
      let v : (first && (holds && (m.enforced pm' && (member && last)))) ≡ true = cc in
      let (a, v₁) = and-inv first _ v in
      let (b, v₂) = and-inv holds _ v₁ in
      let (d, v₃) = and-inv (m.enforced pm') _ v₂ in
      let (e, l) = and-inv member _ v₃ in
      record {
        evals = evals;
        pm = pm;
        circ = circ;
        circ' = circ';
        pm' = pm';
        starts =
            first_leaf_check-StartsTrace p.subcircuit_idx (new_leaf_var p.cur_leaf)
              (e₀ ∙ ap some a);
        challenged = e₁;
        made = e₂;
        given = e₃;
        ran = e₄ ∙ ap (λ h. some (circ', pm', h)) b;
        enforced = d;
        member = e;
        ends =
            last_leaf_check-EndsTrace p.subcircuit_idx (c.num_subcircuits circ')
              (next_leaf m c verify_membership p pm') (e₅ ∙ ap some l);
      }

  pub stage_one-IsAccepted :
      (p p' : SubcircuitWithPortalsProver F P MerklePath Root)
      → stage_one m c verify_membership p ≡ some (p', true)
      → IsAccepted p
  unfolding stage_one
  stage_one-IsAccepted p p' h =
      let leaf = new_leaf_var p.cur_leaf in
      let (first, e₀, h₀) = bind-inv (first_leaf_check p.subcircuit_idx leaf) _ h in
      let (evals, e₁, h₁) = bind-inv (set_challenges leaf.evals p.challenges) _ h₀ in
      let (pm, e₂, h₂) =
        bind-inv
          (m.new_manager p.time_ordered_subtrace_var
            (leaf.last_subtrace_entry ∷ p.addr_ordered_subtrace_var) evals)
          _ h₁ in
      let (circ, e₃, h₃) = bind-inv p.circ _ h₂ in
      let (end, e₄, h₄) = bind-inv (c.generate_constraints circ p.subcircuit_idx pm) _ h₃ in
      let (last, e₅, h₅) =
        bind-inv
          (last_leaf_check p.subcircuit_idx (c.num_subcircuits end.0)
            (next_leaf m c verify_membership p end.1))
          _ h₄ in
      accept p p' first evals pm circ end last e₀ e₁ e₂ e₃ e₄ e₅ h₅

  pub IsAccepted-stage_one :
      (p : SubcircuitWithPortalsProver F P MerklePath Root) (a : IsAccepted p)
      → stage_one m c verify_membership p ≡ some (record p { circ = some a.circ' }, true)
  unfolding stage_one
  IsAccepted-stage_one p a = rw (
    StartsTrace-first_leaf_check p.subcircuit_idx (new_leaf_var p.cur_leaf) a.starts,
    a.challenged,
    a.made,
    a.given,
    a.ran,
    EndsTrace-last_leaf_check p.subcircuit_idx (c.num_subcircuits a.circ')
        (next_leaf m c verify_membership p a.pm') a.ends,
    a.enforced,
    a.member,
  )
