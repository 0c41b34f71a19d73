-- ===== src/Vkd/Constraints/Run.antt =====
-- vkd/vkd_constraints.rs: the run of the subcircuits.
use hekaton_system.Prelude.{
  ℕ, zero, suc, ◌+◌, ◌≡◌, subst, ap, ◌∙◌, Bool, true, some, bind-inv, and-inv, List, [], ◌∷◌,
  get_elem?, arith, All, All-imp, ℕ_discrete, ◌≤◌, ◌<◌,
}
use hekaton_system.Field.{PrimeField}
use hekaton_system.Portal.Rom.{start_subtrace}
use hekaton_system.SparseTree.{Bytes}
use hekaton_system.Vkd.Layout.{SubCircuit}
use hekaton_system.Vkd.Constraints.{
  KeyDirectory, Setup, setup, primitive_constraints, subcircuit_constraints, generate_constraints,
  run_subcircuits,
}
use hekaton_system.Vkd.Constraints.Satisfied.{Later, AllFit, Sat, Sat-Later, SetsRoots}
use hekaton_system.Vkd.Constraints.Primitives.{primitive-Done}

module _ {ℓ} {F : Type ℓ} ⦃f : PrimeField F⦄ (hash : Bytes → Bytes)
    (hash_inner_node_var : F → F → F) (to_bits_le : F → List Bool) (depth : ℕ)
    (c : KeyDirectory) where
  abbrev pub Roots : SubCircuit → Type 0
  Roots sc = All (SetsRoots hash hash_inner_node_var to_bits_le depth) sc

  abbrev pub Sats : Setup F → SubCircuit → Type ℓ
  Sats pm sc = All (Sat hash hash_inner_node_var to_bits_le depth c pm) sc

  abbrev AllDone : SubCircuit → Setup F → Setup F → Type ℓ
  AllDone sc pm pm' = Sats pm' sc × Later pm pm' × AllFit hash depth pm'

  subcircuit-Done :
      (sc : SubCircuit) (pm pm' : Setup F)
      → Roots sc
      → subcircuit_constraints hash hash_inner_node_var to_bits_le depth setup c sc pm
        ≡ some (pm', true)
      → AllFit hash depth pm
      → AllDone sc pm pm'
  unfolding subcircuit_constraints
  subcircuit-Done [] pm pm' r h all =
      let last : pm ≡ pm' = ground arith in rw (← last) (tt, λ k v q. q, all)
  subcircuit-Done (p ∷ ps) pm pm' (r, rs) h all =
      let ((s1, a), g1, h1) =
        bind-inv (primitive_constraints hash hash_inner_node_var to_bits_le depth setup c p pm) _
          h in
      let ((s2, b), g2, h2) =
        bind-inv (subcircuit_constraints hash hash_inner_node_var to_bits_le depth setup c ps s1) _
          h1 in
      let (ta, tb) = and-inv a b (ground arith) in
      let last : s2 ≡ pm' = ground arith in
      let (sat, ext, all1) =
        primitive-Done hash hash_inner_node_var to_bits_le depth c p pm s1 r
          (g1 ∙ ap (λ x. some (s1, x)) ta) all in
      let (sats, ext', all2) = subcircuit-Done ps s1 s2 rs (g2 ∙ ap (λ x. some (s2, x)) tb) all1 in
      subst (AllDone (p ∷ ps) pm) last (
        (Sat-Later hash hash_inner_node_var to_bits_le depth c s1 s2 p ext' sat, sats),
        λ k v q. ext' k v (ext k v q),
        all2,
      )

  -- What the subcircuits from an index on leave.
  abbrev SatsFrom : Setup F → ℕ → ℕ → Type ℓ
  SatsFrom pm idx left =
      (j : ℕ) (sc : SubCircuit)
      → idx ≤ j
      → j < idx + left
      → get_elem? c.subcircuits j ≡ some sc
      → Sats pm sc

  Sats-Later : (pm pm' : Setup F) (sc : SubCircuit) → Later pm pm' → Sats pm sc → Sats pm' sc
  Sats-Later pm pm' sc ext =
      All-imp (Sat hash hash_inner_node_var to_bits_le depth c pm)
        (Sat hash hash_inner_node_var to_bits_le depth c pm')
        (λ p. Sat-Later hash hash_inner_node_var to_bits_le depth c pm pm' p ext) sc

  abbrev pub RunDone : ℕ → ℕ → Setup F → Setup F → Type ℓ
  RunDone idx left pm pm' = SatsFrom pm' idx left × Later pm pm' × AllFit hash depth pm'

  -- Let the subcircuits from an index on run without a panic with the coordinator's manager, every
  -- constraint holding, where each sends the roots of its paths to wires for roots. Then in the end
  -- the wires satisfy every primitive of these subcircuits, and a wire keeps its value.
  pub run_subcircuits-Sats :
      (idx left : ℕ) (pm pm' : Setup F)
      → ((j : ℕ) (sc : SubCircuit) → get_elem? c.subcircuits j ≡ some sc → Roots sc)
      → run_subcircuits hash hash_inner_node_var to_bits_le depth c idx left pm ≡ some (pm', true)
      → AllFit hash depth pm
      → RunDone idx left pm pm'
  unfolding run_subcircuits generate_constraints start_subtrace
  run_subcircuits-Sats idx zero pm pm' roots h all =
      let last : pm ≡ pm' = ground arith in
      rw (← last) (λ j sc p q g. absurd (omega arith), λ k v q. q, all)
  run_subcircuits-Sats idx (suc left) pm pm' roots h all =
      let ((s1, a), g1, h1) =
        bind-inv
          (generate_constraints hash hash_inner_node_var to_bits_le depth setup c idx
            (start_subtrace pm))
          _ h in
      let (sc, e, g2) = bind-inv (get_elem? c.subcircuits idx) _ g1 in
      let ((s2, b), g3, h2) =
        bind-inv (run_subcircuits hash hash_inner_node_var to_bits_le depth c (idx + 1) left s1) _
          h1 in
      let (ta, tb) = and-inv a b (ground arith) in
      let last : s2 ≡ pm' = ground arith in
      let (sats, ext, all1) =
        subcircuit-Done sc (start_subtrace pm) s1 (roots idx sc e) (g2 ∙ ap (λ x. some (s1, x)) ta)
          all in
      let (rest, ext', all2) =
        run_subcircuits-Sats (idx + 1) left s1 s2 roots (g3 ∙ ap (λ x. some (s2, x)) tb) all1 in
      subst (RunDone idx (suc left) pm) last (
        λ j sc' p q g. elim (ℕ_discrete j idx) [
          | yes same ↦ let is : sc' ≡ sc = ground arith in rw is (Sats-Later s1 s2 sc ext' sats)
          | no ne ↦ rest j sc' (omega arith) (omega arith) g
        ],
        λ k v q. ext' k v (ext k v q),
        all2,
      )
