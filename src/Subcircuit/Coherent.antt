-- ===== src/Subcircuit/Coherent.antt =====
-- distributed-prover/src/subcircuit_circuit.rs over the ROM manager: an accepted subcircuit and the
-- consistency of its address-ordered trace.
use hekaton_system.Prelude.{
  ℕ, ◌+◌, ◌≤◌, ◌<◌, ◌≡◌, true, Bool, some, List, ◌∷◌, length, get_elem?, arith,
}
use hekaton_system.Field.{PrimeField}
use hekaton_system.EvalTree.{new_leaf_var}
use hekaton_system.Transcript.{TranscriptEntryVar, RunningEvaluation, RomTranscriptEntryVar}
use hekaton_system.Portal.{Access}
use hekaton_system.Portal.Rom.{RomProverPortalManager, new_prover, convert_entries}
use hekaton_system.Portal.Rom.Coherence.{prover_run, prover_run-coherent}
use hekaton_system.Subcircuit.{
  CircuitWithPortals, SubcircuitWithPortalsProver, rom_prover, stage_one,
}
use hekaton_system.Subcircuit.Stages.{stage_one-IsAccepted}

module _ {ℓ} {F : Type ℓ} where
  new_prover-trace :
      (time addr : List (TranscriptEntryVar F)) (evals : RunningEvaluation F)
      (pm : RomProverPortalManager F) (trace : List (RomTranscriptEntryVar F))
      → new_prover time addr evals ≡ some pm
      → convert_entries addr ≡ some trace
      → (pm.addr_ordered_subtrace ≡ trace) × (pm.next_entry_idx ≡ 0)
  unfolding new_prover
  new_prover-trace time addr evals pm trace h e = (ground arith, ground arith)

module _ {ℓ κ μ ν} {F : Type ℓ} {P : Type κ} {MerklePath : Type μ} {Root : Type ν}
    ⦃f : PrimeField F⦄ (c : CircuitWithPortals P (RomProverPortalManager F))
    (verify_membership : Root → MerklePath → List F → Bool) where
  -- The circuit uses the manager for its `n` accesses only.
  abbrev pub MakesAccesses : ℕ → ℕ → Type (ℓ ⊔ κ)
  MakesAccesses idx n =
      (circ circ' : P) (pm pm' : RomProverPortalManager F)
      → c.generate_constraints circ idx pm ≡ some (circ', pm', true)
      → (ops : List (Access F)) × (length ops ≡ n) × (prover_run ops pm ≡ some pm')

  -- Let stage 1 of a ROM subcircuit, whose circuit makes `n` accesses, return with all constraints
  -- holding. Let the leaf before it end in an entry at the number `a`, the field being larger than
  -- `a + n`. Then in that entry followed by the address-ordered subtrace, any two of the first
  -- `n + 1` entries that have equal addresses have equal values.
  pub stage_one-coherent :
      (p p' : SubcircuitWithPortalsProver F P MerklePath Root) (n a i j : ℕ)
      (trace : List (RomTranscriptEntryVar F)) (first x y : RomTranscriptEntryVar F)
      → MakesAccesses p.subcircuit_idx n
      → stage_one rom_prover c verify_membership p ≡ some (p', true)
      → convert_entries
          ((new_leaf_var p.cur_leaf).last_subtrace_entry ∷ p.addr_ordered_subtrace_var)
        ≡ some trace
      → get_elem? trace 0 ≡ some first
      → first.addr ≡ f.from_uint a
      → a + n < f.modulus
      → i ≤ j
      → j ≤ n
      → get_elem? trace i ≡ some x
      → get_elem? trace j ≡ some y
      → x.addr ≡ y.addr
      → x.val ≡ y.val
  stage_one-coherent p p' n a i j trace first x y uses h conv g₀ ea small q r gx gy e =
      let s = stage_one-IsAccepted rom_prover c verify_membership p p' h in
      let (ops, len, run) = uses s.circ s.circ' s.pm s.pm' s.ran in
      let (t, z) =
        new_prover-trace p.time_ordered_subtrace_var
          ((new_leaf_var p.cur_leaf).last_subtrace_entry ∷ p.addr_ordered_subtrace_var) s.evals s.pm
          trace s.made conv in
      let (zi, zj) : (0 + i ≡ i) × (0 + j ≡ j) = (omega arith, omega arith) in
      prover_run-coherent ops s.pm a i j first x y run s.enforced (rw (t, z) g₀) ea (rw len small) q
        (rw len r) (rw (t, z, zi) gx) (rw (t, z, zj) gy) e
