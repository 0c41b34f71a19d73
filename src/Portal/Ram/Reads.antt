-- ===== src/Portal/Ram/Reads.antt =====
-- The memory checks of the RAM manager within a subcircuit.
use hekaton_system.Prelude.{
  ℕ, suc, ◌+◌, ◌≤◌, ◌<◌, ◌≡◌, sym, ap, ◌∙◌, Bool, true, false, Bool-cases, Option-cases, ◌⊎◌, inl,
  inr, none, some, List, [], ◌∷◌, arith, length, get_elem?, ℕ_discrete, ltb→lt,
}
use hekaton_system.Uint32.{representation}
use hekaton_system.Uint32.Compare.{is_greater_than-representation}
use hekaton_system.Field.{PrimeField}
use hekaton_system.Transcript.{RamTranscriptEntryVar}
use hekaton_system.Portal.{Access, reads, writes}
use hekaton_system.Portal.Ram.{
  RamProverPortalManager, memory_check, address_step, prover_get, prover_set,
}
use hekaton_system.Portal.Ram.Boundary.{prover_run}

module _ {ℓ} {F : Type ℓ} ⦃f : PrimeField F⦄ where
  -- The check of the entry at an index and the next one, which is made if there is a next one.
  abbrev step_at : List (RamTranscriptEntryVar F) → ℕ → Bool
  step_at trace j = elim (get_elem? trace j) [
    | none ↦ false
    | some x ↦ address_step x (get_elem? trace (j + 1))
  ]

  record Moves (pm pm' : RamProverPortalManager F) : Type ℓ where
    trace : pm'.addr_ordered_subtrace ≡ pm.addr_ordered_subtrace
    index : pm'.next_entry_idx ≡ pm.next_entry_idx + 1
    before : pm'.satisfied ≡ true → pm.satisfied ≡ true
    checked : pm'.satisfied ≡ true → step_at pm.addr_ordered_subtrace pm'.next_entry_idx ≡ true

  prover_get-Moves :
      (carry : Bool) (pm : RamProverPortalManager F) {v : F} {pm' : RamProverPortalManager F}
      → prover_get carry pm ≡ some (v, pm')
      → Moves pm pm'
  unfolding prover_get
  prover_get-Moves carry pm {v} {pm'} h =
      let two : get_elem? pm.addr_ordered_subtrace (pm.next_entry_idx + 1 + 1)
          ≡ get_elem? pm.addr_ordered_subtrace (pm.next_entry_idx + 2) =
        ap (get_elem? pm.addr_ordered_subtrace) (omega arith) in
      record {
        trace = ground arith;
        index = ground arith;
        before = ground arith;
        checked = ground arith;
      }

  prover_set-Moves :
      (carry : Bool) (v : F) (pm : RamProverPortalManager F) {pm' : RamProverPortalManager F}
      → prover_set carry v pm ≡ some pm'
      → Moves pm pm'
  unfolding prover_set
  prover_set-Moves carry v pm {pm'} h = elim (Option-cases (prover_get carry pm)) [
    | inl e ↦ ground arith
    | inr ((t, pm₁), e) ↦
        let m = prover_get-Moves carry pm e in
        record {
          trace = ground (arith, m.trace);
          index = ground (arith, m.index);
          before = ground (arith, m.before);
          checked = ground (arith, m.checked);
        }
  ]

  -- The checks from the `n` positions after an index.
  abbrev Checks : List (RamTranscriptEntryVar F) → ℕ → ℕ → Type 0
  Checks trace i n = (j : ℕ) → i < j → j ≤ i + n → step_at trace j ≡ true

  run_step :
      {pm pm' : RamProverPortalManager F} (n : ℕ)
      → Moves pm pm'
      → (pm'.satisfied ≡ true) × Checks pm'.addr_ordered_subtrace pm'.next_entry_idx n
      → (pm.satisfied ≡ true) × Checks pm.addr_ordered_subtrace pm.next_entry_idx (suc n)
  run_step {pm} {pm'} n m (s, c) = (m.before s, checks)
    where
      checks : Checks pm.addr_ordered_subtrace pm.next_entry_idx (suc n)
      checks j p q = elim (ℕ_discrete j pm'.next_entry_idx) [
        | yes e ↦ rw e (m.checked s)
        | no ne ↦ rw m.trace at (c j (omega (arith, m.index)) (omega (arith, m.index)))
      ]

  prover_run-Checks :
      (ops : List (Bool × Access F)) (pm : RamProverPortalManager F)
      {pm' : RamProverPortalManager F}
      → prover_run ops pm ≡ some pm'
      → pm'.satisfied ≡ true
      → (pm.satisfied ≡ true) × Checks pm.addr_ordered_subtrace pm.next_entry_idx (length ops)
  unfolding prover_run
  prover_run-Checks [] pm e s = (ground arith, λ j p q. absurd (omega arith))
  prover_run-Checks ((c, reads) ∷ ops) pm {pm'} e s = elim (Option-cases (prover_get c pm)) [
    | inl n ↦ ground arith
    | inr ((t, pm₁), g) ↦
        run_step (length ops) (prover_get-Moves c pm g)
          (prover_run-Checks ops pm₁ {pm' = pm'} (ground arith) s)
  ]
  prover_run-Checks ((c, writes v) ∷ ops) pm {pm'} e s = elim (Option-cases (prover_set c v pm)) [
    | inl n ↦ ground arith
    | inr (pm₁, g) ↦
        run_step (length ops) (prover_set-Moves c v pm g)
          (prover_run-Checks ops pm₁ {pm' = pm'} (ground arith) s)
  ]

  -- An entry and the next one: the same address at a later time, a read keeping the value, or the
  -- next address and a write.
  abbrev pub MemoryStep : RamTranscriptEntryVar F → RamTranscriptEntryVar F → Type ℓ
  MemoryStep x y =
      ((y.addr ≡ x.addr)
        × (representation x.i < representation y.i)
        × ((y.read ≡ false) ⊎ (y.val ≡ x.val)))
      ⊎ ((y.addr ≡ f.add x.addr f.one_elem) × (y.read ≡ false))

  memory_check-MemoryStep :
      (x y : RamTranscriptEntryVar F)
      → length y.i.bits ≡ length x.i.bits
      → memory_check x y ≡ true
      → MemoryStep x y
  unfolding memory_check
  memory_check-MemoryStep x y l h = elim (Bool-cases (f.is_eq y.addr x.addr)) [
    | inl e ↦ inl (
      (f.is_eq_iff _ _).0 e,
      ltb→lt _ _ (sym (is_greater_than-representation y.i x.i l) ∙ ground arith),
      elim (Bool-cases y.read) [ inl r ↦ inr ((f.is_eq_iff _ _).0 (ground arith)) | inr r ↦ inl r ],
    )
    | inr e ↦ inr ((f.is_eq_iff _ _).0 (ground arith), ground arith)
  ]

  -- Let a subcircuit make its accesses with a RAM prover's manager, under any carry witnesses. If
  -- everything enforced holds afterwards, each entry of the address-ordered trace that an access
  -- took and the entry after it, where their counters are equally wide, are a memory step.
  pub prover_run-MemoryStep :
      (ops : List (Bool × Access F)) (pm : RamProverPortalManager F)
      {pm' : RamProverPortalManager F} (j : ℕ) (x y : RamTranscriptEntryVar F)
      → prover_run ops pm ≡ some pm'
      → pm'.satisfied ≡ true
      → pm.next_entry_idx < j
      → j ≤ pm.next_entry_idx + length ops
      → get_elem? pm.addr_ordered_subtrace j ≡ some x
      → get_elem? pm.addr_ordered_subtrace (j + 1) ≡ some y
      → length y.i.bits ≡ length x.i.bits
      → MemoryStep x y
  unfolding address_step
  prover_run-MemoryStep ops pm j x y run s p q gx gy l =
      let step : step_at pm.addr_ordered_subtrace j ≡ true =
        (prover_run-Checks ops pm run s).1 j p q in
      memory_check-MemoryStep x y l (ground arith)
