-- ===== src/Coordinator/Replay.antt =====
-- A worker's ROM manager against the coordinator's evaluation of the same subtrace: what one access
-- does, and a run over all of them.
use hekaton_system.Prelude.{
  ℕ, suc, ◌+◌, ◌<◌, ◌≡◌, refl, sym, ap, ◌∙◌, ◌⊎◌, inl, inr, true, Bool-cases, some, List, [], ◌∷◌,
  arith, get_elem?,
}
use hekaton_system.Field.{PrimeField}
use hekaton_system.Transcript.{
  RomTranscriptEntry, TranscriptEntry, RomTranscriptEntryVar, RomRunningEvaluation,
  RunningEvaluation,
}
use hekaton_system.Transcript.Evaluation.{
  update_time_ordered, update_addr_ordered, rom_update_time_ordered, rom_update_addr_ordered,
  rom_var_update_time_ordered, rom_var_update_addr_ordered, new_rom_entry_var,
}
use hekaton_system.Transcript.Product.{weight}
use hekaton_system.Portal.{Access, reads, writes}
use hekaton_system.Portal.Rom.{RomProverPortalManager, prover_get, coherence_check}

-- The accesses of a subcircuit that make these entries: a write has the entry's value.
pub data Makes {ℓ} {F : Type ℓ} : List (Access F) → List (RomTranscriptEntry F) → Type ℓ where
  done : Makes [] []
  read :
      {ops : List (Access F)} {t : RomTranscriptEntry F} {ts : List (RomTranscriptEntry F)}
      → Makes ops ts
      → Makes (reads ∷ ops) (t ∷ ts)
  write :
      {v : F} {ops : List (Access F)} {t : RomTranscriptEntry F} {ts : List (RomTranscriptEntry F)}
      → v ≡ t.val
      → Makes ops ts
      → Makes (writes v ∷ ops) (t ∷ ts)

module _ {ℓ} {F : Type ℓ} ⦃f : PrimeField F⦄ where
  -- What the read-only checks ask of neighbours in the address order.
  abbrev pub Neighbours : RomTranscriptEntry F → RomTranscriptEntry F → Type ℓ
  Neighbours x y =
      ((y.addr ≡ x.addr) × (y.val ≡ x.val)) ⊎ ((y.addr ≡ x.addr + 1) × (y.addr < f.modulus))

  -- From the entry before them on, the entries are neighbours.
  pub data Chained : RomTranscriptEntry F → List (RomTranscriptEntry F) → Type ℓ where
    chain_end : {x : RomTranscriptEntry F} → Chained x []
    chain_next :
        {x y : RomTranscriptEntry F} {ys : List (RomTranscriptEntry F)}
        → Neighbours x y
        → Chained y ys
        → Chained x (y ∷ ys)

  pub coherence_check-Neighbours :
      (x y : RomTranscriptEntry F)
      → Neighbours x y
      → coherence_check (new_rom_entry_var x) (new_rom_entry_var y) ≡ true
  unfolding coherence_check new_rom_entry_var
  coherence_check-Neighbours x y (inl (a, v)) = ground (
    arith,
    (f.is_eq_iff (f.from_uint y.addr) (f.from_uint x.addr)).1 (ap f.from_uint a),
    (f.is_eq_iff x.val y.val).1 (sym v),
  )
  coherence_check-Neighbours x y (inr (a, small)) =
      let next : f.from_uint y.addr ≡ f.add (f.from_uint x.addr) f.one_elem =
        ap f.from_uint a
        ∙ f.from_uint-add x.addr 1
        ∙ ap (f.add (f.from_uint x.addr)) f.from_uint-one in
      elim (Bool-cases (f.is_eq (f.from_uint y.addr) (f.from_uint x.addr))) [
        | inl e ↦
            let same =
              f.from_uint-injective y.addr x.addr small (omega arith) ((f.is_eq_iff _ _).0 e) in
            absurd (omega arith)
        | inr e ↦ ground (arith, (f.is_eq_iff _ _).1 next)
      ]

  pub update_time-var :
      (ev : RomRunningEvaluation F) (t : RomTranscriptEntry F) {out : RunningEvaluation F}
      → update_time_ordered (RunningEvaluation.rom ev) (TranscriptEntry.rom t) ≡ some out
      → (ev' : RomRunningEvaluation F) × (rom_var_update_time_ordered ev (new_rom_entry_var t)
          ≡ some ev')
        × (out ≡ RunningEvaluation.rom ev')
  unfolding update_time_ordered rom_update_time_ordered rom_var_update_time_ordered
      new_rom_entry_var
  update_time-var ev t h = (
    record ev {
      time_ordered_eval =
          f.mul ev.time_ordered_eval (weight (RunningEvaluation.rom ev) (TranscriptEntry.rom t));
    },
    ground arith,
    ground arith,
  )

  pub update_addr-var :
      (ev : RomRunningEvaluation F) (t : RomTranscriptEntry F) {out : RunningEvaluation F}
      → update_addr_ordered (RunningEvaluation.rom ev) (TranscriptEntry.rom t) ≡ some out
      → (ev' : RomRunningEvaluation F) × (rom_var_update_addr_ordered ev (new_rom_entry_var t)
          ≡ some ev')
        × (out ≡ RunningEvaluation.rom ev')
  unfolding update_addr_ordered rom_update_addr_ordered rom_var_update_addr_ordered
      new_rom_entry_var
  update_addr-var ev t h = (
    record ev {
      addr_ordered_eval =
          f.mul ev.addr_ordered_eval (weight (RunningEvaluation.rom ev) (TranscriptEntry.rom t));
    },
    ground arith,
    ground arith,
  )

  -- The entries stand in a trace from an index on.
  abbrev pub At : List (RomTranscriptEntryVar F) → ℕ → List (RomTranscriptEntry F) → Type ℓ
  At trace i es =
      (j : ℕ) (e : RomTranscriptEntry F)
      → get_elem? es j ≡ some e
      → get_elem? trace (i + j) ≡ some (new_rom_entry_var e)

  pub At-tail :
      (trace : List (RomTranscriptEntryVar F)) (i : ℕ) (e : RomTranscriptEntry F)
      (es : List (RomTranscriptEntry F))
      → At trace i (e ∷ es)
      → At trace (i + 1) es
  At-tail trace i e es at j x h = ap (get_elem? trace) (omega arith) ∙ at (suc j) x h

  pub prover_get-some :
      (pm : RomProverPortalManager F) (time current next : RomTranscriptEntryVar F)
      (ev ev' : RomRunningEvaluation F)
      → get_elem? pm.time_ordered_subtrace pm.next_entry_idx ≡ some time
      → get_elem? pm.addr_ordered_subtrace pm.next_entry_idx ≡ some current
      → get_elem? pm.addr_ordered_subtrace (pm.next_entry_idx + 1) ≡ some next
      → rom_var_update_time_ordered pm.running_evals time ≡ some ev
      → rom_var_update_addr_ordered ev next ≡ some ev'
      → coherence_check current next ≡ true
      → pm.satisfied ≡ true
      → prover_get pm
        ≡ some (
          time.val,
          record pm {
            running_evals = ev';
            next_entry_idx = pm.next_entry_idx + 1;
            satisfied = true;
          },
        )
  unfolding prover_get
  prover_get-some pm time current next ev ev' a b d u v c s =
      rw (a, prover_get)
        (rw (b, prover_get)
          (rw (u, prover_get) (rw (d, prover_get) (rw (v, prover_get) (rw (c, s) refl)))))
