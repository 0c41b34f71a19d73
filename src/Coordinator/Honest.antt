-- ===== src/Coordinator/Honest.antt =====
-- A run of a worker's ROM manager over a whole subtrace.
use mathlib.Core.Option.{some-injective}
use hekaton_system.Prelude.{
  ◌+◌, ◌≡◌, refl, ap, subst, ◌∙◌, true, some, bind-inv, List, [], ◌∷◌, map, arith, length,
  get_elem?,
}
use hekaton_system.Field.{PrimeField}
use hekaton_system.Transcript.{RomTranscriptEntry, TranscriptEntry, RunningEvaluation}
use hekaton_system.Transcript.Evaluation.{
  update_time_ordered, update_addr_ordered, new_rom_entry_var, new_entry_var,
}
use hekaton_system.Portal.{Access, reads, writes}
use hekaton_system.Portal.Rom.{RomProverPortalManager, prover_get, prover_set}
use hekaton_system.Portal.Rom.Coherence.{prover_run}
use hekaton_system.Subcircuit.{last_entry}
use hekaton_system.Coordinator.{eval_subtrace}
use hekaton_system.Coordinator.Replay.{
  Makes, Chained, At, At-tail, update_time-var, update_addr-var, coherence_check-Neighbours,
  prover_get-some,
}

module _ {ℓ} {F : Type ℓ} ⦃f : PrimeField F⦄ where
  abbrev pub roms : List (RomTranscriptEntry F) → List (TranscriptEntry F)
  roms es = map TranscriptEntry.rom es

  -- A manager whose traces, from its index on, are the subtraces, the address-ordered one after the
  -- entry before it.
  pub record Loaded (pm : RomProverPortalManager F) (last : RomTranscriptEntry F)
      (ts xs : List (RomTranscriptEntry F)) : Type ℓ where
    pub times : At pm.time_ordered_subtrace pm.next_entry_idx ts
    pub addresses : At pm.addr_ordered_subtrace pm.next_entry_idx (last ∷ xs)
    pub satisfied : pm.satisfied ≡ true

  -- One access, of which the coordinator's evaluation has these two updates.
  prover_get-replays :
      (pm : RomProverPortalManager F) (last t x : RomTranscriptEntry F)
      (ts xs : List (RomTranscriptEntry F)) {e' e'' : RunningEvaluation F}
      → Loaded pm last (t ∷ ts) (x ∷ xs)
      → Chained last (x ∷ xs)
      → update_time_ordered (RunningEvaluation.rom pm.running_evals) (TranscriptEntry.rom t)
        ≡ some e'
      → update_addr_ordered e' (TranscriptEntry.rom x) ≡ some e''
      → (pm' : RomProverPortalManager F) × (prover_get pm ≡ some (t.val, pm'))
        × Loaded pm' x ts xs
        × (e'' ≡ RunningEvaluation.rom pm'.running_evals)
  unfolding new_rom_entry_var
  prover_get-replays pm last t x ts xs {e'} {e''} l (Chained.chain_next n ch) u v =
      let (ev', p, same) = update_time-var pm.running_evals t u in
      let v' : update_addr_ordered (RunningEvaluation.rom ev') (TranscriptEntry.rom x) ≡ some e'' =
        subst (λ e. update_addr_ordered e (TranscriptEntry.rom x) ≡ some e'') same v in
      let (ev'', q, same') = update_addr-var ev' x v' in
      let here : pm.next_entry_idx ≡ pm.next_entry_idx + 0 = omega arith in
      (
        record pm {
          running_evals = ev'';
          next_entry_idx = pm.next_entry_idx + 1;
          satisfied = true;
        },
        prover_get-some pm (new_rom_entry_var t) (new_rom_entry_var last) (new_rom_entry_var x) ev'
            ev'' (ap (get_elem? pm.time_ordered_subtrace) here ∙ l.times 0 t refl)
            (ap (get_elem? pm.addr_ordered_subtrace) here ∙ l.addresses 0 last refl)
            (l.addresses 1 x refl) p q (coherence_check-Neighbours last x n) l.satisfied,
        record {
          times = At-tail pm.time_ordered_subtrace pm.next_entry_idx t ts l.times;
          addresses = At-tail pm.addr_ordered_subtrace pm.next_entry_idx last (x ∷ xs) l.addresses;
          satisfied = refl;
        },
        same',
      )

  prover_set-replays :
      (pm : RomProverPortalManager F) (last t x : RomTranscriptEntry F)
      (ts xs : List (RomTranscriptEntry F)) (v : F) {e' e'' : RunningEvaluation F}
      → v ≡ t.val
      → Loaded pm last (t ∷ ts) (x ∷ xs)
      → Chained last (x ∷ xs)
      → update_time_ordered (RunningEvaluation.rom pm.running_evals) (TranscriptEntry.rom t)
        ≡ some e'
      → update_addr_ordered e' (TranscriptEntry.rom x) ≡ some e''
      → (pm' : RomProverPortalManager F) × (prover_set v pm ≡ some pm')
        × Loaded pm' x ts xs
        × (e'' ≡ RunningEvaluation.rom pm'.running_evals)
  unfolding prover_set
  prover_set-replays pm last t x ts xs v e l ch u w =
      let (pm', g, l', same) = prover_get-replays pm last t x ts xs l ch u w in
      (
        record pm' { satisfied = true },
        rw (g, prover_set) (rw (l'.satisfied, (f.is_eq_iff v t.val).1 e) refl),
        record { times = l'.times; addresses = l'.addresses; satisfied = refl },
        same,
      )

  tail_chained :
      {x y : RomTranscriptEntry F} {ys : List (RomTranscriptEntry F)}
      → Chained x (y ∷ ys)
      → Chained y ys
  tail_chained (Chained.chain_next n c) = c

  -- A run over the accesses that made the time-ordered subtrace does not panic, satisfies the
  -- checks, and has the evaluations of the coordinator.
  pub prover_run-replays :
      (ops : List (Access F)) (pm : RomProverPortalManager F) (last : RomTranscriptEntry F)
      (ts xs : List (RomTranscriptEntry F)) {out : RunningEvaluation F × TranscriptEntry F}
      → Makes ops ts
      → length ts ≡ length xs
      → Loaded pm last ts xs
      → Chained last xs
      → eval_subtrace
          (RunningEvaluation.rom pm.running_evals)
          (TranscriptEntry.rom last)
          (roms ts)
          (roms xs)
        ≡ some out
      → (pm' : RomProverPortalManager F) × (prover_run ops pm ≡ some pm')
        × (pm'.satisfied ≡ true)
        × (out.0 ≡ RunningEvaluation.rom pm'.running_evals)
  unfolding prover_run eval_subtrace prover_set
  prover_run-replays [] pm last [] xs m len l ch h = (pm, refl, l.satisfied, cc)
  prover_run-replays ops pm last (t ∷ ts) [] m len l ch h = absurd (omega arith)
  prover_run-replays [] pm last (t ∷ ts) (x ∷ xs) m len l ch h = elim m [ ]
  prover_run-replays (op ∷ ops) pm last [] xs m len l ch h = elim m [ ]
  prover_run-replays (reads ∷ ops) pm last (t ∷ ts) (x ∷ xs) {out} (Makes.read m) len l ch h =
      let (e', u, h') = bind-inv (update_time_ordered _ _) _ h in
      let (e'', v, h'') = bind-inv (update_addr_ordered e' (TranscriptEntry.rom x)) _ h' in
      let (pm', g, l', same) = prover_get-replays pm last t x ts xs l ch u v in
      let (pm'', run, good, eq) =
        prover_run-replays ops pm' x ts xs m (omega arith) l' (tail_chained ch) (
          subst (λ e. eval_subtrace e (TranscriptEntry.rom x) (roms ts) (roms xs) ≡ some out) same
            h'') in
      (pm'', rw (g, prover_run) run, good, eq)
  prover_run-replays (writes v ∷ ops) pm last (t ∷ ts) (x ∷ xs) {out} (Makes.write e m) len l ch h =
      let (e', u, h') = bind-inv (update_time_ordered _ _) _ h in
      let (e'', w, h'') = bind-inv (update_addr_ordered e' (TranscriptEntry.rom x)) _ h' in
      let (pm', g, l', same) = prover_set-replays pm last t x ts xs v e l ch u w in
      let (pm'', run, good, eq) =
        prover_run-replays ops pm' x ts xs m (omega arith) l' (tail_chained ch) (
          subst (λ e. eval_subtrace e (TranscriptEntry.rom x) (roms ts) (roms xs) ≡ some out) same
            h'') in
      (pm'', rw (g, prover_run) run, good, eq)

  -- The last entry in the circuit is that of the coordinator's leaf.
  pub eval_subtrace-last_entry :
      (ev : RunningEvaluation F) (last : TranscriptEntry F) (ts xs : List (TranscriptEntry F))
      {out : RunningEvaluation F × TranscriptEntry F}
      → length ts ≡ length xs
      → eval_subtrace ev last ts xs ≡ some out
      → last_entry (new_entry_var last) (map new_entry_var xs) ≡ new_entry_var out.1
  unfolding eval_subtrace last_entry
  eval_subtrace-last_entry ev last [] [] len h =
      let same = some-injective _ _ h in ap (λ o. new_entry_var o.1) same
  eval_subtrace-last_entry ev last [] (x ∷ xs) len h = absurd (omega arith)
  eval_subtrace-last_entry ev last (t ∷ ts) [] len h = absurd (omega arith)
  eval_subtrace-last_entry ev last (t ∷ ts) (x ∷ xs) len h =
      let (e', u, h') = bind-inv (update_time_ordered ev t) _ h in
      let (e'', v, h'') = bind-inv (update_addr_ordered e' x) _ h' in
      eval_subtrace-last_entry e'' x ts xs (omega arith) h''
