-- ===== src/Portal/Rom/Total.antt =====
-- Runs of the ROM prover's manager that do not panic.
use hekaton_system.Prelude.{
  ◌&&◌, ℕ, zero, suc, ◌+◌, ◌≤◌, ◌<◌, ◌≡◌, refl, ap, some, Option, List, [], ◌∷◌, arith, length,
  get_elem?,
}
use hekaton_system.Field.{PrimeField}
use hekaton_system.Transcript.{RomTranscriptEntryVar, RomRunningEvaluation}
use hekaton_system.Transcript.Evaluation.{rom_var_update_time_ordered, rom_var_update_addr_ordered}
use hekaton_system.Portal.{Access, reads, writes}
use hekaton_system.Portal.Rom.{RomProverPortalManager, prover_get, prover_set, coherence_check}
use hekaton_system.Portal.Rom.Coherence.{prover_run}

module _ {ℓ} {F : Type ℓ} ⦃f : PrimeField F⦄ where
  get_elem?-some :
      (l : List (RomTranscriptEntryVar F)) (i : ℕ)
      → i < length l
      → (e : RomTranscriptEntryVar F) × (get_elem? l i ≡ some e)
  get_elem?-some [] i b = absurd (omega arith)
  get_elem?-some (x ∷ l) zero b = (x, refl)
  get_elem?-some (x ∷ l) (suc i) b = get_elem?-some l i (omega arith)

  -- The manager has its challenges and enough entries for `n` accesses.
  record Ready (n : ℕ) (pm : RomProverPortalManager F) : Type ℓ where
    pub challenges : F × F
    pub given : pm.running_evals.challenges ≡ some challenges
    pub times : pm.next_entry_idx + n ≤ length pm.time_ordered_subtrace
    pub addresses : pm.next_entry_idx + n < length pm.addr_ordered_subtrace

  update_time-some :
      (ev : RomRunningEvaluation F) (e : RomTranscriptEntryVar F) (cs : F × F)
      → ev.challenges ≡ some cs
      → (out : RomRunningEvaluation F) × (rom_var_update_time_ordered ev e ≡ some out)
        × (out.challenges ≡ some cs)
  unfolding rom_var_update_time_ordered
  update_time-some ev e cs h = (
    record ev {
      time_ordered_eval = f.mul ev.time_ordered_eval (f.sub cs.1 (f.add e.val (f.mul cs.0 e.addr)));
    },
    rw (h, rom_var_update_time_ordered)
        (ap
          (λ (c : Option (F × F)). some (record ev {
            time_ordered_eval =
                f.mul ev.time_ordered_eval (f.sub cs.1 (f.add e.val (f.mul cs.0 e.addr)));
            challenges = c;
          }))
          h),
    h,
  )

  update_addr-some :
      (ev : RomRunningEvaluation F) (e : RomTranscriptEntryVar F) (cs : F × F)
      → ev.challenges ≡ some cs
      → (out : RomRunningEvaluation F) × (rom_var_update_addr_ordered ev e ≡ some out)
        × (out.challenges ≡ some cs)
  unfolding rom_var_update_addr_ordered
  update_addr-some ev e cs h = (
    record ev {
      addr_ordered_eval = f.mul ev.addr_ordered_eval (f.sub cs.1 (f.add e.val (f.mul cs.0 e.addr)));
    },
    rw (h, rom_var_update_addr_ordered)
        (ap
          (λ (c : Option (F × F)). some (record ev {
            addr_ordered_eval =
                f.mul ev.addr_ordered_eval (f.sub cs.1 (f.add e.val (f.mul cs.0 e.addr)));
            challenges = c;
          }))
          h),
    h,
  )

  prover_get-Ready :
      (n : ℕ) (pm : RomProverPortalManager F)
      → Ready (suc n) pm
      → (v : F) × (pm' : RomProverPortalManager F) × (prover_get pm ≡ some (v, pm')) × Ready n pm'
  unfolding prover_get
  prover_get-Ready n pm r =
      let i = pm.next_entry_idx in
      let (ct, pt) = get_elem?-some pm.time_ordered_subtrace i (omega (arith, r.times)) in
      let (ca, pa) = get_elem?-some pm.addr_ordered_subtrace i (omega (arith, r.addresses)) in
      let (na, pn) = get_elem?-some pm.addr_ordered_subtrace (i + 1) (omega (arith, r.addresses)) in
      let (ev, pe, ce) = update_time-some pm.running_evals ct r.challenges r.given in
      let (ev', pe', ce') = update_addr-some ev na r.challenges ce in
      (
        ct.val,
        record pm {
          running_evals = ev';
          next_entry_idx = i + 1;
          satisfied = pm.satisfied && coherence_check ca na;
        },
        rw (pt, prover_get)
            (rw (pa, prover_get)
              (rw (pe, prover_get) (rw (pn, prover_get) (rw (pe', prover_get) refl)))),
        record {
          challenges = r.challenges;
          given = ce';
          times = omega (arith, r.times);
          addresses = omega (arith, r.addresses);
        },
      )

  prover_run-Ready :
      (ops : List (Access F)) (pm : RomProverPortalManager F)
      → Ready (length ops) pm
      → (out : RomProverPortalManager F) × (prover_run ops pm ≡ some out)
  unfolding prover_run prover_set
  prover_run-Ready [] pm r = (pm, refl)
  prover_run-Ready (reads ∷ ops) pm r =
      let (v, pm', p, r') = prover_get-Ready (length ops) pm r in
      let (out, q) = prover_run-Ready ops pm' r' in (out, rw (p, prover_run) q)
  prover_run-Ready (writes w ∷ ops) pm r =
      let (v, pm', p, r') = prover_get-Ready (length ops) pm r in
      let set_to : RomProverPortalManager F = record pm' {
        satisfied = pm'.satisfied && f.is_eq w v;
      } in
      let s : prover_set w pm ≡ some set_to = rw (p, prover_set) refl in
      let (out, q) = prover_run-Ready ops set_to (record {
        challenges = r'.challenges;
        given = r'.given;
        times = r'.times;
        addresses = r'.addresses;
      }) in
      (out, rw (s, prover_run) q)

  -- A prover's manager whose challenges are set, with as many time-ordered entries ahead as there
  -- are accesses and one address-ordered entry more, runs all the accesses without a panic.
  pub prover_run-some :
      (ops : List (Access F)) (pm : RomProverPortalManager F) (challenges : F × F)
      → pm.running_evals.challenges ≡ some challenges
      → pm.next_entry_idx + length ops ≤ length pm.time_ordered_subtrace
      → pm.next_entry_idx + length ops < length pm.addr_ordered_subtrace
      → (out : RomProverPortalManager F) × (prover_run ops pm ≡ some out)
  prover_run-some ops pm challenges h p q =
      prover_run-Ready ops pm
        (record { challenges = challenges; given = h; times = p; addresses = q })
