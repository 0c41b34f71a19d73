-- ===== src/Portal/Rom/Trace/Run.antt =====
-- A whole sequence of requests to the coordinator's ROM manager.
use hekaton_system.Prelude.{
  ◌+◌, ◌^◌, ◌<◌, ◌≡◌, sym, ◌∙◌, some, Option-cases, inl, inr, List, [], ◌∷◌, arith, flatten, length,
  get_elem?, All-get_elem?, ℕ, subst,
}
use hekaton_system.Prelude.Assoc.{lookup}
use hekaton_system.Transcript.{RomTranscriptEntry}
use hekaton_system.Portal.Rom.{
  SetupRomPortalManager, setup_get, setup_set, new_setup, start_subtrace,
}
use hekaton_system.Portal.Rom.Trace.{
  SetupAccess, starts, gets, sets, setup_run, Known, IsConsistent,
}
use hekaton_system.Portal.Rom.Trace.Preserve.{
  start-IsConsistent, get-IsConsistent, set-IsConsistent,
}

module _ {ℓ κ} {K : Type ℓ} {F : Type κ} (eq : Discrete K) where
  new_setup-IsConsistent : IsConsistent {K = K} {F = F} eq new_setup
  unfolding flatten lookup
  new_setup-IsConsistent = record {
    logged = tt;
    fresh = λ k e h. ground arith;
    distinct = λ j k e e' h h' q. ground arith;
    positive = omega arith;
  }

  same_entry :
      (pm : SetupRomPortalManager K F) (j k : K) (e e' : RomTranscriptEntry F)
      → lookup eq j pm.var_map ≡ some e
      → j ≡ k
      → lookup eq k pm.var_map ≡ some e'
      → e ≡ e'
  same_entry pm j k e e' p q p' =
      let r : lookup eq j pm.var_map ≡ some e' =
        subst (λ x. lookup eq x pm.var_map ≡ some e') (sym q) p' in
      let t : some e ≡ some e' = sym p ∙ r in ground arith

  setup_run-IsConsistent :
      (ops : List (SetupAccess K F)) (pm : SetupRomPortalManager K F)
      {out : SetupRomPortalManager K F}
      → IsConsistent eq pm
      → pm.next_var_addr + length ops < 2 ^ 64
      → setup_run eq ops pm ≡ some out
      → IsConsistent eq out
  unfolding setup_run
  setup_run-IsConsistent [] pm {out} c b h =
      let same : pm ≡ out = ground arith in subst (IsConsistent eq) same c
  setup_run-IsConsistent (starts ∷ ops) pm {out} c b h =
      setup_run-IsConsistent ops (start_subtrace pm) {out = out} (start-IsConsistent eq pm c)
        (unfold start_subtrace in omega arith) h
  setup_run-IsConsistent (gets name ∷ ops) pm {out} c b h =
      elim (Option-cases (setup_get eq name pm)) [
        | inl n ↦ ground arith
        | inr ((v, pm'), g) ↦
            let (c', n) = get-IsConsistent eq name pm {v = v} {pm' = pm'} c g in
            setup_run-IsConsistent ops pm' {out = out} c' (omega arith) (rw (g, setup_run) at h)
      ]
  setup_run-IsConsistent (sets name v ∷ ops) pm {out} c b h =
      elim (Option-cases (setup_set eq name v pm)) [
        | inl n ↦ ground arith
        | inr (pm', g) ↦
            let (c', n) = set-IsConsistent eq name v pm {pm' = pm'} c (omega arith) g in
            setup_run-IsConsistent ops pm' {out = out} c' (omega arith) (rw (g, setup_run) at h)
      ]

  -- Whatever the circuit asks of the coordinator's manager, as long as fewer than 2^64 - 1 requests
  -- are made and none panics: two entries of the recorded trace with one address are the same entry,
  -- and that address is not the padding's address 0.
  pub setup_run-coherent :
      (ops : List (SetupAccess K F)) (out : SetupRomPortalManager K F) (i j : ℕ)
      (e e' : RomTranscriptEntry F)
      → length ops + 1 < 2 ^ 64
      → setup_run eq ops new_setup ≡ some out
      → get_elem? (flatten out.subtraces) i ≡ some e
      → get_elem? (flatten out.subtraces) j ≡ some e'
      → e.addr ≡ e'.addr
      → (e ≡ e') × (0 < e.addr)
  setup_run-coherent ops out i j e e' b h p q same =
      let c =
        setup_run-IsConsistent ops new_setup {out = out} new_setup-IsConsistent (omega arith) h in
      let trace = flatten out.subtraces in
      let (k, l) = All-get_elem? (Known eq out.var_map) trace i e c.logged p in
      let (k', l') = All-get_elem? (Known eq out.var_map) trace j e' c.logged q in
      (same_entry out k k' e e' l (c.distinct k k' e e' l l' same) l', (c.fresh k e l).0)
