-- ===== src/Portal/Rom/Trace/Binding.antt =====
-- What a name is bound to, through any sequence of requests to the coordinator's ROM manager.
use hekaton_system.Prelude.{
  length, length-append, ◌<◌, ◌+◌, ◌%◌, ◌^◌, ◌≡◌, ◌≢◌, refl, sym, ap, ◌∙◌, none, some, Option-cases,
  inl, inr, List, [], ◌∷◌, arith, subst,
}
use hekaton_system.Prelude.Assoc.{lookup, insert, lookup-insert_self, lookup-insert_ne}
use hekaton_system.Transcript.{RomTranscriptEntry}
use hekaton_system.Portal.{push_last}
use hekaton_system.Portal.Push.{push_last-some}
use hekaton_system.Portal.Rom.{SetupRomPortalManager, log, setup_get, setup_set, start_subtrace}
use hekaton_system.Portal.Rom.Trace.{SetupAccess, starts, gets, sets, setup_run}

module _ {ℓ} {E : Type ℓ} where
  push_last-none : (sts : List (List E)) (e : E) → 0 < length sts → push_last sts e ≢ none
  push_last-none [] e b n = omega arith
  push_last-none (st ∷ sts) e b n =
      let (out, p, _, _) = push_last-some st sts e in
      let q : none ≡ some out = sym n ∙ p in ground arith

  push_last-open :
      (sts : List (List E)) (e : E) (out : List (List E))
      → push_last sts e ≡ some out
      → 0 < length out
  push_last-open [] e out h = unfold push_last in ground arith
  push_last-open (st ∷ sts) e out h =
      let (o, p, _, n) = push_last-some st sts e in
      let q : some out ≡ some o = sym h ∙ p in
      let same : out ≡ o = ground arith in rw same (omega (arith, n))

module _ {ℓ κ} {K : Type ℓ} {F : Type κ} (eq : Discrete K) where
  log-var_map :
      (pm pm' : SetupRomPortalManager K F) (e : RomTranscriptEntry F)
      → log pm e ≡ some pm'
      → pm'.var_map ≡ pm.var_map
  unfolding log
  log-var_map pm pm' e h = elim (Option-cases (push_last pm.subtraces e)) [
    | inl n ↦ ground arith
    | inr (sts, p) ↦ ground arith
  ]

  setup_get-lookup :
      (k : K) (pm pm' : SetupRomPortalManager K F) (name : K) (v : F) (e : RomTranscriptEntry F)
      → lookup eq name pm.var_map ≡ some e
      → setup_get eq k pm ≡ some (v, pm')
      → lookup eq name pm'.var_map ≡ some e
  unfolding setup_get
  setup_get-lookup k pm pm' name v e l h = elim (Option-cases (lookup eq k pm.var_map)) [
    | inl n ↦ ground arith
    | inr (x, p) ↦ elim (Option-cases (log pm x)) [
      | inl n ↦ ground arith
      | inr (pm1, q) ↦
          let same : pm1 ≡ pm' = ground arith in rw (log-var_map pm pm' x (q ∙ ap some same)) l
    ]
  ]

  -- What a successful `set` leaves: the name had no entry, and has the new one.
  setup_set-var_map :
      (k : K) (pm pm' : SetupRomPortalManager K F) (v : F)
      → setup_set eq k v pm ≡ some pm'
      → (lookup eq k pm.var_map ≡ none)
        × (pm'.var_map ≡ insert eq k (record { val = v; addr = pm.next_var_addr }) pm.var_map)
  unfolding setup_set
  setup_set-var_map k pm pm' v h = elim (Option-cases (lookup eq k pm.var_map)) [
    | inr (x, p) ↦ ground arith
    | inl n ↦
        let entry : RomTranscriptEntry F = record { val = v; addr = pm.next_var_addr } in
        let opened : SetupRomPortalManager K F = record pm {
          next_var_addr = (pm.next_var_addr + 1) % 2 ^ 64;
          var_map = insert eq k entry pm.var_map;
        } in
        (n, log-var_map opened pm' entry (ground arith))
  ]

  setup_set-lookup_self :
      (k : K) (pm pm' : SetupRomPortalManager K F) (v : F)
      → setup_set eq k v pm ≡ some pm'
      → lookup eq k pm'.var_map ≡ some (record { val = v; addr = pm.next_var_addr })
  setup_set-lookup_self k pm pm' v h =
      rw (setup_set-var_map k pm pm' v h).1 (lookup-insert_self eq k _ pm.var_map)

  setup_set-lookup :
      (k : K) (pm pm' : SetupRomPortalManager K F) (name : K) (v : F) (e : RomTranscriptEntry F)
      → lookup eq name pm.var_map ≡ some e
      → setup_set eq k v pm ≡ some pm'
      → lookup eq name pm'.var_map ≡ some e
  setup_set-lookup k pm pm' name v e l h =
      let (n, m) = setup_set-var_map k pm pm' v h in
      let other : k ≢ name = λ q.
        let r : none ≡ some e = sym n ∙ (subst (λ x. lookup eq x pm.var_map ≡ some e) (sym q) l) in
        ground arith in
      rw m (lookup-insert_ne eq k name _ pm.var_map other ∙ l)

  -- A name that has an entry keeps it.
  setup_run-lookup :
      (ops : List (SetupAccess K F)) (pm out : SetupRomPortalManager K F) (name : K)
      (e : RomTranscriptEntry F)
      → lookup eq name pm.var_map ≡ some e
      → setup_run eq ops pm ≡ some out
      → lookup eq name out.var_map ≡ some e
  unfolding setup_run
  setup_run-lookup [] pm out name e l h = let same : pm ≡ out = ground arith in rw (← same) l
  setup_run-lookup (starts ∷ ops) pm out name e l h =
      setup_run-lookup ops (start_subtrace pm) out name e (unfold start_subtrace in l) h
  setup_run-lookup (gets k ∷ ops) pm out name e l h = elim (Option-cases (setup_get eq k pm)) [
    | inl n ↦ ground arith
    | inr ((v, pm'), g) ↦
        setup_run-lookup ops pm' out name e (setup_get-lookup k pm pm' name v e l g)
          (rw (g, setup_run) at h)
  ]
  setup_run-lookup (sets k v ∷ ops) pm out name e l h = elim (Option-cases (setup_set eq k v pm)) [
    | inl n ↦ ground arith
    | inr (pm', g) ↦
        setup_run-lookup ops pm' out name e (setup_set-lookup k pm pm' name v e l g)
          (rw (g, setup_run) at h)
  ]

  -- A manager with a subtrace open logs, and still has one open.
  log-some :
      (pm : SetupRomPortalManager K F) (e : RomTranscriptEntry F)
      → 0 < length pm.subtraces
      → (pm' : SetupRomPortalManager K F) × (log pm e ≡ some pm')
  unfolding log
  log-some pm e b = elim (Option-cases (push_last pm.subtraces e)) [
    | inl n ↦ absurd (push_last-none pm.subtraces e b n)
    | inr (sts, p) ↦ (record pm { subtraces = sts }, rw (p, log) refl)
  ]

  log-open :
      (pm pm' : SetupRomPortalManager K F) (e : RomTranscriptEntry F)
      → log pm e ≡ some pm'
      → 0 < length pm'.subtraces
  unfolding log
  log-open pm pm' e h = elim (Option-cases (push_last pm.subtraces e)) [
    | inl n ↦ ground arith
    | inr (sts, p) ↦
        let same : pm'.subtraces ≡ sts = ground arith in
        rw same (push_last-open pm.subtraces e sts p)
  ]

  setup_get-open :
      (k : K) (pm pm' : SetupRomPortalManager K F) (v : F)
      → setup_get eq k pm ≡ some (v, pm')
      → 0 < length pm'.subtraces
  unfolding setup_get
  setup_get-open k pm pm' v h = elim (Option-cases (lookup eq k pm.var_map)) [
    | inl n ↦ ground arith
    | inr (e, p) ↦ elim (Option-cases (log pm e)) [
      | inl n ↦ ground arith
      | inr (pm1, q) ↦ let same : pm1 ≡ pm' = ground arith in log-open pm pm' e (q ∙ ap some same)
    ]
  ]

  setup_set-open :
      (k : K) (pm pm' : SetupRomPortalManager K F) (v : F)
      → setup_set eq k v pm ≡ some pm'
      → 0 < length pm'.subtraces
  unfolding setup_set
  setup_set-open k pm pm' v h = elim (Option-cases (lookup eq k pm.var_map)) [
    | inr (e, p) ↦ ground arith
    | inl n ↦
        let entry : RomTranscriptEntry F = record { val = v; addr = pm.next_var_addr } in
        let opened : SetupRomPortalManager K F = record pm {
          next_var_addr = (pm.next_var_addr + 1) % 2 ^ 64;
          var_map = insert eq k entry pm.var_map;
        } in
        log-open opened pm' entry (ground arith)
  ]

  setup_run-open :
      (ops : List (SetupAccess K F)) (pm out : SetupRomPortalManager K F)
      → 0 < length pm.subtraces
      → setup_run eq ops pm ≡ some out
      → 0 < length out.subtraces
  unfolding setup_run
  setup_run-open [] pm out b h = let same : pm ≡ out = ground arith in rw (← same) b
  setup_run-open (starts ∷ ops) pm out b h =
      setup_run-open ops (start_subtrace pm) out
        (unfold start_subtrace in omega (arith, length-append pm.subtraces ([] ∷ []))) h
  setup_run-open (gets k ∷ ops) pm out b h = elim (Option-cases (setup_get eq k pm)) [
    | inl n ↦ ground arith
    | inr ((v, pm'), g) ↦
        setup_run-open ops pm' out (setup_get-open k pm pm' v g) (rw (g, setup_run) at h)
  ]
  setup_run-open (sets k v ∷ ops) pm out b h = elim (Option-cases (setup_set eq k v pm)) [
    | inl n ↦ ground arith
    | inr (pm', g) ↦
        setup_run-open ops pm' out (setup_set-open k pm pm' v g) (rw (g, setup_run) at h)
  ]

  -- After a value is set, and whatever is asked for in between without a panic, reading its name
  -- succeeds and returns that value, and setting the name once more panics.
  pub setup_run-last_set :
      (name : K) (v w : F) (pm pm' : SetupRomPortalManager K F) (ops : List (SetupAccess K F))
      (out : SetupRomPortalManager K F)
      → setup_set eq name v pm ≡ some pm'
      → setup_run eq ops pm' ≡ some out
      → (read : SetupRomPortalManager K F) × (setup_get eq name out ≡ some (v, read))
        × (setup_set eq name w out ≡ none)
  unfolding setup_get setup_set
  setup_run-last_set name v w pm pm' ops out s h =
      let entry : RomTranscriptEntry F = record { val = v; addr = pm.next_var_addr } in
      let l = setup_run-lookup ops pm' out name entry (setup_set-lookup_self name pm pm' v s) h in
      let (read, g) =
        log-some out entry (setup_run-open ops pm' out (setup_set-open name pm pm' v s) h) in
      (read, rw (l, setup_get) (rw (g, setup_get) refl), rw (l, setup_set) refl)
