-- ===== src/Portal/Ram/Calls.antt =====
-- Single requests to the coordinator's RAM manager that do not panic, and what they leave.
use hekaton_system.Prelude.{
  ℕ, ◌+◌, ◌<◌, ◌≡◌, refl, ap, ◌∙◌, true, false, some, flatten, length, length-append, Returns,
  returns,
}
use hekaton_system.Prelude.Assoc.{lookup, insert}
use hekaton_system.Portal.Ram.{SetupRamPortalManager, setup_get, setup_set}
use hekaton_system.Portal.Ram.Setup.{log-Logs}

module _ {ℓ κ} {K : Type ℓ} {F : Type κ} (eq : Discrete K) where
  -- The trace is longer by a number of entries, in as many subtraces.
  abbrev pub Grows : ℕ → SetupRamPortalManager K F → SetupRamPortalManager K F → Type 0
  Grows n pm pm' =
      (length pm'.subtraces ≡ length pm.subtraces)
      × (length (flatten pm'.subtraces) ≡ length (flatten pm.subtraces) + n)

  -- With a subtrace open, reading a name that has been written returns its value.
  pub setup_get-Returns :
      (name : K) (v : F) (pm : SetupRamPortalManager K F)
      → 0 < length pm.subtraces
      → lookup eq name pm.var_map ≡ some v
      → Returns
          (λ (r : F × SetupRamPortalManager K F).
            (r.0 ≡ v) × (r.1.var_map ≡ pm.var_map) × Grows 1 pm r.1)
          (setup_get eq name pm)
  unfolding setup_get
  setup_get-Returns name v pm h known =
      let w = log-Logs eq name v true pm h in
      rw (known, setup_get)
        (rw (w.returns, setup_get)
          (returns (
            refl,
            w.keeps,
            (w.count, ap length w.appends ∙ length-append (flatten pm.subtraces) _),
          )))

  pub setup_set-Returns :
      (name : K) (v : F) (pm : SetupRamPortalManager K F)
      → 0 < length pm.subtraces
      → Returns
          (λ (pm' : SetupRamPortalManager K F).
            (pm'.var_map ≡ insert eq name v pm.var_map) × Grows 1 pm pm')
          (setup_set eq name v pm)
  unfolding setup_set
  setup_set-Returns name v pm h =
      let pm0 : SetupRamPortalManager K F = record pm { var_map = insert eq name v pm.var_map } in
      let w = log-Logs eq name v false pm0 h in
      rw (w.returns, setup_set)
        (returns (w.keeps, (w.count, ap length w.appends ∙ length-append (flatten pm.subtraces) _)))
