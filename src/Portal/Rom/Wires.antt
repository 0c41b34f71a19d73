-- ===== src/Portal/Rom/Wires.antt =====
-- The values of the wires that the coordinator's ROM manager knows, and how a request changes them.
use hekaton_system.Prelude.{
  ◌+◌, ◌%◌, ◌^◌, ◌≡◌, sym, ap, ◌∙◌, ◌⊎◌, none, some, Option, Option-cases, inl, inr, List, arith,
  subst,
}
use hekaton_system.Prelude.Assoc.{lookup, insert, lookup-insert_self, lookup-insert_ne}
use hekaton_system.Transcript.{RomTranscriptEntry}
use hekaton_system.Portal.Rom.{SetupRomPortalManager, log, setup_get, setup_set}

module _ {ℓ κ} {K : Type ℓ} {F : Type κ} (eq : Discrete K) where
  abbrev pub wire : SetupRomPortalManager K F → K → Option F
  wire pm k = elim (lookup eq k pm.var_map) [ none ↦ none | some e ↦ some e.val ]

  -- Every wire keeps its value.
  abbrev pub Extends : SetupRomPortalManager K F → SetupRomPortalManager K F → Type (ℓ ⊔ κ)
  Extends pm pm' = (k : K) (v : F) → wire pm k ≡ some v → wire pm' k ≡ some v

  -- A wire that has a value had it before, or is the one that was set.
  abbrev pub Adds : K → F → SetupRomPortalManager K F → SetupRomPortalManager K F → Type (ℓ ⊔ κ)
  Adds name v pm pm' =
      (k : K) (w : F) → wire pm' k ≡ some w → (wire pm k ≡ some w) ⊎ ((name ≡ k) × (v ≡ w))

  log-var_map :
      (pm : SetupRomPortalManager K F) (e : RomTranscriptEntry F) {pm' : SetupRomPortalManager K F}
      → log pm e ≡ some pm'
      → pm'.var_map ≡ pm.var_map
  unfolding log
  log-var_map pm e h = ground arith

  pub setup_get-wire :
      (name : K) (pm : SetupRomPortalManager K F) {v : F} {pm' : SetupRomPortalManager K F}
      → setup_get eq name pm ≡ some (v, pm')
      → (wire pm name ≡ some v) × (pm'.var_map ≡ pm.var_map)
  unfolding setup_get
  setup_get-wire name pm {v} {pm'} h = elim (Option-cases (lookup eq name pm.var_map)) [
    | inl n ↦ ground arith
    | inr (e, l) ↦ elim (Option-cases (log pm e)) [
      | inl n ↦ ground arith
      | inr (pm1, g) ↦ (ground arith, ground (arith, log-var_map pm e g))
    ]
  ]

  abbrev value_in : List (K × RomTranscriptEntry F) → K → Option F
  value_in m k = elim (lookup eq k m) [ none ↦ none | some e ↦ some e.val ]

  insert-Extends :
      (name : K) (entry : RomTranscriptEntry F) (m : List (K × RomTranscriptEntry F)) (k : K)
      (w : F)
      → lookup eq name m ≡ none
      → value_in m k ≡ some w
      → value_in (insert eq name entry m) k ≡ some w
  insert-Extends name entry m k w free h = elim (eq name k) [
    | yes p ↦ absurd (let q : lookup eq k m ≡ none = rw (← p) free in ground arith)
    | no p ↦ let q = lookup-insert_ne eq name k entry m p in ground arith
  ]

  insert-Adds :
      (name : K) (entry : RomTranscriptEntry F) (m : List (K × RomTranscriptEntry F)) (k : K)
      (w : F)
      → value_in (insert eq name entry m) k ≡ some w
      → (value_in m k ≡ some w) ⊎ ((name ≡ k) × (entry.val ≡ w))
  insert-Adds name entry m k w h = elim (eq name k) [
    | yes p ↦
        let q : lookup eq k (insert eq name entry m) ≡ some entry =
          subst (λ x. lookup eq x (insert eq name entry m) ≡ some entry) p
            (lookup-insert_self eq name entry m) in
        inr (p, ground arith)
    | no p ↦ let q = lookup-insert_ne eq name k entry m p in inl (ground arith)
  ]

  pub setup_set-wire :
      (name : K) (v : F) (pm : SetupRomPortalManager K F) {pm' : SetupRomPortalManager K F}
      → setup_set eq name v pm ≡ some pm'
      → (wire pm' name ≡ some v) × Extends pm pm' × Adds name v pm pm'
  unfolding setup_set
  setup_set-wire name v pm {pm'} h = elim (Option-cases (lookup eq name pm.var_map)) [
    | inr (e, l) ↦ ground arith
    | inl free ↦
        let entry : RomTranscriptEntry F = record { val = v; addr = pm.next_var_addr } in
        let pm0 : SetupRomPortalManager K F = record pm {
          next_var_addr = (pm.next_var_addr + 1) % 2 ^ 64;
          var_map = insert eq name entry pm.var_map;
        } in
        let g : log pm0 entry ≡ some pm' = ground arith in
        let m = log-var_map pm0 entry g in
        (
          let q = lookup-insert_self eq name entry pm.var_map in ground arith,
          λ k w h. rw m (insert-Extends name entry pm.var_map k w free h),
          λ k w h. insert-Adds name entry pm.var_map k w (sym (ap (λ x. value_in x k) m) ∙ h),
        )
  ]
