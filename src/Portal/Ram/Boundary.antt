-- ===== src/Portal/Ram/Boundary.antt =====
-- The entry at the front of a RAM prover's address-ordered trace, which is the last entry of the
-- previous subcircuit's.
use native.Mathlib.Numerals.{add-one, add-two}
use hekaton_system.Prelude.{
  ℕ, ◌+◌, ◌≡◌, refl, ap, ◌∙◌, Bool, Option, none, some, Option-cases, inl, inr, List, [], ◌∷◌,
  arith, get_elem?, set,
}
use hekaton_system.Field.{PrimeField}
use hekaton_system.Transcript.{RamTranscriptEntryVar}
use hekaton_system.Portal.{Access, reads, writes}
use hekaton_system.Portal.Ram.{RamProverPortalManager, prover_get, prover_set}

module _ {ℓ} {F : Type ℓ} ⦃f : PrimeField F⦄ where
  -- A subcircuit's accesses, each with the carry witness of its time check.
  unfoldable pub prover_run :
      List (Bool × Access F) → RamProverPortalManager F → Option (RamProverPortalManager F)
  prover_run [] pm = some pm
  prover_run ((carry, reads) ∷ ops) pm = elim (prover_get carry pm) [
    | none ↦ none
    | some (v, pm') ↦ prover_run ops pm'
  ]
  prover_run ((carry, writes v) ∷ ops) pm = elim (prover_set carry v pm) [
    | none ↦ none
    | some pm' ↦ prover_run ops pm'
  ]

  -- The manager with another entry at the front of its address-ordered trace.
  abbrev pub set_first :
      RamTranscriptEntryVar F → RamProverPortalManager F → RamProverPortalManager F
  set_first e pm = record pm { addr_ordered_subtrace = set pm.addr_ordered_subtrace 0 e }

  get_elem?-set_first :
      (l : List (RamTranscriptEntryVar F)) (e : RamTranscriptEntryVar F) (i : ℕ)
      → get_elem? (set l 0 e) (i + 1) ≡ get_elem? l (i + 1)
  get_elem?-set_first [] e i = refl
  get_elem?-set_first (x ∷ l) e i = rw add-one refl

  get_elem?-set_first_two :
      (l : List (RamTranscriptEntryVar F)) (e : RamTranscriptEntryVar F) (i : ℕ)
      → get_elem? (set l 0 e) (i + 2) ≡ get_elem? l (i + 2)
  get_elem?-set_first_two [] e i = refl
  get_elem?-set_first_two (x ∷ l) e i = rw add-two refl

  abbrev map_state :
      (RamProverPortalManager F → RamProverPortalManager F)
      → Option (F × RamProverPortalManager F)
      → Option (F × RamProverPortalManager F)
  map_state g none = none
  map_state g (some (v, pm)) = some (v, g pm)

  abbrev pub map_manager :
      (RamProverPortalManager F → RamProverPortalManager F)
      → Option (RamProverPortalManager F)
      → Option (RamProverPortalManager F)
  map_manager g none = none
  map_manager g (some pm) = some (g pm)

  prover_get-set_first :
      (carry : Bool) (e : RamTranscriptEntryVar F) (pm : RamProverPortalManager F)
      → prover_get carry (set_first e pm) ≡ map_state (set_first e) (prover_get carry pm)
  unfolding prover_get
  prover_get-set_first carry e pm = ground (
    arith,
    get_elem?-set_first pm.addr_ordered_subtrace e pm.next_entry_idx,
    get_elem?-set_first_two pm.addr_ordered_subtrace e pm.next_entry_idx,
  )

  prover_set-set_first :
      (carry : Bool) (v : F) (e : RamTranscriptEntryVar F) (pm : RamProverPortalManager F)
      → prover_set carry v (set_first e pm) ≡ map_manager (set_first e) (prover_set carry v pm)
  unfolding prover_set
  prover_set-set_first carry v e pm =
      let g = prover_get-set_first carry e pm in
      elim (Option-cases (prover_get carry pm)) [
        | inl h ↦ rw (g ∙ ap (map_state (set_first e)) h, prover_set) (rw (h, prover_set))
        | inr (t, h) ↦ rw (g ∙ ap (map_state (set_first e)) h, prover_set) (rw (h, prover_set))
      ]

  -- Whatever stands at the front of the address-ordered trace, a run of accesses enforces the same
  -- constraints and ends in the same state but for that entry.
  pub prover_run-set_first :
      (ops : List (Bool × Access F)) (e : RamTranscriptEntryVar F) (pm : RamProverPortalManager F)
      → prover_run ops (set_first e pm) ≡ map_manager (set_first e) (prover_run ops pm)
  unfolding prover_run
  prover_run-set_first [] e pm = refl
  prover_run-set_first ((carry, reads) ∷ ops) e pm =
      let g = prover_get-set_first carry e pm in
      elim (Option-cases (prover_get carry pm)) [
        | inl h ↦ rw (g ∙ ap (map_state (set_first e)) h, prover_run) (rw (h, prover_run))
        | inr (t, h) ↦
            rw (g ∙ ap (map_state (set_first e)) h, prover_run)
              (rw (h, prover_run) (prover_run-set_first ops e t.1))
      ]
  prover_run-set_first ((carry, writes v) ∷ ops) e pm =
      let g = prover_set-set_first carry v e pm in
      elim (Option-cases (prover_set carry v pm)) [
        | inl h ↦ rw (g ∙ ap (map_manager (set_first e)) h, prover_run) (rw (h, prover_run))
        | inr (pm₁, h) ↦
            rw (g ∙ ap (map_manager (set_first e)) h, prover_run)
              (rw (h, prover_run) (prover_run-set_first ops e pm₁))
      ]
