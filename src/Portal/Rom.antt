-- ===== src/Portal/Rom.antt =====
-- portal_manager/rom_portal_manager.rs: the coordinator's manager, which records the trace, and the
-- prover's, which replays it and enforces the read-only checks. The prover's constraints are the
-- conjunction `satisfied` of all that was enforced.
pub mod Trace
pub mod Coherence
pub mod Total
pub mod Calls
pub mod Wires
use hekaton_system.Prelude.{
  ℕ, ◌+◌, ◌%◌, ◌^◌, Bool, true, ◌&&◌, ◌||◌, Option, none, some, List, [], ◌∷◌, ◌++◌, get_elem?,
}
use hekaton_system.Prelude.Assoc.{lookup, insert}
use hekaton_system.Field.{PrimeField}
use hekaton_system.Transcript.{
  RomTranscriptEntry, RomTranscriptEntryVar, TranscriptEntryVar, RomRunningEvaluation,
  RunningEvaluation,
}
use hekaton_system.Transcript.Evaluation.{rom_var_update_time_ordered, rom_var_update_addr_ordered}
use hekaton_system.Portal.{PortalManager, push_last, conditional}

pub record SetupRomPortalManager {ℓ κ} (K : Type ℓ) (F : Type κ) : Type (ℓ ⊔ κ) where
  pub subtraces : List (List (RomTranscriptEntry F))
  pub next_var_addr : ℕ
  pub var_map : List (K × RomTranscriptEntry F)

abbrev pub new_setup {ℓ κ} : {K : Type ℓ} {F : Type κ} → SetupRomPortalManager K F
new_setup = record { subtraces = []; next_var_addr = 1; var_map = [] }

module _ {ℓ κ} {K : Type ℓ} {F : Type κ} where
  unfoldable pub start_subtrace : SetupRomPortalManager K F → SetupRomPortalManager K F
  start_subtrace pm = record pm { subtraces = pm.subtraces ++ ([] ∷ []) }

  -- Logs an entry in the newest subtrace.
  unfoldable pub log :
      SetupRomPortalManager K F → RomTranscriptEntry F → Option (SetupRomPortalManager K F)
  log pm entry = elim (push_last pm.subtraces entry) [
    | none ↦ none
    | some sts ↦ some (record pm { subtraces = sts })
  ]

module _ {ℓ κ} {K : Type ℓ} {F : Type κ} (eq : Discrete K) where
  unfoldable pub setup_get : K → SetupRomPortalManager K F → Option (F × SetupRomPortalManager K F)
  unfolding log
  setup_get name pm = elim (lookup eq name pm.var_map) [
    | none ↦ none
    | some entry ↦ elim (log pm entry) [ none ↦ none | some pm' ↦ some (entry.val, pm') ]
  ]

  -- Writing a name again panics; otherwise the entry takes a fresh address.
  unfoldable pub setup_set : K → F → SetupRomPortalManager K F → Option (SetupRomPortalManager K F)
  unfolding log
  setup_set name val pm = elim (lookup eq name pm.var_map) [
    | some entry ↦ none
    | none ↦
        let entry : RomTranscriptEntry F = record { val = val; addr = pm.next_var_addr } in
        log
          (record pm {
            next_var_addr = (pm.next_var_addr + 1) % 2 ^ 64;
            var_map = insert eq name entry pm.var_map;
          })
          entry
  ]

  abbrev pub setup_manager : PortalManager K F (SetupRomPortalManager K F)
  setup_manager = record { get = setup_get; set = setup_set }

pub record RomProverPortalManager {ℓ} (F : Type ℓ) : Type ℓ where
  pub time_ordered_subtrace : List (RomTranscriptEntryVar F)
  pub addr_ordered_subtrace : List (RomTranscriptEntryVar F)
  pub running_evals : RomRunningEvaluation F
  pub next_entry_idx : ℕ
  pub satisfied : Bool

module _ {ℓ} {F : Type ℓ} where
  -- The conversion of the trait's entries, which panics on RAM entries.
  unfoldable pub convert_entries :
      List (TranscriptEntryVar F) → Option (List (RomTranscriptEntryVar F))
  convert_entries [] = some []
  convert_entries (TranscriptEntryVar.ram e ∷ es) = none
  convert_entries (TranscriptEntryVar.rom e ∷ es) = elim (convert_entries es) [
    | none ↦ none
    | some es' ↦ some (e ∷ es')
  ]

  convert_evals : RunningEvaluation F → Option (RomRunningEvaluation F)
  convert_evals (RunningEvaluation.rom e) = some e
  convert_evals (RunningEvaluation.ram e) = none

  -- `ProverPortalManager::new`.
  unfoldable pub new_prover :
      List (TranscriptEntryVar F)
      → List (TranscriptEntryVar F)
      → RunningEvaluation F
      → Option (RomProverPortalManager F)
  unfolding convert_entries convert_evals
  new_prover time addr evals = elim (convert_entries time) [
    | none ↦ none
    | some ts ↦ elim (convert_entries addr) [
      | none ↦ none
      | some xs ↦ elim (convert_evals evals) [
        | none ↦ none
        | some ev ↦ some (record {
          time_ordered_subtrace = ts;
          addr_ordered_subtrace = xs;
          running_evals = ev;
          next_entry_idx = 0;
          satisfied = true;
        })
      ]
    ]
  ]

module _ {ℓ} {F : Type ℓ} ⦃f : PrimeField F⦄ where
  -- What `get` enforces of two consecutive entries of the address-ordered trace.
  unfoldable pub coherence_check : RomTranscriptEntryVar F → RomTranscriptEntryVar F → Bool
  coherence_check current next =
      let is_addr_same = f.is_eq next.addr current.addr in
      let is_addr_increasing = f.is_eq next.addr (f.add current.addr f.one_elem) in
      (is_addr_same || is_addr_increasing)
      && conditional (f.is_eq current.val next.val) is_addr_same

  unfoldable pub prover_get : RomProverPortalManager F → Option (F × RomProverPortalManager F)
  prover_get pm = elim (get_elem? pm.time_ordered_subtrace pm.next_entry_idx) [
    | none ↦ none
    | some current_time ↦ elim (get_elem? pm.addr_ordered_subtrace pm.next_entry_idx) [
      | none ↦ none
      | some current_addr ↦ elim (rom_var_update_time_ordered pm.running_evals current_time) [
        | none ↦ none
        | some evals ↦ elim (get_elem? pm.addr_ordered_subtrace (pm.next_entry_idx + 1)) [
          | none ↦ none
          | some next_addr ↦ elim (rom_var_update_addr_ordered evals next_addr) [
            | none ↦ none
            | some evals' ↦ some (
              current_time.val,
              record pm {
                running_evals = evals';
                next_entry_idx = pm.next_entry_idx + 1;
                satisfied = pm.satisfied && coherence_check current_addr next_addr;
              },
            )
          ]
        ]
      ]
    ]
  ]

  -- `set` pops an entry as `get` does, and enforces that it holds the value.
  unfoldable pub prover_set : F → RomProverPortalManager F → Option (RomProverPortalManager F)
  prover_set val pm = elim (prover_get pm) [
    | none ↦ none
    | some (trace_val, pm') ↦
        some (record pm' { satisfied = pm'.satisfied && f.is_eq val trace_val })
  ]

  abbrev pub prover_manager {κ} : {K : Type κ} → PortalManager K F (RomProverPortalManager F)
  prover_manager = record { get = λ name. prover_get; set = λ name. prover_set }
