-- ===== src/Portal/Ram.antt =====
-- portal_manager/ram_portal_manager.rs: addresses of wires, the coordinator's manager, which records
-- reads and writes with their times, and the prover's, which enforces the memory checks. The
-- prover's constraints are the conjunction `satisfied` of all that was enforced.
pub mod Setup
pub mod Calls
pub mod Reads
pub mod Boundary
use hekaton_system.Prelude.{
  ℕ, ◌+◌, ◌-◌, ◌%◌, ◌^◌, Bool, true, false, not, ◌&&◌, ◌||◌, Option, none, some, List, [], ◌∷◌,
  ◌++◌, get_elem?, length, ltb,
}
use hekaton_system.Prelude.Assoc.{lookup, insert}
use hekaton_system.Uint32
use hekaton_system.Uint32.{
  Unsigned32, increment_inplace, increment_inplace_var, is_greater_than, enforce_equal,
}
use hekaton_system.Field.{PrimeField}
use hekaton_system.Transcript.{
  RamTranscriptEntry, RamTranscriptEntryVar, TranscriptEntryVar, RamRunningEvaluation,
  RunningEvaluation,
}
use hekaton_system.Transcript.Evaluation.{ram_var_update_time_ordered, ram_var_update_addr_ordered}
use hekaton_system.Portal.{PortalManager, push_last, conditional}

pub record AddressManager {ℓ} (K : Type ℓ) : Type ℓ where
  pub addresses : List (K × ℕ)
  pub current_address : ℕ

abbrev pub new_addresses {ℓ} : {K : Type ℓ} → AddressManager K
new_addresses = record { addresses = []; current_address = 1 }

module _ {ℓ} {K : Type ℓ} (eq : Discrete K) where
  -- The address of a name, a new one where it has none.
  unfoldable pub name_to_addr : K → AddressManager K → ℕ × AddressManager K
  name_to_addr name m = elim (lookup eq name m.addresses) [
    | some address ↦ (address, m)
    | none ↦ (
      m.current_address,
      record {
        addresses = insert eq name m.current_address m.addresses;
        current_address = (m.current_address + 1) % 2 ^ 64;
      },
    )
  ]

pub record SetupRamPortalManager {ℓ κ} (K : Type ℓ) (F : Type κ) : Type (ℓ ⊔ κ) where
  pub subtraces : List (List (RamTranscriptEntry F))
  pub address : AddressManager K
  pub time_index : Unsigned32
  pub var_map : List (K × F)

abbrev pub new_setup {ℓ κ} : {K : Type ℓ} {F : Type κ} → SetupRamPortalManager K F
new_setup = record {
  subtraces = [];
  address = new_addresses;
  time_index = Uint32.default;
  var_map = [];
}

module _ {ℓ κ} {K : Type ℓ} {F : Type κ} where
  unfoldable pub start_subtrace : SetupRamPortalManager K F → SetupRamPortalManager K F
  start_subtrace pm = record pm { subtraces = pm.subtraces ++ ([] ∷ []) }

module _ {ℓ κ} {K : Type ℓ} {F : Type κ} (eq : Discrete K) where
  -- The part that reading and writing share: name the address, log the entry at the present time,
  -- and move the time on.
  unfoldable pub log : K → F → Bool → SetupRamPortalManager K F → Option (SetupRamPortalManager K F)
  log name val read pm =
      let (addr, address) = name_to_addr eq name pm.address in
      elim (push_last pm.subtraces
        (record { addr = addr; val = val; i = pm.time_index; read = read })) [
          | none ↦ none
          | some sts ↦ some (record pm {
            subtraces = sts;
            address = address;
            time_index = increment_inplace pm.time_index;
          })
        ]

  unfoldable pub setup_get : K → SetupRamPortalManager K F → Option (F × SetupRamPortalManager K F)
  setup_get name pm = elim (lookup eq name pm.var_map) [
    | none ↦ none
    | some value ↦ elim (log name value true pm) [ none ↦ none | some pm' ↦ some (value, pm') ]
  ]

  unfoldable pub setup_set : K → F → SetupRamPortalManager K F → Option (SetupRamPortalManager K F)
  setup_set name val pm = log name val false (record pm { var_map = insert eq name val pm.var_map })

  abbrev pub setup_manager : PortalManager K F (SetupRamPortalManager K F)
  setup_manager = record { get = setup_get; set = setup_set }

pub record RamProverPortalManager {ℓ} (F : Type ℓ) : Type ℓ where
  pub time_ordered_subtrace : List (RamTranscriptEntryVar F)
  pub addr_ordered_subtrace : List (RamTranscriptEntryVar F)
  pub running_evals : RamRunningEvaluation F
  pub next_entry_idx : ℕ
  pub satisfied : Bool

module _ {ℓ} {F : Type ℓ} where
  unfoldable pub convert_entries :
      List (TranscriptEntryVar F) → Option (List (RamTranscriptEntryVar F))
  convert_entries [] = some []
  convert_entries (TranscriptEntryVar.rom e ∷ es) = none
  convert_entries (TranscriptEntryVar.ram e ∷ es) = elim (convert_entries es) [
    | none ↦ none
    | some es' ↦ some (e ∷ es')
  ]

  convert_evals : RunningEvaluation F → Option (RamRunningEvaluation F)
  convert_evals (RunningEvaluation.ram e) = some e
  convert_evals (RunningEvaluation.rom e) = none

  -- `ProverPortalManager::new`.
  unfoldable pub new_prover :
      List (TranscriptEntryVar F)
      → List (TranscriptEntryVar F)
      → RunningEvaluation F
      → Option (RamProverPortalManager F)
  unfolding convert_entries convert_evals
  new_prover time addr evals = elim (convert_entries time) [
    | none ↦ none
    | some ts ↦ elim (convert_entries addr) [
      | none ↦ none
      | some xs ↦ elim (convert_evals evals) [
        | none ↦ none
        | some ev ↦ some (record {
          time_ordered_subtrace = ts;
          addr_ordered_subtrace = xs;
          running_evals = ev;
          next_entry_idx = 0;
          satisfied = true;
        })
      ]
    ]
  ]

module _ {ℓ} {F : Type ℓ} ⦃f : PrimeField F⦄ where
  -- What `get` enforces of an entry of the address-ordered trace and the next one.
  unfoldable pub memory_check : RamTranscriptEntryVar F → RamTranscriptEntryVar F → Bool
  memory_check current next =
      let is_addr_same = f.is_eq next.addr current.addr in
      let is_addr_increasing = f.is_eq next.addr (f.add current.addr f.one_elem) in
      (is_addr_same || is_addr_increasing)
      && (conditional (not next.read) is_addr_increasing
          && (conditional (f.is_eq next.val current.val) (is_addr_same && next.read)
              && conditional (is_greater_than next.i current.i) is_addr_same))

  unfoldable pub address_step : RamTranscriptEntryVar F → Option (RamTranscriptEntryVar F) → Bool
  address_step current none = true
  address_step current (some next) = memory_check current next

  -- The time of the next entry is the incremented time of this one; `carry` is the carry witness.
  unfoldable pub time_check : Bool → RamTranscriptEntryVar F → RamTranscriptEntryVar F → Option Bool
  time_check carry current next = enforce_equal (increment_inplace_var carry current.i) next.i

  -- The time check is made where a next time-ordered entry exists.
  unfoldable pub time_step :
      Bool → Bool → RamTranscriptEntryVar F → Option (RamTranscriptEntryVar F) → Option Bool
  time_step carry false current next = some true
  time_step carry true current none = none
  time_step carry true current (some next) = time_check carry current next

  unfoldable pub prover_get :
      Bool → RamProverPortalManager F → Option (F × RamProverPortalManager F)
  prover_get carry pm = elim (get_elem? pm.time_ordered_subtrace pm.next_entry_idx) [
    | none ↦ none
    | some current_time ↦ elim (get_elem? pm.addr_ordered_subtrace (pm.next_entry_idx + 1)) [
      | none ↦ none
      | some current_addr ↦ elim (ram_var_update_time_ordered pm.running_evals current_time) [
        | none ↦ none
        | some evals ↦ elim (ram_var_update_addr_ordered evals current_addr) [
          | none ↦ none
          | some evals' ↦
              elim (time_step carry (ltb pm.next_entry_idx (length pm.time_ordered_subtrace - 1))
                current_time (get_elem? pm.time_ordered_subtrace (pm.next_entry_idx + 1))) [
                  | none ↦ none
                  | some timely ↦ some (
                    current_time.val,
                    record pm {
                      running_evals = evals';
                      next_entry_idx = pm.next_entry_idx + 1;
                      satisfied =
                          pm.satisfied
                          && (address_step current_addr
                                (get_elem? pm.addr_ordered_subtrace (pm.next_entry_idx + 2))
                              && timely);
                    },
                  )
                ]
        ]
      ]
    ]
  ]

  unfoldable pub prover_set :
      Bool → F → RamProverPortalManager F → Option (RamProverPortalManager F)
  prover_set carry val pm = elim (prover_get carry pm) [
    | none ↦ none
    | some (trace_val, pm') ↦
        some (record pm' { satisfied = pm'.satisfied && f.is_eq val trace_val })
  ]

  -- The code assigns 1 to every carry witness.
  abbrev pub prover_manager {κ} : {K : Type κ} → PortalManager K F (RamProverPortalManager F)
  prover_manager = record { get = λ name. prover_get true; set = λ name. prover_set true }
