-- ===== src/Portal/Rom/Trace.antt =====
-- The coordinator's ROM manager over a whole sequence of requests, and what stays true of its state.
pub mod Preserve
pub mod Run
pub mod Binding
use hekaton_system.Prelude.{ℕ, ◌<◌, ◌≡◌, Option, none, some, List, [], ◌∷◌, All, flatten}
use hekaton_system.Prelude.Assoc.{lookup}
use hekaton_system.Transcript.{RomTranscriptEntry}
use hekaton_system.Portal.Rom.{SetupRomPortalManager, setup_get, setup_set, start_subtrace}

-- What the circuit asks of the coordinator's manager, in order.
pub data SetupAccess {ℓ κ} (K : Type ℓ) (F : Type κ) : Type (ℓ ⊔ κ) where
  starts : SetupAccess K F
  gets : K → SetupAccess K F
  sets : K → F → SetupAccess K F

module _ {ℓ κ} {K : Type ℓ} {F : Type κ} (eq : Discrete K) where
  unfoldable pub setup_run :
      List (SetupAccess K F) → SetupRomPortalManager K F → Option (SetupRomPortalManager K F)
  setup_run [] pm = some pm
  setup_run (starts ∷ ops) pm = setup_run ops (start_subtrace pm)
  setup_run (gets name ∷ ops) pm = elim (setup_get eq name pm) [
    | none ↦ none
    | some (v, pm') ↦ setup_run ops pm'
  ]
  setup_run (sets name v ∷ ops) pm = elim (setup_set eq name v pm) [
    | none ↦ none
    | some pm' ↦ setup_run ops pm'
  ]

  abbrev pub Known : List (K × RomTranscriptEntry F) → RomTranscriptEntry F → Type (ℓ ⊔ κ)
  Known m e = (k : K) × (lookup eq k m ≡ some e)

  -- Every logged entry is the entry of a name, and names have addresses of their own, below the
  -- next one.
  pub record IsConsistent (pm : SetupRomPortalManager K F) : Type (ℓ ⊔ κ) where
    pub logged : All (Known pm.var_map) (flatten pm.subtraces)
    pub fresh :
        (k : K) (e : RomTranscriptEntry F)
        → lookup eq k pm.var_map ≡ some e
        → (0 < e.addr) × (e.addr < pm.next_var_addr)
    pub distinct :
        (j k : K) (e e' : RomTranscriptEntry F)
        → lookup eq j pm.var_map ≡ some e
        → lookup eq k pm.var_map ≡ some e'
        → e.addr ≡ e'.addr
        → j ≡ k
    pub positive : 0 < pm.next_var_addr
