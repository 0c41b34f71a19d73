-- ===== src/Transcript.antt =====
-- distributed-prover/src/transcript/: the entries of portal-wire traces and the running evaluations
-- of the trace polynomials. Where the code panics the result is `none`.
pub mod Evaluation
pub mod Agreement
pub mod Product
mod Tests
use hekaton_system.Prelude.{ℕ, Bool, Option, none, some, List, [], ◌∷◌}
use hekaton_system.Uint32.{Unsigned32, representation}

pub data MemType : Type 0 where
  ram rom : MemType

pub record RomTranscriptEntry {ℓ} (F : Type ℓ) : Type ℓ where
  pub addr : ℕ
  pub val : F

pub record RamTranscriptEntry {ℓ} (F : Type ℓ) : Type ℓ where
  pub addr : ℕ
  pub val : F
  pub i : Unsigned32
  pub read : Bool

pub data TranscriptEntry {ℓ} (F : Type ℓ) : Type ℓ where
  rom : RomTranscriptEntry F → TranscriptEntry F
  ram : RamTranscriptEntry F → TranscriptEntry F

-- The circuit's entries: the address is a field element.
pub record RomTranscriptEntryVar {ℓ} (F : Type ℓ) : Type ℓ where
  pub val : F
  pub addr : F

pub record RamTranscriptEntryVar {ℓ} (F : Type ℓ) : Type ℓ where
  pub addr : F
  pub val : F
  pub i : Unsigned32
  pub read : Bool

pub data TranscriptEntryVar {ℓ} (F : Type ℓ) : Type ℓ where
  rom : RomTranscriptEntryVar F → TranscriptEntryVar F
  ram : RamTranscriptEntryVar F → TranscriptEntryVar F

-- The challenges are `(entry_chal, tr_chal)`. The circuit's `RomRunningEvaluationVar` has the same
-- fields, as values of variables.
pub record RomRunningEvaluation {ℓ} (F : Type ℓ) : Type ℓ where
  pub time_ordered_eval : F
  pub addr_ordered_eval : F
  pub challenges : Option (F × F)

-- The challenges are `(entry_chal_1, entry_chal_2, entry_chal_3, tr_chal)`.
pub record RamRunningEvaluation {ℓ} (F : Type ℓ) : Type ℓ where
  pub time_ordered_eval : F
  pub addr_ordered_eval : F
  pub challenges : Option (F × F × F × F)

pub data RunningEvaluation {ℓ} (F : Type ℓ) : Type ℓ where
  rom : RomRunningEvaluation F → RunningEvaluation F
  ram : RamRunningEvaluation F → RunningEvaluation F

-- `Result::and` of the standard library: the second result, unless the first is an error.
abbrev pub and_result {ℓ κ} : {A : Type ℓ} {B : Type κ} → Option A → Option B → Option B
and_result none b = none
and_result (some a) b = b

module _ {ℓ} {F : Type ℓ} where
  unfoldable pub addr : TranscriptEntry F → ℕ
  addr (TranscriptEntry.rom e) = e.addr
  addr (TranscriptEntry.ram e) = e.addr

  unfoldable pub timestamp : TranscriptEntry F → ℕ
  timestamp (TranscriptEntry.rom e) = 0
  timestamp (TranscriptEntry.ram e) = representation e.i

  unfoldable pub value : TranscriptEntry F → F
  value (TranscriptEntry.rom e) = e.val
  value (TranscriptEntry.ram e) = e.val

  unfoldable pub time_ordered_eval : RunningEvaluation F → F
  time_ordered_eval (RunningEvaluation.rom e) = e.time_ordered_eval
  time_ordered_eval (RunningEvaluation.ram e) = e.time_ordered_eval

  unfoldable pub addr_ordered_eval : RunningEvaluation F → F
  addr_ordered_eval (RunningEvaluation.rom e) = e.addr_ordered_eval
  addr_ordered_eval (RunningEvaluation.ram e) = e.addr_ordered_eval

  unfoldable pub copy_challenges_from :
      RunningEvaluation F → RunningEvaluation F → Option (RunningEvaluation F)
  copy_challenges_from (RunningEvaluation.rom e) (RunningEvaluation.rom o) =
      some (RunningEvaluation.rom (record e { challenges = o.challenges }))
  copy_challenges_from (RunningEvaluation.ram e) (RunningEvaluation.ram o) =
      some (RunningEvaluation.ram (record e { challenges = o.challenges }))
  copy_challenges_from (RunningEvaluation.rom e) (RunningEvaluation.ram o) = none
  copy_challenges_from (RunningEvaluation.ram e) (RunningEvaluation.rom o) = none

  rom_challenges : Option (F × F) → Option (List F)
  rom_challenges none = none
  rom_challenges (some (a, b)) = some (a ∷ b ∷ [])

  ram_challenges : Option (F × F × F × F) → Option (List F)
  ram_challenges none = none
  ram_challenges (some (a, b, c, d)) = some (a ∷ b ∷ c ∷ d ∷ [])

  unfoldable pub challenges : RunningEvaluation F → Option (List F)
  unfolding rom_challenges ram_challenges
  challenges (RunningEvaluation.rom e) = rom_challenges e.challenges
  challenges (RunningEvaluation.ram e) = ram_challenges e.challenges

  set_rom_challenges : RomRunningEvaluation F → List F → Option (RunningEvaluation F)
  set_rom_challenges e (a ∷ b ∷ []) =
      some (RunningEvaluation.rom (record e { challenges = some (a, b) }))
  set_rom_challenges e _ = none

  set_ram_challenges : RamRunningEvaluation F → List F → Option (RunningEvaluation F)
  set_ram_challenges e (a ∷ b ∷ c ∷ d ∷ []) =
      some (RunningEvaluation.ram (record e { challenges = some (a, b, c, d) }))
  set_ram_challenges e _ = none

  -- `RunningEvaluationVar::set_challenges`, which asserts the number of challenges.
  unfoldable pub set_challenges : RunningEvaluation F → List F → Option (RunningEvaluation F)
  unfolding set_rom_challenges set_ram_challenges
  set_challenges (RunningEvaluation.rom e) cs = set_rom_challenges e cs
  set_challenges (RunningEvaluation.ram e) cs = set_ram_challenges e cs
