-- ===== src/Transcript/Evaluation.antt =====
-- The operations of distributed-prover/src/transcript/ that compute in the field: defaults, paddings,
-- updates of the running evaluations, serialisation, and the circuit's forms of these.
use Prim.Native.String.{String}
use hekaton_system.Prelude.{
  ℕ, ◌+◌, ◌^◌, Bool, false, not, Option, none, some, List, [], ◌∷◌, if◌then◌else◌,
}
use hekaton_system.Uint32.{Unsigned32, representation}
use hekaton_system.Uint32
use hekaton_system.Uint32.Value.{of_bit}
use hekaton_system.Field.{PrimeField}
use hekaton_system.Transcript.{
  MemType, RomTranscriptEntry, RamTranscriptEntry, TranscriptEntry, RomTranscriptEntryVar,
  RamTranscriptEntryVar, TranscriptEntryVar, RomRunningEvaluation, RamRunningEvaluation,
  RunningEvaluation, and_result,
}

-- `Unsigned32::as_field_elem`: a fold of additions of `F::from(1u64 << index)`.
module _ {ℓ} {F : Type ℓ} ⦃f : PrimeField F⦄ where
  unfoldable pub as_field_elem_from : List Bool → ℕ → F → F
  as_field_elem_from [] index acc = acc
  as_field_elem_from (bit ∷ bits) index acc =
      as_field_elem_from bits (index + 1) (if bit then f.add acc (f.from_uint (2 ^ index)) else acc)

  unfoldable pub as_field_elem : Unsigned32 → F
  unfolding as_field_elem_from
  as_field_elem u = as_field_elem_from u.bits 0 f.zero_elem

  -- Paddings.
  abbrev pub rom_padding : RomTranscriptEntry F
  rom_padding = record { addr = 0; val = f.zero_elem }

  abbrev pub ram_padding : RamTranscriptEntry F
  ram_padding = record { addr = 0; val = f.zero_elem; i = Uint32.default; read = false }

  unfoldable pub padding : MemType → TranscriptEntry F
  padding MemType.ram = TranscriptEntry.ram ram_padding
  padding MemType.rom = TranscriptEntry.rom rom_padding

  -- `Default` of the running evaluations.
  unfoldable pub default : MemType → RunningEvaluation F
  default MemType.ram =
      RunningEvaluation.ram (record {
        time_ordered_eval = f.one_elem;
        addr_ordered_eval = f.one_elem;
        challenges = none;
      })
  default MemType.rom =
      RunningEvaluation.rom (record {
        time_ordered_eval = f.one_elem;
        addr_ordered_eval = f.one_elem;
        challenges = none;
      })

  -- The updates of `RomRunningEvaluation`.
  unfoldable pub rom_entry_repr : F → RomTranscriptEntry F → F
  rom_entry_repr entry_chal e = f.add e.val (f.mul entry_chal (f.from_uint e.addr))

  unfoldable pub rom_update_time_ordered :
      RomRunningEvaluation F → RomTranscriptEntry F → Option (RomRunningEvaluation F)
  unfolding rom_entry_repr
  rom_update_time_ordered ev e = elim ev.challenges [
    | none ↦ none
    | some (entry_chal, tr_chal) ↦ some (record ev {
      time_ordered_eval = f.mul ev.time_ordered_eval (f.sub tr_chal (rom_entry_repr entry_chal e));
    })
  ]

  unfoldable pub rom_update_addr_ordered :
      RomRunningEvaluation F → RomTranscriptEntry F → Option (RomRunningEvaluation F)
  unfolding rom_entry_repr
  rom_update_addr_ordered ev e = elim ev.challenges [
    | none ↦ none
    | some (entry_chal, tr_chal) ↦ some (record ev {
      addr_ordered_eval = f.mul ev.addr_ordered_eval (f.sub tr_chal (rom_entry_repr entry_chal e));
    })
  ]

  -- The updates of `RamRunningEvaluation`.
  unfoldable pub ram_entry_repr : F → F → F → RamTranscriptEntry F → F
  ram_entry_repr entry_chal_1 entry_chal_2 entry_chal_3 e =
      f.add
        (f.add (f.add e.val (f.mul entry_chal_1 (f.from_uint e.addr)))
          (f.mul entry_chal_2 (f.from_uint (representation e.i))))
        (f.mul entry_chal_3 (f.from_uint (of_bit e.read)))

  unfoldable pub ram_update_time_ordered :
      RamRunningEvaluation F → RamTranscriptEntry F → Option (RamRunningEvaluation F)
  ram_update_time_ordered ev e = elim ev.challenges [
    | none ↦ none
    | some (c1, c2, c3, tr_chal) ↦ some (record ev {
      time_ordered_eval = f.mul ev.time_ordered_eval (f.sub tr_chal (ram_entry_repr c1 c2 c3 e));
    })
  ]

  unfoldable pub ram_update_addr_ordered :
      RamRunningEvaluation F → RamTranscriptEntry F → Option (RamRunningEvaluation F)
  ram_update_addr_ordered ev e = elim ev.challenges [
    | none ↦ none
    | some (c1, c2, c3, tr_chal) ↦ some (record ev {
      addr_ordered_eval = f.mul ev.addr_ordered_eval (f.sub tr_chal (ram_entry_repr c1 c2 c3 e));
    })
  ]

  map_rom : Option (RomRunningEvaluation F) → Option (RunningEvaluation F)
  map_rom none = none
  map_rom (some e) = some (RunningEvaluation.rom e)

  map_ram : Option (RamRunningEvaluation F) → Option (RunningEvaluation F)
  map_ram none = none
  map_ram (some e) = some (RunningEvaluation.ram e)

  -- `RunningEvaluation::update_time_ordered`, which panics on an entry of the other kind.
  unfoldable pub update_time_ordered :
      RunningEvaluation F → TranscriptEntry F → Option (RunningEvaluation F)
  unfolding map_rom map_ram
  update_time_ordered (RunningEvaluation.rom ev) (TranscriptEntry.rom e) =
      map_rom (rom_update_time_ordered ev e)
  update_time_ordered (RunningEvaluation.ram ev) (TranscriptEntry.ram e) =
      map_ram (ram_update_time_ordered ev e)
  update_time_ordered (RunningEvaluation.rom ev) (TranscriptEntry.ram e) = none
  update_time_ordered (RunningEvaluation.ram ev) (TranscriptEntry.rom e) = none

  unfoldable pub update_addr_ordered :
      RunningEvaluation F → TranscriptEntry F → Option (RunningEvaluation F)
  unfolding map_rom map_ram
  update_addr_ordered (RunningEvaluation.rom ev) (TranscriptEntry.rom e) =
      map_rom (rom_update_addr_ordered ev e)
  update_addr_ordered (RunningEvaluation.ram ev) (TranscriptEntry.ram e) =
      map_ram (ram_update_addr_ordered ev e)
  update_addr_ordered (RunningEvaluation.rom ev) (TranscriptEntry.ram e) = none
  update_addr_ordered (RunningEvaluation.ram ev) (TranscriptEntry.rom e) = none

  -- `ToConstraintField` of the entries, and its gadget.
  unfoldable pub to_field_elements : TranscriptEntry F → List F
  unfolding as_field_elem
  to_field_elements (TranscriptEntry.rom e) = f.from_uint e.addr ∷ e.val ∷ []
  to_field_elements (TranscriptEntry.ram e) =
      f.from_uint e.addr ∷ e.val ∷ as_field_elem e.i ∷ f.from_uint (of_bit e.read) ∷ []

  unfoldable pub to_constraint_field : TranscriptEntryVar F → List F
  to_constraint_field (TranscriptEntryVar.rom e) = e.addr ∷ e.val ∷ []
  to_constraint_field (TranscriptEntryVar.ram e) =
      e.addr ∷ e.val ∷ f.le_bits_to_fp e.i.bits ∷ f.from_uint (of_bit e.read) ∷ []

  -- `new_variable` of the entries: what is witnessed for a native entry.
  unfoldable pub new_rom_entry_var : RomTranscriptEntry F → RomTranscriptEntryVar F
  new_rom_entry_var e = record { val = e.val; addr = f.from_uint e.addr }

  unfoldable pub new_ram_entry_var : RamTranscriptEntry F → RamTranscriptEntryVar F
  new_ram_entry_var e = record { addr = f.from_uint e.addr; val = e.val; i = e.i; read = e.read }

  unfoldable pub new_entry_var : TranscriptEntry F → TranscriptEntryVar F
  unfolding new_rom_entry_var new_ram_entry_var
  new_entry_var (TranscriptEntry.rom e) = TranscriptEntryVar.rom (new_rom_entry_var e)
  new_entry_var (TranscriptEntry.ram e) = TranscriptEntryVar.ram (new_ram_entry_var e)

  -- `new_variable` of the running evaluations leaves the challenges unset.
  unfoldable pub new_evaluation_var : RunningEvaluation F → RunningEvaluation F
  new_evaluation_var (RunningEvaluation.rom ev) =
      RunningEvaluation.rom (record ev { challenges = none })
  new_evaluation_var (RunningEvaluation.ram ev) =
      RunningEvaluation.ram (record ev { challenges = none })

  -- The circuit's updates, on entries of variables.
  unfoldable pub rom_var_update_time_ordered :
      RomRunningEvaluation F → RomTranscriptEntryVar F → Option (RomRunningEvaluation F)
  rom_var_update_time_ordered ev e = elim ev.challenges [
    | none ↦ none
    | some (entry_chal, tr_chal) ↦
        let entry_repr = f.add e.val (f.mul entry_chal e.addr) in
        some
          (record ev { time_ordered_eval = f.mul ev.time_ordered_eval (f.sub tr_chal entry_repr) })
  ]

  unfoldable pub rom_var_update_addr_ordered :
      RomRunningEvaluation F → RomTranscriptEntryVar F → Option (RomRunningEvaluation F)
  rom_var_update_addr_ordered ev e = elim ev.challenges [
    | none ↦ none
    | some (entry_chal, tr_chal) ↦
        let entry_repr = f.add e.val (f.mul entry_chal e.addr) in
        some
          (record ev { addr_ordered_eval = f.mul ev.addr_ordered_eval (f.sub tr_chal entry_repr) })
  ]

  unfoldable pub ram_var_entry_repr : F → F → F → RamTranscriptEntryVar F → F
  ram_var_entry_repr entry_chal_1 entry_chal_2 entry_chal_3 e =
      f.add
        (f.add (f.add e.val (f.mul entry_chal_1 e.addr))
          (f.mul entry_chal_2 (f.le_bits_to_fp e.i.bits)))
        (f.mul entry_chal_3 (f.from_uint (of_bit e.read)))

  unfoldable pub ram_var_update_time_ordered :
      RamRunningEvaluation F → RamTranscriptEntryVar F → Option (RamRunningEvaluation F)
  ram_var_update_time_ordered ev e = elim ev.challenges [
    | none ↦ none
    | some (c1, c2, c3, tr_chal) ↦ some (record ev {
      time_ordered_eval =
          f.mul ev.time_ordered_eval (f.sub tr_chal (ram_var_entry_repr c1 c2 c3 e));
    })
  ]

  unfoldable pub ram_var_update_addr_ordered :
      RamRunningEvaluation F → RamTranscriptEntryVar F → Option (RamRunningEvaluation F)
  ram_var_update_addr_ordered ev e = elim ev.challenges [
    | none ↦ none
    | some (c1, c2, c3, tr_chal) ↦ some (record ev {
      addr_ordered_eval =
          f.mul ev.addr_ordered_eval (f.sub tr_chal (ram_var_entry_repr c1 c2 c3 e));
    })
  ]

  -- `is_padding`. Its `and` is the one of `Result`, which keeps the last test only.
  unfoldable pub is_padding : TranscriptEntryVar F → Option Bool
  is_padding (TranscriptEntryVar.rom e) =
      and_result (some (f.is_eq e.addr f.zero_elem)) (some (f.is_eq e.addr f.zero_elem))
  is_padding (TranscriptEntryVar.ram e) =
      and_result
        (and_result
          (and_result (some (f.is_eq e.addr f.zero_elem)) (some (f.is_eq e.addr f.zero_elem)))
          (some (f.is_eq (f.le_bits_to_fp e.i.bits) f.zero_elem)))
        (some (not e.read))

-- `RunningEvaluation::new`: the challenges are hashes of the commitment under fixed labels. `hash`
-- stands for SHA-256 of the label and the serialised commitment, read as a field element.
module _ {ℓ κ} {F : Type ℓ} {Com : Type κ} ⦃f : PrimeField F⦄ (hash : String → Com → F) where
  unfoldable pub new : MemType → Com → RunningEvaluation F
  new MemType.ram commitment = RunningEvaluation.ram (record {
    time_ordered_eval = f.one_elem;
    addr_ordered_eval = f.one_elem;
    challenges = some (
      hash "entry_chal_1" commitment,
      hash "entry_chal_2" commitment,
      hash "entry_chal_3" commitment,
      hash "tr_chal" commitment,
    );
  })
  new MemType.rom commitment = RunningEvaluation.rom (record {
    time_ordered_eval = f.one_elem;
    addr_ordered_eval = f.one_elem;
    challenges = some (hash "entry_chal" commitment, hash "tr_chal" commitment);
  })
