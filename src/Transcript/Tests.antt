-- ===== src/Transcript/Tests.antt =====
-- Entries over the numbers.
use hekaton_system.Prelude.{ℕ, ◌≡◌, ◌↔◌, true, false, some, []}
use hekaton_system.Field.Tests.{numbers}
use hekaton_system.Transcript.{RomTranscriptEntryVar, RamTranscriptEntryVar, TranscriptEntryVar}
use hekaton_system.Transcript.Evaluation.{is_padding}
use hekaton_system.Transcript.Agreement.{is_padding_iff}

abbrev ram_entry_var : RamTranscriptEntryVar ℕ
ram_entry_var = record { addr = 2; val = 9; i = record { bits = [] }; read = false }

abbrev rom_entry_var : RomTranscriptEntryVar ℕ
rom_entry_var = record { val = 9; addr = 0 }

is_padding_example :
    ((is_padding (TranscriptEntryVar.ram ram_entry_var) ≡ some true) ↔ (ram_entry_var.read ≡ false))
    × ((is_padding (TranscriptEntryVar.rom rom_entry_var) ≡ some true) ↔ (rom_entry_var.addr ≡ 0))
is_padding_example = is_padding_iff ram_entry_var rom_entry_var
