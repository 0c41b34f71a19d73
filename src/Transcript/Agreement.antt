-- ===== src/Transcript/Agreement.antt =====
-- The circuit's transcript operations against the native ones, and what `is_padding` accepts.
use hekaton_system.Prelude.{
  ℕ, ◌+◌, ◌*◌, ◌^◌, ◌≡◌, refl, sym, ap, ◌∙◌, ◌↔◌, Bool, true, false, some, List, [], ◌∷◌, arith,
  two_pow-add-one-mul, Option-cases, inl, inr,
}
use hekaton_system.Uint32.{Unsigned32}
use hekaton_system.Uint32.Value.{of_bit, of_bits, representation-of_bits}
use hekaton_system.Field.{PrimeField}
use hekaton_system.Transcript.{
  RomTranscriptEntry, RamTranscriptEntry, TranscriptEntry, RomTranscriptEntryVar,
  RamTranscriptEntryVar, TranscriptEntryVar, RomRunningEvaluation, RamRunningEvaluation,
}
use hekaton_system.Transcript.Evaluation.{
  as_field_elem_from, as_field_elem, rom_update_time_ordered, rom_update_addr_ordered,
  ram_entry_repr, ram_update_time_ordered, ram_update_addr_ordered, to_field_elements,
  to_constraint_field, new_rom_entry_var, new_ram_entry_var, new_entry_var,
  rom_var_update_time_ordered, rom_var_update_addr_ordered, ram_var_entry_repr,
  ram_var_update_time_ordered, ram_var_update_addr_ordered, is_padding,
}

module _ {ℓ} {F : Type ℓ} ⦃f : PrimeField F⦄ where
  -- The fold over the bits is the field element of the number.
  as_field_elem_from-of_bits :
      (bs : List Bool) (i n : ℕ)
      → as_field_elem_from bs i (f.from_uint n) ≡ f.from_uint (n + 2 ^ i * of_bits bs)
  unfolding as_field_elem_from
  as_field_elem_from-of_bits [] i n = ap f.from_uint (omega arith)
  as_field_elem_from-of_bits (true ∷ bs) i n =
      ap (as_field_elem_from bs (i + 1)) (sym (f.from_uint-add n (2 ^ i)))
      ∙ as_field_elem_from-of_bits bs (i + 1) (n + 2 ^ i)
      ∙ ap f.from_uint (omega (arith, two_pow-add-one-mul i (of_bits bs)))
  as_field_elem_from-of_bits (false ∷ bs) i n =
      as_field_elem_from-of_bits bs (i + 1) n
      ∙ ap f.from_uint (omega (arith, two_pow-add-one-mul i (of_bits bs)))

  as_field_elem-le_bits : (u : Unsigned32) → f.le_bits_to_fp u.bits ≡ as_field_elem u
  unfolding as_field_elem
  as_field_elem-le_bits u =
      f.le_bits_to_fp_lem u.bits
      ∙ ap f.from_uint (omega arith)
      ∙ sym (as_field_elem_from-of_bits u.bits 0 0)
      ∙ ap (as_field_elem_from u.bits 0) f.from_uint-zero

  -- A witnessed entry serialises in the circuit as the native entry does.
  pub to_constraint_field-new_entry_var :
      (e : TranscriptEntry F) → to_constraint_field (new_entry_var e) ≡ to_field_elements e
  unfolding to_constraint_field new_entry_var to_field_elements
  to_constraint_field-new_entry_var (TranscriptEntry.rom e) = refl
  to_constraint_field-new_entry_var (TranscriptEntry.ram e) = rw (as_field_elem-le_bits e.i)

  ram_var_entry_repr-new :
      (c1 c2 c3 : F) (e : RamTranscriptEntry F)
      → ram_var_entry_repr c1 c2 c3 (new_ram_entry_var e) ≡ ram_entry_repr c1 c2 c3 e
  unfolding ram_var_entry_repr ram_entry_repr new_ram_entry_var
  ram_var_entry_repr-new c1 c2 c3 e =
      ap
        (λ t.
          f.add (f.add (f.add e.val (f.mul c1 (f.from_uint e.addr))) (f.mul c2 t))
            (f.mul c3 (f.from_uint (of_bit e.read))))
        (f.le_bits_to_fp_lem e.i.bits ∙ ap f.from_uint (sym (representation-of_bits e.i)))

  -- On witnessed entries the circuit updates the ROM evaluations as the native code does.
  pub rom_var_update-new :
      (ev : RomRunningEvaluation F) (e : RomTranscriptEntry F)
      → (rom_var_update_time_ordered ev (new_rom_entry_var e) ≡ rom_update_time_ordered ev e)
        × (rom_var_update_addr_ordered ev (new_rom_entry_var e) ≡ rom_update_addr_ordered ev e)
  unfolding rom_var_update_time_ordered rom_var_update_addr_ordered rom_update_time_ordered
      rom_update_addr_ordered new_rom_entry_var
  rom_var_update-new ev e = (refl, refl)

  -- On witnessed entries the circuit updates the RAM evaluations as the native code does.
  pub ram_var_update-new :
      (ev : RamRunningEvaluation F) (e : RamTranscriptEntry F)
      → (ram_var_update_time_ordered ev (new_ram_entry_var e) ≡ ram_update_time_ordered ev e)
        × (ram_var_update_addr_ordered ev (new_ram_entry_var e) ≡ ram_update_addr_ordered ev e)
  unfolding ram_var_update_time_ordered ram_var_update_addr_ordered ram_update_time_ordered
      ram_update_addr_ordered
  ram_var_update-new ev e = elim (Option-cases ev.challenges) [
    | inl h ↦ (
      rw (h, ram_var_update_time_ordered, ram_update_time_ordered),
      rw (h, ram_var_update_addr_ordered, ram_update_addr_ordered),
    )
    | inr (cs, h) ↦ (
      rw (h, ram_var_update_time_ordered, ram_update_time_ordered)
          (rw (ram_var_entry_repr-new cs.0 cs.1 cs.2 e)),
      rw (h, ram_var_update_addr_ordered, ram_update_addr_ordered)
          (rw (ram_var_entry_repr-new cs.0 cs.1 cs.2 e)),
    )
  ]

  -- A RAM entry passes `is_padding` exactly when it is no read, and a ROM entry exactly when its
  -- address is zero: no other field is looked at.
  pub is_padding_iff :
      (e : RamTranscriptEntryVar F) (r : RomTranscriptEntryVar F)
      → ((is_padding (TranscriptEntryVar.ram e) ≡ some true) ↔ (e.read ≡ false))
        × ((is_padding (TranscriptEntryVar.rom r) ≡ some true) ↔ (r.addr ≡ f.zero_elem))
  unfolding is_padding
  is_padding_iff e r = ground (arith, f.is_eq_iff r.addr f.zero_elem)
