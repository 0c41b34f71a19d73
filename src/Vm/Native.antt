-- ===== src/Vm/Native.antt =====
-- The native loops of the virtual machine against the constraints of its subcircuits.
use hekaton_system.Prelude.{
  ℕ, zero, suc, ◌+◌, ◌≡◌, refl, ap, ◌∙◌, true, false, Option, some, ◌>>=◌, bind_assoc, bind_ext,
  List, Bool-cases, inl, inr, ◌==◌,
}
use hekaton_system.Field.{PrimeField}
use hekaton_system.SparseTree.{InnerHash}
use hekaton_system.Vm.{
  Setup, setup, VirtualMachine, register_num, memory_get, memory_set, get_registers, set_registers,
  do_dummy_operation, generate_constraints, native_gets, native_sets, native_operations,
  native_subcircuit,
}

module _ {ℓ} {F : Type ℓ} ⦃f : PrimeField F⦄ (merkle : Option (List InnerHash)) where
  get_registers-native :
      (n i : ℕ) (pm : Setup F)
      → get_registers {F = F} merkle setup false i n pm ≡ native_gets i n pm
  unfolding get_registers native_gets memory_get
  get_registers-native zero i pm = refl
  get_registers-native (suc n) i pm =
      bind_assoc (setup.get i pm) _ _
      ∙ bind_ext (setup.get i pm) _ _ (λ r. get_registers-native n (i + 1) r.1)

  set_registers-native :
      (n i : ℕ) (pm : Setup F)
      → set_registers {F = F} merkle setup ⦃f = f⦄ false i n pm ≡ native_sets i n pm
  unfolding set_registers native_sets memory_set
  set_registers-native zero i pm = refl
  set_registers-native (suc n) i pm =
      bind_ext (setup.set i f.one_elem pm) _ _ (λ pm'. set_registers-native n (i + 1) pm')

  do_dummy_operation-native :
      (n : ℕ) (pm : Setup F)
      → do_dummy_operation {F = F} merkle setup ⦃f = f⦄ false n pm ≡ native_operations n pm
  unfolding do_dummy_operation native_operations memory_get memory_set
  do_dummy_operation-native zero pm = refl
  do_dummy_operation-native (suc n) pm = bind_ext (setup.set 1 f.one_elem pm) _ _ λ pm1.
      bind_assoc (setup.get 1 pm1) _ _
      ∙ bind_ext (setup.get 1 pm1) _ _ λ r.
        bind_assoc (setup.get 1 r.1) _ _
        ∙ bind_ext (setup.get 1 r.1) _ _ λ r'. do_dummy_operation-native n r'.1

  first_subcircuit :
      (ops : ℕ) (pm : Setup F)
      → (set_registers {F = F} merkle setup ⦃f = f⦄ false 0 register_num pm
          >>= do_dummy_operation {F = F} merkle setup ⦃f = f⦄ false ops)
        ≡ (native_sets 0 register_num pm >>= native_operations ops)
  first_subcircuit ops pm =
      ap (λ (m : Option (Setup F)). m >>= do_dummy_operation {F = F} merkle setup ⦃f = f⦄ false ops)
        (set_registers-native register_num 0 pm)
      ∙ bind_ext (native_sets 0 register_num pm) _ _ (do_dummy_operation-native ops)

  later_subcircuit :
      (ops : ℕ) (pm : Setup F)
      → (get_registers {F = F} merkle setup false 0 register_num pm >>= λ s1.
          do_dummy_operation {F = F} merkle setup ⦃f = f⦄ false ops s1 >>= λ s2.
          set_registers {F = F} merkle setup ⦃f = f⦄ false 0 register_num s2)
        ≡ (native_gets 0 register_num pm >>= λ pm1.
            native_operations ops pm1 >>= λ pm2. native_sets 0 register_num pm2)
  later_subcircuit ops pm =
      let sets =
        λ (s2 : Setup F). set_registers {F = F} merkle setup ⦃f = f⦄ false 0 register_num s2 in
      ap
        (λ (m : Option (Setup F)).
          m >>= λ s1. do_dummy_operation {F = F} merkle setup ⦃f = f⦄ false ops s1 >>= sets)
        (get_registers-native register_num 0 pm)
      ∙ bind_ext (native_gets 0 register_num pm) _ _ λ pm1.
        ap (λ (m : Option (Setup F)). m >>= sets) (do_dummy_operation-native ops pm1)
        ∙ bind_ext (native_operations ops pm1) _ _ (set_registers-native register_num 0)

  memory_case :
      (vm : VirtualMachine F) (idx : ℕ) (pm : Setup F)
      → vm.params.use_merkle_memory ≡ false
      → generate_constraints {F = F} merkle setup ⦃f = f⦄ vm idx pm ≡ native_subcircuit vm idx pm
  unfolding generate_constraints native_subcircuit
  memory_case vm idx pm e =
      let ops = vm.params.operations_per_chunk in
      elim (Bool-cases (idx == 0)) [
        | inl first ↦
            rw (first, e, generate_constraints, native_subcircuit) (first_subcircuit ops pm)
        | inr later ↦
            rw (later, e, generate_constraints, native_subcircuit) (later_subcircuit ops pm)
      ]

module _ {ℓ} {F : Type ℓ} ⦃f : PrimeField F⦄ (merkle : Option (List InnerHash))
    (path : List InnerHash) (verifies : merkle ≡ some path) where
  memory_get-merkle :
      (name : ℕ) (s : Setup F) → memory_get {F = F} merkle setup true name s ≡ some s
  unfolding memory_get
  memory_get-merkle name s = rw (verifies, memory_get) refl

  memory_set-merkle :
      (name : ℕ) (v : F) (s : Setup F) → memory_set {F = F} merkle setup true name v s ≡ some s
  unfolding memory_set
  memory_set-merkle name v s = rw (verifies, memory_set) refl

  get_registers-merkle :
      (n i : ℕ) (s : Setup F) → get_registers {F = F} merkle setup true i n s ≡ some s
  unfolding get_registers
  get_registers-merkle zero i s = refl
  get_registers-merkle (suc n) i s =
      rw (memory_get-merkle i s, get_registers) (get_registers-merkle n (i + 1) s)

  set_registers-merkle :
      (n i : ℕ) (s : Setup F) → set_registers {F = F} merkle setup ⦃f = f⦄ true i n s ≡ some s
  unfolding set_registers
  set_registers-merkle zero i s = refl
  set_registers-merkle (suc n) i s =
      rw (memory_set-merkle i f.one_elem s, set_registers) (set_registers-merkle n (i + 1) s)

  do_dummy_operation-merkle :
      (n : ℕ) (s : Setup F) → do_dummy_operation {F = F} merkle setup ⦃f = f⦄ true n s ≡ some s
  unfolding do_dummy_operation
  do_dummy_operation-merkle zero s = refl
  do_dummy_operation-merkle (suc n) s =
      rw (memory_set-merkle 1 f.one_elem s, do_dummy_operation)
        (rw (memory_get-merkle 1 s) (rw (memory_get-merkle 1 s) (do_dummy_operation-merkle n s)))

  merkle_case :
      (vm : VirtualMachine F) (idx : ℕ) (pm : Setup F)
      → vm.params.use_merkle_memory ≡ true
      → generate_constraints {F = F} merkle setup ⦃f = f⦄ vm idx pm ≡ some pm
  unfolding generate_constraints
  merkle_case vm idx pm e =
      let ops = vm.params.operations_per_chunk in
      elim (Bool-cases (idx == 0)) [
        | inl first ↦
            rw (first, e, generate_constraints)
              (rw (set_registers-merkle register_num 0 pm) (do_dummy_operation-merkle ops pm))
        | inr later ↦
            rw (later, e, generate_constraints)
              (rw (get_registers-merkle register_num 0 pm)
                (rw (do_dummy_operation-merkle ops pm) (set_registers-merkle register_num 0 pm)))
      ]

module _ {ℓ} {F : Type ℓ} ⦃f : PrimeField F⦄ where
  -- Let the verification of a Merkle path not panic. With the coordinator's manager the constraints
  -- of a subcircuit do what the native run does for it, where the machine keeps its registers in the
  -- portals. With Merkle memory they make no request, whatever the native run records.
  pub generate_constraints-native_subcircuit :
      (merkle : Option (List InnerHash)) (path : List InnerHash) (vm : VirtualMachine F) (idx : ℕ)
      (pm : Setup F)
      → merkle ≡ some path
      → (vm.params.use_merkle_memory ≡ false
          → generate_constraints {F = F} merkle setup ⦃f = f⦄ vm idx pm
            ≡ native_subcircuit vm idx pm)
        × (vm.params.use_merkle_memory ≡ true
            → generate_constraints {F = F} merkle setup ⦃f = f⦄ vm idx pm ≡ some pm)
  generate_constraints-native_subcircuit merkle path vm idx pm h =
      (memory_case merkle vm idx pm, merkle_case merkle path h vm idx pm)
