-- ===== src/Vm.antt =====
-- distributed-prover/src/vm/: the virtual machine, whose subcircuits read and write sixteen registers
-- through the portals. The name "register {i}" of a wire is the number of the register. The values of
-- the dummy multiplications and the Merkle root are thrown away, as in the code.
pub mod Requests
pub mod Native
pub mod Memory
mod Tests
use hekaton_system.Prelude.{
  ℕ, zero, suc, ◌+◌, ◌*◌, ◌^◌, Bool, true, false, Option, none, some, ◌>>=◌, List, [], ◌∷◌, map,
  replicate, if◌then◌else◌, ltb, ◌==◌, ℕ_discrete,
}
use hekaton_system.Field.{PrimeField}
use hekaton_system.Transcript.{TranscriptEntry}
use hekaton_system.Portal.{PortalManager}
use hekaton_system.Portal.Ram.{SetupRamPortalManager, new_setup, start_subtrace, setup_manager}
use hekaton_system.SparseTree.{Bytes, InnerHash, leaf, new, get_index, insert_node, lookup_path}

abbrev pub register_num : ℕ
register_num = 16

pub record VirtualMachineParameters : Type 0 where
  pub use_merkle_memory : Bool
  pub log_num_subcircuit : ℕ
  pub dummy_constraint_num : ℕ
  pub operations_per_chunk : ℕ

pub record VirtualMachine {ℓ} (F : Type ℓ) : Type ℓ where
  pub registers : List F
  pub params : VirtualMachineParameters

unfoldable pub new_machine {ℓ} :
    {F : Type ℓ} → ⦃f : PrimeField F⦄ → VirtualMachineParameters → VirtualMachine F
new_machine ⦃f⦄ params = record { registers = replicate register_num f.zero_elem; params = params }

-- `vm_to_subcircuits`: in each chunk as many dummy circuits as there are operations. The number of
-- chunks is an `i32`, negative for the exponent 31, where the range is empty; a larger exponent is a
-- panic.
unfoldable pub vm_to_subcircuits {ℓ} :
    {F : Type ℓ} → VirtualMachine F → Option (List (List (Unit {0})))
vm_to_subcircuits vm =
    let log = vm.params.log_num_subcircuit in
    if ltb log 31
    then some (replicate (2 ^ log) (replicate vm.params.operations_per_chunk tt))
    else if log == 31
    then some []
    else none

-- `1 << log_num_subcircuit` on 64 bits: a shift by 64 or more is a panic.
unfoldable pub num_subcircuits {ℓ} : {F : Type ℓ} → VirtualMachine F → Option ℕ
num_subcircuits vm =
    if ltb vm.params.log_num_subcircuit 64 then some (2 ^ vm.params.log_num_subcircuit) else none

unfoldable pub representative_subcircuit : ℕ → ℕ
representative_subcircuit subcircuit_idx = if subcircuit_idx == 0 then 0 else 1

abbrev pub merkle_memory_depth : ℕ
merkle_memory_depth = 32

module _ (hash : Bytes → Bytes) (from_bytes_le : Bytes → ℕ) (hash_leaf : Bytes → InnerHash)
    (hash_inner_node : InnerHash → InnerHash → InnerHash) where
  -- A fixed leaf is put in an empty tree, and its path is looked up.
  unfoldable pub merkle_path_verification : Option (List InnerHash)
  merkle_path_verification = do
    index ← get_index from_bytes_le (hash (replicate 32 1)) merkle_memory_depth
    tree ←
        insert_node hash_leaf hash_inner_node index (replicate 32 1) leaf
          (new hash_leaf hash_inner_node merkle_memory_depth)
    lookup_path tree index.index index.depth

-- `merkle` is `merkle_path_verification`: whether it panics.
module _ {ℓ κ} {F : Type ℓ} {S : Type κ} (merkle : Option (List InnerHash))
    (pm : PortalManager ℕ F S) where
  -- `Memory::get` and `Memory::set`, which ask the portal manager or verify Merkle paths instead.
  unfoldable pub memory_get : Bool → ℕ → S → Option S
  memory_get true name s = do path ← merkle; some s
  memory_get false name s = do (v, s') ← pm.get name s; some s'

  unfoldable pub memory_set : Bool → ℕ → F → S → Option S
  memory_set true name val s = do path ← merkle; path' ← merkle; some s
  memory_set false name val s = pm.set name val s

  -- The loops over the registers, from a register on.
  unfoldable pub get_registers : Bool → ℕ → ℕ → S → Option S
  get_registers use_merkle i zero s = some s
  get_registers use_merkle i (suc left) s = do
    s' ← memory_get use_merkle i s
    get_registers use_merkle (i + 1) left s'

  unfoldable pub set_registers : ⦃f : PrimeField F⦄ → Bool → ℕ → ℕ → S → Option S
  set_registers ⦃f⦄ use_merkle i zero s = some s
  set_registers ⦃f⦄ use_merkle i (suc left) s = do
    s' ← memory_set use_merkle i f.one_elem s
    set_registers ⦃f = f⦄ use_merkle (i + 1) left s'

  unfoldable pub do_dummy_operation : ⦃f : PrimeField F⦄ → Bool → ℕ → S → Option S
  do_dummy_operation ⦃f⦄ use_merkle zero s = some s
  do_dummy_operation ⦃f⦄ use_merkle (suc left) s = do
    s1 ← memory_set use_merkle 1 f.one_elem s
    s2 ← memory_get use_merkle 1 s1
    s3 ← memory_get use_merkle 1 s2
    do_dummy_operation ⦃f = f⦄ use_merkle left s3

  unfoldable pub generate_constraints : ⦃f : PrimeField F⦄ → VirtualMachine F → ℕ → S → Option S
  generate_constraints ⦃f⦄ vm subcircuit_idx s =
      let merkle_memory = vm.params.use_merkle_memory in
      if subcircuit_idx == 0
      then (do
        s1 ← set_registers ⦃f = f⦄ merkle_memory 0 register_num s
        do_dummy_operation ⦃f = f⦄ merkle_memory vm.params.operations_per_chunk s1)
      else (do
        s1 ← get_registers merkle_memory 0 register_num s
        s2 ← do_dummy_operation ⦃f = f⦄ merkle_memory vm.params.operations_per_chunk s1
        set_registers ⦃f = f⦄ merkle_memory 0 register_num s2)

abbrev pub Setup {ℓ} : Type ℓ → Type ℓ
Setup F = SetupRamPortalManager ℕ F

abbrev pub setup {ℓ} : {F : Type ℓ} → PortalManager ℕ F (Setup F)
setup = setup_manager ℕ_discrete

module _ {ℓ} {F : Type ℓ} ⦃f : PrimeField F⦄ where
  -- The native loops of `get_portal_subtraces`.
  unfoldable pub native_gets : ℕ → ℕ → Setup F → Option (Setup F)
  native_gets i zero pm = some pm
  native_gets i (suc left) pm = do (v, pm') ← setup.get i pm; native_gets (i + 1) left pm'

  unfoldable pub native_sets : ℕ → ℕ → Setup F → Option (Setup F)
  native_sets i zero pm = some pm
  native_sets i (suc left) pm = do pm' ← setup.set i f.one_elem pm; native_sets (i + 1) left pm'

  unfoldable pub native_operations : ℕ → Setup F → Option (Setup F)
  native_operations zero pm = some pm
  native_operations (suc left) pm = do
    pm1 ← setup.set 1 f.one_elem pm
    (v, pm2) ← setup.get 1 pm1
    (w, pm3) ← setup.get 1 pm2
    native_operations left pm3

  unfoldable pub native_subcircuit : VirtualMachine F → ℕ → Setup F → Option (Setup F)
  native_subcircuit vm subcircuit_idx pm =
      if subcircuit_idx == 0
      then (do
        pm1 ← native_sets 0 register_num pm
        native_operations vm.params.operations_per_chunk pm1)
      else (do
        pm1 ← native_gets 0 register_num pm
        pm2 ← native_operations vm.params.operations_per_chunk pm1
        native_sets 0 register_num pm2)

  -- The loop over the subcircuits, from an index on.
  unfoldable pub native_subcircuits : VirtualMachine F → ℕ → ℕ → Setup F → Option (Setup F)
  native_subcircuits vm subcircuit_idx zero pm = some pm
  native_subcircuits vm subcircuit_idx (suc left) pm = do
    pm' ← native_subcircuit vm subcircuit_idx (start_subtrace pm)
    native_subcircuits vm (subcircuit_idx + 1) left pm'

  unfoldable pub get_portal_subtraces : VirtualMachine F → Option (List (List (TranscriptEntry F)))
  get_portal_subtraces vm = do
    n ← num_subcircuits vm
    pm ← native_subcircuits vm 0 n new_setup
    some (map (map TranscriptEntry.ram) pm.subtraces)
