-- ===== src/Lib.antt =====
-- Verification of Hekaton's trace and directory logic.
--
-- Hekaton splits a large circuit into subcircuits that share wires through portals. The coordinator
-- runs the whole circuit once with a setup portal manager, which records a trace of the wires that are
-- read and written, one subtrace for each subcircuit. It sorts the trace by address, evaluates both
-- orders as running products, and puts the partial products in the leaves of an execution tree. Each
-- worker proves its subcircuit with a prover portal manager, which replays its subtraces, multiplies
-- the entries into the running products, and enforces that the address-ordered trace is a coherent
-- memory. The verifiable key directory is one program that is proved this way: a sparse Merkle tree of
-- keys, and updates whose paths the subcircuits recompute in pieces.
--
-- The files, with the code they are about under distributed-prover/src:
--   Uint32, and under it: uint32.rs, native and circuit counters.
--   Field: what is used of arkworks' PrimeField and its gadgets, an interface with named laws. A circuit
--     variable stands for the value that the assignment gives it.
--   Transcript, Transcript/Evaluation: transcript/mod.rs, rom_transcript.rs, ram_transcript.rs, the entries
--     (RomTranscriptEntry, RamTranscriptEntry), the running evaluations and their circuit forms.
--     Transcript/Product describes the running evaluations as products of the entries' weights.
--   EvalTree: eval_tree.rs, the leaves of the execution tree.
--   Portal: portal_manager/portal_manager.rs; Portal/Rom and Portal/Ram: rom_portal_manager.rs and
--     ram_portal_manager.rs. A manager is its state; get and set are setup_get and setup_set for the
--     coordinator, prover_get and prover_set for a subcircuit. What a prover enforces is gathered in
--     the field `satisfied` of its state.
--   Coordinator: coordinator.rs, sort_subtraces_by_addr and the loops of generate_exec_tree;
--     Coordinator/Responses: the responses of worker.rs and how the coordinator orders them.
--     Coordinator/Stages: generate_exec_tree, the states of both stages (CoordinatorStage0State,
--     CoordinatorStage1State, FinalAggState) and the requests made from them; the functions that the
--     code calls new and gen_request are stage0_new, stage1_new, stage0_gen_request and
--     stage1_gen_request. Coordinator/Worker: worker.rs, how a worker fills its prover from the
--     requests.
--     Chain, Ordered and LeafAt under it follow the leaves, Replay, Honest and Accept run a worker's
--     manager and stage 1, Requests, Filling and BuiltAt go through the states and the requests, and
--     Complete and PublicInputs put them together.
--   SparseTree: vkd/sparse_tree.rs; SparseTree/Split: split of vkd/util.rs; SparseTree/Circuit:
--     vkd/sparse_tree_constraints.rs.
--   Vkd: vkd/vkd.rs, the verification of updates (verify) and the moves by which random makes them;
--     Vkd/Layout: the subcircuits of the updates (vkd_update_to_subcircuit) and their addresses, with the
--     types of vkd/vkd_circuits.rs. Vkd/Wire: the names of the wires of vkd/vkd_circuits.rs.
--     Vkd/Constraints: generate_constraints of vkd/vkd_constraints.rs, with hash_leaf of vkd/hash.rs and
--     fpvar_to_boolean_index of vkd/util.rs. In the model run_subcircuits runs all subcircuits in order,
--     as the test of that file does. Under it, Satisfied, Primitives and Run say what the wires hold
--     after a run, Index, Quarters and Path read a user's index back from its pieces, Native has the
--     field elements of the native hashes, and Built, Roots, Step and Sound go through the updates;
--     Honest fixes the assignment of the inner hashes.
--     Vkd/Hash: hash, hash_var, hash_inner_node and hash_inner_node_var of vkd/hash.rs, over Poseidon and
--     SHA-256. With Poseidon hash_inner_node_var returns a new witness, whose value is a parameter; Free
--     is about the choice that this leaves the prover, Leaf about hash_var.
--     Vkd/Subtraces: get_portal_subtraces of vkd/vkd_constraints.rs, with hash_leaf_to_split_index of
--     vkd/util.rs; Split, Agree, Run and Trace under it compare it with the constraints.
--     Vkd/Serial: the byte forms of vkd/vkd_circuits.rs and the serialized witnesses of
--     vkd/vkd_constraints.rs.
--   TreeHash: tree_hash_circuit.rs, with log2 of util.rs and the packing of digests of vkd/util.rs.
--     TreeHash/Node has the tree math, TreeHash/Circuit the type and calculate_root, TreeHash/Constraints
--     generate_constraints over any portal manager and get_portal_subtraces. In the model
--     run_subcircuits runs generate_constraints on all subcircuits in order.
--   Vm: vm/vm.rs, vm_circuits.rs, memory.rs and vm_constraints.rs, the virtual machine whose subcircuits
--     are runs of register and memory requests, with either memory.
--   Subcircuit: subcircuit_circuit.rs, the circuit that proves one subcircuit, in two stages. The manager
--     (ProverPortalManager) and the circuit (CircuitWithPortals of lib.rs) are records of operations;
--     Portal/Rom and Portal/Ram give the managers.
--
-- Conventions. A panic or an error is `none`. A HashMap is an association list whose newest binding
-- of a key counts, and names are any type with decidable equality. Addresses of 64 bits wrap, as a
-- release build does, and so do the 16-bit counters of the directory; a
-- shift of a number by its width or more is a panic. Counters are lists of bits of
-- any width, 32 in the code. The loops are structural: over lists, over the levels of a tree, and over
-- the rounds of split; the loop of log2 has 64 rounds as fuel, since a 64-bit shift overflows, and the
-- loop of calculate_root as many rounds as there are leaves, since it halves them. The depth of the
-- sparse Merkle tree is a parameter, 128 in the code.
--
-- SHA-256 and Poseidon, the challenges drawn from a commitment, the commitment to the workers' commitments,
-- arkworks' Merkle tree, BigUint::from_bytes_le, the field and its gadgets are parameters. Not
-- modelled: the proof systems (cp-groth16, aggregation.rs, kzg.rs), the distributed runtime
-- (mpi-snark), command lines, benchmarks, byte serialisation other than of the key directory's
-- subcircuits, the generators of the proving keys, and the query circuits (filters, merge sort, tpch).
-- The query circuits are examples over the interface that the directory, the Merkle tree and the
-- virtual machine fill; the others are calls of cryptographic, network and file libraries.
pub mod Prelude
pub mod Uint32
pub mod Field
pub mod Transcript
pub mod EvalTree
pub mod Portal
pub mod Coordinator
pub mod SparseTree
pub mod Vkd
pub mod TreeHash
pub mod Vm
pub mod Subcircuit
