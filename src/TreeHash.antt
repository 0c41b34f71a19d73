-- ===== src/TreeHash.antt =====
-- distributed-prover/src/tree_hash_circuit.rs: a Merkle tree that is computed by subcircuits, one for
-- each node.
pub mod Node
pub mod Log
pub mod Level
pub mod Order
pub mod Digest
pub mod Circuit
pub mod Constraints
pub mod Packing
pub mod Progress
pub mod Complete
pub mod Run
pub mod Root
pub mod Whole
pub mod Native
pub mod Children
mod Tests
