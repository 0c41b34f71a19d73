-- ===== src/TreeHash/Circuit.antt =====
-- tree_hash_circuit.rs: MerkleTreeCircuit. The names of the wires, "node {i} hash" and
-- "placeholder", are a data type, SHA-256 is a parameter, and the constraints of a subcircuit are the
-- Boolean that its run returns. A panic or an error is `none`.
use hekaton_system.Prelude.{
  ℕ, zero, suc, ◌-◌, ◌*◌, ◌/◌, Option, none, some, ◌>>=◌, List, [], ◌∷◌, ◌++◌, length, ℕ_discrete,
  take, replicate, if◌then◌else◌, ltb, leb, ◌==◌,
}
use hekaton_system.SparseTree.{Bytes, InnerHash, inner_hash_size}
use hekaton_system.TreeHash.Node.{level}

pub data WireName : Type 0 where
  node_hash : ℕ → WireName
  placeholder : WireName

pub WireName-discrete : Discrete WireName
WireName-discrete = hlevel (ℕ_discrete)

pub record MerkleTreeCircuitParams : Type 0 where
  pub num_leaves : ℕ
  pub num_sha_iters_per_subcircuit : ℕ
  pub num_portals_per_subcircuit : ℕ

pub record MerkleTreeCircuit : Type 0 where
  pub leaves : List Bytes
  pub root_hash : InnerHash
  pub params : MerkleTreeCircuitParams

abbrev pub empty_leaf : Bytes
empty_leaf = replicate 64 0

abbrev pub num_subcircuits : MerkleTreeCircuit → ℕ
num_subcircuits c = 2 * length c.leaves

-- `new`, which asserts that there is an iteration.
unfoldable pub new : MerkleTreeCircuitParams → Option MerkleTreeCircuit
new params =
    if ltb 0 params.num_sha_iters_per_subcircuit
    then some (record {
      leaves = replicate params.num_leaves empty_leaf;
      root_hash = replicate inner_hash_size 0;
      params = params;
    })
    else none

-- The subcircuits that a proving key is made for; a difference below 0 panics.
unfoldable pub get_unique_subcircuits : MerkleTreeCircuit → Option (List ℕ)
get_unique_subcircuits c =
    let n = num_subcircuits c in
    if ltb n 3 then none else some (0 ∷ 1 ∷ (n - 1) ∷ (n - 2) ∷ (n - 3) ∷ [])

-- `n - 3` is computed when the index is past the first half.
unfoldable pub representative_subcircuit : MerkleTreeCircuit → ℕ → Option ℕ
representative_subcircuit c idx =
    let n = num_subcircuits c in
    if idx == 0
    then some 0
    else if ltb idx (n / 2)
    then some 1
    else if ltb n 3
    then none
    else if leb idx (n - 3)
    then some (n - 3)
    else if idx == n - 1
    then some (n - 1)
    else if idx == n - 2
    then some (n - 2)
    else none

module _ (sha256 : Bytes → Bytes) where
  -- The loop of every `iterated_sha256`.
  unfoldable pub iterate_sha256 : ℕ → Bytes → Bytes
  iterate_sha256 zero digest = digest
  iterate_sha256 (suc n) digest = iterate_sha256 n (sha256 digest)

  -- `copy_from_slice` of the digest, or of its first bytes, panics at another length.
  unfoldable pub iterated_sha256_inner : ℕ → Bytes → Option InnerHash
  unfolding iterate_sha256
  iterated_sha256_inner iters input =
      let digest = iterate_sha256 iters input in
      if leb inner_hash_size (length digest) then some (take inner_hash_size digest) else none

  unfoldable pub hash_leaves : ℕ → List Bytes → Option (List InnerHash)
  unfolding iterated_sha256_inner
  hash_leaves iters [] = some []
  hash_leaves iters (leaf ∷ leaves) = do
    digest ← iterated_sha256_inner iters leaf
    digests ← hash_leaves iters leaves
    some (digest ∷ digests)

  -- `chunks(2)`; `siblings[1]` panics on a level of odd length.
  unfoldable pub next_level : ℕ → List InnerHash → Option (List InnerHash)
  unfolding iterated_sha256_inner
  next_level iters [] = some []
  next_level iters (left ∷ []) = none
  next_level iters (left ∷ right ∷ rest) = do
    parent ← iterated_sha256_inner iters (left ++ right)
    parents ← next_level iters rest
    some (parent ∷ parents)

  -- The loop while a level has more than one digest, with the number of digests as fuel.
  unfoldable pub climb_levels : ℕ → ℕ → List InnerHash → Option InnerHash
  unfolding next_level
  climb_levels fuel iters [] = none
  climb_levels fuel iters (root ∷ []) = some root
  climb_levels zero iters (x ∷ y ∷ level) = none
  climb_levels (suc fuel) iters (x ∷ y ∷ level) = do
    parents ← next_level iters (x ∷ y ∷ level)
    climb_levels fuel iters parents

  unfoldable pub calculate_root : List Bytes → MerkleTreeCircuitParams → Option InnerHash
  unfolding hash_leaves climb_levels
  calculate_root leaves params = do
    digests ← hash_leaves params.num_sha_iters_per_subcircuit leaves
    climb_levels (length digests) params.num_sha_iters_per_subcircuit digests
