-- ===== src/Vkd.antt =====
-- vkd/vkd.rs: the updates of a verifiable key directory, how they are made from its tree, and how
-- the chain of them is verified. `hash`, `hash_leaf`, `hash_inner_node` and `from_bytes_le` are
-- parameters; `depth` is the parameter `DEPTH`, 128 in the code. Counters are 16 bits wide.
pub mod Chain
pub mod Layout
pub mod Wire
pub mod Hash
pub mod Constraints
pub mod Subtraces
pub mod Serial
mod Tests
use hekaton_system.Prelude.{
  ℕ, suc, ◌+◌, ◌/◌, ◌%◌, ◌^◌, Bool, true, ◌&&◌, Option, none, some, List, [], ◌∷◌, ◌++◌,
}
use hekaton_system.SparseTree.{
  Bytes, InnerHash, MerkleIndex, SparseMerkleTree, leaf, internal_node, at, get_index, lookup_path,
  insert_node, compute_root, verify, bytes_eq, to_bit_vector,
}

pub record VkdUpdate : Type 0 where
  pub username : Bytes
  pub counter : ℕ
  pub key1 : Bytes
  pub path : List InnerHash
  pub key2 : Bytes

pub record VkdAppend : Type 0 where
  pub username : Bytes
  pub key : Bytes
  pub path : List InnerHash

pub data Update : Type 0 where
  update : VkdUpdate → Update
  append : VkdAppend → Update

pub record VerifiableKeyDirectoryCircuit : Type 0 where
  pub initial_root : InnerHash
  pub final_root : InnerHash
  pub updates : List Update

-- `concat`: the username, the counter in little-endian order, and the key.
unfoldable pub concat : Bytes → Bytes → ℕ → Bytes
concat username key counter = username ++ ((counter % 256) ∷ (counter / 256 % 256) ∷ []) ++ key

abbrev pub next_counter : ℕ → ℕ
next_counter counter = (counter + 1) % 2 ^ 16

-- `count_appends_updates`.
unfoldable pub count_appends_updates : List Update → ℕ × ℕ
count_appends_updates [] = (0, 0)
count_appends_updates (update u ∷ us) = let rest = count_appends_updates us in (rest.0, suc rest.1)
count_appends_updates (append u ∷ us) = let rest = count_appends_updates us in (suc rest.0, rest.1)

module _ (hash : Bytes → Bytes) (from_bytes_le : Bytes → ℕ) (hash_leaf : Bytes → InnerHash)
    (hash_inner_node : InnerHash → InnerHash → InnerHash) (depth : ℕ) where
  abbrev pub index_of : Bytes → Option MerkleIndex
  index_of username = get_index from_bytes_le (hash username) depth

  -- One update of `verify`'s loop: the old value against the root so far, then the new root.
  unfoldable pub verify_step : InnerHash → Bool → InnerHash → Update → Option (Bool × InnerHash)
  verify_step pp res root (update op) = elim (index_of op.username) [
    | none ↦ none
    | some index ↦
        let bits = to_bit_vector index.index index.depth in
        elim (verify hash_leaf hash_inner_node op.path root (concat op.username op.key1 op.counter)
          bits leaf) [
            | none ↦ none
            | some ok ↦
                elim (compute_root hash_leaf hash_inner_node op.path
                  (concat op.username op.key2 (next_counter op.counter)) bits leaf) [
                    | none ↦ none
                    | some new_root ↦ some (res && ok, new_root)
                  ]
          ]
  ]
  verify_step pp res root (append op) = elim (index_of op.username) [
    | none ↦ none
    | some index ↦
        let bits = to_bit_vector index.index index.depth in
        elim (verify hash_leaf hash_inner_node op.path root pp bits internal_node) [
          | none ↦ none
          | some ok ↦
              elim (compute_root hash_leaf hash_inner_node op.path (concat op.username op.key 0)
                bits leaf) [ none ↦ none | some new_root ↦ some (res && ok, new_root) ]
        ]
  ]

  unfoldable pub verify_updates :
      InnerHash → Bool → InnerHash → List Update → Option (Bool × InnerHash)
  verify_updates pp res root [] = some (res, root)
  verify_updates pp res root (u ∷ us) = elim (verify_step pp res root u) [
    | none ↦ none
    | some (res', root') ↦ verify_updates pp res' root' us
  ]

  -- `VerifiableKeyDirectoryCircuit::verify`.
  unfoldable pub verify_circuit : VerifiableKeyDirectoryCircuit → InnerHash → Option Bool
  verify_circuit c pp = elim (verify_updates pp true c.initial_root c.updates) [
    | none ↦ none
    | some (res, root) ↦ some (bytes_eq root c.final_root && res)
  ]

  -- Two of the moves of `random`: a user is added, or gets a new key; the path is taken before.
  unfoldable pub append_user : Bytes → Bytes → SparseMerkleTree → Option (Update × SparseMerkleTree)
  append_user username key t = elim (index_of username) [
    | none ↦ none
    | some index ↦ elim (lookup_path t index.index index.depth) [
      | none ↦ none
      | some path ↦
          elim (insert_node hash_leaf hash_inner_node index (concat username key 0) leaf t) [
            | none ↦ none
            | some t' ↦ some (append (record { username = username; key = key; path = path }), t')
          ]
    ]
  ]

  unfoldable pub update_user :
      Bytes → ℕ → Bytes → Bytes → SparseMerkleTree → Option (Update × SparseMerkleTree)
  update_user username counter key1 key2 t = elim (index_of username) [
    | none ↦ none
    | some index ↦ elim (lookup_path t index.index index.depth) [
      | none ↦ none
      | some path ↦
          elim (insert_node hash_leaf hash_inner_node index
            (concat username key2 (next_counter counter)) leaf t) [
              | none ↦ none
              | some t' ↦ some (
                update (record {
                  username = username;
                  counter = counter;
                  key1 = key1;
                  path = path;
                  key2 = key2;
                }),
                t',
              )
            ]
    ]
  ]
