-- ===== src/SparseTree.antt =====
-- vkd/sparse_tree.rs and vkd/util.rs: the sparse Merkle tree of the verifiable key directory. The
-- tree of hashes is an association list by index and depth; `hash_leaf` and `hash_inner_node`, which
-- call the hash libraries, are parameters. A byte is a number, an inner hash a list of 27 bytes.
pub mod Index
pub mod Path
pub mod Insert
pub mod Update
pub mod Merkle
pub mod Verify
pub mod New
pub mod Circuit
pub mod Split
mod Tests
use hekaton_system.Prelude.{
  ℕ, zero, suc, ◌+◌, ◌*◌, ◌/◌, ◌%◌, ◌≡◌, ap, ap₂, Bool, true, false, ◌&&◌, take, leb, Option, none,
  some, List, [], ◌∷◌, ◌++◌, reverse, get_elem?, length, replicate, ◌==◌, bit_xor, ℕ_discrete,
  if◌then◌else◌,
}
use hekaton_system.Prelude.Assoc.{lookup, insert}

abbrev pub Bytes : Type 0
Bytes = List ℕ

abbrev pub inner_hash_size : ℕ
inner_hash_size = 27

abbrev pub InnerHash : Type 0
InnerHash = Bytes

pub record MerkleIndex : Type 0 where
  pub index : ℕ
  pub depth : ℕ

abbrev pub is_even : ℕ → Bool
is_even number = number % 2 == 0

-- `MerkleIndex::to_bit_vector`: from the leaf upwards, whether the node is a left child.
unfoldable pub to_bit_vector : ℕ → ℕ → List Bool
to_bit_vector index zero = []
to_bit_vector index (suc depth) = is_even index ∷ to_bit_vector (index / 2) depth

abbrev pub merkle_index_discrete : Discrete MerkleIndex
merkle_index_discrete a b = elim (ℕ_discrete a.index b.index) [
  | no p ↦ no (λ q. p (ap (λ (x : MerkleIndex). x.index) q))
  | yes p ↦ elim (ℕ_discrete a.depth b.depth) [
    | no r ↦ no (λ q. r (ap (λ (x : MerkleIndex). x.depth) q))
    | yes r ↦ yes (ap₂ (λ i d. record { index = i; depth = d }) p r)
  ]
]

pub data NodeType : Type 0 where
  leaf : NodeType
  internal_node : NodeType

pub record SparseMerkleTree : Type 0 where
  pub tree : List (MerkleIndex × InnerHash)
  pub leaves : List (MerkleIndex × Bytes)
  pub root : InnerHash
  pub sparse_initial_hashes : List InnerHash

-- `==` of two byte arrays.
unfoldable pub bytes_eq : Bytes → Bytes → Bool
bytes_eq [] [] = true
bytes_eq [] (y ∷ ys) = false
bytes_eq (x ∷ xs) [] = false
bytes_eq (x ∷ xs) (y ∷ ys) = x == y && bytes_eq xs ys

-- `InnerHash::try_from(value).unwrap()`.
abbrev pub inner_hash_from : Bytes → Option InnerHash
inner_hash_from value = if length value == inner_hash_size then some value else none

abbrev pub at : ℕ → ℕ → MerkleIndex
at i d = record { index = i; depth = d }

-- A hash of the tree, or the initial hash of its depth where there is none. Beyond the depths that
-- have one the code panics.
unfoldable pub lookup_internal_node : SparseMerkleTree → ℕ → ℕ → Option (InnerHash × Bool)
lookup_internal_node t index depth = elim (lookup merkle_index_discrete (at index depth) t.tree) [
  | some h ↦ some (h, true)
  | none ↦ elim (get_elem? t.sparse_initial_hashes depth) [ none ↦ none | some h ↦ some (h, false) ]
]

-- The hashes of the siblings, from the leaf upwards.
unfoldable pub lookup_path : SparseMerkleTree → ℕ → ℕ → Option (List InnerHash)
lookup_path t i zero = some []
lookup_path t i (suc d) = elim (lookup_internal_node t (bit_xor i 1) (suc d)) [
  | none ↦ none
  | some (h, found) ↦ elim (lookup_path t (i / 2) d) [ none ↦ none | some path ↦ some (h ∷ path) ]
]

-- `get_index`: an error unless the hash has 32 bytes; the index is its first `depth / 8` bytes, as
-- `BigUint::from_bytes_le`, a parameter, reads them.
unfoldable pub get_index : (Bytes → ℕ) → Bytes → ℕ → Option MerkleIndex
get_index from_bytes_le leaf_h depth =
    if length leaf_h == 32 && leb (depth / 8) 32
    then some (at (from_bytes_le (take (depth / 8) leaf_h)) depth)
    else none

module _ (hash_leaf : Bytes → InnerHash) (hash_inner_node : InnerHash → InnerHash → InnerHash) where
  -- The initial hashes, from the leaves upwards.
  unfoldable pub initial_hashes : ℕ → InnerHash → List InnerHash
  initial_hashes zero h = h ∷ []
  initial_hashes (suc n) h = h ∷ initial_hashes n (hash_inner_node h h)

  unfoldable pub new : ℕ → SparseMerkleTree
  unfolding initial_hashes
  new depth =
      let hashes = reverse (initial_hashes depth (hash_leaf (replicate 32 0))) in
      record {
        tree = [];
        leaves = [];
        root = elim (get_elem? hashes 0) [ none ↦ [] | some h ↦ h ];
        sparse_initial_hashes = hashes;
      }

  unfoldable pub node_hash_of : Bytes → NodeType → Option InnerHash
  node_hash_of value internal_node = inner_hash_from value
  node_hash_of value leaf = some (hash_leaf value)

  -- The loop of `insert`: `d` levels are left above the node at index `i`.
  unfoldable pub update_path : ℕ → ℕ → SparseMerkleTree → Option SparseMerkleTree
  update_path zero i t = some t
  update_path (suc d) i t = elim (lookup_internal_node t (i / 2 * 2) (suc d)) [
    | none ↦ none
    | some (lc_hash, l) ↦ elim (lookup_internal_node t (i / 2 * 2 + 1) (suc d)) [
      | none ↦ none
      | some (rc_hash, r) ↦ update_path d (i / 2) (record t {
        tree = insert merkle_index_discrete (at (i / 2) d) (hash_inner_node lc_hash rc_hash) t.tree;
      })
    ]
  ]

  -- The leaf that `insert` keeps beside its hash.
  abbrev pub with_leaf : MerkleIndex → Bytes → NodeType → SparseMerkleTree → SparseMerkleTree
  with_leaf index value internal_node t = t
  with_leaf index value leaf t = record t {
    leaves = insert merkle_index_discrete index value t.leaves;
  }

  unfoldable pub insert_node :
      MerkleIndex → Bytes → NodeType → SparseMerkleTree → Option SparseMerkleTree
  insert_node index value node_type t = elim (node_hash_of value node_type) [
    | none ↦ none
    | some node_hash ↦
        let t1 = with_leaf index value node_type t in
        let t2 : SparseMerkleTree = record t1 {
          tree = insert merkle_index_discrete index node_hash t1.tree;
        } in
        elim (update_path index.depth index.index t2) [
          | none ↦ none
          | some t3 ↦ elim (lookup merkle_index_discrete (at 0 0) t3.tree) [
            | none ↦ none
            | some root ↦ some (record t3 { root = root })
          ]
        ]
  ]

  -- The loop of `MerkleTreePath::compute_root`: an index that ends before the path panics.
  unfoldable pub climb : InnerHash → List InnerHash → List Bool → Option InnerHash
  climb current [] index = some current
  climb current (sibling ∷ path) [] = none
  climb current (sibling ∷ path) (true ∷ index) = climb (hash_inner_node current sibling) path index
  climb current (sibling ∷ path) (false ∷ index) =
      climb (hash_inner_node sibling current) path index

  unfoldable pub compute_root : List InnerHash → Bytes → List Bool → NodeType → Option InnerHash
  compute_root path value index node_type = elim (node_hash_of value node_type) [
    | none ↦ none
    | some h ↦ climb h path index
  ]

  -- `MerkleTreePath::verify`.
  unfoldable pub verify : List InnerHash → InnerHash → Bytes → List Bool → NodeType → Option Bool
  verify path root value index node_type = elim (compute_root path value index node_type) [
    | none ↦ none
    | some computed ↦ some (bytes_eq computed root)
  ]
