-- ===== src/Vkd/Layout.antt =====
-- vkd/vkd.rs, section 2, and the types of vkd/vkd_circuits.rs: the subcircuits that a list of updates
-- is proved by, and the addresses of the values that pass between them. An address is kept as it is
-- where the code keeps its serialised bytes. `split_factor` is `SPLIT_FACTOR`.
pub mod Count
use hekaton_system.Prelude.{
  ℕ, zero, suc, ◌+◌, ◌-◌, Bool, Option, none, some, List, [], ◌∷◌, ◌++◌, map, length, get_elem?,
  replicate, if◌then◌else◌, ◌==◌,
}
use hekaton_system.SparseTree.{Bytes, InnerHash}
use hekaton_system.SparseTree.Split.{split}
use hekaton_system.Vkd.{Update, update, append, concat, next_counter}

abbrev pub split_factor : ℕ
split_factor = 4

pub record PathRootAddress : Type 0 where
  pub path_id : ℕ
  pub update_idx : ℕ

pub record IntermediateRootAddress : Type 0 where
  pub indicator : ℕ
  pub path_id : ℕ
  pub update_idx : ℕ

pub record IndexAddress : Type 0 where
  pub indicator : ℕ
  pub leaf : Bytes

pub data NodeAddress : Type 0 where
  path_root : PathRootAddress → NodeAddress
  leaf_hash : Bytes → NodeAddress
  null_leaf final_root initial_root : NodeAddress
  intermediate_root : IntermediateRootAddress → NodeAddress

pub record EqualityPrimitive : Type 0 where
  pub update_idx : ℕ
  pub addr1 : NodeAddress
  pub addr2 : NodeAddress

pub record GetIndexPrimitive : Type 0 where
  pub update_idx : ℕ
  pub leaf : Bytes

pub record ComputePathPrimitive : Type 0 where
  pub update_idx : ℕ
  pub path_id : ℕ
  pub indicator : ℕ
  pub initial_value_addr : NodeAddress
  pub final_value_addr : NodeAddress
  pub index_addr : IndexAddress
  pub path : List InnerHash

pub data PrimitiveSubcircuit : Type 0 where
  equality : EqualityPrimitive → PrimitiveSubcircuit
  get_index : GetIndexPrimitive → PrimitiveSubcircuit
  compute_path : ComputePathPrimitive → PrimitiveSubcircuit
  hash_leaf : Bytes → PrimitiveSubcircuit
  padding write_public_parameter : PrimitiveSubcircuit

abbrev pub SubCircuit : Type 0
SubCircuit = List PrimitiveSubcircuit

-- `Leaf::try_from(bytes).unwrap()`.
abbrev pub leaf_from : Bytes → Option Bytes
leaf_from bytes = if length bytes == 66 then some bytes else none

unfoldable pub get_previous_root_from_update_idx : ℕ → NodeAddress
get_previous_root_from_update_idx zero = initial_root
get_previous_root_from_update_idx (suc idx) = path_root (record { path_id = 1; update_idx = idx })

-- The two addresses of the piece `i` of a path.
unfoldable pub node_addresses_at : ℕ → ℕ → NodeAddress → ℕ → NodeAddress × NodeAddress
node_addresses_at update_idx path_id initial_node i =
    if i == 0
    then (
      initial_node,
      intermediate_root (record { indicator = i; path_id = path_id; update_idx = update_idx }),
    )
    else if i == split_factor - 1
    then (
      intermediate_root (record { indicator = i - 1; path_id = path_id; update_idx = update_idx }),
      path_root (record { path_id = path_id; update_idx = update_idx }),
    )
    else (
      intermediate_root (record { indicator = i - 1; path_id = path_id; update_idx = update_idx }),
      intermediate_root (record { indicator = i; path_id = path_id; update_idx = update_idx }),
    )

unfoldable pub get_node_addresses : ℕ → ℕ → NodeAddress → List (NodeAddress × NodeAddress)
get_node_addresses update_idx path_id initial_node =
    map (node_addresses_at update_idx path_id initial_node) (0 ∷ 1 ∷ 2 ∷ 3 ∷ [])

abbrev pub path_primitive :
    ℕ → ℕ → Bytes → ℕ → NodeAddress × NodeAddress → List InnerHash → PrimitiveSubcircuit
path_primitive update_idx path_id leaf i addresses piece = compute_path (record {
  update_idx = update_idx;
  path_id = path_id;
  indicator = i;
  initial_value_addr = addresses.0;
  final_value_addr = addresses.1;
  index_addr = record { indicator = i; leaf = leaf };
  path = piece;
})

-- The primitive for piece `i` of a path, with the panics of the indexing and of `split`.
unfoldable pub compute_path_at :
    ℕ → ℕ → NodeAddress → Bytes → List InnerHash → ℕ → Option PrimitiveSubcircuit
compute_path_at update_idx path_id initial_node leaf path i =
    elim (get_elem? (get_node_addresses update_idx path_id initial_node) i) [
      | none ↦ none
      | some addresses ↦ elim (split path split_factor) [
        | none ↦ none
        | some split_path ↦ elim (get_elem? split_path i) [
          | none ↦ none
          | some piece ↦ some (path_primitive update_idx path_id leaf i addresses piece)
        ]
      ]
    ]

-- The four primitives of a path, which the loops over `0..SPLIT_FACTOR` push.
pub record FourPaths : Type 0 where
  pub first : PrimitiveSubcircuit
  pub second : PrimitiveSubcircuit
  pub third : PrimitiveSubcircuit
  pub fourth : PrimitiveSubcircuit

unfoldable pub four_paths : ℕ → ℕ → NodeAddress → Bytes → List InnerHash → Option FourPaths
four_paths update_idx path_id initial_node leaf path =
    let at_piece = compute_path_at update_idx path_id initial_node leaf path in
    elim (at_piece 0) [
      | none ↦ none
      | some a ↦ elim (at_piece 1) [
        | none ↦ none
        | some b ↦ elim (at_piece 2) [
          | none ↦ none
          | some c ↦ elim (at_piece 3) [
            | none ↦ none
            | some d ↦ some (record { first = a; second = b; third = c; fourth = d })
          ]
        ]
      ]
    ]

abbrev pub root_equality : ℕ → PrimitiveSubcircuit
root_equality update_idx = equality (record {
  update_idx = update_idx;
  addr1 = path_root (record { path_id = 0; update_idx = update_idx });
  addr2 = get_previous_root_from_update_idx update_idx;
})

-- The subcircuits of a key update: the old path, then the comparison of its root with the previous
-- one, and the new path.
abbrev pub key_update_subcircuits : ℕ → Bytes → FourPaths → FourPaths → List SubCircuit
key_update_subcircuits update_idx leaf2 old new =
    (old.first ∷ [])
    ∷ (old.second ∷ [])
    ∷ (old.third ∷ [])
    ∷ (old.fourth ∷ [])
    ∷ (root_equality update_idx ∷ hash_leaf leaf2 ∷ new.first ∷ [])
    ∷ (new.second ∷ [])
    ∷ (new.third ∷ [])
    ∷ (new.fourth ∷ [])
    ∷ []

abbrev pub append_subcircuits : ℕ → Bytes → FourPaths → FourPaths → List SubCircuit
append_subcircuits update_idx leaf old new =
    (hash_leaf leaf ∷ get_index (record { update_idx = update_idx; leaf = leaf }) ∷ old.first ∷ [])
    ∷ (old.second ∷ [])
    ∷ (old.third ∷ [])
    ∷ (old.fourth ∷ root_equality update_idx ∷ [])
    ∷ (new.first ∷ [])
    ∷ (new.second ∷ [])
    ∷ (new.third ∷ [])
    ∷ (new.fourth ∷ [])
    ∷ []

unfoldable pub update_subcircuits : ℕ → Update → Option (List SubCircuit)
update_subcircuits update_idx (update u) = elim (leaf_from (concat u.username u.key1 u.counter)) [
  | none ↦ none
  | some leaf1 ↦ elim (four_paths update_idx 0 (leaf_hash leaf1) leaf1 u.path) [
    | none ↦ none
    | some old ↦ elim (leaf_from (concat u.username u.key2 (next_counter u.counter))) [
      | none ↦ none
      | some leaf2 ↦ elim (four_paths update_idx 1 (leaf_hash leaf2) leaf1 u.path) [
        | none ↦ none
        | some new ↦ some (key_update_subcircuits update_idx leaf2 old new)
      ]
    ]
  ]
]
update_subcircuits update_idx (append u) = elim (leaf_from (concat u.username u.key 0)) [
  | none ↦ none
  | some leaf ↦ elim (four_paths update_idx 0 null_leaf leaf u.path) [
    | none ↦ none
    | some old ↦ elim (four_paths update_idx 1 (leaf_hash leaf) leaf u.path) [
      | none ↦ none
      | some new ↦ some (append_subcircuits update_idx leaf old new)
    ]
  ]
]

-- The loop over the updates.
unfoldable pub all_subcircuits : ℕ → List Update → Option (List SubCircuit)
all_subcircuits update_idx [] = some []
all_subcircuits update_idx (u ∷ us) = elim (update_subcircuits update_idx u) [
  | none ↦ none
  | some scs ↦ elim (all_subcircuits (suc update_idx) us) [
    | none ↦ none
    | some rest ↦ some (scs ++ rest)
  ]
]

-- Six paddings, the public parameters, the updates, and the comparison with the final root after
-- `count` updates.
abbrev pub with_ends : ℕ → List SubCircuit → List SubCircuit
with_ends count scs =
    replicate 6 (padding ∷ [])
    ++ ((write_public_parameter ∷ []) ∷ scs)
    ++ ((equality (record {
      update_idx = count - 1;
      addr1 = final_root;
      addr2 = get_previous_root_from_update_idx count;
    })
          ∷ [])
        ∷ [])

-- The `updates.len() - 1` of the last subcircuit panics on an empty list.
unfoldable pub vkd_update_to_subcircuit : List Update → Option (List SubCircuit)
vkd_update_to_subcircuit [] = none
vkd_update_to_subcircuit (u ∷ us) = elim (all_subcircuits 0 (u ∷ us)) [
  | none ↦ none
  | some scs ↦ some (with_ends (length (u ∷ us)) scs)
]
