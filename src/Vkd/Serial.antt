-- ===== src/Vkd/Serial.antt =====
-- vkd/vkd_circuits.rs, the byte forms of addresses, primitives and subcircuits, and the witnesses that
-- the coordinator sends to a worker (vkd/vkd_constraints.rs). `serialize_uncompressed` and
-- `deserialize_uncompressed_unchecked` of each struct are ark-serialize's and parameters; a failed
-- `unwrap` and a panic are `none`.
pub mod RoundTrip
pub mod Example
mod Tests
use Prim.Native.String.{String}
use text.Mathlib.Text.{◌==◌}
use hekaton_system.Prelude.{
  ℕ, zero, suc, Option, none, some, ◌>>=◌, List, [], ◌∷◌, map, get_elem?, if◌then◌else◌,
}
use hekaton_system.SparseTree.{Bytes}
use hekaton_system.Vkd.Layout.{
  NodeAddress, path_root, leaf_hash, null_leaf, final_root, initial_root, intermediate_root,
  PathRootAddress, IntermediateRootAddress, EqualityPrimitive, GetIndexPrimitive,
  ComputePathPrimitive, PrimitiveSubcircuit, equality, get_index, compute_path, hash_leaf, padding,
  write_public_parameter, SubCircuit,
}
use hekaton_system.Vkd.Constraints.{KeyDirectory}

-- The two functions of ark-serialize for one type.
pub record Serializer {ℓ} (A : Type ℓ) : Type ℓ where
  pub serialize : A → Bytes
  pub deserialize : Bytes → Option A

pub record NodeAddressBytes : Type 0 where
  pub bytes : Bytes
  pub node_type : String

pub record PrimitiveSubcircuitBytes : Type 0 where
  pub bytes : Bytes
  pub node_type : String

-- One for each struct that is serialised; the structs without fields share one.
pub record Serializers : Type 0 where
  pub path_root : Serializer PathRootAddress
  pub intermediate_root : Serializer IntermediateRootAddress
  pub leaf : Serializer Bytes
  pub empty : Serializer (Unit {0})
  pub equality : Serializer EqualityPrimitive
  pub get_index : Serializer GetIndexPrimitive
  pub compute_path : Serializer ComputePathPrimitive
  pub subcircuit : Serializer (List PrimitiveSubcircuitBytes)

module _ (ark : Serializers) where
  unfoldable pub node_address_to_bytes : NodeAddress → NodeAddressBytes
  node_address_to_bytes (path_root node) = record {
    bytes = ark.path_root.serialize node;
    node_type = "path root";
  }
  node_address_to_bytes (leaf_hash leaf) = record {
    bytes = ark.leaf.serialize leaf;
    node_type = "leaf hash";
  }
  node_address_to_bytes null_leaf = record {
    bytes = ark.empty.serialize tt;
    node_type = "null leaf";
  }
  node_address_to_bytes final_root = record {
    bytes = ark.empty.serialize tt;
    node_type = "final root";
  }
  node_address_to_bytes initial_root = record {
    bytes = ark.empty.serialize tt;
    node_type = "initial leaf";
  }
  node_address_to_bytes (intermediate_root node) = record {
    bytes = ark.intermediate_root.serialize node;
    node_type = "intermediate root";
  }

  unfoldable pub bytes_to_node_address : NodeAddressBytes → Option NodeAddress
  bytes_to_node_address b =
      if b.node_type == "path root"
      then (ark.path_root.deserialize b.bytes >>= λ a. some (path_root a))
      else if b.node_type == "leaf hash"
      then (ark.leaf.deserialize b.bytes >>= λ a. some (leaf_hash a))
      else if b.node_type == "null leaf"
      then (ark.empty.deserialize b.bytes >>= λ a. some null_leaf)
      else if b.node_type == "final root"
      then (ark.empty.deserialize b.bytes >>= λ a. some final_root)
      else if b.node_type == "initial leaf"
      then (ark.empty.deserialize b.bytes >>= λ a. some initial_root)
      else if b.node_type == "intermediate root"
      then (ark.intermediate_root.deserialize b.bytes >>= λ a. some (intermediate_root a))
      else none

  unfoldable pub primitive_subcircuit_to_bytes : PrimitiveSubcircuit → PrimitiveSubcircuitBytes
  primitive_subcircuit_to_bytes (equality p) = record {
    bytes = ark.equality.serialize p;
    node_type = "equality";
  }
  primitive_subcircuit_to_bytes (get_index p) = record {
    bytes = ark.get_index.serialize p;
    node_type = "get index";
  }
  primitive_subcircuit_to_bytes (compute_path p) = record {
    bytes = ark.compute_path.serialize p;
    node_type = "compute path";
  }
  primitive_subcircuit_to_bytes (hash_leaf leaf) = record {
    bytes = ark.leaf.serialize leaf;
    node_type = "hash leaf";
  }
  primitive_subcircuit_to_bytes padding = record {
    bytes = ark.empty.serialize tt;
    node_type = "padding";
  }
  primitive_subcircuit_to_bytes write_public_parameter = record {
    bytes = ark.empty.serialize tt;
    node_type = "write pp";
  }

  unfoldable pub bytes_to_primitive_subcircuit :
      PrimitiveSubcircuitBytes → Option PrimitiveSubcircuit
  bytes_to_primitive_subcircuit b =
      if b.node_type == "equality"
      then (ark.equality.deserialize b.bytes >>= λ p. some (equality p))
      else if b.node_type == "get index"
      then (ark.get_index.deserialize b.bytes >>= λ p. some (get_index p))
      else if b.node_type == "compute path"
      then (ark.compute_path.deserialize b.bytes >>= λ p. some (compute_path p))
      else if b.node_type == "hash leaf"
      then (ark.leaf.deserialize b.bytes >>= λ leaf. some (hash_leaf leaf))
      else if b.node_type == "padding"
      then (ark.empty.deserialize b.bytes >>= λ p. some padding)
      else if b.node_type == "write pp"
      then (ark.empty.deserialize b.bytes >>= λ p. some write_public_parameter)
      else none

  unfoldable pub subcircuit_to_bytes : SubCircuit → List PrimitiveSubcircuitBytes
  subcircuit_to_bytes subcircuit = map primitive_subcircuit_to_bytes subcircuit

  unfoldable pub bytes_to_subcircuit : List PrimitiveSubcircuitBytes → Option SubCircuit
  bytes_to_subcircuit [] = some []
  bytes_to_subcircuit (b ∷ bs) = do
    p ← bytes_to_primitive_subcircuit b
    ps ← bytes_to_subcircuit bs
    some (p ∷ ps)

  unfoldable pub get_serialized_witnesses : KeyDirectory → ℕ → Option Bytes
  get_serialized_witnesses c subcircuit_idx = do
    subcircuit ← get_elem? c.subcircuits subcircuit_idx
    some (ark.subcircuit.serialize (subcircuit_to_bytes subcircuit))

-- `self.subcircuits[idx] = subcircuit`, which panics past the end.
unfoldable pub put_at {ℓ} : {A : Type ℓ} → List A → ℕ → A → Option (List A)
put_at [] i x = none
put_at (y ∷ ys) zero x = some (x ∷ ys)
put_at (y ∷ ys) (suc i) x = do ys' ← put_at ys i x; some (y ∷ ys')

module _ (ark : Serializers) where
  unfoldable pub set_serialized_witnesses : KeyDirectory → ℕ → Bytes → Option KeyDirectory
  set_serialized_witnesses c subcircuit_idx bytes = do
    subcircuit_bytes ← ark.subcircuit.deserialize bytes
    subcircuit ← bytes_to_subcircuit ark subcircuit_bytes
    subcircuits ← put_at c.subcircuits subcircuit_idx subcircuit
    some (record c { subcircuits = subcircuits })
