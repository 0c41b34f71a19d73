-- ===== src/Vkd/Serial/Tests.antt =====
-- The second subcircuit of a coordinator goes to a worker that has three empty ones.
use hekaton_system.Prelude.{
  ℕ, ◌≡◌, ◌≢◌, refl, arith, Option, none, some, List, [], ◌∷◌, get_elem?, replicate,
}
use hekaton_system.SparseTree.{Bytes}
use hekaton_system.Vkd.Layout.{equality, hash_leaf, padding, SubCircuit, NodeAddress}
use hekaton_system.Vkd.Constraints.{KeyDirectory}
use hekaton_system.Vkd.Serial.{
  get_serialized_witnesses, set_serialized_witnesses, subcircuit_to_bytes,
  primitive_subcircuit_to_bytes,
}
use hekaton_system.Vkd.Serial.Example.{ark, ark-AreSerializers}
use hekaton_system.Vkd.Serial.RoundTrip.{set_serialized_witnesses-get_serialized_witnesses}

abbrev with_subcircuits : List SubCircuit → KeyDirectory
with_subcircuits scs = record {
  circuit = record { initial_root = []; final_root = []; updates = [] };
  params = record { log_num_subcircuits = 2; null_leaf = [] };
  subcircuits = scs;
}

abbrev coordinator : KeyDirectory
coordinator = with_subcircuits (
    (padding ∷ [])
    ∷ (equality (record {
      update_idx = 3;
      addr1 = NodeAddress.final_root;
      addr2 = NodeAddress.leaf_hash (7 ∷ 8 ∷ []);
    })
        ∷ hash_leaf (7 ∷ 8 ∷ [])
        ∷ [])
    ∷ [])

abbrev worker : KeyDirectory
worker = with_subcircuits (replicate 3 [])

abbrev sent : Option Bytes → Bytes
sent none = []
sent (some bytes) = bytes

sent-some :
    get_serialized_witnesses ark coordinator 1
    ≡ some (sent (get_serialized_witnesses ark coordinator 1))
unfolding get_serialized_witnesses subcircuit_to_bytes primitive_subcircuit_to_bytes
sent-some = refl

set_serialized_witnesses_example :
    (d' : KeyDirectory) × (set_serialized_witnesses ark worker 1
        (sent (get_serialized_witnesses ark coordinator 1))
      ≡ some d')
    × (get_elem? d'.subcircuits 1 ≡ get_elem? coordinator.subcircuits 1)
    × ((j : ℕ) → j ≢ 1 → get_elem? d'.subcircuits j ≡ get_elem? worker.subcircuits j)
    × (d'.circuit ≡ worker.circuit)
    × (d'.params ≡ worker.params)
set_serialized_witnesses_example =
    set_serialized_witnesses-get_serialized_witnesses ark ark-AreSerializers coordinator worker 1
      (sent (get_serialized_witnesses ark coordinator 1)) sent-some (omega arith)
