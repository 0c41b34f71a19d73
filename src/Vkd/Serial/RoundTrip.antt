-- ===== src/Vkd/Serial/RoundTrip.antt =====
-- What the worker reads back from the bytes of addresses, primitives and subcircuits.
use mathlib.Core.Option.{some-injective}
use hekaton_system.Prelude.{
  ℕ, zero, suc, ◌<◌, ◌≡◌, ◌≢◌, refl, sym, ap, ◌∙◌, some, bind-inv, List, [], ◌∷◌, get_elem?, length,
  arith,
}
use hekaton_system.SparseTree.{Bytes}
use hekaton_system.Vkd.Layout.{
  NodeAddress, PrimitiveSubcircuit, equality, get_index, compute_path, hash_leaf, padding,
  write_public_parameter, SubCircuit,
}
use hekaton_system.Vkd.Constraints.{KeyDirectory}
use hekaton_system.Vkd.Serial.{
  Serializer, Serializers, node_address_to_bytes, bytes_to_node_address,
  primitive_subcircuit_to_bytes, bytes_to_primitive_subcircuit, subcircuit_to_bytes,
  bytes_to_subcircuit, get_serialized_witnesses, set_serialized_witnesses, put_at,
}

-- `deserialize` undoes `serialize`.
abbrev pub Inverts {ℓ} : {A : Type ℓ} → Serializer A → Type ℓ
Inverts {A} s = (a : A) → s.deserialize (s.serialize a) ≡ some a

-- What is relied on of ark-serialize.
pub record AreSerializers (ark : Serializers) : Type 0 where
  pub path_root : Inverts ark.path_root
  pub intermediate_root : Inverts ark.intermediate_root
  pub leaf : Inverts ark.leaf
  pub empty : Inverts ark.empty
  pub equality : Inverts ark.equality
  pub get_index : Inverts ark.get_index
  pub compute_path : Inverts ark.compute_path
  pub subcircuit :
      (sc : SubCircuit)
      → ark.subcircuit.deserialize (ark.subcircuit.serialize (subcircuit_to_bytes ark sc))
        ≡ some (subcircuit_to_bytes ark sc)

module _ (ark : Serializers) (ok : AreSerializers ark) where
  -- Where `deserialize` of each struct undoes `serialize`, the address that is read from the bytes of
  -- an address is that address, for each of the six kinds.
  pub bytes_to_node_address-node_address_to_bytes :
      (a : NodeAddress) → bytes_to_node_address ark (node_address_to_bytes ark a) ≡ some a
  unfolding bytes_to_node_address node_address_to_bytes
  bytes_to_node_address-node_address_to_bytes (NodeAddress.path_root a) = rw (ok.path_root a) refl
  bytes_to_node_address-node_address_to_bytes (NodeAddress.leaf_hash l) = rw (ok.leaf l) refl
  bytes_to_node_address-node_address_to_bytes NodeAddress.null_leaf = rw (ok.empty tt) refl
  bytes_to_node_address-node_address_to_bytes NodeAddress.final_root = rw (ok.empty tt) refl
  bytes_to_node_address-node_address_to_bytes NodeAddress.initial_root = rw (ok.empty tt) refl
  bytes_to_node_address-node_address_to_bytes (NodeAddress.intermediate_root a) =
      rw (ok.intermediate_root a) refl

  primitive-RoundTrip :
      (p : PrimitiveSubcircuit)
      → bytes_to_primitive_subcircuit ark (primitive_subcircuit_to_bytes ark p) ≡ some p
  unfolding bytes_to_primitive_subcircuit primitive_subcircuit_to_bytes
  primitive-RoundTrip (equality p) = rw (ok.equality p) refl
  primitive-RoundTrip (get_index p) = rw (ok.get_index p) refl
  primitive-RoundTrip (compute_path p) = rw (ok.compute_path p) refl
  primitive-RoundTrip (hash_leaf l) = rw (ok.leaf l) refl
  primitive-RoundTrip padding = rw (ok.empty tt) refl
  primitive-RoundTrip write_public_parameter = rw (ok.empty tt) refl

  bytes_to_subcircuit-subcircuit_to_bytes :
      (sc : SubCircuit) → bytes_to_subcircuit ark (subcircuit_to_bytes ark sc) ≡ some sc
  unfolding bytes_to_subcircuit subcircuit_to_bytes
  bytes_to_subcircuit-subcircuit_to_bytes [] = refl
  bytes_to_subcircuit-subcircuit_to_bytes (p ∷ ps) =
      rw (primitive-RoundTrip p, bytes_to_subcircuit)
        (rw (bytes_to_subcircuit-subcircuit_to_bytes ps, bytes_to_subcircuit) refl)

module _ {ℓ} {A : Type ℓ} where
  put_at-some :
      (xs : List A) (i : ℕ) (x : A)
      → i < length xs
      → (ys : List A) × (put_at xs i x ≡ some ys)
        × (get_elem? ys i ≡ some x)
        × ((j : ℕ) → j ≢ i → get_elem? ys j ≡ get_elem? xs j)
  unfolding put_at
  put_at-some [] i x h = absurd (omega arith)
  put_at-some (y ∷ xs) zero x h = (x ∷ xs, refl, refl, others)
    where
      others : (j : ℕ) → j ≢ 0 → get_elem? (x ∷ xs) j ≡ get_elem? (y ∷ xs) j
      others zero ne = absurd (ne refl)
      others (suc j) ne = refl
  put_at-some (y ∷ xs) (suc i) x h =
      let (ys, e, g, others) = put_at-some xs i x (omega arith) in
      (y ∷ ys, rw (e, put_at) refl, g, rest ys others)
    where
      rest :
          (ys : List A)
          → ((j : ℕ) → j ≢ i → get_elem? ys j ≡ get_elem? xs j)
          → (j : ℕ) → j ≢ suc i
          → get_elem? (y ∷ ys) j ≡ get_elem? (y ∷ xs) j
      rest ys others zero ne = refl
      rest ys others (suc j) ne = others j (λ e. ne (ap suc e))

module _ (ark : Serializers) (ok : AreSerializers ark) where
  -- Where `deserialize` of each struct undoes `serialize`: the bytes of subcircuit `idx` that the
  -- coordinator takes from its circuit `c` put into a worker's circuit `d`, which has a subcircuit
  -- at `idx`, leave there the coordinator's subcircuit, and the worker's other subcircuits, updates
  -- and parameters as they were.
  pub set_serialized_witnesses-get_serialized_witnesses :
      (c d : KeyDirectory) (idx : ℕ) (bytes : Bytes)
      → get_serialized_witnesses ark c idx ≡ some bytes
      → idx < length d.subcircuits
      → (d' : KeyDirectory) × (set_serialized_witnesses ark d idx bytes ≡ some d')
        × (get_elem? d'.subcircuits idx ≡ get_elem? c.subcircuits idx)
        × ((j : ℕ) → j ≢ idx → get_elem? d'.subcircuits j ≡ get_elem? d.subcircuits j)
        × (d'.circuit ≡ d.circuit)
        × (d'.params ≡ d.params)
  unfolding set_serialized_witnesses get_serialized_witnesses
  set_serialized_witnesses-get_serialized_witnesses c d idx bytes h l =
      let (sc, g, h1) = bind-inv (get_elem? c.subcircuits idx) _ h in
      let is_bytes : ark.subcircuit.serialize (subcircuit_to_bytes ark sc) ≡ bytes =
        some-injective _ _ h1 in
      let read : ark.subcircuit.deserialize bytes ≡ some (subcircuit_to_bytes ark sc) =
        ap ark.subcircuit.deserialize (sym is_bytes) ∙ ok.subcircuit sc in
      let (scs, e, here, others) = put_at-some d.subcircuits idx sc l in
      (
        record d { subcircuits = scs },
        rw (read, set_serialized_witnesses)
            (rw (bytes_to_subcircuit-subcircuit_to_bytes ark ok sc, set_serialized_witnesses)
              (rw (e, set_serialized_witnesses) refl)),
        here ∙ sym g,
        others,
        refl,
        refl,
      )
