-- ===== src/Vkd/Serial/Example.antt =====
-- Serialisers of numbers, pairs and lists for the tests: a part is preceded by its length.
use Prim.Native.String.{String}
use text.Mathlib.Text.{◌==◌}
use hekaton_system.Prelude.{
  ℕ, zero, suc, ◌≡◌, refl, ap, Option, none, some, ◌>>=◌, List, [], ◌∷◌, ◌++◌, length, take, drop,
  take-prefix, drop-prefix, All, if◌then◌else◌,
}
use hekaton_system.SparseTree.{Bytes, InnerHash}
use hekaton_system.Vkd.Layout.{
  NodeAddress, PathRootAddress, IntermediateRootAddress, equality, get_index, compute_path,
  hash_leaf, padding, write_public_parameter, SubCircuit,
}
use hekaton_system.Vkd.Serial.{
  Serializer, Serializers, PrimitiveSubcircuitBytes, subcircuit_to_bytes,
  primitive_subcircuit_to_bytes,
}
use hekaton_system.Vkd.Serial.RoundTrip.{Inverts, AreSerializers}

abbrev first : Bytes → Option ℕ
first [] = none
first (n ∷ bs) = some n

abbrev number : Serializer ℕ
number = record { serialize = λ n. n ∷ []; deserialize = first }

abbrev as_is : Serializer Bytes
as_is = record { serialize = λ bs. bs; deserialize = some }

module _ {ℓ κ} {A : Type ℓ} {B : Type κ} where
  abbrev read_both : Serializer A → Serializer B → Bytes → Option (A × B)
  read_both s t [] = none
  read_both s t (n ∷ bs) =
      s.deserialize (take n bs) >>= λ a. t.deserialize (drop n bs) >>= λ b. some (a, b)

  abbrev both : Serializer A → Serializer B → Serializer (A × B)
  both s t = record {
    serialize = λ p. length (s.serialize p.0) ∷ (s.serialize p.0 ++ t.serialize p.1);
    deserialize = read_both s t;
  }

  both-Inverts : (s : Serializer A) (t : Serializer B) → Inverts s → Inverts t → Inverts (both s t)
  both-Inverts s t p q (a, b) =
      let x = s.serialize a in
      let y = t.serialize b in
      rw (take-prefix x y (length x) refl, drop-prefix x y (length x) refl, p a) (rw (q b) refl)

  -- By way of another type.
  abbrev via : (A → B) → (B → A) → Serializer B → Serializer A
  via to from s = record {
    serialize = λ a. s.serialize (to a);
    deserialize = λ bs. s.deserialize bs >>= λ b. some (from b);
  }

  via-Inverts :
      (to : A → B) (from : B → A) (s : Serializer B)
      → Inverts s
      → ((a : A) → from (to a) ≡ a)
      → Inverts (via to from s)
  via-Inverts to from s p e a = rw (p (to a)) (ap some (e a))

module _ {ℓ} {A : Type ℓ} (s : Serializer A) where
  abbrev write_all : List A → Bytes
  write_all [] = []
  write_all (x ∷ xs) = length (s.serialize x) ∷ (s.serialize x ++ write_all xs)

  abbrev read_all : ℕ → Bytes → Option (List A)
  read_all zero bs = some []
  read_all (suc n) [] = none
  read_all (suc n) (m ∷ bs) =
      s.deserialize (take m bs) >>= λ x. read_all n (drop m bs) >>= λ xs. some (x ∷ xs)

  abbrev start_all : Bytes → Option (List A)
  start_all [] = none
  start_all (n ∷ bs) = read_all n bs

  abbrev all_of : Serializer (List A)
  all_of = record { serialize = λ xs. length xs ∷ write_all xs; deserialize = start_all }

  all_of-some :
      (xs : List A)
      → All (λ x. s.deserialize (s.serialize x) ≡ some x) xs
      → read_all (length xs) (write_all xs) ≡ some xs
  all_of-some [] h = refl
  all_of-some (x ∷ xs) (p, h) =
      let b = s.serialize x in
      rw
        (
          take-prefix b (write_all xs) (length b) refl,
          drop-prefix b (write_all xs) (length b) refl,
          p,
        )
        (rw (all_of-some xs h) refl)

number-Inverts : Inverts number
number-Inverts n = refl

as_is-Inverts : Inverts as_is
as_is-Inverts bs = refl

list-Inverts {ℓ} : {A : Type ℓ} (s : Serializer A) → Inverts s → Inverts (all_of s)
list-Inverts {A} s p xs = all_of-some s xs (every xs)
  where
    every : (xs : List A) → All (λ x. s.deserialize (s.serialize x) ≡ some x) xs
    every [] = tt
    every (x ∷ xs) = (p x, every xs)

abbrev Pair : Type 0
Pair = ℕ × ℕ

abbrev pair : Serializer Pair
pair = both number number

pair-Inverts : Inverts pair
pair-Inverts = both-Inverts number number number-Inverts number-Inverts

abbrev path_root : Serializer PathRootAddress
path_root =
    via (λ a. (a.path_id, a.update_idx)) (λ p. record { path_id = p.0; update_idx = p.1 }) pair

abbrev intermediate_root : Serializer IntermediateRootAddress
intermediate_root =
    via (λ a. (a.indicator, (a.path_id, a.update_idx)))
      (λ p. record { indicator = p.0; path_id = p.1.0; update_idx = p.1.1 }) (both number pair)

-- An address by its kind, its leaf and its numbers.
abbrev Flat : Type 0
Flat = Pair × (Pair × Bytes)

abbrev flat : NodeAddress → Flat
flat (NodeAddress.path_root a) = ((0, a.path_id), ((a.update_idx, 0), []))
flat (NodeAddress.leaf_hash l) = ((1, 0), ((0, 0), l))
flat NodeAddress.null_leaf = ((2, 0), ((0, 0), []))
flat NodeAddress.final_root = ((3, 0), ((0, 0), []))
flat NodeAddress.initial_root = ((4, 0), ((0, 0), []))
flat (NodeAddress.intermediate_root a) = ((5, a.indicator), ((a.path_id, a.update_idx), []))

abbrev of_kind : ℕ → ℕ → ℕ → ℕ → Bytes → NodeAddress
of_kind zero x y z l = NodeAddress.path_root (record { path_id = x; update_idx = y })
of_kind (suc zero) x y z l = NodeAddress.leaf_hash l
of_kind (suc (suc zero)) x y z l = NodeAddress.null_leaf
of_kind (suc (suc (suc zero))) x y z l = NodeAddress.final_root
of_kind (suc (suc (suc (suc zero)))) x y z l = NodeAddress.initial_root
of_kind (suc (suc (suc (suc (suc n))))) x y z l =
    NodeAddress.intermediate_root (record { indicator = x; path_id = y; update_idx = z })

abbrev address : Serializer NodeAddress
address = via flat (λ p. of_kind p.0.0 p.0.1 p.1.0.0 p.1.0.1 p.1.1) (both pair (both pair as_is))

address-Inverts : Inverts address
address-Inverts =
    via-Inverts flat (λ p. of_kind p.0.0 p.0.1 p.1.0.0 p.1.0.1 p.1.1) (both pair (both pair as_is))
      (both-Inverts pair (both pair as_is) pair-Inverts
        (both-Inverts pair as_is pair-Inverts as_is-Inverts))
      (λ a. back a)
  where
    back :
        (a : NodeAddress)
        → of_kind (flat a).0.0 (flat a).0.1 (flat a).1.0.0 (flat a).1.0.1 (flat a).1.1 ≡ a
    back (NodeAddress.path_root a) = refl
    back (NodeAddress.leaf_hash l) = refl
    back NodeAddress.null_leaf = refl
    back NodeAddress.final_root = refl
    back NodeAddress.initial_root = refl
    back (NodeAddress.intermediate_root a) = refl

abbrev equality_form : Serializer (ℕ × (NodeAddress × NodeAddress))
equality_form = both number (both address address)

abbrev path_form :
    Serializer (Pair × (Pair × (Bytes × ((NodeAddress × NodeAddress) × List InnerHash))))
path_form = both pair (both pair (both as_is (both (both address address) (all_of as_is))))

-- The tags of the six primitives, by number.
abbrev number_of : String → ℕ
number_of t =
    if t == "equality"
    then 0
    else if t == "get index"
    then 1
    else if t == "compute path"
    then 2
    else if t == "hash leaf"
    then 3
    else if t == "padding"
    then 4
    else 5

abbrev tag : ℕ → String
tag zero = "equality"
tag (suc zero) = "get index"
tag (suc (suc zero)) = "compute path"
tag (suc (suc (suc zero))) = "hash leaf"
tag (suc (suc (suc (suc zero)))) = "padding"
tag (suc (suc (suc (suc (suc n))))) = "write pp"

abbrev primitive : Serializer PrimitiveSubcircuitBytes
primitive =
    via (λ b. (number_of b.node_type, b.bytes)) (λ p. record { bytes = p.1; node_type = tag p.0 })
      (both number as_is)

abbrev pub ark : Serializers
ark = record {
  path_root = path_root;
  intermediate_root = intermediate_root;
  leaf = as_is;
  empty = record { serialize = λ u. []; deserialize = λ bs. some tt };
  equality =
      via (λ e. (e.update_idx, (e.addr1, e.addr2)))
        (λ p. record { update_idx = p.0; addr1 = p.1.0; addr2 = p.1.1 }) equality_form;
  get_index =
      via (λ g. (g.update_idx, g.leaf)) (λ p. record { update_idx = p.0; leaf = p.1 })
        (both number as_is);
  compute_path =
      via
        (λ p. (
          (p.update_idx, p.path_id),
          (
            (p.indicator, p.index_addr.indicator),
            (p.index_addr.leaf, ((p.initial_value_addr, p.final_value_addr), p.path)),
          ),
        ))
        (λ t. record {
          update_idx = t.0.0;
          path_id = t.0.1;
          indicator = t.1.0.0;
          initial_value_addr = t.1.1.1.0.0;
          final_value_addr = t.1.1.1.0.1;
          index_addr = record { indicator = t.1.0.1; leaf = t.1.1.0 };
          path = t.1.1.1.1;
        })
        path_form;
  subcircuit = all_of primitive;
}

primitives-Inverts :
    (sc : SubCircuit)
    → All (λ b. primitive.deserialize (primitive.serialize b) ≡ some b) (subcircuit_to_bytes ark sc)
unfolding subcircuit_to_bytes primitive_subcircuit_to_bytes
primitives-Inverts [] = tt
primitives-Inverts (equality p ∷ ps) = (refl, primitives-Inverts ps)
primitives-Inverts (get_index p ∷ ps) = (refl, primitives-Inverts ps)
primitives-Inverts (compute_path p ∷ ps) = (refl, primitives-Inverts ps)
primitives-Inverts (hash_leaf p ∷ ps) = (refl, primitives-Inverts ps)
primitives-Inverts (padding ∷ ps) = (refl, primitives-Inverts ps)
primitives-Inverts (write_public_parameter ∷ ps) = (refl, primitives-Inverts ps)

pub ark-AreSerializers : AreSerializers ark
ark-AreSerializers = record {
  path_root = λ a. refl;
  intermediate_root = λ a. refl;
  leaf = as_is-Inverts;
  empty = λ u. refl;
  equality = λ e.
      rw
        (both-Inverts number (both address address) number-Inverts
          (both-Inverts address address address-Inverts address-Inverts)
          (e.update_idx, (e.addr1, e.addr2)))
        refl;
  get_index = λ g. refl;
  compute_path = λ p.
      rw
        (both-Inverts pair (both pair (both as_is (both (both address address) (all_of as_is))))
          pair-Inverts
          (both-Inverts pair (both as_is (both (both address address) (all_of as_is))) pair-Inverts
            (both-Inverts as_is (both (both address address) (all_of as_is)) as_is-Inverts (
              both-Inverts (both address address) (all_of as_is)
                (both-Inverts address address address-Inverts address-Inverts)
                (list-Inverts as_is as_is-Inverts))))
          (
            (p.update_idx, p.path_id),
            (
              (p.indicator, p.index_addr.indicator),
              (p.index_addr.leaf, ((p.initial_value_addr, p.final_value_addr), p.path)),
            ),
          ))
        refl;
  subcircuit = λ sc. all_of-some primitive (subcircuit_to_bytes ark sc) (primitives-Inverts sc);
}
