-- ===== src/Vkd/Constraints/Satisfied.antt =====
-- vkd/vkd_constraints.rs: what the wires hold after a run of the subcircuits whose constraints hold.
use hekaton_system.Prelude.{
  ℕ, zero, suc, ◌+◌, ◌/◌, ◌≤◌, ◌<◌, ◌≡◌, refl, inl, inr, Bool, Option, some, bind-inv, List, map,
  get_elem?, take, arith, ℕ_discrete, subst,
}
use hekaton_system.Field.{PrimeField}
use hekaton_system.Portal.Rom.Wires.{wire, setup_get-wire, setup_set-wire}
use hekaton_system.SparseTree.{Bytes}
use hekaton_system.SparseTree.Circuit.{climb_var}
use hekaton_system.TreeHash.Digest.{digest_to_fpvar, input_digest}
use hekaton_system.Vkd.Layout.{
  split_factor, PrimitiveSubcircuit, equality, get_index, compute_path, hash_leaf, padding,
  write_public_parameter, NodeAddress,
}
use hekaton_system.Vkd.Wire.{
  WireName, WireName-discrete, leaf_hash, null_leaf, final_root, initial_root, index, node_wire,
  index_wire,
}
use hekaton_system.Vkd.Constraints.{
  KeyDirectory, Setup, setup, hash_leaf_var, fpvar_to_boolean_index, index_pieces, set_index,
}

module _ {ℓ} {F : Type ℓ} where
  abbrev pub value : Setup F → WireName → Option F
  value pm k = wire WireName-discrete pm k

  abbrev pub Later : Setup F → Setup F → Type ℓ
  Later pm pm' = (k : WireName) (v : F) → value pm k ≡ some v → value pm' k ≡ some v

module _ {ℓ} {F : Type ℓ} ⦃f : PrimeField F⦄ (hash : Bytes → Bytes) (depth : ℕ) where
  -- The value of the piece `i` of the index of a username.
  abbrev pub IsIndex : ℕ → Bytes → F → Type ℓ
  IsIndex i username v =
      (pieces : List (List Bool)) × (piece : List Bool) × (index_pieces hash depth username
        ≡ some pieces)
      × (get_elem? pieces i ≡ some piece)
      × (v ≡ f.le_bits_to_fp piece)

  -- What a value of a wire must be, whichever subcircuit has set it.
  abbrev pub Fits : WireName → F → Type ℓ
  Fits (leaf_hash l) v = v ≡ hash_leaf_var hash l
  Fits (index i u) v = IsIndex i u v
  Fits _ v = Unit

  abbrev pub AllFit : Setup F → Type ℓ
  AllFit pm = (k : WireName) (v : F) → value pm k ≡ some v → Fits k v

  -- A request that sets a fitting wire.
  pub set_one :
      (name : WireName) (v : F) (pm : Setup F) {pm' : Setup F}
      → setup.set name v pm ≡ some pm'
      → Fits name v
      → AllFit pm
      → (value pm' name ≡ some v) × Later pm pm' × AllFit pm'
  set_one name v pm {pm'} h fits all =
      let (is, ext, adds) = setup_set-wire WireName-discrete name v pm h in
      (
        is,
        ext,
        λ k w q. elim (adds k w q) [
          | inl old ↦ all k w old
          | inr (e, e') ↦ subst (λ x. Fits k x) e' (subst (λ x. Fits x v) e fits)
        ],
      )

  pub get_one :
      (name : WireName) (pm : Setup F) {v : F} {pm' : Setup F}
      → setup.get name pm ≡ some (v, pm')
      → AllFit pm
      → (value pm' name ≡ some v) × Later pm pm' × AllFit pm'
  get_one name pm {v} {pm'} h all =
      let (is, same) = setup_get-wire WireName-discrete name pm h in
      (rw same is, λ k w q. rw same q, λ k w q. all k w (rw same at q))

  -- What a set of the index's pieces leaves, from a piece on.
  abbrev pub SetsIndex : Bytes → List (List Bool) → ℕ → ℕ → Setup F → Type ℓ
  SetsIndex username pieces i left pm =
      (j : ℕ)
      → i ≤ j
      → j < i + left
      → (piece : List Bool) × (get_elem? pieces j ≡ some piece)
        × (value pm (index j username) ≡ some (f.le_bits_to_fp piece))

module _ {ℓ} {F : Type ℓ} ⦃f : PrimeField F⦄ (hash : Bytes → Bytes)
    (hash_inner_node_var : F → F → F) (to_bits_le : F → List Bool) (depth : ℕ) where
  pub set_index-SetsIndex :
      (username : Bytes) (pieces : List (List Bool)) (i left : ℕ) (pm pm' : Setup F)
      → index_pieces hash depth username ≡ some pieces
      → set_index hash hash_inner_node_var to_bits_le depth setup username pieces i left pm
        ≡ some pm'
      → AllFit hash depth pm
      → SetsIndex hash depth username pieces i left pm' × Later pm pm' × AllFit hash depth pm'
  unfolding set_index
  set_index-SetsIndex username pieces i zero pm pm' e h all =
      let same : pm ≡ pm' = ground arith in
      (λ j p q. absurd (omega arith), rw same (λ k v q. q), rw (← same) all)
  set_index-SetsIndex username pieces i (suc left) pm pm' e h all =
      let (piece, g, h1) = bind-inv (get_elem? pieces i) _ h in
      let (pm1, set, h2) =
        bind-inv (setup.set (index i username) (f.le_bits_to_fp piece) pm) _ h1 in
      let (is, ext, all1) =
        set_one hash depth (index i username) (f.le_bits_to_fp piece) pm set
          (pieces, piece, e, g, refl) all in
      let (sets, ext', all') = set_index-SetsIndex username pieces (i + 1) left pm1 pm' e h2 all1 in
      (
        λ j p q. elim (ℕ_discrete j i) [
          | yes same ↦ rw same (piece, g, ext' (index i username) (f.le_bits_to_fp piece) is)
          | no ne ↦ sets j (omega arith) (omega arith)
        ],
        λ k v q. ext' k v (ext k v q),
        all',
      )

  -- The value of the wires that a primitive is about, after a run in which its constraints hold.
  abbrev pub Sat : KeyDirectory → Setup F → PrimitiveSubcircuit → Type ℓ
  Sat c pm (equality eq) =
      (v : F) × (value pm (node_wire eq.addr1) ≡ some v) × (value pm (node_wire eq.addr2) ≡ some v)
  Sat c pm (get_index ind) =
      (pieces : List (List Bool)) × (index_pieces hash depth (take 32 ind.leaf) ≡ some pieces)
      × SetsIndex hash depth (take 32 ind.leaf) pieces 0 split_factor pm
  Sat c pm (compute_path p) =
      (v x : F) × (bits : List Bool) × (value pm (node_wire p.initial_value_addr) ≡ some v)
      × (value pm (index_wire p.index_addr) ≡ some x)
      × (fpvar_to_boolean_index to_bits_le (depth / split_factor) x ≡ some bits)
      × (value pm (node_wire p.final_value_addr)
          ≡ some
              (climb_var (hash_leaf_var hash) hash_inner_node_var v (map input_digest p.path) bits))
  Sat c pm (hash_leaf leaf) = value pm (leaf_hash leaf) ≡ some (hash_leaf_var hash leaf)
  Sat c pm write_public_parameter =
      (value pm initial_root ≡ some (digest_to_fpvar c.circuit.initial_root))
      × (value pm final_root ≡ some (digest_to_fpvar c.circuit.final_root))
      × (value pm null_leaf ≡ some (digest_to_fpvar c.params.null_leaf))
  Sat c pm padding = Unit

  pub Sat-Later :
      (c : KeyDirectory) (pm pm' : Setup F) (p : PrimitiveSubcircuit)
      → Later pm pm'
      → Sat c pm p
      → Sat c pm' p
  Sat-Later c pm pm' (equality eq) ext (v, a, b) = (v, ext _ v a, ext _ v b)
  Sat-Later c pm pm' (get_index ind) ext (pieces, e, sets) =
      (pieces, e, λ j p q. let (piece, g, a) = sets j p q in (piece, g, ext _ _ a))
  Sat-Later c pm pm' (compute_path p) ext (v, x, bits, a, b, d, e) =
      (v, x, bits, ext _ v a, ext _ x b, d, ext _ _ e)
  Sat-Later c pm pm' (hash_leaf leaf) ext a = ext _ _ a
  Sat-Later c pm pm' write_public_parameter ext (a, b, d) = (ext _ _ a, ext _ _ b, ext _ _ d)
  Sat-Later c pm pm' padding ext s = tt

  -- The root of a path goes to a wire for roots.
  abbrev pub IsRoot : NodeAddress → Type 0
  IsRoot (NodeAddress.path_root a) = Unit
  IsRoot (NodeAddress.intermediate_root a) = Unit
  IsRoot _ = ⊥

  abbrev pub SetsRoots : PrimitiveSubcircuit → Type 0
  SetsRoots (compute_path p) = IsRoot p.final_value_addr
  SetsRoots _ = Unit

  pub node_wire-Fits : (a : NodeAddress) (v : F) → IsRoot a → Fits hash depth (node_wire a) v
  unfolding node_wire
  node_wire-Fits (NodeAddress.path_root a) v r = tt
  node_wire-Fits (NodeAddress.leaf_hash l) v r = elim r [ ]
  node_wire-Fits NodeAddress.null_leaf v r = elim r [ ]
  node_wire-Fits NodeAddress.final_root v r = elim r [ ]
  node_wire-Fits NodeAddress.initial_root v r = elim r [ ]
  node_wire-Fits (NodeAddress.intermediate_root a) v r = tt

  abbrev pub Done : KeyDirectory → Setup F → Setup F → PrimitiveSubcircuit → Type ℓ
  Done c pm pm' p = Sat c pm' p × Later pm pm' × AllFit hash depth pm'
