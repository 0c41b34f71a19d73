-- ===== src/Vkd/Subtraces/Run.antt =====
-- The native run against the constraints of the subcircuits, primitive by primitive.
use mathlib.Core.Option.{some-injective}
use native.Mathlib.Nat.{pow-le-pow_right}
use hekaton_system.Prelude.{
  ℕ, ◌*◌, ◌/◌, ◌≡◌, refl, sym, ap, ◌∙◌, Bool, true, false, not, some, bind-inv, List, [], ◌∷◌, ◌&&◌,
  map, length, take, arith, subst, ◌==◌,
}
use hekaton_system.Prelude.Assoc.{lookup}
use hekaton_system.Field.{PrimeField}
use hekaton_system.Portal.Rom.Wires.{setup_get-wire}
use hekaton_system.SparseTree.{
  Bytes, InnerHash, inner_hash_size, internal_node, climb, compute_root, node_hash_of,
}
use hekaton_system.SparseTree.Circuit.{
  climb_var, circuit_root-compute_root, compute_root_var_from_internal_node,
}
use hekaton_system.TreeHash.Digest.{digest_to_fpvar, input_digest}
use hekaton_system.TreeHash.Packing.{input_digest-digest_to_fpvar}
use hekaton_system.Vkd.Layout.{
  split_factor, EqualityPrimitive, GetIndexPrimitive, ComputePathPrimitive, PrimitiveSubcircuit,
  equality, get_index, compute_path, hash_leaf, padding, write_public_parameter, SubCircuit,
}
use hekaton_system.Vkd.Wire.{
  WireName-discrete, node_wire, index_wire, leaf_hash, initial_root, final_root, null_leaf,
}
use hekaton_system.Vkd.Constraints.{
  KeyDirectory, Setup, setup, leaf_digest, hash_leaf_var, fpvar_to_boolean_index,
  primitive_constraints, equality_constraints, get_index_constraints, compute_path_constraints,
  public_parameter_constraints, subcircuit_constraints,
}
use hekaton_system.Vkd.Constraints.Path.{fpvar_to_boolean_index-le_bits_to_fp}
use hekaton_system.Vkd.Constraints.Native.{
  IsDigest, Suits, leaf_digest-IsDigest, input_digest-leaf_digest,
}
use hekaton_system.Vkd.Subtraces.{
  NativeRun, put_node, hash_leaf_to_split_index, native_set_index, native_equality,
  native_get_index, native_compute_path, native_public_parameter, native_primitive,
  native_primitives,
}
use hekaton_system.Vkd.Subtraces.Split.{hash_leaf_to_split_index-index_pieces, map-not-not}
use hekaton_system.Vkd.Subtraces.Agree.{
  Agrees, Agrees-Later, put_node-Agrees, native_set_index-set_index,
}

module _ {ℓ} {F : Type ℓ} ⦃f : PrimeField F⦄ (hash : Bytes → Bytes)
    (hash_inner_node : InnerHash → InnerHash → InnerHash) (hash_inner_node_var : F → F → F)
    (to_bits_le : F → List Bool) (depth width k : ℕ)
    (s : Suits hash hash_inner_node hash_inner_node_var to_bits_le depth width)
    (chunks : depth ≡ 32 * k) (c : KeyDirectory) (di : IsDigest c.circuit.initial_root)
    (df : IsDigest c.circuit.final_root) (dn : IsDigest c.params.null_leaf) where
  -- The constraints make the requests of the native run.
  abbrev Follows : PrimitiveSubcircuit → NativeRun F → NativeRun F → Type ℓ
  Follows p st st' =
      (holds : Bool) × Agrees (8 * k) st'
      × (primitive_constraints hash hash_inner_node_var to_bits_le depth setup c p st.pm
          ≡ some (st'.pm, holds))

  get-Agrees :
      (name : _) (st : NativeRun F) {v : F} {pm : Setup F}
      → setup.get name st.pm ≡ some (v, pm)
      → Agrees (8 * k) st
      → Agrees (8 * k) (record st { pm = pm })
  get-Agrees name st {v} {pm} g agrees =
      let (is, same) = setup_get-wire WireName-discrete name st.pm g in
      Agrees-Later (8 * k) st pm (λ j w q. rw same q) agrees

  equality-Follows :
      (eq : EqualityPrimitive) (st st' : NativeRun F)
      → native_equality eq st ≡ some st'
      → Agrees (8 * k) st
      → Follows (equality eq) st st'
  unfolding native_equality primitive_constraints equality_constraints
  equality-Follows eq st st' h agrees =
      let ((v, pm1), g1, h1) = bind-inv (setup.get (node_wire eq.addr1) st.pm) _ h in
      let ((w, pm2), g2, h2) = bind-inv (setup.get (node_wire eq.addr2) pm1) _ h1 in
      let agrees1 = get-Agrees (node_wire eq.addr1) st g1 agrees in
      let agrees2 = get-Agrees (node_wire eq.addr2) (record st { pm = pm1 }) g2 agrees1 in
      subst (Follows (equality eq) st) (some-injective _ _ h2)
        (f.is_eq v w, agrees2, rw (g1, equality_constraints) (rw (g2, equality_constraints) refl))

  public_parameter-Follows :
      (st st' : NativeRun F)
      → native_public_parameter c st ≡ some st'
      → Agrees (8 * k) st
      → Follows write_public_parameter st st'
  unfolding native_public_parameter primitive_constraints public_parameter_constraints
  public_parameter-Follows st st' h agrees =
      let (s1, g1, h1) = bind-inv (put_node initial_root c.circuit.initial_root st) _ h in
      let (s2, g2, h2) = bind-inv (put_node final_root c.circuit.final_root s1) _ h1 in
      let (a1, e1) =
        put_node-Agrees (8 * k) initial_root c.circuit.initial_root st s1 g1 di agrees in
      let (a2, e2) = put_node-Agrees (8 * k) final_root c.circuit.final_root s1 s2 g2 df a1 in
      let (a3, e3) = put_node-Agrees (8 * k) null_leaf c.params.null_leaf s2 st' h2 dn a2 in
      (
        true,
        a3,
        rw (e1, public_parameter_constraints)
            (rw (e2, public_parameter_constraints) (rw (e3, public_parameter_constraints) refl)),
      )

  hash_leaf-Follows :
      (leaf : Bytes) (st st' : NativeRun F)
      → put_node (leaf_hash leaf) (leaf_digest hash leaf) st ≡ some st'
      → Agrees (8 * k) st
      → Follows (hash_leaf leaf) st st'
  unfolding primitive_constraints
  hash_leaf-Follows leaf st st' h agrees =
      let d =
        leaf_digest-IsDigest hash hash_inner_node hash_inner_node_var to_bits_le depth width s
          leaf in
      let (a, e) =
        put_node-Agrees (8 * k) (leaf_hash leaf) (leaf_digest hash leaf) st st' h d agrees in
      let v_is : digest_to_fpvar (leaf_digest hash leaf) ≡ hash_leaf_var hash leaf =
        sym (input_digest-digest_to_fpvar (leaf_digest hash leaf) d.0 d.1)
        ∙ input_digest-leaf_digest hash hash_inner_node hash_inner_node_var to_bits_le depth width s
            leaf in
      let set : setup.set (leaf_hash leaf) (hash_leaf_var hash leaf) st.pm ≡ some st'.pm =
        ap (λ x. setup.set (leaf_hash leaf) x st.pm) (sym v_is) ∙ e in
      (true, a, rw (set, primitive_constraints) refl)

  get_index-Follows :
      (ind : GetIndexPrimitive) (st st' : NativeRun F)
      → native_get_index hash hash_inner_node depth ind st ≡ some st'
      → Agrees (8 * k) st
      → Follows (get_index ind) st st'
  unfolding native_get_index primitive_constraints get_index_constraints
  get_index-Follows ind st st' h agrees =
      let user = take 32 ind.leaf in
      let (pieces, native, circuit, sizes) =
        hash_leaf_to_split_index-index_pieces hash hash_inner_node hash_inner_node_var to_bits_le
          depth width k s chunks user in
      let ((fps, bits), g, h1) =
        bind-inv (hash_leaf_to_split_index {F = F} depth (hash user) split_factor) _ h in
      let same : (map f.le_bits_to_fp pieces, map (map not) pieces) ≡ (fps, bits) =
        some-injective _ _ (sym native ∙ g) in
      let sets : native_set_index user (map f.le_bits_to_fp pieces) (map (map not) pieces) 0
            split_factor st
          ≡ some st' =
        ap (λ r. native_set_index user r.0 r.1 0 split_factor st) same ∙ h1 in
      let (a, e) =
        native_set_index-set_index (8 * k) hash hash_inner_node_var to_bits_le depth user pieces 0
          split_factor st st' sizes sets agrees in
      (true, a, rw (circuit, get_index_constraints) (rw (e, get_index_constraints) refl))

  climb-IsDigest :
      (h r : InnerHash) (path : List InnerHash) (bits : List Bool)
      → climb (leaf_digest hash) hash_inner_node h path bits ≡ some r
      → IsDigest h
      → IsDigest r
  unfolding climb
  climb-IsDigest h r [] bits e d = subst IsDigest (some-injective _ _ e) d
  climb-IsDigest h r (x ∷ path) [] e d = absurd (ground arith)
  climb-IsDigest h r (x ∷ path) (true ∷ bits) e d =
      climb-IsDigest (hash_inner_node h x) r path bits e (s.digests h x)
  climb-IsDigest h r (x ∷ path) (false ∷ bits) e d =
      climb-IsDigest (hash_inner_node x h) r path bits e (s.digests x h)

  compute_root-IsDigest :
      (v r : InnerHash) (path : List InnerHash) (bits : List Bool)
      → compute_root (leaf_digest hash) hash_inner_node path v bits internal_node ≡ some r
      → IsDigest v
      → IsDigest r
  unfolding compute_root node_hash_of
  compute_root-IsDigest v r path bits e d =
      let is27 : (length v == inner_hash_size) ≡ true = ground (arith, d.0) in
      climb-IsDigest v r path bits (sym (rw (is27, compute_root) refl) ∙ e) d

  -- The root of a piece of a path in the circuit, from the native one.
  circuit_root :
      (path : List InnerHash) (v r : InnerHash) (piece : List Bool)
      → compute_root (leaf_digest hash) hash_inner_node path v (map not piece) internal_node
        ≡ some r
      → IsDigest v
      → climb_var
          (hash_leaf_var hash)
          hash_inner_node_var
          (input_digest v)
          (map input_digest path)
          piece
        ≡ digest_to_fpvar r
  unfolding compute_root_var_from_internal_node
  circuit_root path v r piece e d =
      let dr = compute_root-IsDigest v r path (map not piece) e d in
      ap
        (climb_var (hash_leaf_var hash) hash_inner_node_var (input_digest v)
          (map input_digest path))
        (sym (map-not-not piece))
      ∙ circuit_root-compute_root (hash_leaf_var hash) hash_inner_node_var (leaf_digest hash)
          hash_inner_node input_digest s.gadget
          (input_digest-leaf_digest hash hash_inner_node hash_inner_node_var to_bits_le depth width
            s)
          internal_node path v r (map not piece) e
      ∙ input_digest-digest_to_fpvar r dr.0 dr.1

  compute_path-Follows :
      (p : ComputePathPrimitive) (st st' : NativeRun F)
      → native_compute_path hash hash_inner_node depth p st ≡ some st'
      → Agrees (8 * k) st
      → Follows (compute_path p) st st'
  unfolding native_compute_path primitive_constraints compute_path_constraints
  compute_path-Follows p st st' h agrees =
      let from = node_wire p.initial_value_addr in
      let at_index = index_wire p.index_addr in
      let (bits, lb, h1) = bind-inv (lookup WireName-discrete at_index st.index_memory) _ h in
      let (iv, li, h2) = bind-inv (lookup WireName-discrete from st.inner_node_memory) _ h1 in
      let ((v, pm1), g1, h3) = bind-inv (setup.get from st.pm) _ h2 in
      let ((x, pm2), g2, h4) = bind-inv (setup.get at_index pm1) _ h3 in
      let (root, e, h5) =
        bind-inv (compute_root (leaf_digest hash) hash_inner_node p.path iv bits internal_node) _
          h4 in
      let agrees1 = get-Agrees from st g1 agrees in
      let agrees2 = get-Agrees at_index (record st { pm = pm1 }) g2 agrees1 in
      let (is_v, div) = agrees.0 from iv li in
      let (piece, negated, size, is_x) = agrees1.1 at_index bits lb in
      let v_is : v ≡ input_digest iv =
        some-injective _ _ (sym ((setup_get-wire WireName-discrete from st.pm g1).0) ∙ is_v) in
      let x_is : x ≡ f.le_bits_to_fp piece =
        some-injective _ _ (sym ((setup_get-wire WireName-discrete at_index pm1 g2).0) ∙ is_x) in
      let e' : compute_root (leaf_digest hash) hash_inner_node p.path iv (map not piece)
            internal_node
          ≡ some root =
        ap (λ b. compute_root (leaf_digest hash) hash_inner_node p.path iv b internal_node)
          (sym negated)
        ∙ e in
      let read : fpvar_to_boolean_index to_bits_le (depth / split_factor) x ≡ some piece =
        ap (fpvar_to_boolean_index to_bits_le (depth / split_factor)) x_is
        ∙ ap (λ n. fpvar_to_boolean_index to_bits_le n (f.le_bits_to_fp piece)) (omega arith)
        ∙ fpvar_to_boolean_index-le_bits_to_fp to_bits_le (8 * k) width piece s.le
            (omega (arith, s.wide, s.fits))
            (omega (
              arith,
              s.large,
              pow-le-pow_right {n = 2} (omega arith) {i = 8 * k} {j = 216} (omega (arith, s.fits)),
            ))
            size in
      let root_is : climb_var (hash_leaf_var hash) hash_inner_node_var v (map input_digest p.path)
            piece
          ≡ digest_to_fpvar root =
        ap
          (λ w.
            climb_var (hash_leaf_var hash) hash_inner_node_var w (map input_digest p.path) piece)
          v_is
        ∙ circuit_root p.path iv root piece e' div in
      let (a, set) =
        put_node-Agrees (8 * k) (node_wire p.final_value_addr) root (record st { pm = pm2 }) st' h5
          (compute_root-IsDigest iv root p.path bits e div) agrees2 in
      let set' = ap (λ w. setup.set (node_wire p.final_value_addr) w pm2) root_is ∙ set in
      (
        true,
        a,
        rw (g1, compute_path_constraints)
            (rw (g2, compute_path_constraints)
              (rw (read, compute_path_constraints) (rw (set', compute_path_constraints) refl))),
      )

  primitive-Follows :
      (p : PrimitiveSubcircuit) (st st' : NativeRun F)
      → native_primitive hash hash_inner_node depth c p st ≡ some st'
      → Agrees (8 * k) st
      → Follows p st st'
  unfolding native_primitive
  primitive-Follows (equality eq) st st' h a = equality-Follows eq st st' h a
  primitive-Follows (get_index ind) st st' h a = get_index-Follows ind st st' h a
  primitive-Follows (compute_path p) st st' h a = compute_path-Follows p st st' h a
  primitive-Follows (hash_leaf leaf) st st' h a = hash_leaf-Follows leaf st st' h a
  primitive-Follows write_public_parameter st st' h a = public_parameter-Follows st st' h a
  primitive-Follows padding st st' h a =
      subst (Follows padding st) (some-injective _ _ h)
        (true, a, unfold primitive_constraints in refl)

  pub subcircuit-Follows :
      (sc : SubCircuit) (st st' : NativeRun F)
      → native_primitives hash hash_inner_node depth c sc st ≡ some st'
      → Agrees (8 * k) st
      → (holds : Bool) × Agrees (8 * k) st'
        × (subcircuit_constraints hash hash_inner_node_var to_bits_le depth setup c sc st.pm
            ≡ some (st'.pm, holds))
  unfolding native_primitives subcircuit_constraints
  subcircuit-Follows [] st st' h a =
      let same : st ≡ st' = some-injective _ _ h in
      (true, subst (Agrees (8 * k)) same a, ap (λ x. some (x.pm, true)) same)
  subcircuit-Follows (p ∷ ps) st st' h a =
      let (s1, g, h1) = bind-inv (native_primitive hash hash_inner_node depth c p st) _ h in
      let (holds, a1, e) = primitive-Follows p st s1 g a in
      let (rest, a2, e') = subcircuit-Follows ps s1 st' h1 a1 in
      (holds && rest, a2, rw (e, subcircuit_constraints) (rw (e', subcircuit_constraints) refl))
