-- ===== src/Vkd/Constraints/Primitives.antt =====
-- vkd/vkd_constraints.rs: a primitive whose constraints hold, one case for each.
use hekaton_system.Prelude.{
  ℕ, ◌/◌, ◌≡◌, refl, sym, ap, ◌∙◌, Bool, true, some, bind-inv, List, map, take, arith,
}
use hekaton_system.Field.{PrimeField}
use hekaton_system.SparseTree.{Bytes}
use hekaton_system.SparseTree.Circuit.{climb_var}
use hekaton_system.TreeHash.Digest.{digest_to_fpvar, input_digest}
use hekaton_system.Vkd.Layout.{
  split_factor, EqualityPrimitive, GetIndexPrimitive, ComputePathPrimitive, PrimitiveSubcircuit,
  equality, get_index, compute_path, hash_leaf, padding, write_public_parameter,
}
use hekaton_system.Vkd.Wire.{leaf_hash, null_leaf, final_root, initial_root, node_wire, index_wire}
use hekaton_system.Vkd.Constraints.{
  KeyDirectory, Setup, setup, hash_leaf_var, fpvar_to_boolean_index, index_pieces, set_index,
  equality_constraints, get_index_constraints, compute_path_constraints,
  public_parameter_constraints, primitive_constraints,
}
use hekaton_system.Vkd.Constraints.Satisfied.{
  AllFit, set_one, get_one, set_index-SetsIndex, SetsRoots, node_wire-Fits, Done,
}

module _ {ℓ} {F : Type ℓ} ⦃f : PrimeField F⦄ (hash : Bytes → Bytes)
    (hash_inner_node_var : F → F → F) (to_bits_le : F → List Bool) (depth : ℕ)
    (c : KeyDirectory) where
  abbrev Does : PrimitiveSubcircuit → Setup F → Setup F → Type ℓ
  Does p pm pm' =
      primitive_constraints hash hash_inner_node_var to_bits_le depth setup c p pm
      ≡ some (pm', true)

  abbrev Ends : PrimitiveSubcircuit → Setup F → Setup F → Type ℓ
  Ends p pm pm' = Done hash hash_inner_node_var to_bits_le depth c pm pm' p

  equality-Done :
      (eq : EqualityPrimitive) (pm pm' : Setup F)
      → Does (equality eq) pm pm'
      → AllFit hash depth pm
      → Ends (equality eq) pm pm'
  unfolding primitive_constraints equality_constraints
  equality-Done eq pm pm' h all =
      let ((v, s1), g1, h1) = bind-inv (setup.get (node_wire eq.addr1) pm) _ h in
      let ((w, s2), g2, h2) = bind-inv (setup.get (node_wire eq.addr2) s1) _ h1 in
      let (is1, ext1, all1) = get_one hash depth (node_wire eq.addr1) pm g1 all in
      let (is2, ext2, all2) = get_one hash depth (node_wire eq.addr2) s1 g2 all1 in
      let last : s2 ≡ pm' = ground arith in
      let same : w ≡ v = sym ((f.is_eq_iff v w).0 (ground arith)) in
      rw (← last) ((v, ext2 _ v is1, is2 ∙ ap some same), λ k x q. ext2 k x (ext1 k x q), all2)

  compute_path-Done :
      (p : ComputePathPrimitive) (pm pm' : Setup F)
      → SetsRoots hash hash_inner_node_var to_bits_le depth (compute_path p)
      → Does (compute_path p) pm pm'
      → AllFit hash depth pm
      → Ends (compute_path p) pm pm'
  unfolding primitive_constraints compute_path_constraints
  compute_path-Done p pm pm' r h all =
      let ((v, s1), g1, h1) = bind-inv (setup.get (node_wire p.initial_value_addr) pm) _ h in
      let ((x, s2), g2, h2) = bind-inv (setup.get (index_wire p.index_addr) s1) _ h1 in
      let (bits, b, h3) =
        bind-inv (fpvar_to_boolean_index to_bits_le (depth / split_factor) x) _ h2 in
      let root =
        climb_var (hash_leaf_var hash) hash_inner_node_var v (map input_digest p.path) bits in
      let (s3, g3, h4) = bind-inv (setup.set (node_wire p.final_value_addr) root s2) _ h3 in
      let (is1, ext1, all1) = get_one hash depth (node_wire p.initial_value_addr) pm g1 all in
      let (is2, ext2, all2) = get_one hash depth (index_wire p.index_addr) s1 g2 all1 in
      let (is3, ext3, all3) =
        set_one hash depth (node_wire p.final_value_addr) root s2 g3
          (node_wire-Fits hash hash_inner_node_var to_bits_le depth p.final_value_addr root r)
          all2 in
      let last : s3 ≡ pm' = ground arith in
      rw (← last) (
        (v, x, bits, ext3 _ v (ext2 _ v is1), ext3 _ x is2, b, is3),
        λ k y q. ext3 k y (ext2 k y (ext1 k y q)),
        all3,
      )

  get_index-Done :
      (ind : GetIndexPrimitive) (pm pm' : Setup F)
      → Does (get_index ind) pm pm'
      → AllFit hash depth pm
      → Ends (get_index ind) pm pm'
  unfolding primitive_constraints get_index_constraints
  get_index-Done ind pm pm' h all =
      let user = take 32 ind.leaf in
      let (pieces, e, h1) = bind-inv (index_pieces hash depth user) _ h in
      let (s, g, h2) =
        bind-inv
          (set_index hash hash_inner_node_var to_bits_le depth setup user pieces 0 split_factor pm)
          _ h1 in
      let (sets, ext, all') =
        set_index-SetsIndex hash hash_inner_node_var to_bits_le depth user pieces 0 split_factor pm
          s e g all in
      let last : s ≡ pm' = ground arith in rw (← last) ((pieces, e, sets), ext, all')

  public_parameter-Done :
      (pm pm' : Setup F)
      → Does write_public_parameter pm pm'
      → AllFit hash depth pm
      → Ends write_public_parameter pm pm'
  unfolding primitive_constraints public_parameter_constraints
  public_parameter-Done pm pm' h all =
      let a = digest_to_fpvar c.circuit.initial_root in
      let b = digest_to_fpvar c.circuit.final_root in
      let d = digest_to_fpvar c.params.null_leaf in
      let (s1, g1, h1) = bind-inv (setup.set initial_root a pm) _ h in
      let (s2, g2, h2) = bind-inv (setup.set final_root b s1) _ h1 in
      let (s3, g3, h3) = bind-inv (setup.set null_leaf d s2) _ h2 in
      let (is1, ext1, all1) = set_one hash depth initial_root a pm g1 tt all in
      let (is2, ext2, all2) = set_one hash depth final_root b s1 g2 tt all1 in
      let (is3, ext3, all3) = set_one hash depth null_leaf d s2 g3 tt all2 in
      let last : s3 ≡ pm' = ground arith in
      rw (← last) (
        (ext3 _ _ (ext2 _ _ is1), ext3 _ _ is2, is3),
        λ k y q. ext3 k y (ext2 k y (ext1 k y q)),
        all3,
      )

  hash_leaf-Done :
      (leaf : Bytes) (pm pm' : Setup F)
      → Does (hash_leaf leaf) pm pm'
      → AllFit hash depth pm
      → Ends (hash_leaf leaf) pm pm'
  unfolding primitive_constraints
  hash_leaf-Done leaf pm pm' h all =
      let (s, g, h1) = bind-inv (setup.set (leaf_hash leaf) (hash_leaf_var hash leaf) pm) _ h in
      let done = set_one hash depth (leaf_hash leaf) (hash_leaf_var hash leaf) pm g refl all in
      let last : s ≡ pm' = ground arith in rw (← last) done

  padding-Done :
      (pm pm' : Setup F) → Does padding pm pm' → AllFit hash depth pm → Ends padding pm pm'
  unfolding primitive_constraints
  padding-Done pm pm' h all =
      let last : pm ≡ pm' = ground arith in rw (← last) (tt, λ k v q. q, all)

  pub primitive-Done :
      (p : PrimitiveSubcircuit) (pm pm' : Setup F)
      → SetsRoots hash hash_inner_node_var to_bits_le depth p
      → Does p pm pm'
      → AllFit hash depth pm
      → Ends p pm pm'
  primitive-Done (equality eq) pm pm' r h all = equality-Done eq pm pm' h all
  primitive-Done (get_index ind) pm pm' r h all = get_index-Done ind pm pm' h all
  primitive-Done (compute_path p) pm pm' r h all = compute_path-Done p pm pm' r h all
  primitive-Done (hash_leaf leaf) pm pm' r h all = hash_leaf-Done leaf pm pm' h all
  primitive-Done write_public_parameter pm pm' r h all = public_parameter-Done pm pm' h all
  primitive-Done padding pm pm' r h all = padding-Done pm pm' h all
