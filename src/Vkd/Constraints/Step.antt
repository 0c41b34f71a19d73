-- ===== src/Vkd/Constraints/Step.antt =====
-- One update: what its subcircuits make the wires hold, and a step of `verify`.
use native.Mathlib.Nat.{pow-le-pow_right}
use hekaton_system.Prelude.{
  ℕ, ◌*◌, ◌/◌, ◌≡◌, refl, sym, ap, ◌∙◌, true, Bool, some, Option, List, map, flatten, take,
  length-take, arith, All, subst,
}
use hekaton_system.Field.{PrimeField}
use hekaton_system.SparseTree.{
  Bytes, InnerHash, NodeType, leaf, internal_node, compute_root, to_bit_vector, verify,
}
use hekaton_system.TreeHash.Digest.{bits_le, of_le_bytes, input_digest, digest_to_fpvar}
use hekaton_system.TreeHash.Packing.{input_digest-digest_to_fpvar}
use hekaton_system.Vkd.{Update, update, append, concat, next_counter, verify_step}
use hekaton_system.Vkd.Chain.{bytes_eq_refl}
use hekaton_system.Vkd.Layout.{
  NodeAddress, update_subcircuits, get_previous_root_from_update_idx, SubCircuit, root_equality,
}
use hekaton_system.Vkd.Wire.{node_wire, path_root, leaf_hash, null_leaf}
use hekaton_system.Vkd.Constraints.{KeyDirectory, Setup, hash_leaf_var, leaf_digest}
use hekaton_system.Vkd.Constraints.Satisfied.{value, AllFit, Sat}
use hekaton_system.Vkd.Constraints.Run.{Sats}
use hekaton_system.Vkd.Constraints.Quarters.{Quarters, quarters}
use hekaton_system.Vkd.Constraints.Index.{length-bits}
use hekaton_system.Vkd.Constraints.Path.{index_bits, pieced, IsWide, FourSat, path-root}
use hekaton_system.Vkd.Constraints.Native.{
  IsDigest, input_digest-injective, Suits, number, index_of-number, Root, root_from-leaf,
  root_from-node,
}
use hekaton_system.Vkd.Constraints.Built.{IsFull, take-concat, append_built, update_built}

module _ {ℓ} {F : Type ℓ} ⦃f : PrimeField F⦄ (hash : Bytes → Bytes)
    (hash_inner_node : InnerHash → InnerHash → InnerHash) (hash_inner_node_var : F → F → F)
    (to_bits_le : F → List Bool) (depth width : ℕ)
    (s : Suits hash hash_inner_node hash_inner_node_var to_bits_le depth width) (c : KeyDirectory)
    (pm : Setup F) (all : AllFit hash depth pm) where
  is_four : depth ≡ 4 * (depth / 4)
  is_four = omega (arith, s.bytes)

  index_quarters : (username : Bytes) → Quarters (index_bits hash depth username) (depth / 4)
  index_quarters username = quarters (index_bits hash depth username) (depth / 4) (
      omega (
        arith,
        length-take depth (flatten (map (bits_le 8) (hash username))),
        length-bits (hash username),
        (s.hashes username).0,
        s.fits,
        is_four,
      ))

  is_wide :
      (username : Bytes)
      → IsWide hash hash_inner_node_var to_bits_le depth
          (depth / 4)
          width
          username
          (index_quarters username)
  is_wide username = record {
    le = s.le;
    wide = omega (arith, s.wide, s.fits);
    large = omega (
      arith,
      s.large,
      pow-le-pow_right {n = 2} (omega arith) {i = depth / 4} {j = 216} (omega (arith, s.fits)),
    );
    four = is_four;
    fits = omega (arith, s.fits, (s.hashes username).0);
  }

  -- The last wire of a path of a user holds the field element of the native root.
  path_value :
      (update_idx path_id : ℕ) (initial_node : NodeAddress) (username leaf_bytes v : Bytes) (w : F)
      (path : List InnerHash) (q : Quarters path (depth / 4)) (type : NodeType)
      → take 32 leaf_bytes ≡ username
      → FourSat hash hash_inner_node_var to_bits_le depth
          (depth / 4)
          width
          username
          (index_quarters username)
          c
          pm
          (pieced path (depth / 4) q update_idx path_id initial_node leaf_bytes)
      → value pm (node_wire initial_node) ≡ some w
      → (root : Root hash hash_inner_node hash_inner_node_var to_bits_le depth width s path username
          v type w)
      → value pm (path_root path_id update_idx) ≡ some (input_digest root.0)
  path_value update_idx path_id initial_node username leaf_bytes v w path q type user sats h
        (r, e, d, same) =
      path-root hash hash_inner_node_var to_bits_le depth (depth / 4) width username
        (index_quarters username) c pm update_idx path_id initial_node leaf_bytes path q w
        (is_wide username) all user sats h
      ∙ ap some (sym same)

  abbrev pub Wired : SubCircuit → Type ℓ
  Wired sc = Sats hash hash_inner_node_var to_bits_le depth c pm sc

  -- A step of `verify` from a root that the previous wire holds: it accepts, and the next wire holds
  -- the next root.
  abbrev pub Steps : ℕ → Update → InnerHash → Type ℓ
  Steps update_idx u r =
      (r' : InnerHash) × (verify_step hash of_le_bytes (leaf_digest hash) hash_inner_node depth
          c.params.null_leaf true r u
        ≡ some (true, r'))
      × IsDigest r'
      × (value pm (path_root 1 update_idx) ≡ some (input_digest r'))

  -- The comparison of the old path's root with the previous root.
  old_root :
      (update_idx : ℕ) (r r0 : InnerHash)
      → IsDigest r
      → IsDigest r0
      → value pm (path_root 0 update_idx) ≡ some (input_digest r0)
      → value pm (node_wire (get_previous_root_from_update_idx update_idx)) ≡ some (input_digest r)
      → Sat hash hash_inner_node_var to_bits_le depth c pm (root_equality update_idx)
      → r0 ≡ r
  unfolding node_wire
  old_root update_idx r r0 d d0 h p (v, a, b) =
      let same : ◌≡◌ {A = F} (input_digest r0) (input_digest r) = ground arith in
      input_digest-injective r0 r d0 d s.large same

  verifies :
      (path : List InnerHash) (r r0 value_bytes : Bytes) (username : Bytes) (type : NodeType)
      → compute_root
          (leaf_digest hash)
          hash_inner_node
          path
          value_bytes
          (to_bit_vector
            (number hash hash_inner_node hash_inner_node_var to_bits_le depth width s username)
            depth)
          type
        ≡ some r0
      → r0 ≡ r
      → verify
          (leaf_digest hash)
          hash_inner_node
          path
          r
          value_bytes
          (to_bit_vector
            (number hash hash_inner_node hash_inner_node_var to_bits_le depth width s username)
            depth)
          type
        ≡ some true
  unfolding verify
  verifies path r r0 value_bytes username type e same =
      rw (e, verify) (rw same (ap some (bytes_eq_refl r)))

  subcircuits-Wired :
      {o : Option (List SubCircuit)} (known scs : List SubCircuit)
      → o ≡ some known
      → o ≡ some scs
      → All Wired scs
      → All Wired known
  subcircuits-Wired known scs e h wired =
      let same : scs ≡ known = ground arith in subst (All Wired) same wired

  pub append-Steps :
      (update_idx : ℕ) (username key : Bytes) (path : List InnerHash) (scs : List SubCircuit)
      (r : InnerHash)
      → update_subcircuits update_idx
          (append (record { username = username; key = key; path = path }))
        ≡ some scs
      → All Wired scs
      → IsFull depth (append (record { username = username; key = key; path = path }))
      → IsDigest r
      → IsDigest c.params.null_leaf
      → value pm null_leaf ≡ some (digest_to_fpvar c.params.null_leaf)
      → value pm (node_wire (get_previous_root_from_update_idx update_idx)) ≡ some (input_digest r)
      → Steps update_idx (append (record { username = username; key = key; path = path })) r
  unfolding verify_step node_wire
  append-Steps update_idx username key path scs r h wired ((ln, lk), lp) d dn hn hr =
      let q = quarters path (depth / 4) (lp ∙ is_four) in
      let bytes = concat username key 0 in
      let built = append_built update_idx (depth / 4) username key path q ln lk in
      let (
        (hl, (gi, (o0, t0))),
        (
          (o1, t1),
          ((o2, t2), ((o3, (eq, t3)), ((n0, t4), ((n1, t5), ((n2, t6), ((n3, t7), t8)))))),
        ),
      ) =
        subcircuits-Wired _ scs built h wired in
      let user = take-concat username key 0 ln in
      let null_is : value pm null_leaf ≡ some (input_digest c.params.null_leaf) =
        hn ∙ ap some (sym (input_digest-digest_to_fpvar c.params.null_leaf dn.0 dn.1)) in
      let root0 =
        root_from-node hash hash_inner_node hash_inner_node_var to_bits_le depth width s path
          username c.params.null_leaf lp dn in
      let root1 =
        root_from-leaf hash hash_inner_node hash_inner_node_var to_bits_le depth width s path
          username bytes lp in
      let w0 =
        path_value update_idx 0 NodeAddress.null_leaf username bytes c.params.null_leaf
          (input_digest c.params.null_leaf) path q internal_node user (o0, o1, o2, o3) null_is
          root0 in
      let w1 =
        path_value update_idx 1 (NodeAddress.leaf_hash bytes) username bytes bytes
          (hash_leaf_var hash bytes) path q leaf user (n0, n1, n2, n3) hl root1 in
      let same = old_root update_idx r root0.0 d (root0.2) w0 hr eq in
      let index =
        index_of-number hash hash_inner_node hash_inner_node_var to_bits_le depth width s
          username in
      (
        root1.0,
        rw (index, verify_step)
            (rw
              (
                verifies path r root0.0 c.params.null_leaf username internal_node root0.1 same,
                verify_step,
              )
              (rw (root1.1, verify_step) refl)),
        root1.2,
        w1,
      )

  pub update-Steps :
      (update_idx counter : ℕ) (username key1 key2 : Bytes) (path : List InnerHash)
      (scs : List SubCircuit) (r : InnerHash)
      → update_subcircuits update_idx (
          update (record {
            username = username;
            counter = counter;
            key1 = key1;
            path = path;
            key2 = key2;
          }))
        ≡ some scs
      → All Wired scs
      → IsFull depth (
          update (record {
            username = username;
            counter = counter;
            key1 = key1;
            path = path;
            key2 = key2;
          }))
      → IsDigest r
      → value pm (node_wire (get_previous_root_from_update_idx update_idx)) ≡ some (input_digest r)
      → Steps update_idx
          (update (record {
            username = username;
            counter = counter;
            key1 = key1;
            path = path;
            key2 = key2;
          }))
          r
  unfolding verify_step node_wire
  update-Steps update_idx counter username key1 key2 path scs r h wired ((ln, l1, l2), lp) d hr =
      let q = quarters path (depth / 4) (lp ∙ is_four) in
      let leaf1 = concat username key1 counter in
      let leaf2 = concat username key2 (next_counter counter) in
      let built = update_built update_idx (depth / 4) counter username key1 key2 path q ln l1 l2 in
      let (
        (o0, t0),
        (
          (o1, t1),
          ((o2, t2), ((o3, t3), ((eq, (hl2, (n0, t4))), ((n1, t5), ((n2, t6), ((n3, t7), t8)))))),
        ),
      ) =
        subcircuits-Wired _ scs built h wired in
      let (v, x, bits, set, o4, o5, o6) = o0 in
      let hl1 : value pm (node_wire (NodeAddress.leaf_hash leaf1))
          ≡ some (hash_leaf_var hash leaf1) =
        set ∙ ap some (all (leaf_hash leaf1) v set) in
      let user = take-concat username key1 counter ln in
      let root1 =
        root_from-leaf hash hash_inner_node hash_inner_node_var to_bits_le depth width s path
          username leaf1 lp in
      let root2 =
        root_from-leaf hash hash_inner_node hash_inner_node_var to_bits_le depth width s path
          username leaf2 lp in
      let w0 =
        path_value update_idx 0 (NodeAddress.leaf_hash leaf1) username leaf1 leaf1
          (hash_leaf_var hash leaf1) path q leaf user (o0, o1, o2, o3) hl1 root1 in
      let w1 =
        path_value update_idx 1 (NodeAddress.leaf_hash leaf2) username leaf1 leaf2
          (hash_leaf_var hash leaf2) path q leaf user (n0, n1, n2, n3) hl2 root2 in
      let same = old_root update_idx r root1.0 d (root1.2) w0 hr eq in
      let index =
        index_of-number hash hash_inner_node hash_inner_node_var to_bits_le depth width s
          username in
      (
        root2.0,
        rw (index, verify_step)
            (rw (verifies path r root1.0 leaf1 username leaf root1.1 same, verify_step)
              (rw (root2.1, verify_step) refl)),
        root2.2,
        w1,
      )
