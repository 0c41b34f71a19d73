-- ===== src/Vkd/Constraints/Path.antt =====
-- The four primitives of a path, and the root that its last wire holds.
use mathlib.Core.List.{map-append}
use hekaton_system.Prelude.{
  length-map, take-prefix, ℕ, ◌*◌, ◌/◌, ◌^◌, ◌≤◌, ◌<◌, ◌≡◌, refl, sym, ap, ◌∙◌, true, Bool, some,
  List, [], ◌∷◌, ◌++◌, map, flatten, take, length, get_elem?, arith, leb,
}
use hekaton_system.Uint32.Value.{of_bits, of_bits-lt}
use hekaton_system.Field.{PrimeField}
use hekaton_system.SparseTree.{Bytes, InnerHash}
use hekaton_system.SparseTree.Circuit.{climb_var}
use hekaton_system.TreeHash.Digest.{bits_le, input_digest}
use hekaton_system.TreeHash.Packing.{IsLeBits, of_bits-prefix}
use hekaton_system.Vkd.Layout.{
  split_factor, NodeAddress, path_root, intermediate_root, path_primitive, FourPaths, four_paths,
  compute_path_at, get_node_addresses, node_addresses_at,
}
use hekaton_system.Vkd.Wire.{WireName, node_wire, index_wire, index}
use hekaton_system.Vkd.Constraints.{
  KeyDirectory, Setup, hash_leaf_var, fpvar_to_boolean_index, index_pieces,
}
use hekaton_system.Vkd.Constraints.Satisfied.{value, AllFit, IsIndex, Sat}
use hekaton_system.Vkd.Constraints.Quarters.{Quarters, climb_var-append}
use hekaton_system.Vkd.Constraints.Index.{length-bits}

-- The bits of the index of a name.
abbrev pub index_bits : (Bytes → Bytes) → ℕ → Bytes → List Bool
index_bits hash depth username = take depth (flatten (map (bits_le 8) (hash username)))

abbrev inner : ℕ → ℕ → ℕ → NodeAddress
inner update_idx path_id i =
    intermediate_root (record { indicator = i; path_id = path_id; update_idx = update_idx })

abbrev root : ℕ → ℕ → NodeAddress
root update_idx path_id = path_root (record { path_id = path_id; update_idx = update_idx })

module _ (path : List InnerHash) (n : ℕ) (q : Quarters path n) where
  -- The primitives of a path, with its pieces.
  abbrev pub pieced : ℕ → ℕ → NodeAddress → Bytes → FourPaths
  pieced update_idx path_id initial_node leaf = record {
    first = path_primitive update_idx path_id leaf 0 (initial_node, inner update_idx path_id 0) q.a;
    second =
        path_primitive update_idx path_id leaf 1
          (inner update_idx path_id 0, inner update_idx path_id 1) q.b;
    third =
        path_primitive update_idx path_id leaf 2
          (inner update_idx path_id 1, inner update_idx path_id 2) q.c;
    fourth =
        path_primitive update_idx path_id leaf 3
          (inner update_idx path_id 2, root update_idx path_id) q.d;
  }

  compute_path_at-piece :
      (update_idx path_id : ℕ) (initial_node : NodeAddress) (leaf : Bytes) (i : ℕ)
      (addresses : NodeAddress × NodeAddress) (piece : List InnerHash)
      → get_elem? (get_node_addresses update_idx path_id initial_node) i ≡ some addresses
      → get_elem? (q.a ∷ q.b ∷ q.c ∷ q.d ∷ []) i ≡ some piece
      → compute_path_at update_idx path_id initial_node leaf path i
        ≡ some (path_primitive update_idx path_id leaf i addresses piece)
  unfolding compute_path_at
  compute_path_at-piece update_idx path_id initial_node leaf i addresses piece h g =
      rw (h, compute_path_at) (rw (q.splits, compute_path_at) (rw (g, compute_path_at) refl))

  pub four_paths-pieced :
      (update_idx path_id : ℕ) (initial_node : NodeAddress) (leaf : Bytes)
      → four_paths update_idx path_id initial_node leaf path
        ≡ some (pieced update_idx path_id initial_node leaf)
  unfolding four_paths get_node_addresses node_addresses_at
  four_paths-pieced update_idx path_id initial_node leaf =
      let at_piece = compute_path_at-piece update_idx path_id initial_node leaf in
      rw (at_piece 0 _ _ refl refl, four_paths)
        (rw (at_piece 1 _ _ refl refl, four_paths)
          (rw (at_piece 2 _ _ refl refl, four_paths)
            (rw (at_piece 3 _ _ refl refl, four_paths) refl)))

module _ {ℓ} {F : Type ℓ} ⦃f : PrimeField F⦄ (to_bits_le : F → List Bool) where
  -- A piece of the index is read back from its field element.
  pub fpvar_to_boolean_index-le_bits_to_fp :
      (n width : ℕ) (piece : List Bool)
      → IsLeBits to_bits_le width
      → n ≤ width
      → 2 ^ n ≤ f.modulus
      → length piece ≡ n
      → fpvar_to_boolean_index to_bits_le n (f.le_bits_to_fp piece) ≡ some piece
  unfolding fpvar_to_boolean_index
  fpvar_to_boolean_index-le_bits_to_fp n width piece le wide large l =
      let x = f.from_uint (of_bits piece) in
      let is : f.le_bits_to_fp piece ≡ x = f.le_bits_to_fp_lem piece in
      let small : of_bits piece < f.modulus =
        omega (arith, of_bits-lt piece, ap (λ (t : ℕ). 2 ^ t) l) in
      let (rest, p) =
        of_bits-prefix piece (to_bits_le x) (omega (arith, le.same_width x))
          (le.spells (of_bits piece) small) in
      let cut : take n (to_bits_le x) ≡ piece = rw p (take-prefix piece rest n l) in
      let fits : leb n (length (to_bits_le x)) ≡ true = ground (arith, le.same_width x) in
      rw is (rw (fits, fpvar_to_boolean_index) (ap some cut))

  fpvar_to_boolean_index-piece :
      (n width : ℕ) (piece bits : List Bool)
      → IsLeBits to_bits_le width
      → n ≤ width
      → 2 ^ n ≤ f.modulus
      → length piece ≡ n
      → fpvar_to_boolean_index to_bits_le n (f.le_bits_to_fp piece) ≡ some bits
      → bits ≡ piece
  fpvar_to_boolean_index-piece n width piece bits le wide large l h =
      let r = fpvar_to_boolean_index-le_bits_to_fp n width piece le wide large l in ground arith

module _ {ℓ} {F : Type ℓ} ⦃f : PrimeField F⦄ (hash : Bytes → Bytes)
    (hash_inner_node_var : F → F → F) (to_bits_le : F → List Bool) (depth n width : ℕ)
    (username : Bytes) (iq : Quarters (index_bits hash depth username) n) where
  -- What is asked of the field and of the depth.
  pub record IsWide : Type ℓ where
    pub le : IsLeBits to_bits_le width
    pub wide : n ≤ width
    pub large : 2 ^ n ≤ f.modulus
    pub four : depth ≡ 4 * n
    pub fits : depth ≤ 8 * length (hash username)

  index_value :
      (i : ℕ) (v : F) (piece : List Bool)
      → IsWide
      → IsIndex hash depth i username v
      → get_elem? (iq.a ∷ iq.b ∷ iq.c ∷ iq.d ∷ []) i ≡ some piece
      → v ≡ f.le_bits_to_fp piece
  unfolding index_pieces
  index_value i v piece w (pieces, b, e, g, is) h =
      let bits = flatten (map (bits_le 8) (hash username)) in
      let room : leb depth (length bits) ≡ true =
        ground (arith, w.fits, length-bits (hash username)) in
      let p : index_pieces hash depth username ≡ some (iq.a ∷ iq.b ∷ iq.c ∷ iq.d ∷ []) =
        rw (room, index_pieces) (iq.splits) in
      let same : pieces ≡ iq.a ∷ iq.b ∷ iq.c ∷ iq.d ∷ [] = ground arith in
      let piece_same : b ≡ piece = ground arith in is ∙ ap f.le_bits_to_fp piece_same

  abbrev climbs : F → List InnerHash → List Bool → F
  climbs v path bits =
      climb_var (hash_leaf_var hash) hash_inner_node_var v (map input_digest path) bits

  -- One piece of a path.
  path_step :
      (c : KeyDirectory) (pm : Setup F) (update_idx path_id i : ℕ) (leaf : Bytes)
      (addresses : NodeAddress × NodeAddress) (part : List InnerHash) (piece : List Bool) (v : F)
      → IsWide
      → AllFit hash depth pm
      → take 32 leaf ≡ username
      → get_elem? (iq.a ∷ iq.b ∷ iq.c ∷ iq.d ∷ []) i ≡ some piece
      → length piece ≡ n
      → Sat hash hash_inner_node_var to_bits_le depth c pm
          (path_primitive update_idx path_id leaf i addresses part)
      → value pm (node_wire addresses.0) ≡ some v
      → value pm (node_wire addresses.1) ≡ some (climbs v part piece)
  unfolding index_wire
  path_step c pm update_idx path_id i leaf addresses part piece v w all user g l
        (v', x, bits, a, b, d, e) h =
      let index_is : value pm (index i username) ≡ some x =
        ap (λ u. value pm (index i u)) (sym user) ∙ b in
      let x_is = index_value i x piece w (all (index i username) x index_is) g in
      let quarter : depth / split_factor ≡ n = omega (arith, w.four) in
      let read : fpvar_to_boolean_index to_bits_le n (f.le_bits_to_fp piece) ≡ some bits =
        ap (λ t. fpvar_to_boolean_index to_bits_le n t) (sym x_is)
        ∙ ap (λ t. fpvar_to_boolean_index to_bits_le t x) (sym quarter)
        ∙ d in
      let bits_is =
        fpvar_to_boolean_index-piece to_bits_le n width piece bits w.le w.wide w.large l read in
      let v_is : v' ≡ v = ground arith in
      e ∙ ap (λ t. some (climbs t part bits)) v_is ∙ ap (λ t. some (climbs v part t)) bits_is

  climbs-append :
      (v : F) (p q : List InnerHash) (i j : List Bool)
      → length i ≡ length p
      → climbs v (p ++ q) (i ++ j) ≡ climbs (climbs v p i) q j
  climbs-append v p q i j l =
      ap (λ t. climb_var (hash_leaf_var hash) hash_inner_node_var v t (i ++ j))
        (map-append input_digest p q)
      ∙ climb_var-append (hash_leaf_var hash) hash_inner_node_var (map input_digest p)
          (map input_digest q) i j v (l ∙ sym (length-map input_digest p))

  -- The root of a whole path from the roots of its pieces.
  climbs-Quarters :
      (v : F) (path : List InnerHash) (q : Quarters path n)
      → climbs v path (index_bits hash depth username)
        ≡ climbs (climbs (climbs (climbs v q.a iq.a) q.b iq.b) q.c iq.c) q.d iq.d
  climbs-Quarters v path q =
      ap (λ t. climbs v t (index_bits hash depth username)) q.parts
      ∙ ap (climbs v (q.a ++ (q.b ++ (q.c ++ q.d)))) iq.parts
      ∙ climbs-append v q.a _ iq.a _ (iq.length_a ∙ sym q.length_a)
      ∙ climbs-append _ q.b _ iq.b _ (iq.length_b ∙ sym q.length_b)
      ∙ climbs-append _ q.c _ iq.c _ (iq.length_c ∙ sym q.length_c)

  abbrev pub FourSat : KeyDirectory → Setup F → FourPaths → Type ℓ
  FourSat c pm four =
      Sat hash hash_inner_node_var to_bits_le depth c pm four.first
      × Sat hash hash_inner_node_var to_bits_le depth c pm four.second
      × Sat hash hash_inner_node_var to_bits_le depth c pm four.third
      × Sat hash hash_inner_node_var to_bits_le depth c pm four.fourth

  -- The last wire of a path holds the root that the first one gives with the whole path.
  pub path-root :
      (c : KeyDirectory) (pm : Setup F) (update_idx path_id : ℕ) (initial_node : NodeAddress)
      (leaf : Bytes) (path : List InnerHash) (q : Quarters path n) (v : F)
      → IsWide
      → AllFit hash depth pm
      → take 32 leaf ≡ username
      → FourSat c pm (pieced path n q update_idx path_id initial_node leaf)
      → value pm (node_wire initial_node) ≡ some v
      → value pm (WireName.path_root path_id update_idx)
        ≡ some (climbs v path (index_bits hash depth username))
  unfolding node_wire
  path-root c pm update_idx path_id initial_node leaf path q v w all user (s0, s1, s2, s3) h =
      let step = path_step c pm update_idx path_id in
      let r0 =
        step 0 leaf (initial_node, inner update_idx path_id 0) q.a iq.a v w all user refl
          iq.length_a s0 h in
      let r1 =
        step 1 leaf (inner update_idx path_id 0, inner update_idx path_id 1) q.b iq.b _ w all user
          refl iq.length_b s1 r0 in
      let r2 =
        step 2 leaf (inner update_idx path_id 1, inner update_idx path_id 2) q.c iq.c _ w all user
          refl iq.length_c s2 r1 in
      let r3 =
        step 3 leaf (inner update_idx path_id 2, root update_idx path_id) q.d iq.d _ w all user refl
          iq.length_d s3 r2 in
      r3 ∙ ap some (sym (climbs-Quarters v path q))
