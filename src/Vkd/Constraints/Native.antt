-- ===== src/Vkd/Constraints/Native.antt =====
-- The native side of an update, `verify` of vkd/vkd.rs, and the field elements of its hashes.
use native.Mathlib.Nat.{pow-suc}
use hekaton_system.Prelude.{
  ℕ, zero, suc, ◌*◌, ◌/◌, ◌^◌, ◌≤◌, ◌<◌, ◌≡◌, refl, sym, ap, ap₂, ◌∙◌, true, false, Bool, not, some,
  List, [], ◌∷◌, map, flatten, take, length, length-take, arith, leb, ◌==◌,
}
use hekaton_system.Field.{PrimeField}
use hekaton_system.SparseTree.{
  Bytes, InnerHash, inner_hash_size, NodeType, leaf, internal_node, at, climb, compute_root,
  node_hash_of, get_index, to_bit_vector,
}
use hekaton_system.SparseTree.Circuit.{
  climb_var, circuit_root-compute_root, compute_root_var_from_leaf,
  compute_root_var_from_internal_node,
}
use hekaton_system.TreeHash.Digest.{bits_le, of_le_bytes, input_digest}
use hekaton_system.TreeHash.Packing.{IsBytes, IsLeBits, take-IsBytes, input_digest-digest_to_fpvar}
use hekaton_system.Vkd.{index_of}
use hekaton_system.Vkd.Constraints.{hash_leaf_var, leaf_digest}
use hekaton_system.Vkd.Constraints.Path.{index_bits}
use hekaton_system.Vkd.Constraints.Index.{take-map-not}

-- An inner hash is 27 bytes.
abbrev pub IsDigest : InnerHash → Type 0
IsDigest d = (length d ≡ inner_hash_size) × IsBytes d

of_le_bytes-lt : (d : Bytes) → IsBytes d → of_le_bytes d < 256 ^ length d
unfolding of_le_bytes
of_le_bytes-lt [] h = omega arith
of_le_bytes-lt (b ∷ d) h = omega (arith, of_le_bytes-lt d h.1, pow-suc 256 (length d))

of_le_bytes-injective :
    (d e : Bytes)
    → length d ≡ length e
    → IsBytes d
    → IsBytes e
    → of_le_bytes d ≡ of_le_bytes e
    → d ≡ e
unfolding of_le_bytes
of_le_bytes-injective [] [] l h k q = refl
of_le_bytes-injective [] (c ∷ e) l h k q = absurd (omega arith)
of_le_bytes-injective (b ∷ d) [] l h k q = absurd (omega arith)
of_le_bytes-injective (b ∷ d) (c ∷ e) l h k q =
    ap₂ ◌∷◌ (omega (arith, h.0, k.0))
      (of_le_bytes-injective d e (omega arith) h.1 k.1 (omega (arith, h.0, k.0)))

module _ {ℓ} {F : Type ℓ} ⦃f : PrimeField F⦄ where
  -- A digest is determined by its field element.
  pub input_digest-injective :
      (d e : InnerHash)
      → IsDigest d
      → IsDigest e
      → 2 ^ 216 ≤ f.modulus
      → ◌≡◌ {A = F} (input_digest d) (input_digest e)
      → d ≡ e
  unfolding input_digest
  input_digest-injective d e (l, h) (m, k) large q =
      let dl = of_le_bytes-lt d h in
      let el = of_le_bytes-lt e k in
      let size : 256 ^ length d ≡ 2 ^ 216 = ap (λ (t : ℕ). 256 ^ t) l in
      let size' : 256 ^ length e ≡ 2 ^ 216 = ap (λ (t : ℕ). 256 ^ t) m in
      of_le_bytes-injective d e (l ∙ sym m) h k
        (f.from_uint-injective (of_le_bytes d) (of_le_bytes e) (omega arith) (omega arith) q)

module _ {ℓ} {F : Type ℓ} ⦃f : PrimeField F⦄ (hash : Bytes → Bytes)
    (hash_inner_node : InnerHash → InnerHash → InnerHash) (hash_inner_node_var : F → F → F)
    (to_bits_le : F → List Bool) (depth width : ℕ) where
  -- What is relied on: the hash has 32 bytes, the hash of two nodes is a digest and the value assigned
  -- to its variable is its field element (the honest assignment, Vkd/Constraints/Honest), the digits of a field element are those of its number, and the field
  -- has room for a digest. The depth is a number of bytes that the hash has, and has four parts.
  pub record Suits : Type ℓ where
    pub hashes : (v : Bytes) → (length (hash v) ≡ 32) × IsBytes (hash v)
    pub digests : (l r : InnerHash) → IsDigest (hash_inner_node l r)
    pub gadget :
        (l r : InnerHash)
        → input_digest (hash_inner_node l r) ≡ hash_inner_node_var (input_digest l) (input_digest r)
    pub le : IsLeBits to_bits_le width
    pub wide : 216 ≤ width
    pub large : 2 ^ 216 ≤ f.modulus
    pub bytes : depth ≡ 8 * (depth / 8)
    pub fits : depth ≤ 256

  module _ (s : Suits) where
    pub leaf_digest-IsDigest : (v : Bytes) → IsDigest (leaf_digest hash v)
    unfolding leaf_digest
    leaf_digest-IsDigest v =
        let (l, h) = s.hashes v in
        (
          omega (arith, l, length-take inner_hash_size (hash v)),
          take-IsBytes inner_hash_size (hash v) h,
        )

    pub input_digest-leaf_digest :
        (v : Bytes) → ◌≡◌ {A = F} (input_digest (leaf_digest hash v)) (hash_leaf_var hash v)
    unfolding leaf_digest hash_leaf_var
    input_digest-leaf_digest v =
        let (l, h) = leaf_digest-IsDigest v in input_digest-digest_to_fpvar (leaf_digest hash v) l h

    climb-some :
        (h : InnerHash) (path : List InnerHash) (bits : List Bool)
        → length path ≤ length bits
        → IsDigest h
        → (r : InnerHash) × (climb (leaf_digest hash) hash_inner_node h path bits ≡ some r)
          × IsDigest r
    unfolding climb
    climb-some h [] bits l d = (h, refl, d)
    climb-some h (x ∷ path) [] l d = absurd (omega arith)
    climb-some h (x ∷ path) (true ∷ bits) l d =
        climb-some (hash_inner_node h x) path bits (omega arith) (s.digests h x)
    climb-some h (x ∷ path) (false ∷ bits) l d =
        climb-some (hash_inner_node x h) path bits (omega arith) (s.digests x h)

    abbrev pub number : Bytes → ℕ
    number username = of_le_bytes (take (depth / 8) (hash username))

    pub index_of-number :
        (username : Bytes)
        → index_of hash of_le_bytes (leaf_digest hash) hash_inner_node depth username
          ≡ some (at (number username) depth)
    unfolding get_index
    index_of-number username =
        let l = (s.hashes username).0 in
        let is32 : (length (hash username) == 32) ≡ true = ground arith in
        let room : leb (depth / 8) 32 ≡ true = ground (arith, s.fits) in rw (is32, room) refl

    pub index_bits-not :
        (username : Bytes)
        → index_bits hash depth username ≡ map not (to_bit_vector (number username) depth)
    index_bits-not username =
        let (l, h) = s.hashes username in
        let m = take-map-not (depth / 8) (hash username) (omega (arith, l, s.fits)) h in
        ap (λ d. take d (flatten (map (bits_le 8) (hash username)))) s.bytes
        ∙ m
        ∙ ap (λ d. map not (to_bit_vector (number username) d)) (sym s.bytes)

    pub length-to_bit_vector : (n d : ℕ) → length (to_bit_vector n d) ≡ d
    unfolding to_bit_vector
    length-to_bit_vector n zero = refl
    length-to_bit_vector n (suc d) = ap suc (length-to_bit_vector (n / 2) d)

    -- The native root of a path of full length, and its field element as the circuit computes it.
    abbrev pub Root : List InnerHash → Bytes → Bytes → NodeType → F → Type ℓ
    Root path username value type v =
        (r : InnerHash) × (compute_root (leaf_digest hash) hash_inner_node path value
            (to_bit_vector (number username) depth) type
          ≡ some r)
        × IsDigest r
        × (input_digest r
            ≡ climb_var (hash_leaf_var hash) hash_inner_node_var v (map input_digest path)
                (index_bits hash depth username))

    pub root_from-leaf :
        (path : List InnerHash) (username value : Bytes)
        → length path ≡ depth
        → Root path username value leaf (hash_leaf_var hash value)
    unfolding compute_root node_hash_of compute_root_var_from_leaf
    root_from-leaf path username value l =
        let bits = to_bit_vector (number username) depth in
        let (r, e, d) =
          climb-some (leaf_digest hash value) path bits
            (omega (arith, length-to_bit_vector (number username) depth))
            (leaf_digest-IsDigest value) in
        let same =
          circuit_root-compute_root (hash_leaf_var hash) hash_inner_node_var (leaf_digest hash)
            hash_inner_node input_digest s.gadget input_digest-leaf_digest leaf path value r bits
            e in
        (
          r,
          e,
          d,
          sym same
              ∙ ap
                  (climb_var (hash_leaf_var hash) hash_inner_node_var (hash_leaf_var hash value)
                    (map input_digest path))
                  (sym (index_bits-not username)),
        )

    pub root_from-node :
        (path : List InnerHash) (username value : Bytes)
        → length path ≡ depth
        → IsDigest value
        → Root path username value internal_node (input_digest value)
    unfolding compute_root node_hash_of compute_root_var_from_internal_node
    root_from-node path username value l dv =
        let bits = to_bit_vector (number username) depth in
        let (r, e, d) =
          climb-some value path bits (omega (arith, length-to_bit_vector (number username) depth))
            dv in
        let is27 : (length value == inner_hash_size) ≡ true = ground (arith, dv.0) in
        let e' : compute_root (leaf_digest hash) hash_inner_node path value bits internal_node
            ≡ some r =
          rw (is27, compute_root) e in
        let same =
          circuit_root-compute_root (hash_leaf_var hash) hash_inner_node_var (leaf_digest hash)
            hash_inner_node input_digest s.gadget input_digest-leaf_digest internal_node path value
            r bits e' in
        (
          r,
          e',
          d,
          sym same
              ∙ ap
                  (climb_var (hash_leaf_var hash) hash_inner_node_var (input_digest value)
                    (map input_digest path))
                  (sym (index_bits-not username)),
        )
