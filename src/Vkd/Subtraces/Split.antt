-- ===== src/Vkd/Subtraces/Split.antt =====
-- `hash_leaf_to_split_index` of vkd/util.rs and the circuit's pieces of the index.
use mathlib.Core.List.{map-append}
use hekaton_system.Prelude.{
  length-map, ℕ, ◌*◌, ◌/◌, ◌≡◌, refl, sym, ap, ap₂, ◌∙◌, Bool, true, false, not, some, List, [],
  ◌∷◌, ◌++◌, map, length, take, drop, length-take, take-prefix, drop-prefix, append_assoc, arith,
  flatten, leb, All, subst,
}
use hekaton_system.Field.{PrimeField}
use hekaton_system.SparseTree.{Bytes, InnerHash, to_bit_vector}
use hekaton_system.TreeHash.Digest.{bits_le, of_le_bytes}
use hekaton_system.TreeHash.Packing.{IsBytes, take-IsBytes, take-length, of_bits-bytes}
use hekaton_system.Vkd.Layout.{split_factor}
use hekaton_system.Vkd.Constraints.{index_pieces}
use hekaton_system.Vkd.Constraints.Index.{length-bits, take-bits}
use hekaton_system.Vkd.Constraints.Path.{index_bits}
use hekaton_system.Vkd.Constraints.Quarters.{Quarters, quarters}
use hekaton_system.Vkd.Constraints.Native.{
  Suits, number, index_of-number, index_bits-not, length-to_bit_vector,
}
use hekaton_system.Vkd.Subtraces.{piece_fpvar, piece_fpvars, hash_leaf_to_split_index}

module _ {ℓ} {A : Type ℓ} where
  append-injective :
      (a a' b b' : List A) (n : ℕ)
      → length a ≡ n
      → length a' ≡ n
      → a ++ b ≡ a' ++ b'
      → (a ≡ a') × (b ≡ b')
  append-injective a a' b b' n l l' e = (
    sym (take-prefix a b n l) ∙ ap (take n) e ∙ take-prefix a' b' n l',
    sym (drop-prefix a b n l) ∙ ap (drop n) e ∙ drop-prefix a' b' n l',
  )

  -- The four pieces of a vector are determined by their length.
  same_pieces :
      (v : List A) (n : ℕ) (q : Quarters v n) (a b c d : List A)
      → v ≡ a ++ (b ++ (c ++ d))
      → length a ≡ n
      → length b ≡ n
      → length c ≡ n
      → (q.a ≡ a) × (q.b ≡ b) × (q.c ≡ c) × (q.d ≡ d)
  same_pieces v n q a b c d e la lb lc =
      let (pa, e1) = append-injective q.a a _ _ n q.length_a la (sym q.parts ∙ e) in
      let (pb, e2) = append-injective q.b b _ _ n q.length_b lb e1 in
      let (pc, pd) = append-injective q.c c _ _ n q.length_c lc e2 in (pa, pb, pc, pd)

four {ℓ} :
    {A : Type ℓ} {a b c d a' b' c' d' : A}
    → a ≡ a'
    → b ≡ b'
    → c ≡ c'
    → d ≡ d'
    → ◌≡◌ {A = List A} (a ∷ b ∷ c ∷ d ∷ []) (a' ∷ b' ∷ c' ∷ d' ∷ [])
four p q r t = ap₂ ◌∷◌ p (ap₂ ◌∷◌ q (ap₂ ◌∷◌ r (ap₂ ◌∷◌ t refl)))

abbrev bits_of : Bytes → List Bool
bits_of d = flatten (map (bits_le 8) d)

bits_of-append : (xs ys : Bytes) → bits_of (xs ++ ys) ≡ bits_of xs ++ bits_of ys
unfolding flatten
bits_of-append [] ys = refl
bits_of-append (x ∷ xs) ys =
    ap (◌++◌ (bits_le 8 x)) (bits_of-append xs ys) ∙ sym (append_assoc (bits_le 8 x) _ _)

IsBytes-split : (xs ys : Bytes) → IsBytes (xs ++ ys) → IsBytes xs × IsBytes ys
IsBytes-split [] ys h = (tt, h)
IsBytes-split (x ∷ xs) ys (p, h) = let (l, r) = IsBytes-split xs ys h in ((p, l), r)

pub map-not-not : (bs : List Bool) → map not (map not bs) ≡ bs
map-not-not [] = refl
map-not-not (true ∷ bs) = ap (◌∷◌ true) (map-not-not bs)
map-not-not (false ∷ bs) = ap (◌∷◌ false) (map-not-not bs)

module _ {ℓ} {F : Type ℓ} ⦃f : PrimeField F⦄ where
  piece_fpvar-bits :
      (depth : ℕ) (d : Bytes)
      → IsBytes d
      → length d ≡ depth / split_factor / 8
      → piece_fpvar depth d ≡ some (f.le_bits_to_fp (bits_of d))
  unfolding piece_fpvar
  piece_fpvar-bits depth d h l =
      let fits : leb (depth / split_factor / 8) (length d) ≡ true = ground arith in
      rw (fits, piece_fpvar)
        (ap some (
          ap (λ t. f.from_uint (of_le_bytes t)) (take-length d (depth / split_factor / 8) l)
          ∙ ap f.from_uint (sym (of_bits-bytes d h))
          ∙ sym (f.le_bits_to_fp_lem (bits_of d))))

  piece_fpvars-bits :
      (depth : ℕ) (a b c d : Bytes)
      → All IsBytes (a ∷ b ∷ c ∷ d ∷ [])
      → All (λ x. length x ≡ depth / split_factor / 8) (a ∷ b ∷ c ∷ d ∷ [])
      → piece_fpvars depth (a ∷ b ∷ c ∷ d ∷ []) 0 4
        ≡ some (map (λ x. f.le_bits_to_fp (bits_of x)) (a ∷ b ∷ c ∷ d ∷ []))
  unfolding piece_fpvars
  piece_fpvars-bits depth a b c d (ha, (hb, (hc, (hd, t)))) (la, (lb, (lc, (ld, t')))) =
      rw (piece_fpvar-bits depth a ha la, piece_fpvars)
        (rw (piece_fpvar-bits depth b hb lb, piece_fpvars)
          (rw (piece_fpvar-bits depth c hc lc, piece_fpvars)
            (rw (piece_fpvar-bits depth d hd ld, piece_fpvars) refl)))

module _ {ℓ} {F : Type ℓ} ⦃f : PrimeField F⦄ (hash : Bytes → Bytes)
    (hash_inner_node : InnerHash → InnerHash → InnerHash) (hash_inner_node_var : F → F → F)
    (to_bits_le : F → List Bool) (depth width k : ℕ)
    (s : Suits hash hash_inner_node hash_inner_node_var to_bits_le depth width)
    (chunks : depth ≡ 32 * k) (username : Bytes) where
  abbrev bits : List Bool
  bits = index_bits hash depth username

  abbrev native_bits : List Bool
  native_bits =
      to_bit_vector
        (number hash hash_inner_node hash_inner_node_var to_bits_le depth width s username) depth

  length-index_bits : length bits ≡ 4 * (8 * k)
  length-index_bits = omega (
    arith,
    length-take depth (flatten (map (bits_le 8) (hash username))),
    length-bits (hash username),
    (s.hashes username).0,
    s.fits,
  )

  abbrev q : Quarters bits (8 * k)
  q = quarters bits (8 * k) length-index_bits

  abbrev t : Quarters native_bits (8 * k)
  t = quarters native_bits (8 * k) (
      omega (
        arith,
        length-to_bit_vector hash hash_inner_node hash_inner_node_var to_bits_le depth width s
            (number hash hash_inner_node hash_inner_node_var to_bits_le depth width s username)
            depth,
      ))

  abbrev b : Quarters (take (depth / 8) (hash username)) k
  b =
      quarters (take (depth / 8) (hash username)) k
        (omega (arith, length-take (depth / 8) (hash username), (s.hashes username).0, s.fits))

  native_pieces :
      (q.a ≡ map not t.a) × (q.b ≡ map not t.b) × (q.c ≡ map not t.c) × (q.d ≡ map not t.d)
  native_pieces =
      same_pieces bits (8 * k) q (map not t.a) (map not t.b) (map not t.c) (map not t.d)
        (index_bits-not hash hash_inner_node hash_inner_node_var to_bits_le depth width s username
          ∙ ap (map not) t.parts
          ∙ map-append not t.a _
          ∙ ap (◌++◌ (map not t.a))
              (map-append not t.b _ ∙ ap (◌++◌ (map not t.b)) (map-append not t.c t.d)))
        (length-map not t.a ∙ t.length_a) (length-map not t.b ∙ t.length_b)
        (length-map not t.c ∙ t.length_c)

  byte_pieces :
      (q.a ≡ bits_of b.a) × (q.b ≡ bits_of b.b) × (q.c ≡ bits_of b.c) × (q.d ≡ bits_of b.d)
  byte_pieces =
      same_pieces bits (8 * k) q (bits_of b.a) (bits_of b.b) (bits_of b.c) (bits_of b.d)
        (take-bits (depth / 8) depth (hash username) s.bytes
          ∙ ap bits_of b.parts
          ∙ bits_of-append b.a _
          ∙ ap (◌++◌ (bits_of b.a))
              (bits_of-append b.b _ ∙ ap (◌++◌ (bits_of b.b)) (bits_of-append b.c b.d)))
        (omega (arith, length-bits b.a, b.length_a)) (omega (arith, length-bits b.b, b.length_b))
        (omega (arith, length-bits b.c, b.length_c))

  pieces-IsBytes : IsBytes b.a × IsBytes b.b × IsBytes b.c × IsBytes b.d
  pieces-IsBytes =
      let all : IsBytes (b.a ++ (b.b ++ (b.c ++ b.d))) =
        subst IsBytes b.parts (take-IsBytes (depth / 8) (hash username) (s.hashes username).1) in
      let (pa, r1) = IsBytes-split b.a _ all in
      let (pb, r2) = IsBytes-split b.b _ r1 in
      let (pc, pd) = IsBytes-split b.c b.d r2 in (pa, pb, pc, pd)

  -- The native pieces of a user's index are those of the circuit: the bits negated, the field
  -- elements the same.
  pub hash_leaf_to_split_index-index_pieces :
      (pieces : List (List Bool)) × (hash_leaf_to_split_index depth (hash username) split_factor
        ≡ some (map f.le_bits_to_fp pieces, map (map not) pieces))
      × (index_pieces hash depth username ≡ some pieces)
      × All (λ p. length p ≡ 8 * k) pieces
  unfolding hash_leaf_to_split_index index_pieces
  hash_leaf_to_split_index-index_pieces =
      let (ta, tb, tc, td) = native_pieces in
      let (ba, bb, bc, bd) = byte_pieces in
      let (ia, ib, ic, id) = pieces-IsBytes in
      let l : (m : ℕ) → m ≡ k → m ≡ depth / split_factor / 8 = λ m e. omega arith in
      let index =
        index_of-number hash hash_inner_node hash_inner_node_var to_bits_le depth width s
          username in
      let room : leb (depth / 8) (length (hash username)) ≡ true =
        ground (arith, (s.hashes username).0, s.fits) in
      let room' : leb depth (length (flatten (map (bits_le 8) (hash username)))) ≡ true =
        ground (arith, length-bits (hash username), (s.hashes username).0, s.fits) in
      let fps =
        piece_fpvars-bits {F = F} depth b.a b.b b.c b.d (ia, (ib, (ic, (id, tt))))
          (l _ b.length_a, (l _ b.length_b, (l _ b.length_c, (l _ b.length_d, tt)))) in
      let native : (x y : List Bool) → x ≡ map not y → y ≡ map not x =
        λ x y e. sym (map-not-not y) ∙ ap (map not) (sym e) in
      (
        q.a ∷ q.b ∷ q.c ∷ q.d ∷ [],
        rw (index, hash_leaf_to_split_index)
            (rw (t.splits, hash_leaf_to_split_index)
              (rw (room, hash_leaf_to_split_index)
                (rw (b.splits, hash_leaf_to_split_index)
                  (rw (fps, hash_leaf_to_split_index)
                    (ap₂ (λ x y. some (x, y))
                      (four (ap f.le_bits_to_fp (sym ba)) (ap f.le_bits_to_fp (sym bb))
                        (ap f.le_bits_to_fp (sym bc)) (ap f.le_bits_to_fp (sym bd)))
                      (four (native q.a t.a ta) (native q.b t.b tb) (native q.c t.c tc)
                        (native q.d t.d td))))))),
        rw (room', index_pieces) q.splits,
        (q.length_a, (q.length_b, (q.length_c, (q.length_d, tt)))),
      )
