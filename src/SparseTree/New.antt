-- ===== src/SparseTree/New.antt =====
-- The empty tree.
use hekaton_system.Prelude.{
  ℕ, zero, suc, ◌+◌, ◌<◌, ◌≡◌, refl, sym, ap, ◌∙◌, none, some, List, [], ◌∷◌, ◌++◌, arith, dec_lt,
  Option-cases, inl, inr, ◌*◌, length, length-append, get_elem?, reverse, reverse-cons, replicate,
}
use hekaton_system.Prelude.Assoc.{lookup}
use hekaton_system.SparseTree.{Bytes, InnerHash, initial_hashes, new, lookup_internal_node}
use hekaton_system.SparseTree.Path.{node}
use hekaton_system.SparseTree.Merkle.{IsMerkle}

module _ {ℓ} {A : Type ℓ} where
  get_elem?-append_left :
      (xs ys : List A) (i : ℕ) → i < length xs → get_elem? (xs ++ ys) i ≡ get_elem? xs i
  get_elem?-append_left [] ys i b = absurd (omega arith)
  get_elem?-append_left (x ∷ xs) ys zero b = refl
  get_elem?-append_left (x ∷ xs) ys (suc i) b = get_elem?-append_left xs ys i (omega arith)

  get_elem?-append_last : (xs : List A) (y : A) → get_elem? (xs ++ (y ∷ [])) (length xs) ≡ some y
  get_elem?-append_last [] y = refl
  get_elem?-append_last (x ∷ xs) y = get_elem?-append_last xs y

top_elem :
    (l : List InnerHash)
    → 0 < length l
    → get_elem? l 0 ≡ some (elim (get_elem? l 0) [ none ↦ [] | some h ↦ h ])
top_elem [] b = absurd (omega arith)
top_elem (x ∷ l) b = refl

module _ (hash_leaf : Bytes → InnerHash) (hash_inner_node : InnerHash → InnerHash → InnerHash) where
  -- The initial hashes, from the root downwards.
  abbrev downwards : ℕ → InnerHash → List InnerHash
  downwards n h = reverse (initial_hashes hash_leaf hash_inner_node n h)

  downwards-suc :
      (n : ℕ) (h : InnerHash) → downwards (suc n) h ≡ downwards n (hash_inner_node h h) ++ (h ∷ [])
  unfolding initial_hashes
  downwards-suc n h =
      reverse-cons h (initial_hashes hash_leaf hash_inner_node n (hash_inner_node h h))

  length-downwards : (n : ℕ) (h : InnerHash) → length (downwards n h) ≡ suc n
  unfolding initial_hashes
  length-downwards zero h = refl
  length-downwards (suc n) h = omega (
    arith,
    ap length (downwards-suc n h),
    length-append (downwards n (hash_inner_node h h)) (h ∷ []),
    length-downwards n (hash_inner_node h h),
  )

  downwards-last : (n : ℕ) (h : InnerHash) → get_elem? (downwards n h) n ≡ some h
  unfolding initial_hashes
  downwards-last zero h = refl
  downwards-last (suc n) h = rw (downwards-suc n h) (
      ap (get_elem? (downwards n (hash_inner_node h h) ++ (h ∷ [])))
        (sym (length-downwards n (hash_inner_node h h)))
      ∙ get_elem?-append_last (downwards n (hash_inner_node h h)) h)

  -- Each initial hash is that of two copies of the next.
  downwards-hash :
      (n : ℕ) (h : InnerHash) (e : ℕ) (b : InnerHash)
      → e < n
      → get_elem? (downwards n h) (suc e) ≡ some b
      → get_elem? (downwards n h) e ≡ some (hash_inner_node b b)
  downwards-hash zero h e b lt p = absurd (omega arith)
  downwards-hash (suc n) h e b lt p =
      let up = downwards n (hash_inner_node h h) in
      let len = length-downwards n (hash_inner_node h h) in
      let here : get_elem? (downwards (suc n) h) e ≡ get_elem? up e =
        rw (downwards-suc n h) (get_elem?-append_left up (h ∷ []) e (omega (arith, len))) in
      elim (dec_lt e n) [
        | yes q ↦
            let next : get_elem? (downwards (suc n) h) (suc e) ≡ get_elem? up (suc e) =
              rw (downwards-suc n h)
                (get_elem?-append_left up (h ∷ []) (suc e) (omega (arith, len))) in
            here ∙ downwards-hash n (hash_inner_node h h) e b q (sym next ∙ p)
        | no q ↦
            let level : e ≡ n = omega arith in
            let value : some b ≡ some h =
              sym p
              ∙ ap (λ (k : ℕ). get_elem? (downwards (suc n) h) (suc k)) level
              ∙ downwards-last (suc n) h in
            let same : b ≡ h = ground arith in
            here ∙ ap (get_elem? up) level ∙ downwards-last n (hash_inner_node h h) ∙ rw same refl
      ]

  node-new :
      (depth i d : ℕ)
      → node (new hash_leaf hash_inner_node depth) i d
        ≡ get_elem? (downwards depth (hash_leaf (replicate 32 0))) d
  unfolding new lookup_internal_node lookup
  node-new depth i d =
      elim (Option-cases (get_elem? (downwards depth (hash_leaf (replicate 32 0))) d)) [
        | inl p ↦ rw (p, lookup_internal_node, new) refl
        | inr (h, p) ↦ rw (p, lookup_internal_node, new) refl
      ]

  -- The empty tree's nodes are the hashes of their children.
  pub new-IsMerkle :
      (depth : ℕ) → IsMerkle hash_leaf hash_inner_node depth (new hash_leaf hash_inner_node depth)
  unfolding new
  new-IsMerkle depth =
      let h = hash_leaf (replicate 32 0) in
      record {
        hashes = length-downwards depth h;
        inner = λ j e b l r p q.
            let same : some l ≡ some r =
              sym p
              ∙ node-new depth (j * 2) (suc e)
              ∙ sym (node-new depth (j * 2 + 1) (suc e))
              ∙ q in
            let eq : l ≡ r = ground arith in
            node-new depth j e
            ∙ downwards-hash depth h e r b (sym (node-new depth (j * 2 + 1) (suc e)) ∙ q)
            ∙ rw eq refl;
        top =
            node-new depth 0 0
            ∙ top_elem (downwards depth h) (rw (length-downwards depth h) (omega arith));
      }
