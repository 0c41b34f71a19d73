-- ===== src/Vkd/Constraints/Quarters.antt =====
-- A path and an index in four pieces: `split` by `SPLIT_FACTOR`, and a root computed piece by piece.
use hekaton_system.Prelude.{
  ℕ, ◌*◌, ◌/◌, ◌≤◌, ◌≡◌, refl, sym, ap₂, ◌∙◌, true, Bool, some, List, [], ◌∷◌, ◌++◌, take, drop,
  length, length-take, length-drop, take-append-drop, append_assoc, arith, leb,
}
use hekaton_system.SparseTree.{Bytes}
use hekaton_system.SparseTree.Split.{split_at, halve, split_rounds, split}
use hekaton_system.SparseTree.Circuit.{climb_var}

module _ {ℓ} {A : Type ℓ} where
  pub record Quarters (v : List A) (n : ℕ) : Type ℓ where
    pub a : List A
    pub b : List A
    pub c : List A
    pub d : List A
    pub parts : v ≡ a ++ (b ++ (c ++ d))
    pub length_a : length a ≡ n
    pub length_b : length b ≡ n
    pub length_c : length c ≡ n
    pub length_d : length d ≡ n
    pub splits : split v 4 ≡ some (a ∷ b ∷ c ∷ d ∷ [])

  split_at-some : (v : List A) (n : ℕ) → n ≤ length v → split_at v n ≡ some (take n v, drop n v)
  unfolding split_at
  split_at-some v n h = let fits : leb n (length v) ≡ true = ground arith in rw fits refl

  halve_one :
      (v : List A) (n : ℕ) → n ≤ length v → halve n (v ∷ []) ≡ some (take n v ∷ drop n v ∷ [])
  unfolding halve
  halve_one v n h = rw (split_at-some v n h, halve) refl

  halve_two :
      (v w : List A) (n : ℕ)
      → n ≤ length v
      → n ≤ length w
      → halve n (v ∷ w ∷ []) ≡ some (take n v ∷ drop n v ∷ take n w ∷ drop n w ∷ [])
  unfolding halve
  halve_two v w n h k = rw (split_at-some v n h, halve) (rw (halve_one w n k, halve) refl)

  -- A vector of four times `n` elements has four pieces of `n`.
  pub quarters : (v : List A) (n : ℕ) → length v ≡ 4 * n → Quarters v n
  unfolding split split_rounds
  quarters v n h =
      let x = take (2 * n) v in
      let y = drop (2 * n) v in
      let lx : length x ≡ 2 * n = omega (arith, length-take (2 * n) v) in
      let ly : length y ≡ 2 * n = omega (arith, length-drop (2 * n) v) in
      let half : length v / 2 ≡ 2 * n = omega arith in
      let quarter : length v / 2 / 2 ≡ n = omega arith in
      let first = halve_one v (2 * n) (omega arith) in
      let second = halve_two x y (length v / 2 / 2) (omega arith) (omega arith) in
      record {
        a = take n x;
        b = drop n x;
        c = take n y;
        d = drop n y;
        parts =
            sym (take-append-drop (2 * n) v)
            ∙ ap₂ ◌++◌ (sym (take-append-drop n x)) (sym (take-append-drop n y))
            ∙ append_assoc (take n x) (drop n x) (take n y ++ drop n y);
        length_a = omega (arith, length-take n x);
        length_b = omega (arith, length-drop n x);
        length_c = omega (arith, length-take n y);
        length_d = omega (arith, length-drop n y);
        splits = rw (half, first, split_rounds) (rw (second, split_rounds) (rw quarter refl));
      }

module _ {ℓ} {F : Type ℓ} (hash_leaf_var : Bytes → F) (hash_inner_node_var : F → F → F) where
  -- The root of a path is the root of its end from the root of its beginning.
  pub climb_var-append :
      (p q : List F) (i j : List Bool) (h : F)
      → length i ≡ length p
      → climb_var hash_leaf_var hash_inner_node_var h (p ++ q) (i ++ j)
        ≡ climb_var hash_leaf_var hash_inner_node_var
            (climb_var hash_leaf_var hash_inner_node_var h p i)
            q
            j
  unfolding climb_var
  climb_var-append [] q [] j h l = refl
  climb_var-append [] q (b ∷ i) j h l = absurd (omega arith)
  climb_var-append (s ∷ p) q [] j h l = absurd (omega arith)
  climb_var-append (s ∷ p) q (b ∷ i) j h l = climb_var-append p q i j _ (omega arith)
