-- ===== src/SparseTree/Split.antt =====
-- `split` of vkd/util.rs, which cuts a path into the pieces that the subcircuits verify, and the
-- circuits of vkd/sparse_tree_constraints.rs.
use native.Mathlib.Nat.{pow-suc}
use hekaton_system.Prelude.{
  ℕ, zero, suc, ◌+◌, ◌*◌, ◌/◌, ◌≤◌, ◌≡◌, refl, sym, ap, ◌∙◌, true, Option, none, some, List, [],
  ◌∷◌, ◌==◌, take, drop, length, length-take, length-drop, take-append-drop, append_assoc, arith,
  All, All-imp, append-nil, ◌^◌, if◌then◌else◌, flatten, leb,
}

module _ {ℓ} {A : Type ℓ} where
  -- `split_at`, which panics past the end.
  unfoldable pub split_at : List A → ℕ → Option (List A × List A)
  split_at xs n = if leb n (length xs) then some (take n xs, drop n xs) else none

  -- One round: each piece is cut in two at `length`.
  unfoldable pub halve : ℕ → List (List A) → Option (List (List A))
  unfolding split_at
  halve length_half [] = some []
  halve length_half (v ∷ vs) = elim (split_at v length_half) [
    | none ↦ none
    | some (v1, v2) ↦ elim (halve length_half vs) [
      | none ↦ none
      | some rest ↦ some (v1 ∷ v2 ∷ rest)
    ]
  ]

  -- The loop, by the number of times that the factor is to be halved.
  unfoldable pub split_rounds : ℕ → ℕ → List (List A) → Option (List (List A))
  unfolding halve
  split_rounds zero len res = some res
  split_rounds (suc k) len res = elim (halve (len / 2) res) [
    | none ↦ none
    | some res' ↦ split_rounds k (len / 2) res'
  ]

-- The factors that `split` takes, as the number of rounds.
abbrev pub rounds : ℕ → Option ℕ
rounds split_factor =
    if split_factor == 2
    then some 1
    else if split_factor == 4
    then some 2
    else if split_factor == 8
    then some 3
    else if split_factor == 16
    then some 4
    else none

rounds-two_pow : (split_factor k : ℕ) → rounds split_factor ≡ some k → 2 ^ k * 1 ≡ split_factor
rounds-two_pow split_factor k h = ground arith

twice : (k n : ℕ) → 2 ^ k * (2 * n) ≡ 2 ^ suc k * n
twice k n = omega (arith, ap (λ (t : ℕ). t * n) (pow-suc 2 k))

module _ {ℓ} {A : Type ℓ} where
  -- `none` is `MerkleTreeError::InvalidParameter`, or a panic of `split_at`.
  unfoldable pub split : List A → ℕ → Option (List (List A))
  split vector split_factor = elim (rounds split_factor) [
    | none ↦ none
    | some k ↦ split_rounds k (length vector) (vector ∷ [])
  ]

  -- What a round, or all of them, makes of the pieces: nothing is lost, and each is long enough.
  pub record Cuts (count bound : ℕ) (vs out : List (List A)) : Type ℓ where
    pub keeps : flatten out ≡ flatten vs
    pub counts : length out ≡ count * length vs
    pub reach : All (λ v. bound ≤ length v) out

  pub halve-Cuts :
      (n : ℕ) (vs : List (List A))
      → All (λ v. n + n ≤ length v) vs
      → (out : List (List A)) × (halve n vs ≡ some out) × Cuts 2 n vs out
  unfolding halve split_at flatten
  halve-Cuts n [] a = ([], refl, record { keeps = refl; counts = refl; reach = tt })
  halve-Cuts n (v ∷ vs) a =
      let (out, p, c) = halve-Cuts n vs a.1 in
      let fits : leb n (length v) ≡ true = ground (arith, a.0) in
      (
        take n v ∷ drop n v ∷ out,
        rw (fits, p, halve) refl,
        record {
          keeps =
              sym (append_assoc (take n v) (drop n v) (flatten out))
              ∙ rw (take-append-drop n v, c.keeps) refl;
          counts = omega (arith, c.counts);
          reach =
              (omega (arith, a.0, length-take n v), (omega (arith, a.0, length-drop n v), c.reach));
        },
      )

  split_rounds-Cuts :
      (k len : ℕ) (vs : List (List A))
      → All (λ v. len ≤ length v) vs
      → (out : List (List A)) × (split_rounds k len vs ≡ some out) × Cuts (2 ^ k) 0 vs out
  unfolding split_rounds
  split_rounds-Cuts zero len vs a = (
    vs,
    refl,
    record {
      keeps = refl;
      counts = omega arith;
      reach = All-imp (λ v. len ≤ length v) (λ v. 0 ≤ length v) (λ v p. omega arith) vs a;
    },
  )
  split_rounds-Cuts (suc k) len vs a =
      let (mid, p, c) = halve-Cuts (len / 2) vs (
        All-imp (λ v. len ≤ length v) (λ v. len / 2 + len / 2 ≤ length v) (λ v q. omega arith) vs
          a) in
      let (out, p', c') = split_rounds-Cuts k (len / 2) mid c.reach in
      (
        out,
        rw (p, split_rounds) p',
        record {
          keeps = c'.keeps ∙ c.keeps;
          counts = c'.counts ∙ ap (λ (x : ℕ). 2 ^ k * x) c.counts ∙ twice k (length vs);
          reach = c'.reach;
        },
      )

  -- A vector splits by 2, 4, 8 or 16 whatever its length: the pieces are as many as the factor and,
  -- put together, are the vector.
  pub split-flatten :
      (vector : List A) (split_factor k : ℕ)
      → rounds split_factor ≡ some k
      → (out : List (List A)) × (split vector split_factor ≡ some out)
        × (flatten out ≡ vector)
        × (length out ≡ split_factor)
  unfolding split flatten
  split-flatten vector split_factor k h =
      let (out, p, c) = split_rounds-Cuts k (length vector) (vector ∷ []) (omega arith, tt) in
      (
        out,
        rw (h, split) p,
        c.keeps ∙ append-nil vector,
        c.counts ∙ rounds-two_pow split_factor k h,
      )
