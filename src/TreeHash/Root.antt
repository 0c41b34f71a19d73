-- ===== src/TreeHash/Root.antt =====
-- The root that `calculate_root` computes level by level.
use native.Mathlib.Nat.{one-le-pow, pow-suc, pow-succ'}
use hekaton_system.Prelude.{
  ℕ, zero, suc, ◌+◌, ◌*◌, ◌^◌, ◌≤◌, ◌<◌, ◌≡◌, refl, sym, ap, ◌∙◌, some, Option, List, [], ◌∷◌, ◌++◌,
  arith, length, length-take, get_or, true, leb, ◌>>=◌,
}
use hekaton_system.SparseTree.{Bytes, inner_hash_size}
use hekaton_system.TreeHash.Circuit.{
  MerkleTreeCircuit, iterate_sha256, iterated_sha256_inner, hash_leaves, next_level, climb_levels,
  calculate_root,
}
use hekaton_system.TreeHash.Packing.{IsBytes, take-IsBytes}
use hekaton_system.TreeHash.Progress.{digest_of, node_digest}

plus_zero : (n : ℕ) → n + 0 ≡ n
plus_zero n = omega arith

zero_plus : (n : ℕ) → 0 + n ≡ n
zero_plus n = omega arith

plus_one : (m n : ℕ) → m + 1 + n ≡ m + suc n
plus_one m n = omega arith

suc_inside : (m n : ℕ) → suc m + n ≡ m + suc n
suc_inside m n = omega arith

-- What is used of SHA-256: every digest is 32 bytes.
pub record IsSha256 (sha256 : Bytes → Bytes) : Type 0 where
  pub long : (x : Bytes) → length (sha256 x) ≡ 32
  pub bytes : (x : Bytes) → IsBytes (sha256 x)

module _ (sha256 : Bytes → Bytes) (sha : IsSha256 sha256) where
  pub iterate_sha256-long : (n : ℕ) (x : Bytes) → 0 < n → length (iterate_sha256 sha256 n x) ≡ 32
  unfolding iterate_sha256
  iterate_sha256-long zero x h = absurd (omega arith)
  iterate_sha256-long (suc zero) x h = sha.long x
  iterate_sha256-long (suc (suc n)) x h = iterate_sha256-long (suc n) (sha256 x) (omega arith)

  pub iterate_sha256-IsBytes : (n : ℕ) (x : Bytes) → 0 < n → IsBytes (iterate_sha256 sha256 n x)
  unfolding iterate_sha256
  iterate_sha256-IsBytes zero x h = absurd (omega arith)
  iterate_sha256-IsBytes (suc zero) x h = sha.bytes x
  iterate_sha256-IsBytes (suc (suc n)) x h = iterate_sha256-IsBytes (suc n) (sha256 x) (omega arith)

module _ (sha256 : Bytes → Bytes) (sha : IsSha256 sha256) (c : MerkleTreeCircuit)
    (some_iteration : 0 < c.params.num_sha_iters_per_subcircuit) where
  abbrev iters : ℕ
  iters = c.params.num_sha_iters_per_subcircuit

  iterated_sha256_inner-digest_of :
      (x : Bytes) → iterated_sha256_inner sha256 iters x ≡ some (digest_of sha256 c x)
  unfolding iterated_sha256_inner
  iterated_sha256_inner-digest_of x =
      let enough : leb inner_hash_size (length (iterate_sha256 sha256 iters x)) ≡ true =
        ground (arith, iterate_sha256-long sha256 sha iters x some_iteration) in
      rw (enough, iterated_sha256_inner) refl

  -- The digests of a number of neighbours on a level.
  abbrev digests : ℕ → ℕ → ℕ → List Bytes
  digests l u zero = []
  digests l u (suc n) = node_digest sha256 c l u ∷ digests l (u + 1) n

  hash_leaves-digests :
      (xs : List Bytes) (u : ℕ)
      → ((j : ℕ) → get_or c.leaves (u + j) [] ≡ get_or xs j [])
      → hash_leaves sha256 iters xs ≡ some (digests 0 u (length xs))
  unfolding hash_leaves
  hash_leaves-digests [] u h = refl
  hash_leaves-digests (x ∷ xs) u h =
      let here : x ≡ get_or c.leaves u [] =
        sym (h 0) ∙ ap (λ (t : ℕ). get_or c.leaves t []) (plus_zero u) in
      let rest : hash_leaves sha256 iters xs ≡ some (digests 0 (u + 1) (length xs)) =
        hash_leaves-digests xs (u + 1)
          (λ j. ap (λ (t : ℕ). get_or c.leaves t []) (plus_one u j) ∙ h (suc j)) in
      rw (iterated_sha256_inner-digest_of x, hash_leaves) (rw rest (rw here refl))

  next_level-digests :
      (l u n : ℕ) → next_level sha256 iters (digests l (2 * u) (2 * n)) ≡ some (digests (suc l) u n)
  unfolding next_level
  next_level-digests l u zero = refl
  next_level-digests l u (suc n) =
      let two : 2 * suc n ≡ suc (suc (2 * n)) = omega arith in
      let next : 2 * u + 1 + 1 ≡ 2 * (u + 1) = omega arith in
      rw (two, next, next_level)
        (rw
          (iterated_sha256_inner-digest_of
            (node_digest sha256 c l (2 * u) ++ node_digest sha256 c l (2 * u + 1)))
          (rw (next_level-digests l (u + 1) n) refl))

  climb_levels-more :
      (fuel l n : ℕ)
      → 2 ≤ n
      → climb_levels sha256 (suc fuel) iters (digests l 0 n)
        ≡ (next_level sha256 iters (digests l 0 n) >>= climb_levels sha256 fuel iters)
  unfolding climb_levels
  climb_levels-more fuel l zero h = absurd (omega arith)
  climb_levels-more fuel l (suc zero) h = absurd (omega arith)
  climb_levels-more fuel l (suc (suc n)) h = refl

  climb_levels-one :
      (fuel l : ℕ)
      → climb_levels sha256 fuel iters (digests l 0 1) ≡ some (node_digest sha256 c l 0)
  unfolding climb_levels
  climb_levels-one fuel l = refl

  climb_levels-digests :
      (fuel l j : ℕ)
      → j ≤ fuel
      → climb_levels sha256 fuel iters (digests l 0 (2 ^ j)) ≡ some (node_digest sha256 c (l + j) 0)
  climb_levels-digests fuel l zero h =
      climb_levels-one fuel l ∙ ap (λ (t : ℕ). some (node_digest sha256 c t 0)) (sym (plus_zero l))
  climb_levels-digests zero l (suc j) h = absurd (omega arith)
  climb_levels-digests (suc fuel) l (suc j) h =
      let two : 2 ≤ 2 ^ suc j = omega (arith, pow-suc 2 j, one-le-pow j 2 (omega arith)) in
      climb_levels-more fuel l (2 ^ suc j) two
      ∙ ap (λ (n : ℕ). next_level sha256 iters (digests l 0 n) >>= climb_levels sha256 fuel iters)
          (pow-succ' 2 j)
      ∙ ap (λ (o : Option (List Bytes)). o >>= climb_levels sha256 fuel iters)
          (next_level-digests l 0 (2 ^ j))
      ∙ climb_levels-digests fuel (suc l) j (omega arith)
      ∙ ap (λ (t : ℕ). some (node_digest sha256 c t 0)) (suc_inside l j)

  length-digests : (l u n : ℕ) → length (digests l u n) ≡ n
  length-digests l u zero = refl
  length-digests l u (suc n) = ap suc (length-digests l (u + 1) n)

  lt_two_pow : (k : ℕ) → k < 2 ^ k
  lt_two_pow zero = omega arith
  lt_two_pow (suc k) = omega (arith, lt_two_pow k, pow-suc 2 k)

  -- With 2^k leaves and at least one iteration of SHA-256, `calculate_root` does not panic and
  -- computes the digest of the node that stands alone on level k, where the digest of a node is that
  -- of its leaf, or of the digests of the two nodes below it.
  pub calculate_root-node_digest :
      (k : ℕ)
      → length c.leaves ≡ 2 ^ k
      → calculate_root sha256 c.leaves c.params ≡ some (node_digest sha256 c k 0)
  unfolding calculate_root
  calculate_root-node_digest k size =
      rw
        (
          hash_leaves-digests c.leaves 0 (λ j. ap (λ (t : ℕ). get_or c.leaves t []) (zero_plus j)),
          calculate_root,
        )
        (rw (length-digests 0 0 (length c.leaves), size)
          (climb_levels-digests (2 ^ k) 0 k (omega (arith, lt_two_pow k))
            ∙ ap (λ (t : ℕ). some (node_digest sha256 c t 0)) (zero_plus k)))

module _ (sha256 : Bytes → Bytes) (sha : IsSha256 sha256) (c : MerkleTreeCircuit)
    (some_iteration : 0 < c.params.num_sha_iters_per_subcircuit) where
  digest_of-length : (x : Bytes) → length (digest_of sha256 c x) ≡ inner_hash_size
  digest_of-length x =
      let long =
        iterate_sha256-long sha256 sha c.params.num_sha_iters_per_subcircuit x some_iteration in
      omega (
        arith,
        long,
        length-take inner_hash_size (iterate_sha256 sha256 c.params.num_sha_iters_per_subcircuit x),
      )

  digest_of-IsBytes : (x : Bytes) → IsBytes (digest_of sha256 c x)
  digest_of-IsBytes x =
      take-IsBytes inner_hash_size (iterate_sha256 sha256 c.params.num_sha_iters_per_subcircuit x)
        (iterate_sha256-IsBytes sha256 sha c.params.num_sha_iters_per_subcircuit x some_iteration)

  pub node_digest-length : (l u : ℕ) → length (node_digest sha256 c l u) ≡ inner_hash_size
  node_digest-length zero u = digest_of-length (get_or c.leaves u [])
  node_digest-length (suc l) u =
      digest_of-length (node_digest sha256 c l (2 * u) ++ node_digest sha256 c l (2 * u + 1))

  pub node_digest-IsBytes : (l u : ℕ) → IsBytes (node_digest sha256 c l u)
  node_digest-IsBytes zero u = digest_of-IsBytes (get_or c.leaves u [])
  node_digest-IsBytes (suc l) u =
      digest_of-IsBytes (node_digest sha256 c l (2 * u) ++ node_digest sha256 c l (2 * u + 1))
