-- ===== src/TreeHash/Complete.antt =====
-- Every subcircuit of a Merkle tree whose leaves are a power of two runs without a panic.
use native.Mathlib.Nat.{pow-suc}
use hekaton_system.Prelude.{
  ℕ, zero, suc, ◌+◌, ◌-◌, ◌*◌, ◌^◌, ◌≤◌, ◌<◌, ◌≡◌, refl, sym, ap, ap₂, ◌∙◌, Bool, true, false, some,
  List, [], ◌∷◌, ◌++◌, take, get_or, get_elem?, arith, length, subst, half_even, Returns, returns,
  Returns-bind, ◌==◌, ℕ_discrete, if◌then◌else◌,
}
use hekaton_system.Prelude.Assoc.{lookup}
use hekaton_system.Field.{PrimeField}
use hekaton_system.Portal.Rom.Calls.{setup_get-Returns, setup_set-Returns}
use hekaton_system.SparseTree.{Bytes, inner_hash_size}
use hekaton_system.TreeHash.Circuit.{WireName-discrete, MerkleTreeCircuit, iterate_sha256}
use hekaton_system.TreeHash.Constraints.{
  Setup, setup, iterated_sha256, leaf_constraints, parent_constraints,
}
use hekaton_system.TreeHash.Digest.{digest_to_fpvar, fpvar_to_digest, input_digest}
use hekaton_system.TreeHash.Level.{node_number, left_child-node_number, right_child-node_number}
use hekaton_system.TreeHash.Order.{first_of_level, node_number-injective}
use hekaton_system.TreeHash.Progress.{
  digest_of, node_digest, node, Names, IsHeld, wire_value, Nodes, Placeholder, Nodes-Sets,
  Placeholder-Sets,
}

take-take : (n : ℕ) (d : Bytes) → take n (take n d) ≡ take n d
take-take zero d = refl
take-take (suc n) [] = refl
take-take (suc n) (b ∷ d) = ap (◌∷◌ b) (take-take n d)

pub get_elem?-get_or :
    (xs : List Bytes) (i : ℕ) → i < length xs → get_elem? xs i ≡ some (get_or xs i [])
get_elem?-get_or [] i h = absurd (omega arith)
get_elem?-get_or (x ∷ xs) zero h = refl
get_elem?-get_or (x ∷ xs) (suc i) h = get_elem?-get_or xs i (omega arith)

module _ {ℓ} {F : Type ℓ} ⦃f : PrimeField F⦄ (sha256 : Bytes → Bytes) (c : MerkleTreeCircuit) where
  pub iterated_sha256-digest_of :
      (input : Bytes)
      → ◌≡◌ {A = F} (iterated_sha256 sha256 c input) (digest_to_fpvar (digest_of sha256 c input))
  unfolding iterated_sha256 digest_to_fpvar
  iterated_sha256-digest_of input =
      rw
        (
          take-take inner_hash_size
              (iterate_sha256 sha256 c.params.num_sha_iters_per_subcircuit input),
          digest_to_fpvar,
        )
        refl

module _ {ℓ} {F : Type ℓ} ⦃f : PrimeField F⦄ (sha256 : Bytes → Bytes) (to_bits_le : F → List Bool)
    (c : MerkleTreeCircuit) (k : ℕ) (size : length c.leaves ≡ 2 ^ k) where
  -- The next node is set, in the subtrace that is open.
  pub record NodeDone (i : ℕ) (pm : Setup F) (r : Setup F × Bool) : Type ℓ where
    pub nodes : Nodes sha256 c k (i + 1) r.0.var_map
    pub waits : Placeholder sha256 c k i r.0.var_map
    pub count : length r.0.subtraces ≡ length pm.subtraces

  pub leaf_constraints-NodeDone :
      (u : ℕ) (pm : Setup F)
      → u < 2 ^ k
      → 0 < length pm.subtraces
      → Nodes sha256 c k (first_of_level k 0 + u) pm.var_map
      → Placeholder sha256 c k (first_of_level k 0 + u) pm.var_map
      → Returns
          (λ (r : Setup F × Bool). NodeDone (first_of_level k 0 + u) pm r × (r.1 ≡ true))
          (leaf_constraints sha256 to_bits_le setup c (node_number 0 u) pm)
  unfolding leaf_constraints
  leaf_constraints-NodeDone u pm h opened n p =
      let e : k - 0 ≡ k = omega arith in
      let inside : u < 2 ^ (k - 0) = omega (arith, ap (λ (t : ℕ). 2 ^ t) e) in
      let free = n.free 0 u (omega arith) inside (omega arith) in
      rw (half_even u, leaf_constraints)
        (rw
          (
            get_elem?-get_or c.leaves u (omega arith),
            iterated_sha256-digest_of sha256 c (get_or c.leaves u []),
          )
          (Returns-bind
            (setup_set-Returns WireName-discrete (node 0 u) (wire_value sha256 c k 0 u) pm opened
              free)
            (λ pm' s. returns (
              record {
                nodes = Nodes-Sets sha256 c k 0 u pm pm' (omega arith) inside n s;
                waits =
                    Placeholder-Sets sha256 c k (first_of_level k 0 + u) (node_number 0 u)
                      (wire_value sha256 c k 0 u) pm pm' p s;
                count = s.count;
              },
              refl,
            ))))

  module _
      (unpack : (l u : ℕ)
        → fpvar_to_digest to_bits_le (wire_value sha256 c k l u) ≡ node_digest sha256 c l u)
      (honest : ◌≡◌ {A = F} (input_digest c.root_hash) (wire_value sha256 c k k 0)) where
    root_check :
        (l u : ℕ)
        → (if node_number k 0 == node_number l u
            then f.is_eq (wire_value sha256 c k l u) (input_digest c.root_hash)
            else true)
          ≡ true
    root_check l u = elim (ℕ_discrete (node_number k 0) (node_number l u)) [
      | yes e ↦
          let (p, q) = node_number-injective k 0 l u e in
          let same : (node_number k 0 == node_number l u) ≡ true = ground arith in
          rw (same, honest)
            ((f.is_eq_iff _ _).1 (ap₂ (λ (a b : ℕ). wire_value sha256 c k a b) (sym p) (sym q)))
      | no ne ↦
          let other : (node_number k 0 == node_number l u) ≡ false = ground arith in rw other refl
    ]

    parent_value :
        (l u : ℕ) (x y : F)
        → x ≡ wire_value sha256 c k l (2 * u)
        → y ≡ wire_value sha256 c k l (2 * u + 1)
        → ◌≡◌ {A = F}
            (iterated_sha256 sha256 c
              (fpvar_to_digest to_bits_le x ++ fpvar_to_digest to_bits_le y))
            (wire_value sha256 c k (suc l) u)
    parent_value l u x y p q =
        rw (p, q, unpack l (2 * u), unpack l (2 * u + 1))
          (iterated_sha256-digest_of sha256 c
            (node_digest sha256 c l (2 * u) ++ node_digest sha256 c l (2 * u + 1)))

    pub parent_constraints-NodeDone :
        (l u : ℕ) (pm : Setup F)
        → suc l ≤ k
        → k < 31
        → u < 2 ^ (k - suc l)
        → 0 < length pm.subtraces
        → Nodes sha256 c k (first_of_level k (suc l) + u) pm.var_map
        → Placeholder sha256 c k (first_of_level k (suc l) + u) pm.var_map
        → Returns
            (λ (r : Setup F × Bool). NodeDone (first_of_level k (suc l) + u) pm r × (r.1 ≡ true))
            (parent_constraints sha256 to_bits_le setup c
              (node_number k 0)
              (node_number (suc l) u)
              pm)
    unfolding parent_constraints
    parent_constraints-NodeDone l u pm h b inside opened n p =
        let e : k - l ≡ suc (k - suc l) = omega arith in
        let room : 2 * u + 1 < 2 ^ (k - l) =
          omega (arith, pow-suc 2 (k - suc l), ap (λ (t : ℕ). 2 ^ t) e) in
        let free = n.free (suc l) u h inside (omega arith) in
        rw (left_child-node_number l u (omega arith), parent_constraints)
          (rw (right_child-node_number l u (omega arith)) (
            Returns-bind
              (setup_get-Returns WireName-discrete (node l (2 * u))
                (wire_value sha256 c k l (2 * u)) pm opened
                (n.done l (2 * u) (omega arith) (omega arith) (omega arith)))
              (λ r k1.
                Returns-bind
                  (setup_get-Returns WireName-discrete (node l (2 * u + 1))
                    (wire_value sha256 c k l (2 * u + 1)) r.1 (omega (arith, k1.1.1))
                    (subst
                      (λ (m : Names F).
                        IsHeld m (node l (2 * u + 1)) (wire_value sha256 c k l (2 * u + 1)))
                      (sym k1.1.0) (n.done l (2 * u + 1) (omega arith) room (omega arith))))
                  (λ r' k2.
                    let names : r'.1.var_map ≡ pm.var_map = k2.1.0 ∙ k1.1.0 in
                    let hashed = parent_value l u r.0 r'.0 k1.0 k2.0 in
                    rw hashed (
                      Returns-bind
                        (setup_set-Returns WireName-discrete (node (suc l) u)
                          (wire_value sha256 c k (suc l) u) r'.1 (omega (arith, k1.1.1, k2.1.1))
                          (ap (lookup WireName-discrete (node (suc l) u)) names ∙ free))
                        (λ pm' s. returns (
                          record {
                            nodes =
                                Nodes-Sets sha256 c k (suc l) u r'.1 pm' h inside
                                  (subst (Nodes sha256 c k (first_of_level k (suc l) + u))
                                    (sym names) n)
                                  s;
                            waits =
                                Placeholder-Sets sha256 c k (first_of_level k (suc l) + u)
                                  (node_number (suc l) u) (wire_value sha256 c k (suc l) u) r'.1 pm'
                                  (subst (Placeholder sha256 c k (first_of_level k (suc l) + u))
                                    (sym names) p)
                                  s;
                            count = s.count ∙ k2.1.1 ∙ k1.1.1;
                          },
                          root_check (suc l) u,
                        )))))))
