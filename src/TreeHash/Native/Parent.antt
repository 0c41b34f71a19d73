-- ===== src/TreeHash/Native/Parent.antt =====
-- The native run of `get_portal_subtraces` against the constraints of the subcircuits: the parents.
use native.Mathlib.Nat.{one-le-pow, pow-suc}
use hekaton_system.Prelude.{
  bind_assoc, bind_ext, ℕ, zero, suc, ◌+◌, ◌-◌, ◌*◌, ◌^◌, ◌≤◌, ◌<◌, ◌≡◌, refl, sym, ap, ◌∙◌, Bool,
  false, Option, List, ◌++◌, arith, length, ◌>>=◌, ◌==◌,
}
use hekaton_system.Field.{PrimeField}
use hekaton_system.Portal.Rom.{start_subtrace}
use hekaton_system.SparseTree.{Bytes, inner_hash_size}
use hekaton_system.TreeHash.Circuit.{node_hash, MerkleTreeCircuit, num_subcircuits}
use hekaton_system.TreeHash.Constraints.{
  Setup, setup, generate_constraints, node_constraints, parent_constraints, placeholder_ops,
  set_placeholder, parent_subtrace, iterated_sha256,
}
use hekaton_system.TreeHash.Digest.{fpvar_to_digest}
use hekaton_system.TreeHash.Level.{
  node_number, level-node_number, left_child-node_number, right_child-node_number,
}
use hekaton_system.TreeHash.Order.{first_of_level, first_of_level-closed}
use hekaton_system.TreeHash.Packing.{IsLeBits}
use hekaton_system.TreeHash.Root.{IsSha256}
use hekaton_system.TreeHash.Native.{
  forget, tail, generate_constraints-forget, native_hash-some, child_bytes-some, some_subcircuit,
  not_padding, node_found, root_found,
}

module _ {ℓ} {F : Type ℓ} ⦃f : PrimeField F⦄ (sha256 : Bytes → Bytes) (to_bits_le : F → List Bool)
    (c : MerkleTreeCircuit) (k width : ℕ) (sha : IsSha256 sha256) (bits : IsLeBits to_bits_le width)
    (wide : 8 * inner_hash_size ≤ width) (size : length c.leaves ≡ 2 ^ k) (small : k < 31)
    (some_iteration : 0 < c.params.num_sha_iters_per_subcircuit) where
  abbrev get_node : ℕ → ℕ → Setup F → Option (F × Setup F)
  get_node l u = setup.get (node_hash (node_number l u))

  abbrev set_parent : ℕ → ℕ → F → F → Setup F → Option (Setup F)
  set_parent l u x y =
      setup.set (node_hash (node_number (suc l) u))
        (iterated_sha256 sha256 c (fpvar_to_digest to_bits_le x ++ fpvar_to_digest to_bits_le y))

  -- The requests of a parent, the reads of its children first.
  abbrev parent_requests : ℕ → ℕ → (Setup F → Option (Setup F)) → Setup F → Option (Setup F)
  parent_requests l u next s = get_node l (2 * u) s >>= λ r.
      get_node l (2 * u + 1) r.1 >>= λ r'. set_parent l u r.0 r'.0 r'.1 >>= next

  parent_subtrace-requests :
      (l u i : ℕ) (pm : Setup F)
      → i ≡ first_of_level k (suc l) + u
      → suc l ≤ k
      → u < 2 ^ (k - suc l)
      → parent_subtrace sha256 to_bits_le c i pm
        ≡ parent_requests l u (placeholder_ops setup c.params) (start_subtrace pm)
  unfolding parent_subtrace
  parent_subtrace-requests l u i pm e h p =
      let s = start_subtrace pm in
      rw
        (
          node_found sha256 to_bits_le c k width sha bits wide size small some_iteration (suc l) u i
              e h p,
          parent_subtrace,
        )
        (rw (left_child-node_number l u (omega arith)) (
          rw (right_child-node_number l u (omega arith)) (
            bind_ext (get_node l (2 * u) s) _ _ λ r. bind_ext (get_node l (2 * u + 1) r.1) _ _ λ r'.
              rw
                (child_bytes-some sha256 to_bits_le c k width sha bits wide size small
                  some_iteration r.0)
                (rw
                  (child_bytes-some sha256 to_bits_le c k width sha bits wide size small
                    some_iteration r'.0)
                  (rw
                    (native_hash-some sha256 to_bits_le c k width sha bits wide size small
                      some_iteration
                      (fpvar_to_digest to_bits_le r.0 ++ fpvar_to_digest to_bits_le r'.0))
                    refl)))))

  node_constraints-parent :
      (l u i : ℕ) (s : Setup F)
      → i ≡ first_of_level k (suc l) + u
      → suc l ≤ k
      → u < 2 ^ (k - suc l)
      → node_constraints sha256 to_bits_le setup c i s
        ≡ parent_constraints sha256 to_bits_le setup c (node_number k 0) (node_number (suc l) u) s
  unfolding node_constraints
  node_constraints-parent l u i s e h p =
      let above : (suc l == 0) ≡ false = ground arith in
      rw
        (
          node_found sha256 to_bits_le c k width sha bits wide size small some_iteration (suc l) u i
              e h p,
          node_constraints,
        )
        (rw (root_found sha256 to_bits_le c k width sha bits wide size small some_iteration)
          (rw (level-node_number (suc l) u (omega arith), above) refl))

  parent_constraints-requests :
      (l u : ℕ) (s : Setup F) (next : Setup F → Option (Setup F))
      → l < 30
      → (parent_constraints sha256 to_bits_le setup c (node_number k 0) (node_number (suc l) u) s
          >>= λ r. next r.0)
        ≡ parent_requests l u next s
  unfolding parent_constraints
  parent_constraints-requests l u s next h =
      rw (left_child-node_number l u (omega arith), parent_constraints)
        (rw (right_child-node_number l u (omega arith)) (
          bind_assoc (get_node l (2 * u) s) _ _
          ∙ bind_ext (get_node l (2 * u) s) _ _ λ r.
            bind_assoc (get_node l (2 * u + 1) r.1) _ _
            ∙ bind_ext (get_node l (2 * u + 1) r.1) _ _
                λ r'. bind_assoc (set_parent l u r.0 r'.0 r'.1) _ _))

  pub tail-later :
      (i : ℕ) (s : Setup F)
      → 0 < i
      → tail sha256 to_bits_le c i s ≡ placeholder_ops setup c.params s
  unfolding tail set_placeholder
  tail-later i s h = let e : (i == 0) ≡ false = ground arith in rw (e, set_placeholder) refl

  first_parent : (l : ℕ) → 2 ^ k ≤ first_of_level k (suc l)
  first_parent zero = let e : k - 0 ≡ k = omega arith in omega (arith, ap (λ (t : ℕ). 2 ^ t) e)
  first_parent (suc l) = omega (arith, first_parent l)

  pub nodes_total : first_of_level k (suc k) + 1 ≡ num_subcircuits c
  nodes_total =
      let e : suc k - suc k ≡ 0 = omega arith in
      omega (
        arith,
        first_of_level-closed k (suc k) (omega arith),
        ap (λ (t : ℕ). 2 ^ t) e,
        size,
        pow-suc 2 k,
      )

  pub parent_step :
      (l u i : ℕ) (pm : Setup F)
      → i ≡ first_of_level k l + u
      → l ≤ k
      → u < 2 ^ (k - l)
      → 2 ^ k ≤ i
      → i < first_of_level k (suc k)
      → parent_subtrace sha256 to_bits_le c i pm
        ≡ forget (generate_constraints sha256 to_bits_le setup c i (start_subtrace pm))
  parent_step zero u i pm e h p low high =
      let z : k - 0 ≡ k = omega arith in absurd (omega (arith, ap (λ (t : ℕ). 2 ^ t) z))
  parent_step (suc l) u i pm e h p low high =
      let s = start_subtrace pm in
      let some_leaf = one-le-pow k 2 (omega arith) in
      let ops = placeholder_ops setup c.params in
      parent_subtrace-requests l u i pm e h p
      ∙ sym (
          generate_constraints-forget sha256 to_bits_le c i s
            (some_subcircuit sha256 to_bits_le c k width sha bits wide size small some_iteration)
            (not_padding sha256 to_bits_le c k width sha bits wide size small some_iteration i
              (omega (arith, nodes_total)))
          ∙ bind_ext (node_constraints sha256 to_bits_le setup c i s) _ (λ r. ops r.0)
              (λ r. tail-later i r.0 (omega arith))
          ∙ ap (λ (m : Option (Setup F × Bool)). m >>= λ r. ops r.0)
              (node_constraints-parent l u i s e h p)
          ∙ parent_constraints-requests l u s ops (omega arith))
