-- ===== src/TreeHash/Native.antt =====
-- The native run of `get_portal_subtraces` against the constraints of the subcircuits: the leaves.
pub mod Parent
pub mod Subtraces
use native.Mathlib.Nat.{one-le-pow, pow-suc}
use hekaton_system.Prelude.{
  bind_assoc, bind_ext, bind_some, ℕ, zero, suc, ◌+◌, ◌-◌, ◌*◌, ◌^◌, ◌/◌, ◌≤◌, ◌<◌, ◌≡◌, refl, sym,
  ap, ap₂, fun_ext, ◌∙◌, Bool, true, false, none, some, Option, List, [], ◌∷◌, ◌++◌, arith, length,
  subst, ◌>>=◌, ◌==◌, leb, if◌then◌else◌, take, drop, length-drop, get_or, get_elem?, half_even,
}
use hekaton_system.Field.{PrimeField}
use hekaton_system.Portal.{PortalManager}
use hekaton_system.Portal.Rom.{start_subtrace, new_setup}
use hekaton_system.SparseTree.{Bytes, inner_hash_size}
use hekaton_system.TreeHash.Circuit.{
  WireName, node_hash, MerkleTreeCircuit, num_subcircuits, iterate_sha256,
}
use hekaton_system.TreeHash.Constraints.{
  Setup, setup, generate_constraints, node_constraints, leaf_constraints, parent_constraints,
  placeholder_ops, set_placeholder, native_hash, child_bytes, leaf_subtrace, parent_subtrace,
  leaf_subtraces, parent_subtraces, record_subtraces, iterated_sha256,
}
use hekaton_system.TreeHash.Digest.{digest_to_fpvar, fpvar_to_digest, bytes_of_bits}
use hekaton_system.TreeHash.Node.{
  subcircuit_idx_to_node_idx, level, left_child, right_child, root_idx,
}
use hekaton_system.TreeHash.Level.{
  node_number, level-node_number, left_child-node_number, right_child-node_number,
}
use hekaton_system.TreeHash.Order.{
  first_of_level, first_of_level-closed, index-decode, subcircuit_idx_to_node_idx-node_number,
  root_idx-two_pow,
}
use hekaton_system.TreeHash.Packing.{IsLeBits, take-length}
use hekaton_system.TreeHash.Root.{IsSha256, iterate_sha256-long}
use hekaton_system.TreeHash.Complete.{get_elem?-get_or}
use hekaton_system.TreeHash.Whole.{run_subcircuits}

module _ {ℓ κ} {A : Type ℓ} {B : Type κ} where
  abbrev pub forget : Option (A × B) → Option A
  forget m = m >>= λ r. some r.0

module _ {ℓ} {F : Type ℓ} ⦃f : PrimeField F⦄ (sha256 : Bytes → Bytes) (to_bits_le : F → List Bool)
    (c : MerkleTreeCircuit) where
  -- What every subcircuit does after its node.
  unfoldable pub tail : ℕ → Setup F → Option (Setup F)
  tail idx s = set_placeholder setup idx s >>= placeholder_ops setup c.params

  pub generate_constraints-forget :
      (idx : ℕ) (s : Setup F)
      → (num_subcircuits c == 0) ≡ false
      → (idx == num_subcircuits c - 1) ≡ false
      → forget (generate_constraints sha256 to_bits_le setup c idx s)
        ≡ (node_constraints sha256 to_bits_le setup c idx s >>= λ r. tail idx r.0)
  unfolding generate_constraints tail
  generate_constraints-forget idx s p q =
      rw (p, q, generate_constraints)
        (bind_assoc (node_constraints sha256 to_bits_le setup c idx s) _ _
          ∙ bind_ext (node_constraints sha256 to_bits_le setup c idx s) _ _ λ r.
            bind_assoc (set_placeholder setup idx r.0) _ _
            ∙ bind_ext (set_placeholder setup idx r.0) _ _ λ s2.
              bind_assoc (placeholder_ops setup c.params s2) _ _
              ∙ bind_some (placeholder_ops setup c.params s2))

length-bytes_of_bits :
    (n : ℕ) (bs : List Bool) → 8 * n ≤ length bs → length (bytes_of_bits n bs) ≡ n
unfolding bytes_of_bits
length-bytes_of_bits zero bs h = refl
length-bytes_of_bits (suc n) [] h = absurd (omega arith)
length-bytes_of_bits (suc n) (b ∷ bs) h =
    ap suc (length-bytes_of_bits n (drop 8 (b ∷ bs)) (omega (arith, length-drop 8 (b ∷ bs))))

module _ {ℓ} {F : Type ℓ} ⦃f : PrimeField F⦄ (sha256 : Bytes → Bytes) (to_bits_le : F → List Bool)
    (c : MerkleTreeCircuit) (k width : ℕ) (sha : IsSha256 sha256) (bits : IsLeBits to_bits_le width)
    (wide : 8 * inner_hash_size ≤ width) (size : length c.leaves ≡ 2 ^ k) (small : k < 31)
    (some_iteration : 0 < c.params.num_sha_iters_per_subcircuit) where
  pub native_hash-some :
      (x : Bytes) → native_hash sha256 to_bits_le c x ≡ some (iterated_sha256 sha256 c x)
  unfolding native_hash iterated_sha256
  native_hash-some x =
      let long =
        iterate_sha256-long sha256 sha c.params.num_sha_iters_per_subcircuit x some_iteration in
      let whole : (length (iterate_sha256 sha256 c.params.num_sha_iters_per_subcircuit x) == 32)
          ≡ true =
        ground (arith, long) in
      rw (whole, native_hash) refl

  pub child_bytes-some :
      (x : F) → child_bytes sha256 to_bits_le x ≡ some (fpvar_to_digest to_bits_le x)
  unfolding child_bytes fpvar_to_digest
  child_bytes-some x =
      let n : length (bytes_of_bits inner_hash_size (to_bits_le x)) ≡ inner_hash_size =
        length-bytes_of_bits inner_hash_size (to_bits_le x) (omega (arith, bits.same_width x)) in
      let enough : leb inner_hash_size (length (bytes_of_bits inner_hash_size (to_bits_le x)))
          ≡ true =
        ground (arith, n) in
      rw (enough, child_bytes)
        (ap some (take-length (bytes_of_bits inner_hash_size (to_bits_le x)) inner_hash_size n))

  pub some_subcircuit : (num_subcircuits c == 0) ≡ false
  some_subcircuit = let p = one-le-pow k 2 (omega arith) in ground (arith, size)

  pub not_padding : (i : ℕ) → i + 1 < num_subcircuits c → (i == num_subcircuits c - 1) ≡ false
  not_padding i h = ground arith

  pub node_found :
      (l u i : ℕ)
      → i ≡ first_of_level k l + u
      → l ≤ k
      → u < 2 ^ (k - l)
      → subcircuit_idx_to_node_idx i (length c.leaves) ≡ some (node_number l u)
  node_found l u i e h p =
      ap₂ subcircuit_idx_to_node_idx e size ∙ subcircuit_idx_to_node_idx-node_number k l u small h p

  pub root_found : root_idx (length c.leaves) ≡ some (node_number k 0)
  root_found = ap root_idx size ∙ root_idx-two_pow k small

  in_row : (u : ℕ) → u < 2 ^ k → u < 2 ^ (k - 0)
  in_row u h = let e : k - 0 ≡ k = omega arith in omega (arith, ap (λ (t : ℕ). 2 ^ t) e)

  abbrev leaf_set : ℕ → Setup F → Option (Setup F)
  leaf_set u pm =
      setup.set (node_hash (node_number 0 u)) (iterated_sha256 sha256 c (get_or c.leaves u [])) pm

  leaf_subtrace-leaf_set :
      (u : ℕ) (pm : Setup F)
      → u < 2 ^ k
      → leaf_subtrace sha256 to_bits_le c u (get_or c.leaves u []) pm
        ≡ (leaf_set u (start_subtrace pm) >>= tail sha256 to_bits_le c u)
  unfolding leaf_subtrace tail
  leaf_subtrace-leaf_set u pm h =
      rw (native_hash-some (get_or c.leaves u []), leaf_subtrace)
        (rw (node_found 0 u u (omega arith) (omega arith) (in_row u h)) refl)

  node_constraints-leaf_set :
      (u : ℕ) (s : Setup F)
      → u < 2 ^ k
      → node_constraints sha256 to_bits_le setup c u s ≡ (leaf_set u s >>= λ s1. some (s1, true))
  unfolding node_constraints leaf_constraints
  node_constraints-leaf_set u s h =
      rw (node_found 0 u u (omega arith) (omega arith) (in_row u h), node_constraints)
        (rw root_found (
          rw (level-node_number 0 u (omega arith)) (
            rw (half_even u, leaf_constraints)
              (rw (get_elem?-get_or c.leaves u (omega (arith, size))) refl))))

  pub leaf_subtrace-forget :
      (u : ℕ) (pm : Setup F)
      → u < 2 ^ k
      → leaf_subtrace sha256 to_bits_le c u (get_or c.leaves u []) pm
        ≡ forget (generate_constraints sha256 to_bits_le setup c u (start_subtrace pm))
  leaf_subtrace-forget u pm h =
      let s = start_subtrace pm in
      let inner : u + 1 < num_subcircuits c = omega (arith, size) in
      leaf_subtrace-leaf_set u pm h
      ∙ sym (
          generate_constraints-forget sha256 to_bits_le c u s some_subcircuit (not_padding u inner)
          ∙ ap (λ (m : Option (Setup F × Bool)). m >>= λ r. tail sha256 to_bits_le c u r.0)
              (node_constraints-leaf_set u s h)
          ∙ bind_assoc (leaf_set u s) _ _)
