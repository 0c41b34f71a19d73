-- ===== src/TreeHash/Whole.antt =====
-- The whole Merkle tree with its honest root: all subcircuits run, and all constraints hold.
use native.Mathlib.Nat.{one-le-pow, pow-suc}
use hekaton_system.Prelude.{
  ℕ, zero, suc, ◌+◌, ◌-◌, ◌*◌, ◌^◌, ◌≤◌, ◌<◌, ◌≡◌, refl, sym, ap, ◌∙◌, Bool, true, false, ◌&&◌,
  some, Option, List, [], ◌∷◌, arith, length, subst, Returns, returns, Returns-bind, Returns-inv,
  ◌>>=◌, ◌==◌, length-append,
}
use hekaton_system.Prelude.Assoc.{lookup}
use hekaton_system.Field.{PrimeField}
use hekaton_system.Portal.Rom.{start_subtrace, new_setup}
use hekaton_system.SparseTree.{Bytes, inner_hash_size}
use hekaton_system.TreeHash.Circuit.{MerkleTreeCircuit, num_subcircuits, calculate_root}
use hekaton_system.TreeHash.Constraints.{Setup, setup, generate_constraints, set_placeholder}
use hekaton_system.TreeHash.Digest.{digest_to_fpvar, fpvar_to_digest, input_digest}
use hekaton_system.TreeHash.Order.{first_of_level, first_of_level-closed}
use hekaton_system.TreeHash.Packing.{
  IsLeBits, fpvar_to_digest-digest_to_fpvar, take-length, input_digest-digest_to_fpvar,
}
use hekaton_system.TreeHash.Progress.{node_digest, node, Names, IsHeld, wire_value}
use hekaton_system.TreeHash.Root.{
  IsSha256, node_digest-length, node_digest-IsBytes, calculate_root-node_digest,
}
use hekaton_system.TreeHash.Run.{Kept, placeholder_ops-Kept, Ready, generate_constraints-Ready}

module _ {ℓ} {F : Type ℓ} ⦃f : PrimeField F⦄ (sha256 : Bytes → Bytes)
    (to_bits_le : F → List Bool) where
  -- A number of subcircuits from an index on, each with a subtrace of its own, and whether all their
  -- constraints hold.
  unfoldable pub run_subcircuits : MerkleTreeCircuit → ℕ → ℕ → Setup F → Option (Setup F × Bool)
  run_subcircuits c idx zero pm = some (pm, true)
  run_subcircuits c idx (suc n) pm = do
    (pm1, holds) ← generate_constraints sha256 to_bits_le setup c idx (start_subtrace pm)
    (pm2, rest) ← run_subcircuits c (idx + 1) n pm1
    some (pm2, holds && rest)

module _ {ℓ} {F : Type ℓ} ⦃f : PrimeField F⦄ (sha256 : Bytes → Bytes) (to_bits_le : F → List Bool)
    (c : MerkleTreeCircuit) (k : ℕ) (size : length c.leaves ≡ 2 ^ k) (small : k < 31)
    (some_portal : 0 < c.params.num_portals_per_subcircuit)
    (unpack : (l u : ℕ)
      → fpvar_to_digest to_bits_le (wire_value sha256 c k l u) ≡ node_digest sha256 c l u)
    (honest : ◌≡◌ {A = F} (input_digest c.root_hash) (wire_value sha256 c k k 0)) where
  abbrev IsReady : ℕ → Setup F → Type ℓ
  IsReady i pm = Ready sha256 to_bits_le c k size small some_portal unpack honest i pm

  nodes_total : first_of_level k (suc k) + 1 ≡ num_subcircuits c
  nodes_total =
      let e : suc k - suc k ≡ 0 = omega arith in
      omega (
        arith,
        first_of_level-closed k (suc k) (omega arith),
        ap (λ (t : ℕ). 2 ^ t) e,
        size,
        pow-suc 2 k,
      )

  -- The padding subcircuit reads the placeholder alone.
  padding_subcircuit :
      (pm : Setup F)
      → IsReady (first_of_level k (suc k)) pm
      → Returns
          (λ (r : Setup F × Bool). Kept (start_subtrace pm) r.0 × (r.1 ≡ true))
          (generate_constraints sha256 to_bits_le setup c
            (first_of_level k (suc k))
            (start_subtrace pm))
  unfolding generate_constraints set_placeholder start_subtrace
  padding_subcircuit pm ready =
      let total = nodes_total in
      let p = one-le-pow k 2 (omega arith) in
      let some_node : (num_subcircuits c == 0) ≡ false = ground (arith, size) in
      let last : (first_of_level k (suc k) == num_subcircuits c - 1) ≡ true = ground arith in
      let later : (first_of_level k (suc k) == 0) ≡ false = ground (arith, size) in
      rw (some_node, last, generate_constraints)
        (rw (later, set_placeholder)
          (Returns-bind
            (placeholder_ops-Kept c.params (start_subtrace pm) some_portal
              (omega (arith, length-append pm.subtraces ([] ∷ [])))
              (ready.waits.held (omega (arith, size))))
            (λ pm' kept. returns (kept, refl))))

  -- All subcircuits have run: their constraints hold, and the root's wire has its digest.
  abbrev pub Finished : Setup F × Bool → Type ℓ
  Finished r =
      (r.1 ≡ true)
      × (length r.0.subtraces ≡ num_subcircuits c)
      × IsHeld r.0.var_map (node k 0) (wire_value sha256 c k k 0)

  padding-Finished :
      (pm : Setup F) (r : Setup F × Bool)
      → IsReady (first_of_level k (suc k)) pm
      → Kept (start_subtrace pm) r.0 × (r.1 ≡ true)
      → Finished (r.0, r.1 && true)
  unfolding start_subtrace
  padding-Finished pm r ready kept =
      let level_size : k - k ≡ 0 = omega arith in
      let last_level = first_of_level-closed k (suc k) (omega arith) in
      let inside : 0 < 2 ^ (k - k) = one-le-pow (k - k) 2 (omega arith) in
      (
        rw kept.1 refl,
        omega (arith, kept.0.1, ready.count, nodes_total, length-append pm.subtraces ([] ∷ [])),
        subst (λ (m : Names F). IsHeld m (node k 0) (wire_value sha256 c k k 0)) (sym kept.0.0)
            (ready.nodes.done k 0 (omega arith) inside (omega arith)),
      )

  run_subcircuits-Finished :
      (n i : ℕ) (pm : Setup F)
      → i + n ≡ first_of_level k (suc k)
      → IsReady i pm
      → Returns Finished (run_subcircuits sha256 to_bits_le c i (suc n) pm)
  unfolding run_subcircuits
  run_subcircuits-Finished zero i pm e ready =
      let at : i ≡ first_of_level k (suc k) = omega arith in
      rw at (
        Returns-bind (padding_subcircuit pm (subst (λ (j : ℕ). IsReady j pm) at ready))
          λ r kept. returns (padding-Finished pm r (subst (λ (j : ℕ). IsReady j pm) at ready) kept))
  run_subcircuits-Finished (suc n) i pm e ready =
      Returns-bind
        (generate_constraints-Ready sha256 to_bits_le c k size small some_portal unpack honest i pm
          (omega arith) ready)
        λ r step.
          Returns-bind (run_subcircuits-Finished n (i + 1) r.0 (omega arith) step.0)
            λ r' done. returns (rw step.1 (done.0), done.1, done.2)

  new_setup-Ready : IsReady 0 new_setup
  unfolding lookup
  new_setup-Ready = record {
    nodes = record { done = λ l u a b h. absurd (omega arith); free = λ l u a b h. refl };
    waits = record { held = λ h. absurd (omega arith); idle = λ e. refl };
    count = refl;
  }

module _ {ℓ} {F : Type ℓ} ⦃f : PrimeField F⦄ where
  -- Take a circuit with 2^k leaves, k at most 30, and a portal and an iteration of SHA-256 at least,
  -- whose root hash is the root that `calculate_root` computes; a hash with digests of 32 bytes; and
  -- a field of at least 2^216 elements with as many binary digits. Then all subcircuits run in order
  -- with the coordinator's manager without a panic, every constraint holds, one subtrace is recorded
  -- for each, and the wire of the root is set to the field element of the root hash.
  pub run_subcircuits-calculate_root :
      (sha256 : Bytes → Bytes) (to_bits_le : F → List Bool) (c : MerkleTreeCircuit) (k width : ℕ)
      → IsSha256 sha256
      → IsLeBits to_bits_le width
      → 8 * inner_hash_size ≤ width
      → 2 ^ (8 * inner_hash_size) ≤ f.modulus
      → length c.leaves ≡ 2 ^ k
      → k < 31
      → 0 < c.params.num_sha_iters_per_subcircuit
      → 0 < c.params.num_portals_per_subcircuit
      → calculate_root sha256 c.leaves c.params ≡ some c.root_hash
      → (pm : Setup F) × (run_subcircuits sha256 to_bits_le c 0 (num_subcircuits c) new_setup
          ≡ some (pm, true))
        × (length pm.subtraces ≡ num_subcircuits c)
        × IsHeld pm.var_map (node k 0) (digest_to_fpvar c.root_hash)
  run_subcircuits-calculate_root sha256 to_bits_le c k width sha bits wide large size small
        some_iteration some_portal root =
      let digest = node_digest sha256 c in
      let len = node_digest-length sha256 sha c some_iteration in
      let bytes = node_digest-IsBytes sha256 sha c some_iteration in
      let unpack : (l u : ℕ)
          → fpvar_to_digest to_bits_le (wire_value sha256 c k l u) ≡ node_digest sha256 c l u =
        λ l u.
          fpvar_to_digest-digest_to_fpvar to_bits_le (digest l u) width (omega (arith, len l u))
            (bytes l u) bits wide large
          ∙ take-length (digest l u) inner_hash_size (len l u) in
      let roots : some c.root_hash ≡ some (digest k 0) =
        sym root ∙ calculate_root-node_digest sha256 sha c some_iteration k size in
      let same : c.root_hash ≡ digest k 0 = ground arith in
      let honest : ◌≡◌ {A = F} (input_digest c.root_hash) (wire_value sha256 c k k 0) =
        ap (λ (d : Bytes). input_digest d) same
        ∙ input_digest-digest_to_fpvar (digest k 0) (len k 0) (bytes k 0) in
      let total : num_subcircuits c ≡ suc (first_of_level k (suc k)) =
        omega (arith, nodes_total sha256 to_bits_le c k size small some_portal unpack honest) in
      let (r, ran, (holds, count, held)) = Returns-inv (
        run_subcircuits-Finished sha256 to_bits_le c k size small some_portal unpack honest
          (first_of_level k (suc k)) 0 new_setup (omega arith)
          (new_setup-Ready sha256 to_bits_le c k size small some_portal unpack honest)) in
      (
        r.0,
        ap (λ (n : ℕ). run_subcircuits sha256 to_bits_le c 0 n new_setup) total
            ∙ ran
            ∙ ap (λ (b : Bool). some (r.0, b)) holds,
        count,
        subst (λ (d : Bytes). IsHeld r.0.var_map (node k 0) (digest_to_fpvar d)) (sym same) held,
      )
