-- ===== src/TreeHash/Run.antt =====
-- All subcircuits of a Merkle tree in order, each in a subtrace of its own, with the setup manager.
use native.Mathlib.Nat.{one-le-pow, pow-suc}
use hekaton_system.Prelude.{
  ℕ, zero, suc, ◌+◌, ◌-◌, ◌^◌, ◌≤◌, ◌<◌, ◌≡◌, refl, sym, ap, ◌∙◌, Bool, true, false, List, [], ◌∷◌,
  arith, length, subst, Returns, returns, Returns-bind, Returns-map, ◌==◌, length-append,
}
use hekaton_system.Field.{PrimeField}
use hekaton_system.Portal.Rom.{start_subtrace}
use hekaton_system.Portal.Rom.Calls.{Sets-Holds, Keeps, setup_get-Returns, setup_set-Returns}
use hekaton_system.SparseTree.{Bytes}
use hekaton_system.TreeHash.Circuit.{
  WireName-discrete, placeholder, MerkleTreeCircuit, MerkleTreeCircuitParams, num_subcircuits,
}
use hekaton_system.TreeHash.Constraints.{
  Setup, setup, node_constraints, generate_constraints, placeholder_gets, placeholder_ops,
  set_placeholder,
}
use hekaton_system.TreeHash.Digest.{fpvar_to_digest, input_digest}
use hekaton_system.TreeHash.Level.{level-node_number}
use hekaton_system.TreeHash.Order.{
  first_of_level, first_of_level-closed, index-decode, subcircuit_idx_to_node_idx-node_number,
  root_idx-two_pow,
}
use hekaton_system.TreeHash.Progress.{
  node_digest, Names, IsHeld, wire_value, Nodes, Placeholder, Nodes-placeholder,
}
use hekaton_system.TreeHash.Complete.{
  NodeDone, leaf_constraints-NodeDone, parent_constraints-NodeDone,
}

module _ {ℓ} {F : Type ℓ} ⦃f : PrimeField F⦄ where
  abbrev pub Kept : Setup F → Setup F → Type ℓ
  Kept pm pm' = Keeps WireName-discrete pm pm'

  pub placeholder_gets-Kept :
      (n : ℕ) (pm : Setup F)
      → 0 < length pm.subtraces
      → IsHeld pm.var_map placeholder f.zero_elem
      → Returns (Kept pm) (placeholder_gets setup n pm)
  unfolding placeholder_gets
  placeholder_gets-Kept zero pm h p = returns (refl, refl)
  placeholder_gets-Kept (suc n) pm h p =
      Returns-bind (setup_get-Returns WireName-discrete placeholder f.zero_elem pm h p) λ r k.
        Returns-map
          (placeholder_gets-Kept n r.1 (omega (arith, k.1.1))
            (subst (λ (m : Names F). IsHeld m placeholder f.zero_elem) (sym k.1.0) p))
          λ pm' k'. (k'.0 ∙ k.1.0, k'.1 ∙ k.1.1)

  pub placeholder_ops-Kept :
      (params : MerkleTreeCircuitParams) (pm : Setup F)
      → 0 < params.num_portals_per_subcircuit
      → 0 < length pm.subtraces
      → IsHeld pm.var_map placeholder f.zero_elem
      → Returns (Kept pm) (placeholder_ops setup params pm)
  unfolding placeholder_ops
  placeholder_ops-Kept params pm some_portal h p =
      let e : (params.num_portals_per_subcircuit == 0) ≡ false = ground arith in
      rw (e, placeholder_ops) (placeholder_gets-Kept (params.num_portals_per_subcircuit - 1) pm h p)

module _ {ℓ} {F : Type ℓ} ⦃f : PrimeField F⦄ (sha256 : Bytes → Bytes) (to_bits_le : F → List Bool)
    (c : MerkleTreeCircuit) (k : ℕ) (size : length c.leaves ≡ 2 ^ k) (small : k < 31)
    (some_portal : 0 < c.params.num_portals_per_subcircuit)
    (unpack : (l u : ℕ)
      → fpvar_to_digest to_bits_le (wire_value sha256 c k l u) ≡ node_digest sha256 c l u)
    (honest : ◌≡◌ {A = F} (input_digest c.root_hash) (wire_value sha256 c k k 0)) where
  node_constraints-NodeDone :
      (l u : ℕ) (pm : Setup F)
      → l ≤ k
      → u < 2 ^ (k - l)
      → 0 < length pm.subtraces
      → Nodes sha256 c k (first_of_level k l + u) pm.var_map
      → Placeholder sha256 c k (first_of_level k l + u) pm.var_map
      → Returns
          (λ (r : Setup F × Bool).
            NodeDone sha256 to_bits_le c k size (first_of_level k l + u) pm r × (r.1 ≡ true))
          (node_constraints sha256 to_bits_le setup c (first_of_level k l + u) pm)
  unfolding node_constraints
  node_constraints-NodeDone zero u pm h inside opened n p =
      let e : k - 0 ≡ k = omega arith in
      rw (size, subcircuit_idx_to_node_idx-node_number k 0 u small h inside, node_constraints)
        (rw (root_idx-two_pow k small) (
          rw (level-node_number 0 u (omega arith)) (
            leaf_constraints-NodeDone sha256 to_bits_le c k size u pm
              (omega (arith, ap (λ (t : ℕ). 2 ^ t) e)) opened n p)))
  node_constraints-NodeDone (suc l) u pm h inside opened n p =
      let above : (suc l == 0) ≡ false = ground arith in
      rw (size, subcircuit_idx_to_node_idx-node_number k (suc l) u small h inside, node_constraints)
        (rw (root_idx-two_pow k small) (
          rw (level-node_number (suc l) u (omega arith), above)
            (parent_constraints-NodeDone sha256 to_bits_le c k size unpack honest l u pm h small
              inside opened n p)))

  pub set_placeholder-IsHeld :
      (i : ℕ) (pm : Setup F)
      → 0 < length pm.subtraces
      → Nodes sha256 c k (i + 1) pm.var_map
      → Placeholder sha256 c k i pm.var_map
      → Returns
          (λ (pm' : Setup F).
            Nodes sha256 c k (i + 1) pm'.var_map
            × IsHeld pm'.var_map placeholder f.zero_elem
            × (length pm'.subtraces ≡ length pm.subtraces))
          (set_placeholder setup i pm)
  unfolding set_placeholder
  set_placeholder-IsHeld zero pm opened n p =
      Returns-map
        (setup_set-Returns WireName-discrete placeholder f.zero_elem pm opened (p.idle refl))
        λ pm' s. (
          Nodes-placeholder sha256 c k (zero + 1) f.zero_elem pm pm' n s,
          Sets-Holds WireName-discrete placeholder f.zero_elem pm pm' s,
          s.count,
        )
  set_placeholder-IsHeld (suc i) pm opened n p =
      let e : (suc i == 0) ≡ false = ground arith in
      rw (e, set_placeholder) (returns (n, p.held (omega arith), refl))

  -- After `i` subcircuits, each in a subtrace of its own.
  pub record Ready (i : ℕ) (pm : Setup F) : Type ℓ where
    pub nodes : Nodes sha256 c k i pm.var_map
    pub waits : Placeholder sha256 c k i pm.var_map
    pub count : length pm.subtraces ≡ i

  pub start_subtrace-length :
      (pm : Setup F) → length (start_subtrace pm).subtraces ≡ length pm.subtraces + 1
  unfolding start_subtrace
  start_subtrace-length pm = length-append pm.subtraces ([] ∷ [])

  start_subtrace-var_map : (pm : Setup F) → (start_subtrace pm).var_map ≡ pm.var_map
  unfolding start_subtrace
  start_subtrace-var_map pm = refl

  some_subcircuit : (num_subcircuits c == 0) ≡ false
  some_subcircuit = let p = one-le-pow k 2 (omega arith) in ground (arith, size)

  node_index : (i : ℕ) → i < first_of_level k (suc k) → (i == num_subcircuits c - 1) ≡ false
  node_index i h =
      let p = first_of_level-closed k (suc k) (omega arith) in
      ground (arith, size, pow-suc 2 k, one-le-pow (suc k - suc k) 2 (omega arith))

  pub finish_subcircuit :
      (i : ℕ) (pm pm' : Setup F)
      → length pm.subtraces ≡ i + 1
      → Nodes sha256 c k (i + 1) pm.var_map
      → IsHeld pm.var_map placeholder f.zero_elem
      → Kept pm pm'
      → Ready (i + 1) pm'
  finish_subcircuit i pm pm' l n p kept = record {
    nodes = subst (Nodes sha256 c k (i + 1)) (sym kept.0) n;
    waits = record {
      held = λ h. subst (λ (m : Names F). IsHeld m placeholder f.zero_elem) (sym kept.0) p;
      idle = λ e. absurd (omega arith);
    };
    count = kept.1 ∙ l;
  }

  node_subcircuit :
      (i : ℕ) (pm : Setup F)
      → i < first_of_level k (suc k)
      → 0 < length pm.subtraces
      → Nodes sha256 c k i pm.var_map
      → Placeholder sha256 c k i pm.var_map
      → Returns
          (λ (r : Setup F × Bool). NodeDone sha256 to_bits_le c k size i pm r × (r.1 ≡ true))
          (node_constraints sha256 to_bits_le setup c i pm)
  node_subcircuit i pm h opened n p =
      let (l, u, a, b, e) = index-decode k i (suc k) (omega arith) h in
      rw e (
        node_constraints-NodeDone l u pm (omega arith) b opened
          (subst (λ (j : ℕ). Nodes sha256 c k j pm.var_map) e n)
          (subst (λ (j : ℕ). Placeholder sha256 c k j pm.var_map) e p))

  pub generate_constraints-Ready :
      (i : ℕ) (pm : Setup F)
      → i < first_of_level k (suc k)
      → Ready i pm
      → Returns
          (λ (r : Setup F × Bool). Ready (i + 1) r.0 × (r.1 ≡ true))
          (generate_constraints sha256 to_bits_le setup c i (start_subtrace pm))
  unfolding generate_constraints
  generate_constraints-Ready i pm h ready =
      let pm0 = start_subtrace pm in
      let count0 : length pm0.subtraces ≡ i + 1 =
        omega (arith, start_subtrace-length pm, ready.count) in
      let names = sym (start_subtrace-var_map pm) in
      rw (some_subcircuit, node_index i h, generate_constraints)
        (Returns-bind
          (node_subcircuit i pm0 h (omega arith) (subst (Nodes sha256 c k i) names ready.nodes)
            (subst (Placeholder sha256 c k i) names ready.waits))
          λ r d.
            let here : length r.0.subtraces ≡ i + 1 = d.0.count ∙ count0 in
            Returns-bind (set_placeholder-IsHeld i r.0 (omega arith) d.0.nodes d.0.waits) λ pm1 s.
              Returns-bind (placeholder_ops-Kept c.params pm1 some_portal (omega (arith, s.2)) s.1)
                λ pm2 kept. returns (finish_subcircuit i pm1 pm2 (s.2 ∙ here) s.0 s.1 kept, d.1))
