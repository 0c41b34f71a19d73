-- ===== src/TreeHash/Progress.antt =====
-- The wires that are set after a number of subcircuits, and that setting the next one keeps this so.
use hekaton_system.Prelude.{
  ℕ, zero, suc, ◌+◌, ◌-◌, ◌*◌, ◌^◌, ◌≤◌, ◌<◌, ◌≡◌, ◌≢◌, refl, sym, ap, ◌∙◌, none, List, [], ◌++◌,
  take, get_or, arith, ℕ_discrete,
}
use hekaton_system.Prelude.Assoc.{lookup}
use hekaton_system.Field.{PrimeField}
use hekaton_system.Transcript.{RomTranscriptEntry}
use hekaton_system.Portal.Rom.{SetupRomPortalManager}
use hekaton_system.Portal.Rom.Calls.{Holds, Sets, Sets-Holds, Sets-others, Holds-transfer}
use hekaton_system.SparseTree.{Bytes, inner_hash_size}
use hekaton_system.TreeHash.Circuit.{
  WireName, WireName-discrete, node_hash, placeholder, MerkleTreeCircuit, iterate_sha256,
}
use hekaton_system.TreeHash.Digest.{digest_to_fpvar}
use hekaton_system.TreeHash.Level.{node_number}
use hekaton_system.TreeHash.Order.{first_of_level, node_number-injective, index-injective}

-- The digest of the node at a place of a level: of the leaf, or of the digests below.
module _ (sha256 : Bytes → Bytes) (c : MerkleTreeCircuit) where
  abbrev pub digest_of : Bytes → Bytes
  digest_of input =
      take inner_hash_size (iterate_sha256 sha256 c.params.num_sha_iters_per_subcircuit input)

  abbrev pub node_digest : ℕ → ℕ → Bytes
  node_digest zero u = digest_of (get_or c.leaves u [])
  node_digest (suc l) u = digest_of (node_digest l (2 * u) ++ node_digest l (2 * u + 1))

number_of : WireName → ℕ
number_of (node_hash n) = n
number_of placeholder = 0

pub node_hash-injective : (m n : ℕ) → node_hash m ≡ node_hash n → m ≡ n
unfolding number_of
node_hash-injective m n e = ap number_of e

is_node : WireName → ℕ
is_node (node_hash n) = 1
is_node placeholder = 0

pub placeholder-node_hash : (n : ℕ) → placeholder ≢ node_hash n
unfolding is_node
placeholder-node_hash n e = let p = ap is_node e in absurd (omega arith)

abbrev pub node : ℕ → ℕ → WireName
node l u = node_hash (node_number l u)

abbrev pub Names {ℓ} : Type ℓ → Type ℓ
Names F = List (WireName × RomTranscriptEntry F)

abbrev pub IsHeld {ℓ} : {F : Type ℓ} → Names F → WireName → F → Type ℓ
IsHeld m name v = Holds WireName-discrete m name v

other_name :
    (k l u l' u' : ℕ) → first_of_level k l + u ≢ first_of_level k l' + u' → node l u ≢ node l' u'
other_name k l u l' u' ne e =
    let (p, q) = node_number-injective l u l' u' (node_hash-injective _ _ e) in ne (rw (p, q) refl)

module _ {ℓ} {F : Type ℓ} ⦃f : PrimeField F⦄ (sha256 : Bytes → Bytes) (c : MerkleTreeCircuit)
    (k : ℕ) where
  abbrev pub wire_value : ℕ → ℕ → F
  wire_value l u = digest_to_fpvar (node_digest sha256 c l u)

  -- After `i` subcircuits the nodes that come first are set to their digests, the others are not.
  pub record Nodes (i : ℕ) (m : Names F) : Type ℓ where
    pub done :
        (l u : ℕ)
        → l ≤ k
        → u < 2 ^ (k - l)
        → first_of_level k l + u < i
        → IsHeld m (node l u) (wire_value l u)
    pub free :
        (l u : ℕ)
        → l ≤ k
        → u < 2 ^ (k - l)
        → i ≤ first_of_level k l + u
        → lookup WireName-discrete (node l u) m ≡ none

  -- The placeholder is set by the first subcircuit.
  pub record Placeholder (i : ℕ) (m : Names F) : Type ℓ where
    pub held : 0 < i → IsHeld m placeholder f.zero_elem
    pub idle : i ≡ 0 → lookup WireName-discrete placeholder m ≡ none

  pub Nodes-Sets :
      (l u : ℕ) (pm pm' : SetupRomPortalManager WireName F)
      → l ≤ k
      → u < 2 ^ (k - l)
      → Nodes (first_of_level k l + u) pm.var_map
      → Sets WireName-discrete (node l u) (wire_value l u) pm pm'
      → Nodes (first_of_level k l + u + 1) pm'.var_map
  Nodes-Sets l u pm pm' h p n s = record {
    done = λ l' u' a b c. elim (ℕ_discrete (first_of_level k l + u) (first_of_level k l' + u')) [
      | yes e ↦
          let (x, y) = index-injective k l u l' u' p b e in
          rw (sym x, sym y) (Sets-Holds WireName-discrete (node l u) (wire_value l u) pm pm' s)
      | no ne ↦
          Holds-transfer WireName-discrete pm.var_map pm'.var_map (node l' u') (wire_value l' u')
            (Sets-others WireName-discrete (node l u) (wire_value l u) pm pm' (node l' u') s
              (other_name k l u l' u' ne))
            (n.done l' u' a b (omega arith))
    ];
    free = λ l' u' a b c.
        Sets-others WireName-discrete (node l u) (wire_value l u) pm pm' (node l' u') s
          (other_name k l u l' u' (λ e. omega arith))
        ∙ n.free l' u' a b (omega arith);
  }

  pub Placeholder-Sets :
      (i n : ℕ) (v : F) (pm pm' : SetupRomPortalManager WireName F)
      → Placeholder i pm.var_map
      → Sets WireName-discrete (node_hash n) v pm pm'
      → Placeholder i pm'.var_map
  Placeholder-Sets i n v pm pm' p s =
      let same =
        Sets-others WireName-discrete (node_hash n) v pm pm' placeholder s
          (λ e. placeholder-node_hash n (sym e)) in
      record {
        held = λ h.
            Holds-transfer WireName-discrete pm.var_map pm'.var_map placeholder f.zero_elem same
              (p.held h);
        idle = λ e. same ∙ p.idle e;
      }

  pub Nodes-placeholder :
      (i : ℕ) (v : F) (pm pm' : SetupRomPortalManager WireName F)
      → Nodes i pm.var_map
      → Sets WireName-discrete placeholder v pm pm'
      → Nodes i pm'.var_map
  Nodes-placeholder i v pm pm' n s =
      let same = λ (m : ℕ).
        Sets-others WireName-discrete placeholder v pm pm' (node_hash m) s
          (placeholder-node_hash m) in
      record {
        done = λ l u a b q.
            Holds-transfer WireName-discrete pm.var_map pm'.var_map (node l u) (wire_value l u)
              (same (node_number l u)) (n.done l u a b q);
        free = λ l u a b q. same (node_number l u) ∙ n.free l u a b q;
      }
