-- ===== src/Vkd/Constraints/Sound.antt =====
-- A run of the directory's subcircuits whose constraints hold, and `verify` of vkd/vkd.rs.
use mathlib.Core.Option.{some-injective}
use hekaton_system.Prelude.{
  ◌≢◌, ℕ, suc, ◌+◌, ◌<◌, ◌≡◌, refl, sym, ap, ◌∙◌, true, Bool, some, none, List, [], ◌∷◌, ◌++◌,
  length, replicate, get_elem?, All, All-get_elem?, arith, bind-inv, subst,
}
use hekaton_system.Field.{PrimeField}
use hekaton_system.Prelude.Assoc.{lookup}
use hekaton_system.Portal.Rom.{new_setup}
use hekaton_system.SparseTree.{Bytes, InnerHash}
use hekaton_system.TreeHash.Digest.{of_le_bytes, input_digest, digest_to_fpvar}
use hekaton_system.TreeHash.Packing.{input_digest-digest_to_fpvar}
use hekaton_system.Vkd.{Update, update, append, verify_updates, verify_circuit}
use hekaton_system.Vkd.Chain.{bytes_eq_refl}
use hekaton_system.Vkd.Layout.{
  get_previous_root_from_update_idx, update_subcircuits, all_subcircuits, vkd_update_to_subcircuit,
  with_ends, SubCircuit, padding, write_public_parameter,
}
use hekaton_system.Vkd.Wire.{WireName, node_wire, null_leaf, initial_root}
use hekaton_system.Vkd.Constraints.{KeyDirectory, Setup, leaf_digest, run_subcircuits}
use hekaton_system.Vkd.Constraints.Satisfied.{value, AllFit}
use hekaton_system.Vkd.Constraints.Run.{Roots, Sats, run_subcircuits-Sats}
use hekaton_system.Vkd.Constraints.Native.{IsDigest, input_digest-injective, Suits}
use hekaton_system.Vkd.Constraints.Step.{Wired, Steps, append-Steps, update-Steps}
use hekaton_system.Vkd.Constraints.Built.{IsFull}
use hekaton_system.Vkd.Constraints.Roots.{ends-Roots}

All-split {ℓ κ} :
    {A : Type ℓ} (P : A → Type κ) (xs ys : List A) → All P (xs ++ ys) → All P xs × All P ys
All-split P [] ys a = (tt, a)
All-split P (x ∷ xs) ys (p, a) = let (l, r) = All-split P xs ys a in ((p, l), r)

module _ {ℓ} {F : Type ℓ} ⦃f : PrimeField F⦄ (hash : Bytes → Bytes)
    (hash_inner_node : InnerHash → InnerHash → InnerHash) (hash_inner_node_var : F → F → F)
    (to_bits_le : F → List Bool) (depth width : ℕ)
    (s : Suits hash hash_inner_node hash_inner_node_var to_bits_le depth width) (c : KeyDirectory)
    (pm : Setup F) (all : AllFit hash depth pm) where
  abbrev IsWired : SubCircuit → Type ℓ
  IsWired = Wired hash hash_inner_node hash_inner_node_var to_bits_le depth width s c pm all

  step-Steps :
      (update_idx : ℕ) (u : Update) (scs : List SubCircuit) (r : InnerHash)
      → update_subcircuits update_idx u ≡ some scs
      → All IsWired scs
      → IsFull depth u
      → IsDigest r
      → IsDigest c.params.null_leaf
      → value pm null_leaf ≡ some (digest_to_fpvar c.params.null_leaf)
      → value pm (node_wire (get_previous_root_from_update_idx update_idx)) ≡ some (input_digest r)
      → Steps hash hash_inner_node hash_inner_node_var to_bits_le depth width s c pm all update_idx
          u r
  step-Steps update_idx (update u) scs r h wired full d dn hn hr =
      update-Steps hash hash_inner_node hash_inner_node_var to_bits_le depth width s c pm all
        update_idx u.counter u.username u.key1 u.key2 u.path scs r h wired full d hr
  step-Steps update_idx (append u) scs r h wired full d dn hn hr =
      append-Steps hash hash_inner_node hash_inner_node_var to_bits_le depth width s c pm all
        update_idx u.username u.key u.path scs r h wired full d dn hn hr

  -- The roots that `verify` goes through are those that the wires hold.
  updates-Steps :
      (update_idx last : ℕ) (us : List Update) (scs : List SubCircuit) (r : InnerHash)
      → all_subcircuits update_idx us ≡ some scs
      → update_idx + length us ≡ last
      → All IsWired scs
      → All (IsFull depth) us
      → IsDigest r
      → IsDigest c.params.null_leaf
      → value pm null_leaf ≡ some (digest_to_fpvar c.params.null_leaf)
      → value pm (node_wire (get_previous_root_from_update_idx update_idx)) ≡ some (input_digest r)
      → (r' : InnerHash) × (verify_updates hash of_le_bytes
            (leaf_digest hash)
            hash_inner_node
            depth
            c.params.null_leaf
            true
            r
            us
          ≡ some (true, r'))
        × IsDigest r'
        × (value pm (node_wire (get_previous_root_from_update_idx last)) ≡ some (input_digest r'))
  unfolding all_subcircuits verify_updates get_previous_root_from_update_idx node_wire
  updates-Steps update_idx last [] scs r h e wired full d dn hn hr =
      let same : update_idx ≡ last = omega arith in
      (
        r,
        refl,
        d,
        subst
            (λ i.
              value pm (node_wire (get_previous_root_from_update_idx i)) ≡ some (input_digest r))
            same hr,
      )
  updates-Steps update_idx last (u ∷ us) scs r h e wired (fu, full) d dn hn hr =
      let (now, g, h1) =
        bind-inv (update_subcircuits update_idx u)
          (λ scs. elim (all_subcircuits (suc update_idx) us) [
            | none ↦ none
            | some rest ↦ some (scs ++ rest)
          ])
          h in
      let (rest, g', h2) =
        bind-inv (all_subcircuits (suc update_idx) us) (λ rest. some (now ++ rest)) h1 in
      let same : scs ≡ now ++ rest = ground arith in
      let (wn, wr) = All-split IsWired now rest (subst (All IsWired) same wired) in
      let (r1, v, d1, hr1) = step-Steps update_idx u now r g wn fu d dn hn hr in
      let (r', vs, d', hr') =
        updates-Steps (suc update_idx) last us rest r1 g' (omega arith) wr full d1 dn hn hr1 in
      (r', rw (v, verify_updates) vs, d', hr')

  -- The roots of `verify`, and the wires at the two ends.
  ends-verify :
      (u : Update) (us : List Update) (scs : List SubCircuit)
      → c.circuit.updates ≡ u ∷ us
      → all_subcircuits 0 (u ∷ us) ≡ some scs
      → All IsWired (with_ends (length (u ∷ us)) scs)
      → All (IsFull depth) (u ∷ us)
      → IsDigest c.circuit.initial_root
      → IsDigest c.circuit.final_root
      → IsDigest c.params.null_leaf
      → verify_circuit hash of_le_bytes
          (leaf_digest hash)
          hash_inner_node
          depth
          c.circuit
          c.params.null_leaf
        ≡ some true
  unfolding verify_circuit node_wire get_previous_root_from_update_idx
  ends-verify u us scs e g wired full di df dn =
      let (front, (((v, at_end, last), t0), t)) =
        All-split IsWired (replicate 6 (padding ∷ []) ++ ((write_public_parameter ∷ []) ∷ scs)) _
          wired in
      let (pads, (((hi, hf, hn), t'), inner)) =
        All-split IsWired (replicate 6 (padding ∷ [])) ((write_public_parameter ∷ []) ∷ scs)
          front in
      let hi' : value pm initial_root ≡ some (input_digest c.circuit.initial_root) =
        hi ∙ ap some (sym (input_digest-digest_to_fpvar c.circuit.initial_root di.0 di.1)) in
      let (r, vs, d, hr) =
        updates-Steps 0 (length (u ∷ us)) (u ∷ us) scs c.circuit.initial_root g (omega arith) inner
          full di dn hn hi' in
      let final_is = input_digest-digest_to_fpvar {F = F} c.circuit.final_root df.0 df.1 in
      let same : ◌≡◌ {A = F} (input_digest r) (input_digest c.circuit.final_root) = ground arith in
      let root : r ≡ c.circuit.final_root =
        input_digest-injective r c.circuit.final_root d df s.large same in
      rw (e, verify_circuit)
        (rw (vs, verify_circuit) (rw root (rw (bytes_eq_refl c.circuit.final_root) refl)))

new_setup-none {ℓ} : {F : Type ℓ} (k : WireName) (v : F) → value new_setup k ≢ some v
unfolding lookup
new_setup-none k v h = cc

get_elem?-All {ℓ κ} :
    {A : Type ℓ} (P : A → Type κ) (xs : List A)
    → ((j : ℕ) (x : A) → j < length xs → get_elem? xs j ≡ some x → P x)
    → All P xs
get_elem?-All P [] h = tt
get_elem?-All P (x ∷ xs) h =
    (h 0 x (omega arith) refl, get_elem?-All P xs (λ j y l g. h (suc j) y (omega arith) g))

module _ {ℓ} {F : Type ℓ} ⦃f : PrimeField F⦄ (hash : Bytes → Bytes)
    (hash_inner_node : InnerHash → InnerHash → InnerHash) (hash_inner_node_var : F → F → F)
    (to_bits_le : F → List Bool) (depth width : ℕ)
    (s : Suits hash hash_inner_node hash_inner_node_var to_bits_le depth width) where
  built-verify :
      (c : KeyDirectory) (us : List Update) (pm : Setup F)
      → c.circuit.updates ≡ us
      → vkd_update_to_subcircuit us ≡ some c.subcircuits
      → All (IsFull depth) us
      → IsDigest c.circuit.initial_root
      → IsDigest c.circuit.final_root
      → IsDigest c.params.null_leaf
      → run_subcircuits hash hash_inner_node_var to_bits_le depth c 0
          (length c.subcircuits)
          new_setup
        ≡ some (pm, true)
      → verify_circuit hash of_le_bytes
          (leaf_digest hash)
          hash_inner_node
          depth
          c.circuit
          c.params.null_leaf
        ≡ some true
  unfolding vkd_update_to_subcircuit
  built-verify c [] pm e built full di df dn run = ground arith
  built-verify c (u ∷ us) pm e built full di df dn run =
      let (scs, g, h1) =
        bind-inv (all_subcircuits 0 (u ∷ us)) (λ scs. some (with_ends (length (u ∷ us)) scs))
          built in
      let whole : with_ends (length (u ∷ us)) scs ≡ c.subcircuits = some-injective _ _ h1 in
      let roots : All (Roots hash hash_inner_node_var to_bits_le depth c) c.subcircuits =
        subst (All (Roots hash hash_inner_node_var to_bits_le depth c)) whole (
          ends-Roots hash hash_inner_node hash_inner_node_var to_bits_le depth width s c u us scs g
            full) in
      let (sats, later, all) =
        run_subcircuits-Sats hash hash_inner_node_var to_bits_le depth c 0 (length c.subcircuits)
          new_setup pm
          (λ j sc g.
            All-get_elem? (Roots hash hash_inner_node_var to_bits_le depth c) c.subcircuits j sc
              roots g)
          run (λ k v h. absurd (new_setup-none k v h)) in
      let wired : All (Sats hash hash_inner_node_var to_bits_le depth c pm) c.subcircuits =
        get_elem?-All (Sats hash hash_inner_node_var to_bits_le depth c pm) c.subcircuits
          (λ j sc l g. sats j sc (omega arith) (omega arith) g) in
      ends-verify hash hash_inner_node hash_inner_node_var to_bits_le depth width s c pm all u us
        scs e g
        (subst (All (Sats hash hash_inner_node_var to_bits_le depth c pm)) (sym whole) wired) full
        di df dn

  -- With what `Suits` asks, of the assignment of the inner hashes too, a run of all subcircuits in
  -- which every constraint holds shows that `verify` of the circuit returns true.
  pub run_subcircuits-verify_circuit :
      (c : KeyDirectory) (pm : Setup F)
      → vkd_update_to_subcircuit c.circuit.updates ≡ some c.subcircuits
      → All (IsFull depth) c.circuit.updates
      → IsDigest c.circuit.initial_root
      → IsDigest c.circuit.final_root
      → IsDigest c.params.null_leaf
      → run_subcircuits hash hash_inner_node_var to_bits_le depth c 0
          (length c.subcircuits)
          new_setup
        ≡ some (pm, true)
      → verify_circuit hash of_le_bytes
          (leaf_digest hash)
          hash_inner_node
          depth
          c.circuit
          c.params.null_leaf
        ≡ some true
  run_subcircuits-verify_circuit c pm built full di df dn run =
      built-verify c c.circuit.updates pm refl built full di df dn run
