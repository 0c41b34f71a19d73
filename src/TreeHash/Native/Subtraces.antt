-- ===== src/TreeHash/Native/Subtraces.antt =====
-- The native run of `get_portal_subtraces` against the constraints of the subcircuits: the whole of it.
use native.Mathlib.Nat.{one-le-pow}
use hekaton_system.Prelude.{
  map, bind_assoc, bind_ext, bind_some, ℕ, zero, suc, ◌+◌, ◌-◌, ◌*◌, ◌^◌, ◌≤◌, ◌<◌, ◌≡◌, refl, sym,
  ap, ◌∙◌, Bool, true, false, some, Option, List, [], ◌∷◌, arith, length, ◌>>=◌, ◌==◌, get_or,
}
use hekaton_system.Field.{PrimeField}
use hekaton_system.Transcript.{TranscriptEntry, RomTranscriptEntry}
use hekaton_system.Portal.Rom.{start_subtrace, new_setup}
use hekaton_system.SparseTree.{Bytes, inner_hash_size}
use hekaton_system.TreeHash.Circuit.{MerkleTreeCircuit, num_subcircuits, calculate_root}
use hekaton_system.TreeHash.Constraints.{
  Setup, setup, generate_constraints, placeholder_ops, set_placeholder, leaf_subtrace,
  parent_subtrace, leaf_subtraces, parent_subtraces, record_subtraces, get_portal_subtraces,
}
use hekaton_system.TreeHash.Order.{first_of_level, index-decode}
use hekaton_system.TreeHash.Packing.{IsLeBits}
use hekaton_system.TreeHash.Root.{IsSha256}
use hekaton_system.TreeHash.Whole.{run_subcircuits, run_subcircuits-calculate_root}
use hekaton_system.TreeHash.Native.{forget, leaf_subtrace-forget, some_subcircuit}
use hekaton_system.TreeHash.Native.Parent.{parent_step, nodes_total}

plus_zero : (n : ℕ) → n + 0 ≡ n
plus_zero n = omega arith

zero_plus : (n : ℕ) → 0 + n ≡ n
zero_plus n = omega arith

plus_one : (m n : ℕ) → m + 1 + n ≡ m + suc n
plus_one m n = omega arith

module _ {ℓ} {F : Type ℓ} ⦃f : PrimeField F⦄ (sha256 : Bytes → Bytes) (to_bits_le : F → List Bool)
    (c : MerkleTreeCircuit) (k width : ℕ) (sha : IsSha256 sha256) (bits : IsLeBits to_bits_le width)
    (wide : 8 * inner_hash_size ≤ width) (size : length c.leaves ≡ 2 ^ k) (small : k < 31)
    (some_iteration : 0 < c.params.num_sha_iters_per_subcircuit) where
  abbrev run_from : ℕ → ℕ → Setup F → Option (Setup F)
  run_from i n pm = forget (run_subcircuits sha256 to_bits_le c i n pm)

  run_from-suc :
      (i n : ℕ) (pm : Setup F)
      → run_from i (suc n) pm ≡ (
          forget (generate_constraints sha256 to_bits_le setup c i (start_subtrace pm))
          >>= run_from (i + 1) n)
  unfolding run_subcircuits
  run_from-suc i n pm =
      let m = generate_constraints sha256 to_bits_le setup c i (start_subtrace pm) in
      bind_assoc m _ _
      ∙ bind_ext m _ _ (λ r. bind_assoc (run_subcircuits sha256 to_bits_le c (i + 1) n r.0) _ _)
      ∙ sym (bind_assoc m _ _)

  leaf_subtraces-run :
      (xs : List Bytes) (u n : ℕ) (pm : Setup F)
      → ((j : ℕ) → get_or c.leaves (u + j) [] ≡ get_or xs j [])
      → u + length xs ≡ 2 ^ k
      → (leaf_subtraces sha256 to_bits_le c u xs pm >>= run_from (2 ^ k) n)
        ≡ run_from u (length xs + n) pm
  unfolding leaf_subtraces
  leaf_subtraces-run [] u n pm h e =
      let here : 2 ^ k ≡ u = omega arith in
      let none_left : 0 + n ≡ n = omega arith in rw (here, none_left) refl
  leaf_subtraces-run (x ∷ xs) u n pm h e =
      let start : x ≡ get_or c.leaves u [] =
        sym (h 0) ∙ ap (λ (t : ℕ). get_or c.leaves t []) (plus_zero u) in
      let step = leaf_subtrace sha256 to_bits_le c u x pm in
      let count : suc (length xs + n) ≡ suc (length xs) + n = omega arith in
      let first : step
          ≡ forget (generate_constraints sha256 to_bits_le setup c u (start_subtrace pm)) =
        ap (λ (y : Bytes). leaf_subtrace sha256 to_bits_le c u y pm) start
        ∙ leaf_subtrace-forget sha256 to_bits_le c k width sha bits wide size small some_iteration u
            pm (omega arith) in
      bind_assoc step _ _
      ∙ bind_ext step _ _ (λ pm'.
        leaf_subtraces-run xs (u + 1) n pm'
          (λ j. ap (λ (t : ℕ). get_or c.leaves t []) (plus_one u j) ∙ h (suc j)) (omega arith))
      ∙ ap (λ (m : Option (Setup F)). m >>= run_from (u + 1) (length xs + n)) first
      ∙ sym (run_from-suc u (length xs + n) pm)
      ∙ ap (λ (t : ℕ). run_from u t pm) count

  parent_subtraces-run :
      (m i n : ℕ) (pm : Setup F)
      → 2 ^ k ≤ i
      → i + m ≡ first_of_level k (suc k)
      → (parent_subtraces sha256 to_bits_le c i m pm >>= run_from (first_of_level k (suc k)) n)
        ≡ run_from i (m + n) pm
  unfolding parent_subtraces
  parent_subtraces-run zero i n pm h e =
      let at : first_of_level k (suc k) ≡ i = omega arith in
      ap (λ (t : ℕ). run_from t n pm) at ∙ ap (λ (t : ℕ). run_from i t pm) (sym (zero_plus n))
  parent_subtraces-run (suc m) i n pm h e =
      let step = parent_subtrace sha256 to_bits_le c i pm in
      let count : suc (m + n) ≡ suc m + n = omega arith in
      let (l, u, a, b, at) = index-decode k i (suc k) (omega arith) (omega arith) in
      bind_assoc step _ _
      ∙ bind_ext step _ _ (λ pm'. parent_subtraces-run m (i + 1) n pm' (omega arith) (omega arith))
      ∙ ap (λ (o : Option (Setup F)). o >>= run_from (i + 1) (m + n))
          (parent_step sha256 to_bits_le c k width sha bits wide size small some_iteration l u i pm
            at (omega arith) b h (omega arith))
      ∙ sym (run_from-suc i (m + n) pm)
      ∙ ap (λ (t : ℕ). run_from i t pm) count

  generate_constraints-padding :
      (i : ℕ) (s : Setup F)
      → i + 1 ≡ num_subcircuits c
      → 0 < i
      → forget (generate_constraints sha256 to_bits_le setup c i s)
        ≡ placeholder_ops setup c.params s
  unfolding generate_constraints set_placeholder
  generate_constraints-padding i s e h =
      let last : (i == num_subcircuits c - 1) ≡ true = ground arith in
      let later : (i == 0) ≡ false = ground arith in
      rw
        (
          some_subcircuit sha256 to_bits_le c k width sha bits wide size small some_iteration,
          last,
          generate_constraints,
        )
        (rw (later, set_placeholder)
          (bind_assoc (placeholder_ops setup c.params s) _ _
            ∙ bind_some (placeholder_ops setup c.params s)))

  padding-run :
      (pm : Setup F)
      → run_from (first_of_level k (suc k)) 1 pm
        ≡ placeholder_ops setup c.params (start_subtrace pm)
  unfolding run_subcircuits
  padding-run pm =
      let last = first_of_level k (suc k) in
      let total = nodes_total sha256 to_bits_le c k width sha bits wide size small some_iteration in
      run_from-suc last 0 pm
      ∙ bind_some (forget (generate_constraints sha256 to_bits_le setup c last (start_subtrace pm)))
      ∙ generate_constraints-padding last (start_subtrace pm) total
          (omega (arith, size, one-le-pow k 2 (omega arith)))

  record_subtraces-run :
      record_subtraces sha256 to_bits_le c ≡ run_from 0 (num_subcircuits c) new_setup
  unfolding record_subtraces
  record_subtraces-run =
      let m = num_subcircuits c - 1 - length c.leaves in
      let total = nodes_total sha256 to_bits_le c k width sha bits wide size small some_iteration in
      let some_leaf = one-le-pow k 2 (omega arith) in
      let row = leaf_subtraces sha256 to_bits_le c 0 c.leaves new_setup in
      let count : length c.leaves + (m + 1) ≡ num_subcircuits c = omega (arith, size) in
      rw
        (
          some_subcircuit sha256 to_bits_le c k width sha bits wide size small some_iteration,
          record_subtraces,
        )
        (bind_ext row _ (run_from (2 ^ k) (m + 1)) (λ pm.
            let rest = parent_subtraces sha256 to_bits_le c (length c.leaves) m pm in
            bind_ext rest _ (run_from (first_of_level k (suc k)) 1) (λ pm'. sym (padding-run pm'))
            ∙ parent_subtraces-run m (length c.leaves) 1 pm (omega (arith, size))
                (omega (arith, size))
            ∙ ap (λ (i : ℕ). run_from i (m + 1) pm) size)
          ∙ leaf_subtraces-run c.leaves 0 (m + 1) new_setup
              (λ j. ap (λ (t : ℕ). get_or c.leaves t []) (zero_plus j)) (omega (arith, size))
          ∙ ap (λ (n : ℕ). run_from 0 n new_setup) count)

module _ {ℓ} {F : Type ℓ} ⦃f : PrimeField F⦄ where
  -- Take a circuit with 2^k leaves, k at most 30, and an iteration of SHA-256 at least; a hash with
  -- digests of 32 bytes; and a field whose elements have at least 216 binary digits. Then the run of
  -- `get_portal_subtraces`, which hashes natively, has the result of the constraints of all
  -- subcircuits in order: the same state of the coordinator's manager, or a panic in both.
  pub record_subtraces-run_subcircuits :
      (sha256 : Bytes → Bytes) (to_bits_le : F → List Bool) (c : MerkleTreeCircuit) (k width : ℕ)
      → IsSha256 sha256
      → IsLeBits to_bits_le width
      → 8 * inner_hash_size ≤ width
      → length c.leaves ≡ 2 ^ k
      → k < 31
      → 0 < c.params.num_sha_iters_per_subcircuit
      → record_subtraces sha256 to_bits_le c
        ≡ forget (run_subcircuits sha256 to_bits_le c 0 (num_subcircuits c) new_setup)
  record_subtraces-run_subcircuits sha256 to_bits_le c k width sha bits wide size small
        some_iteration =
      record_subtraces-run sha256 to_bits_le c k width sha bits wide size small some_iteration

  length-map_rom :
      (sts : List (List (RomTranscriptEntry F)))
      → length (map (map (TranscriptEntry.rom)) sts) ≡ length sts
  length-map_rom [] = refl
  length-map_rom (st ∷ sts) = ap suc (length-map_rom sts)

  -- Under the conditions of the two theorems on the whole tree, with a portal at least and the honest
  -- root, `get_portal_subtraces` returns, with one subtrace for each subcircuit.
  pub get_portal_subtraces-returns :
      (sha256 : Bytes → Bytes) (to_bits_le : F → List Bool) (c : MerkleTreeCircuit) (k width : ℕ)
      → IsSha256 sha256
      → IsLeBits to_bits_le width
      → 8 * inner_hash_size ≤ width
      → 2 ^ (8 * inner_hash_size) ≤ f.modulus
      → length c.leaves ≡ 2 ^ k
      → k < 31
      → 0 < c.params.num_sha_iters_per_subcircuit
      → 0 < c.params.num_portals_per_subcircuit
      → calculate_root sha256 c.leaves c.params ≡ some c.root_hash
      → (subtraces : List (List (TranscriptEntry F))) × (get_portal_subtraces sha256 to_bits_le c
          ≡ some subtraces)
        × (length subtraces ≡ num_subcircuits c)
  unfolding get_portal_subtraces
  get_portal_subtraces-returns sha256 to_bits_le c k width sha bits wide large size small
        some_iteration some_portal root =
      let (pm, ran, count, held) =
        run_subcircuits-calculate_root sha256 to_bits_le c k width sha bits wide large size small
          some_iteration some_portal root in
      let recorded : record_subtraces sha256 to_bits_le c ≡ some pm =
        record_subtraces-run_subcircuits sha256 to_bits_le c k width sha bits wide size small
          some_iteration
        ∙ ap (λ (o : Option (Setup F × Bool)). forget o) ran in
      (
        map (map TranscriptEntry.rom) pm.subtraces,
        rw (recorded, get_portal_subtraces) refl,
        length-map_rom pm.subtraces ∙ count,
      )
