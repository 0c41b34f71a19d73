-- ===== src/Vkd/Subtraces/Trace.antt =====
-- `get_portal_subtraces` of the key directory against a run of the constraints of all subcircuits.
use mathlib.Core.Option.{some-injective}
use hekaton_system.Prelude.{
  ℕ, zero, suc, ◌+◌, ◌*◌, ◌≡◌, ◌≢◌, refl, sym, ap, ◌∙◌, Bool, true, some, bind-inv, List, [], ◌∷◌,
  ◌&&◌, map, length, arith, get_elem?,
}
use hekaton_system.Prelude.Assoc.{lookup}
use hekaton_system.Field.{PrimeField}
use hekaton_system.Portal.Rom.{start_subtrace, new_setup}
use hekaton_system.SparseTree.{Bytes, InnerHash}
use hekaton_system.Transcript.{TranscriptEntry}
use hekaton_system.Vkd.Layout.{SubCircuit, vkd_update_to_subcircuit}
use hekaton_system.Vkd.Wire.{WireName, WireName-discrete}
use hekaton_system.Vkd.Constraints.{KeyDirectory, Setup, generate_constraints, run_subcircuits}
use hekaton_system.Vkd.Constraints.Native.{IsDigest, Suits}
use hekaton_system.Vkd.Subtraces.{
  NativeRun, native_primitives, native_subcircuits, record_subtraces, get_portal_subtraces,
}
use hekaton_system.Vkd.Subtraces.Agree.{Agrees, Agrees-Later}
use hekaton_system.Vkd.Subtraces.Run.{subcircuit-Follows}

lookup-none {ℓ} : {V : Type ℓ} (k : WireName) (v : V) → lookup WireName-discrete k [] ≢ some v
unfolding lookup
lookup-none k v h = cc

module _ {ℓ} {F : Type ℓ} ⦃f : PrimeField F⦄ (hash : Bytes → Bytes)
    (hash_inner_node : InnerHash → InnerHash → InnerHash) (hash_inner_node_var : F → F → F)
    (to_bits_le : F → List Bool) (depth width k : ℕ)
    (s : Suits hash hash_inner_node hash_inner_node_var to_bits_le depth width)
    (chunks : depth ≡ 32 * k) (c : KeyDirectory) (di : IsDigest c.circuit.initial_root)
    (df : IsDigest c.circuit.final_root) (dn : IsDigest c.params.null_leaf) where
  subcircuits-Follows :
      (idx left : ℕ) (scs : List SubCircuit) (st st' : NativeRun F)
      → ((j : ℕ) → get_elem? c.subcircuits (idx + j) ≡ get_elem? scs j)
      → left ≡ length scs
      → native_subcircuits hash hash_inner_node depth c scs st ≡ some st'
      → Agrees (8 * k) st
      → (holds : Bool) × (run_subcircuits hash hash_inner_node_var to_bits_le depth c idx left st.pm
          ≡ some (st'.pm, holds))
  unfolding native_subcircuits run_subcircuits generate_constraints start_subtrace
  subcircuits-Follows idx zero [] st st' at l h a =
      (true, ap (λ (x : NativeRun F). some (x.pm, true)) (some-injective _ _ h))
  subcircuits-Follows idx (suc left) [] st st' at l h a = absurd (omega arith)
  subcircuits-Follows idx zero (sc ∷ scs) st st' at l h a = absurd (omega arith)
  subcircuits-Follows idx (suc left) (sc ∷ scs) st st' at l h a =
      let opened : NativeRun F = record st { pm = start_subtrace st.pm } in
      let (s1, g, h1) = bind-inv (native_primitives hash hash_inner_node depth c sc opened) _ h in
      let a0 : Agrees (8 * k) opened =
        Agrees-Later (8 * k) st (start_subtrace st.pm) (λ j w q. q) a in
      let (holds, a1, e) =
        subcircuit-Follows hash hash_inner_node hash_inner_node_var to_bits_le depth width k s
          chunks c di df dn sc opened s1 g a0 in
      let here : get_elem? c.subcircuits idx ≡ some sc =
        ap (get_elem? c.subcircuits) (omega arith) ∙ at 0 in
      let (rest, e') =
        subcircuits-Follows (idx + 1) left scs s1 st'
          (λ j. ap (get_elem? c.subcircuits) (omega arith) ∙ at (suc j)) (omega arith) h1 a1 in
      (
        holds && rest,
        rw (here, run_subcircuits) (rw (e, run_subcircuits) (rw (e', run_subcircuits) refl)),
      )

  -- Let the hash have 32 bytes, the hash of two nodes be an inner hash whose field element is the value
  -- assigned to its gadget's result, `to_bits_le` give the digits of a field element, at least 216 and always as many, and
  -- the field have at least 2^216 elements.
  -- Let the depth be a multiple of 32 up to 256, let the subcircuits be those of the updates, and let the two
  -- roots and the null leaf be inner hashes. If `get_portal_subtraces`, which works on native hashes,
  -- returns, then the constraints of all subcircuits in order, with the coordinator's manager, run
  -- without a panic too, and their trace has the same subtraces.
  pub get_portal_subtraces-run_subcircuits :
      (subtraces : List (List (TranscriptEntry F)))
      → vkd_update_to_subcircuit c.circuit.updates ≡ some c.subcircuits
      → get_portal_subtraces hash hash_inner_node depth c ≡ some subtraces
      → (pm : Setup F) × (holds : Bool) × (run_subcircuits hash hash_inner_node_var to_bits_le depth
            c 0
            (length c.subcircuits)
            new_setup
          ≡ some (pm, holds))
        × (map (map TranscriptEntry.rom) pm.subtraces ≡ subtraces)
  unfolding get_portal_subtraces record_subtraces
  get_portal_subtraces-run_subcircuits subtraces built h =
      let (st, g, h1) = bind-inv (record_subtraces hash hash_inner_node depth c) _ h in
      let (scs, b, g1) = bind-inv (vkd_update_to_subcircuit c.circuit.updates) _ g in
      let same : scs ≡ c.subcircuits = some-injective _ _ (sym b ∙ built) in
      let (holds, e) =
        subcircuits-Follows 0 (length c.subcircuits) scs
          (record { pm = new_setup; index_memory = []; inner_node_memory = [] }) st
          (λ j. ap (get_elem? c.subcircuits) (omega arith) ∙ ap (λ x. get_elem? x j) (sym same))
          (ap length (sym same)) g1
          (λ n d q. absurd (lookup-none n d q), λ n d q. absurd (lookup-none n d q)) in
      (st.pm, holds, e, some-injective _ _ h1)
