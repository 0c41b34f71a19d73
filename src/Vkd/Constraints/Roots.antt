-- ===== src/Vkd/Constraints/Roots.antt =====
-- The paths of the directory's subcircuits end in wires for roots.
use mathlib.Core.Option.{some-injective}
use hekaton_system.Prelude.{
  ℕ, suc, ◌/◌, ◌≡◌, sym, ◌∙◌, Bool, some, none, List, [], ◌∷◌, ◌++◌, length, replicate, All,
  All-append, arith, bind-inv, subst,
}
use hekaton_system.Field.{PrimeField}
use hekaton_system.SparseTree.{Bytes, InnerHash}
use hekaton_system.Vkd.{Update, update, append}
use hekaton_system.Vkd.Layout.{
  update_subcircuits, all_subcircuits, with_ends, SubCircuit, padding, write_public_parameter,
}
use hekaton_system.Vkd.Constraints.{KeyDirectory}
use hekaton_system.Vkd.Constraints.Run.{Roots}
use hekaton_system.Vkd.Constraints.Quarters.{quarters}
use hekaton_system.Vkd.Constraints.Native.{Suits}
use hekaton_system.Vkd.Constraints.Built.{IsFull, append_built, update_built}

module _ {ℓ} {F : Type ℓ} ⦃f : PrimeField F⦄ (hash : Bytes → Bytes)
    (hash_inner_node : InnerHash → InnerHash → InnerHash) (hash_inner_node_var : F → F → F)
    (to_bits_le : F → List Bool) (depth width : ℕ)
    (s : Suits hash hash_inner_node hash_inner_node_var to_bits_le depth width)
    (c : KeyDirectory) where
  update-Roots :
      (update_idx : ℕ) (u : Update) (scs : List SubCircuit)
      → update_subcircuits update_idx u ≡ some scs
      → IsFull depth u
      → All (Roots hash hash_inner_node_var to_bits_le depth c) scs
  update-Roots update_idx (update u) scs h ((ln, l1, l2), lp) =
      let q = quarters u.path (depth / 4) (lp ∙ omega (arith, s.bytes)) in
      let built =
        update_built update_idx (depth / 4) u.counter u.username u.key1 u.key2 u.path q ln l1 l2 in
      let same : _ ≡ scs = some-injective _ _ (sym built ∙ h) in
      subst (All (Roots hash hash_inner_node_var to_bits_le depth c)) same (
        (tt, tt),
        (
          (tt, tt),
          ((tt, tt), ((tt, tt), ((tt, (tt, (tt, tt))), ((tt, tt), ((tt, tt), ((tt, tt), tt)))))),
        ),
      )
  update-Roots update_idx (append u) scs h ((ln, lk), lp) =
      let q = quarters u.path (depth / 4) (lp ∙ omega (arith, s.bytes)) in
      let built = append_built update_idx (depth / 4) u.username u.key u.path q ln lk in
      let same : _ ≡ scs = some-injective _ _ (sym built ∙ h) in
      subst (All (Roots hash hash_inner_node_var to_bits_le depth c)) same (
        (tt, (tt, (tt, tt))),
        (
          (tt, tt),
          ((tt, tt), ((tt, (tt, tt)), ((tt, tt), ((tt, tt), ((tt, tt), ((tt, tt), tt)))))),
        ),
      )

  updates-Roots :
      (update_idx : ℕ) (us : List Update) (scs : List SubCircuit)
      → all_subcircuits update_idx us ≡ some scs
      → All (IsFull depth) us
      → All (Roots hash hash_inner_node_var to_bits_le depth c) scs
  unfolding all_subcircuits
  updates-Roots update_idx [] scs h full =
      let same : [] ≡ scs = ground arith in
      subst (All (Roots hash hash_inner_node_var to_bits_le depth c)) same tt
  updates-Roots update_idx (u ∷ us) scs h (fu, full) =
      let (now, g, h1) =
        bind-inv (update_subcircuits update_idx u)
          (λ scs. elim (all_subcircuits (suc update_idx) us) [
            | none ↦ none
            | some rest ↦ some (scs ++ rest)
          ])
          h in
      let (rest, g', h2) =
        bind-inv (all_subcircuits (suc update_idx) us) (λ rest. some (now ++ rest)) h1 in
      let same : now ++ rest ≡ scs = ground arith in
      subst (All (Roots hash hash_inner_node_var to_bits_le depth c)) same (
        All-append (Roots hash hash_inner_node_var to_bits_le depth c) now rest
          (update-Roots update_idx u now g fu) (updates-Roots (suc update_idx) us rest g' full))

  pub ends-Roots :
      (u : Update) (us : List Update) (scs : List SubCircuit)
      → all_subcircuits 0 (u ∷ us) ≡ some scs
      → All (IsFull depth) (u ∷ us)
      → All (Roots hash hash_inner_node_var to_bits_le depth c) (with_ends (length (u ∷ us)) scs)
  ends-Roots u us scs g full =
      let IsOk = Roots hash hash_inner_node_var to_bits_le depth c in
      let inner = updates-Roots 0 (u ∷ us) scs g full in
      let pads : All IsOk (replicate 6 (padding ∷ [])) =
        ((tt, tt), ((tt, tt), ((tt, tt), ((tt, tt), ((tt, tt), ((tt, tt), tt)))))) in
      All-append IsOk (replicate 6 (padding ∷ []) ++ ((write_public_parameter ∷ []) ∷ scs)) _
        (All-append IsOk (replicate 6 (padding ∷ [])) ((write_public_parameter ∷ []) ∷ scs) pads
          ((tt, tt), inner))
        ((tt, tt), tt)
