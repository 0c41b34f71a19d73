-- ===== src/Coordinator/Leaves.antt =====
-- The leaves of the execution tree, as products over the subtraces.
use mathlib.Core.List.{Perm}
use mathlib.Core.List.Perm
use hekaton_system.Prelude.{
  suc, ◌≡◌, refl, sym, ap, ap₂, ◌∙◌, true, some, List, [], ◌∷◌, map, flatten, arith, length, All,
  All-imp,
}
use hekaton_system.Field.{PrimeField}
use hekaton_system.Transcript.{
  TranscriptEntry, RunningEvaluation, time_ordered_eval, addr_ordered_eval,
}
use hekaton_system.Transcript.Product.{
  fits, weight, scale, product-perm, update-scale, trace_product, trace_product-scale,
  trace_product-append, fits-scale, scale_one, scale-scale,
}
use hekaton_system.EvalTree.{ExecTreeLeaf}
use hekaton_system.Coordinator.{eval_subtrace, exec_tree_leaves}

module _ {ℓ} {F : Type ℓ} ⦃f : PrimeField F⦄ where
  -- The last evaluations of a run over leaves, and the last entry of a subtrace.
  abbrev pub last_evals : RunningEvaluation F → List (ExecTreeLeaf F) → RunningEvaluation F
  last_evals ev [] = ev
  last_evals ev (l ∷ ls) = last_evals l.evals ls

  abbrev last_or : TranscriptEntry F → List (TranscriptEntry F) → TranscriptEntry F
  last_or e [] = e
  last_or e (x ∷ xs) = last_or x xs

  -- Every entry of a trace fits the evaluations.
  abbrev pub AllFit : RunningEvaluation F → List (TranscriptEntry F) → Type 0
  AllFit ev l = All (λ e. fits ev e ≡ true) l

  AllFit-scale :
      (s t : F) (ev : RunningEvaluation F) (l : List (TranscriptEntry F))
      → AllFit ev l
      → AllFit (scale s t ev) l
  AllFit-scale s t ev l a =
      All-imp (λ e. fits ev e ≡ true) (λ e. fits (scale s t ev) e ≡ true)
        (λ e h. fits-scale s t ev e ∙ h) l a

  -- The products of a first entry or subtrace and of the rest scale one after the other.
  scale_step :
      (s u : F) (ev : RunningEvaluation F) (ts xs : List (TranscriptEntry F))
      → scale (trace_product (scale s u ev) ts) (trace_product (scale s u ev) xs) (scale s u ev)
        ≡ scale (f.mul s (trace_product ev ts)) (f.mul u (trace_product ev xs)) ev
  scale_step s u ev ts xs =
      rw (trace_product-scale s u ev ts, trace_product-scale s u ev xs)
        (scale-scale s u (trace_product ev ts) (trace_product ev xs) ev)

  eval_subtrace-scale :
      (ev : RunningEvaluation F) (last : TranscriptEntry F) (ts xs : List (TranscriptEntry F))
      → length ts ≡ length xs
      → AllFit ev ts
      → AllFit ev xs
      → eval_subtrace ev last ts xs
        ≡ some (scale (trace_product ev ts) (trace_product ev xs) ev, last_or last xs)
  unfolding eval_subtrace
  eval_subtrace-scale ev last [] [] e a b = rw (scale_one ev) refl
  eval_subtrace-scale ev last [] (x ∷ xs) e a b = absurd (omega arith)
  eval_subtrace-scale ev last (t ∷ ts) [] e a b = absurd (omega arith)
  eval_subtrace-scale ev last (t ∷ ts) (x ∷ xs) e a b =
      let (ev', p, q) = update-scale ev t x a.0 b.0 in
      let s = weight ev t in
      let u = weight ev x in
      rw (p, eval_subtrace)
        (rw (q, eval_subtrace)
          (eval_subtrace-scale (scale s u ev) x ts xs (omega arith) (AllFit-scale s u ev ts a.1)
              (AllFit-scale s u ev xs b.1)
            ∙ ap (λ z. some (z, last_or x xs)) (scale_step s u ev ts xs)))

  AllFit-scale_all :
      (s t : F) (ev : RunningEvaluation F) (ls : List (List (TranscriptEntry F)))
      → All (AllFit ev) ls
      → All (AllFit (scale s t ev)) ls
  AllFit-scale_all s t ev ls a =
      All-imp (AllFit ev) (AllFit (scale s t ev)) (λ l. AllFit-scale s t ev l) ls a

  -- What holds of the leaves that a run over the subtraces pushes.
  abbrev Pushes :
      RunningEvaluation F
      → List (List (TranscriptEntry F))
      → List (List (TranscriptEntry F))
      → List (ExecTreeLeaf F)
      → Type ℓ
  Pushes ev tss xss leaves =
      (length leaves ≡ length tss)
      × (last_evals ev leaves
          ≡ scale (trace_product ev (flatten tss)) (trace_product ev (flatten xss)) ev)

  exec_tree_leaves-Pushes :
      (ev : RunningEvaluation F) (last : TranscriptEntry F)
      (tss xss : List (List (TranscriptEntry F)))
      → map length tss ≡ map length xss
      → All (AllFit ev) tss
      → All (AllFit ev) xss
      → (leaves : List (ExecTreeLeaf F)) × (exec_tree_leaves ev last tss xss ≡ some leaves)
        × Pushes ev tss xss leaves
  unfolding exec_tree_leaves flatten
  exec_tree_leaves-Pushes ev last [] [] e a b = ([], refl, (refl, sym (scale_one ev)))
  exec_tree_leaves-Pushes ev last [] (x ∷ xss) e a b = cc
  exec_tree_leaves-Pushes ev last (t ∷ tss) [] e a b = cc
  exec_tree_leaves-Pushes ev last (t ∷ tss) (x ∷ xss) e a b =
      let s = trace_product ev t in
      let u = trace_product ev x in
      let head_eq : length t ≡ length x = cc in
      let tail_eq : map length tss ≡ map length xss = cc in
      let (leaves, run, (n, l)) =
        exec_tree_leaves-Pushes (scale s u ev) (last_or last x) tss xss tail_eq
          (AllFit-scale_all s u ev tss a.1) (AllFit-scale_all s u ev xss b.1) in
      (
        record { evals = scale s u ev; last_subtrace_entry = last_or last x } ∷ leaves,
        rw (eval_subtrace-scale ev last t x head_eq a.0 b.0, exec_tree_leaves)
            (rw (run, exec_tree_leaves)),
        (
          ap suc n,
          l
              ∙ scale_step s u ev (flatten tss) (flatten xss)
              ∙ ap₂ (λ c d. scale c d ev) (sym (trace_product-append ev t (flatten tss)))
                  (sym (trace_product-append ev x (flatten xss))),
        ),
      )

  balanced :
      (ev : RunningEvaluation F) (c : F)
      → time_ordered_eval ev ≡ addr_ordered_eval ev
      → time_ordered_eval (scale c c ev) ≡ addr_ordered_eval (scale c c ev)
  unfolding time_ordered_eval addr_ordered_eval
  balanced (RunningEvaluation.rom ev) c h = ap (λ t. f.mul t c) h
  balanced (RunningEvaluation.ram ev) c h = ap (λ t. f.mul t c) h

  -- When the evaluations start equal, every entry fits them, and the address-ordered subtraces are
  -- a permutation of the time-ordered ones cut to the same sizes, the loop of `generate_exec_tree`
  -- does not panic, makes one leaf for each subtrace, and leaves the two evaluations equal.
  pub exec_tree_leaves-balanced :
      (ev : RunningEvaluation F) (last : TranscriptEntry F)
      (tss xss : List (List (TranscriptEntry F)))
      → time_ordered_eval ev ≡ addr_ordered_eval ev
      → map length tss ≡ map length xss
      → All (AllFit ev) tss
      → All (AllFit ev) xss
      → Perm (flatten tss) (flatten xss)
      → (leaves : List (ExecTreeLeaf F)) × (exec_tree_leaves ev last tss xss ≡ some leaves)
        × (length leaves ≡ length tss)
        × (time_ordered_eval (last_evals ev leaves) ≡ addr_ordered_eval (last_evals ev leaves))
  exec_tree_leaves-balanced ev last tss xss h e a b p =
      let (leaves, run, (n, l)) = exec_tree_leaves-Pushes ev last tss xss e a b in
      let same : trace_product ev (flatten tss) ≡ trace_product ev (flatten xss) =
        product-perm (Perm.map (weight ev) p) in
      (leaves, run, n, rw (l, same) (balanced ev (trace_product ev (flatten xss)) h))
