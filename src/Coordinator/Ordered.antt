-- ===== src/Coordinator/Ordered.antt =====
-- The neighbours of the address order within each subtrace, and the end of the chain of leaves.
use mathlib.Core.Option.{some-injective}
use mathlib.Core.List.{Perm}
use hekaton_system.Prelude.{
  ℕ, zero, suc, ◌≡◌, refl, sym, ap, ap₂, subst, ◌∙◌, none, some, bind-inv, List, [], ◌∷◌, ◌++◌, map,
  flatten, arith, length, length-map, get_elem?, All,
}
use hekaton_system.Field.{PrimeField}
use hekaton_system.Transcript.{
  RomTranscriptEntry, TranscriptEntry, RomRunningEvaluation, RunningEvaluation,
}
use hekaton_system.Transcript.Evaluation.{update_time_ordered, update_addr_ordered}
use hekaton_system.EvalTree.{ExecTreeLeaf}
use hekaton_system.Coordinator.{eval_subtrace, exec_tree_leaves, sort_subtraces_by_addr}
use hekaton_system.Coordinator.Sort.{sort_subtraces_by_addr_lem}
use hekaton_system.Coordinator.Leaves.{AllFit, last_evals}
use hekaton_system.Coordinator.Chain.{leaf_of}
use hekaton_system.Coordinator.Replay.{Chained}
use hekaton_system.Coordinator.Honest.{roms}

module _ {ℓ} {F : Type ℓ} ⦃f : PrimeField F⦄ where
  abbrev last_rom : RomTranscriptEntry F → List (RomTranscriptEntry F) → RomTranscriptEntry F
  last_rom e [] = e
  last_rom e (x ∷ xs) = last_rom x xs

  Chained-append :
      (e : RomTranscriptEntry F) (xs ys : List (RomTranscriptEntry F))
      → Chained e (xs ++ ys)
      → Chained e xs × Chained (last_rom e xs) ys
  Chained-append e [] ys c = (Chained.chain_end, c)
  Chained-append e (x ∷ xs) ys (Chained.chain_next n c) =
      let (a, b) = Chained-append x xs ys c in (Chained.chain_next n a, b)

  eval_subtrace-last_rom :
      (ev : RunningEvaluation F) (last : RomTranscriptEntry F) (ts xs : List (RomTranscriptEntry F))
      {out : RunningEvaluation F × TranscriptEntry F}
      → length ts ≡ length xs
      → eval_subtrace ev (TranscriptEntry.rom last) (roms ts) (roms xs) ≡ some out
      → out.1 ≡ TranscriptEntry.rom (last_rom last xs)
  unfolding eval_subtrace
  eval_subtrace-last_rom ev last [] [] len h = sym (ap (λ o. o.1) (some-injective _ _ h))
  eval_subtrace-last_rom ev last [] (x ∷ xs) len h = absurd (omega arith)
  eval_subtrace-last_rom ev last (t ∷ ts) [] len h = absurd (omega arith)
  eval_subtrace-last_rom ev last (t ∷ ts) (x ∷ xs) len h =
      let (e', u, h') = bind-inv (update_time_ordered ev (TranscriptEntry.rom t)) _ h in
      let (e'', v, h'') = bind-inv (update_addr_ordered e' (TranscriptEntry.rom x)) _ h' in
      eval_subtrace-last_rom e'' x ts xs (omega arith) h''

  -- The subtrace after a leaf is in order from the leaf's last entry on.
  pub chained_at :
      (ev : RunningEvaluation F) (last : RomTranscriptEntry F)
      (rts rxs : List (List (RomTranscriptEntry F))) (i : ℕ) (l : ExecTreeLeaf F)
      (x : List (RomTranscriptEntry F)) {leaves : List (ExecTreeLeaf F)}
      → map length rts ≡ map length rxs
      → exec_tree_leaves ev (TranscriptEntry.rom last) (map roms rts) (map roms rxs) ≡ some leaves
      → Chained last (flatten rxs)
      → get_elem? (leaf_of ev (TranscriptEntry.rom last) ∷ leaves) i ≡ some l
      → get_elem? rxs i ≡ some x
      → (prev : RomTranscriptEntry F) × (l.last_subtrace_entry ≡ TranscriptEntry.rom prev)
        × Chained prev x
  unfolding exec_tree_leaves flatten
  chained_at ev last rts [] i l x len h c p q = absurd (ground arith)
  chained_at ev last [] (x' ∷ rxs) i l x len h c p q = absurd (ground arith)
  chained_at ev last (t' ∷ rts) (x' ∷ rxs) zero l x len h c p q = (
    last,
    sym (ap (λ k. k.last_subtrace_entry) (some-injective _ _ p)),
    subst (Chained last) (some-injective _ _ q) (Chained-append last x' (flatten rxs) c).0,
  )
  chained_at ev last (t' ∷ rts) (x' ∷ rxs) (suc i) l x len h c p q =
      let ((ev', last'), e, h') =
        bind-inv (eval_subtrace ev (TranscriptEntry.rom last) (roms t') (roms x')) _ h in
      let (rest, r, h'') =
        bind-inv (exec_tree_leaves ev' last' (map roms rts) (map roms rxs)) _ h' in
      let len_head : length t' ≡ length x' = cc in
      let len_tail : map length rts ≡ map length rxs = cc in
      let same = eval_subtrace-last_rom ev last t' x' len_head e in
      chained_at ev' (last_rom last x') rts rxs i l x len_tail
        (subst (λ k. exec_tree_leaves ev' k (map roms rts) (map roms rxs) ≡ some rest) same r)
        (Chained-append last x' (flatten rxs) c).1
        (ap (λ k. get_elem? (leaf_of ev' k ∷ rest) i) (sym same)
          ∙ subst (λ k. get_elem? k i ≡ some l) (sym (some-injective _ _ h'')) p)
        q

  -- The last leaf has the last evaluations.
  pub last_evals-get :
      (ev : RunningEvaluation F) (leaves : List (ExecTreeLeaf F)) (i : ℕ) (l : ExecTreeLeaf F)
      → get_elem? leaves i ≡ some l
      → suc i ≡ length leaves
      → last_evals ev leaves ≡ l.evals
  last_evals-get ev [] i l p n = absurd (ground arith)
  last_evals-get ev (k ∷ []) zero l p n = ap (λ x. x.evals) (some-injective _ _ p)
  last_evals-get ev (k ∷ []) (suc i) l p n = absurd (ground arith)
  last_evals-get ev (k ∷ k' ∷ ls) zero l p n = absurd (omega arith)
  last_evals-get ev (k ∷ k' ∷ ls) (suc i) l p n =
      last_evals-get k.evals (k' ∷ ls) i l p (omega arith)

  pub map-length-roms :
      (rts : List (List (RomTranscriptEntry F))) → map length (map roms rts) ≡ map length rts
  map-length-roms [] = refl
  map-length-roms (t ∷ rts) = ap₂ ◌∷◌ (length-map TranscriptEntry.rom t) (map-length-roms rts)

  -- Sorting, with no entry named.
  pub sort_subtraces_by_addr-perm :
      (sts : List (List (TranscriptEntry F))) {out : List (List (TranscriptEntry F))}
      → sort_subtraces_by_addr sts ≡ some out
      → (map length out ≡ map length sts) × Perm (flatten out) (flatten sts)
  unfolding sort_subtraces_by_addr
  sort_subtraces_by_addr-perm sts {out} h =
      elim (flatten sts)
          as (λ l.
            flatten sts ≡ l
            → (map length out ≡ map length sts) × Perm (flatten out) (flatten sts)) [
              | [] ↦ λ e.
                  let panics : sort_subtraces_by_addr sts ≡ none =
                    rw (e, sort_subtraces_by_addr) refl in
                  absurd (cc)
              | x ∷ xs ↦ λ e.
                  let (out', s, l, p, k) = sort_subtraces_by_addr_lem sts x xs e in
                  let same = some-injective _ _ (sym s ∙ h) in
                  subst (λ o. (map length o ≡ map length sts) × Perm (flatten o) (flatten sts)) same
                    (l, p)
            ]
        refl

  AllFit-roms :
      (ev : RomRunningEvaluation F) (ts : List (RomTranscriptEntry F)) (cs : F × F)
      → ev.challenges ≡ some cs
      → AllFit (RunningEvaluation.rom ev) (roms ts)
  AllFit-roms ev [] cs h = tt
  AllFit-roms ev (t ∷ ts) cs h = (rw h refl, AllFit-roms ev ts cs h)

  pub AllFit-map :
      (ev : RomRunningEvaluation F) (rts : List (List (RomTranscriptEntry F))) (cs : F × F)
      → ev.challenges ≡ some cs
      → All (AllFit (RunningEvaluation.rom ev)) (map roms rts)
  AllFit-map ev [] cs h = tt
  AllFit-map ev (t ∷ rts) cs h = (AllFit-roms ev t cs h, AllFit-map ev rts cs h)

  -- The subtrace of the other order at an index.
  pub subtrace_at :
      (tss xss : List (List (RomTranscriptEntry F))) (i : ℕ) (t : List (RomTranscriptEntry F))
      → map length tss ≡ map length xss
      → get_elem? tss i ≡ some t
      → (x : List (RomTranscriptEntry F)) × (get_elem? xss i ≡ some x) × (length t ≡ length x)
  subtrace_at [] xss i t len p = absurd (ground arith)
  subtrace_at (t' ∷ tss) [] i t len p = cc
  subtrace_at (t' ∷ tss) (x' ∷ xss) zero t len p =
      let same : length t' ≡ length x' = cc in
      (x', refl, sym (ap length (some-injective _ _ p)) ∙ same)
  subtrace_at (t' ∷ tss) (x' ∷ xss) (suc i) t len p =
      let len_tail : map length tss ≡ map length xss = cc in subtrace_at tss xss i t len_tail p
