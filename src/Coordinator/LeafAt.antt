-- ===== src/Coordinator/LeafAt.antt =====
-- What the coordinator knows of the leaves around a ROM subtrace.
use mathlib.Core.Option.{some-injective}
use mathlib.Core.List.{Perm}
use hekaton_system.Prelude.{
  ℕ, zero, suc, ◌≡◌, refl, sym, ap, ap₂, subst, ◌∙◌, some, List, ◌∷◌, map, flatten, length,
  length-map, get_elem?, get_elem?-map,
}
use hekaton_system.Field.{PrimeField}
use hekaton_system.Transcript.{
  RomTranscriptEntry, TranscriptEntry, RomRunningEvaluation, RunningEvaluation, time_ordered_eval,
  addr_ordered_eval,
}
use hekaton_system.EvalTree.{ExecTreeLeaf}
use hekaton_system.Coordinator.{eval_subtrace, exec_tree_leaves}
use hekaton_system.Coordinator.Leaves.{exec_tree_leaves-balanced}
use hekaton_system.Coordinator.Chain.{
  SameChallenges, SameChallenges-refl, leaf_of, exec_tree_leaves-Between,
  exec_tree_leaves-SameChallenges,
}
use hekaton_system.Coordinator.Replay.{Chained}
use hekaton_system.Coordinator.Honest.{roms}
use hekaton_system.Coordinator.Ordered.{chained_at, last_evals-get, AllFit-map, subtrace_at}

module _ {ℓ} {F : Type ℓ} ⦃f : PrimeField F⦄ where
  pub record LeafAt (before leaves : List (ExecTreeLeaf F)) (ev₀ : RomRunningEvaluation F)
      (rxs : List (List (RomTranscriptEntry F))) (count i : ℕ) (ts : List (RomTranscriptEntry F))
      : Type ℓ where
    pub xs : List (RomTranscriptEntry F)
    pub ev : RomRunningEvaluation F
    pub prev : RomTranscriptEntry F
    pub next : ExecTreeLeaf F
    pub addr_at : get_elem? rxs i ≡ some xs
    pub same_length : length ts ≡ length xs
    pub current_at :
        get_elem? before i ≡ some (leaf_of (RunningEvaluation.rom ev) (TranscriptEntry.rom prev))
    pub next_at : get_elem? leaves i ≡ some next
    pub evaluated :
        eval_subtrace (RunningEvaluation.rom ev) (TranscriptEntry.rom prev) (roms ts) (roms xs)
        ≡ some (next.evals, next.last_subtrace_entry)
    pub chained : Chained prev xs
    pub same_challenges : ev.challenges ≡ ev₀.challenges
    pub ends : suc i ≡ count → time_ordered_eval next.evals ≡ addr_ordered_eval next.evals

  rom_of :
      {ev₀ : RomRunningEvaluation F} {e : RunningEvaluation F}
      → SameChallenges (RunningEvaluation.rom ev₀) e
      → (ev : RomRunningEvaluation F) × (e ≡ RunningEvaluation.rom ev)
        × (ev.challenges ≡ ev₀.challenges)
  rom_of (SameChallenges.rom {b} p) = (b, refl, p)

  before-SameChallenges :
      (ev₀ : RunningEvaluation F) (last : TranscriptEntry F)
      (tss xss : List (List (TranscriptEntry F))) (i : ℕ) (l : ExecTreeLeaf F)
      {leaves : List (ExecTreeLeaf F)}
      → exec_tree_leaves ev₀ last tss xss ≡ some leaves
      → get_elem? (leaf_of ev₀ last ∷ leaves) i ≡ some l
      → SameChallenges ev₀ l.evals
  before-SameChallenges ev₀ last tss xss zero l h p =
      subst (λ k. SameChallenges ev₀ k.evals) (some-injective _ _ p) (SameChallenges-refl ev₀)
  before-SameChallenges ev₀ last tss xss (suc i) l h p =
      exec_tree_leaves-SameChallenges ev₀ last tss xss i h p

  -- After the last subtrace the evaluations agree.
  ends_at :
      (ev₀ : RomRunningEvaluation F) (last : TranscriptEntry F) (cs : F × F)
      (rts rxs : List (List (RomTranscriptEntry F))) (i : ℕ) (l : ExecTreeLeaf F)
      {leaves : List (ExecTreeLeaf F)}
      → ev₀.challenges ≡ some cs
      → ev₀.time_ordered_eval ≡ ev₀.addr_ordered_eval
      → map length (map roms rts) ≡ map length (map roms rxs)
      → Perm (flatten (map roms rts)) (flatten (map roms rxs))
      → exec_tree_leaves (RunningEvaluation.rom ev₀) last (map roms rts) (map roms rxs)
        ≡ some leaves
      → get_elem? leaves i ≡ some l
      → suc i ≡ length rts
      → time_ordered_eval l.evals ≡ addr_ordered_eval l.evals
  unfolding time_ordered_eval addr_ordered_eval
  ends_at ev₀ last cs rts rxs i l {leaves} ec eq lens perm h p n =
      let (leaves', h', count, same) =
        exec_tree_leaves-balanced (RunningEvaluation.rom ev₀) last (map roms rts) (map roms rxs) eq
          lens (AllFit-map ev₀ rts cs ec) (AllFit-map ev₀ rxs cs ec) perm in
      let one : leaves' ≡ leaves = some-injective _ _ (sym h' ∙ h) in
      let at : get_elem? leaves' i ≡ some l = ap (λ k. get_elem? k i) one ∙ p in
      let last_is =
        last_evals-get (RunningEvaluation.rom ev₀) leaves' i l at
          (n ∙ sym (length-map roms rts) ∙ sym count) in
      subst (λ v. time_ordered_eval v ≡ addr_ordered_eval v) last_is same

  pub exec_tree_leaves-LeafAt :
      (ev₀ : RomRunningEvaluation F) (last : RomTranscriptEntry F) (cs : F × F)
      (rts rxs : List (List (RomTranscriptEntry F))) (i : ℕ) (ts : List (RomTranscriptEntry F))
      {leaves : List (ExecTreeLeaf F)}
      → ev₀.challenges ≡ some cs
      → ev₀.time_ordered_eval ≡ ev₀.addr_ordered_eval
      → map length rts ≡ map length rxs
      → map length (map roms rts) ≡ map length (map roms rxs)
      → Perm (flatten (map roms rts)) (flatten (map roms rxs))
      → Chained last (flatten rxs)
      → exec_tree_leaves
          (RunningEvaluation.rom ev₀)
          (TranscriptEntry.rom last)
          (map roms rts)
          (map roms rxs)
        ≡ some leaves
      → get_elem? rts i ≡ some ts
      → LeafAt
          (leaf_of (RunningEvaluation.rom ev₀) (TranscriptEntry.rom last) ∷ leaves)
          leaves
          ev₀
          rxs
          (length rts)
          i
          ts
  exec_tree_leaves-LeafAt ev₀ last cs rts rxs i ts ec eq lens lens' perm ch h p =
      let (xs, q, len) = subtrace_at rts rxs i ts lens p in
      let b =
        exec_tree_leaves-Between (RunningEvaluation.rom ev₀) (TranscriptEntry.rom last)
          (map roms rts) (map roms rxs) i (roms ts) (roms xs) h (get_elem?-map roms rts i ts p)
          (get_elem?-map roms rxs i xs q) in
      let (prev, ep, c) =
        chained_at (RunningEvaluation.rom ev₀) last rts rxs i b.current xs lens h ch b.current_at
          q in
      let (ev, ee, sc) = rom_of (
        before-SameChallenges (RunningEvaluation.rom ev₀) (TranscriptEntry.rom last) (map roms rts)
          (map roms rxs) i b.current h b.current_at) in
      record {
        xs = xs;
        ev = ev;
        prev = prev;
        next = b.next;
        addr_at = q;
        same_length = len;
        current_at = b.current_at ∙ ap₂ (λ u v. some (leaf_of u v)) ee ep;
        next_at = b.next_at;
        evaluated =
            ap₂ (λ u v. eval_subtrace u v (roms ts) (roms xs)) (sym ee) (sym ep) ∙ b.evaluated;
        chained = c;
        same_challenges = sc;
        ends =
            ends_at ev₀ (TranscriptEntry.rom last) cs rts rxs i b.next ec eq lens' perm h b.next_at;
      }
