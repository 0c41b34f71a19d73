-- ===== src/Coordinator/Chain.antt =====
-- The leaves of the execution tree as a chain: each is the evaluation of a subtrace from the leaf
-- before it, and the updates keep the challenges.
use hekaton_system.Prelude.{
  ℕ, zero, suc, ◌≡◌, refl, sym, ap, ap₂, ◌∙◌, some, bind-inv, List, [], ◌∷◌, arith, get_elem?,
  subst,
}
use mathlib.Core.Option.{some-injective}
use hekaton_system.Field.{PrimeField}
use hekaton_system.Transcript.{
  TranscriptEntry, RomRunningEvaluation, RamRunningEvaluation, RunningEvaluation, challenges,
}
use hekaton_system.Transcript.Evaluation.{
  update_time_ordered, update_addr_ordered, rom_update_time_ordered, rom_update_addr_ordered,
  ram_update_time_ordered, ram_update_addr_ordered,
}
use hekaton_system.Transcript.Product.{weight}
use hekaton_system.EvalTree.{ExecTreeLeaf}
use hekaton_system.Coordinator.{eval_subtrace, exec_tree_leaves}

-- Evaluations of one kind, with equal challenges.
pub data SameChallenges {ℓ} {F : Type ℓ} : RunningEvaluation F → RunningEvaluation F → Type ℓ where
  rom :
      {a b : RomRunningEvaluation F}
      → b.challenges ≡ a.challenges
      → SameChallenges (RunningEvaluation.rom a) (RunningEvaluation.rom b)
  ram :
      {a b : RamRunningEvaluation F}
      → b.challenges ≡ a.challenges
      → SameChallenges (RunningEvaluation.ram a) (RunningEvaluation.ram b)

module _ {ℓ} {F : Type ℓ} where
  pub SameChallenges-refl : (ev : RunningEvaluation F) → SameChallenges ev ev
  SameChallenges-refl (RunningEvaluation.rom ev) = SameChallenges.rom refl
  SameChallenges-refl (RunningEvaluation.ram ev) = SameChallenges.ram refl

  SameChallenges-trans :
      {a b c : RunningEvaluation F} → SameChallenges a b → SameChallenges b c → SameChallenges a c
  SameChallenges-trans (SameChallenges.rom p) (SameChallenges.rom q) = SameChallenges.rom (q ∙ p)
  SameChallenges-trans (SameChallenges.ram p) (SameChallenges.ram q) = SameChallenges.ram (q ∙ p)

  pub SameChallenges-challenges :
      {a b : RunningEvaluation F} → SameChallenges a b → challenges b ≡ challenges a
  unfolding challenges
  SameChallenges-challenges (SameChallenges.rom p) = rw (p, challenges) refl
  SameChallenges-challenges (SameChallenges.ram p) = rw (p, challenges) refl

module _ {ℓ} {F : Type ℓ} ⦃f : PrimeField F⦄ where
  update_time-SameChallenges :
      (ev : RunningEvaluation F) (e : TranscriptEntry F) {ev' : RunningEvaluation F}
      → update_time_ordered ev e ≡ some ev'
      → SameChallenges ev ev'
  unfolding update_time_ordered rom_update_time_ordered ram_update_time_ordered
  update_time-SameChallenges (RunningEvaluation.rom ev) (TranscriptEntry.rom e) {ev'} h =
      let w = weight (RunningEvaluation.rom ev) (TranscriptEntry.rom e) in
      let out : RomRunningEvaluation F = record ev {
        time_ordered_eval = f.mul ev.time_ordered_eval w;
      } in
      let same : RunningEvaluation.rom out ≡ ev' = ground arith in
      subst (SameChallenges (RunningEvaluation.rom ev)) same (SameChallenges.rom refl)
  update_time-SameChallenges (RunningEvaluation.ram ev) (TranscriptEntry.ram e) {ev'} h =
      let w = weight (RunningEvaluation.ram ev) (TranscriptEntry.ram e) in
      let out : RamRunningEvaluation F = record ev {
        time_ordered_eval = f.mul ev.time_ordered_eval w;
      } in
      let same : RunningEvaluation.ram out ≡ ev' = ground arith in
      subst (SameChallenges (RunningEvaluation.ram ev)) same (SameChallenges.ram refl)
  update_time-SameChallenges (RunningEvaluation.rom ev) (TranscriptEntry.ram e) h =
      absurd (ground arith)
  update_time-SameChallenges (RunningEvaluation.ram ev) (TranscriptEntry.rom e) h =
      absurd (ground arith)

  update_addr-SameChallenges :
      (ev : RunningEvaluation F) (e : TranscriptEntry F) {ev' : RunningEvaluation F}
      → update_addr_ordered ev e ≡ some ev'
      → SameChallenges ev ev'
  unfolding update_addr_ordered rom_update_addr_ordered ram_update_addr_ordered
  update_addr-SameChallenges (RunningEvaluation.rom ev) (TranscriptEntry.rom e) {ev'} h =
      let w = weight (RunningEvaluation.rom ev) (TranscriptEntry.rom e) in
      let out : RomRunningEvaluation F = record ev {
        addr_ordered_eval = f.mul ev.addr_ordered_eval w;
      } in
      let same : RunningEvaluation.rom out ≡ ev' = ground arith in
      subst (SameChallenges (RunningEvaluation.rom ev)) same (SameChallenges.rom refl)
  update_addr-SameChallenges (RunningEvaluation.ram ev) (TranscriptEntry.ram e) {ev'} h =
      let w = weight (RunningEvaluation.ram ev) (TranscriptEntry.ram e) in
      let out : RamRunningEvaluation F = record ev {
        addr_ordered_eval = f.mul ev.addr_ordered_eval w;
      } in
      let same : RunningEvaluation.ram out ≡ ev' = ground arith in
      subst (SameChallenges (RunningEvaluation.ram ev)) same (SameChallenges.ram refl)
  update_addr-SameChallenges (RunningEvaluation.rom ev) (TranscriptEntry.ram e) h =
      absurd (ground arith)
  update_addr-SameChallenges (RunningEvaluation.ram ev) (TranscriptEntry.rom e) h =
      absurd (ground arith)

  eval_subtrace-SameChallenges :
      (ev : RunningEvaluation F) (last : TranscriptEntry F) (ts xs : List (TranscriptEntry F))
      {out : RunningEvaluation F × TranscriptEntry F}
      → eval_subtrace ev last ts xs ≡ some out
      → SameChallenges ev out.0
  unfolding eval_subtrace
  eval_subtrace-SameChallenges ev last [] xs {out} h =
      let same : ev ≡ out.0 = cc in subst (SameChallenges ev) same (SameChallenges-refl ev)
  eval_subtrace-SameChallenges ev last (t ∷ ts) [] {out} h =
      let same : ev ≡ out.0 = cc in subst (SameChallenges ev) same (SameChallenges-refl ev)
  eval_subtrace-SameChallenges ev last (t ∷ ts) (x ∷ xs) h =
      let (ev', p, h') = bind-inv (update_time_ordered ev t) _ h in
      let (ev'', q, h'') = bind-inv (update_addr_ordered ev' x) _ h' in
      SameChallenges-trans (update_time-SameChallenges ev t p) (
        SameChallenges-trans (update_addr-SameChallenges ev' x q)
          (eval_subtrace-SameChallenges ev'' x ts xs h''))

  -- The leaf given to the first subcircuit.
  abbrev pub leaf_of : RunningEvaluation F → TranscriptEntry F → ExecTreeLeaf F
  leaf_of ev last = record { evals = ev; last_subtrace_entry = last }

  -- A leaf and the next, with the subtraces between them.
  pub record Between (before leaves : List (ExecTreeLeaf F)) (i : ℕ)
      (t x : List (TranscriptEntry F)) : Type ℓ where
    pub current : ExecTreeLeaf F
    pub next : ExecTreeLeaf F
    pub current_at : get_elem? before i ≡ some current
    pub next_at : get_elem? leaves i ≡ some next
    pub evaluated :
        eval_subtrace current.evals current.last_subtrace_entry t x
        ≡ some (next.evals, next.last_subtrace_entry)

  pub exec_tree_leaves-Between :
      (ev : RunningEvaluation F) (last : TranscriptEntry F)
      (tss xss : List (List (TranscriptEntry F))) (i : ℕ) (t x : List (TranscriptEntry F))
      {leaves : List (ExecTreeLeaf F)}
      → exec_tree_leaves ev last tss xss ≡ some leaves
      → get_elem? tss i ≡ some t
      → get_elem? xss i ≡ some x
      → Between (leaf_of ev last ∷ leaves) leaves i t x
  unfolding exec_tree_leaves
  exec_tree_leaves-Between ev last [] xss i t x h p q = absurd (ground arith)
  exec_tree_leaves-Between ev last (t' ∷ tss) [] i t x h p q = absurd (ground arith)
  exec_tree_leaves-Between ev last (t' ∷ tss) (x' ∷ xss) zero t x h p q =
      let ((ev', last'), e, h') = bind-inv (eval_subtrace ev last t' x') _ h in
      let (rest, r, h'') = bind-inv (exec_tree_leaves ev' last' tss xss) _ h' in
      record {
        current = leaf_of ev last;
        next = leaf_of ev' last';
        current_at = refl;
        next_at = ap (λ l. get_elem? l 0) (sym (some-injective _ _ h''));
        evaluated =
            ap₂ (eval_subtrace ev last) (sym (some-injective _ _ p)) (sym (some-injective _ _ q))
            ∙ e;
      }
  exec_tree_leaves-Between ev last (t' ∷ tss) (x' ∷ xss) (suc i) t x {leaves} h p q =
      let ((ev', last'), e, h') = bind-inv (eval_subtrace ev last t' x') _ h in
      let (rest, r, h'') = bind-inv (exec_tree_leaves ev' last' tss xss) _ h' in
      subst (λ l. Between (leaf_of ev last ∷ l) l (suc i) t x) (some-injective _ _ h'')
        (let b = exec_tree_leaves-Between ev' last' tss xss i t x r p q in
          record {
            current = b.current;
            next = b.next;
            current_at = b.current_at;
            next_at = b.next_at;
            evaluated = b.evaluated;
          })

  -- Every leaf has the challenges of the start.
  pub exec_tree_leaves-SameChallenges :
      (ev : RunningEvaluation F) (last : TranscriptEntry F)
      (tss xss : List (List (TranscriptEntry F))) (i : ℕ) {leaves : List (ExecTreeLeaf F)}
      {l : ExecTreeLeaf F}
      → exec_tree_leaves ev last tss xss ≡ some leaves
      → get_elem? leaves i ≡ some l
      → SameChallenges ev l.evals
  unfolding exec_tree_leaves
  exec_tree_leaves-SameChallenges ev last [] xss i {leaves} h p = absurd (ground arith)
  exec_tree_leaves-SameChallenges ev last (t ∷ tss) [] i h p = absurd (ground arith)
  exec_tree_leaves-SameChallenges ev last (t ∷ tss) (x ∷ xss) zero {leaves} {l} h p =
      let ((ev', last'), e, h') = bind-inv (eval_subtrace ev last t x) _ h in
      let (rest, r, h'') = bind-inv (exec_tree_leaves ev' last' tss xss) _ h' in
      let same : leaf_of ev' last' ≡ l = cc in
      subst (λ k. SameChallenges ev k.evals) same (eval_subtrace-SameChallenges ev last t x e)
  exec_tree_leaves-SameChallenges ev last (t ∷ tss) (x ∷ xss) (suc i) {leaves} {l} h p =
      let ((ev', last'), e, h') = bind-inv (eval_subtrace ev last t x) _ h in
      let (rest, r, h'') = bind-inv (exec_tree_leaves ev' last' tss xss) _ h' in
      let at : get_elem? rest i ≡ some l =
        subst (λ k. get_elem? k (suc i) ≡ some l) (sym (some-injective _ _ h'')) p in
      SameChallenges-trans (eval_subtrace-SameChallenges ev last t x e)
        (exec_tree_leaves-SameChallenges ev' last' tss xss i r at)
