-- ===== src/Portal/Push.antt =====
-- Logging at the end of the newest subtrace, and opening a new one: what happens to the whole trace.
use hekaton_system.Prelude.{
  suc, ◌≡◌, refl, sym, ap, ◌∙◌, arith, some, List, [], ◌∷◌, ◌++◌, flatten, length, append-nil,
  append_assoc,
}
use hekaton_system.Portal.{push_last}

module _ {ℓ} {E : Type ℓ} where
  -- With a subtrace open the entry goes to the end of the trace.
  pub push_last-some :
      (st : List E) (sts : List (List E)) (e : E)
      → (out : List (List E)) × (push_last (st ∷ sts) e ≡ some out)
        × (flatten out ≡ flatten (st ∷ sts) ++ (e ∷ []))
        × (length out ≡ length (st ∷ sts))
  unfolding push_last flatten
  push_last-some st [] e = ((st ++ (e ∷ [])) ∷ [], refl, simp append-nil, refl)
  push_last-some st (st' ∷ sts) e =
      let (out, p, q, n) = push_last-some st' sts e in
      (
        st ∷ out,
        rw (p, push_last),
        ap (◌++◌ st) q ∙ sym (append_assoc st (flatten (st' ∷ sts)) (e ∷ [])),
        ap suc n,
      )

  pub flatten-push_last :
      (sts : List (List E)) (e : E) {out : List (List E)}
      → push_last sts e ≡ some out
      → flatten out ≡ flatten sts ++ (e ∷ [])
  flatten-push_last [] e h = unfold push_last in cc
  flatten-push_last (st ∷ sts) e {out} h =
      let (o, p, q, _) = push_last-some st sts e in
      let same : some out ≡ some o = sym h ∙ p in let s : out ≡ o = ground arith in ap flatten s ∙ q

  pub flatten-open : (sts : List (List E)) → flatten (sts ++ ([] ∷ [])) ≡ flatten sts
  unfolding flatten
  flatten-open [] = refl
  flatten-open (st ∷ sts) = ap (◌++◌ st) (flatten-open sts)
