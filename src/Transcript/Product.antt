-- ===== src/Transcript/Product.antt =====
-- The permutation argument from the honest side: the weight by which an entry scales a running
-- evaluation, and that the product of the weights does not depend on the order of the entries.
use mathlib.Core.HLevel.{hedberg}
use mathlib.Core.Logic.{∥∥₁_elim}
use mathlib.Core.List.{Perm, Permᴰ}
use hekaton_system.Prelude.{
  ◌≡◌, refl, sym, ap, ap₂, ◌∙◌, Bool, true, false, Bool-cases, inl, inr, Option, none, some, List,
  [], ◌∷◌, ◌++◌, map, arith,
}
use hekaton_system.Field.{PrimeField}
use hekaton_system.Transcript.{
  RomTranscriptEntry, RamTranscriptEntry, TranscriptEntry, RunningEvaluation,
}
use hekaton_system.Transcript.Evaluation.{
  rom_entry_repr, ram_entry_repr, rom_update_time_ordered, rom_update_addr_ordered,
  ram_update_time_ordered, ram_update_addr_ordered, update_time_ordered, update_addr_ordered,
}

abbrev is_some {ℓ} : {A : Type ℓ} → Option A → Bool
is_some none = false
is_some (some a) = true

-- The challenges are set, and the entry is of the kind of the evaluation.
abbrev pub fits {ℓ} : {F : Type ℓ} → RunningEvaluation F → TranscriptEntry F → Bool
fits (RunningEvaluation.rom ev) (TranscriptEntry.rom e) = is_some ev.challenges
fits (RunningEvaluation.ram ev) (TranscriptEntry.ram e) = is_some ev.challenges
fits _ _ = false

module _ {ℓ} {F : Type ℓ} ⦃f : PrimeField F⦄ where
  F-discrete : Discrete F
  F-discrete a b = elim (Bool-cases (f.is_eq a b)) [
    | inl e ↦ yes ((f.is_eq_iff a b).0 e)
    | inr e ↦ no (λ h. cc ((f.is_eq_iff a b).1 h))
  ]

  F-set : IsSet F
  F-set = hedberg F-discrete

  -- The product of a list of factors.
  abbrev pub product : List F → F
  product [] = f.one_elem
  product (x ∷ xs) = f.mul x (product xs)

  product-Permᴰ : {xs ys : List F} → Permᴰ xs ys → product xs ≡ product ys
  product-Permᴰ Permᴰ.nil = refl
  product-Permᴰ (Permᴰ.cons e p) = ap₂ f.mul e (product-Permᴰ p)
  product-Permᴰ (Permᴰ.swap {a} {b} {a'} {b'} {l} e e') =
      sym (f.mul_assoc a b (product l))
      ∙ ap (λ t. f.mul t (product l)) (f.mul_comm a b)
      ∙ f.mul_assoc b a (product l)
      ∙ ap₂ (λ s t. f.mul s (f.mul t (product l))) e' e
  product-Permᴰ (Permᴰ.trans p q) = product-Permᴰ p ∙ product-Permᴰ q

  pub product-perm : {xs ys : List F} → Perm xs ys → product xs ≡ product ys
  product-perm p = ∥∥₁_elim p (F-set _ _) product-Permᴰ

  abbrev rom_weight : Option (F × F) → RomTranscriptEntry F → F
  rom_weight none e = f.one_elem
  rom_weight (some (c, t)) e = f.sub t (rom_entry_repr c e)

  abbrev ram_weight : Option (F × F × F × F) → RamTranscriptEntry F → F
  ram_weight none e = f.one_elem
  ram_weight (some (c1, c2, c3, t)) e = f.sub t (ram_entry_repr c1 c2 c3 e)

  -- The factor `tr_chal - entry_repr` of an entry.
  abbrev pub weight : RunningEvaluation F → TranscriptEntry F → F
  weight (RunningEvaluation.rom ev) (TranscriptEntry.rom e) = rom_weight ev.challenges e
  weight (RunningEvaluation.ram ev) (TranscriptEntry.ram e) = ram_weight ev.challenges e
  weight _ _ = f.one_elem

  abbrev pub scale : F → F → RunningEvaluation F → RunningEvaluation F
  scale s t (RunningEvaluation.rom ev) = RunningEvaluation.rom (record ev {
    time_ordered_eval = f.mul ev.time_ordered_eval s;
    addr_ordered_eval = f.mul ev.addr_ordered_eval t;
  })
  scale s t (RunningEvaluation.ram ev) = RunningEvaluation.ram (record ev {
    time_ordered_eval = f.mul ev.time_ordered_eval s;
    addr_ordered_eval = f.mul ev.addr_ordered_eval t;
  })

  -- One round of updates scales both evaluations by the weights of the two entries.
  pub update-scale :
      (ev : RunningEvaluation F) (t a : TranscriptEntry F)
      → fits ev t ≡ true
      → fits ev a ≡ true
      → (ev' : RunningEvaluation F) × (update_time_ordered ev t ≡ some ev')
        × (update_addr_ordered ev' a ≡ some (scale (weight ev t) (weight ev a) ev))
  unfolding update_time_ordered update_addr_ordered rom_update_time_ordered rom_update_addr_ordered
      ram_update_time_ordered ram_update_addr_ordered
  update-scale (RunningEvaluation.rom ev) (TranscriptEntry.rom t) (TranscriptEntry.rom a) p q = (
    RunningEvaluation.rom
        (record ev { time_ordered_eval = f.mul ev.time_ordered_eval (rom_weight ev.challenges t) }),
    ground arith,
    ground arith,
  )
  update-scale (RunningEvaluation.ram ev) (TranscriptEntry.ram t) (TranscriptEntry.ram a) p q = (
    RunningEvaluation.ram
        (record ev { time_ordered_eval = f.mul ev.time_ordered_eval (ram_weight ev.challenges t) }),
    ground arith,
    ground arith,
  )
  update-scale (RunningEvaluation.rom ev) (TranscriptEntry.ram t) a p q = cc
  update-scale (RunningEvaluation.ram ev) (TranscriptEntry.rom t) a p q = cc
  update-scale (RunningEvaluation.rom ev) (TranscriptEntry.rom t) (TranscriptEntry.ram a) p q = cc
  update-scale (RunningEvaluation.ram ev) (TranscriptEntry.ram t) (TranscriptEntry.rom a) p q = cc

  abbrev pub trace_product : RunningEvaluation F → List (TranscriptEntry F) → F
  trace_product ev l = product (map (weight ev) l)

  mul_one : (a : F) → f.mul a f.one_elem ≡ a
  mul_one a = f.mul_comm a f.one_elem ∙ f.one_mul a

  pub scale_one : (ev : RunningEvaluation F) → scale f.one_elem f.one_elem ev ≡ ev
  scale_one (RunningEvaluation.rom ev) =
      rw (mul_one ev.time_ordered_eval, mul_one ev.addr_ordered_eval)
  scale_one (RunningEvaluation.ram ev) =
      rw (mul_one ev.time_ordered_eval, mul_one ev.addr_ordered_eval)

  pub scale-scale :
      (s t s' t' : F) (ev : RunningEvaluation F)
      → scale s' t' (scale s t ev) ≡ scale (f.mul s s') (f.mul t t') ev
  scale-scale s t s' t' (RunningEvaluation.rom ev) =
      rw (f.mul_assoc ev.time_ordered_eval s s', f.mul_assoc ev.addr_ordered_eval t t')
  scale-scale s t s' t' (RunningEvaluation.ram ev) =
      rw (f.mul_assoc ev.time_ordered_eval s s', f.mul_assoc ev.addr_ordered_eval t t')

  weight-scale :
      (s t : F) (ev : RunningEvaluation F) (e : TranscriptEntry F)
      → weight (scale s t ev) e ≡ weight ev e
  weight-scale s t (RunningEvaluation.rom ev) (TranscriptEntry.rom e) = refl
  weight-scale s t (RunningEvaluation.ram ev) (TranscriptEntry.ram e) = refl
  weight-scale s t (RunningEvaluation.rom ev) (TranscriptEntry.ram e) = refl
  weight-scale s t (RunningEvaluation.ram ev) (TranscriptEntry.rom e) = refl

  pub fits-scale :
      (s t : F) (ev : RunningEvaluation F) (e : TranscriptEntry F)
      → fits (scale s t ev) e ≡ fits ev e
  fits-scale s t (RunningEvaluation.rom ev) (TranscriptEntry.rom e) = refl
  fits-scale s t (RunningEvaluation.ram ev) (TranscriptEntry.ram e) = refl
  fits-scale s t (RunningEvaluation.rom ev) (TranscriptEntry.ram e) = refl
  fits-scale s t (RunningEvaluation.ram ev) (TranscriptEntry.rom e) = refl

  pub trace_product-scale :
      (s t : F) (ev : RunningEvaluation F) (l : List (TranscriptEntry F))
      → trace_product (scale s t ev) l ≡ trace_product ev l
  trace_product-scale s t ev [] = refl
  trace_product-scale s t ev (e ∷ l) =
      ap₂ f.mul (weight-scale s t ev e) (trace_product-scale s t ev l)

  pub trace_product-append :
      (ev : RunningEvaluation F) (l m : List (TranscriptEntry F))
      → trace_product ev (l ++ m) ≡ f.mul (trace_product ev l) (trace_product ev m)
  trace_product-append ev [] m = sym (f.one_mul (trace_product ev m))
  trace_product-append ev (e ∷ l) m =
      ap (f.mul (weight ev e)) (trace_product-append ev l m)
      ∙ sym (f.mul_assoc (weight ev e) (trace_product ev l) (trace_product ev m))
