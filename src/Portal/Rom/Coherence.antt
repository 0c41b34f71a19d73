-- ===== src/Portal/Rom/Coherence.antt =====
-- The read-only checks of the ROM manager along a subcircuit's accesses.
use hekaton_system.Prelude.{
  ℕ, zero, suc, ◌+◌, ◌-◌, ◌≤◌, ◌<◌, ◌≡◌, sym, ap, ap₂, ◌∙◌, Bool, true, false, Bool-cases,
  Option-cases, inl, inr, Option, none, some, List, [], ◌∷◌, arith, length, get_elem?, ℕ_discrete,
}
use hekaton_system.Field.{PrimeField}
use hekaton_system.Transcript.{RomTranscriptEntryVar}
use hekaton_system.Portal.{Access, reads, writes}
use hekaton_system.Portal.Rom.{RomProverPortalManager, coherence_check, prover_get, prover_set}

module _ {ℓ} {F : Type ℓ} ⦃f : PrimeField F⦄ where
  -- A subcircuit's accesses, one after the other.
  unfoldable pub prover_run :
      List (Access F) → RomProverPortalManager F → Option (RomProverPortalManager F)
  prover_run [] pm = some pm
  prover_run (reads ∷ ops) pm = elim (prover_get pm) [
    | none ↦ none
    | some (v, pm') ↦ prover_run ops pm'
  ]
  prover_run (writes v ∷ ops) pm = elim (prover_set v pm) [
    | none ↦ none
    | some pm' ↦ prover_run ops pm'
  ]

  -- The two entries from index `j` on pass the check.
  abbrev check_pair : Option (RomTranscriptEntryVar F) → Option (RomTranscriptEntryVar F) → Bool
  check_pair none y = false
  check_pair (some x) none = false
  check_pair (some x) (some y) = coherence_check x y

  abbrev CheckAt : List (RomTranscriptEntryVar F) → ℕ → Type 0
  CheckAt trace j = check_pair (get_elem? trace j) (get_elem? trace (j + 1)) ≡ true

  -- One access: it moves to the next index, and if all is satisfied after it, so it was before and
  -- the check at the old index passed.
  record Moves (pm pm' : RomProverPortalManager F) : Type ℓ where
    trace : pm'.addr_ordered_subtrace ≡ pm.addr_ordered_subtrace
    index : pm'.next_entry_idx ≡ pm.next_entry_idx + 1
    before : pm'.satisfied ≡ true → pm.satisfied ≡ true
    checked : pm'.satisfied ≡ true → CheckAt pm.addr_ordered_subtrace pm.next_entry_idx

  prover_get-Moves :
      (pm : RomProverPortalManager F) {v : F} {pm' : RomProverPortalManager F}
      → prover_get pm ≡ some (v, pm')
      → Moves pm pm'
  unfolding prover_get
  prover_get-Moves pm {v} {pm'} h = record {
    trace = ground arith;
    index = ground arith;
    before = ground arith;
    checked = ground arith;
  }

  prover_set-Moves :
      (pm : RomProverPortalManager F) (v : F) {pm' : RomProverPortalManager F}
      → prover_set v pm ≡ some pm'
      → Moves pm pm'
  unfolding prover_set
  prover_set-Moves pm v {pm'} h = elim (Option-cases (prover_get pm)) [
    | inl e ↦ ground arith
    | inr ((t, pm₁), e) ↦
        let m = prover_get-Moves pm e in
        record {
          trace = ground (arith, m.trace);
          index = ground (arith, m.index);
          before = ground (arith, m.before);
          checked = ground (arith, m.checked);
        }
  ]

  -- The checks of the next `n` positions.
  abbrev Checks : List (RomTranscriptEntryVar F) → ℕ → ℕ → Type 0
  Checks trace i n = (j : ℕ) → i ≤ j → j < i + n → CheckAt trace j

  run_step :
      {pm pm' : RomProverPortalManager F} (n : ℕ)
      → Moves pm pm'
      → (pm'.satisfied ≡ true) × Checks pm'.addr_ordered_subtrace pm'.next_entry_idx n
      → (pm.satisfied ≡ true) × Checks pm.addr_ordered_subtrace pm.next_entry_idx (suc n)
  run_step {pm} {pm'} n m (s, c) = (m.before s, checks)
    where
      checks : Checks pm.addr_ordered_subtrace pm.next_entry_idx (suc n)
      checks j p q = elim (ℕ_discrete j pm.next_entry_idx) [
        | yes e ↦ rw e (m.checked s)
        | no ne ↦ rw m.trace at (c j (omega (arith, m.index)) (omega (arith, m.index)))
      ]

  -- A satisfied run was satisfied before it, and has checked each position that it passed.
  prover_run-Checks :
      (ops : List (Access F)) (pm : RomProverPortalManager F) {pm' : RomProverPortalManager F}
      → prover_run ops pm ≡ some pm'
      → pm'.satisfied ≡ true
      → (pm.satisfied ≡ true) × Checks pm.addr_ordered_subtrace pm.next_entry_idx (length ops)
  unfolding prover_run
  prover_run-Checks [] pm e s = (ground arith, λ j p q. absurd (omega arith))
  prover_run-Checks (reads ∷ ops) pm {pm'} e s = elim (Option-cases (prover_get pm)) [
    | inl n ↦ ground arith
    | inr ((t, pm₁), g) ↦
        run_step (length ops) (prover_get-Moves pm g)
          (prover_run-Checks ops pm₁ {pm' = pm'} (ground arith) s)
  ]
  prover_run-Checks (writes v ∷ ops) pm {pm'} e s = elim (Option-cases (prover_set v pm)) [
    | inl n ↦ ground arith
    | inr (pm₁, g) ↦
        run_step (length ops) (prover_set-Moves pm v g)
          (prover_run-Checks ops pm₁ {pm' = pm'} (ground arith) s)
  ]

  -- From an entry whose address is the number `a`, the addresses along checked entries are numbers
  -- that grow by at most one, and the value is kept while the number is.
  abbrev Reached : ℕ → ℕ → F → RomTranscriptEntryVar F → Type ℓ
  Reached a k v y = (m : ℕ) × (y.addr ≡ f.from_uint m) × (a ≤ m) × (m ≤ a + k) × (m ≡ a → y.val ≡ v)

  coherence_check-Reached :
      (a k : ℕ) (v : F) (x y : RomTranscriptEntryVar F)
      → coherence_check x y ≡ true
      → Reached a k v x
      → Reached a (suc k) v y
  unfolding coherence_check
  coherence_check-Reached a k v x y c (m, e, p, q, same) =
      elim (Bool-cases (f.is_eq y.addr x.addr)) [
        | inl h ↦ (
          m,
          (f.is_eq_iff _ _).0 h ∙ e,
          p,
          omega arith,
          λ e'. ground (arith, f.is_eq_iff x.val y.val, same e'),
        )
        | inr h ↦
            (suc m, increases (ground arith), omega arith, omega arith, λ e'. absurd (omega arith))
      ]
    where
      increases : f.is_eq y.addr (f.add x.addr f.one_elem) ≡ true → y.addr ≡ f.from_uint (suc m)
      increases h =
          (f.is_eq_iff _ _).0 h
          ∙ ap₂ f.add e (sym f.from_uint-one)
          ∙ sym (f.from_uint-add m 1)
          ∙ ap f.from_uint (omega arith)

  Checks-Reached :
      (trace : List (RomTranscriptEntryVar F)) (i n k a : ℕ) (x y : RomTranscriptEntryVar F)
      → Checks trace i n
      → k ≤ n
      → get_elem? trace i ≡ some x
      → x.addr ≡ f.from_uint a
      → get_elem? trace (i + k) ≡ some y
      → Reached a k x.val y
  Checks-Reached trace i n zero a x y c h gx ex gy =
      let same : some y ≡ some x = sym gy ∙ ap (get_elem? trace) (omega arith) ∙ gx in
      (a, ground arith, omega arith, omega arith, λ e. ground arith)
  Checks-Reached trace i n (suc k) a x y c h gx ex gy =
      let at : CheckAt trace (i + k) = c (i + k) (omega arith) (omega arith) in
      let gy' : get_elem? trace (i + k + 1) ≡ some y = ap (get_elem? trace) (omega arith) ∙ gy in
      elim (Option-cases (get_elem? trace (i + k))) [
        | inl none_at ↦ ground arith
        | inr (z, gz) ↦
            coherence_check-Reached a k x.val z y (ground arith)
              (Checks-Reached trace i n k a x z c (omega arith) gx ex gz)
      ]

  -- The ordered form of the theorem below.
  coherent_from :
      (trace : List (RomTranscriptEntryVar F)) (i n k a : ℕ) (x y : RomTranscriptEntryVar F)
      → Checks trace i n
      → k ≤ n
      → get_elem? trace i ≡ some x
      → get_elem? trace (i + k) ≡ some y
      → x.addr ≡ f.from_uint a
      → a + n < f.modulus
      → x.addr ≡ y.addr
      → x.val ≡ y.val
  coherent_from trace i n k a x y c h gx gy ex small e =
      let (m, em, p, q, same) = Checks-Reached trace i n k a x y c h gx ex gy in
      sym (same (f.from_uint-injective m a (omega arith) (omega arith) (sym em ∙ sym e ∙ ex)))

  -- Let a subcircuit make its accesses with a ROM prover's manager whose address-ordered trace
  -- begins, at the current index, with an entry at the number `a`, the field being larger than
  -- `a` and the accesses together. If everything enforced holds afterwards, then any two entries
  -- from the current index to the last one checked that have equal addresses have equal values.
  pub prover_run-coherent :
      (ops : List (Access F)) (pm : RomProverPortalManager F) {pm' : RomProverPortalManager F}
      (a i j : ℕ) (first x y : RomTranscriptEntryVar F)
      → prover_run ops pm ≡ some pm'
      → pm'.satisfied ≡ true
      → get_elem? pm.addr_ordered_subtrace pm.next_entry_idx ≡ some first
      → first.addr ≡ f.from_uint a
      → a + length ops < f.modulus
      → i ≤ j
      → j ≤ length ops
      → get_elem? pm.addr_ordered_subtrace (pm.next_entry_idx + i) ≡ some x
      → get_elem? pm.addr_ordered_subtrace (pm.next_entry_idx + j) ≡ some y
      → x.addr ≡ y.addr
      → x.val ≡ y.val
  prover_run-coherent ops pm {pm'} a i j first x y run s gf ef small p q gx gy e =
      let trace = pm.addr_ordered_subtrace in
      let start = pm.next_entry_idx in
      let checks = (prover_run-Checks ops pm run s).1 in
      let (m, em, l, u, _) =
        Checks-Reached trace start (length ops) i a first x checks (omega arith) gf ef gx in
      coherent_from trace (start + i) (length ops - i) (j - i) m x y
        (λ k lo hi. checks k (omega arith) (omega arith)) (omega arith) gx
        (ap (get_elem? trace) (omega arith) ∙ gy) em (omega arith) e
