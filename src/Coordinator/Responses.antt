-- ===== src/Coordinator/Responses.antt =====
-- coordinator.rs and worker.rs: the workers' responses, which the coordinator sorts by the index of
-- the subcircuit.
use mathlib.Core.List.{Permᴰ, Memᴰ}
use hekaton_system.Prelude.{
  ℕ, ◌≡◌, refl, sym, ap, ap₂, ◌∙◌, Bool, true, List, [], ◌∷◌, map, arith, leb, All, ◌≢◌, ℕ_discrete,
}
use hekaton_system.Coordinator.{insert_sorted, sort_by}
use hekaton_system.Coordinator.Sort.{IsSorted}

pub record Stage0Response {ℓ κ} (Com : Type ℓ) (Seed : Type κ) : Type (ℓ ⊔ κ) where
  pub subcircuit_idx : ℕ
  pub commitment : Com
  pub com_seed : Seed

pub record Stage1Response {ℓ} (Proof : Type ℓ) : Type ℓ where
  pub subcircuit_idx : ℕ
  pub proof : Proof

module _ {ℓ} {A : Type ℓ} (key : A → ℕ) where
  unfoldable pub sort_by_key : List A → List A
  sort_by_key = sort_by (λ a b. leb (key a) (key b))

-- The commitments and the seeds of `process_stage0_responses`.
unfoldable pub collect_commitments {ℓ κ} :
    {Com : Type ℓ} {Seed : Type κ} → List (Stage0Response Com Seed) → List Com × List Seed
unfolding sort_by_key
collect_commitments responses =
    let buf = sort_by_key (λ r. r.subcircuit_idx) responses in
    (map (λ r. r.commitment) buf, map (λ r. r.com_seed) buf)

-- The proofs of `gen_agg_proof`.
unfoldable pub collect_proofs {ℓ} : {Proof : Type ℓ} → List (Stage1Response Proof) → List Proof
unfolding sort_by_key
collect_proofs resps = map (λ r. r.proof) (sort_by_key (λ r. r.subcircuit_idx) resps)

module _ {ℓ} {A : Type ℓ} where
  Permᴰ-Memᴰ : {a : A} {xs ys : List A} → Permᴰ xs ys → Memᴰ a ys → Memᴰ a xs
  Permᴰ-Memᴰ Permᴰ.nil m = m
  Permᴰ-Memᴰ (Permᴰ.cons e p) (Memᴰ.head q) = Memᴰ.head (q ∙ sym e)
  Permᴰ-Memᴰ (Permᴰ.cons e p) (Memᴰ.tail m) = Memᴰ.tail (Permᴰ-Memᴰ p m)
  Permᴰ-Memᴰ (Permᴰ.swap e e') (Memᴰ.head q) = Memᴰ.tail (Memᴰ.head (q ∙ sym e'))
  Permᴰ-Memᴰ (Permᴰ.swap e e') (Memᴰ.tail (Memᴰ.head q)) = Memᴰ.head (q ∙ sym e)
  Permᴰ-Memᴰ (Permᴰ.swap e e') (Memᴰ.tail (Memᴰ.tail m)) = Memᴰ.tail (Memᴰ.tail m)
  Permᴰ-Memᴰ (Permᴰ.trans p q) m = Permᴰ-Memᴰ p (Permᴰ-Memᴰ q m)

module _ {ℓ} {A : Type ℓ} (key : A → ℕ) where
  abbrev le : A → A → Bool
  le a b = leb (key a) (key b)

  -- No two different elements have one key.
  abbrev pub OneEach : List A → Type ℓ
  OneEach xs = (x y : A) → Memᴰ x xs → Memᴰ y xs → key x ≡ key y → x ≡ y

  insert_apart :
      (x y : A) (zs : List A)
      → key x ≢ key y
      → insert_sorted le x (insert_sorted le y zs) ≡ insert_sorted le y (insert_sorted le x zs)
  unfolding insert_sorted
  insert_apart x y [] ne = ground arith
  insert_apart x y (z ∷ zs) ne = ground (arith, insert_apart x y zs ne)

  insert_sorted_comm :
      (x y : A) (zs : List A)
      → (key x ≡ key y → x ≡ y)
      → insert_sorted le x (insert_sorted le y zs) ≡ insert_sorted le y (insert_sorted le x zs)
  insert_sorted_comm x y zs one = elim (ℕ_discrete (key x) (key y)) [
    | yes e ↦ rw (one e) refl
    | no ne ↦ insert_apart x y zs ne
  ]

  sort_by_key-Permᴰ :
      {xs ys : List A} → Permᴰ xs ys → OneEach xs → sort_by_key key xs ≡ sort_by_key key ys
  unfolding sort_by_key sort_by
  sort_by_key-Permᴰ Permᴰ.nil one = refl
  sort_by_key-Permᴰ (Permᴰ.cons e p) one =
      ap₂ (insert_sorted le) e
        (sort_by_key-Permᴰ p (λ x y m n k. one x y (Memᴰ.tail m) (Memᴰ.tail n) k))
  sort_by_key-Permᴰ (Permᴰ.swap {a = a} {b = b} {l = l} e e') one =
      insert_sorted_comm a b (sort_by le l) (one a b (Memᴰ.head refl) (Memᴰ.tail (Memᴰ.head refl)))
      ∙ ap₂ (λ u v. insert_sorted le u (insert_sorted le v (sort_by le l))) e' e
  sort_by_key-Permᴰ (Permᴰ.trans p q) one =
      sort_by_key-Permᴰ p one
      ∙ sort_by_key-Permᴰ q (λ x y m n k. one x y (Permᴰ-Memᴰ p m) (Permᴰ-Memᴰ p n) k)

  insert_sorted-first :
      (x : A) (ys : List A) → All (λ y. le x y ≡ true) ys → insert_sorted le x ys ≡ x ∷ ys
  unfolding insert_sorted
  insert_sorted-first x [] a = refl
  insert_sorted-first x (y ∷ ys) a = rw (a.0) refl

  sort_by_key-IsSorted : (xs : List A) → IsSorted le xs → sort_by_key key xs ≡ xs
  unfolding sort_by_key sort_by
  sort_by_key-IsSorted [] s = refl
  sort_by_key-IsSorted (x ∷ xs) s =
      ap (insert_sorted le x) (sort_by_key-IsSorted xs s.1) ∙ insert_sorted-first x xs s.0

  -- Each key is at most the keys that stand after it.
  abbrev pub InOrder : List A → Type 0
  InOrder = IsSorted le

-- Let the responses that arrive be a rearrangement of responses that stand in the order of their
-- subcircuits, no two different ones being for one subcircuit. Then the coordinator goes on with the
-- commitments and the seeds in the order of the subcircuits.
pub collect_commitments-InOrder {ℓ κ} :
    {Com : Type ℓ} {Seed : Type κ} (arrived ordered : List (Stage0Response Com Seed))
    → Permᴰ arrived ordered
    → OneEach (λ r. r.subcircuit_idx) arrived
    → InOrder (λ r. r.subcircuit_idx) ordered
    → collect_commitments arrived ≡ (map (λ r. r.commitment) ordered, map (λ r. r.com_seed) ordered)
unfolding collect_commitments
collect_commitments-InOrder arrived ordered p one s =
    ap (λ buf. (map (λ r. r.commitment) buf, map (λ r. r.com_seed) buf))
      (sort_by_key-Permᴰ (λ r. r.subcircuit_idx) p one
        ∙ sort_by_key-IsSorted (λ r. r.subcircuit_idx) ordered s)

pub collect_proofs-InOrder {ℓ} :
    {Proof : Type ℓ} (arrived ordered : List (Stage1Response Proof))
    → Permᴰ arrived ordered
    → OneEach (λ r. r.subcircuit_idx) arrived
    → InOrder (λ r. r.subcircuit_idx) ordered
    → collect_proofs arrived ≡ map (λ r. r.proof) ordered
unfolding collect_proofs
collect_proofs-InOrder arrived ordered p one s = ap (map (λ r. r.proof)) (
    sort_by_key-Permᴰ (λ r. r.subcircuit_idx) p one
    ∙ sort_by_key-IsSorted (λ r. r.subcircuit_idx) ordered s)
