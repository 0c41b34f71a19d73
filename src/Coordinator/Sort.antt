-- ===== src/Coordinator/Sort.antt =====
-- `sort_subtraces_by_addr` of coordinator.rs: the permutation, the order and the chunks.
use mathlib.Core.List.{Perm}
use mathlib.Core.List.Perm
use hekaton_system.Prelude.{
  ◌≤◌, ◌<◌, ◌≡◌, refl, sym, ap, ap₂, ◌∙◌, ◌⊎◌, Bool, true, false, Bool-cases, inl, inr, some, List,
  [], ◌∷◌, ◌++◌, map, flatten, arith, length, length-append, length-take, length-drop, take, drop,
  take-append-drop, All, All-imp,
}
use hekaton_system.Transcript.{TranscriptEntry, addr, timestamp}
use hekaton_system.Coordinator.{insert_sorted, sort_by, chunk_back, key_le, sort_subtraces_by_addr}

module _ {ℓ} {A : Type ℓ} (le : A → A → Bool) where
  -- No entry is before one that it should follow.
  abbrev pub IsSorted : List A → Type 0
  IsSorted [] = Unit
  IsSorted (x ∷ xs) = All (λ y. le x y ≡ true) xs × IsSorted xs

  insert_sorted-perm : (x : A) (ys : List A) → Perm (insert_sorted le x ys) (x ∷ ys)
  unfolding insert_sorted
  insert_sorted-perm x [] = Perm.refl (x ∷ [])
  insert_sorted-perm x (y ∷ ys) = elim (Bool-cases (le x y)) [
    | inl h ↦ rw h (Perm.refl (x ∷ y ∷ ys))
    | inr h ↦ rw h (Perm.trans (Perm.cons y (insert_sorted-perm x ys)) (Perm.swap x y ys))
  ]

  length-insert_sorted : (x : A) (ys : List A) → length (insert_sorted le x ys) ≡ length (x ∷ ys)
  unfolding insert_sorted
  length-insert_sorted x [] = refl
  length-insert_sorted x (y ∷ ys) = ground (arith, length-insert_sorted x ys)

  length-sort_by : (xs : List A) → length (sort_by le xs) ≡ length xs
  unfolding sort_by
  length-sort_by [] = refl
  length-sort_by (x ∷ xs) = omega (arith, length-insert_sorted x (sort_by le xs), length-sort_by xs)

  pub sort_by-perm : (xs : List A) → Perm (sort_by le xs) xs
  unfolding sort_by
  sort_by-perm [] = Perm.refl []
  sort_by-perm (x ∷ xs) =
      Perm.trans (insert_sorted-perm x (sort_by le xs)) (Perm.cons x (sort_by-perm xs))

  module _ (total : (x y : A) → le x y ≡ false → le y x ≡ true)
      (trans : (x y z : A) → le x y ≡ true → le y z ≡ true → le x z ≡ true) where
    All-insert_sorted :
        (z x : A) (ys : List A)
        → le z x ≡ true
        → All (λ y. le z y ≡ true) ys
        → All (λ y. le z y ≡ true) (insert_sorted le x ys)
    unfolding insert_sorted
    All-insert_sorted z x [] h a = (h, tt)
    All-insert_sorted z x (y ∷ ys) h a = ground (arith, All-insert_sorted z x ys h a.1)

    All-trans :
        (x y : A) (zs : List A)
        → le x y ≡ true
        → All (λ z. le y z ≡ true) zs
        → All (λ z. le x z ≡ true) zs
    All-trans x y [] h a = tt
    All-trans x y (z ∷ zs) h a = (trans x y z h a.0, All-trans x y zs h a.1)

    insert_sorted-IsSorted : (x : A) (ys : List A) → IsSorted ys → IsSorted (insert_sorted le x ys)
    unfolding insert_sorted
    insert_sorted-IsSorted x [] s = (tt, tt)
    insert_sorted-IsSorted x (y ∷ ys) s = elim (Bool-cases (le x y)) [
      | inl h ↦ rw h ((h, All-trans x y ys h s.0), s)
      | inr h ↦ rw h (All-insert_sorted y x ys (total x y h) s.0, insert_sorted-IsSorted x ys s.1)
    ]

    pub sort_by-IsSorted : (xs : List A) → IsSorted (sort_by le xs)
    unfolding sort_by
    sort_by-IsSorted [] = tt
    sort_by-IsSorted (x ∷ xs) = insert_sorted-IsSorted x (sort_by le xs) (sort_by-IsSorted xs)

module _ {ℓ} {A : Type ℓ} where
  -- The chunks have the given sizes, and together they are the flat list.
  pub chunk_back_lem :
      (sts : List (List A)) (flat : List A)
      → length flat ≡ length (flatten sts)
      → (flatten (chunk_back sts flat) ≡ flat) × (map length (chunk_back sts flat) ≡ map length sts)
  unfolding chunk_back flatten
  chunk_back_lem [] [] h = (refl, refl)
  chunk_back_lem [] (x ∷ flat) h = absurd (omega arith)
  chunk_back_lem (st ∷ sts) flat h =
      let rest =
        chunk_back_lem sts (drop (length st) flat)
          (omega (arith, length-append st (flatten sts), length-drop (length st) flat)) in
      (
        ap (◌++◌ (take (length st) flat)) rest.0 ∙ take-append-drop (length st) flat,
        ap₂ ◌∷◌ (omega (arith, length-append st (flatten sts), length-take (length st) flat))
            rest.1,
      )

module _ {ℓ} {F : Type ℓ} where
  key_le-total : (e x y : TranscriptEntry F) → key_le e x y ≡ false → key_le e y x ≡ true
  unfolding key_le
  key_le-total (TranscriptEntry.rom e) x y h = ground arith
  key_le-total (TranscriptEntry.ram e) x y h = ground arith

  key_le_trans :
      (e x y z : TranscriptEntry F)
      → key_le e x y ≡ true
      → key_le e y z ≡ true
      → key_le e x z ≡ true
  unfolding key_le
  key_le_trans (TranscriptEntry.rom e) x y z h k = ground arith
  key_le_trans (TranscriptEntry.ram e) x y z h k = ground arith

  -- The order that the trace is to have, by the kind of its first entry: by address, and for RAM
  -- by time within an address.
  abbrev pub KeyLe : TranscriptEntry F → TranscriptEntry F → TranscriptEntry F → Type 0
  KeyLe (TranscriptEntry.rom e) x y = addr x ≤ addr y
  KeyLe (TranscriptEntry.ram e) x y =
      (addr x < addr y) ⊎ ((addr x ≡ addr y) × (timestamp x ≤ timestamp y))

  KeyLe-key_le : (e x y : TranscriptEntry F) → key_le e x y ≡ true → KeyLe e x y
  unfolding key_le
  KeyLe-key_le (TranscriptEntry.rom e) x y h = ground arith
  KeyLe-key_le (TranscriptEntry.ram e) x y h = ground arith

  -- Every entry is in order with each entry after it.
  abbrev pub IsKeySorted : TranscriptEntry F → List (TranscriptEntry F) → Type 0
  IsKeySorted e [] = Unit
  IsKeySorted e (x ∷ xs) = All (KeyLe e x) xs × IsKeySorted e xs

  IsSorted-IsKeySorted :
      (e : TranscriptEntry F) (xs : List (TranscriptEntry F))
      → IsSorted (key_le e) xs
      → IsKeySorted e xs
  IsSorted-IsKeySorted e [] s = tt
  IsSorted-IsKeySorted e (x ∷ xs) s = (
    All-imp (λ y. key_le e x y ≡ true) (KeyLe e x) (KeyLe-key_le e x) xs s.0,
    IsSorted-IsKeySorted e xs s.1,
  )

  -- On subtraces that hold an entry, sorting succeeds: the result has chunks of the same sizes in
  -- the same order, which together are a permutation of all the entries, sorted by the key.
  pub sort_subtraces_by_addr_lem :
      (sts : List (List (TranscriptEntry F))) (e : TranscriptEntry F)
      (es : List (TranscriptEntry F))
      → flatten sts ≡ e ∷ es
      → (out : List (List (TranscriptEntry F))) × (sort_subtraces_by_addr sts ≡ some out)
        × (map length out ≡ map length sts)
        × Perm (flatten out) (flatten sts)
        × IsKeySorted e (flatten out)
  unfolding sort_subtraces_by_addr
  sort_subtraces_by_addr_lem sts e es h =
      let flat = sort_by (key_le e) (e ∷ es) in
      let chunks =
        chunk_back_lem sts flat (length-sort_by (key_le e) (e ∷ es) ∙ ap length (sym h)) in
      (
        chunk_back sts flat,
        rw (h, sort_subtraces_by_addr) refl,
        chunks.1,
        rw (chunks.0, h) (sort_by-perm (key_le e) (e ∷ es)),
        rw (chunks.0) (
            IsSorted-IsKeySorted e flat
              (sort_by-IsSorted (key_le e) (key_le-total e) (key_le_trans e) (e ∷ es))),
      )
