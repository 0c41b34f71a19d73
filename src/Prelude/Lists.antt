-- ===== src/Prelude/Lists.antt =====
-- Lists measured and indexed by native numbers, under the library's names.
use Prim.Native.Nat.{◌<◌, ℕ, zero, suc, ◌+◌, ◌-◌, min}
use mathlib.Core.Path.{◌≡◌, refl, ap, subst}
use mathlib.Core.List.{map, List, [], ◌∷◌, ◌++◌}
use mathlib.Core.Option.{some-injective, Option, none, some}
use native.Mathlib.Omega.{arith}

module _ {ℓ} {A : Type ℓ} where
  abbrev pub length : List A → ℕ
  length [] = 0
  length (x ∷ xs) = suc (length xs)

  abbrev pub get_elem? : List A → ℕ → Option A
  get_elem? [] i = none
  get_elem? (x ∷ xs) zero = some x
  get_elem? (x ∷ xs) (suc i) = get_elem? xs i

  abbrev pub get_or : List A → ℕ → A → A
  get_or [] i d = d
  get_or (x ∷ xs) zero d = x
  get_or (x ∷ xs) (suc i) d = get_or xs i d

  -- A write out of bounds changes nothing.
  abbrev pub set : List A → ℕ → A → List A
  set [] i v = []
  set (x ∷ xs) zero v = v ∷ xs
  set (x ∷ xs) (suc i) v = x ∷ set xs i v

  abbrev pub take : ℕ → List A → List A
  take zero xs = []
  take (suc n) [] = []
  take (suc n) (x ∷ xs) = x ∷ take n xs

  abbrev pub drop : ℕ → List A → List A
  drop zero xs = xs
  drop (suc n) [] = []
  drop (suc n) (x ∷ xs) = drop n xs

  abbrev pub replicate : ℕ → A → List A
  replicate zero a = []
  replicate (suc n) a = a ∷ replicate n a

  abbrev pub All {κ} : (A → Type κ) → List A → Type κ
  All P [] = Unit
  All P (x ∷ xs) = P x × All P xs

module _ {ℓ} {A : Type ℓ} where
  pub length-append : (xs ys : List A) → length (xs ++ ys) ≡ length xs + length ys
  length-append [] ys = omega arith
  length-append (x ∷ xs) ys = omega (arith, length-append xs ys)

  pub take-append-drop : (n : ℕ) (xs : List A) → take n xs ++ drop n xs ≡ xs
  take-append-drop zero xs = refl
  take-append-drop (suc n) [] = refl
  take-append-drop (suc n) (x ∷ xs) = rw (take-append-drop n xs)

  pub take-prefix : (xs ys : List A) (n : ℕ) → length xs ≡ n → take n (xs ++ ys) ≡ xs
  take-prefix [] ys n h = rw (← h) refl
  take-prefix (x ∷ xs) ys zero h = absurd (omega arith)
  take-prefix (x ∷ xs) ys (suc n) h = ap (◌∷◌ x) (take-prefix xs ys n (omega arith))

  pub drop-prefix : (xs ys : List A) (n : ℕ) → length xs ≡ n → drop n (xs ++ ys) ≡ ys
  drop-prefix [] ys n h = rw (← h) refl
  drop-prefix (x ∷ xs) ys zero h = absurd (omega arith)
  drop-prefix (x ∷ xs) ys (suc n) h = drop-prefix xs ys n (omega arith)

  pub length-take : (n : ℕ) (xs : List A) → length (take n xs) ≡ min n (length xs)
  length-take zero xs = omega arith
  length-take (suc n) [] = omega arith
  length-take (suc n) (x ∷ xs) = omega (arith, length-take n xs)

  pub length-drop : (n : ℕ) (xs : List A) → length (drop n xs) ≡ length xs - n
  length-drop zero xs = omega arith
  length-drop (suc n) [] = omega arith
  length-drop (suc n) (x ∷ xs) = omega (arith, length-drop n xs)

  pub length-replicate : (n : ℕ) (a : A) → length (replicate n a) ≡ n
  length-replicate zero a = refl
  length-replicate (suc n) a = ap suc (length-replicate n a)

  pub All-append {κ} : (P : A → Type κ) (xs ys : List A) → All P xs → All P ys → All P (xs ++ ys)
  All-append P [] ys a b = b
  All-append P (x ∷ xs) ys a b = (a.0, All-append P xs ys a.1 b)

  pub All-imp {κ μ} :
      (P : A → Type κ) (Q : A → Type μ)
      → ((x : A) → P x → Q x)
      → (xs : List A) → All P xs
      → All Q xs
  All-imp P Q f [] a = tt
  All-imp P Q f (x ∷ xs) a = (f x a.0, All-imp P Q f xs a.1)

  pub All-get_elem? {κ} :
      (P : A → Type κ) (xs : List A) (i : ℕ) (x : A) → All P xs → get_elem? xs i ≡ some x → P x
  All-get_elem? P [] i x a h = ground arith
  All-get_elem? P (y ∷ xs) zero x a h = let same : y ≡ x = ground arith in subst P same a.0
  All-get_elem? P (y ∷ xs) (suc i) x a h = All-get_elem? P xs i x a.1 h

pub length-map {ℓ κ} :
    {A : Type ℓ} {B : Type κ} (g : A → B) (xs : List A) → length (map g xs) ≡ length xs
length-map g [] = refl
length-map g (x ∷ xs) = omega (arith, length-map g xs)

module _ {ℓ} {A : Type ℓ} where
  pub get_elem?-bound : (l : List A) (i : ℕ) (a : A) → get_elem? l i ≡ some a → i < length l
  get_elem?-bound [] i a h = absurd (ground arith)
  get_elem?-bound (x ∷ l) zero a h = omega arith
  get_elem?-bound (x ∷ l) (suc i) a h = omega (arith, get_elem?-bound l i a h)

module _ {ℓ κ} {A : Type ℓ} {B : Type κ} where
  pub get_elem?-map :
      (g : A → B) (l : List A) (i : ℕ) (a : A)
      → get_elem? l i ≡ some a
      → get_elem? (map g l) i ≡ some (g a)
  get_elem?-map g [] i a h = absurd (ground arith)
  get_elem?-map g (x ∷ l) zero a h = ap (λ y. some (g y)) (some-injective _ _ h)
  get_elem?-map g (x ∷ l) (suc i) a h = get_elem?-map g l i a h
