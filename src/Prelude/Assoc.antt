-- ===== src/Prelude/Assoc.antt =====
-- A `HashMap` as an association list: an insertion hides the older binding of its key.
use mathlib.Core.Path.{◌≡◌, refl}
use mathlib.Core.Logic.{◌≢◌, ite, if_pos, if_neg}
use mathlib.Core.List.{List, [], ◌∷◌}
use mathlib.Core.Option.{Option, none, some}

module _ {ℓ κ} {K : Type ℓ} {V : Type κ} (eq : Discrete K) where
  unfoldable pub lookup : K → List (K × V) → Option V
  lookup k [] = none
  lookup k ((j, v) ∷ m) = ite (eq j k) (some v) (lookup k m)

  unfoldable pub insert : K → V → List (K × V) → List (K × V)
  insert k v m = (k, v) ∷ m

  pub lookup-insert_self : (k : K) (v : V) (m : List (K × V)) → lookup k (insert k v m) ≡ some v
  unfolding lookup insert
  lookup-insert_self k v m = rw (if_pos (eq k k) refl)

  pub lookup-insert_ne :
      (k j : K) (v : V) (m : List (K × V)) → k ≢ j → lookup j (insert k v m) ≡ lookup j m
  unfolding lookup insert
  lookup-insert_ne k j v m ne = rw (if_neg (eq k j) ne)
