-- ===== src/Portal.antt =====
-- distributed-prover/src/portal_manager/: reading and writing the wires that cross subcircuits.
pub mod Push
pub mod Rom
pub mod Ram
mod Tests
use hekaton_system.Prelude.{Bool, not, ◌||◌, Option, none, some, List, [], ◌∷◌, ◌++◌}

-- The trait `PortalManager`: what a subcircuit may do with the manager's state. `none` is a panic.
-- The running evaluations are read from the state itself.
pub record PortalManager {ℓ κ μ} (K : Type ℓ) (F : Type κ) (S : Type μ) : Type (ℓ ⊔ κ ⊔ μ) where
  pub get : K → S → Option (F × S)
  pub set : K → F → S → Option S

-- What a subcircuit asks of its manager, in order; the names play no part in the prover's.
pub data Access {ℓ} (F : Type ℓ) : Type ℓ where
  reads : Access F
  writes : F → Access F

-- `subtraces.last_mut().expect(…).push(entry)`.
module _ {ℓ} {E : Type ℓ} where
  unfoldable pub push_last : List (List E) → E → Option (List (List E))
  push_last [] e = none
  push_last (st ∷ []) e = some ((st ++ (e ∷ [])) ∷ [])
  push_last (st ∷ st' ∷ sts) e = elim (push_last (st' ∷ sts) e) [
    | none ↦ none
    | some sts' ↦ some (st ∷ sts')
  ]

-- `conditional_enforce_equal`: the equality of the two sides, where the condition holds.
abbrev pub conditional : Bool → Bool → Bool
conditional equal condition = not condition || equal
