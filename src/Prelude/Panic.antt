-- ===== src/Prelude/Panic.antt =====
-- Code that may panic, as an option with its bind, and the rules for code that returns.
use mathlib.Core.Path.{◌≡◌, refl}
use mathlib.Core.Bool.{Bool, true, false, ◌&&◌}
use mathlib.Core.Option.{Option, none, some}

infixl 5 ◌>>=◌
abbrev pub ◌>>=◌ {ℓ κ} : {A : Type ℓ} {B : Type κ} → Option A → (A → Option B) → Option B
m >>= next = elim m [ none ↦ none | some x ↦ next x ]

-- There is no panic, and the result has the property.
module _ {ℓ κ} {A : Type ℓ} (Good : A → Type κ) where
  pub data Returns : Option A → Type (ℓ ⊔ κ) where
    returns : {x : A} → Good x → Returns (some x)

pub Returns-inv {ℓ κ} :
    {A : Type ℓ} {Good : A → Type κ} {m : Option A}
    → Returns Good m
    → (x : A) × (m ≡ some x) × Good x
Returns-inv (returns g) = (_, refl, g)

pub Returns-map {ℓ κ κ'} :
    {A : Type ℓ} {Good : A → Type κ} {Better : A → Type κ'} {m : Option A}
    → Returns Good m
    → ((x : A) → Good x → Better x)
    → Returns Better m
Returns-map (returns g) improve = returns (improve _ g)

-- A step and what follows it.
pub Returns-bind {ℓ κ ℓ' κ'} :
    {A : Type ℓ} {B : Type ℓ'} {Good : A → Type κ} {Goal : B → Type κ'} {m : Option A}
    {next : A → Option B}
    → Returns Good m
    → ((x : A) → Good x → Returns Goal (next x))
    → Returns Goal (m >>= next)
Returns-bind (returns g) rest = rest _ g

module _ {ℓ κ μ} {A : Type ℓ} {B : Type κ} {C : Type μ} where
  pub bind_assoc :
      (m : Option A) (g : A → Option B) (h : B → Option C)
      → ((m >>= g) >>= h) ≡ (m >>= λ a. g a >>= h)
  bind_assoc none g h = refl
  bind_assoc (some a) g h = refl

module _ {ℓ κ} {A : Type ℓ} {B : Type κ} where
  pub bind_ext : (m : Option A) (g h : A → Option B) → ((a : A) → g a ≡ h a) → (m >>= g) ≡ (m >>= h)
  bind_ext none g h e = refl
  bind_ext (some a) g h e = e a

module _ {ℓ} {A : Type ℓ} where
  pub bind_some : (m : Option A) → (m >>= λ a. some a) ≡ m
  bind_some none = refl
  bind_some (some a) = refl

module _ {ℓ κ} {A : Type ℓ} {B : Type κ} where
  -- A bind that returns, taken apart.
  pub bind-inv :
      (m : Option A) (g : A → Option B) {b : B}
      → (m >>= g) ≡ some b
      → (a : A) × (m ≡ some a) × (g a ≡ some b)
  bind-inv none g e = cc
  bind-inv (some a) g e = (a, refl, e)

pub and-inv : (a b : Bool) → (a && b) ≡ true → (a ≡ true) × (b ≡ true)
and-inv true b e = (refl, e)
and-inv false b e = cc
