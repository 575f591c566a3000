-- ===== src/Base/Options.antt =====
-- Chains of steps that may fail.
use mathlib.Core.Path.{◌≡◌, refl}
use mathlib.Core.Option.{Option, none, some, none-ne-some, some-injective}

infixl 5 ◌>>=◌
abbrev pub ◌>>=◌ {ℓ κ} : {A : Type ℓ} {B : Type κ} → Option A → (A → Option B) → Option B
none >>= f = none
some a >>= f = f a

module _ {ℓ κ} {A : Type ℓ} {B : Type κ} where
  pub bind_congr :
      (o : Option A) {f g : A → Option B} → ((a : A) → f a ≡ g a) → (o >>= f) ≡ (o >>= g)
  bind_congr none h = refl
  bind_congr (some a) h = h a

  pub bind_assoc {μ} :
      {C : Type μ} (o : Option A) (f : A → Option B) (g : B → Option C)
      → (o >>= f >>= g) ≡ (o >>= λ a. f a >>= g)
  bind_assoc none f g = refl
  bind_assoc (some a) f g = refl

  -- A chain that succeeds has a first step that succeeds.
  pub bind_some :
      (o : Option A) (f : A → Option B) {b : B}
      → (o >>= f) ≡ some b
      → (a : A) × (o ≡ some a) × (f a ≡ some b)
  bind_some none f h = cc
  bind_some (some a) f h = (a, refl, h)

-- A chain that gives a result with a property.
abbrev pub Succeeds {ℓ κ} : {A : Type ℓ} → Option A → (A → Type κ) → Type (ℓ ⊔ κ)
Succeeds {A = A} o P = (a : A) × (o ≡ some a) × P a

pub and_then {ℓ κ μ ν} :
    {A : Type ℓ} {B : Type κ} {P : A → Type μ} {Q : B → Type ν} (o : Option A) (f : A → Option B)
    → Succeeds o P
    → ((a : A) → P a → Succeeds (f a) Q)
    → Succeeds (o >>= f) Q
and_then none f h k = absurd (none-ne-some h.0 h.1)
and_then (some a) f h k = let e = some-injective a h.0 h.1 in k a (rw e h.2)
