-- ===== src/Base/Lists.antt =====
-- Lists measured by native numbers, and predicates on all items.
use Prim.Native.Nat.{ℕ, zero, suc, ◌+◌}
use mathlib.Core.Path.{◌≡◌, refl}
use mathlib.Core.List.{List, [], ◌∷◌, ◌++◌}
use mathlib.Core.Option.{Option, none, some}
use native.Mathlib.Omega.{arith}

module _ {ℓ} {A : Type ℓ} where
  abbrev pub length : List A → ℕ
  length [] = 0
  length (x ∷ xs) = suc (length xs)

  abbrev pub get_elem? : List A → ℕ → Option A
  get_elem? [] i = none
  get_elem? (x ∷ xs) zero = some x
  get_elem? (x ∷ xs) (suc i) = get_elem? xs i

  pub length-append : (xs ys : List A) → length (xs ++ ys) ≡ length xs + length ys
  length-append [] ys = omega arith
  length-append (x ∷ xs) ys = omega (arith, length-append xs ys)

  -- The item after a known front.
  pub get_elem?-after :
      (done : List A) (x : A) (rest : List A) (i : ℕ)
      → i ≡ length done
      → get_elem? (done ++ x ∷ rest) i ≡ some x
  get_elem?-after [] x rest zero h = refl
  get_elem?-after [] x rest (suc i) h = absurd (omega arith)
  get_elem?-after (y ∷ done) x rest zero h = absurd (omega arith)
  get_elem?-after (y ∷ done) x rest (suc i) h = get_elem?-after done x rest i (omega arith)

  abbrev pub All {κ} : (A → Type κ) → List A → Type κ
  All P [] = Unit
  All P (x ∷ xs) = P x × All P xs
