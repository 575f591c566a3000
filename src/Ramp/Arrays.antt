-- ===== src/Ramp/Arrays.antt =====
-- Reads and writes within the bounds of an array, and loops that keep an invariant.
use vray_for_houdini.Base.{
  ℕ, zero, suc, ◌+◌, ◌-◌, ◌≤◌, ◌<◌, ◌≡◌, refl, List, [], ◌∷◌, Option, some, arith, length,
  get_elem?, ◌>>=◌, Succeeds, and_then,
}
use vray_for_houdini.Mesh.Array.{put}
use vray_for_houdini.Ramp.Curve.{prev, for_up, for_down}

module _ {A : Type 0} where
  abbrev Any : A → Type 0
  Any a = Unit

  pub get_some : (xs : List A) (i : ℕ) → i < length xs → Succeeds (get_elem? xs i) Any
  get_some [] i h = absurd (omega arith)
  get_some (x ∷ xs) zero h = (x, refl, tt)
  get_some (x ∷ xs) (suc i) h = get_some xs i (omega arith)

  pub prev_some : (xs : List A) (i : ℕ) → 0 < i → i ≤ length xs → Succeeds (prev xs i) Any
  prev_some xs zero h k = absurd (omega arith)
  prev_some xs (suc i) h k = get_some xs i (omega arith)

  pub put_some :
      (xs : List A) (i : ℕ) (v : A) (n : ℕ)
      → length xs ≡ n
      → i < n
      → Succeeds (put xs i v) (λ ys. length ys ≡ n)
  unfolding put
  put_some [] i v n e h = absurd (omega arith)
  put_some (x ∷ xs) zero v n e h = (v ∷ xs, refl, e)
  put_some (x ∷ xs) (suc i) v n e h =
      and_then (put xs i v) (λ rest. some (x ∷ rest))
        (put_some xs i v (n - 1) (omega arith) (omega arith)) (λ ys k. (x ∷ ys, refl, omega arith))

  pub for_up_lem :
      (P : ℕ → A → Type 0) (f : ℕ → A → Option A) (n i : ℕ) (s : A)
      → P i s
      → ((j : ℕ) (t : A) → i ≤ j → j < i + n → P j t → Succeeds (f j t) (P (suc j)))
      → Succeeds (for_up f n i s) (P (i + n))
  unfolding for_up
  for_up_lem P f zero i s h step = let e : i + 0 ≡ i = omega arith in (s, refl, rw e h)
  for_up_lem P f (suc n) i s h step =
      let e : i + suc n ≡ suc i + n = omega arith in
      and_then (f i s) (λ t. for_up f n (suc i) t) (step i s (omega arith) (omega arith) h)
        (λ t k.
          rw e (for_up_lem P f n (suc i) t k (λ j u a b q. step j u (omega arith) (omega arith) q)))

  pub for_down_lem :
      (P : A → Type 0) (f : ℕ → A → Option A) (n : ℕ) (s : A)
      → P s
      → ((j : ℕ) (t : A) → 0 < j → j ≤ n → P t → Succeeds (f j t) P)
      → Succeeds (for_down f n s) P
  unfolding for_down
  for_down_lem P f zero s h step = (s, refl, h)
  for_down_lem P f (suc n) s h step =
      and_then (f (suc n) s) (λ t. for_down f n t) (step (suc n) s (omega arith) (omega arith) h)
        (λ t k. for_down_lem P f n t k (λ j u a b q. step j u a (omega arith) q))

module _ {A B : Type 0} {Q : B → Type 0} where
  pub get_then :
      (xs : List A) (i : ℕ) (f : A → Option B)
      → i < length xs
      → ((a : A) → Succeeds (f a) Q)
      → Succeeds (get_elem? xs i >>= f) Q
  get_then xs i f h k = and_then (get_elem? xs i) f (get_some xs i h) (λ a _. k a)

  pub prev_then :
      (xs : List A) (i : ℕ) (f : A → Option B)
      → 0 < i
      → i ≤ length xs
      → ((a : A) → Succeeds (f a) Q)
      → Succeeds (prev xs i >>= f) Q
  prev_then xs i f h l k = and_then (prev xs i) f (prev_some xs i h l) (λ a _. k a)

  pub put_then :
      (xs : List A) (i : ℕ) (v : A) (n : ℕ) (f : List A → Option B)
      → length xs ≡ n
      → i < n
      → ((ys : List A) → length ys ≡ n → Succeeds (f ys) Q)
      → Succeeds (put xs i v >>= f) Q
  put_then xs i v n f e h k = and_then (put xs i v) f (put_some xs i v n e h) k
