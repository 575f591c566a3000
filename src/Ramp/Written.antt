-- ===== src/Ramp/Written.antt =====
-- Arrays whose first items are written.
use vray_for_houdini.Base.{
  ℕ, zero, suc, ◌+◌, ◌-◌, ◌*◌, ◌≤◌, ◌≡◌, refl, ap, sym, ◌∙◌, List, [], ◌∷◌, ◌++◌, some, arith,
  length, length-append, append_assoc, append-nil, Succeeds,
}
use vray_for_houdini.Attrs.RefList.{ptr_array}
use vray_for_houdini.Mesh.Array.{put, put-append, length-ptr_array}
use vray_for_houdini.Ramp.Curve.{put_two}
use vray_for_houdini.Ramp.Points.{at_points}

module _ {A : Type 0} where
  -- Two values for each of `n` points, from the point `i` on.
  abbrev pub pairs_at : (ℕ → A) → (ℕ → A) → ℕ → ℕ → List A
  pairs_at f g zero i = []
  pairs_at f g (suc n) i = f i ∷ g i ∷ pairs_at f g n (suc i)

  length-at_points : (f : ℕ → A) (n i : ℕ) → length (at_points f n i) ≡ n
  length-at_points f zero i = refl
  length-at_points f (suc n) i = ap suc (length-at_points f n (suc i))

  length-pairs_at : (f g : ℕ → A) (n i : ℕ) → length (pairs_at f g n i) ≡ n * 2
  length-pairs_at f g zero i = refl
  length-pairs_at f g (suc n) i = omega (arith, length-pairs_at f g n (suc i))

  append_assoc_one : (xs : List A) (a : A) (ys : List A) → xs ++ a ∷ ys ≡ (xs ++ a ∷ []) ++ ys
  append_assoc_one xs a ys = simp append_assoc

  append_assoc_two :
      (xs : List A) (a b : A) (ys : List A) → xs ++ a ∷ b ∷ ys ≡ (xs ++ a ∷ b ∷ []) ++ ys
  append_assoc_two xs a b ys = simp append_assoc

  at_points_last : (f : ℕ → A) (n i : ℕ) → at_points f (suc n) i ≡ at_points f n i ++ f (i + n) ∷ []
  at_points_last f zero i = let e : i + 0 ≡ i = omega arith in rw e refl
  at_points_last f (suc n) i =
      let e : suc i + n ≡ i + suc n = omega arith in
      ap (◌∷◌ (f i)) (rw e at (at_points_last f n (suc i)))

  pairs_at_last :
      (f g : ℕ → A) (n i : ℕ)
      → pairs_at f g (suc n) i ≡ pairs_at f g n i ++ f (i + n) ∷ g (i + n) ∷ []
  pairs_at_last f g zero i = let e : i + 0 ≡ i = omega arith in rw e refl
  pairs_at_last f g (suc n) i =
      let e : suc i + n ≡ i + suc n = omega arith in
      ap (λ l. f i ∷ g i ∷ l) (rw e at (pairs_at_last f g n (suc i)))

  -- The points before `i` are written, of `n` in all.
  pub Written : (ℕ → A) → ℕ → A → ℕ → List A → Type 0
  Written f n unset i xs = (k : ℕ) × (i ≡ suc k) × (xs ≡ at_points f k 1 ++ ptr_array (n - k) unset)

  pub Paired : (ℕ → A) → (ℕ → A) → ℕ → A → ℕ → List A → Type 0
  Paired f g n unset i xs =
      (k : ℕ) × (i ≡ suc k) × (xs ≡ pairs_at f g k 1 ++ ptr_array ((n - k) * 2) unset)

  pub put-Written :
      (f : ℕ → A) (n : ℕ) (unset : A) (i at : ℕ) (xs : List A)
      → Written f n unset i xs
      → at ≡ i - 1
      → i ≤ n
      → Succeeds (put xs at (f i)) (Written f n unset (suc i))
  unfolding ptr_array Written
  put-Written f n unset i at xs h p b =
      let k = h.0 in
      let e : n - k ≡ suc (n - suc k) = omega (arith, h.1) in
      let place : at ≡ length (at_points f k 1) = omega (arith, h.1, length-at_points f k 1) in
      let here : f i ≡ f (1 + k) = ap f (omega (arith, h.1)) in
      let done = put-append (at_points f k 1) unset (ptr_array (n - suc k) unset) at (f i) place in
      let rest = ptr_array (n - suc k) unset in
      let read : xs ≡ at_points f k 1 ++ unset ∷ rest = rw e at h.2 in
      let after : at_points f k 1 ++ f i ∷ rest ≡ at_points f (suc k) 1 ++ rest = rw here (
        append_assoc_one (at_points f k 1) (f (1 + k)) rest
        ∙ ap (λ l. l ++ rest) (sym (at_points_last f k 1))) in
      (
        at_points f (suc k) 1 ++ ptr_array (n - suc k) unset,
        ap (λ l. put l at (f i)) read ∙ done ∙ ap some after,
        (suc k, ap suc h.1, refl),
      )

  -- Two writes, of a point's pair.
  pub put-Paired :
      (f g : ℕ → A) (n : ℕ) (unset : A) (i at : ℕ) (xs : List A)
      → Paired f g n unset i xs
      → at ≡ (i - 1) * 2
      → i ≤ n
      → Succeeds (put_two xs at (f i) (g i)) (Paired f g n unset (suc i))
  unfolding ptr_array Paired
  put-Paired f g n unset i at xs h p b =
      let k = h.0 in
      let e : (n - k) * 2 ≡ suc (suc ((n - suc k) * 2)) = omega (arith, h.1) in
      let pairs = pairs_at f g k 1 in
      let rest = ptr_array ((n - suc k) * 2) unset in
      let count = length-pairs_at f g k 1 in
      let here : i ≡ 1 + k = omega (arith, h.1) in
      let read : xs ≡ pairs ++ unset ∷ unset ∷ rest = rw e at h.2 in
      let first = put-append pairs unset (unset ∷ rest) at (f i) (omega (arith, h.1, count)) in
      let second =
        put-append (pairs ++ f i ∷ []) unset rest (at + 1) (g i)
          (omega (arith, h.1, count, length-append pairs (f i ∷ []))) in
      let after : (pairs ++ f i ∷ []) ++ g i ∷ rest ≡ pairs_at f g (suc k) 1 ++ rest =
        sym (append_assoc_one pairs (f i) (g i ∷ rest))
        ∙ append_assoc_two pairs (f i) (g i) rest
        ∙ ap (λ j. (pairs ++ f j ∷ g j ∷ []) ++ rest) here
        ∙ ap (λ l. l ++ rest) (sym (pairs_at_last f g k 1)) in
      (
        pairs_at f g (suc k) 1 ++ rest,
        rw (read, first, append_assoc_one pairs (f i) (unset ∷ rest), second) (ap some after),
        (suc k, ap suc h.1, refl),
      )

  pub Written-start : (f : ℕ → A) (n : ℕ) (unset : A) → Written f n unset 1 (ptr_array n unset)
  unfolding Written
  Written-start f n unset = let e : n - 0 ≡ n = omega arith in (0, refl, rw e refl)

  pub Paired-start :
      (f g : ℕ → A) (n : ℕ) (unset : A) → Paired f g n unset 1 (ptr_array (n * 2) unset)
  unfolding Paired
  Paired-start f g n unset = let e : n - 0 ≡ n = omega arith in (0, refl, rw e refl)

  pub Written-end :
      (f : ℕ → A) (n : ℕ) (unset : A) (xs : List A)
      → Written f n unset (1 + n) xs
      → xs ≡ at_points f n 1
  unfolding Written ptr_array
  Written-end f n unset xs h =
      let k : h.0 ≡ n = omega (arith, h.1) in
      let e : n - n ≡ 0 = omega arith in rw (k, e, append-nil) at h.2

  pub Paired-end :
      (f g : ℕ → A) (n : ℕ) (unset : A) (xs : List A)
      → Paired f g n unset (1 + n) xs
      → xs ≡ pairs_at f g n 1
  unfolding Paired ptr_array
  Paired-end f g n unset xs h =
      let k : h.0 ≡ n = omega (arith, h.1) in
      let e : n - n ≡ 0 = omega arith in rw (k, e, append-nil) at h.2

  pub Written-part :
      (f : ℕ → A) (n k : ℕ) (unset : A) (xs : List A)
      → Written f n unset (1 + k) xs
      → xs ≡ at_points f k 1 ++ ptr_array (n - k) unset
  unfolding Written
  Written-part f n k unset xs h = let e : h.0 ≡ k = omega (arith, h.1) in rw e at h.2

  pub length-Written :
      (f : ℕ → A) (n : ℕ) (unset : A) (i : ℕ) (xs : List A)
      → Written f n unset i xs
      → i ≤ suc n
      → length xs ≡ n
  unfolding Written
  length-Written f n unset i xs h b = rw (h.2) (
      omega (
        arith,
        h.1,
        length-append (at_points f h.0 1) (ptr_array (n - h.0) unset),
        length-at_points f h.0 1,
        length-ptr_array (n - h.0) unset,
      ))
