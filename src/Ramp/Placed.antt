-- ===== src/Ramp/Placed.antt =====
-- The points of a curve, each followed by its two handles, in the lists of `getCurveData`.
use vray_for_houdini.Base.{
  ℕ, zero, suc, ◌+◌, ◌-◌, ◌*◌, ◌<◌, ◌≡◌, refl, sym, ap, ◌∙◌, Bool, true, false, List, [], ◌∷◌, ◌++◌,
  map, arith, length, length-append, append_assoc, Succeeds, and_then, some, get_elem?,
}
use vray_for_houdini.Attrs.RefList.{ptr_array, item}
use vray_for_houdini.Mesh.Array.{put, put-append, get_elem?_lem}
use vray_for_houdini.Ramp.Points.{at_points}
use vray_for_houdini.Ramp.Curve.{Floats}
use vray_for_houdini.Ramp.Spline.{Spline}
use vray_for_houdini.Ramp.Handles.{Handles, put_pair, put_handles}
use vray_for_houdini.Ramp.Solved.{Sized}
use vray_for_houdini.Ramp.Curves.{handled}

-- Both parts of each pair by turns.
abbrev pub by_turns : {F : Type 0} → List (F × F) → List F
by_turns [] = []
by_turns ((a, b) ∷ pairs) = a ∷ b ∷ by_turns pairs

by_turns-append :
    {F : Type 0} (xs : List (F × F)) (a b : F)
    → by_turns (xs ++ (a, b) ∷ []) ≡ by_turns xs ++ a ∷ b ∷ []
by_turns-append [] a b = refl
by_turns-append ((c, d) ∷ xs) a b = ap (λ l. c ∷ d ∷ l) (by_turns-append xs a b)

abbrev firsts : {F : Type 0} → List (F × F) → List F
firsts = map (λ p. p.0)

abbrev seconds : {F : Type 0} → List (F × F) → List F
seconds = map (λ p. p.1)

firsts-append :
    {F : Type 0} (xs : List (F × F)) (a b : F) → firsts (xs ++ (a, b) ∷ []) ≡ firsts xs ++ a ∷ []
firsts-append [] a b = refl
firsts-append (c ∷ xs) a b = ap (◌∷◌ c.0) (firsts-append xs a b)

seconds-append :
    {F : Type 0} (xs : List (F × F)) (a b : F) → seconds (xs ++ (a, b) ∷ []) ≡ seconds xs ++ b ∷ []
seconds-append [] a b = refl
seconds-append (c ∷ xs) a b = ap (◌∷◌ c.1) (seconds-append xs a b)

-- One more item, of those that are not written yet.
put_next :
    {F : Type 0} (done xs : List F) (a unset : F) (k i : ℕ)
    → xs ≡ done ++ ptr_array (suc k) unset
    → i ≡ length done
    → put xs i a ≡ some ((done ++ a ∷ []) ++ ptr_array k unset)
unfolding ptr_array
put_next done xs a unset k i e h =
    rw (e, append_assoc) (put-append done unset (ptr_array k unset) i a h)

module _ {F : Type 0} (o : Floats F) (unset : F) (f g : ℕ → F) (s : Spline F) where
  open o use {times, over, negative, num}

  -- The two handles of the point `p`, counted from 0, as offsets: the left one and the right one.
  abbrev left_handle : ℕ → F × F
  left_handle p =
      let before = negative (item s.delta_x p unset) in
      (over before (num 3), over (times before (item s.y_prim p unset)) (num 3))

  abbrev right_handle : ℕ → F × F
  right_handle p =
      let after = item s.delta_x (p + 1) unset in
      (over after (num 3), over (times after (item s.y_prim p unset)) (num 3))

  -- Points with their handles, from the point `p` on.
  abbrev pub with_handles : ℕ → ℕ → List (F × F)
  with_handles zero p = []
  with_handles (suc n) p =
      (f (suc p), g (suc p)) ∷ left_handle p ∷ right_handle p ∷ with_handles n (suc p)

  pub with_handles_last :
      (n p : ℕ)
      → with_handles (suc n) p
        ≡ with_handles n p
          ++ (f (suc (p + n)), g (suc (p + n))) ∷ left_handle (p + n) ∷ right_handle (p + n) ∷ []
  with_handles_last zero p = let e : p + 0 ≡ p = omega arith in rw e refl
  with_handles_last (suc n) p =
      let e : suc p + n ≡ p + suc n = omega arith in
      ap (λ l. (f (suc p), g (suc p)) ∷ left_handle p ∷ right_handle p ∷ l)
        (rw e at (with_handles_last n (suc p)))

  pub item-at_points :
      (h : ℕ → F) (n i p : ℕ) (rest : List F)
      → p < n
      → item (at_points h n i ++ rest) p unset ≡ h (i + p)
  unfolding item
  item-at_points h zero i p rest b = absurd (omega arith)
  item-at_points h (suc n) i zero rest b = ap h (omega arith)
  item-at_points h (suc n) i (suc p) rest b =
      let e : suc i + p ≡ i + suc p = omega arith in
      rw e at (item-at_points h n (suc i) p rest (omega arith))

module _ {F : Type 0} (o : Floats F) (unset : F) (old : List F) where
  -- The lists with some pairs written and `k` to go, in two lists or by turns in one.
  abbrev pub Placed : Bool → List (F × F) → ℕ → Handles F → Type 0
  Placed true pairs k h =
      (h.positions ≡ firsts pairs ++ ptr_array k unset)
      × (h.values ≡ seconds pairs ++ ptr_array k unset)
      × (h.pos_idx ≡ length (firsts pairs))
      × (h.val_idx ≡ length (seconds pairs))
  Placed false pairs k h =
      (h.positions ≡ by_turns pairs ++ ptr_array (k * 2) unset)
      × (h.values ≡ old)
      × (h.pos_idx ≡ length (by_turns pairs))

  put_pair-Placed :
      (v : Bool) (a b : F) (h : Handles F) (pairs : List (F × F)) (k : ℕ)
      → Placed v pairs (suc k) h
      → Succeeds (put_pair o (handled v) a b h) (Placed v (pairs ++ (a, b) ∷ []) k)
  unfolding put_pair
  put_pair-Placed true a b h pairs k p =
      let ps = put_next (firsts pairs) h.positions a unset k h.pos_idx p.0 p.2 in
      let vs = put_next (seconds pairs) h.values b unset k h.val_idx p.1 p.3 in
      rw (ps, vs)
        (
          _,
          refl,
          (
            ap (λ l. l ++ ptr_array k unset) (sym (firsts-append pairs a b)),
            ap (λ l. l ++ ptr_array k unset) (sym (seconds-append pairs a b)),
            rw (firsts-append pairs a b)
                (omega (arith, p.2, length-append (firsts pairs) (a ∷ []))),
            rw (seconds-append pairs a b)
                (omega (arith, p.3, length-append (seconds pairs) (b ∷ []))),
          ),
        )
  put_pair-Placed false a b h pairs k p =
      let done = by_turns pairs in
      let room : suc k * 2 ≡ suc (suc (k * 2)) = omega arith in
      let ps = put_next done h.positions a unset (suc (k * 2)) h.pos_idx (rw room at p.0) p.2 in
      let qs =
        put_next (done ++ a ∷ []) _ b unset (k * 2) (h.pos_idx + 1) refl
          (omega (arith, p.2, length-append done (a ∷ []))) in
      rw (ps, qs)
        (
          _,
          refl,
          (
            rw (by_turns-append pairs a b) (simp append_assoc),
            p.1,
            rw (by_turns-append pairs a b) (omega (arith, p.2, length-append done (a ∷ b ∷ []))),
          ),
        )

  pub put_handles-Placed :
      (f g : ℕ → F) (s : Spline F) (v : Bool) (n : ℕ) (xs ys more rest : List F) (p : ℕ)
      (h : Handles F)
      → xs ≡ at_points f n 1 ++ more
      → ys ≡ at_points g n 1 ++ rest
      → length xs ≡ 64
      → length ys ≡ 64
      → Sized s
      → p < n
      → n < 65
      → Placed v (with_handles o unset f g s p 0) ((n - p) * 3) h
      → Succeeds
          (put_handles o (handled v) xs ys s p h)
          (Placed v (with_handles o unset f g s (suc p) 0) ((n - suc p) * 3))
  unfolding put_handles
  put_handles-Placed f g s v n xs ys more rest p h ex ey lx ly sized b size placed =
      let room : (n - p) * 3 ≡ suc (suc (suc ((n - suc p) * 3))) = omega arith in
      let next : 1 + p ≡ suc p = omega arith in
      let here : 0 + p ≡ p = omega arith in
      let px : get_elem? xs p ≡ some (f (suc p)) =
        get_elem?_lem xs p unset (omega arith)
        ∙ ap some (rw ex (rw next at (item-at_points o unset f g s f n 1 p more b))) in
      let py : get_elem? ys p ≡ some (g (suc p)) =
        get_elem?_lem ys p unset (omega arith)
        ∙ ap some (rw ey (rw next at (item-at_points o unset f g s g n 1 p rest b))) in
      let before = get_elem?_lem s.delta_x p unset (omega arith) in
      let slope = get_elem?_lem s.y_prim p unset (omega arith) in
      let after = get_elem?_lem s.delta_x (p + 1) unset (omega arith) in
      let done = with_handles o unset f g s p 0 in
      let last = rw here at (with_handles_last o unset f g s p 0) in
      let point : F × F = (f (suc p), g (suc p)) in
      let left = left_handle o unset f g s in
      let right = right_handle o unset f g s in
      let all : ((done ++ point ∷ []) ++ left p ∷ []) ++ right p ∷ []
          ≡ with_handles o unset f g s (suc p) 0 =
        (simp append_assoc) ∙ sym last in
      rw (px, py, before, slope, after)
        (and_then _ _ (put_pair-Placed v _ _ h done _ (rw room at placed)) λ h1 k1.
          and_then _ _ (put_pair-Placed v _ _ h1 (done ++ point ∷ []) _ k1) λ h2 k2.
            rw (sym all) (put_pair-Placed v _ _ h2 ((done ++ point ∷ []) ++ left p ∷ []) _ k2))
