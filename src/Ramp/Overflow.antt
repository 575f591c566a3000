-- ===== src/Ramp/Overflow.antt =====
-- A curve with too many points for the arrays of its handles.
use vray_for_houdini.Base.{
  ℕ, zero, suc, ◌+◌, ◌-◌, ◌≤◌, ◌<◌, ◌≡◌, refl, ap, sym, ◌∙◌, Bool, false, List, [], ◌∷◌, Option,
  none, arith, length, ◌==◌, ◌>>=◌, bind_assoc, bind_congr,
}
use vray_for_houdini.Qt.Text.{QString}
use vray_for_houdini.Attrs.Sdk.{Sdk}
use vray_for_houdini.Mesh.Array.{put}
use vray_for_houdini.Ramp.Points.{RampNode}
use vray_for_houdini.Ramp.Curve.{Floats, for_up, Curve, read_point, new_curve}
use vray_for_houdini.Ramp.Handles.{get_curve_data}
use vray_for_houdini.Ramp.Arrays.{for_up_lem}
use vray_for_houdini.Ramp.Written.{length-Written}
use vray_for_houdini.Ramp.Curves.{handled}
use vray_for_houdini.Ramp.Handled.{Knots, read_point-Knots, Knots-start}

module _ {A : Type 0} where
  put_outside : (xs : List A) (i : ℕ) (v : A) → length xs ≤ i → put xs i v ≡ none
  unfolding put
  put_outside [] i v h = refl
  put_outside (x ∷ xs) zero v h = absurd (omega arith)
  put_outside (x ∷ xs) (suc i) v h = rw (put_outside xs i v (omega arith)) refl

  for_up_split :
      (f : ℕ → A → Option A) (a b i : ℕ) (s : A)
      → for_up f (a + b) i s ≡ (for_up f a i s >>= λ t. for_up f b (i + a) t)
  unfolding for_up
  for_up_split f zero b i s =
      let e : i + 0 ≡ i = omega arith in let d : 0 + b ≡ b = omega arith in rw (e, d) refl
  for_up_split f (suc a) b i s =
      let e : suc i + a ≡ i + suc a = omega arith in
      let d : suc a + b ≡ suc (a + b) = omega arith in
      rw d (
        bind_congr (f i s) (λ t. rw e at (for_up_split f a b (suc i) t))
        ∙ sym (bind_assoc (f i s) (λ t. for_up f a (suc i) t) (λ t. for_up f b (i + suc a) t)))

module _ {S : Sdk} (x : RampNode S) (o : Floats S.Float) (name : QString) (v : Bool) where
  read_point_outside :
      (c : Curve S.Float) → length c.xs ≡ 64 → read_point x name (handled v) 65 c ≡ none
  unfolding read_point
  read_point_outside c h = rw (put_outside c.xs 64 _ (omega arith)) refl

  -- A curve of more than 64 points, read with handles, leads to a write past the end of an array.
  pub get_curve_data_overflow :
      (c : Curve S.Float) → 64 < x.eval_int name → get_curve_data x o name (handled v) c ≡ none
  unfolding get_curve_data for_up
  get_curve_data_overflow c many =
      let n = x.eval_int name in
      let some_point : (n == 0) ≡ false = ground arith in
      let rest : n ≡ 64 + suc (n - 65) = omega arith in
      let first =
        for_up_lem (Knots x o name v c.values n) (read_point x name (handled v)) 64 1
          (new_curve x name (handled v) n c) (Knots-start x o name v c.values n c refl)
          (λ j t p q. read_point-Knots x o name v c.values n j t (omega arith) p (omega arith)) in
      let step = read_point x name (handled v) in
      let start = new_curve x name (handled v) n c in
      let loop : for_up step n 1 start ≡ none =
        ap (λ k. for_up step k 1 start) rest
        ∙ for_up_split step 64 (suc (n - 65)) 1 start
        ∙ rw (first.1) (
            rw (read_point_outside (first.0) (length-Written _ 64 _ _ _ (first.2.1) (omega arith)))
              refl) in
      rw (some_point, loop) refl
