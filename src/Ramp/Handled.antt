-- ===== src/Ramp/Handled.antt =====
-- What `getCurveData` gives for a curve with handles.
use vray_for_houdini.Base.{
  ℕ, suc, ◌+◌, ◌-◌, ◌*◌, ◌≤◌, ◌<◌, ◌≡◌, refl, ◌∙◌, sym, ap, subst, Bool, true, false, List, [],
  ◌++◌, map, some, append-nil, ◌==◌, arith, length, Succeeds, and_then,
}
use vray_for_houdini.Qt.Text.{QString}
use vray_for_houdini.Attrs.Sdk.{Sdk}
use vray_for_houdini.Mesh.Array.{length-ptr_array}
use vray_for_houdini.Ramp.Points.{RampNode, at_points}
use vray_for_houdini.Ramp.Curve.{
  Floats, Curve, curve_pos, curve_value, curve_type, read_point, new_curve,
}
use vray_for_houdini.Ramp.Spline.{Spline, solve}
use vray_for_houdini.Ramp.Handles.{
  Handles, put_handles, blank_spline, new_handles, add_handles, get_curve_data,
}
use vray_for_houdini.Ramp.Arrays.{for_up_lem}
use vray_for_houdini.Ramp.Written.{
  Written, put-Written, Written-start, Written-end, Written-part, length-Written,
}
use vray_for_houdini.Ramp.Solved.{Sized, solve-Sized}
use vray_for_houdini.Ramp.Curves.{handled}
use vray_for_houdini.Ramp.Placed.{by_turns, Placed, with_handles, put_handles-Placed}
use vray_for_houdini.Attrs.RefList.{ptr_array}

module _ {S : Sdk} (x : RampNode S) (o : Floats S.Float) (name : QString) (v : Bool)
    (old : List S.Float) where
  -- The points before the point `i` are read.
  abbrev pub Knots : ℕ → ℕ → Curve S.Float → Type 0
  Knots n i c =
      Written (curve_type x name (handled v)) n x.unset_int i c.interpolations
      × Written (curve_pos x name (handled v)) 64 x.unset_float i c.xs
      × Written (curve_value x name (handled v)) 64 x.unset_float i c.ys
      × (c.values ≡ old)

  pub read_point-Knots :
      (n i : ℕ) (c : Curve S.Float)
      → i ≤ 64
      → 0 < i
      → i ≤ n
      → Knots n i c
      → Succeeds (read_point x name (handled v) i c) (Knots n (suc i))
  unfolding read_point
  read_point-Knots n i c size a b h =
      let types = curve_type x name (handled v) in
      let places = curve_pos x name (handled v) in
      let heights = curve_value x name (handled v) in
      and_then _ _
        (and_then
          {Q = λ (u : Curve S.Float).
            Written types n x.unset_int i u.interpolations
            × Written places 64 x.unset_float (suc i) u.xs
            × Written heights 64 x.unset_float (suc i) u.ys
            × (u.values ≡ old)}
          _ _ (put-Written places 64 x.unset_float i (i - 1) c.xs h.1 refl size)
          λ xs k.
            and_then _ _ (put-Written heights 64 x.unset_float i (i - 1) c.ys h.2 refl size)
              λ ys l. (_, refl, (h.0, k, l, h.3)))
        λ u k.
          and_then _ _ (put-Written types n x.unset_int i (i - 1) u.interpolations k.0 refl b)
            λ ts l. (_, refl, (l, k.1, k.2, k.3))

  pub Knots-start :
      (n : ℕ) (c : Curve S.Float) → c.values ≡ old → Knots n 1 (new_curve x name (handled v) n c)
  unfolding new_curve
  Knots-start n c h = (Written-start _ n _, Written-start _ 64 _, Written-start _ 64 _, h)

  blank-Sized : Sized (blank_spline x o name (handled v))
  blank-Sized = (
    length-ptr_array 65 x.unset_float,
    length-ptr_array 64 x.unset_float,
    length-ptr_array 64 x.unset_float,
    length-ptr_array 64 x.unset_float,
    length-ptr_array 64 x.unset_float,
  )

  new_handles-Placed :
      (w : Bool) (n : ℕ)
      → Placed o x.unset_float old w [] (n * 3) (new_handles x o name (handled w) n old)
  new_handles-Placed true n = (refl, refl, refl, refl)
  new_handles-Placed false n =
      let e : n * 6 ≡ n * 3 * 2 = omega arith in (ap (λ k. ptr_array k x.unset_float) e, refl, refl)

-- The items of some points and handles: in two lists, or by turns in one.
abbrev pub HasHandles : {F : Type 0} → Bool → List (F × F) → List F → Curve F → Type 0
HasHandles true pairs old r =
    (r.positions ≡ map (λ p. p.0) pairs) × (r.values ≡ map (λ p. p.1) pairs)
HasHandles false pairs old r = (r.positions ≡ by_turns pairs) × (r.values ≡ old)

module _ {S : Sdk} (x : RampNode S) (o : Floats S.Float) (name : QString) (v : Bool) where
  -- The first items of an array of 64, with the points of the curve.
  abbrev pub knots_of : (ℕ → S.Float) → ℕ → List S.Float
  knots_of f n = at_points f n 1 ++ ptr_array (64 - n) x.unset_float

  -- The points and handles of a spline.
  abbrev pub curve_items : Spline S.Float → ℕ → List (S.Float × S.Float)
  curve_items s n =
      with_handles o x.unset_float (curve_pos x name (handled v)) (curve_value x name (handled v)) s
        n 0

  -- The lists hold the points and the handles of the solved spline.
  abbrev pub IsCurve : List S.Float → ℕ → Curve S.Float → Type 0
  IsCurve old n r =
      (s : Spline S.Float) × (solve o (knots_of (curve_pos x name (handled v)) n)
          (knots_of (curve_value x name (handled v)) n) n (blank_spline x o name (handled v))
        ≡ some s)
      × HasHandles v (curve_items s n) old r

  has_handles :
      (w : Bool) (pairs : List (S.Float × S.Float)) (old : List S.Float) (c : Curve S.Float)
      (h : Handles S.Float)
      → Placed o x.unset_float old w pairs 0 h
      → HasHandles w pairs old (record c { positions = h.positions; values = h.values })
  unfolding ptr_array
  has_handles true pairs old c h k = (k.0 ∙ append-nil _, k.1 ∙ append-nil _)
  has_handles false pairs old c h k =
      let e : 0 * 2 ≡ 0 = omega arith in
      (k.0 ∙ ap (λ m. by_turns pairs ++ ptr_array m x.unset_float) e ∙ append-nil _, k.1)

  add_handles_lem :
      (n : ℕ) (c : Curve S.Float) (old : List S.Float)
      → 2 ≤ n
      → n ≤ 64
      → c.xs ≡ knots_of (curve_pos x name (handled v)) n
      → c.ys ≡ knots_of (curve_value x name (handled v)) n
      → length c.xs ≡ 64
      → length c.ys ≡ 64
      → c.values ≡ old
      → Succeeds
          (add_handles x o name (handled v) n c)
          (λ r. (r.interpolations ≡ c.interpolations) × IsCurve old n r)
  unfolding add_handles
  add_handles_lem n c old a b ex ey k l same =
      let solved =
        solve-Sized o c.xs c.ys k l n (blank_spline x o name (handled v)) a b
          (blank-Sized x o name v c.values) in
      let s = solved.0 in
      let places = curve_pos x name (handled v) in
      let heights = curve_value x name (handled v) in
      let e0 : n - 0 ≡ n = omega arith in
      let e1 : 0 + n ≡ n = omega arith in
      let e2 : (n - n) * 3 ≡ 0 = omega arith in
      let start = new_handles-Placed x o name v c.values v n in
      rw (solved.1) (
        and_then _ _
          (for_up_lem
            (λ p.
              Placed o x.unset_float c.values v (with_handles o x.unset_float places heights s p 0)
                ((n - p) * 3))
            (put_handles o (handled v) c.xs c.ys s) n 0
            (new_handles x o name (handled v) n c.values) (rw e0 start)
            (λ p t q r.
              put_handles-Placed o x.unset_float c.values places heights s v n c.xs c.ys _ _ p t ex
                ey k l (solved.2) (omega arith) (omega arith)))
          λ h placed. (
            _,
            refl,
            (
              refl,
              (
                s,
                rw (sym ex, sym ey) (solved.1),
                subst
                    (λ u.
                      HasHandles v (curve_items s n) u
                        (record c { positions = h.positions; values = h.values }))
                    same (has_handles v _ c.values c h (rw (e1, e2) at placed)),
              ),
            ),
          ))

  -- A curve of 2 to 64 points, read with handles, stays within its arrays, and the types of its
  -- points are in one list. The spline of the points is solved, and each point is followed by the
  -- offsets of its left and its right handle, (-a/3, -a*m/3) and (b/3, b*m/3), where a and b are
  -- the spline's deltaX at the point and at the next one and m is its yPrim at the point. They
  -- fill a list of positions and one of values or, if no list of values is wanted, one of both by
  -- turns, and then the list of values is left as it is.
  pub get_curve_data-handled :
      (c : Curve S.Float)
      → 2 ≤ x.eval_int name
      → x.eval_int name ≤ 64
      → Succeeds (get_curve_data x o name (handled v) c) (λ r.
        (r.interpolations ≡ at_points (curve_type x name (handled v)) (x.eval_int name) 1)
        × IsCurve c.values (x.eval_int name) r)
  unfolding get_curve_data
  get_curve_data-handled c a b =
      let n = x.eval_int name in
      let some_point : (n == 0) ≡ false = ground arith in
      rw some_point (
        and_then _ _
          (for_up_lem (Knots x o name v c.values n) (read_point x name (handled v)) n 1
            (new_curve x name (handled v) n c) (Knots-start x o name v c.values n c refl)
            (λ j t p q. read_point-Knots x o name v c.values n j t (omega arith) p (omega arith)))
          λ r h.
            let (types, places, heights, same) = h in
            let done =
              add_handles_lem n r c.values a b (Written-part _ 64 n _ _ places)
                (Written-part _ 64 n _ _ heights) (length-Written _ 64 _ _ _ places (omega arith))
                (length-Written _ 64 _ _ _ heights (omega arith)) same in
            (done.0, done.1, (done.2.0 ∙ Written-end _ n _ _ types, done.2.1)))
