-- ===== src/Ramp/Curves.antt =====
-- What `getCurveData` gives for a curve, with and without handles.
use vray_for_houdini.Base.{
  ℕ, suc, ◌+◌, ◌-◌, ◌*◌, ◌≤◌, ◌<◌, ◌≡◌, refl, Bool, true, false, List, ◌==◌, arith, if◌then◌else◌,
  Succeeds, and_then,
}
use vray_for_houdini.Qt.Text.{QString}
use vray_for_houdini.Attrs.Sdk.{Sdk}
use vray_for_houdini.Ramp.Points.{RampNode, at_points}
use vray_for_houdini.Ramp.Curve.{
  Floats, CurveFlags, Curve, curve_pos, curve_value, curve_type, read_point, new_curve,
}
use vray_for_houdini.Ramp.Handles.{get_curve_data}
use vray_for_houdini.Ramp.Arrays.{for_up_lem}
use vray_for_houdini.Ramp.Written.{
  pairs_at, Written, Paired, put-Written, put-Paired, Written-start, Paired-start, Written-end,
  Paired-end,
}

abbrev pub plain : Bool → CurveFlags
plain v = record { need_values = v; need_handles = false }

abbrev pub handled : Bool → CurveFlags
handled v = record { need_values = v; need_handles = true }

module _ {S : Sdk} (x : RampNode S) (name : QString) (n : ℕ) (old : List S.Float) where
  -- The lists without handles before the point `i`.
  abbrev Apart : ℕ → Curve S.Float → Type 0
  Apart i c =
      Written (curve_type x name (plain true)) n x.unset_int i c.interpolations
      × Written (curve_pos x name (plain true)) n x.unset_float i c.positions
      × Written (curve_value x name (plain true)) n x.unset_float i c.values
      × (c.pos_idx ≡ i - 1)

  abbrev Together : ℕ → Curve S.Float → Type 0
  Together i c =
      Written (curve_type x name (plain false)) n x.unset_int i c.interpolations
      × Paired (curve_pos x name (plain false)) (curve_value x name (plain false)) n x.unset_float i
          c.positions
      × (c.values ≡ old)
      × (c.pos_idx ≡ (i - 1) * 2)

  read_point-Apart :
      (i : ℕ) (c : Curve S.Float)
      → 0 < i
      → i ≤ n
      → Apart i c
      → Succeeds (read_point x name (plain true) i c) (Apart (suc i))
  unfolding read_point
  read_point-Apart i c a b h =
      let next : c.pos_idx + 1 ≡ suc i - 1 = omega (arith, h.3) in
      let f = plain true in
      and_then _ _
        (and_then
          {Q = λ u.
            Written (curve_type x name f) n x.unset_int i u.interpolations
            × Written (curve_pos x name f) n x.unset_float (suc i) u.positions
            × Written (curve_value x name f) n x.unset_float (suc i) u.values
            × (u.pos_idx ≡ suc i - 1)}
          _ _ (put-Written (curve_pos x name f) n x.unset_float i c.pos_idx c.positions h.1 h.3 b)
          λ ps k.
            and_then _ _
              (put-Written (curve_value x name f) n x.unset_float i (i - 1) c.values h.2 refl b)
              λ vs l. (_, refl, (h.0, k, l, next)))
        λ u k.
          and_then _ _
            (put-Written (curve_type x name f) n x.unset_int i (i - 1) u.interpolations k.0 refl b)
            λ ts l. (_, refl, (l, k.1, k.2, k.3))

  read_point-Together :
      (i : ℕ) (c : Curve S.Float)
      → 0 < i
      → i ≤ n
      → Together i c
      → Succeeds (read_point x name (plain false) i c) (Together (suc i))
  unfolding read_point
  read_point-Together i c a b h =
      let next : c.pos_idx + 2 ≡ (suc i - 1) * 2 = omega (arith, h.3) in
      let f = plain false in
      and_then _ _
        (and_then
          {Q = λ u.
            Written (curve_type x name f) n x.unset_int i u.interpolations
            × Paired (curve_pos x name f) (curve_value x name f) n x.unset_float (suc i) u.positions
            × (u.values ≡ old)
            × (u.pos_idx ≡ (suc i - 1) * 2)}
          _ _
          (put-Paired (curve_pos x name f) (curve_value x name f) n x.unset_float i c.pos_idx
            c.positions h.1 h.3 b)
          λ ps k. (_, refl, (h.0, k, h.2, next)))
        λ u k.
          and_then _ _
            (put-Written (curve_type x name f) n x.unset_int i (i - 1) u.interpolations k.0 refl b)
            λ ts l. (_, refl, (l, k.1, k.2, k.3))

module _ {S : Sdk} (x : RampNode S) (o : Floats S.Float) (name : QString) (c : Curve S.Float) where
  abbrev count : ℕ
  count = x.eval_int name

  -- A curve with a point, read with no handles, stays within its arrays: the types of its points are in
  -- one list, and their positions and values in two others or, if no list of values is wanted, by turns
  -- in one, and then the list of values is left as it is.
  pub get_curve_data-plain :
      (v : Bool)
      → (x.eval_int name == 0) ≡ false
      → Succeeds (get_curve_data x o name (plain v) c) (λ r.
        (r.interpolations ≡ at_points (curve_type x name (plain v)) (x.eval_int name) 1)
        × (r.positions ≡ (
            if v
            then at_points (curve_pos x name (plain v)) (x.eval_int name) 1
            else pairs_at
                (curve_pos x name (plain v))
                (curve_value x name (plain v))
                (x.eval_int name)
                1))
        × (r.values ≡ (
            if v then at_points (curve_value x name (plain v)) (x.eval_int name) 1 else c.values)))
  unfolding get_curve_data new_curve
  get_curve_data-plain true some_point = rw some_point (
      and_then _ _
        (for_up_lem (Apart x name count c.values) (read_point x name (plain true)) count 1
          (new_curve x name (plain true) count c)
          (Written-start _ count _, Written-start _ count _, Written-start _ count _, refl)
          (λ j t p q. read_point-Apart x name count c.values j t p (omega arith)))
        λ r h. (
          r,
          refl,
          (Written-end _ count _ _ h.0, Written-end _ count _ _ h.1, Written-end _ count _ _ h.2),
        ))
  get_curve_data-plain false some_point = rw some_point (
      and_then _ _
        (for_up_lem (Together x name count c.values) (read_point x name (plain false)) count 1
          (new_curve x name (plain false) count c)
          (Written-start _ count _, Paired-start _ _ count _, refl, refl)
          (λ j t p q. read_point-Together x name count c.values j t p (omega arith)))
        λ r h. (r, refl, (Written-end _ count _ _ h.0, Paired-end _ _ count _ _ h.1, h.2)))
