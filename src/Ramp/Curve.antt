-- ===== src/Ramp/Curve.antt =====
-- `getCurveData`: the points of a curve, and the handles of the spline through them. `none` is an access
-- out of the bounds of an array.
use vray_for_houdini.Base.{
  ℕ, zero, suc, ◌+◌, ◌-◌, ◌*◌, ◌%◌, Bool, ◌&&◌, List, ◌++◌, ◌==◌, Option, none, some, if◌then◌else◌,
  get_elem?, ◌>>=◌,
}
use vray_for_houdini.Qt.Text.{QString, lit}
use vray_for_houdini.Attrs.Sdk.{Sdk}
use vray_for_houdini.Attrs.RefList.{ptr_array}
use vray_for_houdini.Mesh.Array.{put}
use vray_for_houdini.Ramp.Points.{RampNode, map_to_vray, depends}

-- The operations of `float`, and its number for an integer.
pub record Floats (F : Type 0) : Type 0 where
  pub plus : F → F → F
  pub minus : F → F → F
  pub times : F → F → F
  pub over : F → F → F
  pub negative : F → F
  pub num : ℕ → F

-- `curveDataFlagsNeedValues` and `curveDataFlagsNeedHandles`
pub record CurveFlags : Type 0 where
  pub need_values : Bool
  pub need_handles : Bool

-- `isAnimated |= int(test)`
abbrev pub or_bit : ℕ → Bool → ℕ
or_bit n test = if test && n % 2 == 0 then n + 1 else n

module _ {A : Type 0} where
  -- `list[i - 1]`
  abbrev pub prev : List A → ℕ → Option A
  prev xs zero = none
  prev xs (suc i) = get_elem? xs i

  -- Two writes, from `i` on.
  abbrev pub put_two : List A → ℕ → A → A → Option (List A)
  put_two xs i a b = do first ← put xs i a; put first (i + 1) b

  -- `for (; rounds left; ++i)`
  unfoldable pub for_up : (ℕ → A → Option A) → ℕ → ℕ → A → Option A
  for_up f zero i s = some s
  for_up f (suc rounds) i s = do next ← f i s; for_up f rounds (suc i) next

  -- `for (i = rounds; i >= 1; i--)`
  unfoldable pub for_down : (ℕ → A → Option A) → ℕ → A → Option A
  for_down f zero s = some s
  for_down f (suc rounds) s = do next ← f (suc rounds) s; for_down f rounds next

-- The lists of the call with the next index of `positions`, and the two parts of `point`.
pub record Curve (F : Type 0) : Type 0 where
  pub interpolations : List ℕ
  pub positions : List F
  pub values : List F
  pub pos_idx : ℕ
  pub xs : List F
  pub ys : List F
  pub is_animated : ℕ

module _ {S : Sdk} (x : RampNode S) (name : QString) (flags : CurveFlags) where
  abbrev pub curve_pos : ℕ → S.Float
  curve_pos i = x.eval_float_inst (name ++ lit "#pos") i 0

  abbrev pub curve_value : ℕ → S.Float
  curve_value i = x.eval_float_inst (name ++ lit "#value") i 0

  abbrev pub curve_type : ℕ → ℕ
  curve_type i = map_to_vray (x.eval_int_inst (name ++ lit "#interp") i)

  -- The lists without handles: the value follows its position where it has no list of its own.
  abbrev pub put_plain : ℕ → S.Float → S.Float → Curve S.Float → Option (Curve S.Float)
  put_plain p pos val s =
      let apart : Option (Curve S.Float) = (do
        positions ← put s.positions s.pos_idx pos
        values ← put s.values p val
        some (record s { positions = positions; values = values; pos_idx = s.pos_idx + 1 })) in
      let together : Option (Curve S.Float) = (do
        positions ← put_two s.positions s.pos_idx pos val
        some (record s { positions = positions; pos_idx = s.pos_idx + 2 })) in
      if flags.need_values then apart else together

  abbrev pub put_knot : ℕ → S.Float → S.Float → Curve S.Float → Option (Curve S.Float)
  put_knot p pos val s = do
    xs ← put s.xs p pos
    ys ← put s.ys p val
    some (record s { xs = xs; ys = ys })

  -- One round of the first loop, for the point `i`.
  unfoldable pub read_point : ℕ → Curve S.Float → Option (Curve S.Float)
  unfolding put map_to_vray
  read_point i s =
      let p = i - 1 in
      let animated =
        or_bit
          (or_bit (or_bit s.is_animated (depends x name (lit "pos") i))
            (depends x name (lit "value") i))
          (depends x name (lit "interp") i) in
      let t = record s { is_animated = animated } in
      let stored =
        if flags.need_handles
        then put_knot p (curve_pos i) (curve_value i) t
        else put_plain p (curve_pos i) (curve_value i) t in
      do
        u ← stored
        interpolations ← put u.interpolations p (curve_type i)
        some (record u { interpolations = interpolations })

  -- The arrays before the loop.
  unfoldable pub new_curve : ℕ → Curve S.Float → Curve S.Float
  unfolding ptr_array
  new_curve n s =
      let plain =
        if flags.need_values
        then record s { positions = ptr_array n x.unset_float; values = ptr_array n x.unset_float }
        else record s { positions = ptr_array (n * 2) x.unset_float } in
      let t = if flags.need_handles then s else plain in
      record t {
        interpolations = ptr_array n x.unset_int;
        pos_idx = 0;
        xs = ptr_array 64 x.unset_float;
        ys = ptr_array 64 x.unset_float;
      }
