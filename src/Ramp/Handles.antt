-- ===== src/Ramp/Handles.antt =====
-- `getCurveData` as a whole, with the loop that writes each point and its two handles.
use vray_for_houdini.Base.{ℕ, ◌+◌, ◌*◌, List, ◌==◌, Option, some, if◌then◌else◌, get_elem?, ◌>>=◌}
use vray_for_houdini.Qt.Text.{QString}
use vray_for_houdini.Attrs.Sdk.{Sdk}
use vray_for_houdini.Attrs.RefList.{ptr_array}
use vray_for_houdini.Mesh.Array.{put}
use vray_for_houdini.Ramp.Points.{RampNode}
use vray_for_houdini.Ramp.Curve.{Floats, CurveFlags, for_up, Curve, read_point, new_curve}
use vray_for_houdini.Ramp.Spline.{Spline, solve}

-- The lists of the result with the next index of each.
pub record Handles (F : Type 0) : Type 0 where
  pub positions : List F
  pub values : List F
  pub pos_idx : ℕ
  pub val_idx : ℕ

module _ {F : Type 0} (o : Floats F) (flags : CurveFlags) where
  open o use {times, over, negative, num}

  -- A point, or a handle, into the lists.
  unfoldable pub put_pair : F → F → Handles F → Option (Handles F)
  unfolding put
  put_pair px py h = do
    positions ← put h.positions h.pos_idx px
    let apart : Option (Handles F) = (do
      values ← put h.values h.val_idx py
      some (record {
        positions = positions;
        values = values;
        pos_idx = h.pos_idx + 1;
        val_idx = h.val_idx + 1;
      }))
    let together : Option (Handles F) = (do
      both ← put positions (h.pos_idx + 1) py
      some (record h { positions = both; pos_idx = h.pos_idx + 2 }))
    if flags.need_values then apart else together

  unfoldable pub put_handles : List F → List F → Spline F → ℕ → Handles F → Option (Handles F)
  unfolding put_pair
  put_handles xs ys s p h = do
    px ← get_elem? xs p
    py ← get_elem? ys p
    before ← get_elem? s.delta_x p
    slope ← get_elem? s.y_prim p
    after ← get_elem? s.delta_x (p + 1)
    h1 ← put_pair px py h
    h2 ← put_pair (over (negative before) (num 3)) (over (times (negative before) slope) (num 3)) h1
    put_pair (over after (num 3)) (over (times after slope) (num 3)) h2

module _ {S : Sdk} (x : RampNode S) (o : Floats S.Float) (name : QString) (flags : CurveFlags) where
  abbrev pub blank_spline : Spline S.Float
  blank_spline = record {
    delta_x = ptr_array 65 x.unset_float;
    y_second = ptr_array 64 x.unset_float;
    y_prim = ptr_array 64 x.unset_float;
    d = ptr_array 64 x.unset_float;
    w = ptr_array 64 x.unset_float;
  }

  -- The lists for `n` points with their handles; `values` stays if it is not wanted.
  abbrev pub new_handles : ℕ → List S.Float → Handles S.Float
  new_handles n values = record {
    positions = ptr_array (if flags.need_values then n * 3 else n * 6) x.unset_float;
    values = if flags.need_values then ptr_array (n * 3) x.unset_float else values;
    pos_idx = 0;
    val_idx = 0;
  }

  -- What follows the first loop if handles are wanted.
  unfoldable pub add_handles : ℕ → Curve S.Float → Option (Curve S.Float)
  unfolding solve for_up put_handles ptr_array
  add_handles n c = do
    s ← solve o c.xs c.ys n blank_spline
    h ← for_up (put_handles o flags c.xs c.ys s) n 0 (new_handles n c.values)
    some (record c { positions = h.positions; values = h.values })

  unfoldable pub get_curve_data : Curve S.Float → Option (Curve S.Float)
  unfolding for_up read_point new_curve add_handles
  get_curve_data c =
      let n = x.eval_int name in
      let read : Option (Curve S.Float) = (do
        plain ← for_up (read_point x name flags) n 1 (new_curve x name flags n c)
        if flags.need_handles then add_handles n plain else some plain) in
      if n == 0 then some c else read
