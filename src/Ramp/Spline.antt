-- ===== src/Ramp/Spline.antt =====
-- The spline of `getCurveData`: the second derivatives at the points, the slopes and the handles.
use vray_for_houdini.Base.{ℕ, ◌+◌, ◌-◌, List, Option, some, get_elem?, ◌>>=◌}
use vray_for_houdini.Mesh.Array.{put}
use vray_for_houdini.Ramp.Curve.{Floats, prev, for_up, for_down}

-- `deltaX`, `ySecon`, `yPrim`, `d` and `w`
pub record Spline (F : Type 0) : Type 0 where
  pub delta_x : List F
  pub y_second : List F
  pub y_prim : List F
  pub d : List F
  pub w : List F

module _ {F : Type 0} (o : Floats F) (xs ys : List F) where
  open o use {plus, minus, times, over, negative, num}

  unfoldable pub put_delta : ℕ → Spline F → Option (Spline F)
  unfolding put
  put_delta i s = do
    x1 ← get_elem? xs i
    x0 ← prev xs i
    delta_x ← put s.delta_x i (minus x1 x0)
    some (record s { delta_x = delta_x })

  -- The two ends of `deltaX` for `n` points.
  unfoldable pub put_ends : ℕ → Spline F → Option (Spline F)
  unfolding put
  put_ends n s = do
    second ← get_elem? s.delta_x 1
    first ← put s.delta_x 0 second
    last ← prev first n
    delta_x ← put first n last
    some (record s { delta_x = delta_x })

  -- A row of the equations.
  unfoldable pub put_row : ℕ → Spline F → Option (Spline F)
  unfolding put
  put_row i s = do
    x2 ← get_elem? xs (i + 1)
    x0 ← prev xs i
    y2 ← get_elem? ys (i + 1)
    y1 ← get_elem? ys i
    y0 ← prev ys i
    after ← get_elem? s.delta_x (i + 1)
    before ← get_elem? s.delta_x i
    d ← put s.d i (times (num 2) (minus x2 x0))
    w ← put s.w i (times (num 6) (minus (over (minus y2 y1) after) (over (minus y1 y0) before)))
    some (record s { d = d; w = w })

  -- A row is taken from the next one.
  unfoldable pub eliminate : ℕ → Spline F → Option (Spline F)
  unfolding put
  eliminate i s = do
    wi ← get_elem? s.w i
    di ← get_elem? s.d i
    after ← get_elem? s.delta_x (i + 1)
    w1 ← get_elem? s.w (i + 1)
    w ← put s.w (i + 1) (minus w1 (over (times wi after) di))
    d1 ← get_elem? s.d (i + 1)
    d ← put s.d (i + 1) (minus d1 (over (times after after) di))
    some (record s { w = w; d = d })

  unfoldable pub put_zeros : ℕ → Spline F → Option (Spline F)
  unfolding put
  put_zeros n s = do
    first ← put s.y_second 0 (num 0)
    y_second ← put first (n - 1) (num 0)
    some (record s { y_second = y_second })

  unfoldable pub back_substitute : ℕ → Spline F → Option (Spline F)
  unfolding put
  back_substitute i s = do
    wi ← get_elem? s.w i
    after ← get_elem? s.delta_x (i + 1)
    next ← get_elem? s.y_second (i + 1)
    di ← get_elem? s.d i
    y_second ← put s.y_second i (over (minus wi (times after next)) di)
    some (record s { y_second = y_second })

  unfoldable pub put_slope : ℕ → Spline F → Option (Spline F)
  unfolding put
  put_slope i s = do
    y1 ← get_elem? ys (i + 1)
    y0 ← get_elem? ys i
    after ← get_elem? s.delta_x (i + 1)
    here ← get_elem? s.y_second i
    next ← get_elem? s.y_second (i + 1)
    y_prim ← put s.y_prim i (
        minus (over (minus y1 y0) after)
          (times (over after (num 6)) (plus (times (num 2) here) next)))
    some (record s { y_prim = y_prim })

  unfoldable pub put_last_slope : ℕ → Spline F → Option (Spline F)
  unfolding put
  put_last_slope i s = do
    y1 ← get_elem? ys i
    y0 ← prev ys i
    before ← get_elem? s.delta_x i
    last ← prev s.y_second i
    y_prim ← put s.y_prim i (plus (over (minus y1 y0) before) (times (over before (num 6)) last))
    some (record s { y_prim = y_prim })

  -- The steps for `n` points.
  unfoldable pub solve : ℕ → Spline F → Option (Spline F)
  unfolding for_up for_down put_delta put_ends put_row eliminate put_zeros back_substitute put_slope
      put_last_slope
  solve n s = do
    s1 ← for_up put_delta (n - 1) 1 s
    s2 ← put_ends n s1
    s3 ← for_up put_row (n - 2) 1 s2
    s4 ← for_up eliminate (n - 3) 1 s3
    s5 ← put_zeros n s4
    s6 ← for_down back_substitute (n - 2) s5
    s7 ← for_up put_slope (n - 1) 0 s6
    put_last_slope (n - 1) s7
