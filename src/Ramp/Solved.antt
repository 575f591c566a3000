-- ===== src/Ramp/Solved.antt =====
-- The spline of 2 to 64 points stays within its arrays.
use vray_for_houdini.Base.{
  ℕ, ◌+◌, ◌-◌, ◌≤◌, ◌<◌, ◌≡◌, refl, List, arith, length, Succeeds, and_then,
}
use vray_for_houdini.Ramp.Curve.{Floats}
use vray_for_houdini.Ramp.Spline.{
  Spline, put_delta, put_ends, put_row, eliminate, put_zeros, back_substitute, put_slope,
  put_last_slope, solve,
}
use vray_for_houdini.Ramp.Arrays.{get_then, prev_then, put_then, for_up_lem, for_down_lem}

-- The sizes of the arrays of `getCurveData`.
abbrev pub Sized : {F : Type 0} → Spline F → Type 0
Sized s =
    (length s.delta_x ≡ 65)
    × (length s.y_second ≡ 64)
    × (length s.y_prim ≡ 64)
    × (length s.d ≡ 64)
    × (length s.w ≡ 64)

module _ {F : Type 0} (o : Floats F) (xs ys : List F) (all_x : length xs ≡ 64)
    (all_y : length ys ≡ 64) where
  put_delta-Sized :
      (i : ℕ) (s : Spline F) → 0 < i → i < 64 → Sized s → Succeeds (put_delta o xs ys i s) Sized
  unfolding put_delta
  put_delta-Sized i s a b h = get_then xs i _ (omega arith) λ x1.
      prev_then xs i _ a (omega arith) λ x0.
        put_then s.delta_x i _ 65 _ h.0 (omega arith)
          λ dx k. (record s { delta_x = dx }, refl, (k, h.1, h.2, h.3, h.4))

  put_ends-Sized :
      (n : ℕ) (s : Spline F) → 0 < n → n < 65 → Sized s → Succeeds (put_ends o xs ys n s) Sized
  unfolding put_ends
  put_ends-Sized n s a b h = get_then s.delta_x 1 _ (omega arith) λ second.
      put_then s.delta_x 0 _ 65 _ h.0 (omega arith) λ first k.
        prev_then first n _ a (omega arith) λ last.
          put_then first n _ 65 _ k b
            λ dx l. (record s { delta_x = dx }, refl, (l, h.1, h.2, h.3, h.4))

  put_row-Sized :
      (i : ℕ) (s : Spline F) → 0 < i → i < 63 → Sized s → Succeeds (put_row o xs ys i s) Sized
  unfolding put_row
  put_row-Sized i s a b h = get_then xs (i + 1) _ (omega arith) λ x2.
      prev_then xs i _ a (omega arith) λ x0. get_then ys (i + 1) _ (omega arith) λ y2.
        get_then ys i _ (omega arith) λ y1. prev_then ys i _ a (omega arith) λ y0.
          get_then s.delta_x (i + 1) _ (omega arith) λ after.
            get_then s.delta_x i _ (omega arith) λ before.
              put_then s.d i _ 64 _ h.3 (omega arith) λ d k.
                put_then s.w i _ 64 _ h.4 (omega arith)
                  λ w l. (record s { d = d; w = w }, refl, (h.0, h.1, h.2, k, l))

  eliminate-Sized :
      (i : ℕ) (s : Spline F) → i < 63 → Sized s → Succeeds (eliminate o xs ys i s) Sized
  unfolding eliminate
  eliminate-Sized i s b h = get_then s.w i _ (omega arith) λ wi.
      get_then s.d i _ (omega arith) λ di. get_then s.delta_x (i + 1) _ (omega arith) λ after.
        get_then s.w (i + 1) _ (omega arith) λ w1.
          put_then s.w (i + 1) _ 64 _ h.4 (omega arith) λ w k.
            get_then s.d (i + 1) _ (omega arith) λ d1.
              put_then s.d (i + 1) _ 64 _ h.3 (omega arith)
                λ d l. (record s { w = w; d = d }, refl, (h.0, h.1, h.2, l, k))

  put_zeros-Sized :
      (n : ℕ) (s : Spline F) → n < 65 → Sized s → Succeeds (put_zeros o xs ys n s) Sized
  unfolding put_zeros
  put_zeros-Sized n s b h = put_then s.y_second 0 _ 64 _ h.1 (omega arith) λ first k.
      put_then first (n - 1) _ 64 _ k (omega arith)
        λ second l. (record s { y_second = second }, refl, (h.0, l, h.2, h.3, h.4))

  back_substitute-Sized :
      (i : ℕ) (s : Spline F) → i < 63 → Sized s → Succeeds (back_substitute o xs ys i s) Sized
  unfolding back_substitute
  back_substitute-Sized i s b h = get_then s.w i _ (omega arith) λ wi.
      get_then s.delta_x (i + 1) _ (omega arith) λ after.
        get_then s.y_second (i + 1) _ (omega arith) λ next. get_then s.d i _ (omega arith) λ di.
          put_then s.y_second i _ 64 _ h.1 (omega arith)
            λ second k. (record s { y_second = second }, refl, (h.0, k, h.2, h.3, h.4))

  put_slope-Sized :
      (i : ℕ) (s : Spline F) → i < 63 → Sized s → Succeeds (put_slope o xs ys i s) Sized
  unfolding put_slope
  put_slope-Sized i s b h = get_then ys (i + 1) _ (omega arith) λ y1.
      get_then ys i _ (omega arith) λ y0. get_then s.delta_x (i + 1) _ (omega arith) λ after.
        get_then s.y_second i _ (omega arith) λ here.
          get_then s.y_second (i + 1) _ (omega arith) λ next.
            put_then s.y_prim i _ 64 _ h.2 (omega arith)
              λ slopes k. (record s { y_prim = slopes }, refl, (h.0, h.1, k, h.3, h.4))

  put_last_slope-Sized :
      (i : ℕ) (s : Spline F)
      → 0 < i
      → i < 64
      → Sized s
      → Succeeds (put_last_slope o xs ys i s) Sized
  unfolding put_last_slope
  put_last_slope-Sized i s a b h = get_then ys i _ (omega arith) λ y1.
      prev_then ys i _ a (omega arith) λ y0. get_then s.delta_x i _ (omega arith) λ before.
        prev_then s.y_second i _ a (omega arith) λ last.
          put_then s.y_prim i _ 64 _ h.2 (omega arith)
            λ slopes k. (record s { y_prim = slopes }, refl, (h.0, h.1, k, h.3, h.4))

  pub solve-Sized :
      (n : ℕ) (s : Spline F) → 2 ≤ n → n ≤ 64 → Sized s → Succeeds (solve o xs ys n s) Sized
  unfolding solve
  solve-Sized n s a b h =
      and_then _ _
        (for_up_lem (λ _. Sized) (put_delta o xs ys) (n - 1) 1 s h
          (λ j t p q. put_delta-Sized j t (omega arith) (omega arith)))
        λ s1 h1. and_then _ _ (put_ends-Sized n s1 (omega arith) (omega arith) h1) λ s2 h2.
          and_then _ _
            (for_up_lem (λ _. Sized) (put_row o xs ys) (n - 2) 1 s2 h2
              (λ j t p q. put_row-Sized j t (omega arith) (omega arith)))
            λ s3 h3.
              and_then _ _
                (for_up_lem (λ _. Sized) (eliminate o xs ys) (n - 3) 1 s3 h3
                  (λ j t p q. eliminate-Sized j t (omega arith)))
                λ s4 h4. and_then _ _ (put_zeros-Sized n s4 (omega arith) h4) λ s5 h5.
                  and_then _ _
                    (for_down_lem Sized (back_substitute o xs ys) (n - 2) s5 h5
                      (λ j t p q. back_substitute-Sized j t (omega arith)))
                    λ s6 h6.
                      and_then _ _
                        (for_up_lem (λ _. Sized) (put_slope o xs ys) (n - 1) 0 s6 h6
                          (λ j t p q. put_slope-Sized j t (omega arith)))
                        λ s7 h7. put_last_slope-Sized (n - 1) s7 (omega arith) (omega arith) h7
