-- ===== src/Exporter/ModeCalls.antt =====
-- What `setRendererMode` calls.
use vray_for_houdini.Base.{
  ℕ, ◌-◌, max, ◌≡◌, refl, ap, ◌<◌, ◌∙◌, Bool, true, false, List, [], ◌∷◌, ◌++◌, append_assoc,
  append-nil, some, arith, map,
}
use vray_for_houdini.Qt.Text.{QString, lit}
use vray_for_houdini.Attrs.Sdk.{Sdk}
use vray_for_houdini.Gpu.Select.{init_available_device_list, get_gpu_device_id_list}
use vray_for_houdini.Exporter.Setting.{Setting}
use vray_for_houdini.Exporter.Mode.{
  SettingsRtEngine, settings_values, int_max, set_values, set_interactive, set_final, set_devices,
  set_renderer_mode, fill_settings_rt_engine, is_interactive, set_limits, set_compute,
}
use vray_for_houdini.Exporter.State.{
  RenderMode, Event, Api, Renderer, call, when_vray-some, set_value, set_render_mode,
  set_num_threads, set_timeout, set_sample_level, set_keep_running, set_noise_threshold,
  set_compute_devices, get_instance,
}

module _ {S : Sdk} (api : Api S) where
  -- The AppSDK numbers the production mode below the interactive ones, in the order CPU, OpenCL,
  -- CUDA, and the GPU production modes above them.
  pub record AreNumbered : Type 0 where
    pub below : api.number RenderMode.production < api.number RenderMode.interactive
    pub opencl : api.number RenderMode.interactive < api.number RenderMode.interactive_opencl
    pub cuda : api.number RenderMode.interactive_opencl < api.number RenderMode.interactive_cuda
    pub above_opencl :
        api.number RenderMode.interactive_cuda < api.number RenderMode.production_opencl
    pub above_cuda : api.number RenderMode.interactive_cuda < api.number RenderMode.production_cuda

  abbrev pub interactive_calls : List (Event S)
  interactive_calls =
      set_num_threads (max 1 (api.processors - 1))
      ∷ set_keep_running true
      ∷ set_timeout 0
      ∷ set_noise_threshold S.zero_float
      ∷ set_sample_level int_max
      ∷ []

  abbrev pub final_calls : SettingsRtEngine S → List (Event S)
  final_calls s =
      set_num_threads 0
      ∷ set_keep_running false
      ∷ set_timeout (api.minutes s.max_render_time)
      ∷ set_noise_threshold s.noise_threshold
      ∷ set_sample_level s.max_sample_level
      ∷ []

  abbrev pub limit_calls : SettingsRtEngine S → RenderMode → List (Event S)
  limit_calls s RenderMode.production = final_calls s
  limit_calls s RenderMode.interactive = interactive_calls
  limit_calls s RenderMode.interactive_opencl = interactive_calls
  limit_calls s RenderMode.interactive_cuda = interactive_calls
  limit_calls s RenderMode.production_opencl = final_calls s
  limit_calls s RenderMode.production_cuda = final_calls s

  abbrev pub value_calls : Bool → List (QString × Setting S) → List (Event S)
  value_calls animated = map (λ v. set_value api.settings_plugin v.0 v.1 animated)

  -- The devices that the renderer knows when the mode is set.
  abbrev pub device_calls : Bool → Renderer S → List (Event S)
  device_calls cuda r =
      let devices =
        (init_available_device_list api.env api.dummy api.fresh api.probe r.pool r.devices).1 in
      set_compute_devices (get_gpu_device_id_list cuda devices r.variables []) ∷ []

  abbrev pub gpu_calls : RenderMode → Renderer S → List (Event S)
  gpu_calls RenderMode.production r = []
  gpu_calls RenderMode.interactive r = []
  gpu_calls RenderMode.interactive_opencl r = device_calls false r
  gpu_calls RenderMode.interactive_cuda r = device_calls true r
  gpu_calls RenderMode.production_opencl r = device_calls false r
  gpu_calls RenderMode.production_cuda r = device_calls true r

  -- The state apart from the trace and the last error.
  pub record Same (r r' : Renderer S) : Type 0 where
    pub vray : r'.vray ≡ r.vray
    pub pool : r'.pool ≡ r.pool
    pub devices : r'.devices ≡ r.devices
    pub variables : r'.variables ≡ r.variables
    pub use_animated : r'.use_animated ≡ r.use_animated

  set_values_lem :
      (values : List (QString × Setting S)) (r : Renderer S)
      → ((set_values api api.settings_plugin values r).trace
          ≡ r.trace ++ value_calls r.use_animated values)
        × Same r (set_values api api.settings_plugin values r)
  unfolding set_values
  set_values_lem [] r = (ground (arith, append-nil r.trace), ground arith)
  set_values_lem ((name, value) ∷ values) r =
      let e = set_value api.settings_plugin name value r.use_animated in
      let next = set_values_lem values (call api e r) in
      (
        ground (arith, next.0, append_assoc r.trace (e ∷ []) (value_calls r.use_animated values)),
        ground (arith, next.1),
      )

  interactive_lem :
      (r : Renderer S)
      → ((set_interactive api r).trace ≡ r.trace ++ interactive_calls)
        × Same r (set_interactive api r)
  unfolding set_interactive
  interactive_lem r = (simp append_assoc, ground arith)

  final_lem :
      (s : SettingsRtEngine S) (r : Renderer S)
      → ((set_final api s r).trace ≡ r.trace ++ final_calls s) × Same r (set_final api s r)
  unfolding set_final
  final_lem s r = (simp append_assoc, ground arith)

  is_interactive_lem :
      (mode : RenderMode)
      → AreNumbered
      → is_interactive api mode ≡ (elim mode [
        | RenderMode.interactive ↦ true
        | RenderMode.interactive_opencl ↦ true
        | RenderMode.interactive_cuda ↦ true
        | _ ↦ false
      ])
  is_interactive_lem RenderMode.production n = ground arith
  is_interactive_lem _ n = ground arith

  limits_lem :
      (s : SettingsRtEngine S) (mode : RenderMode) (r : Renderer S)
      → AreNumbered
      → ((set_limits api s mode r).trace ≡ r.trace ++ limit_calls s mode)
        × Same r (set_limits api s mode r)
  unfolding set_limits
  limits_lem s RenderMode.production r n =
      rw (is_interactive_lem RenderMode.production n) (final_lem s r)
  limits_lem s RenderMode.interactive r n =
      rw (is_interactive_lem RenderMode.interactive n) (interactive_lem r)
  limits_lem s RenderMode.interactive_opencl r n =
      rw (is_interactive_lem RenderMode.interactive_opencl n) (interactive_lem r)
  limits_lem s RenderMode.interactive_cuda r n =
      rw (is_interactive_lem RenderMode.interactive_cuda n) (interactive_lem r)
  limits_lem s RenderMode.production_opencl r n =
      rw (is_interactive_lem RenderMode.production_opencl n) (final_lem s r)
  limits_lem s RenderMode.production_cuda r n =
      rw (is_interactive_lem RenderMode.production_cuda n) (final_lem s r)

  abbrev pub engine_calls : SettingsRtEngine S → Bool → List (Event S)
  engine_calls s animated =
      get_instance (lit "SettingsRTEngine") ∷ value_calls animated (settings_values s)

  fill_lem :
      (s : SettingsRtEngine S) (r : Renderer S)
      → ((fill_settings_rt_engine api s r).trace ≡ r.trace ++ engine_calls s r.use_animated)
        × Same r (fill_settings_rt_engine api s r)
  fill_lem s r =
      let e = get_instance (lit "SettingsRTEngine") in
      let next = set_values_lem (settings_values s) (call api e r) in
      unfold fill_settings_rt_engine in
      (
        next.0 ∙ append_assoc r.trace (e ∷ []) (value_calls r.use_animated (settings_values s)),
        ground (arith, next.1),
      )

  compute_lem :
      (mode : RenderMode) (r : Renderer S)
      → (set_compute api mode r).trace ≡ r.trace ++ gpu_calls mode r
  unfolding set_compute set_devices
  compute_lem RenderMode.production r = ground (arith, append-nil r.trace)
  compute_lem RenderMode.interactive r = ground (arith, append-nil r.trace)
  compute_lem _ r = refl

  gpu_calls-Same :
      (mode : RenderMode) (r r' : Renderer S) → Same r r' → gpu_calls mode r' ≡ gpu_calls mode r
  gpu_calls-Same RenderMode.production r r' same = refl
  gpu_calls-Same RenderMode.interactive r r' same = refl
  gpu_calls-Same _ r r' same = rw (same.pool, same.devices, same.variables)

  regroup :
      (xs ys zs ws : List (Event S)) (e : Event S) {t2 t3 t4 zs' ws' : List (Event S)}
      → t2 ≡ (xs ++ e ∷ []) ++ ys
      → t3 ≡ t2 ++ zs'
      → zs' ≡ zs
      → t4 ≡ t3 ++ ws'
      → ws' ≡ ws
      → t4 ≡ xs ++ (e ∷ (ys ++ (zs ++ ws)))
  regroup xs ys zs ws e h2 h3 hz h4 hw = simp (h4, h3, h2, hz, hw, append_assoc)

  -- The body of `setRendererMode` past its guard.
  abbrev mode_steps : SettingsRtEngine S → RenderMode → Renderer S → Renderer S
  mode_steps s mode r = set_compute api mode (
      fill_settings_rt_engine api s
        (set_limits api s mode (call api (set_render_mode mode) (record r { mode = mode }))))

  -- With a renderer, and modes numbered in the order of the AppSDK, `setRendererMode` makes these
  -- calls in this order: the mode; the limits, which
  -- are unlimited with all processors but one for the three interactive modes, and those of the
  -- settings for the others; all the parameters of the settings; and for a GPU mode the devices
  -- chosen for its engine.
  pub set_renderer_mode_lem :
      (s : SettingsRtEngine S) (mode : RenderMode) (r : Renderer S) {v : ℕ}
      → AreNumbered
      → r.vray ≡ some v
      → (set_renderer_mode api s mode r).trace
        ≡ r.trace
          ++ (set_render_mode mode
              ∷ (limit_calls s mode ++ (engine_calls s r.use_animated ++ gpu_calls mode r)))
  unfolding set_renderer_mode
  set_renderer_mode_lem s mode r n h =
      let r1 = call api (set_render_mode mode) (record r { mode = mode }) in
      let r2 = set_limits api s mode r1 in
      let r3 = fill_settings_rt_engine api s r2 in
      let (trace2, same2) = limits_lem s mode r1 n in
      let (trace3, same3) = fill_lem s r2 in
      ap (λ (q : Renderer S). q.trace) (when_vray-some (mode_steps s mode) r h)
      ∙ regroup r.trace (limit_calls s mode) (engine_calls s r.use_animated) (gpu_calls mode r)
          (set_render_mode mode) trace2 trace3 (ap (engine_calls s) same2.use_animated)
          (compute_lem mode r3)
          (gpu_calls-Same mode r2 r3 same3
            ∙ (gpu_calls-Same mode r1 r2 same2 ∙ gpu_calls-Same mode r r1 (ground arith)))
