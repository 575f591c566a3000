-- ===== src/Exporter/Mode.antt =====
-- `setRendererMode` and `SettingsRTEngine`.
use vray_for_houdini.Base.{ℕ, ◌-◌, max, Bool, true, false, ◌&&◌, List, [], ◌∷◌, leb, if◌then◌else◌}
use vray_for_houdini.Qt.Text.{QString, lit}
use vray_for_houdini.Attrs.Sdk.{Sdk}
use vray_for_houdini.Gpu.Select.{init_available_device_list, get_gpu_device_id_list}
use vray_for_houdini.Exporter.Setting.{Setting, int, flag, single}
use vray_for_houdini.Exporter.Plugins.{is_cpu}
use vray_for_houdini.Exporter.State.{
  RenderMode, Api, Renderer, call, when_vray, set_value, set_render_mode, set_num_threads,
  set_timeout, set_sample_level, set_keep_running, set_noise_threshold, set_compute_devices,
  get_instance,
}

pub record SettingsRtEngine (S : Sdk) : Type 0 where
  pub trace_depth : ℕ
  pub gi_depth : ℕ
  pub cpu_bundle_size : ℕ
  pub cpu_samples_per_pixel : ℕ
  pub gpu_bundle_size : ℕ
  pub gpu_samples_per_pixel : ℕ
  pub low_gpu_thread_priority : Bool
  pub coherent_tracing : Bool
  pub stereo_mode : Bool
  pub stereo_eye_distance : S.Float
  pub stereo_focus : ℕ
  pub opencl_texsize : ℕ
  pub opencl_resize_textures : ℕ
  pub opencl_texture_format : ℕ
  pub progressive_samples_per_pixel : ℕ
  pub undersampling : ℕ
  pub disable_render_elements : Bool
  pub max_render_time : S.Float
  pub max_sample_level : ℕ
  pub noise_threshold : S.Float
  pub enable_mask : Bool
  pub max_draw_interval : ℕ
  pub min_draw_interval : ℕ
  pub enable_cpu_interop : ℕ

-- `INT_MAX`
abbrev pub int_max : ℕ
int_max = 2147483647

-- `RENDER_MODE_INTERACTIVE_CUDA` and `RENDER_MODE_PRODUCTION_CUDA`
abbrev pub is_cuda : RenderMode → Bool
is_cuda RenderMode.interactive_cuda = true
is_cuda RenderMode.production_cuda = true
is_cuda mode = false

module _ {S : Sdk} where
  -- The parameters and their values, in the order of the calls.
  unfoldable pub settings_values : SettingsRtEngine S → List (QString × Setting S)
  settings_values s =
      (lit "coherent_tracing", flag s.coherent_tracing)
      ∷ (lit "cpu_bundle_size", int s.cpu_bundle_size)
      ∷ (lit "cpu_samples_per_pixel", int s.cpu_samples_per_pixel)
      ∷ (lit "disable_render_elements", flag s.disable_render_elements)
      ∷ (lit "enable_cpu_interop", int s.enable_cpu_interop)
      ∷ (lit "enable_mask", flag s.enable_mask)
      ∷ (lit "gi_depth", int s.gi_depth)
      ∷ (lit "gpu_bundle_size", int s.gpu_bundle_size)
      ∷ (lit "gpu_samples_per_pixel", int s.gpu_samples_per_pixel)
      ∷ (lit "low_gpu_thread_priority", flag s.low_gpu_thread_priority)
      ∷ (lit "max_draw_interval", int s.max_draw_interval)
      ∷ (lit "max_render_time", single s.max_render_time)
      ∷ (lit "max_sample_level", int s.max_sample_level)
      ∷ (lit "min_draw_interval", int s.min_draw_interval)
      ∷ (lit "noise_threshold", single s.noise_threshold)
      ∷ (lit "opencl_resizeTextures", int s.opencl_resize_textures)
      ∷ (lit "opencl_texsize", int s.opencl_texsize)
      ∷ (lit "opencl_textureFormat", int s.opencl_texture_format)
      ∷ (lit "progressive_samples_per_pixel", int s.progressive_samples_per_pixel)
      ∷ (lit "stereo_eye_distance", single s.stereo_eye_distance)
      ∷ (lit "stereo_focus", int s.stereo_focus)
      ∷ (lit "stereo_mode", flag s.stereo_mode)
      ∷ (lit "trace_depth", int s.trace_depth)
      ∷ (lit "undersampling", int s.undersampling)
      ∷ []

module _ {S : Sdk} (api : Api S) where
  unfoldable pub set_values : S.Plugin → List (QString × Setting S) → Renderer S → Renderer S
  set_values plugin [] r = r
  set_values plugin ((name, value) ∷ values) r =
      set_values plugin values (call api (set_value plugin name value r.use_animated) r)

  unfoldable pub fill_settings_rt_engine : SettingsRtEngine S → Renderer S → Renderer S
  unfolding settings_values set_values
  fill_settings_rt_engine s r =
      set_values api.settings_plugin (settings_values s)
        (call api (get_instance (lit "SettingsRTEngine")) r)

  -- The range test of `isInteractiveMode`.
  abbrev pub is_interactive : RenderMode → Bool
  is_interactive mode =
      leb (api.number RenderMode.interactive) (api.number mode)
      && leb (api.number mode) (api.number RenderMode.interactive_cuda)

  unfoldable pub set_interactive : Renderer S → Renderer S
  set_interactive r = call api (set_sample_level int_max) (
      call api (set_noise_threshold S.zero_float) (
        call api (set_timeout 0) (
          call api (set_keep_running true)
            (call api (set_num_threads (max 1 (api.processors - 1))) r))))

  unfoldable pub set_final : SettingsRtEngine S → Renderer S → Renderer S
  set_final s r = call api (set_sample_level s.max_sample_level) (
      call api (set_noise_threshold s.noise_threshold) (
        call api (set_timeout (api.minutes s.max_render_time))
          (call api (set_keep_running false) (call api (set_num_threads 0) r))))

  unfoldable pub set_limits : SettingsRtEngine S → RenderMode → Renderer S → Renderer S
  unfolding set_interactive set_final
  set_limits s mode r = if is_interactive mode then set_interactive r else set_final s r

  -- `getGpuDeviceIdList`, which looks for devices the first time.
  unfoldable pub set_devices : Bool → Renderer S → Renderer S
  unfolding init_available_device_list get_gpu_device_id_list
  set_devices cuda r =
      let (pool', devices') =
        init_available_device_list api.env api.dummy api.fresh api.probe r.pool r.devices in
      call api (set_compute_devices (get_gpu_device_id_list cuda devices' r.variables []))
        (record r { pool = pool'; devices = devices' })

  unfoldable pub set_compute : RenderMode → Renderer S → Renderer S
  set_compute mode r = if is_cpu mode then r else set_devices (is_cuda mode) r

  unfoldable pub set_renderer_mode : SettingsRtEngine S → RenderMode → Renderer S → Renderer S
  set_renderer_mode s mode = when_vray (λ r. set_compute mode (
      fill_settings_rt_engine s
        (set_limits s mode (call api (set_render_mode mode) (record r { mode = mode })))))
