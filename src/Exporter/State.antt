-- ===== src/Exporter/State.antt =====
-- `VRayPluginRenderer` as a record, and the calls that it makes on the AppSDK as a trace. The
-- AppSDK's answers are the fields of `Api`.
use vray_for_houdini.Base.{ℕ, ◌≡◌, arith, Bool, List, [], ◌∷◌, ◌++◌, Option, none, some}
use vray_for_houdini.Instances.Pool.{Env, Pool}
use vray_for_houdini.Gpu.Select.{Devices, Probe, Variables}
use vray_for_houdini.Qt.Text.{QString}
use vray_for_houdini.Attrs.Sdk.{Sdk}
use vray_for_houdini.Exporter.Setting.{Setting}

-- `VRay::VRayRenderer::RenderMode`
pub data RenderMode : Type 0 where
  production interactive interactive_opencl interactive_cuda production_opencl production_cuda :
      RenderMode

pub data GpuSupport : Type 0 where
  full partial unsupported : GpuSupport

-- What is logged, by message and arguments.
pub data Message : Type 0 where
  id_not_set partial_support no_support removing_name starting_export : QString → Message
  setting_parameter : QString → QString → Message
  creating_plugin removing_plugin export_not_allowed exporting_scene : Message
  renderer_init_error starting_render renderer_free_mem : Message

-- One call on the AppSDK. `set_value` carries whether animated values are in use.
pub data Event (S : Sdk) : Type 0 where
  set_value : S.Plugin → QString → Setting S → Bool → Event S
  get_or_create : QString → QString → Event S
  log : Message → Event S
  clear_scene commit_scene start_sync wait_for_render_end stop : Event S
  unset_vfb_closed unset_vfb_render_last unset_state_changed : Event S
  unset_progress unset_log_message unset_renderer_close : Event S
  set_image_size : ℕ → ℕ → Event S
  set_camera : S.Plugin → Event S
  set_current_time clear_up_to : S.Real → Event S
  delete_plugin : S.Plugin → Event S
  delete_name get_instance save_scene : QString → Event S
  set_render_mode : RenderMode → Event S
  set_num_threads set_timeout set_sample_level : ℕ → Event S
  set_keep_running set_auto_commit : Bool → Event S
  set_noise_threshold : S.Float → Event S
  set_compute_devices : List ℕ → Event S

-- The answers of the AppSDK and of Houdini.
pub record Api (S : Sdk) : Type 0 where
  -- `setValue` succeeds, and `getLastError()` is an error after a call.
  pub accepts : Event S → Bool
  pub failed : Event S → Bool
  -- `getOrCreatePlugin`, where `none` is an empty plugin, and the plugin's GPU support.
  pub found : QString → QString → Option S.Plugin
  pub gpu_support : S.Plugin → GpuSupport
  -- `getInstanceOrCreate("SettingsRTEngine")`
  pub settings_plugin : S.Plugin
  -- `getDefaultOptions` throws; the shared memory and the allocations behave as `env`.
  pub throws : Bool
  pub env : Env
  -- The addresses that the next two allocations of a renderer return.
  pub dummy : ℕ
  pub fresh : ℕ
  -- The devices that the AppSDK reports.
  pub probe : Probe
  pub is_indie : Bool
  -- What `VRayRenderer::exportScene` returns.
  pub export_result : ℕ
  -- `getState()` as the number of its enumerator, and the two that bound a running render.
  pub state : ℕ
  pub preparing : ℕ
  pub rendering_paused : ℕ
  -- The numbers of the render modes, in their order; `getNumProcessors()`; and the product of a
  -- `float` and 60 * 1000 as an `int`.
  pub number : RenderMode → ℕ
  pub processors : ℕ
  pub minutes : S.Float → ℕ

pub record Renderer (S : Sdk) : Type 0 where
  -- `m_vray`, and the renderers of the process.
  pub vray : Option ℕ
  pub pool : Pool
  -- The devices found so far, and the hscript variables with the stored choice.
  pub devices : Devices
  pub variables : Variables
  pub enable_vfb : ℕ
  pub is_animation : Bool
  -- The state of the AppSDK that `useAnimatedValues` sets, and its render mode.
  pub use_animated : Bool
  pub mode : RenderMode
  -- `getLastError()` is an error: the AppSDK keeps the outcome of the last call in the trace.
  pub last_error : Bool
  pub trace : List (Event S)

module _ {S : Sdk} where
  -- A call on the AppSDK.
  abbrev pub call : Api S → Event S → Renderer S → Renderer S
  call api e r = record r { last_error = api.failed e; trace = r.trace ++ e ∷ [] }

  -- A line in the log.
  abbrev pub write : Message → Renderer S → Renderer S
  write m r = record r { trace = r.trace ++ log m ∷ [] }

  abbrev pub use_animated_values : Bool → Renderer S → Renderer S
  use_animated_values b r = record r { use_animated = b }

  -- A guard on `m_vray`.
  abbrev pub when_vray : (Renderer S → Renderer S) → Renderer S → Renderer S
  when_vray f r = elim r.vray [ none ↦ r | some v ↦ f r ]

  pub when_vray-some :
      (f : Renderer S → Renderer S) (r : Renderer S) {v : ℕ} → r.vray ≡ some v → when_vray f r ≡ f r
  when_vray-some f r h = ground arith

  pub when_vray-none :
      (f : Renderer S → Renderer S) (r : Renderer S) → r.vray ≡ none → when_vray f r ≡ r
  when_vray-none f r h = ground arith
