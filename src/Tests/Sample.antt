-- ===== src/Tests/Sample.antt =====
-- An AppSDK whose numbers are natural numbers, and the surroundings of a process.
use vray_for_houdini.Base.{ℕ, refl, Bool, true, false, [], ◌∷◌, none, some}
use vray_for_houdini.Qt.Text.{QString, lit}
use vray_for_houdini.Attrs.Sdk.{Sdk}
use vray_for_houdini.Attrs.Attr.{PluginAttr, an_int, just_type, q_ints, plugin_attr}
use vray_for_houdini.Attrs.Value.{ignore}
use vray_for_houdini.Attrs.Desc.{PluginDesc}
use vray_for_houdini.Instances.Pool.{Env, Pool, MemoryError}
use vray_for_houdini.Gpu.Select.{Devices, Probe, Variables}
use vray_for_houdini.Exporter.State.{Api, Renderer, RenderMode, GpuSupport, Event, set_value}
use vray_for_houdini.Exporter.Mode.{SettingsRtEngine}

abbrev pub sdk : Sdk
sdk = record {
  Float = ℕ;
  Real = ℕ;
  widen = λ x. x;
  zero_float = 0;
  one_float = 1;
  Vector = ℕ × ℕ × ℕ;
  make_vector = λ a b c. (a, b, c);
  vector_x = λ v. v.0;
  vector_y = λ v. v.1;
  vector_z = λ v. v.2;
  Color = ℕ × ℕ × ℕ;
  make_color = λ a b c. (a, b, c);
  AColor = ℕ × ℕ × ℕ × ℕ;
  make_acolor = λ a b c d. (a, b, c, d);
  Matrix = ℕ;
  Transform = ℕ × (ℕ × ℕ × ℕ);
  make_transform = λ m v. (m, v);
  transform_matrix = λ t. t.0;
  transform_one = (1, (0, 0, 0));
  Plugin = ℕ;
  PluginRef = ℕ × QString;
  plugin_ref = λ p output. (p, output);
  no_ref = (0, []);
  Value = ℕ;
  blank_value = 0;
  vector_eta = λ v. refl;
  matrix_transform = λ m o. refl;
}

abbrev pub good_env : Env
good_env = record {
  created = true;
  error = MemoryError.no_error;
  attaches = true;
  locks = true;
  makes_init = true;
  makes_renderer = true;
}

-- A table with three slots, one of them taken.
abbrev pub small_pool : Pool
small_pool = record {
  is_attached = true;
  has_init = true;
  slots = some 7 ∷ none ∷ none ∷ [];
  live = 7 ∷ [];
  auto_commits = 7 ∷ [];
}

abbrev pub no_devices : Devices
no_devices = record { is_initialized = false; cuda = []; opencl = [] }

abbrev pub no_variables : Variables
no_variables = record { cuda_devices = none; opencl_devices = none }

abbrev pub probe : Probe
probe = record { cuda = some (lit "A" ∷ lit "B" ∷ []); opencl = none }

abbrev pub mode_number : RenderMode → ℕ
mode_number RenderMode.production = 0
mode_number RenderMode.interactive = 1
mode_number RenderMode.interactive_opencl = 2
mode_number RenderMode.interactive_cuda = 3
mode_number RenderMode.production_opencl = 4
mode_number RenderMode.production_cuda = 5

abbrev pub accepts : Event sdk → Bool
accepts (set_value plugin name value animated) = false
accepts e = true

abbrev pub fails : Event sdk → Bool
fails (set_value plugin name value animated) = true
fails e = false

abbrev pub api : Api sdk
api = record {
  accepts = accepts;
  failed = fails;
  found = λ name id. some 5;
  gpu_support = λ plugin. GpuSupport.partial;
  settings_plugin = 9;
  throws = false;
  env = good_env;
  dummy = 20;
  fresh = 21;
  probe = probe;
  is_indie = false;
  export_result = 0;
  state = 3;
  preparing = 2;
  rendering_paused = 5;
  number = mode_number;
  processors = 8;
  minutes = λ x. x;
}

abbrev pub idle : Renderer sdk
idle = record {
  vray = none;
  pool = small_pool;
  devices = no_devices;
  variables = no_variables;
  enable_vfb = 0;
  is_animation = true;
  use_animated = false;
  mode = RenderMode.production;
  last_error = false;
  trace = [];
}

abbrev pub ready : Renderer sdk
ready = record idle { vray = some 7; mode = RenderMode.interactive_cuda }

abbrev pub hidden : PluginAttr sdk
hidden = plugin_attr sdk (lit "hidden") (just_type ignore)

abbrev pub ints : PluginAttr sdk
ints = plugin_attr sdk (lit "ints") (q_ints (4 ∷ 5 ∷ []) 0)

abbrev pub subdivs : PluginAttr sdk
subdivs = plugin_attr sdk (lit "subdivs") (an_int 8 0)

abbrev pub desc : PluginDesc sdk
desc = record {
  plugin_name = lit "mtl";
  plugin_id = lit "BRDFVRayMtl";
  plugin_attrs = (lit "hidden", hidden) ∷ (lit "ints", ints) ∷ (lit "subdivs", subdivs) ∷ [];
}

abbrev pub settings : SettingsRtEngine sdk
settings = record {
  trace_depth = 5;
  gi_depth = 3;
  cpu_bundle_size = 64;
  cpu_samples_per_pixel = 1;
  gpu_bundle_size = 128;
  gpu_samples_per_pixel = 16;
  low_gpu_thread_priority = false;
  coherent_tracing = false;
  stereo_mode = false;
  stereo_eye_distance = 6;
  stereo_focus = 1;
  opencl_texsize = 512;
  opencl_resize_textures = 1;
  opencl_texture_format = 1;
  progressive_samples_per_pixel = 0;
  undersampling = 4;
  disable_render_elements = false;
  max_render_time = 2;
  max_sample_level = 100;
  noise_threshold = 1;
  enable_mask = false;
  max_draw_interval = 500;
  min_draw_interval = 66;
  enable_cpu_interop = 1;
}
