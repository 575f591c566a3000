-- ===== src/Gpu/Select.antt =====
-- The available devices, the stored choice in two hscript variables, and the list of the check
-- boxes. `cuda` and `opencl` in `Probe` are the device names that the AppSDK reports, or `none`
-- where the call throws.
use vray_for_houdini.Base.{
  ℕ, suc, Bool, true, false, not, ◌&&◌, List, [], ◌∷◌, ◌++◌, Option, none, some, if◌then◌else◌,
}
use vray_for_houdini.Qt.Text.{QString, is_empty, join, split, contains}
use vray_for_houdini.Instances.Pool.{Env, Pool, new_init, new_renderer, delete_renderer}

pub record Devices : Type 0 where
  pub is_initialized : Bool
  pub cuda : List QString
  pub opencl : List QString

pub record Probe : Type 0 where
  pub cuda : Option (List QString)
  pub opencl : Option (List QString)

-- The hscript variables, `none` where one is not set.
pub record Variables : Type 0 where
  pub cuda_devices : Option QString
  pub opencl_devices : Option QString

-- `appendDeviceToList`
unfoldable pub append_device_to_list : List QString → List QString → List QString
append_device_to_list [] devices = devices
append_device_to_list (name ∷ infos) devices = append_device_to_list infos (devices ++ name ∷ [])

-- An exception leaves the list as it is.
abbrev pub append_probed : Option (List QString) → List QString → List QString
append_probed none devices = devices
append_probed (some infos) devices = append_device_to_list infos devices

-- The body under `if (renderer)`, with the deletion at its end.
unfoldable pub probe_devices : Env → Probe → Pool × Option ℕ → Devices → Pool × Devices
unfolding append_device_to_list
probe_devices env probe (p, none) d = (p, d)
probe_devices env probe (p, some renderer) d = (
  (delete_renderer env (some renderer) p).0,
  record d { cuda = append_probed probe.cuda d.cuda; opencl = append_probed probe.opencl d.opencl },
)

-- `dummy` and `fresh` are the addresses of the two renderers that may be allocated.
unfoldable pub init_available_device_list : Env → ℕ → ℕ → Probe → Pool → Devices → Pool × Devices
unfolding probe_devices
init_available_device_list env dummy fresh probe p d =
    if d.is_initialized
    then (p, d)
    else let (p', exists) = new_init env dummy p in
      let (p'', d') =
        if exists then probe_devices env probe (new_renderer env fresh p') d else (p', d) in
      (p'', record d' { is_initialized = true })

abbrev pub semicolon : ℕ
semicolon = b';'

-- `setStoredDeviceList` and `getStoredDeviceList`, where `is_cuda` tells which variable. The
-- second leaves the list that it is given where the variable is not set.
unfoldable pub set_stored_device_list : Bool → List QString → Variables → Variables
set_stored_device_list true devices v = record v { cuda_devices = some (join semicolon devices) }
set_stored_device_list false devices v = record v { opencl_devices = some (join semicolon devices) }

abbrev pub stored : Bool → Variables → Option QString
stored true v = v.cuda_devices
stored false v = v.opencl_devices

unfoldable pub get_stored_device_list : Bool → Variables → List QString → List QString
get_stored_device_list is_cuda v devices = elim (stored is_cuda v) [
  | none ↦ devices
  | some text ↦ split semicolon text
]

-- The loop of `getGpuDeviceIdList` from index `i`; `list` is what the caller passes in.
unfoldable pub push_ids : List QString → ℕ → List QString → List ℕ → List ℕ
push_ids chosen i [] list = list
push_ids chosen i (name ∷ names) list =
    push_ids chosen (suc i) names (if contains chosen name then list ++ i ∷ [] else list)

abbrev pub available : Bool → Devices → List QString
available true d = d.cuda
available false d = d.opencl

-- `getGpuDeviceIdList`, once the devices are known.
unfoldable pub get_gpu_device_id_list : Bool → Devices → Variables → List ℕ → List ℕ
unfolding get_stored_device_list push_ids
get_gpu_device_id_list is_cuda d v list =
    push_ids (get_stored_device_list is_cuda v []) 0 (available is_cuda d) list

-- A check box: its text, and whether it is checked.
pub record CheckBox : Type 0 where
  pub text : QString
  pub is_checked : Bool

-- `fillWidgetList`
unfoldable pub fill_widget_list : List QString → List QString → List CheckBox
fill_widget_list chosen [] = []
fill_widget_list chosen (name ∷ names) =
    record { text = name; is_checked = not (is_empty chosen) && contains chosen name }
    ∷ fill_widget_list chosen names

-- The list that `storeVariable` collects from the check boxes.
unfoldable pub checked_texts : List CheckBox → List QString
checked_texts [] = []
checked_texts (box ∷ boxes) =
    if box.is_checked then box.text ∷ checked_texts boxes else checked_texts boxes

unfoldable pub store_variable : Bool → List CheckBox → Variables → Variables
unfolding checked_texts set_stored_device_list
store_variable is_cuda boxes v = set_stored_device_list is_cuda (checked_texts boxes) v
