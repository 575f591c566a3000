-- ===== src/Tests/Devices.antt =====
-- The check boxes of two devices.
use vray_for_houdini.Base.{◌≡◌, refl, true, false, List, [], ◌∷◌, arith}
use vray_for_houdini.Qt.Text.{lit, contains, same_text}
use vray_for_houdini.Gpu.Select.{Devices, CheckBox, get_gpu_device_id_list, store_variable}
use vray_for_houdini.Gpu.Stored.{AreNames, get_gpu_device_id_list-store_variable}
use vray_for_houdini.Tests.Sample.{no_variables}

abbrev boxes : List CheckBox
boxes =
    record { text = lit "A"; is_checked = false }
    ∷ record { text = lit "B"; is_checked = true }
    ∷ []

abbrev two_devices : Devices
two_devices = record { is_initialized = true; cuda = lit "A" ∷ lit "B" ∷ []; opencl = [] }

boxes-AreNames : AreNames boxes
unfolding contains same_text
boxes-AreNames = ground arith

get_gpu_device_id_list-store_variable_example :
    get_gpu_device_id_list true two_devices (store_variable true boxes no_variables) [] ≡ 1 ∷ []
get_gpu_device_id_list-store_variable_example =
    get_gpu_device_id_list-store_variable true boxes two_devices no_variables boxes-AreNames refl

abbrev twin_devices : Devices
twin_devices = record { is_initialized = true; cuda = lit "A" ∷ lit "A" ∷ []; opencl = [] }
