-- ===== src/Exporter/Setting.antt =====
-- What `exportPluginProperties` passes to `Plugin::setValue` for one attribute.
use vray_for_houdini.Base.{ℕ, Bool, List, Option, none, some}
use vray_for_houdini.Qt.Text.{QString}
use vray_for_houdini.Attrs.Sdk.{Sdk}
use vray_for_houdini.Attrs.Value.{AttrType, AttrValue}

-- The value argument of `setValue`, one case for each overload that is called.
pub data Setting (S : Sdk) : Type 0 where
  int : ℕ → Setting S
  real : S.Real → Setting S
  color : S.Color → Setting S
  vector : S.Vector → Setting S
  acolor : S.AColor → Setting S
  ref : S.PluginRef → Setting S
  transform : S.Transform → Setting S
  matrix : S.Matrix → Setting S
  text : QString → Setting S
  int_list : List ℕ → Setting S
  float_list : List S.Float → Setting S
  vector_list : List S.Vector → Setting S
  color_list : List S.Color → Setting S
  char_string_list : List QString → Setting S
  value_list : List S.Value → Setting S
  -- The overloads for `bool` and `float`, which only `fillSettingsRTEnginePlugin` calls.
  flag : Bool → Setting S
  single : S.Float → Setting S

module _ (S : Sdk) where
  -- The chain of tests of `paramType`. No branch takes an ignored, an unknown and a description.
  unfoldable pub setting : AttrType → AttrValue S → Option (Setting S)
  setting AttrType.ignore v = none
  setting AttrType.int v = some (int v.val_int)
  setting AttrType.float v = some (real v.val_vector.at_0)
  setting AttrType.color v =
      some (color (S.make_color v.val_vector.at_0 v.val_vector.at_1 v.val_vector.at_2))
  setting AttrType.vector v =
      some (vector (S.make_vector v.val_vector.at_0 v.val_vector.at_1 v.val_vector.at_2))
  setting AttrType.acolor v = some (
      acolor
        (S.make_acolor v.val_vector.at_0 v.val_vector.at_1 v.val_vector.at_2 v.val_vector.at_3))
  setting AttrType.plugin v = some (ref v.val_plugin_ref)
  setting AttrType.transform v = some (transform v.val_transform)
  setting AttrType.matrix v = some (matrix (S.transform_matrix v.val_transform))
  setting AttrType.text v = some (text v.val_string)
  setting AttrType.raw_list_int v = some (int_list v.val_raw_list_int)
  setting AttrType.raw_list_float v = some (float_list v.val_raw_list_float)
  setting AttrType.raw_list_vector v = some (vector_list v.val_raw_list_vector)
  setting AttrType.raw_list_color v = some (color_list v.val_raw_list_color)
  setting AttrType.raw_list_char_string v = some (char_string_list v.val_raw_list_char_string)
  setting AttrType.raw_list_value v = some (value_list v.val_raw_list_value)
  setting AttrType.unknown v = none
  setting AttrType.plugin_desc v = none
