-- ===== src/Exporter/Coherence.antt =====
-- The constructors of `PluginAttr` and the reads of `exportPluginProperties` fit together.
use vray_for_houdini.Base.{
  ◌≡◌, refl, ◌⊎◌, inl, inr, ap, Bool, [], Option, none, some, if◌then◌else◌, ◌^◌, ◌%◌,
}
use vray_for_houdini.Qt.Text.{QString}
use vray_for_houdini.Attrs.Sdk.{Sdk}
use vray_for_houdini.Attrs.RefList.{to_ref_list_lem}
use vray_for_houdini.Attrs.Value.{AttrType}
use vray_for_houdini.Attrs.Attr.{
  Arg, nothing, just_type, a_text, a_chars, a_matrix, a_transform, a_ref, a_plugin, a_plugin_output,
  rgb, rgba, a_vector, q_ints, q_floats, q_colors, q_strings, q_values, an_int, an_exint, a_bool,
  a_float, a_real, ref_ints, ref_floats, ref_vectors, ref_colors, ref_strings, ref_values,
  plugin_attr,
}
use vray_for_houdini.Exporter.Setting.{
  Setting, int, real, color, vector, acolor, ref, transform, matrix, text, int_list, float_list,
  vector_list, color_list, char_string_list, value_list, setting,
}

module _ (S : Sdk) where
  open S use {Color, widen, make_color, make_acolor, plugin_ref}

  -- The value that each overload is called to set, in the terms of the AppSDK.
  abbrev pub meant : Arg S → Option (Setting S)
  meant nothing = none
  meant (just_type type) = none
  meant (a_text s an) = some (text s)
  meant (a_chars s an) = some (text s)
  meant (a_matrix m an) = some (matrix m)
  meant (a_transform t an) = some (transform t)
  meant (a_ref r) = some (ref r)
  meant (a_plugin p) = some (ref (plugin_ref p []))
  meant (a_plugin_output p output) = some (ref (plugin_ref p output))
  meant (rgb r g b an) = some (color (make_color (widen r) (widen g) (widen b)))
  meant (rgba r g b a an) = some (acolor (make_acolor (widen r) (widen g) (widen b) (widen a)))
  meant (a_vector v an) = some (vector v)
  meant (q_ints l an) = some (int_list l)
  meant (q_floats l an) = some (float_list l)
  meant (q_colors l an) = some (color_list l)
  meant (q_strings l an) = some (char_string_list l)
  meant (q_values l an) = some (value_list l)
  meant (an_int n an) = some (int n)
  meant (an_exint n an) = some (int (n % 2 ^ 32))
  meant (a_bool b an) = some (int (if b then 1 else 0))
  meant (a_float x an) = some (real (widen x))
  meant (a_real x an) = some (real x)
  meant (ref_ints l an) = some (int_list l)
  meant (ref_floats l an) = some (float_list l)
  meant (ref_vectors l an) = some (vector_list l)
  meant (ref_colors l an) = some (color_list l)
  meant (ref_strings l an) = some (char_string_list l)
  meant (ref_values l an) = some (value_list l)

  -- A constructor with a type and no value is called with the types that have none.
  abbrev pub IsValueless : Arg S → Type 0
  IsValueless (just_type type) = (type ≡ AttrType.ignore) ⊎ (type ≡ AttrType.unknown)
  IsValueless arg = Unit

  -- An attribute built by any overload is exported by the `setValue` overload of its type, with
  -- the value that it was built from; one built from a type alone, which is ignored or unknown, is
  -- not exported.
  pub setting-plugin_attr :
      (name : QString) (arg : Arg S)
      → IsValueless arg
      → setting S (plugin_attr S name arg).param_type (plugin_attr S name arg).param_value
        ≡ meant arg
  unfolding setting plugin_attr
  setting-plugin_attr name nothing h = refl
  setting-plugin_attr name (just_type type) (inl e) = rw e
  setting-plugin_attr name (just_type type) (inr e) = rw e
  setting-plugin_attr name (a_matrix m an) h = ap (λ x. some (matrix x)) (S.matrix_transform m _)
  setting-plugin_attr name (a_vector v an) h = ap (λ x. some (vector x)) (S.vector_eta v)
  setting-plugin_attr name (q_ints l an) h = ap (λ x. some (int_list x)) (to_ref_list_lem l _)
  setting-plugin_attr name (q_floats l an) h = ap (λ x. some (float_list x)) (to_ref_list_lem l _)
  setting-plugin_attr name (q_colors l an) h = ap (λ x. some (color_list x)) (to_ref_list_lem l _)
  setting-plugin_attr name (q_strings l an) h =
      ap (λ x. some (char_string_list x)) (to_ref_list_lem l _)
  setting-plugin_attr name (q_values l an) h = ap (λ x. some (value_list x)) (to_ref_list_lem l _)
  setting-plugin_attr name (a_bool Bool.true an) h = refl
  setting-plugin_attr name (a_bool Bool.false an) h = refl
  setting-plugin_attr name _ h = refl
