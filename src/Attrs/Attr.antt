-- ===== src/Attrs/Attr.antt =====
-- `PluginAttr`: its constructors, and the name of its type.
use vray_for_houdini.Base.{ℕ, Bool, true, false, List, []}
use vray_for_houdini.Qt.Text.{QString, lit}
use vray_for_houdini.Attrs.Sdk.{Sdk}
use vray_for_houdini.Attrs.RefList.{to_ref_list}
use vray_for_houdini.Attrs.Value.{
  AttrType, ignore, unknown, int, float, vector, color, acolor, transform, matrix, text, plugin,
  plugin_desc, raw_list_int, raw_list_float, raw_list_vector, raw_list_color, raw_list_char_string,
  raw_list_value, AttrValue, of_int, of_float, of_real, of_floats, of_text, of_ref, of_plugin,
  of_vector, of_transform, of_matrix, of_ints, of_float_list, of_vectors, of_colors, of_strings,
  of_values, blank, attr_value, int_of_exint,
}

pub record PluginAttr (S : Sdk) : Type 0 where
  pub param_name : QString
  pub param_type : AttrType
  pub param_value : AttrValue S

-- What follows the name in a constructor of `PluginAttr`, one case for each overload. The flag
-- `isAnimated` is a part of the overloads that take it.
pub data Arg (S : Sdk) : Type 0 where
  -- `PluginAttr(attrName)` and `PluginAttr(attrName, attrType)`
  nothing : Arg S
  just_type : AttrType → Arg S
  a_text : QString → ℕ → Arg S
  a_chars : QString → ℕ → Arg S
  a_matrix : S.Matrix → ℕ → Arg S
  a_transform : S.Transform → ℕ → Arg S
  a_ref : S.PluginRef → Arg S
  a_plugin : S.Plugin → Arg S
  a_plugin_output : S.Plugin → QString → Arg S
  rgb : S.Float → S.Float → S.Float → ℕ → Arg S
  rgba : S.Float → S.Float → S.Float → S.Float → ℕ → Arg S
  a_vector : S.Vector → ℕ → Arg S
  q_ints : List ℕ → ℕ → Arg S
  q_floats : List S.Float → ℕ → Arg S
  q_colors : List S.Color → ℕ → Arg S
  q_strings : List QString → ℕ → Arg S
  q_values : List S.Value → ℕ → Arg S
  an_int : ℕ → ℕ → Arg S
  an_exint : ℕ → ℕ → Arg S
  a_bool : Bool → ℕ → Arg S
  a_float : S.Float → ℕ → Arg S
  a_real : S.Real → ℕ → Arg S
  ref_ints : List ℕ → ℕ → Arg S
  ref_floats : List S.Float → ℕ → Arg S
  ref_vectors : List S.Vector → ℕ → Arg S
  ref_colors : List S.Color → ℕ → Arg S
  ref_strings : List QString → ℕ → Arg S
  ref_values : List S.Value → ℕ → Arg S

-- A `bool` where an `int` is wanted.
abbrev pub int_of_bool : Bool → ℕ
int_of_bool true = 1
int_of_bool false = 0

module _ (S : Sdk) where
  open S use {widen, zero_float, one_float, make_color}

  abbrev pub attr : QString → AttrType → AttrValue S → PluginAttr S
  attr name type value = record { param_name = name; param_type = type; param_value = value }

  -- `PluginAttr()`
  unfoldable pub no_attr : PluginAttr S
  no_attr = attr [] unknown (blank S)

  abbrev black : S.Color
  black = make_color (widen zero_float) (widen zero_float) (widen zero_float)

  -- The constructors that take a name.
  unfoldable pub plugin_attr : QString → Arg S → PluginAttr S
  unfolding attr_value int_of_exint
  plugin_attr name nothing = attr name unknown (blank S)
  plugin_attr name (just_type type) = attr name type (blank S)
  plugin_attr name (a_text s an) = attr name text (attr_value S (of_text s) an)
  plugin_attr name (a_chars s an) = attr name text (attr_value S (of_text s) an)
  plugin_attr name (a_matrix m an) = attr name matrix (attr_value S (of_matrix m) an)
  plugin_attr name (a_transform t an) = attr name transform (attr_value S (of_transform t) an)
  plugin_attr name (a_ref r) = attr name plugin (attr_value S (of_ref r) 0)
  plugin_attr name (a_plugin p) = attr name plugin (attr_value S (of_plugin p []) 0)
  plugin_attr name (a_plugin_output p output) =
      attr name plugin (attr_value S (of_plugin p output) 0)
  plugin_attr name (rgb r g b an) = attr name color (attr_value S (of_floats r g b one_float) an)
  plugin_attr name (rgba r g b a an) = attr name acolor (attr_value S (of_floats r g b a) an)
  plugin_attr name (a_vector v an) = attr name vector (attr_value S (of_vector v) an)
  plugin_attr name (q_ints l an) =
      attr name raw_list_int (attr_value S (of_ints (to_ref_list l 0)) an)
  plugin_attr name (q_floats l an) =
      attr name raw_list_float (attr_value S (of_float_list (to_ref_list l zero_float)) an)
  plugin_attr name (q_colors l an) =
      attr name raw_list_color (attr_value S (of_colors (to_ref_list l black)) an)
  plugin_attr name (q_strings l an) =
      attr name raw_list_char_string (attr_value S (of_strings (to_ref_list l [])) an)
  plugin_attr name (q_values l an) =
      attr name raw_list_value (attr_value S (of_values (to_ref_list l S.blank_value)) an)
  plugin_attr name (an_int n an) = attr name int (attr_value S (of_int n) an)
  plugin_attr name (an_exint n an) = attr name int (attr_value S (of_int (int_of_exint n)) an)
  plugin_attr name (a_bool b an) = attr name int (attr_value S (of_int (int_of_bool b)) an)
  plugin_attr name (a_float x an) = attr name float (attr_value S (of_float x) an)
  plugin_attr name (a_real x an) = attr name float (attr_value S (of_real x) an)
  plugin_attr name (ref_ints l an) = attr name raw_list_int (attr_value S (of_ints l) an)
  plugin_attr name (ref_floats l an) = attr name raw_list_float (attr_value S (of_float_list l) an)
  plugin_attr name (ref_vectors l an) = attr name raw_list_vector (attr_value S (of_vectors l) an)
  plugin_attr name (ref_colors l an) = attr name raw_list_color (attr_value S (of_colors l) an)
  plugin_attr name (ref_strings l an) =
      attr name raw_list_char_string (attr_value S (of_strings l) an)
  plugin_attr name (ref_values l an) = attr name raw_list_value (attr_value S (of_values l) an)

  -- `setAnimated`
  unfoldable pub set_animated : PluginAttr S → ℕ → PluginAttr S
  set_animated p value = record p { param_value = record (p.param_value) { is_animated = value } }

-- `getTypeAsString`
unfoldable pub type_as_string : AttrType → QString
type_as_string unknown = lit "AttrTypeUnknown"
type_as_string ignore = lit "AttrTypeIgnore"
type_as_string int = lit "Int"
type_as_string float = lit "Float"
type_as_string vector = lit "Vector"
type_as_string color = lit "Color"
type_as_string acolor = lit "AColor"
type_as_string transform = lit "Transform"
type_as_string matrix = lit "Matrix"
type_as_string text = lit "String"
type_as_string plugin = lit "Plugin"
type_as_string plugin_desc = lit "PluginDesc"
type_as_string raw_list_int = lit "RawListInt"
type_as_string raw_list_float = lit "RawListFloat"
type_as_string raw_list_vector = lit "RawListVector"
type_as_string raw_list_color = lit "RawListColor"
type_as_string raw_list_char_string = lit "RawListCharString"
type_as_string raw_list_value = lit "RawListValue"
