-- ===== src/Attrs/Value.antt =====
-- Attribute types and values: `VfhAttrType`, `VfhAttrValue` and the constructors of
-- src/export/vfh_plugin_attrs.cpp. An `int` is its 32-bit pattern.

use vray_for_houdini.Base.{ℕ, List, [], ◌%◌, ◌^◌}
use vray_for_houdini.Qt.Text.{QString}
use vray_for_houdini.Attrs.Sdk.{Sdk}

pub data AttrType : Type 0 where
  ignore unknown int float vector color acolor transform matrix text plugin plugin_desc : AttrType
  raw_list_int raw_list_float raw_list_vector raw_list_color raw_list_char_string : AttrType
  raw_list_value : AttrType

-- `fpreal valVector[4]`
pub record Quad (S : Sdk) : Type 0 where
  pub at_0 : S.Real
  pub at_1 : S.Real
  pub at_2 : S.Real
  pub at_3 : S.Real

pub record AttrValue (S : Sdk) : Type 0 where
  pub val_int : ℕ
  pub val_vector : Quad S
  pub val_string : QString
  pub val_plugin_ref : S.PluginRef
  pub val_transform : S.Transform
  pub val_raw_list_int : List ℕ
  pub val_raw_list_float : List S.Float
  pub val_raw_list_vector : List S.Vector
  pub val_raw_list_color : List S.Color
  pub val_raw_list_char_string : List QString
  pub val_raw_list_value : List S.Value
  pub is_animated : ℕ

-- The argument of a constructor of `VfhAttrValue`, one case for each overload.
pub data Raw (S : Sdk) : Type 0 where
  of_int : ℕ → Raw S
  of_float : S.Float → Raw S
  of_real : S.Real → Raw S
  of_floats : S.Float → S.Float → S.Float → S.Float → Raw S
  of_text : QString → Raw S
  of_ref : S.PluginRef → Raw S
  of_plugin : S.Plugin → QString → Raw S
  of_vector : S.Vector → Raw S
  of_transform : S.Transform → Raw S
  of_matrix : S.Matrix → Raw S
  of_ints : List ℕ → Raw S
  of_float_list : List S.Float → Raw S
  of_vectors : List S.Vector → Raw S
  of_colors : List S.Color → Raw S
  of_strings : List QString → Raw S
  of_values : List S.Value → Raw S

module _ (S : Sdk) where
  open S use {Float, Real, widen, zero_float, vector_x, vector_y, vector_z, plugin_ref}

  abbrev pub quad : Float → Float → Float → Float → Quad S
  quad a b c d = record { at_0 = widen a; at_1 = widen b; at_2 = widen c; at_3 = widen d }

  abbrev pub zeros : Quad S
  zeros = quad zero_float zero_float zero_float zero_float

  -- The default member initialisers.
  abbrev pub blank : AttrValue S
  blank = record {
    val_int = 0;
    val_vector = zeros;
    val_string = [];
    val_plugin_ref = S.no_ref;
    val_transform = S.transform_one;
    val_raw_list_int = [];
    val_raw_list_float = [];
    val_raw_list_vector = [];
    val_raw_list_color = [];
    val_raw_list_char_string = [];
    val_raw_list_value = [];
    is_animated = 0;
  }

  -- The field that the overload sets.
  unfoldable pub store : Raw S → AttrValue S
  store (of_int n) = record blank { val_int = n }
  store (of_float x) = record blank { val_vector = quad x zero_float zero_float zero_float }
  store (of_real x) = record blank { val_vector = record zeros { at_0 = x } }
  store (of_floats a b c d) = record blank { val_vector = quad a b c d }
  store (of_text s) = record blank { val_string = s }
  store (of_ref r) = record blank { val_plugin_ref = r }
  store (of_plugin p output) = record blank { val_plugin_ref = plugin_ref p output }
  store (of_vector v) = record blank {
    val_vector = quad (vector_x v) (vector_y v) (vector_z v) zero_float;
  }
  store (of_transform t) = record blank { val_transform = t }
  store (of_matrix m) = record blank {
    val_transform =
        S.make_transform m (S.make_vector (widen zero_float) (widen zero_float) (widen zero_float));
  }
  store (of_ints l) = record blank { val_raw_list_int = l }
  store (of_float_list l) = record blank { val_raw_list_float = l }
  store (of_vectors l) = record blank { val_raw_list_vector = l }
  store (of_colors l) = record blank { val_raw_list_color = l }
  store (of_strings l) = record blank { val_raw_list_char_string = l }
  store (of_values l) = record blank { val_raw_list_value = l }

  -- `VfhAttrValue(value, isAnimated)`
  unfoldable pub attr_value : Raw S → ℕ → AttrValue S
  unfolding store
  attr_value raw animated = record (store raw) { is_animated = animated }

-- `static_cast<int>` of a 64-bit `exint`, on two's complement patterns.
unfoldable pub int_of_exint : ℕ → ℕ
int_of_exint n = n % 2 ^ 32
