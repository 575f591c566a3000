-- ===== src/Ramp/Colored.antt =====
-- A ramp is exported with a colour, a position and a type for each of its points.
use vray_for_houdini.Base.{
  ℕ, zero, suc, ◌≡◌, Bool, not, ◌||◌, List, [], ◌∷◌, ◌++◌, map, if◌then◌else◌, length,
}
use vray_for_houdini.Qt.Text.{lit}
use vray_for_houdini.Attrs.Sdk.{Sdk}
use vray_for_houdini.Attrs.RefList.{ptr_array}
use vray_for_houdini.Attrs.Desc.{PluginDesc}
use vray_for_houdini.Ramp.Points.{RampNode, depends, used, at_points, any_point}
use vray_for_houdini.Ramp.Colors.{
  RampCall, Ramp, position, point_color, point_type, color_desc, need_types,
}

module _ {S : Sdk} (x : RampNode S) (c : RampCall) where
  -- The descriptions of the colours of `n` points from `i` on: a colour is animated if it, or one of a
  -- point before it, depends on the time.
  abbrev pub color_descs : Bool → ℕ → ℕ → List (PluginDesc S)
  color_descs a zero i = []
  color_descs a (suc n) i =
      let animated = a || depends x c.ramp_attr_name (lit "c") i in
      color_desc x c animated i ∷ color_descs animated n (suc i)

  abbrev plugin_of : PluginDesc S → S.Value
  plugin_of d = x.plugin_value (x.export_plugin d)

  -- The arrays with some points written and `n` to go.
  record Done : Type 0 where
    colors : List S.Color
    plugins : List S.Value
    places : List S.Float
    kinds : List ℕ
    pos_flag : Bool
    col_flag : Bool
    interp_flag : Bool
    descs : List (PluginDesc S)

  abbrev ramp_of : Done → ℕ → Ramp S
  ramp_of d n = record {
    color_list = used c.as_color (d.colors ++ ptr_array n x.unset_color);
    color_plugins = used (not c.as_color) (d.plugins ++ ptr_array n S.blank_value);
    positions = d.places ++ ptr_array n x.unset_float;
    types = used (need_types x c) (d.kinds ++ ptr_array n x.unset_int);
    is_pos_animated = d.pos_flag;
    is_col_animated = d.col_flag;
    is_interp_animated = d.interp_flag;
    exported = if c.as_color then [] else d.descs;
  }

  abbrev with_points : Done → ℕ → ℕ → Done
  with_points d n i = record {
    colors = d.colors ++ at_points (point_color x c) n i;
    plugins = d.plugins ++ map plugin_of (color_descs d.col_flag n i);
    places = d.places ++ at_points (position x c) n i;
    kinds = d.kinds ++ at_points (point_type x c) n i;
    pos_flag = d.pos_flag || any_point (depends x c.ramp_attr_name (lit "pos")) n i;
    col_flag = d.col_flag || any_point (depends x c.ramp_attr_name (lit "c")) n i;
    interp_flag = d.interp_flag || any_point (depends x c.ramp_attr_name (lit "interp")) n i;
    descs = d.descs ++ color_descs d.col_flag n i;
  }

  abbrev next_point : Done → ℕ → Done
  next_point d i =
      let animated = d.col_flag || depends x c.ramp_attr_name (lit "c") i in
      let desc = color_desc x c animated i in
      record {
        colors = d.colors ++ point_color x c i ∷ [];
        plugins = d.plugins ++ plugin_of desc ∷ [];
        places = d.places ++ position x c i ∷ [];
        kinds = d.kinds ++ point_type x c i ∷ [];
        pos_flag = d.pos_flag || depends x c.ramp_attr_name (lit "pos") i;
        col_flag = animated;
        interp_flag = d.interp_flag || depends x c.ramp_attr_name (lit "interp") i;
        descs = d.descs ++ desc ∷ [];
      }

  abbrev Before : Done → ℕ → Type 0
  Before d i =
      (i ≡ suc (length d.colors))
      × (i ≡ suc (length d.plugins))
      × (i ≡ suc (length d.places))
      × (i ≡ suc (length d.kinds))
