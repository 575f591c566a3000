-- ===== src/Ramp/Colors.antt =====
-- `exportRampAttribute`.
use vray_for_houdini.Base.{
  ℕ, zero, suc, ◌-◌, Bool, false, not, ◌||◌, List, [], ◌∷◌, ◌++◌, Option, some, if◌then◌else◌,
  ◌>>=◌,
}
use vray_for_houdini.Qt.Text.{QString, lit, is_empty}
use vray_for_houdini.Attrs.Sdk.{Sdk}
use vray_for_houdini.Attrs.RefList.{ptr_array}
use vray_for_houdini.Attrs.Attr.{rgba, ref_colors, ref_values, ref_floats, ref_ints, int_of_bool}
use vray_for_houdini.Attrs.Desc.{PluginDesc, plugin_desc, add_arg}
use vray_for_houdini.Mesh.Array.{put}
use vray_for_houdini.Ramp.Points.{RampNode, map_to_vray, depends, put_if, used}

-- The names and switches of the call.
pub record RampCall : Type 0 where
  pub ramp_attr_name : QString
  pub col_attr_name : QString
  pub pos_attr_name : QString
  pub types_attr_name : QString
  pub as_color : Bool
  pub remap_interp : Bool

-- The arrays and flags of the loop, and the descriptions that it exports.
pub record Ramp (S : Sdk) : Type 0 where
  pub color_list : List S.Color
  pub color_plugins : List S.Value
  pub positions : List S.Float
  pub types : List ℕ
  pub is_pos_animated : Bool
  pub is_col_animated : Bool
  pub is_interp_animated : Bool
  pub exported : List (PluginDesc S)

module _ {S : Sdk} (x : RampNode S) (c : RampCall) where
  abbrev pub position : ℕ → S.Float
  position i = x.eval_float_inst (c.ramp_attr_name ++ lit "#pos") i 0

  abbrev pub channel : ℕ → ℕ → S.Float
  channel r i = x.eval_float_inst (c.ramp_attr_name ++ lit "#c") i r

  abbrev pub point_color : ℕ → S.Color
  point_color i =
      S.make_color (S.widen (channel 0 i)) (S.widen (channel 1 i)) (S.widen (channel 2 i))

  abbrev pub point_type : ℕ → ℕ
  point_type i =
      let interp = x.eval_int_inst (c.ramp_attr_name ++ lit "#interp") i in
      if c.remap_interp then map_to_vray interp else interp

  -- The colour of a point as a plugin.
  abbrev pub color_desc : Bool → ℕ → PluginDesc S
  color_desc animated i =
      add_arg S
        (plugin_desc S (x.plugin_name c.ramp_attr_name ++ lit "|" ++ x.number i) (lit "TexAColor"))
        (lit "texture")
        (rgba (channel 0 i) (channel 1 i) (channel 2 i) S.one_float (int_of_bool animated))

  abbrev pub need_types : Bool
  need_types = not (is_empty c.types_attr_name)

  -- One round of the loop, for the point `i` from 1 on.
  unfoldable pub export_point : ℕ → Ramp S → Option (Ramp S)
  unfolding add_arg plugin_desc put map_to_vray
  export_point i r =
      let pnt_idx = i - 1 in
      let pos_animated = r.is_pos_animated || depends x c.ramp_attr_name (lit "pos") i in
      let col_animated = r.is_col_animated || depends x c.ramp_attr_name (lit "c") i in
      let interp_animated = r.is_interp_animated || depends x c.ramp_attr_name (lit "interp") i in
      let desc = color_desc col_animated i in
      do
        colors ← put_if c.as_color r.color_list pnt_idx (point_color i)
        plugins ←
            put_if (not c.as_color) r.color_plugins pnt_idx (x.plugin_value (x.export_plugin desc))
        positions ← put r.positions pnt_idx (position i)
        types ← put_if need_types r.types pnt_idx (point_type i)
        some (record {
          color_list = colors;
          color_plugins = plugins;
          positions = positions;
          types = types;
          is_pos_animated = pos_animated;
          is_col_animated = col_animated;
          is_interp_animated = interp_animated;
          exported = r.exported ++ (if c.as_color then [] else desc ∷ []);
        })

  unfoldable pub export_points : ℕ → ℕ → Ramp S → Option (Ramp S)
  unfolding export_point
  export_points zero i r = some r
  export_points (suc n) i r = do next ← export_point i r; export_points n (suc i) next

  abbrev pub new_ramp : ℕ → Ramp S
  new_ramp n = record {
    color_list = used c.as_color (ptr_array n x.unset_color);
    color_plugins = used (not c.as_color) (ptr_array n S.blank_value);
    positions = ptr_array n x.unset_float;
    types = used need_types (ptr_array n x.unset_int);
    is_pos_animated = false;
    is_col_animated = false;
    is_interp_animated = false;
    exported = [];
  }

  -- The attributes that the arrays make.
  unfoldable pub add_ramp : Ramp S → PluginDesc S → PluginDesc S
  unfolding add_arg
  add_ramp r d =
      let colored =
        if c.as_color
        then add_arg S d c.col_attr_name (ref_colors r.color_list (int_of_bool r.is_col_animated))
        else add_arg S d c.col_attr_name (ref_values r.color_plugins 0) in
      let placed =
        add_arg S colored c.pos_attr_name
          (ref_floats r.positions (int_of_bool r.is_pos_animated)) in
      if need_types
      then add_arg S placed c.types_attr_name (ref_ints r.types (int_of_bool r.is_interp_animated))
      else placed

  -- The description, and the descriptions that are exported for it. The number of points is the one
  -- at the time 0; the points are read at the time of the export.
  unfoldable pub export_ramp_attribute : PluginDesc S → Option (PluginDesc S × List (PluginDesc S))
  unfolding export_points add_ramp ptr_array
  export_ramp_attribute d =
      let n = x.eval_int_at_zero c.ramp_attr_name in
      do r ← export_points n 1 (new_ramp n); some (add_ramp r d, r.exported)
