-- ===== src/Tests/Ramps.antt =====
-- A ramp of two points, the second of them animated, as plugins.
use vray_for_houdini.Base.{ℕ, ◌≡◌, ◌+◌, refl, true, false, [], ◌∷◌, length}
use vray_for_houdini.Qt.Text.{lit, same_text}
use vray_for_houdini.Attrs.Desc.{PluginDesc, plugin_desc}
use vray_for_houdini.Ramp.Points.{RampNode, depends, at_points, any_point}
use vray_for_houdini.Ramp.Colors.{RampCall}
use vray_for_houdini.Base.{Succeeds, arith, ◌*◌}
use vray_for_houdini.Ramp.Curve.{Floats, Curve, curve_pos, curve_value, curve_type}
use vray_for_houdini.Ramp.Handles.{get_curve_data}
use vray_for_houdini.Ramp.Written.{pairs_at}
use vray_for_houdini.Ramp.Curves.{plain, handled, get_curve_data-plain}
use vray_for_houdini.Ramp.Handled.{IsCurve, get_curve_data-handled}
use vray_for_houdini.Base.{none}
use vray_for_houdini.Ramp.Overflow.{get_curve_data_overflow}
use vray_for_houdini.Tests.Sample.{sdk}

abbrev node : RampNode sdk
node = record {
  eval_int = λ name. 2;
  eval_int_at_zero = λ name. 2;
  eval_float_inst = λ name i r. i + r;
  eval_int_inst = λ name i. i;
  is_parm_time_dependent = λ name. same_text name (lit "r2c");
  number = λ i. (48 + i) ∷ [];
  plugin_name = λ name. name;
  export_plugin = λ d. length d.plugin_name;
  plugin_value = λ p. p;
  unset_color = (0, 0, 0);
  unset_float = 0;
  unset_int = 0;
}

abbrev call : RampCall
call = record {
  ramp_attr_name = lit "r";
  col_attr_name = lit "colors";
  pos_attr_name = lit "positions";
  types_attr_name = lit "types";
  as_color = false;
  remap_interp = true;
}

abbrev desc : PluginDesc sdk
desc = plugin_desc sdk (lit "n") (lit "TexRamp")

color_is_animated : any_point (depends node (lit "r") (lit "c")) 2 1 ≡ true
unfolding same_text
color_is_animated = refl

abbrev floats : Floats ℕ
floats = record {
  plus = λ a b. a + b;
  minus = λ a b. a + b;
  times = λ a b. a * b;
  over = λ a b. a;
  negative = λ a. a;
  num = λ n. n;
}

abbrev no_curve : Curve ℕ
no_curve = record {
  interpolations = [];
  positions = [];
  values = [];
  pos_idx = 0;
  xs = [];
  ys = [];
  is_animated = 0;
}

get_curve_data-plain_example :
    Succeeds (get_curve_data node floats (lit "r") (plain false) no_curve) (λ r.
      (r.interpolations ≡ at_points (curve_type node (lit "r") (plain false)) 2 1)
      × (r.positions
          ≡ pairs_at
              (curve_pos node (lit "r") (plain false))
              (curve_value node (lit "r") (plain false))
              2
              1)
      × (r.values ≡ []))
get_curve_data-plain_example = get_curve_data-plain node floats (lit "r") no_curve false refl

get_curve_data-handled_example :
    Succeeds (get_curve_data node floats (lit "r") (handled true) no_curve) (λ r.
      (r.interpolations ≡ at_points (curve_type node (lit "r") (handled true)) 2 1)
      × IsCurve node floats (lit "r") true [] 2 r)
get_curve_data-handled_example =
    get_curve_data-handled node floats (lit "r") true no_curve (omega arith) (omega arith)

abbrev long_node : RampNode sdk
long_node = record node { eval_int = λ name. 65 }

get_curve_data_overflow_example :
    get_curve_data long_node floats (lit "r") (handled true) no_curve ≡ none
get_curve_data_overflow_example =
    get_curve_data_overflow long_node floats (lit "r") true no_curve (omega arith)
