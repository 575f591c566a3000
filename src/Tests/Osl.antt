-- ===== src/Tests/Osl.antt =====
-- A material of OSL code with a texture input, a menu and a colour.
use vray_for_houdini.Base.{ℕ, ◌≡◌, ◌+◌, refl, true, false, List, [], ◌∷◌, ◌++◌, some, arith, length}
use vray_for_houdini.Qt.Text.{QString, lit, same_text}
use vray_for_houdini.Vop.Sockets.{color, float, integer, text, PluginInfo}
use vray_for_houdini.Attrs.Attr.{a_text, a_chars, q_values}
use vray_for_houdini.Attrs.Desc.{PluginDesc, plugin_desc, add_arg}
use vray_for_houdini.Vop.Osl.Query.{
  as_color, no_semantics, int_type, string_type, other_type, Parameter, unspecified, menu,
}
use vray_for_houdini.Vop.Osl.Node.{ParamInfo, OslNode}
use vray_for_houdini.Vop.Osl.Update.{
  ParmEvent, Shading, remove_items, build_params, add_or_remove_instance, update_params_if_needed,
}
use vray_for_houdini.Vop.Osl.Inputs.{inputs_of, HasInputs}
use vray_for_houdini.Vop.Osl.Updated.{
  update_params_if_needed-HasInputs, update_params_if_needed-update_params_if_needed,
}
use vray_for_houdini.Vop.Osl.Export.{
  Shown, result_continue, output_attr, shader_file, as_plugin_desc,
}
use vray_for_houdini.Vop.Osl.Exported.{pairs_from, as_plugin_desc_lem}
use vray_for_houdini.Vop.Osl.Slots.{
  osl_outputs, get_input_name, get_input_from_name, get_output_name, get_output_from_name,
}
use vray_for_houdini.Vop.Osl.SlotNames.{
  Distinct, input_names, get_input_from_name-get_input_name, get_output_from_name_lem,
}
use vray_for_houdini.Tests.Sample.{sdk}

abbrev parameter : QString → Parameter ℕ
parameter name = record {
  name = name;
  is_output = false;
  is_closure = false;
  valid_default = false;
  vecsemantics = no_semantics;
  is_scalar = true;
  basetype = other_type;
  fdefault = [];
  idefault = [];
  sdefault = [];
  metadata = [];
}

abbrev out : Parameter ℕ
out = record (parameter (lit "o")) { is_output = true; is_closure = true }

abbrev texture : Parameter ℕ
texture = record (parameter (lit "t")) { basetype = string_type }

abbrev mode : Parameter ℕ
mode = record (parameter (lit "m")) {
  basetype = int_type;
  metadata =
      record { name = lit "widget"; sdefault = lit "mapper" ∷ [] }
      ∷ record { name = lit "options"; sdefault = lit "a:1" ∷ [] }
      ∷ [];
}

abbrev tint : Parameter ℕ
tint = record (parameter (lit "c")) {
  is_scalar = false;
  vecsemantics = as_color;
  valid_default = true;
  fdefault = 1 ∷ 2 ∷ 3 ∷ [];
}

abbrev shading : Shading ℕ
shading = record {
  hash = λ code. length code;
  compile = λ code. some code;
  query = λ oso. some (out ∷ texture ∷ mode ∷ tint ∷ []);
  zero_number = 0;
  is_material = true;
}

abbrev fresh : OslNode ℕ
fresh = record { code_hash = 0; param_list = []; input_list = []; output_name = []; warned = [] }

abbrev params : List (ParamInfo ℕ)
params =
    record {
      name = lit "t";
      kind = text;
      widget = unspecified;
      valid_default = false;
      number_default = record { at_0 = 0; at_1 = 0; at_2 = 0 };
      string_default = [];
    }
    ∷ record {
      name = lit "m";
      kind = integer;
      widget = menu;
      valid_default = false;
      number_default = record { at_0 = 0; at_1 = 0; at_2 = 0 };
      string_default = lit "a:1";
    }
    ∷ record {
      name = lit "c";
      kind = color;
      widget = unspecified;
      valid_default = true;
      number_default = record { at_0 = 1; at_1 = 2; at_2 = 3 };
      string_default = [];
    }
    ∷ []

abbrev ready : OslNode ℕ
ready = record {
  code_hash = 4;
  param_list = params;
  input_list = lit "t" ∷ [];
  output_name = lit "o";
  warned = [];
}

abbrev changes : List (ParmEvent ℕ)
changes = remove_items 100 0 ++ build_params 1 params ++ add_or_remove_instance ∷ []

code_update : update_params_if_needed shading (lit "code") true fresh ≡ some (ready, changes)
unfolding update_params_if_needed
code_update = refl

update_params_if_needed-HasInputs_example : HasInputs ready
update_params_if_needed-HasInputs_example =
    update_params_if_needed-HasInputs shading (lit "code") true fresh ready changes (refl, tt)
      code_update

update_params_if_needed-update_params_if_needed_example :
    update_params_if_needed shading (lit "code") true ready ≡ some (ready, [])
update_params_if_needed-update_params_if_needed_example =
    update_params_if_needed-update_params_if_needed shading (lit "code") true fresh ready changes
      code_update

abbrev shown : Shown sdk
shown = record {
  eval_string = λ name. lit "OSL";
  eval_float_inst = λ name i r. i + r;
  eval_int_inst = λ name i. i;
  eval_string_inst = λ name i. lit "1";
  int_of_text = λ s. some 1;
  text_value = λ s. length s;
  list_value = λ l. length l;
  int_value = λ n. n;
  float_value = λ x. x;
  plugin_value = λ p. 7;
  connected = λ name. (1, name);
  temp_file = some (lit "tmp");
  is_saved = true;
}

abbrev blank_desc : PluginDesc sdk
blank_desc = plugin_desc sdk (lit "n") (lit "MtlOSL")

abbrev with_file : PluginDesc sdk
with_file = add_arg sdk blank_desc (lit "shader_file") (a_text (lit "tmp") 0)

file_saved : shader_file shown blank_desc ≡ some with_file
unfolding shader_file
file_saved = refl

as_plugin_desc_lem_example :
    as_plugin_desc shown true ready blank_desc
    ≡ some (
      result_continue,
      add_arg sdk
          (add_arg sdk with_file (output_attr true) (a_chars (lit "o") 0))
          (lit "input_parameters")
          (q_values (pairs_from shown 1 params) 0),
      inputs_of params,
    )
as_plugin_desc_lem_example =
    as_plugin_desc_lem shown true ready blank_desc with_file (refl, (refl, (refl, (refl, tt)))) refl
      file_saved

abbrev info : PluginInfo
info = record {
  inputs = record { socket_label = lit "uvw"; socket_type = float } ∷ [];
  outputs = record { socket_label = lit "mtl"; socket_type = color } ∷ [];
}

names_differ : Distinct (input_names info ready)
unfolding same_text
names_differ = ((refl, tt), (tt, tt))

second_name : get_input_name info 1 ready ≡ some (lit "t")
unfolding get_input_name
second_name = refl

get_input_from_name-get_input_name_example : get_input_from_name info (lit "t") ready ≡ some 1
get_input_from_name-get_input_name_example =
    get_input_from_name-get_input_name info ready 1 (lit "t") names_differ (omega arith) second_name

get_output_from_name_lem_example :
    (get_output_name info 1 ready ≡ some (lit "o"))
    × (get_output_from_name info (lit "o") ready ≡ some 2)
    × (osl_outputs info ready ≡ 2)
get_output_from_name_lem_example = get_output_from_name_lem info ready refl
