-- ===== src/Vop/Osl/Export.antt =====
-- `asPluginDesc` of an OSL node.
use vray_for_houdini.Base.{
  ℕ, suc, Bool, List, [], ◌∷◌, ◌++◌, ◌==◌, Option, none, some, if◌then◌else◌, get_elem?, ◌>>=◌,
}
use vray_for_houdini.Qt.Text.{QString, lit, same_text, is_empty}
use vray_for_houdini.Attrs.Sdk.{Sdk}
use vray_for_houdini.Attrs.Attr.{a_text, a_chars, q_values}
use vray_for_houdini.Attrs.Desc.{PluginDesc, add_arg}
use vray_for_houdini.Vop.Sockets.{VopType, color, point, vector, normal, integer, float, text}
use vray_for_houdini.Vop.Osl.Query.{Widget, menu, string_widget}
use vray_for_houdini.Vop.Osl.Node.{ParamInfo, OslNode}
use vray_for_houdini.Vop.Osl.Update.{map_type_to_param}

-- The parameters of the node at the time of the export, the values of the AppSDK, the plugins behind
-- the sockets, and the temporary file: its name if it is opened, and whether all code is written.
pub record Shown (S : Sdk) : Type 0 where
  pub eval_string : QString → QString
  pub eval_float_inst : QString → ℕ → ℕ → S.Float
  pub eval_int_inst : QString → ℕ → ℕ
  pub eval_string_inst : QString → ℕ → QString
  pub int_of_text : QString → Option ℕ
  pub text_value : QString → S.Value
  pub list_value : List S.Float → S.Value
  pub int_value : ℕ → S.Value
  pub float_value : S.Float → S.Value
  pub plugin_value : S.PluginRef → S.Value
  pub connected : QString → S.PluginRef
  pub temp_file : Option QString
  pub is_saved : Bool

pub data PluginResult : Type 0 where
  result_continue result_error : PluginResult

-- `oslParams` and `inputIdx`, and the sockets that `exportConnectedSocket` has been called for.
pub record Written (S : Sdk) : Type 0 where
  pub osl_params : List S.Value
  pub input_idx : ℕ
  pub asked : List QString

abbrev pub add_value : {S : Sdk} → S.Value → Written S → Written S
add_value v w = record w { osl_params = w.osl_params ++ v ∷ [] }

abbrev pub output_attr : Bool → QString
output_attr mtl = if mtl then lit "output_closure" else lit "output_color"

module _ {S : Sdk} (x : Shown S) where
  -- The key of the chosen item of a menu.
  abbrev menu_key : QString → ℕ → ℕ
  menu_key name i = elim (x.int_of_text (x.eval_string_inst name i)) [
    | none ↦ x.eval_int_inst name i
    | some key ↦ key
  ]

  abbrev pub int_param_value : Widget → QString → ℕ → ℕ
  int_param_value menu name i = menu_key name i
  int_param_value w name i = x.eval_int_inst name i

  abbrev pub three_value : QString → ℕ → S.Value
  three_value name i =
      x.list_value
        (x.eval_float_inst name i 0 ∷ x.eval_float_inst name i 1 ∷ x.eval_float_inst name i 2 ∷ [])

  -- The plugin of the next input.
  abbrev pub add_plugin : List QString → Written S → Option (Written S)
  add_plugin inputs w = do
    name ← get_elem? inputs w.input_idx
    some (record {
      osl_params = w.osl_params ++ x.plugin_value (x.connected name) ∷ [];
      input_idx = suc w.input_idx;
      asked = w.asked ++ name ∷ [];
    })

  -- The switch on the type.
  abbrev pub add_kind :
      List QString → VopType → Widget → QString → ℕ → Written S → Option (Written S)
  add_kind inputs color widget name i w = some (add_value (three_value name i) w)
  add_kind inputs vector widget name i w = some (add_value (three_value name i) w)
  add_kind inputs point widget name i w = some (add_value (three_value name i) w)
  add_kind inputs normal widget name i w = some (add_value (three_value name i) w)
  add_kind inputs integer widget name i w =
      some (add_value (x.int_value (int_param_value widget name i)) w)
  add_kind inputs float widget name i w =
      some (add_value (x.float_value (x.eval_float_inst name i 0)) w)
  add_kind inputs text string_widget name i w =
      some (add_value (x.text_value (x.eval_string_inst name i)) w)
  add_kind inputs text widget name i w = add_plugin inputs w
  add_kind inputs t widget name i w = some (add_value S.blank_value w)

  unfoldable pub write_param : List QString → ℕ → ParamInfo S.Float → Written S → Option (Written S)
  write_param inputs i p w =
      let named = add_value (x.text_value p.name) w in
      let type_name = map_type_to_param p in
      if is_empty type_name
      then some named
      else add_kind inputs p.kind p.widget (lit "osl#" ++ type_name) i named

  -- The loop over the parameters, from the one with the index `i` on.
  unfoldable pub write_params :
      List QString → ℕ → List (ParamInfo S.Float) → Written S → Option (Written S)
  unfolding write_param
  write_params inputs i [] w = some w
  write_params inputs i (p ∷ ps) w = do
    next ← write_param inputs i p w
    write_params inputs (suc i) ps next

  -- `shader_file`: `none` where the code cannot be saved.
  unfoldable pub shader_file : PluginDesc S → Option (PluginDesc S)
  unfolding add_arg same_text
  shader_file d =
      let saved : Option (PluginDesc S) = elim x.temp_file [
        | none ↦ none
        | some path ↦
            if x.is_saved then some (add_arg S d (lit "shader_file") (a_text path 0)) else none
      ] in
      if same_text (x.eval_string (lit "osl_source")) (lit "OSL")
      then saved
      else some (add_arg S d (lit "shader_file") (a_chars (x.eval_string (lit "osl_file")) 0))

  -- The description is filled, with the sockets that are exported for it. The first `none` is a read
  -- past the end of the inputs.
  unfoldable pub as_plugin_desc :
      Bool → OslNode S.Float → PluginDesc S → Option (PluginResult × PluginDesc S × List QString)
  unfolding shader_file add_arg write_params
  as_plugin_desc mtl n d =
      let exported : Option (PluginResult × PluginDesc S × List QString) = elim (shader_file d) [
        | none ↦ some (result_error, d, [])
        | some filed ↦ do
          w ←
              write_params n.input_list 1 n.param_list
                (record { osl_params = []; input_idx = 0; asked = [] })
          some (
            result_continue,
            add_arg S (add_arg S filed (output_attr mtl) (a_chars n.output_name 0))
                (lit "input_parameters") (q_values w.osl_params 0),
            w.asked,
          )
      ] in
      if n.code_hash == 0 then some (result_continue, d, []) else exported
