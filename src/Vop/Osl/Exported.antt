-- ===== src/Vop/Osl/Exported.antt =====
-- An OSL node is exported with its parameters in order, each with its value.
use vray_for_houdini.Base.{
  ℕ, suc, ◌+◌, ◌≡◌, refl, Bool, true, false, List, [], ◌∷◌, ◌++◌, ◌==◌, some, if◌then◌else◌,
  get_elem?-after, append_assoc, append-nil, length, length-append, All, arith,
}
use vray_for_houdini.Qt.Text.{QString, lit, is_empty}
use vray_for_houdini.Attrs.Sdk.{Sdk}
use vray_for_houdini.Attrs.Attr.{a_chars, q_values}
use vray_for_houdini.Attrs.Desc.{PluginDesc, add_arg}
use vray_for_houdini.Vop.Sockets.{VopType, color, point, vector, normal, integer, float, text}
use vray_for_houdini.Vop.Osl.Query.{Widget, unspecified, menu, checkbox, string_widget}
use vray_for_houdini.Vop.Osl.Node.{ParamInfo, OslNode, is_string_widget}
use vray_for_houdini.Vop.Osl.Update.{type_param, names_input, map_type_to_param}
use vray_for_houdini.Vop.Osl.Kinds.{has_param}
use vray_for_houdini.Vop.Osl.Inputs.{inputs_of, IsTyped, HasInputs}
use vray_for_houdini.Vop.Osl.Export.{
  Shown, result_continue, Written, int_param_value, three_value, add_kind, write_param,
  write_params, add_value, add_plugin, shader_file, output_attr, as_plugin_desc,
}

type_param_lem : (k : VopType) (w : Widget) → has_param k ≡ true → is_empty (type_param k w) ≡ false
type_param_lem integer menu h = refl
type_param_lem integer checkbox h = refl
type_param_lem integer w h = refl
type_param_lem color w h = refl
type_param_lem point w h = refl
type_param_lem vector w h = refl
type_param_lem normal w h = refl
type_param_lem float w h = refl
type_param_lem text w h = refl
type_param_lem k w h = cc

join_if :
    (b : Bool) (own : QString) (done rest : List QString)
    → (done ++ (if b then own ∷ [] else [])) ++ rest ≡ done ++ (if b then own ∷ rest else rest)
join_if true own done rest = simp append_assoc
join_if false own done rest = simp append-nil

append_two :
    {A : Type 0} (a b : A) (front back : List A)
    → ((front ++ a ∷ []) ++ b ∷ []) ++ back ≡ front ++ a ∷ b ∷ back
append_two a b front back = simp append_assoc

length-if_cons :
    (b : Bool) (own : QString) (rest : List QString) (n : ℕ)
    → n + length (if b then own ∷ [] else []) + length rest
      ≡ n + length (if b then own ∷ rest else rest)
length-if_cons true own rest n = omega arith
length-if_cons false own rest n = omega arith

module _ {S : Sdk} (x : Shown S) where
  -- What a parameter with the index `i` is exported as.
  abbrev kind_value : VopType → Widget → QString → QString → ℕ → S.Value
  kind_value integer widget own name i = x.int_value (int_param_value x widget name i)
  kind_value float widget own name i = x.float_value (x.eval_float_inst name i 0)
  kind_value text widget own name i =
      if is_string_widget widget
      then x.text_value (x.eval_string_inst name i)
      else x.plugin_value (x.connected own)
  kind_value t widget own name i = three_value x name i

  abbrev value_of : ℕ → ParamInfo S.Float → S.Value
  value_of i p = kind_value p.kind p.widget p.name (lit "osl#" ++ map_type_to_param p) i

  abbrev pub pairs_from : ℕ → List (ParamInfo S.Float) → List S.Value
  pairs_from i [] = []
  pairs_from i (p ∷ ps) = x.text_value p.name ∷ value_of i p ∷ pairs_from (suc i) ps

  abbrev new_input : VopType → Widget → QString → List QString
  new_input k w own = if names_input k w then own ∷ [] else []

  -- The inputs from a parameter on.
  abbrev from_input : VopType → Widget → QString → List QString → List QString
  from_input k w own rest = if names_input k w then own ∷ rest else rest

  abbrev with_value : S.Value → List QString → Written S → Written S
  with_value v names w = record {
    osl_params = w.osl_params ++ v ∷ [];
    input_idx = w.input_idx + length names;
    asked = w.asked ++ names;
  }

  add_plugin_lem :
      (done rest : List QString) (own : QString) (w : Written S)
      → w.input_idx ≡ length done
      → add_plugin x (done ++ own ∷ rest) w
        ≡ some (with_value (x.plugin_value (x.connected own)) (own ∷ []) w)
  add_plugin_lem done rest own w e =
      let next : w.input_idx + 1 ≡ suc w.input_idx = omega arith in
      rw (get_elem?-after done own rest w.input_idx e, next) refl

  plain_lem : (v : S.Value) (w : Written S) → some (add_value v w) ≡ some (with_value v [] w)
  plain_lem v w =
      let none_more : w.input_idx + 0 ≡ w.input_idx = omega arith in
      rw (none_more, append-nil w.asked) refl

  add_kind_lem :
      (done rest : List QString) (k : VopType) (widget : Widget) (own name : QString) (i : ℕ)
      (w : Written S)
      → has_param k ≡ true
      → w.input_idx ≡ length done
      → add_kind x (done ++ from_input k widget own rest) k widget name i w
        ≡ some (with_value (kind_value k widget own name i) (new_input k widget own) w)
  add_kind_lem done rest integer widget own name i w h e =
      plain_lem (kind_value integer widget own name i) w
  add_kind_lem done rest color widget own name i w h e = plain_lem (three_value x name i) w
  add_kind_lem done rest point widget own name i w h e = plain_lem (three_value x name i) w
  add_kind_lem done rest vector widget own name i w h e = plain_lem (three_value x name i) w
  add_kind_lem done rest normal widget own name i w h e = plain_lem (three_value x name i) w
  add_kind_lem done rest float widget own name i w h e =
      plain_lem (kind_value float widget own name i) w
  add_kind_lem done rest text string_widget own name i w h e =
      plain_lem (x.text_value (x.eval_string_inst name i)) w
  add_kind_lem done rest text unspecified own name i w h e = add_plugin_lem done rest own w e
  add_kind_lem done rest text menu own name i w h e = add_plugin_lem done rest own w e
  add_kind_lem done rest text checkbox own name i w h e = add_plugin_lem done rest own w e
  add_kind_lem done rest k widget own name i w h e = cc

  write_param_lem :
      (done rest : List QString) (p : ParamInfo S.Float) (i : ℕ) (w : Written S)
      → IsTyped p
      → w.input_idx ≡ length done
      → write_param x (done ++ from_input p.kind p.widget p.name rest) i p w
        ≡ some (
            with_value
              (value_of i p)
              (new_input p.kind p.widget p.name)
              (add_value (x.text_value p.name) w))
  unfolding write_param
  write_param_lem done rest p i w h e = rw (type_param_lem p.kind p.widget h) (
      add_kind_lem done rest p.kind p.widget p.name (lit "osl#" ++ map_type_to_param p) i
        (add_value (x.text_value p.name) w) h e)

  write_params_lem :
      (done : List QString) (ps : List (ParamInfo S.Float)) (i : ℕ) (w : Written S)
      → All IsTyped ps
      → w.input_idx ≡ length done
      → write_params x (done ++ inputs_of ps) i ps w
        ≡ some (record {
          osl_params = w.osl_params ++ pairs_from i ps;
          input_idx = w.input_idx + length (inputs_of ps);
          asked = w.asked ++ inputs_of ps;
        })
  unfolding write_params
  write_params_lem done [] i w h e =
      let none_more : w.input_idx + 0 ≡ w.input_idx = omega arith in
      rw (none_more, append-nil w.asked, append-nil w.osl_params) refl
  write_params_lem done (p ∷ ps) i w h e =
      let new = new_input p.kind p.widget p.name in
      let next = with_value (value_of i p) new (add_value (x.text_value p.name) w) in
      let first = write_param_lem done (inputs_of ps) p i w h.0 e in
      let rest =
        write_params_lem (done ++ new) ps (suc i) next h.1
          (omega (arith, length-append done new)) in
      let named = names_input p.kind p.widget in
      let joined = join_if named p.name done (inputs_of ps) in
      let asked = join_if named p.name w.asked (inputs_of ps) in
      let count = length-if_cons named p.name (inputs_of ps) w.input_idx in
      let values =
        append_two (x.text_value p.name) (value_of i p) w.osl_params (pairs_from (suc i) ps) in
      rw first (rw (joined, asked, count, values) at rest)

  -- An OSL node with code, whose inputs are the parameters that name plugins, and whose code can be
  -- saved if it is not in a file, is exported within the bounds of its inputs. The description has the
  -- parameters in order, each as its name and its value, and exactly the node's inputs are exported
  -- for it, in order.
  pub as_plugin_desc_lem :
      (mtl : Bool) (n : OslNode S.Float) (d filed : PluginDesc S)
      → HasInputs n
      → (n.code_hash == 0) ≡ false
      → shader_file x d ≡ some filed
      → as_plugin_desc x mtl n d
        ≡ some (
          result_continue,
          add_arg S
              (add_arg S filed (output_attr mtl) (a_chars n.output_name 0))
              (lit "input_parameters")
              (q_values (pairs_from 1 n.param_list) 0),
          inputs_of n.param_list,
        )
  unfolding as_plugin_desc
  as_plugin_desc_lem mtl n d filed h code saved =
      let start : Written S = record { osl_params = []; input_idx = 0; asked = [] } in
      let written = write_params_lem [] n.param_list 1 start h.1 refl in
      rw (code, saved, h.0, written) refl
