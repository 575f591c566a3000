-- ===== src/Vop/Osl/Node.antt =====
-- The parameters of an OSL node, as `updateParamsIfNeeded` reads them from the query.
use vray_for_houdini.Base.{
  ℕ, Bool, true, false, not, ◌&&◌, List, [], ◌∷◌, ◌++◌, Option, some, if◌then◌else◌, get_elem?,
  ◌>>=◌,
}
use vray_for_houdini.Qt.Text.{QString}
use vray_for_houdini.Vop.Sockets.{
  VopType, undef, color, point, vector, normal, integer, float, text,
}
use vray_for_houdini.Vop.Osl.Query.{
  VecSemantics, as_color, as_point, as_vector, as_normal, no_semantics, BaseType, int_type,
  float_type, string_type, other_type, Parameter, Widget, Widgets, string_widget, parse_metadata,
}

-- `numberDefault`
pub record Three (F : Type 0) : Type 0 where
  pub at_0 : F
  pub at_1 : F
  pub at_2 : F

pub record ParamInfo (F : Type 0) : Type 0 where
  pub name : QString
  pub kind : VopType
  pub widget : Widget
  pub valid_default : Bool
  pub number_default : Three F
  pub string_default : QString

-- The members of OSLNodeBase, and the names of output parameters that are warned about.
pub record OslNode (F : Type 0) : Type 0 where
  pub code_hash : ℕ
  pub param_list : List (ParamInfo F)
  pub input_list : List QString
  pub output_name : QString
  pub warned : List QString

abbrev pub vec_type : VecSemantics → VopType
vec_type as_color = color
vec_type as_point = point
vec_type as_vector = vector
vec_type as_normal = normal
vec_type no_semantics = undef

abbrev pub is_undef : VopType → Bool
is_undef undef = true
is_undef t = false

abbrev pub is_string_widget : Widget → Bool
is_string_widget string_widget = true
is_string_widget w = false

module _ {F : Type 0} where
  -- An output parameter: the closure of a material, or a colour.
  unfoldable pub add_output : Bool → Parameter F → OslNode F → OslNode F
  add_output mtl p n =
      let accepted =
        if p.is_closure then mtl else elim p.vecsemantics [ as_color ↦ true | _ ↦ false ] in
      if accepted
      then record n { output_name = p.name }
      else record n { warned = n.warned ++ p.name ∷ [] }

  abbrev pub three_from : List F → Option (Three F)
  three_from list = do
    a ← get_elem? list 0
    b ← get_elem? list 1
    c ← get_elem? list 2
    some (record { at_0 = a; at_1 = b; at_2 = c })

  abbrev one_from : List F → Three F → Option (Three F)
  one_from list old = do a ← get_elem? list 0; some (record old { at_0 = a })

  -- The type by the semantics, and the default of its three numbers.
  unfoldable pub vec_info : Parameter F → ParamInfo F → Option (ParamInfo F)
  vec_info p i =
      let kind = vec_type p.vecsemantics in
      let read : Option (ParamInfo F) = (do
        numbers ← three_from p.fdefault
        some (record i { kind = kind; number_default = numbers })) in
      if p.valid_default && not (is_undef kind) then read else some (record i { kind = kind })

  abbrev pub with_number : VopType → Bool → List F → ParamInfo F → Option (ParamInfo F)
  with_number kind valid list i =
      let read : Option (ParamInfo F) = (do
        numbers ← one_from list i.number_default
        some (record i { kind = kind; number_default = numbers })) in
      if valid then read else some (record i { kind = kind })

  abbrev pub with_text : Bool → List QString → ParamInfo F → Option (ParamInfo F)
  with_text valid list i =
      let read : Option (ParamInfo F) = (do
        value ← get_elem? list 0
        some (record i { kind = text; string_default = value })) in
      if valid then read else some (record i { kind = text })

  -- The type of a scalar.
  abbrev pub scalar_info : BaseType → Parameter F → ParamInfo F → Option (ParamInfo F)
  scalar_info int_type p i = with_number integer p.valid_default p.idefault i
  scalar_info float_type p i = with_number float p.valid_default p.fdefault i
  scalar_info string_type p i = with_text p.valid_default p.sdefault i
  scalar_info other_type p i = some i

  -- A text that is a string scalar, and no string widget, is the name of an input.
  abbrev pub is_input : Parameter F → ParamInfo F → Bool
  is_input p i = elim p.basetype [
    | string_type ↦ p.is_scalar && not (is_string_widget i.widget)
    | _ ↦ false
  ]

  abbrev pub start_info : F → Parameter F → Widgets → ParamInfo F
  start_info zero_number p widgets = record {
    name = p.name;
    kind = undef;
    widget = widgets.0;
    valid_default = p.valid_default;
    number_default = record { at_0 = zero_number; at_1 = zero_number; at_2 = zero_number };
    string_default = widgets.1;
  }

  unfoldable pub finish_info : Parameter F → ParamInfo F → Option (ParamInfo F)
  finish_info p i = if p.is_scalar then scalar_info p.basetype p i else some i

  abbrev pub with_input : Parameter F → ParamInfo F → OslNode F → OslNode F
  with_input p info n = record n {
    input_list = n.input_list ++ (if is_input p info then p.name ∷ [] else []);
    param_list = n.param_list ++ (if is_undef info.kind then [] else info ∷ []);
  }

  unfoldable pub add_input : F → Parameter F → OslNode F → Option (OslNode F)
  unfolding vec_info parse_metadata finish_info
  add_input zero_number p n = do
    widgets ← parse_metadata p
    i ← vec_info p (start_info zero_number p widgets)
    info ← finish_info p i
    some (with_input p info n)

  -- One round of the loop over the query's parameters.
  unfoldable pub add_parameter : F → Bool → Parameter F → OslNode F → Option (OslNode F)
  unfolding parse_metadata add_output add_input
  add_parameter zero_number mtl p n =
      let output : Option (OslNode F) = (do
        widgets ← parse_metadata p
        some (add_output mtl p n)) in
      if p.is_output then output else add_input zero_number p n

  unfoldable pub add_parameters : F → Bool → List (Parameter F) → OslNode F → Option (OslNode F)
  unfolding add_parameter
  add_parameters zero_number mtl [] n = some n
  add_parameters zero_number mtl (p ∷ ps) n = do
    n' ← add_parameter zero_number mtl p n
    add_parameters zero_number mtl ps n'
