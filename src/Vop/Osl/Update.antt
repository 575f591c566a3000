-- ===== src/Vop/Osl/Update.antt =====
-- `updateParamsIfNeeded`: the code is compiled and queried again where it has changed, and the
-- multi-parameter of the node is built anew.
use vray_for_houdini.Base.{
  ℕ, zero, suc, Bool, true, false, not, ◌&&◌, List, [], ◌∷◌, ◌++◌, ◌==◌, Option, none, some,
  if◌then◌else◌, ◌>>=◌,
}
use vray_for_houdini.Qt.Text.{QString, lit, is_empty}
use vray_for_houdini.Vop.Sockets.{VopType, color, point, vector, normal, integer, float, text}
use vray_for_houdini.Vop.Osl.Query.{Parameter, Widget, menu, checkbox, string_widget}
use vray_for_houdini.Vop.Osl.Node.{
  Three, ParamInfo, OslNode, is_undef, is_string_widget, add_parameters,
}

-- `mapTypeToParam`
abbrev pub int_param : Widget → QString
int_param menu = lit "menu_param"
int_param checkbox = lit "bool_param"
int_param w = lit "int_param"

abbrev pub type_param : VopType → Widget → QString
type_param color w = lit "color_param"
type_param vector w = lit "vector_param"
type_param point w = lit "vector_param"
type_param normal w = lit "vector_param"
type_param integer w = int_param w
type_param float w = lit "float_param"
type_param text w = lit "string_param"
type_param t w = []

-- A text that names the plugin of an input, and has no parameter of its own.
abbrev pub names_input : VopType → Widget → Bool
names_input text w = not (is_string_widget w)
names_input t w = false

module _ {F : Type 0} where
  abbrev pub map_type_to_param : ParamInfo F → QString
  map_type_to_param p = type_param p.kind p.widget

-- A change of the node's parameters. The parameter `osl<i><kind>` is given by `i` and its kind.
pub data ParmEvent (F : Type 0) : Type 0 where
  remove_item : ℕ → ParmEvent F
  insert_item : ℕ → ParmEvent F
  set_visible : ℕ → QString → Bool → ParmEvent F
  set_label : ℕ → QString → ParmEvent F
  set_number : ℕ → QString → ℕ → F → ParmEvent F
  set_text : ℕ → QString → QString → ParmEvent F
  add_or_remove_instance : ParmEvent F

-- OSL_PARAM_TYPE_LIST after the label and the separator.
abbrev pub shared_params : List QString
shared_params = lit "label" ∷ lit "separator" ∷ []

abbrev pub osl_params : List QString
osl_params =
    lit "label"
    ∷ lit "separator"
    ∷ lit "color_param"
    ∷ lit "vector_param"
    ∷ lit "float_param"
    ∷ lit "int_param"
    ∷ lit "string_param"
    ∷ lit "bool_param"
    ∷ lit "menu_param"
    ∷ []

-- What an OSL node calls: the hash, the compiler and the query. `F` is the type of numbers.
pub record Shading (F : Type 0) : Type 0 where
  pub hash : QString → ℕ
  pub compile : QString → Option QString
  pub query : QString → Option (List (Parameter F))
  pub zero_number : F
  pub is_material : Bool

module _ {F : Type 0} where
  unfoldable pub show_all : ℕ → Bool → List QString → List (ParmEvent F)
  show_all i shown [] = []
  show_all i shown (kind ∷ kinds) = set_visible i kind shown ∷ show_all i shown kinds

  abbrev three_numbers : ℕ → QString → Three F → List (ParmEvent F)
  three_numbers i kind v =
      set_number i kind 0 v.at_0 ∷ set_number i kind 1 v.at_1 ∷ set_number i kind 2 v.at_2 ∷ []

  abbrev int_default : ℕ → QString → Widget → ParamInfo F → List (ParmEvent F)
  int_default i kind menu p = set_text i (kind ++ lit "_items") p.string_default ∷ []
  int_default i kind w p = set_number i kind 0 p.number_default.at_0 ∷ []

  abbrev text_default : ℕ → QString → Widget → ParamInfo F → List (ParmEvent F)
  text_default i kind string_widget p = set_text i kind p.string_default ∷ []
  text_default i kind w p = []

  -- The switch on the type for a default from the code.
  abbrev set_default : ℕ → QString → VopType → ParamInfo F → List (ParmEvent F)
  set_default i kind color p = three_numbers i kind p.number_default
  set_default i kind vector p = three_numbers i kind p.number_default
  set_default i kind point p = three_numbers i kind p.number_default
  set_default i kind normal p = three_numbers i kind p.number_default
  set_default i kind integer p = int_default i kind p.widget p
  set_default i kind float p = set_number i kind 0 p.number_default.at_0 ∷ []
  set_default i kind text p = text_default i kind p.widget p
  set_default i kind t p = []

  -- What is shown of a parameter that is no input.
  unfoldable pub show_param : ℕ → ParamInfo F → List (ParmEvent F)
  unfolding show_all
  show_param i p =
      let kind = map_type_to_param p in
      set_label i p.name
      ∷ (if is_empty kind
          then []
          else show_all i true shared_params
            ++ set_visible i kind true
              ∷ (if p.valid_default then set_default i kind p.kind p else []))

  -- One round of the loop over the parameters.
  unfoldable pub build_param : ℕ → ParamInfo F → List (ParmEvent F)
  unfolding show_all show_param
  build_param i p =
      insert_item i
      ∷ (show_all i false osl_params
          ++ (if names_input p.kind p.widget then [] else show_param i p))

  unfoldable pub build_params : ℕ → List (ParamInfo F) → List (ParmEvent F)
  unfolding build_param
  build_params i [] = []
  build_params i (p ∷ ps) =
      let skipped = build_params i ps in
      let built = build_param i p ++ build_params (suc i) ps in
      if is_undef p.kind then skipped else built

  -- `removeMultiParmItem` for the `n` items from `i` on.
  unfoldable pub remove_items : ℕ → ℕ → List (ParmEvent F)
  remove_items zero i = []
  remove_items (suc n) i = remove_item i ∷ remove_items n (suc i)

  -- The members before a new query.
  unfoldable pub cleared : OslNode F → OslNode F
  cleared n = record n { code_hash = 0; param_list = []; input_list = []; output_name = [] }

  abbrev pub default_output : Bool → OslNode F → OslNode F
  default_output mtl n =
      if mtl && is_empty n.output_name then record n { output_name = lit "Ci" } else n

  -- The parameters of the code: `none` where it does not compile or cannot be queried.
  unfoldable pub query_code : Shading F → QString → Bool → Option (List (Parameter F))
  query_code x code need_compile =
      let compiled = if need_compile then x.compile code else some code in
      do oso ← compiled; x.query oso

  -- The code, whether it needs to be compiled, and the node. `none` is a read past the end of a list.
  unfoldable pub update_params_if_needed :
      Shading F → QString → Bool → OslNode F → Option (OslNode F × List (ParmEvent F))
  unfolding cleared query_code add_parameters build_params remove_items
  update_params_if_needed x code need_compile n =
      let source_hash = x.hash code in
      let updated : Option (OslNode F × List (ParmEvent F)) =
        elim (query_code x code need_compile) [
          | none ↦ some (cleared n, [])
          | some params ↦ do
            read ← add_parameters x.zero_number x.is_material params (cleared n)
            let node = default_output x.is_material read
            some (
              record node { code_hash = source_hash },
              remove_items 100 0 ++ build_params 1 node.param_list ++ add_or_remove_instance ∷ [],
            )
        ] in
      if is_empty code
      then some (record n { code_hash = 0 }, [])
      else if source_hash == n.code_hash
      then some (n, [])
      else updated
