-- ===== src/Vop/Osl/Query.antt =====
-- What OSLQuery gives for a shader, and the metadata of a parameter. `none` is a read past the end
-- of a list.
use vray_for_houdini.Base.{
  true, false, ℕ, ◌+◌, Bool, false, ◌&&◌, List, [], ◌∷◌, map, Option, none, some, leb,
  if◌then◌else◌, get_elem?, ◌>>=◌,
}
use vray_for_houdini.Qt.Text.{QString, lit, same_text, is_empty}
use vray_for_houdini.Prm.Files.{ends_with}

-- `TypeDesc::vecsemantics` and `TypeDesc::basetype`, with the rest of each in one case.
pub data VecSemantics : Type 0 where
  as_color as_point as_vector as_normal no_semantics : VecSemantics

pub data BaseType : Type 0 where
  int_type float_type string_type other_type : BaseType

pub record Meta : Type 0 where
  pub name : QString
  pub sdefault : List QString

-- `OSLQuery::Parameter`. `F` is the type of numbers, to which the code converts
-- the integers of `idefault` too.
pub record Parameter (F : Type 0) : Type 0 where
  pub name : QString
  pub is_output : Bool
  pub is_closure : Bool
  pub valid_default : Bool
  pub vecsemantics : VecSemantics
  pub is_scalar : Bool
  pub basetype : BaseType
  pub fdefault : List F
  pub idefault : List F
  pub sdefault : List QString
  pub metadata : List Meta

pub data Widget : Type 0 where
  unspecified menu checkbox string_widget : Widget

abbrev to_lower : ℕ → ℕ
to_lower c = if leb 65 c && leb c 90 then c + 32 else c

-- `!stricmp(s, t)`
unfoldable pub same_nocase : QString → QString → Bool
unfolding same_text
same_nocase s t = same_text (map to_lower s) (map to_lower t)

unfoldable pub find_meta_param : List Meta → QString → Option Meta
unfolding same_nocase
find_meta_param [] key = none
find_meta_param (m ∷ list) key = if same_nocase key m.name then some m else find_meta_param list key

-- `info.widget`, and `info.stringDefault` if it is set.
abbrev pub Widgets : Type 0
Widgets = Widget × QString

abbrev is_int_scalar : {F : Type 0} → Parameter F → Bool
is_int_scalar p = elim p.basetype [ int_type ↦ p.is_scalar | _ ↦ false ]

-- With the widget `mapper` and the key-value pairs in `options`.
abbrev mapper : {F : Type 0} → Parameter F → Option Widgets
mapper p = elim (find_meta_param p.metadata (lit "options")) [
  | none ↦ some (unspecified, [])
  | some options ↦ do text ← get_elem? options.sdefault 0; some (menu, text)
]

unfoldable pub parse_metadata : {F : Type 0} → Parameter F → Option Widgets
unfolding find_meta_param same_nocase
parse_metadata p = elim (find_meta_param p.metadata (lit "widget")) [
  | none ↦ some (unspecified, [])
  | some item ↦ do
    kind ← get_elem? item.sdefault 0
    if is_int_scalar p && same_nocase kind (lit "mapper")
        then mapper p
        else some (
          if same_nocase kind (lit "checkBox")
              then checkbox
              else if same_nocase kind (lit "string")
              then string_widget
              else unspecified,
          [],
        )
]

-- The parameters of the node that hold its code, and the bytes of the file, `none` if it is not opened.
pub record CodeSource : Type 0 where
  pub osl_source : QString
  pub osl_code : QString
  pub osl_file : QString
  pub file_data : Option QString

-- The code, and whether it needs to be compiled.
unfoldable pub get_osl_code : CodeSource → QString × Bool
unfolding same_text ends_with
get_osl_code x =
    let content = elim x.file_data as (λ o. QString) [ none ↦ [] | some bytes ↦ bytes ] in
    if same_text x.osl_source (lit "OSL")
    then (x.osl_code, true)
    else if is_empty x.osl_file
    then ([], false)
    else (content, ends_with x.osl_file (lit ".osl"))
