-- ===== src/Prm/Files.antt =====
-- `DsFilesLocations`, and the templates that are read from a .ds file. `QDirIterator` stands on no
-- entry before its first `next()`, so the first name is empty. `none` stands for the end of the
-- process, or for a call that the source excludes by an assertion.
use vray_for_houdini.Base.{
  ℕ, Bool, true, false, ◌||◌, List, [], ◌∷◌, ◌++◌, Option, none, some, ◌==◌, if◌then◌else◌,
}
use vray_for_houdini.Qt.Text.{QString, lit, is_empty, same_text, contains}
use vray_for_houdini.Qt.Map
use vray_for_houdini.Qt.Map.{QMap, text_key}
use vray_for_houdini.Prm.List.{Template, terminator, PrmList, inc_current_folder}

pub record Entry : Type 0 where
  pub name : QString
  pub path : QString
  pub dir : QString

-- The folder of VRAY_UI_DS_PATH: whether it exists, and its entries in the iterator's order.
pub record UiDir : Type 0 where
  pub exists : Bool
  pub entries : List Entry

pub record Locations : Type 0 where
  pub ds_files : QMap QString QString
  pub include_paths : List QString
  pub is_initialized : Bool
  -- The requests that are logged as not found.
  pub not_found : List QString

abbrev pub ds_ext : QString
ds_ext = lit ".ds"

unfoldable pub ends_with : QString → QString → Bool
ends_with [] t = is_empty t
ends_with (c ∷ s) t = same_text (c ∷ s) t || ends_with s t

-- `QFileInfo::fileName()`: what follows the last slash.
abbrev pub has_slash : QString → Bool
has_slash [] = false
has_slash (c ∷ s) = (c == 47) || has_slash s

unfoldable pub file_name : QString → QString
file_name [] = []
file_name (c ∷ s) =
    let rest = file_name s in if has_slash s then rest else if c == 47 then s else c ∷ s

-- `dsIncludePaths.insert`
abbrev pub insert_path : QString → List QString → List QString
insert_path p paths = if contains paths p then paths else p ∷ paths

-- What follows `it.next()`, for the entry that was read before it.
unfoldable pub visit : Locations → Entry → Locations
unfolding ends_with contains
visit l e =
    if ends_with e.name ds_ext
    then record l {
      ds_files = Map.insert e.name e.path l.ds_files;
      include_paths = insert_path e.dir l.include_paths;
    }
    else l

-- The loop, with the iterator before the entries `rest`.
unfoldable pub walk : Entry → List Entry → Locations → Locations
walk current [] l = l
walk current (next ∷ rest) l = walk next rest (visit l current)

abbrev pub no_entry : Entry
no_entry = record { name = []; path = []; dir = [] }

unfoldable pub init_files_map : UiDir → Locations → Option Locations
unfolding walk
init_files_map d l =
    if l.is_initialized
    then some l
    else if d.exists
    then some (record (walk no_entry d.entries l) { is_initialized = true })
    else none

-- The name that is looked for.
unfoldable pub requested_file : QString → QString
unfolding file_name ends_with
requested_file s = if ends_with (file_name s) ds_ext then file_name s else file_name s ++ ds_ext

-- `getFilePath` on an initialised map.
unfoldable pub find_path : QString → Locations → Locations × QString
unfolding requested_file
find_path s l = elim (Map.find (requested_file s) l.ds_files) [
  | none ↦ (record l { not_found = l.not_found ++ s ∷ [] }, [])
  | some path ↦ (l, path)
]

unfoldable pub get_file_path : UiDir → QString → Locations → Option (Locations × QString)
unfolding init_files_map find_path
get_file_path d s l = elim (init_files_map d l) [ none ↦ none | some l' ↦ some (find_path s l') ]

-- What Houdini reads from a .ds file with include paths, and how many templates of a list are
-- counted: a switcher as one.
pub record Reader (P : Type 0) : Type 0 where
  pub read : QString → List QString → List (Template P)
  pub count_templates : List (Template P) → ℕ

module _ {P : Type 0} (reader : Reader P) where
  abbrev pub drop_back : List (Template P) → List (Template P)
  drop_back [] = []
  drop_back (p ∷ []) = []
  drop_back (p ∷ q ∷ vec) = p ∷ drop_back (q ∷ vec)

  -- The templates take the terminator's place, and a new one follows them.
  unfoldable pub append_templates : List (Template P) → PrmList P → Option (PrmList P)
  unfolding inc_current_folder
  append_templates templates list =
      if is_empty templates
      then some list
      else inc_current_folder (reader.count_templates templates)
          (record list { prm_vec = drop_back list.prm_vec ++ templates ++ terminator ∷ [] })

  -- `addFromFile`
  unfoldable pub add_from_file :
      UiDir → QString → Locations → PrmList P → Option (Locations × Option (PrmList P))
  unfolding get_file_path append_templates
  add_from_file d s l list = elim (get_file_path d s l) [
    | none ↦ none
    | some found ↦ some (found.0, append_templates (reader.read found.1 found.0.include_paths) list)
  ]

  -- `addPrmTemplateForPlugin`: the locations, the list and the result.
  unfoldable pub add_for_plugin :
      UiDir → QString → Locations → PrmList P → Option (Locations × Option (PrmList P) × Bool)
  unfolding get_file_path add_from_file
  add_for_plugin d id l list =
      if is_empty id then some (l, some list, false) else elim (get_file_path d id l) [
        | none ↦ none
        | some found ↦
            if is_empty found.1
            then some (found.0, some list, false)
            else elim (add_from_file d found.1 found.0 list) [
              | none ↦ none
              | some filled ↦ some (filled.0, filled.1, true)
            ]
      ]
