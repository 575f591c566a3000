-- ===== src/Tests/Parameters.antt =====
-- A layout with two folders, and a folder with two .ds files.
use vray_for_houdini.Base.{ℕ, ◌≡◌, true, false, [], ◌∷◌, ◌++◌, some, get_elem?}
use vray_for_houdini.Qt.Text.{lit}
use vray_for_houdini.Prm.List.{terminator, PrmList, new_list, get_prm_template}
use vray_for_houdini.Prm.Layout.{Items, nothing, plain, group, last, folder, flat, build}
use vray_for_houdini.Prm.Built.{build-new_list}
use vray_for_houdini.Prm.Files.{Entry, UiDir, Locations}

abbrev layout : Items ℕ
layout = plain 1 (
    group (lit "sw") (lit "Tabs")
      (folder (lit "A") (plain 2 (plain 3 nothing)) (last (lit "B") (plain 4 nothing)))
      (plain 5 nothing))

build-new_list_example :
    let built : PrmList ℕ = record {
      prm_vec = flat layout ++ terminator ∷ [];
      switcher_stack = [];
    } in
    (build layout new_list ≡ some built)
    × ((i : ℕ) → get_prm_template i built ≡ get_elem? (flat layout) i)
build-new_list_example = build-new_list layout

abbrev brdf : Entry
brdf = record { name = lit "BRDF.ds"; path = lit "/ui/BRDF.ds"; dir = lit "/ui" }

abbrev light : Entry
light = record { name = lit "Light.ds"; path = lit "/ui/Light.ds"; dir = lit "/ui" }

abbrev ui_dir : UiDir
ui_dir = record { exists = true; entries = brdf ∷ light ∷ [] }

abbrev unknown : Locations
unknown = record { ds_files = []; include_paths = []; is_initialized = false; not_found = [] }
