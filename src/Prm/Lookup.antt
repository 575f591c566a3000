-- ===== src/Prm/Lookup.antt =====
-- Which .ds files are found.
use vray_for_houdini.Base.{◌≡◌, refl, true, false, List, [], ◌∷◌, ◌++◌, some, foldl, arith}
use vray_for_houdini.Qt.Text.{QString, same_text}
use vray_for_houdini.Prm.Files.{
  Entry, UiDir, Locations, ds_ext, ends_with, has_slash, file_name, visit, walk, no_entry,
  init_files_map, requested_file,
}

walk_lem :
    (current e : Entry) (entries : List Entry) (l : Locations)
    → walk current (entries ++ e ∷ []) l ≡ foldl visit (visit l current) entries
unfolding walk
walk_lem current e [] l = refl
walk_lem current e (next ∷ entries) l = walk_lem next e entries (visit l current)

visit_none : (l : Locations) → visit l no_entry ≡ l
unfolding visit ends_with
visit_none l = refl

-- On an existing folder that is not empty the first use of the locations adds its entries in order,
-- but not the last one.
init_files_map_lem :
    (d : UiDir) (entries : List Entry) (e : Entry) (l : Locations)
    → d.exists ≡ true
    → d.entries ≡ entries ++ e ∷ []
    → l.is_initialized ≡ false
    → init_files_map d l ≡ some (record (foldl visit l entries) { is_initialized = true })
init_files_map_lem d entries e l exists listing new =
    unfold init_files_map in ground (arith, walk_lem no_entry e entries l, visit_none l)

has_slash_extension : (s : QString) → has_slash (s ++ ds_ext) ≡ has_slash s
has_slash_extension [] = refl
has_slash_extension (c ∷ s) = ground (arith, has_slash_extension s)

file_name-extension : (s : QString) → file_name (s ++ ds_ext) ≡ file_name s ++ ds_ext
unfolding file_name
file_name-extension [] = refl
file_name-extension (c ∷ s) = ground (arith, has_slash_extension s, file_name-extension s)

ends_with_extension : (s : QString) → ends_with (s ++ ds_ext) ds_ext ≡ true
unfolding ends_with same_text
ends_with_extension [] = refl
ends_with_extension (c ∷ s) = ground (arith, ends_with_extension s)

-- A file is found by its name with the extension and without it alike, where the name does not end
-- in it.
requested_file-extension :
    (s : QString)
    → ends_with (file_name s) ds_ext ≡ false
    → requested_file (s ++ ds_ext) ≡ requested_file s
unfolding requested_file
requested_file-extension s h =
    ground (arith, file_name-extension s, ends_with_extension (file_name s))
