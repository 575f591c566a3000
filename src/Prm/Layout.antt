-- ===== src/Prm/Layout.antt =====
-- A layout of parameters in nested folders, as the calls of `PRMList` build it.
use vray_for_houdini.Base.{ℕ, suc, List, [], ◌∷◌, ◌++◌, Option, none, some}
use vray_for_houdini.Qt.Text.{QString}
use vray_for_houdini.Prm.List.{
  FolderInfo, Template, parm, switcher, PrmList, add_prm, switcher_begin, switcher_end, add_folder,
}

-- The parameters and switchers of a level, and the folders of a switcher, at least one.
mutual
  pub data Items (P : Type 0) : Type 0 where
    nothing : Items P
    plain : P → Items P → Items P
    group : QString → QString → Folders P → Items P → Items P

  pub data Folders (P : Type 0) : Type 0 where
    last : QString → Items P → Folders P
    folder : QString → Items P → Folders P → Folders P

module _ {P : Type 0} where
  abbrev pub count : Items P → ℕ
  count nothing = 0
  count (plain p items) = suc (count items)
  count (group token label folders items) = suc (count items)

  abbrev pub infos : Folders P → List FolderInfo
  infos (last label items) = record { ordinal = count items; label = label } ∷ []
  infos (folder label items folders) =
      record { ordinal = count items; label = label } ∷ infos folders

  -- The flat list: a switcher stands before everything in its folders.
  abbrev mutual
    pub flat : Items P → List (Template P)
    flat nothing = []
    flat (plain p items) = parm p ∷ flat items
    flat (group token label folders items) =
        switcher token label (infos folders) ∷ (flat_folders folders ++ flat items)

    pub flat_folders : Folders P → List (Template P)
    flat_folders (last label items) = flat items
    flat_folders (folder label items folders) = flat items ++ flat_folders folders

  abbrev pub then_do : Option (PrmList P) → (PrmList P → Option (PrmList P)) → Option (PrmList P)
  then_do none f = none
  then_do (some l) f = f l

  -- The calls that build a layout.
  abbrev mutual
    pub build : Items P → PrmList P → Option (PrmList P)
    build nothing l = some l
    build (plain p items) l = then_do (add_prm (parm p) l) (build items)
    build (group token label folders items) l =
        then_do (switcher_begin token label l)
          (λ l1. then_do (build_folders folders l1) (λ l2. then_do (switcher_end l2) (build items)))

    pub build_folders : Folders P → PrmList P → Option (PrmList P)
    build_folders (last label items) l = then_do (add_folder label l) (build items)
    build_folders (folder label items folders) l =
        then_do (add_folder label l) (λ l1. then_do (build items l1) (build_folders folders))
