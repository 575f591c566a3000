-- ===== src/Prm/List.antt =====
-- `Parm::PRMList`: a flat list of templates with a terminator, in which a switcher holds its
-- folders with the number of parameters in each. `P` is what a template that is no switcher holds.
-- A switcher's info is reached through `m_switcherStack` alone, so the stack has the infos in place
-- of pointers to them, its top first. `none` stands for a call that the source excludes by an
-- assertion.
use vray_for_houdini.Base.{
  ℕ, zero, suc, ◌+◌, ◌-◌, List, [], ◌∷◌, ◌++◌, Option, none, some, ltb, if◌then◌else◌, length,
  get_elem?,
}
use vray_for_houdini.Qt.Text.{QString, is_empty}
use vray_for_houdini.Attrs.RefList.{set_item}

-- A `PRM_Default` that stands for a folder: its ordinal and its label.
pub record FolderInfo : Type 0 where
  pub ordinal : ℕ
  pub label : QString

pub data Template (P : Type 0) : Type 0 where
  terminator : Template P
  parm : P → Template P
  switcher : QString → QString → List FolderInfo → Template P

pub record SwitcherInfo : Type 0 where
  pub parm_idx : ℕ
  pub folders : List FolderInfo

pub record PrmList (P : Type 0) : Type 0 where
  pub prm_vec : List (Template P)
  pub switcher_stack : List SwitcherInfo

abbrev pub bump_last : ℕ → List FolderInfo → List FolderInfo
bump_last cnt [] = []
bump_last cnt (f ∷ []) = record f { ordinal = f.ordinal + cnt } ∷ []
bump_last cnt (f ∷ g ∷ folders) = f ∷ bump_last cnt (g ∷ folders)

-- `assign`, on a switcher.
abbrev pub assign : {P : Type 0} → List FolderInfo → Template P → Template P
assign folders (switcher token label before) = switcher token label folders
assign folders terminator = terminator
assign folders (parm p) = parm p

module _ {P : Type 0} where
  -- `PRMList()` and `clear`
  unfoldable pub new_list : PrmList P
  new_list = record { prm_vec = terminator ∷ []; switcher_stack = [] }

  unfoldable pub clear : PrmList P → PrmList P
  unfolding new_list
  clear l = new_list

  abbrev pub size : PrmList P → ℕ
  size l = length l.prm_vec - 1

  -- `m_prmVec.back() = p`
  unfoldable pub set_back : Template P → List (Template P) → List (Template P)
  set_back p [] = []
  set_back p (q ∷ []) = p ∷ []
  set_back p (q ∷ r ∷ vec) = q ∷ set_back p (r ∷ vec)

  -- A `cnt` that is not negative, as all callers pass it.
  unfoldable pub inc_current_folder : ℕ → PrmList P → Option (PrmList P)
  inc_current_folder cnt l = elim l.switcher_stack [
    | [] ↦ some l
    | info ∷ rest ↦
        if is_empty info.folders
        then none
        else some (record l {
          switcher_stack = record info { folders = bump_last cnt info.folders } ∷ rest;
        })
  ]

  unfoldable pub add_prm : Template P → PrmList P → Option (PrmList P)
  unfolding set_back inc_current_folder
  add_prm p l =
      inc_current_folder 1 (record l { prm_vec = set_back p l.prm_vec ++ terminator ∷ [] })

  unfoldable pub switcher_begin : QString → QString → PrmList P → Option (PrmList P)
  unfolding add_prm
  switcher_begin token label l = elim (add_prm (switcher token label []) l) [
    | none ↦ none
    | some l' ↦ some (record l' {
      switcher_stack = record { parm_idx = size l; folders = [] } ∷ l'.switcher_stack;
    })
  ]

  -- The template at `i`, or the terminator past the end.
  abbrev pub template_at : List (Template P) → ℕ → Template P
  template_at [] i = terminator
  template_at (p ∷ vec) zero = p
  template_at (p ∷ vec) (suc i) = template_at vec i

  unfoldable pub switcher_end : PrmList P → Option (PrmList P)
  unfolding set_item
  switcher_end l = elim l.switcher_stack [
    | [] ↦ none
    | info ∷ rest ↦
        if is_empty info.folders
        then none
        else some (record {
          prm_vec =
              set_item l.prm_vec info.parm_idx
                (assign info.folders (template_at l.prm_vec info.parm_idx));
          switcher_stack = rest;
        })
  ]

  unfoldable pub add_folder : QString → PrmList P → Option (PrmList P)
  add_folder label l = elim l.switcher_stack [
    | [] ↦ none
    | info ∷ rest ↦ some (record l {
      switcher_stack =
          record info { folders = info.folders ++ record { ordinal = 0; label = label } ∷ [] }
          ∷ rest;
    })
  ]

  -- `getPRMTemplate(i)`
  unfoldable pub get_prm_template : ℕ → PrmList P → Option (Template P)
  get_prm_template i l = if ltb i (size l) then get_elem? l.prm_vec i else none
