-- ===== src/Prm/Steps.antt =====
-- What each call does to a list that ends in the terminator.
use vray_for_houdini.Base.{
  ℕ, ◌-◌, ◌≡◌, refl, ap, false, List, [], ◌∷◌, ◌++◌, append_assoc, some, length, length-append,
  arith,
}
use vray_for_houdini.Qt.Text.{QString, is_empty}
use vray_for_houdini.Attrs.RefList.{set_item_middle}
use vray_for_houdini.Prm.List.{
  FolderInfo, Template, terminator, switcher, SwitcherInfo, PrmList, set_back, inc_current_folder,
  add_prm, switcher_begin, switcher_end, add_folder, template_at,
}
use vray_for_houdini.Prm.Counts.{IsOpen, bump}

module _ {P : Type 0} where
  -- A list that ends in the terminator.
  abbrev pub state : List (Template P) → List SwitcherInfo → PrmList P
  state vec stack = record { prm_vec = vec ++ terminator ∷ []; switcher_stack = stack }

  set_back_lem :
      (t : Template P) (pre : List (Template P))
      → set_back t (pre ++ terminator ∷ []) ≡ pre ++ t ∷ []
  unfolding set_back
  set_back_lem t [] = refl
  set_back_lem t (p ∷ []) = refl
  set_back_lem t (p ∷ q ∷ pre) = ap (◌∷◌ p) (set_back_lem t (q ∷ pre))

  template_at_middle :
      (pre : List (Template P)) (t : Template P) (rest : List (Template P))
      → template_at (pre ++ t ∷ rest) (length pre) ≡ t
  template_at_middle [] t rest = refl
  template_at_middle (p ∷ pre) t rest = template_at_middle pre t rest

  pub states :
      {vec vec' : List (Template P)} {stack stack' : List SwitcherInfo}
      → vec ≡ vec'
      → stack ≡ stack'
      → some (state vec stack) ≡ some (state vec' stack')
  states h k = rw (h, k)

  pub add_prm_lem :
      (t : Template P) (pre : List (Template P)) (stack : List SwitcherInfo)
      → IsOpen stack
      → add_prm t (state pre stack) ≡ some (state (pre ++ t ∷ []) (bump 1 stack))
  unfolding add_prm inc_current_folder
  add_prm_lem t pre [] h = rw (set_back_lem t pre) refl
  add_prm_lem t pre (info ∷ rest) h = rw (h, set_back_lem t pre) refl

  pub switcher_begin_lem :
      (token label : QString) (pre : List (Template P)) (stack : List SwitcherInfo)
      → IsOpen stack
      → switcher_begin token label (state pre stack)
        ≡ some (
            state
              (pre ++ switcher token label [] ∷ [])
              (record { parm_idx = length pre; folders = [] } ∷ bump 1 stack))
  unfolding switcher_begin
  switcher_begin_lem token label pre stack h =
      let end : Template P = terminator in
      let size : length (pre ++ end ∷ []) - 1 ≡ length pre =
        omega (arith, length-append pre (terminator ∷ [])) in
      rw (add_prm_lem (switcher token label []) pre stack h, size) refl

  pub switcher_end_lem :
      (token label : QString) (before folders : List FolderInfo) (pre inside : List (Template P))
      (stack : List SwitcherInfo)
      → is_empty folders ≡ false
      → switcher_end (
          state
            (pre ++ (switcher token label before ∷ inside))
            (record { parm_idx = length pre; folders = folders } ∷ stack))
        ≡ some (state (pre ++ (switcher token label folders ∷ inside)) stack)
  unfolding switcher_end
  switcher_end_lem token label before folders pre inside stack h =
      rw
        (
          h,
          append_assoc pre (switcher token label before ∷ inside) (terminator ∷ []),
          template_at_middle pre (switcher token label before) (inside ++ terminator ∷ []),
          set_item_middle pre (switcher token label before) (switcher token label folders)
              (inside ++ terminator ∷ []),
          append_assoc pre (switcher token label folders ∷ inside) (terminator ∷ []),
        )
        refl

  pub add_folder_lem :
      (label : QString) (pre : List (Template P)) (idx : ℕ) (done : List FolderInfo)
      (stack : List SwitcherInfo)
      → add_folder label (state pre (record { parm_idx = idx; folders = done } ∷ stack))
        ≡ some (
            state pre (
              record {
                parm_idx = idx;
                folders = done ++ record { ordinal = 0; label = label } ∷ [];
              }
              ∷ stack))
  unfolding add_folder
  add_folder_lem label pre idx done stack = refl
