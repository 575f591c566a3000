-- ===== src/Prm/Built.antt =====
-- The list that a layout is built into.
use vray_for_houdini.Base.{
  ℕ, zero, suc, ◌-◌, ◌≡◌, refl, sym, ap, ◌∙◌, false, List, [], ◌∷◌, ◌++◌, append_assoc, append-nil,
  none, some, ltb, if◌then◌else◌, length, get_elem?, length-append, arith,
}
use vray_for_houdini.Qt.Text.{is_empty}
use vray_for_houdini.Prm.List.{
  FolderInfo, Template, terminator, parm, switcher, SwitcherInfo, PrmList, new_list,
  get_prm_template,
}
use vray_for_houdini.Prm.Counts.{IsOpen, bump, bump-IsOpen, bump_zero}
use vray_for_houdini.Prm.Layout.{
  Items, nothing, plain, group, Folders, last, folder, count, infos, flat, flat_folders, build,
  build_folders,
}
use vray_for_houdini.Prm.Steps.{
  state, states, add_prm_lem, switcher_begin_lem, switcher_end_lem, add_folder_lem,
}
use vray_for_houdini.Prm.Counts.{one_more, bump_last_new, new_ne}

module _ {P : Type 0} where
  infos_ne :
      (folders : Folders P) (done : List FolderInfo) → is_empty (done ++ infos folders) ≡ false
  infos_ne (last label items) [] = refl
  infos_ne (folder label items folders) [] = refl
  infos_ne folders (f ∷ done) = refl

  mutual
    build_lem :
        (items : Items P) (pre : List (Template P)) (stack : List SwitcherInfo)
        → IsOpen stack
        → build items (state pre stack)
          ≡ some (state (pre ++ flat items) (bump (count items) stack))
    build_lem nothing pre stack h = states (sym (append-nil pre)) (sym (bump_zero stack))
    build_lem (plain p items) pre stack h = rw (add_prm_lem (parm p) pre stack h) (
        build_lem items (pre ++ parm p ∷ []) (bump 1 stack) (bump-IsOpen 1 stack h)
        ∙ states (append_assoc pre (parm p ∷ []) (flat items)) (one_more (count items) stack))
    build_lem (group token label folders items) pre stack h =
        let before = switcher token label [] in
        let after = switcher token label (infos folders) in
        rw
          (
            switcher_begin_lem token label pre stack h,
            build_folders_lem folders (pre ++ before ∷ []) (length pre) [] (bump 1 stack),
            append_assoc pre (before ∷ []) (flat_folders folders),
            switcher_end_lem token label [] (infos folders) pre (flat_folders folders)
                (bump 1 stack) (infos_ne folders []),
          )
          (build_lem items (pre ++ (after ∷ flat_folders folders)) (bump 1 stack)
              (bump-IsOpen 1 stack h)
            ∙ states (append_assoc pre (after ∷ flat_folders folders) (flat items))
                (one_more (count items) stack))

    build_folders_lem :
        (folders : Folders P) (pre : List (Template P)) (idx : ℕ) (done : List FolderInfo)
        (stack : List SwitcherInfo)
        → build_folders folders (state pre (record { parm_idx = idx; folders = done } ∷ stack))
          ≡ some (
              state
                (pre ++ flat_folders folders)
                (record { parm_idx = idx; folders = done ++ infos folders } ∷ stack))
    build_folders_lem (last label items) pre idx done stack =
        let opened = done ++ record { ordinal = 0; label = label } ∷ [] in
        rw (add_folder_lem label pre idx done stack) (
          build_lem items pre (record { parm_idx = idx; folders = opened } ∷ stack)
            (new_ne label done)
          ∙ states refl (
              ap (λ fs. record { parm_idx = idx; folders = fs } ∷ stack)
                (bump_last_new (count items) label done)))
    build_folders_lem (folder label items folders) pre idx done stack =
        let opened = done ++ record { ordinal = 0; label = label } ∷ [] in
        let filled = done ++ record { ordinal = count items; label = label } ∷ [] in
        rw
          (
            add_folder_lem label pre idx done stack,
            build_lem items pre (record { parm_idx = idx; folders = opened } ∷ stack)
                (new_ne label done),
            bump_last_new (count items) label done,
          )
          (build_folders_lem folders (pre ++ flat items) idx filled stack
            ∙ states (append_assoc pre (flat items) (flat_folders folders)) (
                ap (λ fs. record { parm_idx = idx; folders = fs } ∷ stack)
                  (append_assoc done (record { ordinal = count items; label = label } ∷ [])
                    (infos folders))))

  get_elem-append :
      (xs ys : List (Template P)) (i : ℕ)
      → (if ltb i (length xs) then get_elem? (xs ++ ys) i else none) ≡ get_elem? xs i
  get_elem-append [] ys i = ground arith
  get_elem-append (x ∷ xs) ys zero = ground arith
  get_elem-append (x ∷ xs) ys (suc i) = ground (arith, get_elem-append xs ys i)

  -- The calls that build a layout, where every switcher has a folder, meet none of the excluded
  -- cases: they yield the templates of the layout in order, a switcher before the contents of its
  -- folders and with the number of direct children of each folder, followed by the terminator, and
  -- no switcher is left open. An index reads these templates, and nothing at or past the terminator.
  pub build-new_list :
      (items : Items P)
      → let built : PrmList P = record {
        prm_vec = flat items ++ terminator ∷ [];
        switcher_stack = [];
      } in
        (build items new_list ≡ some built)
        × ((i : ℕ) → get_prm_template i built ≡ get_elem? (flat items) i)
  unfolding new_list
  build-new_list items =
      let end : Template P = terminator in
      (
        build_lem items [] [] tt,
        λ i.
            let size : length (flat items ++ end ∷ []) - 1 ≡ length (flat items) =
              omega (arith, length-append (flat items) (end ∷ [])) in
            unfold get_prm_template in rw size (get_elem-append (flat items) (end ∷ []) i),
      )
