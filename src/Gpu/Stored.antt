-- ===== src/Gpu/Stored.antt =====
-- From the check boxes to the device list that the renderer gets.
use vray_for_houdini.Base.{
  ℕ, suc, ◌≡◌, refl, ◌∙◌, sym, Bool, true, false, List, [], ◌∷◌, ◌++◌, map, arith, append-nil,
  append_assoc,
}
use vray_for_houdini.Qt.Text.{
  QString, is_empty, join, split, contains, same_text, same_text_iff, Free, AllFree, split-join,
}
use vray_for_houdini.Gpu.Select.{
  Devices, Variables, semicolon, set_stored_device_list, get_stored_device_list, push_ids,
  available, get_gpu_device_id_list, CheckBox, checked_texts, fill_widget_list, store_variable,
}

-- The positions, from `i`, at which a flag is set.
abbrev pub positions : ℕ → List Bool → List ℕ
positions i [] = []
positions i (true ∷ flags) = i ∷ positions (suc i) flags
positions i (false ∷ flags) = positions (suc i) flags

abbrev pub texts : List CheckBox → List QString
texts = map (λ box. box.text)

abbrev pub flags : List CheckBox → List Bool
flags = map (λ box. box.is_checked)

push_ids_lem :
    (chosen : List QString) (i : ℕ) (names : List QString) (list : List ℕ)
    → push_ids chosen i names list ≡ list ++ positions i (map (contains chosen) names)
unfolding push_ids
push_ids_lem chosen i [] list = sym (append-nil list)
push_ids_lem chosen i (name ∷ names) list =
    let next = push_ids_lem chosen (suc i) names in
    ground (
      arith,
      next list,
      next (list ++ i ∷ []),
      append_assoc list (i ∷ []) (positions (suc i) (map (contains chosen) names)),
    )

-- A name that no device has makes no difference.
contains_other :
    (x : QString) (chosen names : List QString)
    → contains names x ≡ false
    → map (contains (x ∷ chosen)) names ≡ map (contains chosen) names
unfolding contains
contains_other x chosen [] h = refl
contains_other x chosen (name ∷ names) h =
    ground (arith, same_text_iff x name, same_text_iff name x, contains_other x chosen names)

-- No two check boxes have one text, and none of the texts is empty or has a semicolon.
abbrev pub AreNames : List CheckBox → Type 0
AreNames [] = Unit {0}
AreNames (box ∷ boxes) =
    (contains (texts boxes) box.text ≡ false)
    × (is_empty box.text ≡ false)
    × Free semicolon box.text
    × AreNames boxes

contains-checked_texts_absent :
    (x : QString) (boxes : List CheckBox)
    → contains (texts boxes) x ≡ false
    → contains (checked_texts boxes) x ≡ false
unfolding contains checked_texts
contains-checked_texts_absent x [] h = refl
contains-checked_texts_absent x (box ∷ boxes) h =
    ground (arith, contains-checked_texts_absent x boxes)

contains-checked_texts :
    (boxes : List CheckBox)
    → AreNames boxes
    → map (contains (checked_texts boxes)) (texts boxes) ≡ flags boxes
unfolding contains checked_texts
contains-checked_texts [] h = refl
contains-checked_texts (box ∷ boxes) h = ground (
  arith,
  same_text_iff box.text box.text,
  contains_other box.text (checked_texts boxes) (texts boxes) h.0,
  contains-checked_texts_absent box.text boxes h.0,
  contains-checked_texts boxes h.3,
)

checked_texts-AllFree :
    (boxes : List CheckBox) → AreNames boxes → AllFree semicolon (checked_texts boxes)
unfolding checked_texts
checked_texts-AllFree [] h = tt
checked_texts-AllFree (record_box ∷ boxes) h = ground (arith, checked_texts-AllFree boxes h.3)

-- What is read back: the choice, or one empty name for the empty choice.
stored_choice : List QString → List QString
stored_choice [] = [] ∷ []
stored_choice (name ∷ names) = name ∷ names

get_stored_device_list-store :
    (is_cuda : Bool) (chosen : List QString) (v : Variables)
    → AllFree semicolon chosen
    → get_stored_device_list is_cuda (set_stored_device_list is_cuda chosen v) []
      ≡ stored_choice chosen
unfolding get_stored_device_list set_stored_device_list stored_choice join split
get_stored_device_list-store true [] v free = refl
get_stored_device_list-store false [] v free = refl
get_stored_device_list-store true (s ∷ l) v free = split-join semicolon s l free
get_stored_device_list-store false (s ∷ l) v free = split-join semicolon s l free

contains_empty_name :
    (boxes : List CheckBox)
    → AreNames boxes
    → map (contains ([] ∷ [])) (texts boxes) ≡ map (contains []) (texts boxes)
unfolding contains same_text
contains_empty_name [] h = refl
contains_empty_name (box ∷ boxes) h =
    ground (arith, empty_name box.text, contains_empty_name boxes h.3)
  where
    empty_name : (t : QString) → is_empty t ≡ false → same_text [] t ≡ false
    empty_name [] e = e
    empty_name (c ∷ t) e = refl

contains-stored_choice :
    (boxes : List CheckBox) (chosen : List QString)
    → AreNames boxes
    → map (contains (stored_choice chosen)) (texts boxes) ≡ map (contains chosen) (texts boxes)
unfolding stored_choice
contains-stored_choice boxes [] h = contains_empty_name boxes h
contains-stored_choice boxes (name ∷ names) h = refl

-- If the texts of the check boxes are the available devices, different from each other, not empty
-- and without a semicolon, the ids that the renderer gets are the positions of the checked boxes,
-- also if none is checked.
pub get_gpu_device_id_list-store_variable :
    (is_cuda : Bool) (boxes : List CheckBox) (d : Devices) (v : Variables)
    → AreNames boxes
    → available is_cuda d ≡ texts boxes
    → get_gpu_device_id_list is_cuda d (store_variable is_cuda boxes v) []
      ≡ positions 0 (flags boxes)
unfolding get_gpu_device_id_list store_variable
get_gpu_device_id_list-store_variable is_cuda boxes d v names same =
    let chosen = checked_texts boxes in
    let free = checked_texts-AllFree boxes names in
    push_ids_lem (get_stored_device_list is_cuda (set_stored_device_list is_cuda chosen v) []) 0
      (available is_cuda d) []
    ∙ rw (
      same,
      get_stored_device_list-store is_cuda chosen v free,
      contains-stored_choice boxes chosen names,
      contains-checked_texts boxes names,
    )

fill_widget_list_lem :
    (chosen names : List QString)
    → is_empty chosen ≡ false
    → (texts (fill_widget_list chosen names) ≡ names)
      × (flags (fill_widget_list chosen names) ≡ map (contains chosen) names)
unfolding fill_widget_list
fill_widget_list_lem chosen [] h = (refl, refl)
fill_widget_list_lem chosen (name ∷ names) h = (
  ground (arith, fill_widget_list_lem chosen names h),
  ground (arith, fill_widget_list_lem chosen names h),
)

stored_choice_ne : (chosen : List QString) → is_empty (stored_choice chosen) ≡ false
unfolding stored_choice
stored_choice_ne [] = refl
stored_choice_ne (name ∷ names) = refl

-- If the texts of the check boxes are different from each other, not empty and without a semicolon,
-- a list that is filled after the choice is stored has the same texts and the same boxes checked.
fill_widget_list-store_variable :
    (is_cuda : Bool) (boxes : List CheckBox) (v : Variables)
    → AreNames boxes
    → let chosen = get_stored_device_list is_cuda (store_variable is_cuda boxes v) [] in
      let again = fill_widget_list chosen (texts boxes) in
      (texts again ≡ texts boxes) × (flags again ≡ flags boxes)
unfolding store_variable
fill_widget_list-store_variable is_cuda boxes v names =
    let chosen = checked_texts boxes in
    let free = checked_texts-AllFree boxes names in
    let filled =
      fill_widget_list_lem (stored_choice chosen) (texts boxes) (stored_choice_ne chosen) in
    rw (get_stored_device_list-store is_cuda chosen v free) (
      filled.0,
      filled.1 ∙ (contains-stored_choice boxes chosen names ∙ contains-checked_texts boxes names),
    )

abbrev pub twins : QString → List CheckBox
twins name =
    record { text = name; is_checked = true } ∷ record { text = name; is_checked = false } ∷ []

-- Two devices of one name, which has no semicolon, cannot be told apart: where one of the two boxes is checked, the
-- renderer gets both devices.
get_gpu_device_id_list-twins :
    (is_cuda : Bool) (name : QString) (d : Devices) (v : Variables)
    → Free semicolon name
    → available is_cuda d ≡ name ∷ name ∷ []
    → get_gpu_device_id_list is_cuda d (store_variable is_cuda (twins name) v) [] ≡ 0 ∷ 1 ∷ []
unfolding get_gpu_device_id_list store_variable checked_texts contains push_ids stored_choice
get_gpu_device_id_list-twins is_cuda name d v free same =
    rw (same, get_stored_device_list-store is_cuda (name ∷ []) v (free, tt), stored_choice)
      (ground (arith, same_text_iff name name))
