-- ===== src/Attrs/RefList.antt =====
-- `toRefList` of src/export/vfh_plugin_attrs.h: a QVector or std::vector is copied to a PtrArray.
use vray_for_houdini.Base.{
  ℕ, zero, suc, ◌≡◌, refl, ap, ◌∙◌, List, [], ◌∷◌, ◌++◌, arith, length, length-append, append_assoc,
  if◌then◌else◌,
}
use vray_for_houdini.Qt.Text.{is_empty}

module _ {ℓ} {A : Type ℓ} where
  -- `PtrArray(size)`, whose items are not set yet: `blank` stands for what they hold.
  unfoldable pub ptr_array : ℕ → A → List A
  ptr_array zero blank = []
  ptr_array (suc n) blank = blank ∷ ptr_array n blank

  -- `list[i]`, read within the bounds.
  unfoldable pub item : List A → ℕ → A → A
  item [] i blank = blank
  item (x ∷ xs) zero blank = x
  item (x ∷ xs) (suc i) blank = item xs i blank

  -- `list[i] = v`
  unfoldable pub set_item : List A → ℕ → A → List A
  set_item [] i v = []
  set_item (x ∷ xs) zero v = v ∷ xs
  set_item (x ∷ xs) (suc i) v = x ∷ set_item xs i v

  -- The loop, with `rounds` rounds left.
  unfoldable pub copy_from : ℕ → ℕ → List A → List A → A → List A
  copy_from zero i source target blank = target
  copy_from (suc rounds) i source target blank =
      copy_from rounds (suc i) source (set_item target i (item source i blank)) blank

  unfoldable pub to_ref_list : List A → A → List A
  unfolding ptr_array item set_item copy_from
  to_ref_list source blank =
      if is_empty source
      then []
      else copy_from (length source) 0 source (ptr_array (length source) blank) blank

  item_middle :
      (done : List A) (x : A) (rest : List A) (blank : A)
      → item (done ++ x ∷ rest) (length done) blank ≡ x
  unfolding item
  item_middle [] x rest blank = refl
  item_middle (y ∷ done) x rest blank = item_middle done x rest blank

  pub set_item_middle :
      (done : List A) (b x : A) (rest : List A)
      → set_item (done ++ b ∷ rest) (length done) x ≡ done ++ x ∷ rest
  unfolding set_item
  set_item_middle [] b x rest = refl
  set_item_middle (y ∷ done) b x rest = ap (◌∷◌ y) (set_item_middle done b x rest)

  copy_from_step :
      (rounds i : ℕ) (source target : List A) (blank : A)
      → copy_from (suc rounds) i source target blank
        ≡ copy_from rounds (suc i) source (set_item target i (item source i blank)) blank
  unfolding copy_from
  copy_from_step rounds i source target blank = refl

  -- After the items `done` are copied, the loop copies the `rest`.
  copy_from_lem :
      (done rest : List A) (blank : A)
      → copy_from
          (length rest)
          (length done)
          (done ++ rest)
          (done ++ ptr_array (length rest) blank)
          blank
        ≡ done ++ rest
  unfolding ptr_array
  copy_from_lem done [] blank = unfold copy_from in refl
  copy_from_lem done (x ∷ rest) blank =
      let target = ptr_array (length rest) blank in
      let next = copy_from_lem (done ++ x ∷ []) rest blank in
      let e : length (done ++ x ∷ []) ≡ suc (length done) =
        omega (arith, length-append done (x ∷ [])) in
      copy_from_step (length rest) (length done) (done ++ x ∷ rest) (done ++ blank ∷ target) blank
      ∙ rw (item_middle done x rest blank, set_item_middle done blank x target)
          (simp (e, append_assoc) at next)

  -- The array that `toRefList` fills has the items of the source, each at its place, whatever it held before.
  pub to_ref_list_lem : (source : List A) (blank : A) → to_ref_list source blank ≡ source
  unfolding to_ref_list
  to_ref_list_lem [] blank = refl
  to_ref_list_lem (x ∷ rest) blank = copy_from_lem [] (x ∷ rest) blank
