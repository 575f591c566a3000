-- ===== src/Overrides/Styles.antt =====
-- `appendOverrideValues`: the overrides of a style sheet, which are read as categories of named values.
use vray_for_houdini.Base.{
  ℕ, Bool, ◌||◌, List, [], ◌∷◌, ◌==◌, Option, none, some, if◌then◌else◌, length,
}
use vray_for_houdini.Qt.Text.{QString, lit, same_text, is_empty}
use vray_for_houdini.Qt.Map
use vray_for_houdini.Qt.Map.{QMap, text_key}
use vray_for_houdini.Attrs.Sdk.{Sdk}
use vray_for_houdini.Overrides.Items.{
  item_int, item_double, item_vector, item_string, Item, Items, AppendMode, is_merge, is_none,
  PrimMaterial, new_item, put_override,
}

-- What an option imports as; texts have at least one item.
pub record StyleValue (S : Sdk) : Type 0 where
  pub ints : Option (List ℕ)
  pub texts : Option (QString × List QString)
  pub floats : Option (List S.Real)

abbrev pub Styles : Sdk → Type 0
Styles S = List (QString × QMap QString (StyleValue S))

-- Nodes by their paths, vectors from lists, and the values of a style sheet.
pub record Houdini (S : Sdk) : Type 0 where
  pub find_node : QString → Option ℕ
  pub vector_of_ints : List ℕ → S.Vector
  pub vector_of_floats : List S.Real → S.Vector
  pub styles_of : QString → Styles S

module _ {S : Sdk} (x : Houdini S) where
  abbrev pub is_vector_size : ℕ → Bool
  is_vector_size n = n == 3 || n == 4

  abbrev int_item : List ℕ → Option (Item S)
  int_item (n ∷ []) = some (record (new_item S) { item_type = item_int; value_int = n })
  int_item ns =
      if is_vector_size (length ns)
      then some
          (record (new_item S) { item_type = item_vector; value_vector = x.vector_of_ints ns })
      else none

  abbrev text_item : QString × List QString → Option (Item S)
  text_item (s, []) = some (record (new_item S) { item_type = item_string; value_string = s })
  text_item (s, t ∷ rest) = none

  abbrev float_item : List S.Real → Option (Item S)
  float_item (d ∷ []) = some (record (new_item S) { item_type = item_double; value_double = d })
  float_item ds =
      if is_vector_size (length ds)
      then some
          (record (new_item S) { item_type = item_vector; value_vector = x.vector_of_floats ds })
      else none

  abbrev float_or_none : Option (List S.Real) → Option (Item S)
  float_or_none none = none
  float_or_none (some ds) = float_item ds

  abbrev text_or_float : Option (QString × List QString) → Option (List S.Real) → Option (Item S)
  text_or_float none floats = float_or_none floats
  text_or_float (some texts) floats = text_item texts

  -- Integers are tried first, then texts, then floats.
  abbrev pub style_item : StyleValue S → Option (Item S)
  style_item v = elim v.ints as (λ o. Option (Item S)) [
    | none ↦ text_or_float v.texts v.floats
    | some ns ↦ int_item ns
  ]

  -- The loop over the parameters of a material.
  unfoldable pub add_parameters : AppendMode → QMap QString (StyleValue S) → Items S → Items S
  unfolding put_override
  add_parameters mode [] os = os
  add_parameters mode ((name, v) ∷ values) os =
      let added = elim (style_item v) as (λ o. Items S) [
        | none ↦ os
        | some i ↦ put_override mode name i os
      ] in
      add_parameters mode values added

  abbrev pub set_named :
      AppendMode → Option (QString × List QString) → PrimMaterial S → PrimMaterial S
  set_named mode none p = p
  set_named mode (some (path, rest)) p =
      if is_none p.mat_node || is_merge mode then record p { mat_node = x.find_node path } else p

  -- The node that the category `material` names.
  unfoldable pub set_material :
      AppendMode → QMap QString (StyleValue S) → PrimMaterial S → PrimMaterial S
  unfolding Map.find
  set_material mode values p = elim (Map.find (lit "name") values) as (λ o. PrimMaterial S) [
    | none ↦ p
    | some v ↦ set_named mode v.texts p
  ]

  unfoldable pub append_override_values :
      AppendMode → Bool → Styles S → PrimMaterial S → PrimMaterial S
  unfolding set_material add_parameters same_text
  append_override_values mode material_only [] p = p
  append_override_values mode material_only ((key, values) ∷ styles) p =
      let named = set_material mode values p in
      let after_named = append_override_values mode material_only styles named in
      let after_parameters =
        append_override_values mode material_only styles
          (record p { overrides = add_parameters mode values p.overrides }) in
      let skipped = append_override_values mode material_only styles p in
      if same_text key (lit "material")
      then (if material_only then named else after_named)
      else if same_text key (lit "materialParameters")
      then after_parameters
      else skipped

  unfoldable pub append_style_sheet : AppendMode → Bool → QString → PrimMaterial S → PrimMaterial S
  unfolding append_override_values
  append_style_sheet mode material_only sheet p =
      if is_empty sheet then p else append_override_values mode material_only (x.styles_of sheet) p
