-- ===== src/Mesh/Attributes.antt =====
-- The attributes of a geometry detail that the mesh export reads, and `getDataFromAttribute`.
use vray_for_houdini.Base.{
  ℕ, Bool, true, false, List, [], map, Option, none, some, ◌==◌, if◌then◌else◌,
}
use vray_for_houdini.Qt.Text.{QString, lit, same_text}

-- GA_ATTRIB_POINT, GA_ATTRIB_VERTEX, and the other owners.
pub data Owner : Type 0 where
  on_points on_vertices on_other : Owner

-- Vectors, and what is done with them: a vector of three equal components, and a vector over the
-- number of samples in a second.
pub record Vectors : Type 1 where
  pub V : Type 0
  pub of_float : ℕ → V
  pub of_int : ℕ → V
  pub per_second : V → V

-- An attribute: what `getRange` gives for its values as vectors, or as numbers (a `float` is its bit
-- pattern), `none` where it fails.
pub record Attribute (v : Vectors) : Type 0 where
  pub name : QString
  pub owner : Owner
  pub is_valid : Bool
  pub has_tuple : Bool
  pub tuple_size : ℕ
  pub is_float : Bool
  pub is_int : Bool
  pub vectors : Option (List v.V)
  pub numbers : Option (List ℕ)

module _ (v : Vectors) where
  open v use {V, of_float, of_int, per_second}

  abbrev read_or_free : Option (List V) → Bool × List V
  read_or_free none = (false, [])
  read_or_free (some values) = (true, values)

  -- `numericAttrToVectorRefList`
  abbrev spread : (ℕ → V) → Option (List ℕ) → Option (List V)
  spread f none = none
  spread f (some numbers) = some (map f numbers)

  abbrev rescaled : Bool → Option (List V) → Option (List V)
  rescaled false values = values
  rescaled true none = none
  rescaled true (some values) = some (map per_second values)

  -- The result, and the list, which stays as it is if there is no attribute to read.
  unfoldable pub get_data_from_attribute : Option (Attribute v) → List V → Bool × List V
  unfolding same_text
  get_data_from_attribute none data_list = (false, data_list)
  get_data_from_attribute (some a) data_list =
      if a.is_valid
      then if a.has_tuple
        then if a.tuple_size == 3
          then read_or_free (rescaled (same_text a.name (lit "v")) a.vectors)
          else if a.tuple_size == 1
          then if a.is_float
            then read_or_free (spread of_float a.numbers)
            else if a.is_int
            then read_or_free (spread of_int a.numbers)
            else (false, [])
          else (false, [])
        else (false, data_list)
      else (false, data_list)
