-- ===== src/Tests/Overrides.antt =====
-- A material with one override, and a text with two more.
use vray_for_houdini.Base.{ℕ, ◌≡◌, refl, [], ◌∷◌, none, some}
use vray_for_houdini.Qt.Text.{lit, less_text}
use vray_for_houdini.Qt.Map
use vray_for_houdini.Qt.Map.{text_key}
use vray_for_houdini.Overrides.Items.{
  item_int, Item, PrimMaterial, new_item, override_append, append_overrides,
}
use vray_for_houdini.Overrides.Styles.{Houdini}
use vray_for_houdini.Overrides.Channels.{ordinal, GeoOverride, append_material_override}
use vray_for_houdini.Overrides.Kept.{Keeps, or_else, find-append_overrides}
use vray_for_houdini.Overrides.Layers.{
  other_material, primitive, append_layers, append_layers-Keeps,
}
use vray_for_houdini.Tests.Sample.{sdk}

abbrev houdini : Houdini sdk
houdini = record {
  find_node = λ path. some 4;
  vector_of_ints = λ ns. (0, 0, 0);
  vector_of_floats = λ ds. (0, 0, 0);
  styles_of = λ sheet. [];
}

abbrev channels : GeoOverride sdk
channels = record {
  keys = lit "a" ∷ lit "b" ∷ [];
  parm_of = λ n key. some (record { token = key; channel = 0; kind = ordinal });
  import_double = λ key. none;
  import_int = λ key. some 9;
  import_text = λ key. none;
}

abbrev number_item : ℕ → Item sdk
number_item n = record (new_item sdk) { item_type = item_int; value_int = n }

abbrev material : PrimMaterial sdk
material = record { mat_node = some 3; overrides = (lit "a", number_item 1) ∷ [] }

abbrev changed : PrimMaterial sdk
changed = record {
  mat_node = some 3;
  overrides = (lit "a", number_item 1) ∷ (lit "b", number_item 9) ∷ [];
}

new_key_only :
    append_material_override houdini
      (λ text. some channels)
      (λ v i c. v)
      (λ i value. i)
      none
      (some (lit "/m"))
      none
      material
    ≡ changed
unfolding append_material_override less_text
new_key_only = refl

append_layers-Keeps_example : Keeps material (
    append_layers houdini
      (λ text. some channels)
      (λ v i c. v)
      (λ i value. i)
      (λ s. s)
      (other_material changed ∷ primitive none (some (lit "/m")) none ∷ [])
      material)
append_layers-Keeps_example =
    append_layers-Keeps houdini (λ text. some channels) (λ v i c. v) (λ i value. i) (λ s. s)
      (other_material changed ∷ primitive none (some (lit "/m")) none ∷ []) material

find-append_overrides_example :
    Map.find (lit "b") (append_overrides override_append changed.overrides material.overrides)
    ≡ or_else (Map.find (lit "b") material.overrides) (Map.find (lit "b") changed.overrides)
find-append_overrides_example = find-append_overrides changed.overrides material.overrides (lit "b")
