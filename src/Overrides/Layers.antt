-- ===== src/Overrides/Layers.antt =====
-- Materials, attributes, style sheets and texts that are appended one after another.
use vray_for_houdini.Base.{ℕ, List, [], ◌∷◌, Option}
use vray_for_houdini.Qt.Text.{QString}
use vray_for_houdini.Attrs.Sdk.{Sdk}
use vray_for_houdini.Overrides.Items.{
  Handle, Item, override_append, PrimMaterial, append, add_attributes_as_overrides,
}
use vray_for_houdini.Overrides.Styles.{Houdini}
use vray_for_houdini.Overrides.Channels.{GeoOverride, append_material_override}
use vray_for_houdini.Overrides.Kept.{
  Keeps, Keeps-refl, Keeps-trans, append-Keeps, add_attributes_as_overrides-KeepsItems,
}
use vray_for_houdini.Overrides.Loaded.{append_material_override-Keeps}

-- One call with what it appends.
pub data Layer (S : Sdk) : Type 0 where
  other_material : PrimMaterial S → Layer S
  attributes : List (Option (QString × Handle S)) → Layer S
  primitive : Option QString → Option QString → Option QString → Layer S

module _ {S : Sdk} (x : Houdini S) (load : QString → Option (GeoOverride S))
    (set_component : S.Vector → ℕ → S.Real → S.Vector) (past_end : Item S → S.Real → Item S)
    (simplified : QString → QString) where
  abbrev append_layer : Layer S → PrimMaterial S → PrimMaterial S
  append_layer (other_material other) p = append override_append other p
  append_layer (attributes attrs) p = record p {
    overrides = add_attributes_as_overrides simplified attrs p.overrides;
  }
  append_layer (primitive sheet path text) p =
      append_material_override x load set_component past_end sheet path text p

  abbrev pub append_layers : List (Layer S) → PrimMaterial S → PrimMaterial S
  append_layers [] p = p
  append_layers (l ∷ layers) p = append_layers layers (append_layer l p)

  append_layer-Keeps : (l : Layer S) (p : PrimMaterial S) → Keeps p (append_layer l p)
  append_layer-Keeps (other_material other) p = append-Keeps other p
  append_layer-Keeps (attributes attrs) p =
      (λ n h. h, add_attributes_as_overrides-KeepsItems simplified attrs p.overrides)
  append_layer-Keeps (primitive sheet path text) p =
      append_material_override-Keeps x load set_component past_end sheet path text p

  -- Whatever is appended to a material, in any order, other materials, attributes of a primitive, style
  -- sheets and texts of overrides, the material keeps its node and each of its overrides, if it has them.
  pub append_layers-Keeps :
      (layers : List (Layer S)) (p : PrimMaterial S) → Keeps p (append_layers layers p)
  append_layers-Keeps [] p = Keeps-refl p
  append_layers-Keeps (l ∷ layers) p =
      Keeps-trans p (append_layer l p) _ (append_layer-Keeps l p)
        (append_layers-Keeps layers (append_layer l p))
