-- ===== src/Overrides/Channels.antt =====
-- `appendMaterialOverrides`: a material path with a text of overrides by channels.
use vray_for_houdini.Base.{ℕ, Bool, false, List, [], ◌∷◌, ◌==◌, Option, none, some, if◌then◌else◌}
use vray_for_houdini.Qt.Text.{QString, is_empty}
use vray_for_houdini.Qt.Map
use vray_for_houdini.Qt.Map.{text_key}
use vray_for_houdini.Attrs.Sdk.{Sdk}
use vray_for_houdini.Overrides.Items.{
  item_int, item_double, item_vector, item_string, Item, Items, override_append, is_none,
  PrimMaterial, new_item,
}
use vray_for_houdini.Overrides.Styles.{Houdini, append_style_sheet}

pub data ParmKind : Type 0 where
  rgba_float other_float ordinal text_kind other_kind : ParmKind

-- A parameter by one of its channels, 0 to 3.
pub record Parm : Type 0 where
  pub token : QString
  pub channel : ℕ
  pub kind : ParmKind

-- `SHOP_GeoOverride` with its keys in order, what they import as, and the parameters of a node.
pub record GeoOverride (S : Sdk) : Type 0 where
  pub keys : List QString
  pub parm_of : ℕ → QString → Option Parm
  pub import_double : QString → Option S.Real
  pub import_int : QString → Option ℕ
  pub import_text : QString → Option QString

module _ {S : Sdk} (x : Houdini S) (load : QString → Option (GeoOverride S))
    (set_component : S.Vector → ℕ → S.Real → S.Vector) (past_end : Item S → S.Real → Item S) where
  -- `valueVector` has three components: `past_end` is what the write of a fourth one leaves of the item.
  abbrev set_double : ParmKind → ℕ → Option S.Real → Item S → Item S
  set_double rgba_float channel (some value) i =
      let typed = record i { item_type = item_vector } in
      if channel == 3
      then past_end typed value
      else record typed { value_vector = set_component i.value_vector channel value }
  set_double kind channel (some value) i =
      if channel == 0 then record i { item_type = item_double; value_double = value } else i
  set_double kind channel none i = i

  abbrev set_int : Option ℕ → Item S → Item S
  set_int none i = record i { item_type = item_int }
  set_int (some n) i = record i { item_type = item_int; value_int = n }

  abbrev set_string : Option QString → Item S → Item S
  set_string none i = record i { item_type = item_string }
  set_string (some s) i = record i { item_type = item_string; value_string = s }

  -- What a key changes of the item of its parameter; `none` if the item is not even looked up.
  abbrev pub key_item : GeoOverride S → QString → ParmKind → ℕ → Item S → Option (Item S)
  key_item g key rgba_float channel i = some (set_double rgba_float channel (g.import_double key) i)
  key_item g key other_float channel i =
      some (set_double other_float channel (g.import_double key) i)
  key_item g key ordinal channel i =
      if channel == 0 then some (set_int (g.import_int key) i) else none
  key_item g key text_kind channel i = some (set_string (g.import_text key) i)
  key_item g key other_kind channel i = none

  -- `overrides[token]` is new where it is missing.
  unfoldable pub put_key : GeoOverride S → QString → Parm → Items S → Items S
  unfolding Map.find_or Map.insert
  put_key g key parm os =
      elim (key_item g key parm.kind parm.channel (Map.find_or parm.token (new_item S) os))
        as (λ o. Items S) [ none ↦ os | some i ↦ Map.insert parm.token i os ]

  -- The keys whose parameter had no override before.
  unfoldable pub valid_keys : GeoOverride S → ℕ → Items S → List QString → List QString
  unfolding Map.find
  valid_keys g node os [] = []
  valid_keys g node os (key ∷ keys) =
      let rest = valid_keys g node os keys in
      elim (g.parm_of node key) as (λ o. List QString) [
        | none ↦ rest
        | some parm ↦ if is_none (Map.find parm.token os) then key ∷ rest else rest
      ]

  unfoldable pub put_keys : GeoOverride S → ℕ → List QString → Items S → Items S
  unfolding put_key
  put_keys g node [] os = os
  put_keys g node (key ∷ keys) os =
      let added = elim (g.parm_of node key) as (λ o. Items S) [
        | none ↦ os
        | some parm ↦ put_key g key parm os
      ] in
      put_keys g node keys added

  abbrev pub load_overrides : ℕ → QString → Items S → Items S
  load_overrides node text os = elim (load text) as (λ o. Items S) [
    | none ↦ os
    | some g ↦ put_keys g node (valid_keys g node os g.keys) os
  ]

  unfoldable pub append_material_overrides :
      QString → QString → Bool → PrimMaterial S → PrimMaterial S
  unfolding valid_keys put_keys
  append_material_overrides path text material_only p =
      let node = if is_none p.mat_node then x.find_node path else p.mat_node in
      elim node as (λ o. PrimMaterial S) [
        | none ↦ record p { mat_node = none }
        | some n ↦ record {
          mat_node = some n;
          overrides = if material_only then p.overrides else load_overrides n text p.overrides;
        }
      ]

  -- `appendMaterialOverride` with the values of the attributes: `none` if the handle is not valid.
  unfoldable pub append_material_override :
      Option QString → Option QString → Option QString → PrimMaterial S → PrimMaterial S
  unfolding append_style_sheet append_material_overrides
  append_material_override (some sheet) path text p =
      append_style_sheet x override_append false sheet p
  append_material_override none none text p = p
  append_material_override none (some path) text p =
      let overrides = elim text as (λ o. QString) [ none ↦ [] | some t ↦ t ] in
      if is_empty path then p else append_material_overrides path overrides false p
