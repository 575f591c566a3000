-- ===== src/Overrides/Items.antt =====
-- Overrides of material parameters, and those that the attributes of a primitive give.
use vray_for_houdini.Base.{
  ℕ, Bool, true, false, not, ◌&&◌, List, [], ◌∷◌, ◌==◌, Option, none, some, if◌then◌else◌,
}
use vray_for_houdini.Qt.Text.{QString}
use vray_for_houdini.Qt.Map
use vray_for_houdini.Qt.Map.{QMap, text_key}
use vray_for_houdini.Attrs.Sdk.{Sdk}

pub data ItemType : Type 0 where
  item_none item_int item_double item_vector item_string : ItemType

-- `MtlOverrideItem`
pub record Item (S : Sdk) : Type 0 where
  pub item_type : ItemType
  pub value_int : ℕ
  pub value_double : S.Real
  pub value_vector : S.Vector
  pub value_string : QString

abbrev pub Items : Sdk → Type 0
Items S = QMap QString (Item S)

pub data AppendMode : Type 0 where
  override_append override_merge : AppendMode

abbrev pub is_merge : AppendMode → Bool
is_merge override_append = false
is_merge override_merge = true

abbrev pub is_none : {A : Type 0} → Option A → Bool
is_none none = true
is_none (some a) = false

-- `PrimMaterial`
pub record PrimMaterial (S : Sdk) : Type 0 where
  pub mat_node : Option ℕ
  pub overrides : Items S

-- A value that an attribute has for a primitive, by the handle that is valid.
pub data Handle (S : Sdk) : Type 0 where
  on_vector : S.Vector → Handle S
  on_text : QString → Handle S
  on_double : S.Real → Handle S
  on_nothing : Handle S

abbrev starts_with_brace : QString → Bool
starts_with_brace [] = false
starts_with_brace (c ∷ s) = c == 123

module _ (S : Sdk) where
  abbrev pub new_item : Item S
  new_item =
      let zero_real = S.widen S.zero_float in
      record {
        item_type = item_none;
        value_int = 0;
        value_double = zero_real;
        value_vector = S.make_vector zero_real zero_real zero_real;
        value_string = [];
      }

module _ {S : Sdk} where
  unfoldable pub put_override : AppendMode → QString → Item S → Items S → Items S
  unfolding Map.find Map.insert
  put_override mode k i os =
      if not (is_merge mode) && not (is_none (Map.find k os)) then os else Map.insert k i os

  unfoldable pub append_overrides : AppendMode → Items S → Items S → Items S
  unfolding put_override
  append_overrides mode [] os = os
  append_overrides mode ((k, i) ∷ items) os = append_overrides mode items (put_override mode k i os)

  unfoldable pub append : AppendMode → PrimMaterial S → PrimMaterial S → PrimMaterial S
  unfolding append_overrides
  append mode other p =
      let node = if is_merge mode && is_none p.mat_node then other.mat_node else p.mat_node in
      record { mat_node = node; overrides = append_overrides mode other.overrides p.overrides }

  -- The override of a value; `simplified` is the method of QString.
  abbrev handle_item : (QString → QString) → Handle S → Option (Item S)
  handle_item simplified (on_vector v) =
      some (record (new_item S) { item_type = item_vector; value_vector = v })
  handle_item simplified (on_text s) =
      let text = simplified s in
      if starts_with_brace text
      then none
      else some (record (new_item S) { item_type = item_string; value_string = text })
  handle_item simplified (on_double d) =
      some (record (new_item S) { item_type = item_double; value_double = d })
  handle_item simplified on_nothing = none

  -- A list of attributes with their names; a missing one is skipped.
  unfoldable pub add_attributes_as_overrides :
      (QString → QString) → List (Option (QString × Handle S)) → Items S → Items S
  unfolding put_override
  add_attributes_as_overrides simplified [] os = os
  add_attributes_as_overrides simplified (none ∷ attrs) os =
      add_attributes_as_overrides simplified attrs os
  add_attributes_as_overrides simplified (some (name, h) ∷ attrs) os =
      let added = elim (handle_item simplified h) as (λ o. Items S) [
        | none ↦ os
        | some i ↦ put_override override_append name i os
      ] in
      add_attributes_as_overrides simplified attrs added
