-- ===== src/Overrides/Loaded.antt =====
-- A path and a text of overrides, or a style sheet, that are appended to a material keep what it has.
use mathlib.Core.Option.{none-ne-some, some-injective}
use vray_for_houdini.Base.{
  ℕ, ◌≡◌, refl, ap, sym, ◌∙◌, Bool, true, false, List, [], ◌∷◌, Option, none, some, if◌then◌else◌,
  All, Bool-cases, inl, inr,
}
use vray_for_houdini.Qt.Text.{QString, same_text, same_text_iff, is_empty}
use vray_for_houdini.Qt.Map
use vray_for_houdini.Qt.Map.{text_key, find-insert}
use vray_for_houdini.Attrs.Sdk.{Sdk}
use vray_for_houdini.Overrides.Items.{Item, Items, is_none, PrimMaterial, new_item}
use vray_for_houdini.Overrides.Styles.{Houdini}
use vray_for_houdini.Overrides.Channels.{
  Parm, GeoOverride, key_item, put_key, valid_keys, put_keys, load_overrides,
  append_material_overrides, append_material_override,
}
use vray_for_houdini.Overrides.Kept.{
  KeepsItems, Keeps, Keeps-refl, Keeps-if, append_style_sheet-Keeps,
}

module _ {S : Sdk} (x : Houdini S) (load : QString → Option (GeoOverride S))
    (set_component : S.Vector → ℕ → S.Real → S.Vector) (past_end : Item S → S.Real → Item S) where
  insert_new :
      (token : QString) (o : Option (Item S)) (os₀ os : Items S)
      → Map.find token os₀ ≡ none
      → KeepsItems os₀ os
      → KeepsItems os₀ (elim o as (λ o. Items S) [ none ↦ os | some i ↦ Map.insert token i os ])
  insert_new token none os₀ os fresh h k v e = h k v e
  insert_new token (some i) os₀ os fresh h k v e = elim (Bool-cases (same_text token k)) [
    | inl same ↦
        let here = ap (λ t. Map.find t os₀) ((same_text_iff token k).0 same) in
        absurd (none-ne-some v (sym fresh ∙ here ∙ e))
    | inr other ↦ rw (find-insert token k i os, other) (h k v e)
  ]

  -- The parameter of a key has no override yet.
  abbrev Fresh : GeoOverride S → ℕ → Items S → QString → Type 0
  Fresh g node os key =
      (parm : Parm) → g.parm_of node key ≡ some parm → Map.find parm.token os ≡ none

  Fresh-if :
      (g : GeoOverride S) (node : ℕ) (os : Items S) (key : QString) (keys : List QString)
      (parm : Parm) (f : Option (Item S))
      → Map.find parm.token os ≡ f
      → g.parm_of node key ≡ some parm
      → All (Fresh g node os) keys
      → All (Fresh g node os) (if is_none f then key ∷ keys else keys)
  Fresh-if g node os key keys parm none e p h =
      (λ q same. ap (λ t. Map.find t.token os) (some-injective q parm (sym same ∙ p)) ∙ e, h)
  Fresh-if g node os key keys parm (some i) e p h = h

  Fresh-cons :
      (g : GeoOverride S) (node : ℕ) (os : Items S) (key : QString) (keys : List QString)
      (o : Option Parm)
      → g.parm_of node key ≡ o
      → All (Fresh g node os) keys
      → All (Fresh g node os) (elim o as (λ o. List QString) [
        | none ↦ keys
        | some parm ↦ if is_none (Map.find parm.token os) then key ∷ keys else keys
      ])
  Fresh-cons g node os key keys none e h = h
  Fresh-cons g node os key keys (some parm) e h =
      Fresh-if g node os key keys parm (Map.find parm.token os) refl e h

  valid_keys-Fresh :
      (g : GeoOverride S) (node : ℕ) (os : Items S) (keys : List QString)
      → All (Fresh g node os) (valid_keys x load set_component past_end g node os keys)
  unfolding valid_keys
  valid_keys-Fresh g node os [] = tt
  valid_keys-Fresh g node os (key ∷ keys) =
      Fresh-cons g node os key _ (g.parm_of node key) refl (valid_keys-Fresh g node os keys)

  put_parm :
      (g : GeoOverride S) (node : ℕ) (key : QString) (o : Option Parm) (os₀ os : Items S)
      → ((parm : Parm) → o ≡ some parm → Map.find parm.token os₀ ≡ none)
      → KeepsItems os₀ os
      → KeepsItems os₀ (elim o as (λ o. Items S) [
        | none ↦ os
        | some parm ↦ put_key x load set_component past_end g key parm os
      ])
  unfolding put_key
  put_parm g node key none os₀ os fresh h = h
  put_parm g node key (some parm) os₀ os fresh h =
      insert_new parm.token
        (key_item x load set_component past_end g key parm.kind parm.channel
          (Map.find_or parm.token (new_item S) os))
        os₀ os (fresh parm refl) h

  put_keys-KeepsItems :
      (g : GeoOverride S) (node : ℕ) (keys : List QString) (os₀ os : Items S)
      → All (Fresh g node os₀) keys
      → KeepsItems os₀ os
      → KeepsItems os₀ (put_keys x load set_component past_end g node keys os)
  unfolding put_keys
  put_keys-KeepsItems g node [] os₀ os fresh h = h
  put_keys-KeepsItems g node (key ∷ keys) os₀ os fresh h =
      put_keys-KeepsItems g node keys os₀ _ fresh.1
        (put_parm g node key (g.parm_of node key) os₀ os fresh.0 h)

  load_overrides-KeepsItems :
      (node : ℕ) (o : Option (GeoOverride S)) (os : Items S)
      → KeepsItems os (elim o as (λ o. Items S) [
        | none ↦ os
        | some g ↦
            put_keys x load set_component past_end g node
              (valid_keys x load set_component past_end g node os g.keys)
              os
      ])
  load_overrides-KeepsItems node none os = λ k v h. h
  load_overrides-KeepsItems node (some g) os =
      put_keys-KeepsItems g node (valid_keys x load set_component past_end g node os g.keys) os os
        (valid_keys-Fresh g node os g.keys) (λ k v h. h)

  KeepsItems-if :
      (b : Bool) (os os' : Items S) → KeepsItems os os' → KeepsItems os (if b then os else os')
  KeepsItems-if true os os' h = λ k v e. e
  KeepsItems-if false os os' h = h

  loaded-Keeps :
      (text : QString) (material_only : Bool) (found assigned : Option ℕ) (os : Items S)
      → ((n : ℕ) → assigned ≡ some n → found ≡ some n)
      → Keeps
          (record { mat_node = assigned; overrides = os })
          (elim found as (λ o. PrimMaterial S) [
            | none ↦ record { mat_node = none; overrides = os }
            | some n ↦ record {
              mat_node = some n;
              overrides =
                  if material_only
                  then os
                  else load_overrides x load set_component past_end n text os;
            }
          ])
  loaded-Keeps text material_only none assigned os f = (f, λ k v h. h)
  loaded-Keeps text material_only (some n) assigned os f =
      (f, KeepsItems-if material_only os _ (load_overrides-KeepsItems n (load text) os))

  append_material_overrides-Keeps :
      (path text : QString) (material_only : Bool) (p : PrimMaterial S)
      → Keeps p (append_material_overrides x load set_component past_end path text material_only p)
  unfolding append_material_overrides
  append_material_overrides-Keeps path text material_only p =
      loaded-Keeps text material_only (if is_none p.mat_node then x.find_node path else p.mat_node)
        p.mat_node p.overrides (λ n h. rw h refl)

  -- What the attributes of a primitive append to a material, a style sheet or a path with a text of
  -- overrides, keeps the node of the material and each of its overrides, if it has them.
  pub append_material_override-Keeps :
      (sheet path text : Option QString) (p : PrimMaterial S)
      → Keeps p (append_material_override x load set_component past_end sheet path text p)
  unfolding append_material_override
  append_material_override-Keeps (some sheet) path text p = append_style_sheet-Keeps x false sheet p
  append_material_override-Keeps none none text p = Keeps-refl p
  append_material_override-Keeps none (some path) text p =
      Keeps-if (is_empty path) p _ _ (Keeps-refl p) (append_material_overrides-Keeps path _ false p)
