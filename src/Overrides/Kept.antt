-- ===== src/Overrides/Kept.antt =====
-- What is appended to a material keeps what it has.
use mathlib.Core.Option.{none-ne-some}
use vray_for_houdini.Base.{
  ℕ, ◌≡◌, refl, ◌∙◌, Bool, true, false, List, [], ◌∷◌, Option, none, some, if◌then◌else◌, arith,
}
use vray_for_houdini.Qt.Text.{QString, lit, same_text, same_text_iff, is_empty}
use vray_for_houdini.Qt.Map
use vray_for_houdini.Qt.Map.{QMap, text_key, find-insert}
use vray_for_houdini.Attrs.Sdk.{Sdk}
use vray_for_houdini.Overrides.Items.{
  Item, Items, override_append, PrimMaterial, Handle, put_override, append_overrides, append,
  add_attributes_as_overrides,
}
use vray_for_houdini.Overrides.Styles.{
  StyleValue, Styles, Houdini, style_item, add_parameters, set_named, set_material,
  append_override_values, append_style_sheet,
}

-- The first of two values that is there.
abbrev pub or_else : {A : Type 0} → Option A → Option A → Option A
or_else none o = o
or_else (some a) o = some a

or_else-none : {A : Type 0} (o : Option A) → o ≡ or_else o none
or_else-none none = refl
or_else-none (some a) = refl

or_else-if :
    {A : Type 0} (o : Option A) (b : Bool) (a : A) (rest : Option A)
    → or_else (or_else o (if b then some a else none)) rest ≡ or_else o (if b then some a else rest)
or_else-if none true a rest = refl
or_else-if none false a rest = refl
or_else-if (some v) b a rest = refl

module _ {S : Sdk} where
  abbrev pub KeepsItems : Items S → Items S → Type 0
  KeepsItems os os' = (k : QString) (i : Item S) → Map.find k os ≡ some i → Map.find k os' ≡ some i

  abbrev pub Keeps : PrimMaterial S → PrimMaterial S → Type 0
  Keeps p p' =
      ((n : ℕ) → p.mat_node ≡ some n → p'.mat_node ≡ some n) × KeepsItems p.overrides p'.overrides

  put_override_lem :
      (k j : QString) (i : Item S) (os : Items S)
      → Map.find j (put_override override_append k i os)
        ≡ or_else (Map.find j os) (if same_text k j then some i else none)
  unfolding put_override
  put_override_lem k j i os = ground (arith, find-insert k j i os, same_text_iff k j)

  put_override-KeepsItems :
      (k : QString) (i : Item S) (os : Items S)
      → KeepsItems os (put_override override_append k i os)
  put_override-KeepsItems k i os j v h = rw (put_override_lem k j i os, h) refl

  put_item-KeepsItems :
      (name : QString) (o : Option (Item S)) (os : Items S)
      → KeepsItems os
          (elim o as (λ o. Items S) [ none ↦ os | some i ↦ put_override override_append name i os ])
  put_item-KeepsItems name none os j v h = h
  put_item-KeepsItems name (some i) os j v h = put_override-KeepsItems name i os j v h

  -- With items appended, each parameter has the override that it had and, if it had none, the first one
  -- of the items.
  pub find-append_overrides :
      (items os : Items S) (j : QString)
      → Map.find j (append_overrides override_append items os)
        ≡ or_else (Map.find j os) (Map.find j items)
  unfolding append_overrides Map.find
  find-append_overrides [] os j = or_else-none (Map.find j os)
  find-append_overrides ((k, i) ∷ items) os j =
      find-append_overrides items (put_override override_append k i os) j
      ∙ rw (put_override_lem k j i os)
          (or_else-if (Map.find j os) (same_text k j) i (Map.find j items))

  pub append-Keeps : (other p : PrimMaterial S) → Keeps p (append override_append other p)
  unfolding append
  append-Keeps other p =
      (λ n h. h, λ k i h. rw (find-append_overrides other.overrides p.overrides k, h) refl)

  pub add_attributes_as_overrides-KeepsItems :
      (simplified : QString → QString) (attrs : List (Option (QString × Handle S))) (os : Items S)
      → KeepsItems os (add_attributes_as_overrides simplified attrs os)
  unfolding add_attributes_as_overrides
  add_attributes_as_overrides-KeepsItems simplified [] os k i h = h
  add_attributes_as_overrides-KeepsItems simplified (none ∷ attrs) os k i h =
      add_attributes_as_overrides-KeepsItems simplified attrs os k i h
  add_attributes_as_overrides-KeepsItems simplified (some (name, a) ∷ attrs) os k i h =
      add_attributes_as_overrides-KeepsItems simplified attrs _ k i
        (put_item-KeepsItems name _ os k i h)

  pub Keeps-refl : (p : PrimMaterial S) → Keeps p p
  Keeps-refl p = (λ n h. h, λ k i h. h)

  pub Keeps-trans : (p q r : PrimMaterial S) → Keeps p q → Keeps q r → Keeps p r
  Keeps-trans p q r a b = (λ n h. b.0 n (a.0 n h), λ k i h. b.1 k i (a.1 k i h))

  pub Keeps-if :
      (b : Bool) (p q r : PrimMaterial S) → Keeps p q → Keeps p r → Keeps p (if b then q else r)
  Keeps-if true p q r a c = a
  Keeps-if false p q r a c = c

  module _ (x : Houdini S) where
    set_named-Keeps :
        (assigned : Option ℕ) (os : Items S) (texts : Option (QString × List QString))
        → Keeps
            (record { mat_node = assigned; overrides = os })
            (set_named x override_append texts (record { mat_node = assigned; overrides = os }))
    set_named-Keeps assigned os none = Keeps-refl _
    set_named-Keeps (some n) os (some (path, rest)) = Keeps-refl _
    set_named-Keeps none os (some (path, rest)) = (λ n h. absurd (none-ne-some n h), λ k i h. h)

    named-Keeps :
        (o : Option (StyleValue S)) (p : PrimMaterial S)
        → Keeps p (elim o as (λ o. PrimMaterial S) [
          | none ↦ p
          | some v ↦ set_named x override_append v.texts p
        ])
    named-Keeps none p = Keeps-refl p
    named-Keeps (some v) p = set_named-Keeps p.mat_node p.overrides v.texts

    add_parameters-KeepsItems :
        (values : QMap QString (StyleValue S)) (os : Items S)
        → KeepsItems os (add_parameters x override_append values os)
    unfolding add_parameters
    add_parameters-KeepsItems [] os k i h = h
    add_parameters-KeepsItems ((name, v) ∷ values) os k i h =
        add_parameters-KeepsItems values _ k i (put_item-KeepsItems name (style_item x v) os k i h)

    set_material-Keeps :
        (values : QMap QString (StyleValue S)) (p : PrimMaterial S)
        → Keeps p (set_material x override_append values p)
    unfolding set_material
    set_material-Keeps values p = named-Keeps (Map.find (lit "name") values) p

    append_override_values-Keeps :
        (material_only : Bool) (styles : Styles S) (p : PrimMaterial S)
        → Keeps p (append_override_values x override_append material_only styles p)
    unfolding append_override_values
    append_override_values-Keeps material_only [] p = (λ n h. h, λ k i h. h)
    append_override_values-Keeps material_only ((key, values) ∷ styles) p =
        let all = append_override_values-Keeps material_only styles in
        let named = set_material x override_append values p in
        let set = set_material-Keeps values p in
        let added = record p { overrides = add_parameters x override_append values p.overrides } in
        let more =
          Keeps-trans p added _ (λ n h. h, add_parameters-KeepsItems values p.overrides)
            (all added) in
        Keeps-if (same_text key (lit "material")) p _ _
          (Keeps-if material_only p named _ set (Keeps-trans p named _ set (all named)))
          (Keeps-if (same_text key (lit "materialParameters")) p _ _ more (all p))

    pub append_style_sheet-Keeps :
        (material_only : Bool) (sheet : QString) (p : PrimMaterial S)
        → Keeps p (append_style_sheet x override_append material_only sheet p)
    unfolding append_style_sheet
    append_style_sheet-Keeps material_only sheet p =
        Keeps-if (is_empty sheet) p _ _ (Keeps-refl p)
          (append_override_values-Keeps material_only (x.styles_of sheet) p)
