-- ===== src/Attrs/Edits.antt =====
-- Any sequence of edits of a `PluginDesc`.
use vray_for_houdini.Base.{
  ◌≡◌, refl, ◌∙◌, true, false, List, [], ◌∷◌, Option, none, some, if◌then◌else◌, foldl, ap,
}
use vray_for_houdini.Qt.Text.{QString, same_text}
use vray_for_houdini.Qt.Ordered.{IsOrdered, insert-IsOrdered, remove-IsOrdered}
use vray_for_houdini.Qt.Map.{text_key}
use vray_for_houdini.Attrs.Sdk.{Sdk}
use vray_for_houdini.Attrs.Attr.{PluginAttr, Arg, just_type, plugin_attr}
use vray_for_houdini.Attrs.Value.{ignore}
use vray_for_houdini.Attrs.Desc.{
  PluginDesc, plugin_desc, get, contains, add, add_arg, set_ignore, remove, get-add, get-remove,
  get-add_arg,
}

-- The edits that a `PluginDesc` offers.
pub data Edit (S : Sdk) : Type 0 where
  adding : PluginAttr S → Edit S
  adding_arg : QString → Arg S → Edit S
  ignoring : QString → Edit S
  removing : QString → Edit S

module _ (S : Sdk) where
  unfoldable pub edit : PluginDesc S → Edit S → PluginDesc S
  unfolding add add_arg set_ignore remove
  edit d (adding p) = add S d p
  edit d (adding_arg name arg) = add_arg S d name arg
  edit d (ignoring name) = set_ignore S d name
  edit d (removing name) = remove S d name

  -- What one edit does to what is known of one name.
  abbrev pub overwrite : QString → Option (PluginAttr S) → Edit S → Option (PluginAttr S)
  overwrite name o (adding p) = if same_text p.param_name name then some p else o
  overwrite name o (adding_arg at arg) =
      if same_text at name then some (plugin_attr S at arg) else o
  overwrite name o (ignoring at) =
      if same_text at name then some (plugin_attr S at (just_type ignore)) else o
  overwrite name o (removing at) = if same_text at name then none else o

  get-edit :
      (d : PluginDesc S) (e : Edit S) (name : QString)
      → get S (edit d e) name ≡ overwrite name (get S d name) e
  get-edit d (adding p) name = unfold edit in get-add S d p name
  get-edit d (adding_arg at arg) name = unfold edit in get-add_arg S d at arg name
  get-edit d (ignoring at) name =
      unfold edit in unfold set_ignore in get-add_arg S d at (just_type ignore) name
  get-edit d (removing at) name = unfold edit in get-remove S d at name

  edit_names :
      (d : PluginDesc S) (e : Edit S)
      → ((edit d e).plugin_name ≡ d.plugin_name) × ((edit d e).plugin_id ≡ d.plugin_id)
  unfolding edit add add_arg set_ignore remove
  edit_names d (adding p) = (refl, refl)
  edit_names d (adding_arg at arg) = (refl, refl)
  edit_names d (ignoring at) = (refl, refl)
  edit_names d (removing at) = (refl, refl)

  -- After any sequence of edits a name reads as the last edit of that name left it, whatever was
  -- done to the other names; `contains` tells whether there is an attribute to read; and the name
  -- and the id of the plugin are the original ones.
  pub get-edits :
      (d : PluginDesc S) (edits : List (Edit S)) (name : QString)
      → let d' = foldl edit d edits in
        (get S d' name ≡ foldl (overwrite name) (get S d name) edits)
        × (contains S d' name ≡ (elim (get S d' name) [ none ↦ false | some p ↦ true ]))
        × (d'.plugin_name ≡ d.plugin_name)
        × (d'.plugin_id ≡ d.plugin_id)
  get-edits d [] name = (refl, unfold contains in unfold get in refl, refl, refl)
  get-edits d (e ∷ edits) name =
      let next = get-edits (edit d e) edits name in
      let (names, ids) = edit_names d e in
      (
        next.0 ∙ ap (λ o. foldl (overwrite name) o edits) (get-edit d e name),
        next.1,
        next.2 ∙ names,
        next.3 ∙ ids,
      )

  edit-IsOrdered :
      (d : PluginDesc S) (e : Edit S) → IsOrdered d.plugin_attrs → IsOrdered (edit d e).plugin_attrs
  unfolding edit add add_arg set_ignore remove
  edit-IsOrdered d (adding p) h = insert-IsOrdered p.param_name p d.plugin_attrs h
  edit-IsOrdered d (adding_arg at arg) h =
      let p = plugin_attr S at arg in insert-IsOrdered p.param_name p d.plugin_attrs h
  edit-IsOrdered d (ignoring at) h =
      let p = plugin_attr S at (just_type ignore) in
      insert-IsOrdered p.param_name p d.plugin_attrs h
  edit-IsOrdered d (removing at) h = remove-IsOrdered at d.plugin_attrs h

  edits-IsOrdered :
      (d : PluginDesc S) (edits : List (Edit S))
      → IsOrdered d.plugin_attrs
      → IsOrdered (foldl edit d edits).plugin_attrs
  edits-IsOrdered d [] h = h
  edits-IsOrdered d (e ∷ edits) h = edits-IsOrdered (edit d e) edits (edit-IsOrdered d e h)

  -- However a new description is edited, its attributes have one entry for each name, in the order
  -- of the names, which is the order of their export.
  pub plugin_desc-IsOrdered :
      (name id : QString) (edits : List (Edit S))
      → IsOrdered (foldl edit (plugin_desc S name id) edits).plugin_attrs
  unfolding plugin_desc
  plugin_desc-IsOrdered name id edits = edits-IsOrdered (plugin_desc S name id) edits tt
