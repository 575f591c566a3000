-- ===== src/Attrs/Desc.antt =====
-- `PluginDesc`: the attributes of one plugin, kept in a QMap by name.
use vray_for_houdini.Base.{
  ◌≡◌, refl, ap, ◌∙◌, Bool, true, false, [], Option, none, some, if◌then◌else◌,
}
use vray_for_houdini.Qt.Text.{QString, same_text}
use vray_for_houdini.Qt.Map
use vray_for_houdini.Qt.Map.{QMap, text_key, find-insert, find-remove}
use vray_for_houdini.Attrs.Sdk.{Sdk}
use vray_for_houdini.Attrs.Value.{ignore}
use vray_for_houdini.Attrs.Attr.{PluginAttr, Arg, just_type, plugin_attr}

pub record PluginDesc (S : Sdk) : Type 0 where
  pub plugin_name : QString
  pub plugin_id : QString
  pub plugin_attrs : QMap QString (PluginAttr S)

module _ (S : Sdk) where
  unfoldable pub plugin_desc : QString → QString → PluginDesc S
  plugin_desc name id = record { plugin_name = name; plugin_id = id; plugin_attrs = [] }

  -- Both `get`: the const one and the other.
  unfoldable pub get : PluginDesc S → QString → Option (PluginAttr S)
  get d name = Map.find name d.plugin_attrs

  -- `find(name) != end()`
  unfoldable pub contains : PluginDesc S → QString → Bool
  contains d name = elim (Map.find name d.plugin_attrs) [ none ↦ false | some p ↦ true ]

  unfoldable pub remove : PluginDesc S → QString → PluginDesc S
  remove d name = record d { plugin_attrs = Map.remove name d.plugin_attrs }

  unfoldable pub add : PluginDesc S → PluginAttr S → PluginDesc S
  add d p = record d { plugin_attrs = Map.insert p.param_name p d.plugin_attrs }

  -- The overloads of `add` that take a name and a value.
  unfoldable pub add_arg : PluginDesc S → QString → Arg S → PluginDesc S
  unfolding add
  add_arg d name arg = add d (plugin_attr S name arg)

  -- `setIngore`
  unfoldable pub set_ignore : PluginDesc S → QString → PluginDesc S
  unfolding add
  set_ignore d name = add d (plugin_attr S name (just_type ignore))

  param_name-plugin_attr :
      (name : QString) (arg : Arg S) → (plugin_attr S name arg).param_name ≡ name
  unfolding plugin_attr
  param_name-plugin_attr name Arg.nothing = refl
  param_name-plugin_attr name _ = refl

  -- After `add` the attribute is read under its name, and every other name reads as before.
  pub get-add :
      (d : PluginDesc S) (p : PluginAttr S) (name : QString)
      → get (add d p) name ≡ (if same_text p.param_name name then some p else get d name)
  unfolding get add
  get-add d p name = find-insert p.param_name name p d.plugin_attrs

  pub get-add_arg :
      (d : PluginDesc S) (at : QString) (arg : Arg S) (name : QString)
      → get (add_arg d at arg) name
        ≡ (if same_text at name then some (plugin_attr S at arg) else get d name)
  unfolding add_arg
  get-add_arg d at arg name =
      get-add d (plugin_attr S at arg) name
      ∙ ap (λ n. if same_text n name then some (plugin_attr S at arg) else get d name)
          (param_name-plugin_attr at arg)

  pub get-remove :
      (d : PluginDesc S) (gone name : QString)
      → get (remove d gone) name ≡ (if same_text gone name then none else get d name)
  unfolding get remove
  get-remove d gone name = find-remove gone name d.plugin_attrs
