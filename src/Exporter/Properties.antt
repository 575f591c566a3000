-- ===== src/Exporter/Properties.antt =====
-- `exportPluginProperties`: every attribute of a description is set on the plugin.
use vray_for_houdini.Base.{Bool, true, false, [], ◌∷◌, Option, none, some, ◌==◌, if◌then◌else◌}
use vray_for_houdini.Qt.Text.{QString}
use vray_for_houdini.Qt.Map.{QMap}
use vray_for_houdini.Attrs.Sdk.{Sdk}
use vray_for_houdini.Attrs.Value.{AttrType, AttrValue}
use vray_for_houdini.Attrs.Attr.{PluginAttr}
use vray_for_houdini.Attrs.Desc.{PluginDesc}
use vray_for_houdini.Exporter.Setting.{Setting, setting, value_list}
use vray_for_houdini.Exporter.State.{
  set_value, setting_parameter, Api, Renderer, call, write, use_animated_values,
}

-- The test for `AttrTypeIgnore`.
abbrev pub is_ignored : AttrType → Bool
is_ignored AttrType.ignore = true
is_ignored type = false

module _ {S : Sdk} (api : Api S) where
  -- `plugin.setValue(name, value)`: the call, and its result.
  abbrev pub call_set_value : S.Plugin → QString → Setting S → Renderer S → Renderer S × Bool
  call_set_value plugin name value r =
      let e = set_value plugin name value r.use_animated in (call api e r, api.accepts e)

  -- A generic list is set with the flag of the attribute.
  unfoldable pub set_setting :
      S.Plugin → QString → AttrValue S → Setting S → Renderer S → Renderer S × Bool
  set_setting plugin name v (value_list l) r =
      let r' = if v.is_animated == 0 then use_animated_values false r else r in
      let (r'', done) = call_set_value plugin name (value_list l) r' in
      (use_animated_values r.use_animated r'', done)
  set_setting plugin name v value r = call_set_value plugin name value r

  -- No branch of the chain is taken where there is nothing to set.
  unfoldable pub set_optional :
      S.Plugin → QString → AttrValue S → Option (Setting S) → Renderer S → Renderer S × Bool
  set_optional plugin name v none r = (r, true)
  set_optional plugin name v (some value) r = set_setting plugin name v value r

  abbrev pub report : QString → QString → Renderer S × Bool → Renderer S
  report id name (r, done) =
      if done then r else if r.last_error then write (setting_parameter id name) r else r

  -- One round of the loop, past the test for ignored attributes.
  unfoldable pub export_value :
      S.Plugin → QString → QString → AttrValue S → Option (Setting S) → Renderer S → Renderer S
  unfolding set_optional
  export_value plugin id name v value r =
      use_animated_values false
        (report id name (set_optional plugin name v value (use_animated_values r.is_animation r)))

  unfoldable pub export_attr : S.Plugin → QString → PluginAttr S → Renderer S → Renderer S
  unfolding export_value
  export_attr plugin id p r =
      if is_ignored p.param_type
      then r
      else export_value plugin id p.param_name p.param_value (setting S p.param_type p.param_value)
          r

  unfoldable pub export_attrs :
      S.Plugin → QString → QMap QString (PluginAttr S) → Renderer S → Renderer S
  export_attrs plugin id [] r = r
  export_attrs plugin id ((_, p) ∷ attrs) r =
      export_attrs plugin id attrs (export_attr plugin id p r)

  unfoldable pub export_plugin_properties : S.Plugin → PluginDesc S → Renderer S → Renderer S
  unfolding export_attrs
  export_plugin_properties plugin d r = export_attrs plugin d.plugin_id d.plugin_attrs r
