-- ===== src/Exporter/Plugins.antt =====
-- `exportPlugin` and `removePlugin`.
use vray_for_houdini.Base.{Bool, true, false, Option, none, some, if◌then◌else◌}
use vray_for_houdini.Qt.Text.{QString, is_empty}
use vray_for_houdini.Attrs.Sdk.{Sdk}
use vray_for_houdini.Attrs.Desc.{PluginDesc}
use vray_for_houdini.Exporter.Properties.{export_plugin_properties}
use vray_for_houdini.Exporter.State.{
  RenderMode, GpuSupport, Message, Api, Renderer, call, write, get_or_create, delete_plugin,
  delete_name,
}

-- `RENDER_MODE_PRODUCTION` and `RENDER_MODE_INTERACTIVE`
abbrev pub is_cpu : RenderMode → Bool
is_cpu RenderMode.production = true
is_cpu RenderMode.interactive = true
is_cpu mode = false

module _ {S : Sdk} (api : Api S) where
  abbrev pub warn_support : GpuSupport → QString → Renderer S → Renderer S
  warn_support GpuSupport.full name r = r
  warn_support GpuSupport.partial name r = write (Message.partial_support name) r
  warn_support GpuSupport.unsupported name r = write (Message.no_support name) r

  -- What follows `getOrCreatePlugin`.
  unfoldable pub fill_plugin : Option S.Plugin → PluginDesc S → Renderer S → Renderer S
  unfolding export_plugin_properties
  fill_plugin none d r = if r.last_error then write Message.creating_plugin r else r
  fill_plugin (some plugin) d r =
      export_plugin_properties api plugin d
        (if is_cpu r.mode then r else warn_support (api.gpu_support plugin) d.plugin_name r)

  -- The new state, and the plugin, `none` for an empty one.
  unfoldable pub export_plugin : PluginDesc S → Renderer S → Renderer S × Option S.Plugin
  export_plugin d r = elim r.vray [
    | none ↦ (r, none)
    | some v ↦
        if is_empty d.plugin_id
        then (write (Message.id_not_set d.plugin_name) r, none)
        else let plugin = api.found d.plugin_name d.plugin_id in
          (fill_plugin plugin d (call api (get_or_create d.plugin_name d.plugin_id) r), plugin)
  ]

  unfoldable pub remove_plugin : S.Plugin → Renderer S → Renderer S
  remove_plugin plugin r =
      let r' = call api (delete_plugin plugin) r in
      if r'.last_error then write Message.removing_plugin r' else r'

  unfoldable pub remove_plugin_by_name : QString → Renderer S → Renderer S
  remove_plugin_by_name name r =
      let r' = call api (delete_name name) r in
      if r'.last_error then write (Message.removing_name name) r' else r'
