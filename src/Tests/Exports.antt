-- ===== src/Tests/Exports.antt =====
-- Exports of the sample description.
use vray_for_houdini.Base.{◌≡◌, refl, true, [], ◌∷◌, ◌++◌, none, some, arith, if◌then◌else◌}
use vray_for_houdini.Qt.Text.{is_empty}
use vray_for_houdini.Exporter.State.{RenderMode, set_render_mode, set_auto_commit, Api}
use vray_for_houdini.Exporter.Properties.{export_plugin_properties}
use vray_for_houdini.Exporter.Calls.{Appends, all_calls, export_plugin_properties_lem}
use vray_for_houdini.Exporter.Plugins.{export_plugin}
use vray_for_houdini.Exporter.PluginCalls.{export_calls, export_plugin_lem}
use vray_for_houdini.Exporter.Mode.{set_renderer_mode}
use vray_for_houdini.Exporter.ModeCalls.{
  AreNumbered, limit_calls, engine_calls, gpu_calls, set_renderer_mode_lem,
}
use vray_for_houdini.Exporter.Renderer.{free_mem, init_renderer}
use vray_for_houdini.Exporter.Session.{free_calls, free_mem-init_renderer}
use vray_for_houdini.Instances.Slots.{IsSound}
use vray_for_houdini.Tests.Sample.{sdk, api, idle, ready, desc, settings, small_pool}

export_plugin_properties_lem_example :
    Appends
      (all_calls api true 5 desc.plugin_id desc.plugin_attrs)
      ready
      (export_plugin_properties api 5 desc ready)
export_plugin_properties_lem_example = export_plugin_properties_lem api 5 desc ready refl

export_plugin_lem_example :
    ((export_plugin api desc ready).0.trace ≡ ready.trace ++ export_calls api ready desc)
    × ((export_plugin api desc ready).1 ≡ (elim ready.vray [
      | none ↦ none
      | some v ↦ if is_empty desc.plugin_id then none else api.found desc.plugin_name desc.plugin_id
    ]))
export_plugin_lem_example = export_plugin_lem api desc ready refl

api-AreNumbered : AreNumbered api
api-AreNumbered = record {
  below = omega arith;
  opencl = omega arith;
  cuda = omega arith;
  above_opencl = omega arith;
  above_cuda = omega arith;
}

set_renderer_mode_lem_example :
    let mode = RenderMode.interactive_cuda in
    (set_renderer_mode api settings mode ready).trace
    ≡ ready.trace
      ++ (set_render_mode mode
          ∷ (limit_calls api settings mode
              ++ (engine_calls api settings ready.use_animated ++ gpu_calls api mode ready)))
set_renderer_mode_lem_example =
    set_renderer_mode_lem api settings RenderMode.interactive_cuda ready api-AreNumbered refl

small_pool-IsSound : IsSound small_pool
small_pool-IsSound = record { once = λ r. ground arith; owned = λ r. ground arith }

free_mem-init_renderer_example :
    let (r', ok) = init_renderer api 1 idle in
    (ok ≡ true)
    × (r'.vray ≡ some 21)
    × (r'.trace ≡ idle.trace ++ set_auto_commit true ∷ [])
    × ((free_mem api r').trace ≡ idle.trace ++ set_auto_commit true ∷ free_calls api)
    × ((free_mem api r').pool ≡ idle.pool)
    × ((free_mem api r').vray ≡ none)
free_mem-init_renderer_example =
    free_mem-init_renderer api 1 idle refl small_pool-IsSound refl (omega arith) refl refl refl refl
      refl

abbrev indie : Api sdk
indie = record api { is_indie = true }
