-- ===== src/View/Reset.antt =====
-- Exports of a view that needs a reset, on what earlier exports have left.
-- Code: src/export/vfh_export_view.cpp.
use vray_for_houdini.Base.{
  ◌≡◌, refl, Bool, true, false, ◌&&◌, ◌||◌, List, [], ◌∷◌, ◌++◌, arith, if◌then◌else◌, sym, ap, ◌∙◌,
}
use vray_for_houdini.Qt.Text.{contains, same_text}
use vray_for_houdini.Attrs.Sdk.{Sdk}
use vray_for_houdini.Attrs.Desc.{add, add_arg, plugin_desc}
use vray_for_houdini.View.Params.{ViewParams}
use vray_for_houdini.View.Changes.{need_reset, changed_phys_cam, changed_params}
use vray_for_houdini.View.Plugins.{
  ViewContext, add_all, render_view_name, settings_camera_name, settings_camera_dof_name,
  settings_motion_blur_name, stereo_settings_name, camera_physical_name, camera_default_name,
  camera_default, camera_settings, dof_settings, blur_settings, render_view, physical_camera,
}
use vray_for_houdini.View.Export.{
  ViewEvent, exports, deletes, set_auto_commit, set_camera, commit, export_physical, export_camera,
  export_all, export_changes, export_frame, export_plugins, export_view, fix_indie_resolution,
}
use vray_for_houdini.View.Scene.{
  in_effect, view_plugins, ExportNamed, deletions, in_effect-deletions, in_effect-AreNamed,
  ExportNamed-append, ExportNamed-if,
}

or_true : (a : Bool) → a || true ≡ true
or_true true = refl
or_true false = refl

module _ {S : Sdk} (c : ViewContext S) where
  -- The plugins of a view keep the names that they are created with.
  view_names :
      (v : ViewParams S)
      → ((physical_camera c v).plugin_name ≡ camera_physical_name)
        × ((camera_default c v).plugin_name ≡ camera_default_name)
        × ((camera_settings c v).plugin_name ≡ settings_camera_name)
        × ((dof_settings c v).plugin_name ≡ settings_camera_dof_name)
        × ((blur_settings c v).plugin_name ≡ settings_motion_blur_name)
  unfolding physical_camera camera_default camera_settings dof_settings blur_settings add_all
      add_arg add plugin_desc
  view_names v = (refl, refl, refl, refl, refl)

  render_view_lem : (v : ViewParams S) → (render_view c v).plugin_name ≡ render_view_name
  unfolding render_view add_all add_arg add plugin_desc
  render_view_lem v = ground arith

  export_all-ExportNamed :
      (is_first : Bool) (v : ViewParams S)
      → c.stereo_desc.plugin_name ≡ stereo_settings_name
      → ExportNamed view_plugins (export_all c is_first v)
  unfolding export_all export_camera export_physical contains same_text
  export_all-ExportNamed is_first v stereo = ground (arith, view_names v, render_view_lem v)

  camera_named : (v : ViewParams S) → contains view_plugins (physical_camera c v).plugin_name ≡ true
  unfolding contains same_text
  camera_named v = simp ((view_names v).0)

  view_named : (v : ViewParams S) → contains view_plugins (render_view c v).plugin_name ≡ true
  unfolding contains same_text
  view_named v = simp (render_view_lem v)

  export_changes-ExportNamed :
      (before v : ViewParams S) → ExportNamed view_plugins (export_changes c before v)
  unfolding export_changes export_physical
  export_changes-ExportNamed before v =
      let moved = changed_phys_cam c.equality before v in
      let turned = changed_params c.equality before v in
      let view : List (ViewEvent S) = exports (render_view c v) ∷ [] in
      let camera : List (ViewEvent S) =
        deletes camera_physical_name
        ∷ deletes render_view_name
        ∷ (export_physical c v ++ set_camera camera_physical_name ∷ []) in
      ExportNamed-append view_plugins (if moved then camera else [])
        (if moved || turned then view else [])
        (ExportNamed-if view_plugins moved camera (camera_named v, tt))
        (ExportNamed-if view_plugins (moved || turned) view (view_named v, tt))

  export_frame-ExportNamed :
      (before v : ViewParams S) → ExportNamed view_plugins (export_frame c before v)
  unfolding export_frame
  export_frame-ExportNamed before v = ground arith

  export_plugins-ExportNamed :
      (before v : ViewParams S)
      → c.stereo_desc.plugin_name ≡ stereo_settings_name
      → ExportNamed view_plugins (export_plugins c before v)
  unfolding export_plugins
  export_plugins-ExportNamed before v stereo = ground (
    arith,
    export_all-ExportNamed before.first_export v stereo,
    export_changes-ExportNamed before v,
  )

  -- The exports of some views, one after the other.
  unfoldable pub export_views :
      ViewParams S → List (ViewParams S) → ViewParams S × List (ViewEvent S)
  unfolding export_view
  export_views stored [] = (stored, [])
  export_views stored (v ∷ views) =
      let (stored, events) = export_view c stored v in
      let (stored, later) = export_views stored views in (stored, events ++ later)

  warning_named :
      (v : ViewParams S)
      → ExportNamed view_plugins
          (if c.is_animation && c.is_indie then fix_indie_resolution c v else (v, [])).1
  unfolding fix_indie_resolution
  warning_named v = ground arith

  export_view-ExportNamed :
      (before v : ViewParams S)
      → c.stereo_desc.plugin_name ≡ stereo_settings_name
      → ExportNamed view_plugins (export_view c before v).1
  unfolding export_view fix_indie_resolution
  export_view-ExportNamed before v stereo =
      let sent : ViewParams S × List (ViewEvent S) =
        if c.is_animation && c.is_indie then fix_indie_resolution c v else (v, []) in
      let off : List (ViewEvent S) = if c.is_interactive then set_auto_commit false ∷ [] else [] in
      let on : List (ViewEvent S) =
        if c.is_interactive then commit ∷ set_auto_commit true ∷ [] else [] in
      let plugins = export_plugins c before sent.0 in
      let frame = export_frame c before sent.0 in
      ExportNamed-append view_plugins (sent.1 ++ off ++ plugins ++ on) frame
        (ExportNamed-append view_plugins (sent.1 ++ off ++ plugins) on
          (ExportNamed-append view_plugins (sent.1 ++ off) plugins
            (ExportNamed-append view_plugins sent.1 off (warning_named v)
              (ExportNamed-if view_plugins c.is_interactive (set_auto_commit false ∷ []) tt))
            (export_plugins-ExportNamed before sent.0 stereo))
          (ExportNamed-if view_plugins c.is_interactive (commit ∷ set_auto_commit true ∷ []) tt))
        (export_frame-ExportNamed before sent.0)

  export_views-ExportNamed :
      (stored : ViewParams S) (views : List (ViewParams S))
      → c.stereo_desc.plugin_name ≡ stereo_settings_name
      → ExportNamed view_plugins (export_views stored views).1
  unfolding export_views
  export_views-ExportNamed stored [] stereo = tt
  export_views-ExportNamed stored (v ∷ views) stereo =
      let step = export_view c stored v in
      ExportNamed-append view_plugins step.1 (export_views step.0 views).1
        (export_view-ExportNamed stored v stereo) (export_views-ExportNamed step.0 views stereo)

  export_all_again :
      (v : ViewParams S)
      → c.is_interactive ≡ true
      → export_all c false v ≡ deletions view_plugins ++ export_all c true v
  unfolding export_all
  export_all_again v rt = simp rt

  -- The export of the plugins where a reset is due, and the one of a first export.
  export_plugins_reset :
      (before v : ViewParams S)
      → c.is_interactive ≡ true
      → before.first_export ≡ false
      → need_reset c.equality before v ≡ true
      → export_plugins c before v ≡ export_all c false v
  unfolding export_plugins
  export_plugins_reset before v rt later due = simp (rt, later, due, or_true)

  export_plugins_first :
      (before v : ViewParams S)
      → export_plugins c (record before { first_export = true }) v ≡ export_all c true v
  unfolding export_plugins
  export_plugins_first before v = simp or_true

  -- In an interactive session, once some views have been exported from an empty scene, an export
  -- that needs a reset leaves exactly the view's plugins, and the exports to them, that a first
  -- export of the view leaves on an empty scene, if the plugin of the stereo settings has its
  -- name. The plugins of the camera's textures are not counted among them: no reset deletes these.
  pub export_plugins-export_views :
      (stored : ViewParams S) (views : List (ViewParams S)) (v : ViewParams S)
      → c.is_interactive ≡ true
      → c.stereo_desc.plugin_name ≡ stereo_settings_name
      → (export_views stored views).0.first_export ≡ false
      → need_reset c.equality (export_views stored views).0 v ≡ true
      → in_effect
          (export_plugins c (export_views stored views).0 v)
          (in_effect (export_views stored views).1 [])
        ≡ in_effect (export_plugins c (record stored { first_export = true }) v) []
  export_plugins-export_views stored views v rt stereo later due =
      let before = (export_views stored views).0 in
      let scene = in_effect (export_views stored views).1 [] in
      let named =
        in_effect-AreNamed view_plugins (export_views stored views).1 []
          (export_views-ExportNamed stored views stereo) tt in
      ap (λ events. in_effect events scene)
        (export_plugins_reset before v rt later due ∙ export_all_again v rt)
      ∙ in_effect-deletions view_plugins (export_all c true v) scene named
      ∙ ap (λ events. in_effect events []) (sym (export_plugins_first stored v))
