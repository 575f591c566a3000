-- ===== src/View/Export.antt =====
-- `VRayExporter::exportView(const ViewParams&)`: the calls that it makes, in their order, and the
-- parameters that it stores.
use vray_for_houdini.Base.{
  ℕ, Bool, true, false, not, ◌&&◌, ◌||◌, List, [], ◌∷◌, ◌++◌, ◌==◌, ltb, if◌then◌else◌,
}
use vray_for_houdini.Qt.Text.{QString}
use vray_for_houdini.Attrs.Sdk.{Sdk}
use vray_for_houdini.Attrs.Desc.{PluginDesc}
use vray_for_houdini.View.Params.{RenderSize, CropRegion, ViewParams}
use vray_for_houdini.View.Changes.{
  mode_number, need_reset, changed_params, changed_phys_cam, changed_size, changed_crop_region,
}
use vray_for_houdini.View.Plugins.{
  ViewContext, is_set, render_view_name, settings_camera_name, settings_camera_dof_name,
  settings_motion_blur_name, stereo_settings_name, camera_physical_name, camera_default_name,
  camera_default, camera_settings, dof_settings, blur_settings, render_view, physical_camera,
}

-- One call on the renderer. A camera is set by the name of its plugin; `warns` is the warning about
-- the resolution. `exports_texture` is a call of `exportNodeFromPathWithDefaultMapping`, which
-- exports the plugins of a texture node.
pub data ViewEvent (S : Sdk) : Type 0 where
  set_auto_commit : Bool → ViewEvent S
  deletes : QString → ViewEvent S
  exports : PluginDesc S → ViewEvent S
  exports_texture : QString → ViewEvent S
  set_camera : QString → ViewEvent S
  commit : ViewEvent S
  set_image_size : ℕ → ℕ → ViewEvent S
  set_render_region : CropRegion → ViewEvent S
  warns : ℕ → ℕ → ViewEvent S

-- The limits of Houdini 16.5 and later.
abbrev pub max_indie : ℕ
max_indie = 4096

module _ {S : Sdk} (c : ViewContext S) where
  -- The size in `fixIndieResolution`, by the aspect of the original one.
  unfoldable pub indie_size : RenderSize → RenderSize
  indie_size s =
      let wide : RenderSize =
        if ltb max_indie s.w
        then record { w = max_indie; h = c.over_aspect max_indie s.w s.h }
        else s in
      if ltb max_indie wide.h
      then record { w = c.times_aspect max_indie s.w s.h; h = max_indie }
      else wide

  unfoldable pub fix_indie_resolution : ViewParams S → ViewParams S × List (ViewEvent S)
  unfolding indie_size
  fix_indie_resolution v =
      let size = indie_size v.render_size in
      if ltb max_indie v.render_size.w || ltb max_indie v.render_size.h
      then (record v { render_size = size }, warns size.w size.h ∷ [])
      else (v, [])

  abbrev pub delete_all : List (ViewEvent S)
  delete_all =
      deletes render_view_name
      ∷ deletes settings_camera_name
      ∷ deletes settings_camera_dof_name
      ∷ deletes settings_motion_blur_name
      ∷ deletes stereo_settings_name
      ∷ deletes camera_physical_name
      ∷ deletes camera_default_name
      ∷ []

  -- `exportPhysicalCamera`: the textures are exported while the description is made.
  unfoldable pub export_physical : ViewParams S → List (ViewEvent S)
  unfolding physical_camera
  export_physical v =
      exports_texture v.camera_physical.distortion_tex
      ∷ exports_texture v.camera_physical.bmpaperture_tex
      ∷ exports (physical_camera c v)
      ∷ []

  -- The plugins of the camera, and the camera.
  unfoldable pub export_camera : ViewParams S → List (ViewEvent S)
  unfolding export_physical blur_settings dof_settings camera_default
  export_camera v =
      if not (mode_number v.use_camera_physical == 0)
      then export_physical v ++ set_camera camera_physical_name ∷ []
      else exports (blur_settings c v)
        ∷ ((if is_set v.render_view.ortho then [] else exports (dof_settings c v) ∷ [])
            ++ exports (camera_default c v) ∷ set_camera camera_default_name ∷ [])

  -- The body under `if (needReExport)`.
  unfoldable pub export_all : Bool → ViewParams S → List (ViewEvent S)
  unfolding export_camera camera_settings render_view
  export_all is_first v =
      (if c.is_interactive && not is_first then delete_all else [])
      ++ export_camera v
      ++ exports (camera_settings c v)
        ∷ ((if is_set v.render_view.stereo_params.is_used && not c.is_gpu
              then exports c.stereo_desc ∷ []
              else [])
            ++ exports (render_view c v) ∷ [])

  -- The body under `else if (isRtSession)`.
  unfoldable pub export_changes : ViewParams S → ViewParams S → List (ViewEvent S)
  unfolding changed_phys_cam changed_params export_physical render_view
  export_changes before v =
      let moved = changed_phys_cam c.equality before v in
      (if moved
        then deletes camera_physical_name
          ∷ deletes render_view_name
          ∷ (export_physical v ++ set_camera camera_physical_name ∷ [])
        else [])
      ++ (if moved || changed_params c.equality before v
          then exports (render_view c v) ∷ []
          else [])

  abbrev pub is_whole : CropRegion → RenderSize → Bool
  is_whole r s = r.x == 0 && r.y == 0 && r.width == s.w && r.height == s.h

  -- The size and the region.
  unfoldable pub export_frame : ViewParams S → ViewParams S → List (ViewEvent S)
  unfolding changed_size changed_crop_region
  export_frame before v =
      (if changed_size before.render_size v.render_size
        then set_image_size v.render_size.w v.render_size.h ∷ []
        else [])
      ++ (if changed_crop_region before.crop_region v.crop_region
            && not (is_whole v.crop_region v.render_size)
          then set_render_region v.crop_region ∷ []
          else [])

  unfoldable pub export_plugins : ViewParams S → ViewParams S → List (ViewEvent S)
  unfolding need_reset export_all export_changes
  export_plugins before v =
      if c.is_animation
        || before.first_export
        || (c.is_interactive && need_reset c.equality before v)
      then export_all before.first_export v
      else if c.is_interactive
      then export_changes before v
      else []

  -- The stored parameters and the calls, from the stored parameters and the new ones.
  unfoldable pub export_view : ViewParams S → ViewParams S → ViewParams S × List (ViewEvent S)
  unfolding fix_indie_resolution export_plugins export_frame
  export_view before new =
      let (v, warnings) =
        if c.is_animation && c.is_indie then fix_indie_resolution new else (new, []) in
      (
        record v { first_export = false },
        warnings
            ++ (if c.is_interactive then set_auto_commit false ∷ [] else [])
            ++ export_plugins before v
            ++ (if c.is_interactive then commit ∷ set_auto_commit true ∷ [] else [])
            ++ export_frame before v,
      )
