-- ===== src/Tests/Views.antt =====
-- A view in an interactive session.
use vray_for_houdini.Base.{◌≡◌, refl, true, false, [], ◌∷◌, ◌==◌, arith}
use vray_for_houdini.View.Params.{
  PhysicalCameraMode, CameraType, FocalUnits, RenderSize, CropRegion, StereoViewParams,
  RenderViewParams, PhysicalCameraParams, SettingsCamera, SettingsCameraDof, SettingsMotionBlur,
  ViewParams,
}
use vray_for_houdini.View.Changes.{
  Equality, need_reset, changed_phys_cam, same_physical, same_camera, same_dof, same_blur,
  view_needs_reset,
}
use vray_for_houdini.View.Plugins.{ViewContext, render_view, stereo_settings_name}
use vray_for_houdini.View.Export.{set_auto_commit, commit, exports, export_view, export_plugins}
use vray_for_houdini.View.Repeat.{IsReflexive, export_view-export_view}
use vray_for_houdini.View.Stale.{export_plugins-ortho}
use vray_for_houdini.View.Scene.{in_effect}
use vray_for_houdini.View.Reset.{export_views, export_plugins-export_views}
use vray_for_houdini.Attrs.Desc.{plugin_desc}
use vray_for_houdini.Qt.Text.{lit}
use vray_for_houdini.Tests.Sample.{sdk, desc}

abbrev equality : Equality sdk
equality = record {
  float_eq = λ a b. a == b;
  transform_eq = λ a b. a.0 == b.0;
  color_r = λ c. c.0;
  color_g = λ c. c.1;
  color_b = λ c. c.2;
}

equality-IsReflexive : IsReflexive equality
equality-IsReflexive = record { float_refl = λ x. ground arith; transform_refl = λ t. ground arith }

abbrev context : ViewContext sdk
context = record {
  equality = equality;
  is_interactive = true;
  is_animation = false;
  is_indie = false;
  is_gpu = false;
  minus_one = 0;
  vertical_offset = λ x w h half. x;
  over_aspect = λ n w h. n;
  times_aspect = λ n w h. n;
  texture = λ path. 4;
  stereo_desc = desc;
}

abbrev image : RenderSize
image = record { w = 640; h = 480 }

abbrev region : CropRegion
region = record { x = 0; y = 0; width = 100; height = 100 }

abbrev stereo : StereoViewParams sdk
stereo = record {
  is_used = 0;
  stereo_eye_distance = 1;
  stereo_interocular_method = 0;
  stereo_specify_focus = 0;
  stereo_focus_distance = 1;
  stereo_focus_method = 0;
  stereo_view = 0;
  adjust_resolution = 0;
}

abbrev looking : RenderViewParams sdk
looking = record {
  fov_rop_override = 0;
  fov = 1;
  tm = (1, (0, 0, 0));
  ortho = 0;
  ortho_width = 1;
  use_clip_start = 0;
  clip_start = 1;
  use_clip_end = 0;
  clip_end = 1;
  stereo_params = stereo;
}

abbrev physical : PhysicalCameraParams sdk
physical = record {
  focal_units = FocalUnits.millimeters;
  kind = CameraType.still;
  film_width = 1;
  focal_length = 1;
  zoom_factor = 1;
  distortion = 1;
  distortion_type = 0;
  f_number = 1;
  lens_shift = 1;
  shutter_speed = 1;
  shutter_angle = 1;
  shutter_offset = 1;
  latency = 1;
  iso = 1;
  specify_focus = 0;
  focus_distance = 1;
  targeted = 0;
  target_distance = 1;
  dof_display_threshold = 1;
  exposure = 0;
  white_balance = (1, 1, 1);
  vignetting = 1;
  blades_enable = 0;
  blades_num = 0;
  blades_rotation = 1;
  center_bias = 1;
  anisotropy = 1;
  use_dof = 0;
  use_moblur = 0;
  subdivs = 0;
  dont_affect_settings = 0;
  lens_file = [];
  specify_fov = 0;
  fov = 1;
  horizontal_shift = 1;
  horizontal_offset = 1;
  vertical_offset = 1;
  distortion_tex = [];
  bmpaperture_enable = 0;
  bmpaperture_resolution = 0;
  bmpaperture_tex = [];
  optical_vignetting = 1;
  bmpaperture_affects_exposure = 0;
  enable_thin_lens_equation = 0;
}

abbrev camera : SettingsCamera sdk
camera = record { kind = 0; height = 1; dist = 1; fov = 1; auto_fit = false; curve = 1 }

abbrev dof : SettingsCameraDof sdk
dof = record {
  is_on = false;
  aperture = 1;
  center_bias = 1;
  focal_dist = 1;
  sides_on = 0;
  sides_num = 0;
  rotation = 1;
  anisotropy = 1;
  subdivs = 0;
}

abbrev blur : SettingsMotionBlur sdk
blur = record {
  is_on = false;
  geom_samples = 0;
  low_samples = 0;
  duration = 1;
  subdivs = 0;
  bias = 1;
  shutter_efficiency = 1;
  interval_center = 1;
  camera_motion_blur = 0;
  sampling_type = 0;
}

abbrev view : ViewParams sdk
view = record {
  render_size = image;
  render_view = looking;
  crop_region = region;
  use_camera_physical = PhysicalCameraMode.mode_none;
  camera_physical = physical;
  settings_camera = camera;
  settings_camera_dof = dof;
  settings_motion_blur = blur;
  first_export = false;
}

export_view-export_view_example :
    let stored = (export_view context (record view { first_export = true }) view).0 in
    export_view context stored view
    ≡ (stored, set_auto_commit false ∷ commit ∷ set_auto_commit true ∷ [])
export_view-export_view_example =
    export_view-export_view context (record view { first_export = true }) view equality-IsReflexive
      refl refl

abbrev flat_view : ViewParams sdk
flat_view = record view { render_view = record looking { ortho = 1 } }

export_plugins-ortho_example :
    export_plugins context view flat_view ≡ exports (render_view context flat_view) ∷ []
unfolding need_reset changed_phys_cam same_physical same_camera same_dof same_blur view_needs_reset
export_plugins-ortho_example =
    export_plugins-ortho context view flat_view refl refl refl refl refl refl

abbrev whole_view : ViewParams sdk
whole_view = record view { crop_region = record region { width = 640; height = 480 } }

abbrev stereo_context : ViewContext sdk
stereo_context = record context {
  stereo_desc = plugin_desc sdk stereo_settings_name (lit "VRayStereoscopicSettings");
}

abbrev new_view : ViewParams sdk
new_view = record view { first_export = true }

abbrev stereo_view : ViewParams sdk
stereo_view = record view {
  render_view = record looking { stereo_params = record stereo { is_used = 1 } };
}

-- A view with stereo settings, then one without.
export_plugins-export_views_example :
    in_effect
      (export_plugins stereo_context
        (export_views stereo_context new_view (stereo_view ∷ [])).0
        view)
      (in_effect (export_views stereo_context new_view (stereo_view ∷ [])).1 [])
    ≡ in_effect (export_plugins stereo_context new_view view) []
unfolding export_views export_view plugin_desc need_reset view_needs_reset
export_plugins-export_views_example =
    export_plugins-export_views stereo_context new_view (stereo_view ∷ []) view refl refl refl refl
