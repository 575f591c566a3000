-- ===== src/View/Plugins.antt =====
-- The plugins of a view: what each `export...` function of the file adds to its description.
use vray_for_houdini.Base.{
  ℕ, Bool, false, not, ◌||◌, ◌&&◌, List, [], ◌∷◌, ◌++◌, ◌==◌, if◌then◌else◌,
}
use vray_for_houdini.Qt.Text.{QString, lit}
use vray_for_houdini.Attrs.Sdk.{Sdk}
use vray_for_houdini.Attrs.Attr.{Arg, a_chars, a_transform, a_plugin, rgb, an_int, a_bool, a_float}
use vray_for_houdini.Attrs.Desc.{PluginDesc, plugin_desc, add_arg}
use vray_for_houdini.View.Params.{ViewParams}
use vray_for_houdini.View.Changes.{Equality, kind_number}

-- The session, the arithmetic on `float`, and the exports of other files: the plugin of a texture
-- and the description that is filled from the render node's stereo parameters.
pub record ViewContext (S : Sdk) : Type 0 where
  pub equality : Equality S
  pub is_interactive : Bool
  pub is_animation : Bool
  pub is_indie : Bool
  pub is_gpu : Bool
  pub minus_one : S.Float
  -- The vertical offset over the aspect of a width and a height, halved for stereo.
  pub vertical_offset : S.Float → ℕ → ℕ → Bool → S.Float
  -- A number over, or times, the aspect of a width and a height.
  pub over_aspect : ℕ → ℕ → ℕ → ℕ
  pub times_aspect : ℕ → ℕ → ℕ → ℕ
  pub texture : QString → S.Plugin
  pub stereo_desc : PluginDesc S

-- An `int` as a condition.
abbrev pub is_set : ℕ → Bool
is_set n = not (n == 0)

abbrev pub render_view_name : QString
render_view_name = lit "vfhRenderView"

abbrev pub settings_camera_name : QString
settings_camera_name = lit "vfhSettingsCamera"

abbrev pub settings_camera_dof_name : QString
settings_camera_dof_name = lit "vfhSettingsCameraDof"

abbrev pub settings_motion_blur_name : QString
settings_motion_blur_name = lit "vfhSettingsMotionBlur"

abbrev pub stereo_settings_name : QString
stereo_settings_name = lit "vfhStereoSettings"

abbrev pub camera_physical_name : QString
camera_physical_name = lit "vfhCameraPhysical"

abbrev pub camera_default_name : QString
camera_default_name = lit "vfhCameraDefault"

module _ {S : Sdk} (c : ViewContext S) where
  unfoldable pub add_all : List (QString × Arg S) → PluginDesc S → PluginDesc S
  unfolding add_arg
  add_all [] d = d
  add_all ((name, arg) ∷ args) d = add_all args (add_arg S d name arg)

  abbrev pub describe : QString → QString → List (QString × Arg S) → PluginDesc S
  describe name id args = add_all args (plugin_desc S name id)

  unfoldable pub camera_default : ViewParams S → PluginDesc S
  unfolding add_all plugin_desc
  camera_default v =
      describe camera_default_name (lit "CameraDefault")
        ((lit "orthographic", an_int v.render_view.ortho 0) ∷ [])

  unfoldable pub camera_settings : ViewParams S → PluginDesc S
  unfolding add_all plugin_desc
  camera_settings v = describe settings_camera_name (lit "SettingsCamera") (
      (lit "type", an_int v.settings_camera.kind 0)
      ∷ (lit "height", a_float v.settings_camera.height 0)
      ∷ (lit "dist", a_float v.settings_camera.dist 0)
      ∷ (lit "fov", a_float c.minus_one 0)
      ∷ (lit "auto_fit", a_bool v.settings_camera.auto_fit 0)
      ∷ (lit "curve", a_float v.settings_camera.curve 0)
      ∷ [])

  unfoldable pub dof_settings : ViewParams S → PluginDesc S
  unfolding add_all plugin_desc
  dof_settings v = describe settings_camera_dof_name (lit "SettingsCameraDof") (
      (lit "on", a_bool v.settings_camera_dof.is_on 0)
      ∷ (lit "aperture", a_float v.settings_camera_dof.aperture 0)
      ∷ (lit "center_bias", a_float v.settings_camera_dof.center_bias 0)
      ∷ (lit "focal_dist", a_float v.settings_camera_dof.focal_dist 0)
      ∷ (lit "sides_on", an_int v.settings_camera_dof.sides_on 0)
      ∷ (lit "sides_num", an_int v.settings_camera_dof.sides_num 0)
      ∷ (lit "rotation", a_float v.settings_camera_dof.rotation 0)
      ∷ (lit "anisotropy", a_float v.settings_camera_dof.anisotropy 0)
      ∷ (lit "subdivs", an_int v.settings_camera_dof.subdivs 0)
      ∷ [])

  unfoldable pub blur_settings : ViewParams S → PluginDesc S
  unfolding add_all plugin_desc
  blur_settings v = describe settings_motion_blur_name (lit "SettingsMotionBlur") (
      (lit "on", a_bool v.settings_motion_blur.is_on 0)
      ∷ (lit "geom_samples", an_int v.settings_motion_blur.geom_samples 0)
      ∷ (lit "low_samples", an_int v.settings_motion_blur.low_samples 0)
      ∷ (lit "duration", a_float v.settings_motion_blur.duration 0)
      ∷ (lit "subdivs", an_int v.settings_motion_blur.subdivs 0)
      ∷ (lit "bias", a_float v.settings_motion_blur.bias 0)
      ∷ (lit "shutter_efficiency", a_float v.settings_motion_blur.shutter_efficiency 0)
      ∷ (lit "interval_center", a_float v.settings_motion_blur.interval_center 0)
      ∷ (lit "camera_motion_blur", an_int v.settings_motion_blur.camera_motion_blur 0)
      ∷ (lit "sampling_type", an_int v.settings_motion_blur.sampling_type 0)
      ∷ [])

  unfoldable pub render_view : ViewParams S → PluginDesc S
  unfolding add_all plugin_desc
  render_view v = describe render_view_name (lit "RenderView") (
      ((lit "transform", a_transform v.render_view.tm 0)
        ∷ (lit "fov", a_float v.render_view.fov 0)
        ∷ (
          lit "clipping",
          a_bool (is_set v.render_view.use_clip_start || is_set v.render_view.use_clip_end) 0,
        )
        ∷ (lit "clipping_near", a_float v.render_view.clip_start 0)
        ∷ (lit "clipping_far", a_float v.render_view.clip_end 0)
        ∷ (lit "orthographic", an_int v.render_view.ortho 0)
        ∷ (lit "orthographicWidth", a_float v.render_view.ortho_width 0)
        ∷ [])
      ++ (if c.is_interactive then (lit "use_scene_offset", a_bool false 0) ∷ [] else [])
      ++ (if is_set v.render_view.stereo_params.is_used && c.is_gpu
          then (lit "stereo_on", an_int v.render_view.stereo_params.is_used 0)
            ∷ (lit "stereo_eye_distance", a_float v.render_view.stereo_params.stereo_eye_distance 0)
            ∷ (
              lit "stereo_interocular_method",
              an_int v.render_view.stereo_params.stereo_interocular_method 0,
            )
            ∷ (
              lit "stereo_specify_focus",
              an_int v.render_view.stereo_params.stereo_specify_focus 0,
            )
            ∷ (
              lit "stereo_focus_distance",
              a_float v.render_view.stereo_params.stereo_focus_distance 0,
            )
            ∷ (lit "stereo_focus_method", an_int v.render_view.stereo_params.stereo_focus_method 0)
            ∷ (lit "stereo_view", an_int v.render_view.stereo_params.stereo_view 0)
            ∷ []
          else []))

  unfoldable pub physical_camera : ViewParams S → PluginDesc S
  unfolding add_all plugin_desc
  physical_camera v = describe camera_physical_name (lit "CameraPhysical") (
      (lit "type", an_int (kind_number v.camera_physical.kind) 0)
      ∷ (lit "film_width", a_float v.camera_physical.film_width 0)
      ∷ (lit "focal_length", a_float v.camera_physical.focal_length 0)
      ∷ (lit "zoom_factor", a_float v.camera_physical.zoom_factor 0)
      ∷ (lit "f_number", a_float v.camera_physical.f_number 0)
      ∷ (lit "lens_shift", a_float v.camera_physical.lens_shift 0)
      ∷ (lit "shutter_speed", a_float v.camera_physical.shutter_speed 0)
      ∷ (lit "shutter_angle", a_float v.camera_physical.shutter_angle 0)
      ∷ (lit "shutter_offset", a_float v.camera_physical.shutter_offset 0)
      ∷ (lit "latency", a_float v.camera_physical.latency 0)
      ∷ (lit "ISO", a_float v.camera_physical.iso 0)
      ∷ (lit "specify_focus", an_int v.camera_physical.specify_focus 0)
      ∷ (lit "focus_distance", a_float v.camera_physical.focus_distance 0)
      ∷ (lit "targeted", an_int v.camera_physical.targeted 0)
      ∷ (lit "dof_display_threshold", a_float v.camera_physical.dof_display_threshold 0)
      ∷ (lit "exposure", an_int v.camera_physical.exposure 0)
      ∷ (
        lit "white_balance",
        rgb (c.equality.color_r v.camera_physical.white_balance)
            (c.equality.color_g v.camera_physical.white_balance)
            (c.equality.color_b v.camera_physical.white_balance) 0,
      )
      ∷ (lit "vignetting", a_float v.camera_physical.vignetting 0)
      ∷ (lit "blades_enable", an_int v.camera_physical.blades_enable 0)
      ∷ (lit "blades_num", an_int v.camera_physical.blades_num 0)
      ∷ (lit "blades_rotation", a_float v.camera_physical.blades_rotation 0)
      ∷ (lit "center_bias", a_float v.camera_physical.center_bias 0)
      ∷ (lit "anisotropy", a_float v.camera_physical.anisotropy 0)
      ∷ (lit "use_dof", an_int v.camera_physical.use_dof 0)
      ∷ (lit "use_moblur", an_int v.camera_physical.use_moblur 0)
      ∷ (lit "subdivs", an_int v.camera_physical.subdivs 0)
      ∷ (lit "dont_affect_settings", an_int v.camera_physical.dont_affect_settings 0)
      ∷ (lit "lens_file", a_chars v.camera_physical.lens_file 0)
      ∷ (lit "specify_fov", an_int v.camera_physical.specify_fov 0)
      ∷ (lit "fov", a_float v.camera_physical.fov 0)
      ∷ (lit "horizontal_shift", a_float v.camera_physical.horizontal_shift 0)
      ∷ (lit "horizontal_offset", a_float v.camera_physical.horizontal_offset 0)
      ∷ (
        lit "vertical_offset",
        a_float
            (c.vertical_offset v.camera_physical.vertical_offset v.render_size.w v.render_size.h
              (is_set v.render_view.stereo_params.is_used))
            0,
      )
      ∷ (lit "distortion_type", an_int v.camera_physical.distortion_type 0)
      ∷ (lit "distortion", a_float v.camera_physical.distortion 0)
      ∷ (lit "distortion_tex", a_plugin (c.texture v.camera_physical.distortion_tex))
      ∷ (lit "bmpaperture_enable", an_int v.camera_physical.bmpaperture_enable 0)
      ∷ (lit "bmpaperture_resolution", an_int v.camera_physical.bmpaperture_resolution 0)
      ∷ (lit "bmpaperture_tex", a_plugin (c.texture v.camera_physical.bmpaperture_tex))
      ∷ (lit "optical_vignetting", a_float v.camera_physical.optical_vignetting 0)
      ∷ (
        lit "bmpaperture_affects_exposure",
        an_int v.camera_physical.bmpaperture_affects_exposure 0,
      )
      ∷ (lit "enable_thin_lens_equation", an_int v.camera_physical.enable_thin_lens_equation 0)
      ∷ [])
