-- ===== src/View/Changes.antt =====
-- The comparisons of `ViewParams`. `MemberFloatEq` is equality up to a tolerance: `Equality` stands
-- for it, for the components of a colour and for the equality of transforms.
use vray_for_houdini.Base.{
  ℕ, Bool, true, false, not, ◌&&◌, ◌||◌, List, [], ◌∷◌, ◌==◌, if◌then◌else◌,
}
use vray_for_houdini.Qt.Text.{same_text}
use vray_for_houdini.Attrs.Sdk.{Sdk}
use vray_for_houdini.View.Params.{
  PhysicalCameraMode, mode_none, mode_user, mode_auto, CameraType, still, cinematic, video,
  FocalUnits, millimeters, meters, nanometers, inches, feet, RenderSize, CropRegion,
  StereoViewParams, RenderViewParams, PhysicalCameraParams, SettingsCamera, SettingsCameraDof,
  SettingsMotionBlur, ViewParams,
}

pub record Equality (S : Sdk) : Type 0 where
  pub float_eq : S.Float → S.Float → Bool
  pub transform_eq : S.Transform → S.Transform → Bool
  pub color_r : S.Color → S.Float
  pub color_g : S.Color → S.Float
  pub color_b : S.Color → S.Float

-- The numbers of the enumerators.
abbrev pub mode_number : PhysicalCameraMode → ℕ
mode_number mode_none = 0
mode_number mode_user = 1
mode_number mode_auto = 2

abbrev pub kind_number : CameraType → ℕ
kind_number still = 0
kind_number cinematic = 1
kind_number video = 2

abbrev pub same_units : FocalUnits → FocalUnits → Bool
same_units millimeters millimeters = true
same_units meters meters = true
same_units nanometers nanometers = true
same_units inches inches = true
same_units feet feet = true
same_units _ _ = false

abbrev pub same_bool : Bool → Bool → Bool
same_bool true b = b
same_bool false b = not b

-- A chain of `&&`.
abbrev pub all_true : List Bool → Bool
all_true [] = true
all_true (b ∷ bs) = b && all_true bs

module _ {S : Sdk} (q : Equality S) where
  unfoldable pub same_stereo : StereoViewParams S → StereoViewParams S → Bool
  unfolding same_text
  same_stereo a b = all_true (
      (a.is_used == b.is_used)
      ∷ q.float_eq a.stereo_eye_distance b.stereo_eye_distance
      ∷ (a.stereo_interocular_method == b.stereo_interocular_method)
      ∷ (a.stereo_specify_focus == b.stereo_specify_focus)
      ∷ q.float_eq a.stereo_focus_distance b.stereo_focus_distance
      ∷ (a.stereo_focus_method == b.stereo_focus_method)
      ∷ (a.stereo_view == b.stereo_view)
      ∷ [])

  unfoldable pub same_physical : PhysicalCameraParams S → PhysicalCameraParams S → Bool
  unfolding same_text
  same_physical a b = all_true (
      same_units a.focal_units b.focal_units
      ∷ (kind_number a.kind == kind_number b.kind)
      ∷ q.float_eq a.film_width b.film_width
      ∷ q.float_eq a.focal_length b.focal_length
      ∷ q.float_eq a.zoom_factor b.zoom_factor
      ∷ q.float_eq a.distortion b.distortion
      ∷ (a.distortion_type == b.distortion_type)
      ∷ q.float_eq a.f_number b.f_number
      ∷ q.float_eq a.lens_shift b.lens_shift
      ∷ q.float_eq a.shutter_speed b.shutter_speed
      ∷ q.float_eq a.shutter_angle b.shutter_angle
      ∷ q.float_eq a.shutter_offset b.shutter_offset
      ∷ q.float_eq a.latency b.latency
      ∷ q.float_eq a.iso b.iso
      ∷ (a.specify_focus == b.specify_focus)
      ∷ q.float_eq a.focus_distance b.focus_distance
      ∷ q.float_eq a.dof_display_threshold b.dof_display_threshold
      ∷ (a.exposure == b.exposure)
      ∷ q.float_eq (q.color_r a.white_balance) (q.color_r b.white_balance)
      ∷ q.float_eq (q.color_g a.white_balance) (q.color_g b.white_balance)
      ∷ q.float_eq (q.color_b a.white_balance) (q.color_b b.white_balance)
      ∷ q.float_eq a.vignetting b.vignetting
      ∷ (a.blades_enable == b.blades_enable)
      ∷ (a.blades_num == b.blades_num)
      ∷ q.float_eq a.blades_rotation b.blades_rotation
      ∷ q.float_eq a.center_bias b.center_bias
      ∷ q.float_eq a.anisotropy b.anisotropy
      ∷ (a.use_dof == b.use_dof)
      ∷ (a.use_moblur == b.use_moblur)
      ∷ (a.subdivs == b.subdivs)
      ∷ (a.dont_affect_settings == b.dont_affect_settings)
      ∷ same_text a.lens_file b.lens_file
      ∷ (a.specify_fov == b.specify_fov)
      ∷ q.float_eq a.fov b.fov
      ∷ q.float_eq a.horizontal_shift b.horizontal_shift
      ∷ q.float_eq a.horizontal_offset b.horizontal_offset
      ∷ q.float_eq a.vertical_offset b.vertical_offset
      ∷ same_text a.distortion_tex b.distortion_tex
      ∷ (a.bmpaperture_enable == b.bmpaperture_enable)
      ∷ (a.bmpaperture_resolution == b.bmpaperture_resolution)
      ∷ same_text a.bmpaperture_tex b.bmpaperture_tex
      ∷ q.float_eq a.optical_vignetting b.optical_vignetting
      ∷ (a.bmpaperture_affects_exposure == b.bmpaperture_affects_exposure)
      ∷ (a.enable_thin_lens_equation == b.enable_thin_lens_equation)
      ∷ [])

  unfoldable pub same_view : RenderViewParams S → RenderViewParams S → Bool
  unfolding same_text
  same_view a b = all_true (
      (a.fov_rop_override == b.fov_rop_override)
      ∷ q.float_eq a.fov b.fov
      ∷ (a.ortho == b.ortho)
      ∷ q.float_eq a.ortho_width b.ortho_width
      ∷ (a.use_clip_start == b.use_clip_start)
      ∷ q.float_eq a.clip_start b.clip_start
      ∷ (a.use_clip_end == b.use_clip_end)
      ∷ q.float_eq a.clip_end b.clip_end
      ∷ q.transform_eq a.tm b.tm
      ∷ [])

  unfoldable pub same_camera : SettingsCamera S → SettingsCamera S → Bool
  unfolding same_text
  same_camera a b = all_true (
      (a.kind == b.kind)
      ∷ q.float_eq a.height b.height
      ∷ q.float_eq a.dist b.dist
      ∷ same_bool a.auto_fit b.auto_fit
      ∷ q.float_eq a.curve b.curve
      ∷ [])

  unfoldable pub same_dof : SettingsCameraDof S → SettingsCameraDof S → Bool
  unfolding same_text
  same_dof a b = all_true (
      same_bool a.is_on b.is_on
      ∷ q.float_eq a.aperture b.aperture
      ∷ q.float_eq a.center_bias b.center_bias
      ∷ q.float_eq a.focal_dist b.focal_dist
      ∷ (a.sides_on == b.sides_on)
      ∷ (a.sides_num == b.sides_num)
      ∷ q.float_eq a.rotation b.rotation
      ∷ q.float_eq a.anisotropy b.anisotropy
      ∷ (a.subdivs == b.subdivs)
      ∷ [])

  unfoldable pub same_blur : SettingsMotionBlur S → SettingsMotionBlur S → Bool
  unfolding same_text
  same_blur a b = all_true (
      same_bool a.is_on b.is_on
      ∷ (a.geom_samples == b.geom_samples)
      ∷ (a.low_samples == b.low_samples)
      ∷ q.float_eq a.duration b.duration
      ∷ (a.subdivs == b.subdivs)
      ∷ q.float_eq a.bias b.bias
      ∷ q.float_eq a.shutter_efficiency b.shutter_efficiency
      ∷ q.float_eq a.interval_center b.interval_center
      ∷ (a.camera_motion_blur == b.camera_motion_blur)
      ∷ (a.sampling_type == b.sampling_type)
      ∷ [])

  -- `needReset` of a render view.
  unfoldable pub view_needs_reset : RenderViewParams S → RenderViewParams S → Bool
  unfolding same_stereo
  view_needs_reset a b =
      if not (a.stereo_params.is_used == b.stereo_params.is_used)
      then true
      else if b.stereo_params.is_used == 0
      then false
      else not (same_stereo a.stereo_params b.stereo_params)

  unfoldable pub need_reset : ViewParams S → ViewParams S → Bool
  unfolding same_camera same_dof same_blur view_needs_reset
  need_reset a b =
      not (mode_number a.use_camera_physical == mode_number b.use_camera_physical)
      || not (same_camera a.settings_camera b.settings_camera)
      || not (same_dof a.settings_camera_dof b.settings_camera_dof)
      || not (same_blur a.settings_motion_blur b.settings_motion_blur)
      || view_needs_reset a.render_view b.render_view

  unfoldable pub changed_params : ViewParams S → ViewParams S → Bool
  unfolding same_view
  changed_params a b = not (same_view a.render_view b.render_view)

  unfoldable pub changed_phys_cam : ViewParams S → ViewParams S → Bool
  unfolding same_physical
  changed_phys_cam a b = not (same_physical a.camera_physical b.camera_physical)

unfoldable pub changed_size : RenderSize → RenderSize → Bool
changed_size a b = not (a.w == b.w) || not (a.h == b.h)

unfoldable pub changed_crop_region : CropRegion → CropRegion → Bool
changed_crop_region a b =
    not (a.x == b.x) || not (a.y == b.y) || not (a.width == b.width) || not (a.height == b.height)
