-- ===== src/View/Params.antt =====
-- `ViewParams` and its parts: what decides about the export of a view.
use vray_for_houdini.Base.{ℕ, Bool}
use vray_for_houdini.Qt.Text.{QString}
use vray_for_houdini.Attrs.Sdk.{Sdk}

pub data PhysicalCameraMode : Type 0 where
  mode_none mode_user mode_auto : PhysicalCameraMode

pub data CameraType : Type 0 where
  still cinematic video : CameraType

pub data FocalUnits : Type 0 where
  millimeters meters nanometers inches feet : FocalUnits

pub record RenderSize : Type 0 where
  pub w : ℕ
  pub h : ℕ

pub record CropRegion : Type 0 where
  pub x : ℕ
  pub y : ℕ
  pub width : ℕ
  pub height : ℕ

pub record StereoViewParams (S : Sdk) : Type 0 where
  pub is_used : ℕ
  pub stereo_eye_distance : S.Float
  pub stereo_interocular_method : ℕ
  pub stereo_specify_focus : ℕ
  pub stereo_focus_distance : S.Float
  pub stereo_focus_method : ℕ
  pub stereo_view : ℕ
  pub adjust_resolution : ℕ

pub record RenderViewParams (S : Sdk) : Type 0 where
  pub fov_rop_override : ℕ
  pub fov : S.Float
  pub tm : S.Transform
  pub ortho : ℕ
  pub ortho_width : S.Float
  pub use_clip_start : ℕ
  pub clip_start : S.Float
  pub use_clip_end : ℕ
  pub clip_end : S.Float
  pub stereo_params : StereoViewParams S

pub record PhysicalCameraParams (S : Sdk) : Type 0 where
  pub focal_units : FocalUnits
  pub kind : CameraType
  pub film_width : S.Float
  pub focal_length : S.Float
  pub zoom_factor : S.Float
  pub distortion : S.Float
  pub distortion_type : ℕ
  pub f_number : S.Float
  pub lens_shift : S.Float
  pub shutter_speed : S.Float
  pub shutter_angle : S.Float
  pub shutter_offset : S.Float
  pub latency : S.Float
  pub iso : S.Float
  pub specify_focus : ℕ
  pub focus_distance : S.Float
  pub targeted : ℕ
  pub target_distance : S.Float
  pub dof_display_threshold : S.Float
  pub exposure : ℕ
  pub white_balance : S.Color
  pub vignetting : S.Float
  pub blades_enable : ℕ
  pub blades_num : ℕ
  pub blades_rotation : S.Float
  pub center_bias : S.Float
  pub anisotropy : S.Float
  pub use_dof : ℕ
  pub use_moblur : ℕ
  pub subdivs : ℕ
  pub dont_affect_settings : ℕ
  pub lens_file : QString
  pub specify_fov : ℕ
  pub fov : S.Float
  pub horizontal_shift : S.Float
  pub horizontal_offset : S.Float
  pub vertical_offset : S.Float
  pub distortion_tex : QString
  pub bmpaperture_enable : ℕ
  pub bmpaperture_resolution : ℕ
  pub bmpaperture_tex : QString
  pub optical_vignetting : S.Float
  pub bmpaperture_affects_exposure : ℕ
  pub enable_thin_lens_equation : ℕ

pub record SettingsCamera (S : Sdk) : Type 0 where
  pub kind : ℕ
  pub height : S.Float
  pub dist : S.Float
  pub fov : S.Float
  pub auto_fit : Bool
  pub curve : S.Float

pub record SettingsCameraDof (S : Sdk) : Type 0 where
  pub is_on : Bool
  pub aperture : S.Float
  pub center_bias : S.Float
  pub focal_dist : S.Float
  pub sides_on : ℕ
  pub sides_num : ℕ
  pub rotation : S.Float
  pub anisotropy : S.Float
  pub subdivs : ℕ

pub record SettingsMotionBlur (S : Sdk) : Type 0 where
  pub is_on : Bool
  pub geom_samples : ℕ
  pub low_samples : ℕ
  pub duration : S.Float
  pub subdivs : ℕ
  pub bias : S.Float
  pub shutter_efficiency : S.Float
  pub interval_center : S.Float
  pub camera_motion_blur : ℕ
  pub sampling_type : ℕ

pub record ViewParams (S : Sdk) : Type 0 where
  pub render_size : RenderSize
  pub render_view : RenderViewParams S
  pub crop_region : CropRegion
  pub use_camera_physical : PhysicalCameraMode
  pub camera_physical : PhysicalCameraParams S
  pub settings_camera : SettingsCamera S
  pub settings_camera_dof : SettingsCameraDof S
  pub settings_motion_blur : SettingsMotionBlur S
  pub first_export : Bool
