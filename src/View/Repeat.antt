-- ===== src/View/Repeat.antt =====
-- A view that has not changed.
use vray_for_houdini.Base.{ℕ, ◌≡◌, refl, sym, subst, Bool, true, false, [], ◌∷◌, ◌==◌, arith}
use vray_for_houdini.Qt.Text.{QString, same_text, same_text_iff}
use vray_for_houdini.Attrs.Sdk.{Sdk}
use vray_for_houdini.View.Params.{
  FocalUnits, StereoViewParams, RenderViewParams, PhysicalCameraParams, SettingsCamera,
  SettingsCameraDof, SettingsMotionBlur, ViewParams, RenderSize, CropRegion,
}
use vray_for_houdini.View.Changes.{
  Equality, mode_number, same_units, same_bool, same_stereo, same_physical, same_view, same_camera,
  same_dof, same_blur, view_needs_reset, need_reset, changed_params, changed_phys_cam, changed_size,
  changed_crop_region,
}
use vray_for_houdini.View.Plugins.{ViewContext}
use vray_for_houdini.View.Export.{
  set_auto_commit, commit, export_changes, export_frame, export_plugins, export_view,
}

number_refl : (n : ℕ) → (n == n) ≡ true
number_refl n = ground arith

text_refl : (s : QString) → same_text s s ≡ true
text_refl s = (same_text_iff s s).1 refl

bool_refl : (b : Bool) → same_bool b b ≡ true
bool_refl true = refl
bool_refl false = refl

units_refl : (u : FocalUnits) → same_units u u ≡ true
units_refl FocalUnits.millimeters = refl
units_refl FocalUnits.meters = refl
units_refl FocalUnits.nanometers = refl
units_refl FocalUnits.inches = refl
units_refl FocalUnits.feet = refl

-- A number, and a transform, is equal to itself, as it is where none is not a number.
pub record IsReflexive {S : Sdk} (q : Equality S) : Type 0 where
  pub float_refl : (x : S.Float) → q.float_eq x x ≡ true
  pub transform_refl : (t : S.Transform) → q.transform_eq t t ≡ true

module _ {S : Sdk} (q : Equality S) (r : IsReflexive q) where
  stereo_refl : (a : StereoViewParams S) → same_stereo q a a ≡ true
  unfolding same_stereo
  stereo_refl a = simp (number_refl, r.float_refl)

  physical_refl : (a : PhysicalCameraParams S) → same_physical q a a ≡ true
  unfolding same_physical
  physical_refl a = simp (number_refl, r.float_refl, text_refl, units_refl)

  view_refl : (a : RenderViewParams S) → same_view q a a ≡ true
  unfolding same_view
  view_refl a = simp (number_refl, r.float_refl, r.transform_refl)

  camera_refl : (a : SettingsCamera S) → same_camera q a a ≡ true
  unfolding same_camera
  camera_refl a = simp (number_refl, r.float_refl, bool_refl)

  dof_refl : (a : SettingsCameraDof S) → same_dof q a a ≡ true
  unfolding same_dof
  dof_refl a = simp (number_refl, r.float_refl, bool_refl)

  blur_refl : (a : SettingsMotionBlur S) → same_blur q a a ≡ true
  unfolding same_blur
  blur_refl a = simp (number_refl, r.float_refl, bool_refl)

  stereo_stays : (a : RenderViewParams S) → view_needs_reset q a a ≡ false
  unfolding view_needs_reset
  stereo_stays a = ground (arith, stereo_refl a.stereo_params)

  need_reset_same :
      (v : ViewParams S) (first : Bool) → need_reset q (record v { first_export = first }) v ≡ false
  unfolding need_reset
  need_reset_same v first = ground (
    arith,
    number_refl (mode_number v.use_camera_physical),
    camera_refl v.settings_camera,
    dof_refl v.settings_camera_dof,
    blur_refl v.settings_motion_blur,
    stereo_stays v.render_view,
  )

  changed_params_same :
      (v : ViewParams S) (first : Bool)
      → changed_params q (record v { first_export = first }) v ≡ false
  unfolding changed_params
  changed_params_same v first = ground (arith, view_refl v.render_view)

  changed_phys_cam_same :
      (v : ViewParams S) (first : Bool)
      → changed_phys_cam q (record v { first_export = first }) v ≡ false
  unfolding changed_phys_cam
  changed_phys_cam_same v first = ground (arith, physical_refl v.camera_physical)

changed_size_same : (s : RenderSize) → changed_size s s ≡ false
unfolding changed_size
changed_size_same s = ground arith

changed_crop_region_same : (r : CropRegion) → changed_crop_region r r ≡ false
unfolding changed_crop_region
changed_crop_region_same r = ground arith

module _ {S : Sdk} (c : ViewContext S) where
  export_plugins_same :
      (v : ViewParams S)
      → IsReflexive c.equality
      → c.is_animation ≡ false
      → export_plugins c (record v { first_export = false }) v ≡ []
  unfolding export_plugins export_changes
  export_plugins_same v r anim = ground (
    arith,
    need_reset_same c.equality r v false,
    changed_params_same c.equality r v false,
    changed_phys_cam_same c.equality r v false,
  )

  export_frame_same : (v : ViewParams S) → export_frame c (record v { first_export = false }) v ≡ []
  unfolding export_frame
  export_frame_same v =
      ground (arith, changed_size_same v.render_size, changed_crop_region_same v.crop_region)

  stored_lem :
      (before new : ViewParams S)
      → c.is_animation ≡ false
      → (export_view c before new).0 ≡ (record new { first_export = false })
  unfolding export_view
  stored_lem before new anim = ground arith

  again_lem :
      (new : ViewParams S)
      → IsReflexive c.equality
      → c.is_interactive ≡ true
      → c.is_animation ≡ false
      → let stored : ViewParams S = record new { first_export = false } in
        export_view c stored new
        ≡ (stored, set_auto_commit false ∷ commit ∷ set_auto_commit true ∷ [])
  unfolding export_view
  again_lem new r rt anim = ground (arith, export_plugins_same new r anim, export_frame_same new)

  -- In an interactive session a view that is exported a second time with the same parameters is not
  -- exported again: the calls are those around the export, and the stored parameters stay, where a
  -- number and a transform are equal to themselves.
  pub export_view-export_view :
      (before new : ViewParams S)
      → IsReflexive c.equality
      → c.is_interactive ≡ true
      → c.is_animation ≡ false
      → let stored = (export_view c before new).0 in
        export_view c stored new
        ≡ (stored, set_auto_commit false ∷ commit ∷ set_auto_commit true ∷ [])
  export_view-export_view before new r rt anim =
      subst
        (λ stored.
          export_view c stored new
          ≡ (stored, set_auto_commit false ∷ commit ∷ set_auto_commit true ∷ []))
        (sym (stored_lem before new anim)) (again_lem new r rt anim)
