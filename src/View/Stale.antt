-- ===== src/View/Stale.antt =====
-- Changes of a view that do not reach the renderer.
use vray_for_houdini.Base.{
  ◌≡◌, refl, Bool, true, false, not, ◌&&◌, [], ◌∷◌, ◌==◌, arith, if◌then◌else◌,
}
use vray_for_houdini.Attrs.Sdk.{Sdk}
use vray_for_houdini.View.Params.{ViewParams}
use vray_for_houdini.View.Changes.{
  need_reset, changed_params, changed_phys_cam, changed_size, same_view, Equality,
}
use vray_for_houdini.View.Plugins.{ViewContext, render_view}
use vray_for_houdini.View.Export.{
  exports, set_image_size, is_whole, export_changes, export_frame, export_plugins,
}

third_false : (x y : Bool) → not (x && (y && false)) ≡ true
third_false true true = refl
third_false true false = refl
third_false false y = refl

-- A change of the projection is a change of the view.
changed_params_ortho :
    {S : Sdk} (q : Equality S) (a b : ViewParams S)
    → a.render_view.ortho == b.render_view.ortho ≡ false
    → changed_params q a b ≡ true
unfolding changed_params same_view
changed_params_ortho q a b h = simp h (third_false _ _)

module _ {S : Sdk} (c : ViewContext S) where
  -- In an interactive session, past the first export, a change between perspective and orthographic
  -- with no reset and the same physical camera exports the render view and nothing else: neither
  -- the default camera, which holds the projection too, nor the depth of field, which depends on it.
  pub export_plugins-ortho :
      (before v : ViewParams S)
      → c.is_interactive ≡ true
      → c.is_animation ≡ false
      → before.first_export ≡ false
      → need_reset c.equality before v ≡ false
      → changed_phys_cam c.equality before v ≡ false
      → before.render_view.ortho == v.render_view.ortho ≡ false
      → export_plugins c before v ≡ exports (render_view c v) ∷ []
  unfolding export_plugins export_changes
  export_plugins-ortho before v rt anim later stays camera turned =
      ground (arith, changed_params_ortho c.equality before v turned)

  -- A region that becomes the whole image is not set, whatever region was set before.
  export_frame_whole :
      (before v : ViewParams S)
      → is_whole c v.crop_region v.render_size ≡ true
      → export_frame c before v ≡ (
          if changed_size before.render_size v.render_size
          then set_image_size v.render_size.w v.render_size.h ∷ []
          else [])
  unfolding export_frame
  export_frame_whole before v whole = ground arith
