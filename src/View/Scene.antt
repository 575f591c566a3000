-- ===== src/View/Scene.antt =====
-- The plugins of the view that the renderer holds after the calls of an export.
use vray_for_houdini.Base.{
  ◌≡◌, refl, Bool, true, false, List, [], ◌∷◌, ◌++◌, arith, All, if◌then◌else◌,
}
use vray_for_houdini.Qt.Text.{QString, contains, same_text}
use vray_for_houdini.Attrs.Sdk.{Sdk}
use vray_for_houdini.Attrs.Desc.{PluginDesc}
use vray_for_houdini.View.Plugins.{
  render_view_name, settings_camera_name, settings_camera_dof_name, settings_motion_blur_name,
  stereo_settings_name, camera_physical_name, camera_default_name,
}
use vray_for_houdini.View.Export.{
  ViewEvent, exports, exports_texture, deletes, set_auto_commit, set_camera, commit, set_image_size,
  set_render_region, warns,
}

module _ {S : Sdk} where
  -- The exports to plugins of other names.
  unfoldable pub without : QString → List (PluginDesc S) → List (PluginDesc S)
  unfolding same_text
  without name [] = []
  without name (d ∷ scene) =
      let rest = without name scene in if same_text name d.plugin_name then rest else d ∷ rest

  -- The exports to the view's own plugins that are in effect after some calls, the last one first: a
  -- plugin that is deleted loses what was exported to it. The plugins of textures are not followed.
  unfoldable pub in_effect : List (ViewEvent S) → List (PluginDesc S) → List (PluginDesc S)
  unfolding without
  in_effect [] scene = scene
  in_effect (deletes name ∷ events) scene = in_effect events (without name scene)
  in_effect (exports d ∷ events) scene = in_effect events (d ∷ scene)
  in_effect (_ ∷ events) scene = in_effect events scene

  -- Every plugin has one of the names.
  abbrev pub AreNamed : List QString → List (PluginDesc S) → Type 0
  AreNamed names scene = All (λ d. contains names d.plugin_name ≡ true) scene

  without-AreNamed :
      (name : QString) (names : List QString) (scene : List (PluginDesc S))
      → AreNamed (name ∷ names) scene
      → AreNamed names (without name scene)
  unfolding contains without
  without-AreNamed name names [] h = tt
  without-AreNamed name names (d ∷ scene) h = ground (arith, without-AreNamed name names scene h.1)

  AreNamed-[] : (scene : List (PluginDesc S)) → AreNamed [] scene → scene ≡ []
  unfolding contains
  AreNamed-[] [] h = refl
  AreNamed-[] (d ∷ scene) h = ground (arith, h.0)

  abbrev pub deletions : List QString → List (ViewEvent S)
  deletions [] = []
  deletions (name ∷ names) = deletes name ∷ deletions names

  pub in_effect-deletions :
      (names : List QString) (rest : List (ViewEvent S)) (scene : List (PluginDesc S))
      → AreNamed names scene
      → in_effect (deletions names ++ rest) scene ≡ in_effect rest []
  unfolding in_effect
  in_effect-deletions [] rest scene named = simp (AreNamed-[] scene named)
  in_effect-deletions (name ∷ names) rest scene named =
      in_effect-deletions names rest (without name scene) (without-AreNamed name names scene named)

  -- Every plugin that the calls export has one of the names.
  abbrev pub ExportNamed : List QString → List (ViewEvent S) → Type 0
  ExportNamed names [] = Unit
  ExportNamed names (exports d ∷ events) =
      (contains names d.plugin_name ≡ true) × ExportNamed names events
  ExportNamed names (_ ∷ events) = ExportNamed names events

  without_named :
      (name : QString) (names : List QString) (scene : List (PluginDesc S))
      → AreNamed names scene
      → AreNamed names (without name scene)
  unfolding without
  without_named name names [] h = tt
  without_named name names (d ∷ scene) h = ground (arith, without_named name names scene h.1)

  pub in_effect-AreNamed :
      (names : List QString) (events : List (ViewEvent S)) (scene : List (PluginDesc S))
      → ExportNamed names events
      → AreNamed names scene
      → AreNamed names (in_effect events scene)
  unfolding in_effect
  in_effect-AreNamed names [] scene h named = named
  in_effect-AreNamed names (deletes name ∷ events) scene h named =
      in_effect-AreNamed names events (without name scene) h (without_named name names scene named)
  in_effect-AreNamed names (exports d ∷ events) scene h named =
      in_effect-AreNamed names events (d ∷ scene) h.1 (h.0, named)
  in_effect-AreNamed names (exports_texture path ∷ events) scene h named =
      in_effect-AreNamed names events scene h named
  in_effect-AreNamed names (set_auto_commit on ∷ events) scene h named =
      in_effect-AreNamed names events scene h named
  in_effect-AreNamed names (set_camera name ∷ events) scene h named =
      in_effect-AreNamed names events scene h named
  in_effect-AreNamed names (commit ∷ events) scene h named =
      in_effect-AreNamed names events scene h named
  in_effect-AreNamed names (set_image_size w y ∷ events) scene h named =
      in_effect-AreNamed names events scene h named
  in_effect-AreNamed names (set_render_region r ∷ events) scene h named =
      in_effect-AreNamed names events scene h named
  in_effect-AreNamed names (warns w y ∷ events) scene h named =
      in_effect-AreNamed names events scene h named

  pub ExportNamed-append :
      (names : List QString) (xs ys : List (ViewEvent S))
      → ExportNamed names xs
      → ExportNamed names ys
      → ExportNamed names (xs ++ ys)
  ExportNamed-append names [] ys hx hy = hy
  ExportNamed-append names (x ∷ xs) ys hx hy = ground (arith, ExportNamed-append names xs ys _ hy)

  pub ExportNamed-if :
      (names : List QString) (b : Bool) (xs : List (ViewEvent S))
      → ExportNamed names xs
      → ExportNamed names (if b then xs else [])
  ExportNamed-if names true xs h = h
  ExportNamed-if names false xs h = tt

-- The names that a reset deletes.
abbrev pub view_plugins : List QString
view_plugins =
    render_view_name ∷ settings_camera_name ∷ settings_camera_dof_name ∷ settings_motion_blur_name
    ∷ stereo_settings_name ∷ camera_physical_name ∷ camera_default_name ∷ []
