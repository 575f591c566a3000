-- ===== src/Exporter/Session.antt =====
-- A renderer from `initRenderer` to `freeMem`, and the calls while there is none.
use vray_for_houdini.Base.{
  ℕ, ◌<◌, ◌≡◌, refl, sym, ap, ◌∙◌, Bool, true, false, List, [], ◌∷◌, ◌++◌, append_assoc, append-nil,
  none, some, if◌then◌else◌, arith, ◌⊎◌, inl, inr,
}
use vray_for_houdini.Qt.Text.{QString}
use vray_for_houdini.Attrs.Sdk.{Sdk}
use vray_for_houdini.Attrs.Desc.{PluginDesc}
use vray_for_houdini.Instances.Pool.{
  Pool, Env, new_init, new_renderer, delete_renderer, make_init, add_dummy,
  get_create_shared_memory,
}
use vray_for_houdini.Instances.Slots.{IsSound, count, free_slots}
use vray_for_houdini.Instances.Lifetime.{delete_renderer-new_renderer}
use vray_for_houdini.Exporter.Mode.{SettingsRtEngine, set_renderer_mode}
use vray_for_houdini.Exporter.Plugins.{export_plugin}
use vray_for_houdini.Exporter.Renderer.{
  unbind_callbacks, reset, delete_vray, free_mem, make_vray, init_renderer, set_image_size, commit,
  set_camera, export_scene, start_render, stop_render, is_rendering, set_current_time, clear_frames,
}
use vray_for_houdini.Exporter.State.{
  RenderMode, Event, Message, Api, Renderer, log, clear_scene, set_auto_commit, unset_vfb_closed,
  unset_vfb_render_last, unset_state_changed, unset_progress, unset_log_message,
  unset_renderer_close, export_not_allowed,
}

-- An initialised pool is left as it is.
new_init_again :
    (env : Env) (dummy : ℕ) (p : Pool)
    → p.is_attached ≡ true
    → p.has_init ≡ true
    → env.locks ≡ true
    → new_init env dummy p ≡ (p, true)
unfolding new_init get_create_shared_memory make_init add_dummy
new_init_again env dummy p attached init locks = ground arith

module _ {S : Sdk} (api : Api S) where
  -- The calls that release a renderer: all callbacks are unbound, and then the scene is reset.
  abbrev pub free_calls : List (Event S)
  free_calls =
      log Message.renderer_free_mem
      ∷ unset_vfb_closed
      ∷ unset_vfb_render_last
      ∷ unset_state_changed
      ∷ unset_progress
      ∷ unset_log_message
      ∷ unset_renderer_close
      ∷ unset_state_changed
      ∷ unset_progress
      ∷ unset_log_message
      ∷ unset_renderer_close
      ∷ clear_scene
      ∷ []

  free_mem_lem :
      (r : Renderer S) (v : ℕ)
      → let r' : Renderer S = record r { vray = some v } in
        ((free_mem api r').trace ≡ r.trace ++ free_calls)
        × ((free_mem api r').pool ≡ (delete_renderer api.env (some v) r.pool).0)
        × ((free_mem api r').vray ≡ (delete_renderer api.env (some v) r.pool).1)
  unfolding free_mem reset unbind_callbacks delete_vray
  free_mem_lem r v = (simp append_assoc, refl, refl)

  init_renderer_lem :
      (vfb : ℕ) (r : Renderer S)
      → r.vray ≡ none
      → api.throws ≡ false
      → new_init api.env api.dummy r.pool ≡ (r.pool, true)
      → (new_renderer api.env api.fresh r.pool).1 ≡ some api.fresh
      → init_renderer api vfb r ≡ (
        record r {
          enable_vfb = vfb;
          pool = (new_renderer api.env api.fresh r.pool).0;
          vray = some api.fresh;
          trace = r.trace ++ set_auto_commit true ∷ [];
          last_error = api.failed (set_auto_commit true);
        },
        true,
      )
  unfolding init_renderer make_vray
  init_renderer_lem vfb r h ok init made = ground arith

  -- Without a renderer no operation calls the AppSDK or changes anything: `startRender` reports an
  -- error, `exportPlugin` returns an empty plugin, and the others return at once.
  without_renderer :
      (r : Renderer S) (d : PluginDesc S) (s : SettingsRtEngine S) (mode : RenderMode) (w h : ℕ)
      (frame : S.Real) (camera : S.Plugin) (locked : Bool)
      → r.vray ≡ none
      → (free_mem api r ≡ r)
        × (reset api r ≡ r)
        × (set_image_size api w h r ≡ r)
        × (commit api r ≡ r)
        × (set_camera api camera r ≡ r)
        × (set_current_time api frame r ≡ r)
        × (clear_frames api frame r ≡ r)
        × (stop_render api r ≡ r)
        × (set_renderer_mode api s mode r ≡ r)
        × (is_rendering api r ≡ false)
        × (start_render api locked r ≡ (r, 1))
        × (export_plugin api d r ≡ (r, none))
  unfolding free_mem reset set_image_size commit set_camera set_current_time clear_frames
      stop_render set_renderer_mode is_rendering start_render export_plugin
  without_renderer r d s mode w h frame camera locked e = (
    ground arith,
    ground arith,
    ground arith,
    ground arith,
    ground arith,
    ground arith,
    ground arith,
    ground arith,
    ground arith,
    ground arith,
    ground arith,
    ground arith,
  )

  -- `exportScene` under an Indie licence, or without a renderer, saves nothing and returns 0, which
  -- is also what it returns where the AppSDK saves the scene without an error.
  export_scene_refused :
      (path : QString) (r : Renderer S)
      → (api.is_indie ≡ true) ⊎ (r.vray ≡ none)
      → ((export_scene api path r).1 ≡ 0)
        × ((export_scene api path r).0.trace
            ≡ r.trace ++ (if api.is_indie then log export_not_allowed ∷ [] else []))
  unfolding export_scene
  export_scene_refused path r (inl e) = (ground arith, ground arith)
  export_scene_refused path r (inr e) = (ground arith, ground (arith, append-nil r.trace))

  -- A renderer that is initialised on a sound, set up process with a free slot and then released
  -- leaves no trace but the calls: the initialisation makes it, turns its automatic commits on and
  -- reports success, and the release unbinds every callback, clears the scene, gives the slot and
  -- the memory back and nulls the pointer.
  pub free_mem-init_renderer :
      (vfb : ℕ) (r : Renderer S)
      → r.vray ≡ none
      → IsSound r.pool
      → count api.fresh r.pool.live ≡ 0
      → 0 < free_slots r.pool.slots
      → r.pool.is_attached ≡ true
      → r.pool.has_init ≡ true
      → api.env.locks ≡ true
      → api.env.makes_renderer ≡ true
      → api.throws ≡ false
      → let (r', ok) = init_renderer api vfb r in
        (ok ≡ true)
        × (r'.vray ≡ some api.fresh)
        × (r'.trace ≡ r.trace ++ set_auto_commit true ∷ [])
        × ((free_mem api r').trace ≡ r.trace ++ set_auto_commit true ∷ free_calls)
        × ((free_mem api r').pool ≡ r.pool)
        × ((free_mem api r').vray ≡ none)
  free_mem-init_renderer vfb r h sound unused room attached init locks makes ok =
      let made =
        delete_renderer-new_renderer api.env api.fresh r.pool sound unused attached locks makes
          room in
      let (p', pointer) = new_renderer api.env api.fresh r.pool in
      let begun =
        init_renderer_lem vfb r h ok (new_init_again api.env api.dummy r.pool attached init locks)
          made.0 in
      let ended =
        free_mem_lem
          (record r {
            enable_vfb = vfb;
            pool = p';
            trace = r.trace ++ set_auto_commit true ∷ [];
            last_error = api.failed (set_auto_commit true);
          })
          api.fresh in
      let undone : delete_renderer api.env (some api.fresh) p' ≡ (r.pool, none) =
        ap (λ x. delete_renderer api.env x p') (sym made.0) ∙ made.1 in
      rw begun (
        refl,
        refl,
        refl,
        ended.0 ∙ append_assoc r.trace (set_auto_commit true ∷ []) free_calls,
        ended.1 ∙ ap (λ q. q.0) undone,
        ended.2 ∙ ap (λ q. q.1) undone,
      )
