-- ===== src/Exporter/Renderer.antt =====
-- `VRayPluginRenderer`: creation and release of the renderer, and the calls that it passes on.
use vray_for_houdini.Base.{ℕ, Bool, true, false, ◌&&◌, none, some, leb, if◌then◌else◌}
use vray_for_houdini.Qt.Text.{QString}
use vray_for_houdini.Attrs.Sdk.{Sdk}
use vray_for_houdini.Instances.Pool.{new_init, new_renderer, delete_renderer}
use vray_for_houdini.Exporter.State.{
  Event, Message, Api, Renderer, call, write, when_vray, unset_vfb_closed, unset_vfb_render_last,
  unset_state_changed, unset_progress, unset_log_message, unset_renderer_close, clear_scene,
  commit_scene, start_sync, wait_for_render_end, stop, save_scene, set_auto_commit,
}

module _ {S : Sdk} (api : Api S) where
  -- The callbacks that stay bound over a reset, and the ones that do not.
  abbrev pub unbind_ui : Renderer S → Renderer S
  unbind_ui r = call api unset_vfb_render_last (call api unset_vfb_closed r)

  abbrev pub unbind_render : Renderer S → Renderer S
  unbind_render r =
      call api unset_renderer_close
        (call api unset_log_message (call api unset_progress (call api unset_state_changed r)))

  unfoldable pub unbind_callbacks : Bool → Renderer S → Renderer S
  unbind_callbacks ui = when_vray (λ r. unbind_render (if ui then unbind_ui r else r))

  unfoldable pub reset : Renderer S → Renderer S
  unfolding unbind_callbacks
  reset = when_vray (λ r. call api clear_scene (unbind_callbacks false r))

  -- `deleteVRayRenderer(m_vray)`
  unfoldable pub delete_vray : Renderer S → Renderer S
  unfolding delete_renderer
  delete_vray r =
      let (pool', pointer) = delete_renderer api.env r.vray r.pool in
      record r { pool = pool'; vray = pointer }

  unfoldable pub free_mem : Renderer S → Renderer S
  unfolding reset unbind_callbacks delete_vray
  free_mem =
      when_vray
        (λ r. delete_vray (reset (unbind_callbacks true (write Message.renderer_free_mem r))))

  -- The renderer is made, with its commits automatic (the last lines of `newVRayRenderer`), or the
  -- exception is logged.
  unfoldable pub make_vray : Renderer S → Renderer S
  unfolding new_renderer free_mem
  make_vray r =
      if api.throws
      then free_mem (write Message.renderer_init_error r)
      else let (pool', pointer) = new_renderer api.env api.fresh r.pool in
        when_vray (call api (set_auto_commit true)) (record r { pool = pool'; vray = pointer })

  abbrev pub is_init : Renderer S → Bool
  is_init r = elim r.vray [ none ↦ false | some v ↦ true ]

  -- The trace has the calls on `m_vray`; what is set on a dummy renderer is in the pool.
  unfoldable pub init_renderer : ℕ → Renderer S → Renderer S × Bool
  unfolding new_init make_vray reset
  init_renderer enable_vfb r =
      let (pool', exists) = new_init api.env api.dummy r.pool in
      let r' = record r { pool = pool'; enable_vfb = enable_vfb } in
      let r'' : Renderer S = elim r.vray [ none ↦ make_vray r' | some v ↦ reset r' ] in
      if exists then (r'', is_init r'') else (record r { pool = pool' }, false)

  unfoldable pub set_image_size : ℕ → ℕ → Renderer S → Renderer S
  set_image_size w h = when_vray (call api (Event.set_image_size w h))

  unfoldable pub commit : Renderer S → Renderer S
  commit = when_vray (call api commit_scene)

  unfoldable pub set_camera : S.Plugin → Renderer S → Renderer S
  set_camera camera = when_vray (call api (Event.set_camera camera))

  -- The scene is exported, whether it is allowed and there is a renderer; the result of the call,
  -- or 0.
  unfoldable pub export_scene : QString → Renderer S → Renderer S × ℕ
  export_scene path r =
      if api.is_indie then (write Message.export_not_allowed r, 0) else elim r.vray [
        | none ↦ (r, 0)
        | some v ↦
            let r' = call api (save_scene path) (write (Message.starting_export path) r) in
            (if r'.last_error then write Message.exporting_scene r' else r', api.export_result)
      ]

  unfoldable pub start_render : Bool → Renderer S → Renderer S × ℕ
  start_render locked r = elim r.vray [
    | none ↦ (r, 1)
    | some v ↦
        let r' = call api start_sync (write Message.starting_render r) in
        (if locked then call api wait_for_render_end r' else r', 0)
  ]

  unfoldable pub stop_render : Renderer S → Renderer S
  stop_render = when_vray (call api stop)

  unfoldable pub is_rendering : Renderer S → Bool
  is_rendering r = elim r.vray [
    | none ↦ false
    | some v ↦ leb api.preparing api.state && leb api.state api.rendering_paused
  ]

  unfoldable pub set_animation : Bool → Renderer S → Renderer S
  set_animation on r = record r { is_animation = on }

  unfoldable pub set_current_time : S.Real → Renderer S → Renderer S
  set_current_time frame = when_vray (call api (Event.set_current_time frame))

  unfoldable pub clear_frames : S.Real → Renderer S → Renderer S
  clear_frames to_time = when_vray (call api (Event.clear_up_to to_time))
