-- ===== src/Exporter/PluginCalls.antt =====
-- What `exportPlugin` calls.
use vray_for_houdini.Base.{
  ◌≡◌, refl, ◌∙◌, ap, false, List, [], ◌∷◌, ◌++◌, append_assoc, append-nil, Option, none, some,
  if◌then◌else◌, arith,
}
use vray_for_houdini.Qt.Text.{QString, is_empty}
use vray_for_houdini.Attrs.Sdk.{Sdk}
use vray_for_houdini.Attrs.Desc.{PluginDesc}
use vray_for_houdini.Exporter.Calls.{Appends, all_calls, export_plugin_properties_lem}
use vray_for_houdini.Exporter.Plugins.{is_cpu, fill_plugin, export_plugin, warn_support}
use vray_for_houdini.Exporter.State.{
  RenderMode, Event, Api, Renderer, Message, GpuSupport, log, get_or_create, call,
}

module _ {S : Sdk} (api : Api S) where
  -- The warning about a plugin in a GPU mode.
  abbrev pub support_logs : GpuSupport → QString → List (Event S)
  support_logs GpuSupport.full name = []
  support_logs GpuSupport.partial name = log (Message.partial_support name) ∷ []
  support_logs GpuSupport.unsupported name = log (Message.no_support name) ∷ []

  abbrev pub gpu_logs : RenderMode → GpuSupport → QString → List (Event S)
  gpu_logs mode support name = if is_cpu mode then [] else support_logs support name

  -- What `exportPlugin` does past `getOrCreatePlugin`.
  abbrev pub fill_calls : Renderer S → PluginDesc S → Option S.Plugin → List (Event S)
  fill_calls r d none =
      if api.failed (get_or_create d.plugin_name d.plugin_id)
      then log Message.creating_plugin ∷ []
      else []
  fill_calls r d (some plugin) =
      gpu_logs r.mode (api.gpu_support plugin) d.plugin_name
      ++ all_calls api r.is_animation plugin d.plugin_id d.plugin_attrs

  abbrev pub export_calls : Renderer S → PluginDesc S → List (Event S)
  export_calls r d = elim r.vray [
    | none ↦ []
    | some v ↦
        if is_empty d.plugin_id
        then log (Message.id_not_set d.plugin_name) ∷ []
        else get_or_create d.plugin_name d.plugin_id
          ∷ fill_calls r d (api.found d.plugin_name d.plugin_id)
  ]

  warn_lem :
      (support : GpuSupport) (name : QString) (r : Renderer S)
      → r.use_animated ≡ false
      → Appends
          (gpu_logs r.mode support name)
          r
          (if is_cpu r.mode then r else warn_support api support name r)
  warn_lem GpuSupport.full name r h = ground (arith, append-nil r.trace)
  warn_lem GpuSupport.partial name r h = ground (arith, append-nil r.trace)
  warn_lem GpuSupport.unsupported name r h = ground (arith, append-nil r.trace)

  fill_plugin_lem :
      (o : Option S.Plugin) (d : PluginDesc S) (r q : Renderer S)
      → r.use_animated ≡ false
      → q.last_error ≡ api.failed (get_or_create d.plugin_name d.plugin_id)
      → q.mode ≡ r.mode
      → q.is_animation ≡ r.is_animation
      → q.use_animated ≡ r.use_animated
      → (fill_plugin api o d q).trace ≡ q.trace ++ fill_calls r d o
  unfolding fill_plugin
  fill_plugin_lem none d r q h error mode animation animated = ground (arith, append-nil q.trace)
  fill_plugin_lem (some plugin) d r q h error mode animation animated =
      let support = api.gpu_support plugin in
      let first = warn_lem support d.plugin_name q (animated ∙ h) in
      let q' = if is_cpu q.mode then q else warn_support api support d.plugin_name q in
      let rest = export_plugin_properties_lem api plugin d q' first.use_animated in
      rest.trace
      ∙ joined q.trace (gpu_logs r.mode support d.plugin_name)
          (all_calls api r.is_animation plugin d.plugin_id d.plugin_attrs)
          (first.trace ∙ ap (λ m. q.trace ++ gpu_logs m support d.plugin_name) mode)
          (ap (λ b. all_calls api b plugin d.plugin_id d.plugin_attrs)
            (first.is_animation ∙ animation))
    where
      joined :
          (xs ys zs : List (Event S)) {t zs' : List (Event S)}
          → t ≡ xs ++ ys
          → zs' ≡ zs
          → t ++ zs' ≡ xs ++ (ys ++ zs)
      joined xs ys zs h hz = simp (h, hz, append_assoc)

  -- While animated values are off, `exportPlugin` makes these calls, on every branch, and returns a plugin exactly if there is a
  -- renderer, the description has an id and the AppSDK has a plugin for it: nothing without a
  -- renderer; a message for a description with no id; otherwise `getOrCreatePlugin`, and then an
  -- error message, or for a GPU mode the warning that the plugin's support calls for and the calls
  -- of all attributes.
  pub export_plugin_lem :
      (d : PluginDesc S) (r : Renderer S)
      → r.use_animated ≡ false
      → ((export_plugin api d r).0.trace ≡ r.trace ++ export_calls r d)
        × ((export_plugin api d r).1 ≡ (elim r.vray [
          | none ↦ none
          | some v ↦ if is_empty d.plugin_id then none else api.found d.plugin_name d.plugin_id
        ]))
  unfolding export_plugin
  export_plugin_lem d r h =
      let e = get_or_create d.plugin_name d.plugin_id in
      let filled =
        fill_plugin_lem (api.found d.plugin_name d.plugin_id) d r (call api e r) h refl refl refl
          refl in
      (
        ground (
          arith,
          filled,
          append-nil r.trace,
          append_assoc r.trace (e ∷ []) (fill_calls r d (api.found d.plugin_name d.plugin_id)),
        ),
        ground arith,
      )
