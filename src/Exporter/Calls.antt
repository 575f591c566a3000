-- ===== src/Exporter/Calls.antt =====
-- What `exportPluginProperties` calls, attribute by attribute.
use vray_for_houdini.Base.{
  ◌≡◌, refl, subst, Bool, true, false, not, ◌&&◌, List, [], ◌∷◌, ◌++◌, append-nil, append_assoc,
  Option, none, some, arith, ◌==◌, if◌then◌else◌, inl, inr, Bool-cases,
}
use vray_for_houdini.Qt.Text.{QString}
use vray_for_houdini.Qt.Map.{QMap}
use vray_for_houdini.Attrs.Sdk.{Sdk}
use vray_for_houdini.Attrs.Value.{AttrType, AttrValue}
use vray_for_houdini.Attrs.Attr.{PluginAttr}
use vray_for_houdini.Attrs.Desc.{PluginDesc}
use vray_for_houdini.Exporter.Setting.{Setting, setting, value_list}
use vray_for_houdini.Exporter.State.{Event, set_value, log, setting_parameter, Api, Renderer}
use vray_for_houdini.Exporter.Properties.{
  is_ignored, set_setting, export_value, export_attr, export_attrs, export_plugin_properties,
}

-- Nothing but the trace and the last error has changed.
pub record Appends {S : Sdk} (es : List (Event S)) (r r' : Renderer S) : Type 0 where
  pub trace : r'.trace ≡ r.trace ++ es
  pub use_animated : r'.use_animated ≡ false
  pub vray : r'.vray ≡ r.vray
  pub pool : r'.pool ≡ r.pool
  pub devices : r'.devices ≡ r.devices
  pub variables : r'.variables ≡ r.variables
  pub enable_vfb : r'.enable_vfb ≡ r.enable_vfb
  pub is_animation : r'.is_animation ≡ r.is_animation
  pub mode : r'.mode ≡ r.mode

module _ {S : Sdk} (api : Api S) where
  -- Whether a value is set as an animated one.
  abbrev pub animated : Bool → AttrValue S → Setting S → Bool
  animated is_animation v (value_list l) = is_animation && not (v.is_animated == 0)
  animated is_animation v value = is_animation

  -- The calls for one value.
  abbrev pub value_calls :
      Bool → S.Plugin → QString → QString → AttrValue S → Option (Setting S) → List (Event S)
  value_calls is_animation plugin id name v none = []
  value_calls is_animation plugin id name v (some value) =
      let e = set_value plugin name value (animated is_animation v value) in
      e
      ∷ (if api.accepts e
          then []
          else if api.failed e
          then log (setting_parameter id name) ∷ []
          else [])

  abbrev pub calls : Bool → S.Plugin → QString → PluginAttr S → List (Event S)
  calls is_animation plugin id p =
      value_calls is_animation plugin id p.param_name p.param_value
        (setting S p.param_type p.param_value)

  abbrev pub all_calls : Bool → S.Plugin → QString → QMap QString (PluginAttr S) → List (Event S)
  all_calls is_animation plugin id [] = []
  all_calls is_animation plugin id ((_, p) ∷ attrs) =
      calls is_animation plugin id p ++ all_calls is_animation plugin id attrs

  set_setting_lem :
      (plugin : S.Plugin) (name : QString) (v : AttrValue S) (value : Setting S) (r : Renderer S)
      → let e = set_value plugin name value (animated r.use_animated v value) in
        set_setting api plugin name v value r
        ≡ (record r { last_error = api.failed e; trace = r.trace ++ e ∷ [] }, api.accepts e)
  unfolding set_setting
  set_setting_lem plugin name v (value_list l) r = ground arith
  set_setting_lem plugin name v _ r = refl

  export_value_lem :
      (plugin : S.Plugin) (id name : QString) (v : AttrValue S) (o : Option (Setting S))
      (r : Renderer S)
      → Appends
          (value_calls r.is_animation plugin id name v o)
          r
          (export_value api plugin id name v o r)
  unfolding export_value
  export_value_lem plugin id name v none r = ground (arith, append-nil r.trace)
  export_value_lem plugin id name v (some value) r =
      let e = set_value plugin name value (animated r.is_animation v value) in
      ground (
        arith,
        set_setting_lem plugin name v value (record r { use_animated = r.is_animation }),
        append_assoc r.trace (e ∷ []) (log (setting_parameter id name) ∷ []),
      )

  Appends-trans :
      (es fs : List (Event S)) {r r' r'' : Renderer S}
      → Appends es r r'
      → Appends fs r' r''
      → Appends (es ++ fs) r r''
  Appends-trans es fs {r} a b = ground (arith, append_assoc r.trace es fs)

  setting-ignored :
      (type : AttrType) (v : AttrValue S) → is_ignored type ≡ true → setting S type v ≡ none
  unfolding setting
  setting-ignored AttrType.ignore v h = refl
  setting-ignored _ v h = cc

  export_attr_lem :
      (plugin : S.Plugin) (id : QString) (p : PluginAttr S) (r : Renderer S)
      → r.use_animated ≡ false
      → Appends (calls r.is_animation plugin id p) r (export_attr api plugin id p r)
  unfolding export_attr
  export_attr_lem plugin id p r h = elim (Bool-cases (is_ignored p.param_type)) [
    | inl e ↦
        rw (e, setting-ignored p.param_type p.param_value e) (ground (arith, append-nil r.trace))
    | inr e ↦ rw e (export_value_lem plugin id p.param_name p.param_value _ r)
  ]

  export_attrs_lem :
      (plugin : S.Plugin) (id : QString) (attrs : QMap QString (PluginAttr S)) (r : Renderer S)
      → r.use_animated ≡ false
      → Appends (all_calls r.is_animation plugin id attrs) r (export_attrs api plugin id attrs r)
  unfolding export_attrs
  export_attrs_lem plugin id [] r h = ground (arith, append-nil r.trace)
  export_attrs_lem plugin id ((_, p) ∷ attrs) r h =
      let first = export_attr_lem plugin id p r h in
      let r' = export_attr api plugin id p r in
      let rest = export_attrs_lem plugin id attrs r' first.use_animated in
      Appends-trans _ _ first (
        subst (λ b. Appends (all_calls b plugin id attrs) r' (export_attrs api plugin id attrs r'))
          first.is_animation rest)

  -- `exportPluginProperties` sets the attributes in the order of their names, each once by the
  -- overload of its type, ignored ones not at all. A value is set as an animated one exactly if
  -- animation is on and, for a generic list, the attribute is animated too. A failed call is
  -- logged and does not stop the loop. Animated values, which are off before, are off afterwards.
  pub export_plugin_properties_lem :
      (plugin : S.Plugin) (d : PluginDesc S) (r : Renderer S)
      → r.use_animated ≡ false
      → Appends
          (all_calls r.is_animation plugin d.plugin_id d.plugin_attrs)
          r
          (export_plugin_properties api plugin d r)
  unfolding export_plugin_properties
  export_plugin_properties_lem plugin d r h = export_attrs_lem plugin d.plugin_id d.plugin_attrs r h
