-- ===== src/Tests/Attrs.antt =====
-- Attributes of a sample description.
use vray_for_houdini.Base.{◌≡◌, true, false, List, [], ◌∷◌, none, some, foldl}
use vray_for_houdini.Qt.Text.{lit}
use vray_for_houdini.Qt.Ordered.{IsOrdered}
use vray_for_houdini.Attrs.Attr.{Arg, q_ints, an_int, plugin_attr}
use vray_for_houdini.Attrs.Desc.{plugin_desc, get, contains}
use vray_for_houdini.Attrs.Edits.{
  Edit, adding_arg, ignoring, removing, edit, overwrite, get-edits, plugin_desc-IsOrdered,
}
use vray_for_houdini.Exporter.Setting.{int_list, setting}
use vray_for_houdini.Exporter.Coherence.{setting-plugin_attr}
use vray_for_houdini.Tests.Sample.{sdk, desc}

abbrev some_ints : Arg sdk
some_ints = q_ints (4 ∷ 5 ∷ []) 1

setting-plugin_attr_example :
    setting sdk
      (plugin_attr sdk (lit "ids") some_ints).param_type
      (plugin_attr sdk (lit "ids") some_ints).param_value
    ≡ some (int_list (4 ∷ 5 ∷ []))
setting-plugin_attr_example = setting-plugin_attr sdk (lit "ids") some_ints tt

-- Three edits of two names.
abbrev edits : List (Edit sdk)
edits =
    adding_arg (lit "subdivs") (an_int 3 0)
    ∷ adding_arg (lit "gain") (an_int 4 0)
    ∷ ignoring (lit "subdivs")
    ∷ removing (lit "gain")
    ∷ []

get-edits_example :
    let d' = foldl (edit sdk) desc edits in
    (get sdk d' (lit "gain") ≡ foldl (overwrite sdk (lit "gain")) (get sdk desc (lit "gain")) edits)
    × (contains sdk d' (lit "gain")
        ≡ (elim (get sdk d' (lit "gain")) [ none ↦ false | some p ↦ true ]))
    × (d'.plugin_name ≡ desc.plugin_name)
    × (d'.plugin_id ≡ desc.plugin_id)
get-edits_example = get-edits sdk desc edits (lit "gain")

plugin_desc-IsOrdered_example :
    IsOrdered
      (foldl (edit sdk) (plugin_desc sdk (lit "mtl") (lit "BRDFVRayMtl")) edits).plugin_attrs
plugin_desc-IsOrdered_example = plugin_desc-IsOrdered sdk (lit "mtl") (lit "BRDFVRayMtl") edits
