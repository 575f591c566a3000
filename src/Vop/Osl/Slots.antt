-- ===== src/Vop/Osl/Slots.antt =====
-- The inputs and outputs of an OSL node: those of its plugin, then those of its code. The node is as
-- `updateParamsIfNeeded` leaves it, which each of these calls first.
use vray_for_houdini.Base.{
  ℕ, suc, ◌+◌, ◌-◌, Bool, List, [], ◌∷◌, Option, none, some, ltb, if◌then◌else◌, length, get_elem?,
}
use vray_for_houdini.Qt.Text.{QString, lit, same_text, is_empty}
use vray_for_houdini.Vop.Sockets.{
  VopType, color, bsdf, PluginInfo, socket_from_name, label_at, type_at, ordered_inputs,
  max_outputs, get_allowed_input_types,
}
use vray_for_houdini.Vop.Osl.Node.{OslNode}

-- `for (c = 0; c < m_inputList.size(); c++) if (in.equal(m_inputList[c])) return c + base;`
unfoldable pub index_of_name : QString → List QString → ℕ → Option ℕ
unfolding same_text
index_of_name name [] i = none
index_of_name name (s ∷ names) i =
    let rest = index_of_name name names (suc i) in if same_text name s then some i else rest

module _ {F : Type 0} (info : PluginInfo) where
  -- `orderedInputs` and `getNumVisibleInputs`
  abbrev pub osl_inputs : OslNode F → ℕ
  osl_inputs n = ordered_inputs info + length n.input_list

  -- `maxOutputs` and `getNumVisibleOutputs`
  abbrev pub osl_outputs : OslNode F → ℕ
  osl_outputs n = max_outputs info + (if is_empty n.output_name then 0 else 1)

  -- The label, `UNDEFINED` past the end.
  unfoldable pub input_label : ℕ → OslNode F → Option QString
  input_label idx n =
      let own = elim (get_elem? n.input_list (idx - ordered_inputs info)) as (λ o. QString) [
        | none ↦ lit "UNDEFINED"
        | some name ↦ name
      ] in
      if ltb idx (ordered_inputs info) then label_at info.inputs idx else some own

  -- The name of an input: `none` where the caller's text is left as it is.
  unfoldable pub get_input_name : ℕ → OslNode F → Option QString
  unfolding input_label
  get_input_name idx n =
      let own = input_label idx n in
      if ltb idx (ordered_inputs info) then label_at info.inputs idx else own

  unfoldable pub get_input_from_name : QString → OslNode F → Option ℕ
  unfolding index_of_name socket_from_name
  get_input_from_name name n = elim (index_of_name name n.input_list 0) [
    | none ↦ socket_from_name name info.inputs 0
    | some c ↦ some (c + ordered_inputs info)
  ]

  -- The label of an output that is the plugin's is the one of its input.
  unfoldable pub output_label : ℕ → OslNode F → Option QString
  output_label idx n =
      let own = if is_empty n.output_name then lit "UNDEFINED" else n.output_name in
      if ltb idx (max_outputs info) then label_at info.inputs idx else some own

  unfoldable pub get_output_name : ℕ → OslNode F → Option QString
  get_output_name idx n =
      let own = if is_empty n.output_name then none else some n.output_name in
      if ltb idx (max_outputs info) then label_at info.outputs idx else own

  unfoldable pub get_output_from_name : QString → OslNode F → Option ℕ
  unfolding same_text socket_from_name
  get_output_from_name name n =
      let base = socket_from_name name info.outputs 0 in
      if same_text name n.output_name then some (osl_outputs n) else base

  unfoldable pub get_input_type : ℕ → OslNode F → Option VopType
  get_input_type idx n =
      if ltb idx (ordered_inputs info) then type_at info.inputs idx else some color

  -- `mtl` is the node's template parameter, which `getOutputType` reads.
  unfoldable pub get_output_type : Bool → ℕ → OslNode F → Option VopType
  get_output_type mtl idx n =
      let kind = if mtl then bsdf else color in
      let own = if is_empty n.output_name then none else some kind in
      if ltb idx (max_outputs info) then type_at info.outputs idx else own

  unfoldable pub get_allowed_types : ℕ → OslNode F → List VopType
  unfolding get_input_type get_allowed_input_types
  get_allowed_types idx n =
      let own = elim (get_input_type idx n) as (λ o. List VopType) [
        | none ↦ []
        | some t ↦ t ∷ []
      ] in
      if ltb idx (ordered_inputs info) then get_allowed_input_types info idx else own
