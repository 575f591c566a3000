-- ===== src/Vop/Osl/Inputs.antt =====
-- The inputs of an OSL node are the parameters that name plugins.
use mathlib.Core.Option.{some-injective}
use vray_for_houdini.Base.{
  sym, ◌≡◌, refl, Bool, true, false, not, List, [], ◌∷◌, ◌++◌, some, arith, if◌then◌else◌, ◌>>=◌,
  All, Bool-cases, inl, inr, bind_some, if_some,
}
use vray_for_houdini.Qt.Text.{QString}
use vray_for_houdini.Vop.Sockets.{VopType, undef, text}
use vray_for_houdini.Vop.Osl.Query.{Parameter, Widget, parse_metadata}
use vray_for_houdini.Vop.Osl.Node.{
  ParamInfo, OslNode, is_undef, is_input, vec_info, start_info, finish_info, with_input, add_output,
  add_input, add_parameter, add_parameters,
}
use vray_for_houdini.Vop.Osl.Kinds.{has_param, info_lem}
use vray_for_houdini.Vop.Osl.Update.{names_input}

undef_names : (k : VopType) (w : Widget) → is_undef k ≡ true → names_input k w ≡ false
undef_names undef w h = refl
undef_names text w h = cc
undef_names t w h = cc

module _ {F : Type 0} where
  -- The names of the parameters that name plugins.
  abbrev pub inputs_of : List (ParamInfo F) → List QString
  inputs_of [] = []
  inputs_of (p ∷ ps) = if names_input p.kind p.widget then p.name ∷ inputs_of ps else inputs_of ps

  abbrev pub IsTyped : ParamInfo F → Type 0
  IsTyped p = has_param p.kind ≡ true

  inputs_of-append :
      (xs ys : List (ParamInfo F)) → inputs_of (xs ++ ys) ≡ inputs_of xs ++ inputs_of ys
  inputs_of-append [] ys = refl
  inputs_of-append (p ∷ xs) ys = ground (arith, inputs_of-append xs ys)

  add_input_lem :
      (z : F) (p : Parameter F) (n n' : OslNode F)
      → add_input z p n ≡ some n'
      → (info : ParamInfo F) × (names_input info.kind info.widget ≡ is_input p info)
        × (info.name ≡ p.name)
        × (is_undef info.kind ≡ not (has_param info.kind))
        × (n' ≡ with_input p info n)
  unfolding add_input
  add_input_lem z p n n' h =
      let step1 =
        bind_some (parse_metadata p)
          (λ w. do
            i ← vec_info p (start_info z p w)
            info ← finish_info p i
            some (with_input p info n))
          h in
      let step2 =
        bind_some (vec_info p (start_info z p step1.0))
          (λ i. do info ← finish_info p i; some (with_input p info n)) step1.2 in
      let step3 = bind_some (finish_info p step2.0) (λ info. some (with_input p info n)) step2.2 in
      let about = info_lem z p step1.0 step2.0 step3.0 step2.1 step3.1 in
      (step3.0, about.0, about.1, about.2, let e = step3.2 in cc)

  All-append :
      (P : ParamInfo F → Type 0) (xs ys : List (ParamInfo F))
      → All P xs
      → All P ys
      → All P (xs ++ ys)
  All-append P [] ys h k = k
  All-append P (x ∷ xs) ys h k = (h.0, All-append P xs ys h.1 k)

  new_inputs :
      (info : ParamInfo F) (b : Bool) (name : QString)
      → names_input info.kind info.widget ≡ b
      → info.name ≡ name
      → (if b then name ∷ [] else []) ≡ inputs_of (if is_undef info.kind then [] else info ∷ [])
  new_inputs info b name e same = elim (Bool-cases (is_undef info.kind)) [
    | inl u ↦ let none_named = undef_names info.kind info.widget u in rw (u, sym e, none_named) refl
    | inr d ↦ rw (d, sym e, sym same) refl
  ]

  kept-IsTyped :
      (info : ParamInfo F) (b : Bool)
      → b ≡ not (has_param info.kind)
      → All IsTyped (if b then [] else info ∷ [])
  kept-IsTyped info true h = tt
  kept-IsTyped info false h = (ground arith, tt)

  with_input_lem :
      (p : Parameter F) (info : ParamInfo F) (n : OslNode F)
      → names_input info.kind info.widget ≡ is_input p info
      → info.name ≡ p.name
      → is_undef info.kind ≡ not (has_param info.kind)
      → n.input_list ≡ inputs_of n.param_list
      → All IsTyped n.param_list
      → ((with_input p info n).input_list ≡ inputs_of (with_input p info n).param_list)
        × All IsTyped (with_input p info n).param_list
  with_input_lem p info n e same kept h typed =
      let new = if is_undef info.kind then [] else info ∷ [] in
      (
        rw (inputs_of-append n.param_list new, h, new_inputs info (is_input p info) p.name e same)
            refl,
        All-append IsTyped n.param_list new typed (kept-IsTyped info (is_undef info.kind) kept),
      )

  abbrev pub HasInputs : OslNode F → Type 0
  HasInputs n = (n.input_list ≡ inputs_of n.param_list) × All IsTyped n.param_list

  add_output-HasInputs :
      (mtl : Bool) (p : Parameter F) (n : OslNode F) → HasInputs n → HasInputs (add_output mtl p n)
  unfolding add_output
  add_output-HasInputs mtl p n h = ground arith

  add_parameter-HasInputs :
      (z : F) (mtl : Bool) (p : Parameter F) (n n' : OslNode F)
      → HasInputs n
      → add_parameter z mtl p n ≡ some n'
      → HasInputs n'
  unfolding add_parameter
  add_parameter-HasInputs z mtl p n n' h k = elim (if_some p.is_output k) [
    | inl out ↦
        let step = bind_some (parse_metadata p) (λ w. some (add_output mtl p n)) out.1 in
        rw (some-injective (add_output mtl p n) n' step.2) at (add_output-HasInputs mtl p n h)
    | inr inside ↦
        let added = add_input_lem z p n n' inside.1 in
        rw (added.4) (with_input_lem p added.0 n added.1 added.2 added.3 h.0 h.1)
  ]

  pub add_parameters-HasInputs :
      (z : F) (mtl : Bool) (ps : List (Parameter F)) (n n' : OslNode F)
      → HasInputs n
      → add_parameters z mtl ps n ≡ some n'
      → HasInputs n'
  unfolding add_parameters
  add_parameters-HasInputs z mtl [] n n' h k = rw (some-injective n n' k) at h
  add_parameters-HasInputs z mtl (p ∷ ps) n n' h k =
      let step = bind_some (add_parameter z mtl p n) (λ next. add_parameters z mtl ps next) k in
      add_parameters-HasInputs z mtl ps step.0 n'
        (add_parameter-HasInputs z mtl p n step.0 h step.1) step.2
