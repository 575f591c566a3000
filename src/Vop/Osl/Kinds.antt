-- ===== src/Vop/Osl/Kinds.antt =====
-- The types of the parameters that the query gives.

use vray_for_houdini.Base.{
  ◌≡◌, refl, ap, ◌∙◌, Bool, true, false, not, ◌&&◌, List, [], ◌∷◌, some, arith, if◌then◌else◌,
  ◌>>=◌,
}
use vray_for_houdini.Qt.Text.{QString}
use vray_for_houdini.Vop.Sockets.{
  VopType, undef, integer, float, text, bsdf, surface_shader, matrix3, matrix4,
}
use vray_for_houdini.Vop.Osl.Query.{
  VecSemantics, as_color, as_point, as_vector, as_normal, no_semantics, BaseType, int_type,
  float_type, string_type, other_type, Parameter, Widget, Widgets,
}
use vray_for_houdini.Vop.Osl.Node.{
  ParamInfo, vec_type, is_undef, is_string_widget, is_input, vec_info, three_from, with_number,
  with_text, scalar_info, start_info, finish_info,
}
use vray_for_houdini.Vop.Osl.Update.{names_input}

-- A scalar's type is the one of its base type.
pub scalar_kind : BaseType → VopType → VopType
scalar_kind int_type old = integer
scalar_kind float_type old = float
scalar_kind string_type old = text
scalar_kind other_type old = old

kinds_lem :
    (b : BaseType) (v : VecSemantics) (w : Widget) (scalar : Bool)
    → names_input (if scalar then scalar_kind b (vec_type v) else vec_type v) w
      ≡ (elim b [ string_type ↦ scalar && not (is_string_widget w) | _ ↦ false ])
unfolding scalar_kind
kinds_lem int_type v w true = refl
kinds_lem float_type v w true = refl
kinds_lem string_type v w true = refl
kinds_lem other_type as_color w true = refl
kinds_lem other_type as_point w true = refl
kinds_lem other_type as_vector w true = refl
kinds_lem other_type as_normal w true = refl
kinds_lem other_type no_semantics w true = refl
kinds_lem b as_color w false = ground arith
kinds_lem b as_point w false = ground arith
kinds_lem b as_vector w false = ground arith
kinds_lem b as_normal w false = ground arith
kinds_lem b no_semantics w false = ground arith

-- The types that an OSL parameter can have.
abbrev pub has_param : VopType → Bool
has_param undef = false
has_param bsdf = false
has_param surface_shader = false
has_param matrix3 = false
has_param matrix4 = false
has_param t = true

has_param_lem :
    (b : BaseType) (v : VecSemantics) (scalar : Bool)
    → let k = if scalar then scalar_kind b (vec_type v) else vec_type v in
      is_undef k ≡ not (has_param k)
unfolding scalar_kind
has_param_lem int_type v true = refl
has_param_lem float_type v true = refl
has_param_lem string_type v true = refl
has_param_lem other_type as_color true = refl
has_param_lem other_type as_point true = refl
has_param_lem other_type as_vector true = refl
has_param_lem other_type as_normal true = refl
has_param_lem other_type no_semantics true = refl
has_param_lem b as_color false = refl
has_param_lem b as_point false = refl
has_param_lem b as_vector false = refl
has_param_lem b as_normal false = refl
has_param_lem b no_semantics false = refl

module _ {F : Type 0} where
  three_from_lem :
      (list : List F) (i j : ParamInfo F) (kind : VopType)
      → (do numbers ← three_from list; some (record i { kind = kind; number_default = numbers }))
        ≡ some j
      → (j.kind ≡ kind) × (j.widget ≡ i.widget) × (j.name ≡ i.name)
  three_from_lem (a ∷ b ∷ c ∷ rest) i j kind h = ground arith
  three_from_lem (a ∷ b ∷ []) i j kind h = cc
  three_from_lem (a ∷ []) i j kind h = cc
  three_from_lem [] i j kind h = cc

  vec_info_lem :
      (p : Parameter F) (i j : ParamInfo F)
      → vec_info p i ≡ some j
      → (j.kind ≡ vec_type p.vecsemantics) × (j.widget ≡ i.widget) × (j.name ≡ i.name)
  unfolding vec_info
  vec_info_lem p i j h = ground (arith, three_from_lem p.fdefault i j (vec_type p.vecsemantics))

  with_number_lem :
      (list : List F) (kind : VopType) (valid : Bool) (i j : ParamInfo F)
      → with_number kind valid list i ≡ some j
      → (j.kind ≡ kind) × (j.widget ≡ i.widget) × (j.name ≡ i.name)
  with_number_lem (a ∷ rest) kind valid i j h = ground arith
  with_number_lem [] kind valid i j h = ground arith

  with_text_lem :
      (list : List QString) (valid : Bool) (i j : ParamInfo F)
      → with_text valid list i ≡ some j
      → (j.kind ≡ text) × (j.widget ≡ i.widget) × (j.name ≡ i.name)
  with_text_lem (a ∷ rest) valid i j h = ground arith
  with_text_lem [] valid i j h = ground arith

  scalar_info_lem :
      (b : BaseType) (p : Parameter F) (i j : ParamInfo F)
      → scalar_info b p i ≡ some j
      → (j.kind ≡ scalar_kind b i.kind) × (j.widget ≡ i.widget) × (j.name ≡ i.name)
  unfolding scalar_kind
  scalar_info_lem int_type p i j h = with_number_lem p.idefault integer p.valid_default i j h
  scalar_info_lem float_type p i j h = with_number_lem p.fdefault float p.valid_default i j h
  scalar_info_lem string_type p i j h = with_text_lem p.sdefault p.valid_default i j h
  scalar_info_lem other_type p i j h = ground arith

  finish_info_lem :
      (p : Parameter F) (i info : ParamInfo F)
      → i.kind ≡ vec_type p.vecsemantics
      → finish_info p i ≡ some info
      → (info.kind ≡ (
          if p.is_scalar
          then scalar_kind p.basetype (vec_type p.vecsemantics)
          else vec_type p.vecsemantics))
        × (info.name ≡ i.name)
  unfolding finish_info
  finish_info_lem p i info e h = ground (arith, scalar_info_lem p.basetype p i info)

  pub info_lem :
      (z : F) (p : Parameter F) (w : Widgets) (i info : ParamInfo F)
      → vec_info p (start_info z p w) ≡ some i
      → finish_info p i ≡ some info
      → (names_input info.kind info.widget ≡ is_input p info)
        × (info.name ≡ p.name)
        × (is_undef info.kind ≡ not (has_param info.kind))
  info_lem z p w i info h k =
      let first = vec_info_lem p (start_info z p w) i h in
      let last = finish_info_lem p i info first.0 k in
      (
        ap (λ t. names_input t info.widget) last.0
            ∙ kinds_lem p.basetype p.vecsemantics info.widget p.is_scalar,
        last.1 ∙ first.2,
        rw (last.0) (has_param_lem p.basetype p.vecsemantics p.is_scalar),
      )
