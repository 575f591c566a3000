-- ===== src/Vop/Osl/Updated.antt =====
-- What an update leaves: the inputs belong to the parameters, and a second update changes nothing.
use mathlib.Core.Option.{some-injective}
use vray_for_houdini.Base.{
  ◌≡◌, refl, ap, sym, Bool, true, false, List, [], ◌∷◌, ◌++◌, ◌==◌, Option, none, some, arith,
  ◌>>=◌, inl, inr, bind_some, if_some, ==_iff,
}
use vray_for_houdini.Qt.Text.{QString, is_empty}
use vray_for_houdini.Vop.Osl.Query.{Parameter}
use vray_for_houdini.Vop.Osl.Node.{OslNode, add_parameters}
use vray_for_houdini.Vop.Osl.Update.{
  Shading, ParmEvent, add_or_remove_instance, remove_items, build_params, cleared, default_output,
  query_code, update_params_if_needed,
}
use vray_for_houdini.Vop.Osl.Inputs.{HasInputs, add_parameters-HasInputs}

module _ {F : Type 0} (x : Shading F) (code : QString) (need_compile : Bool) where
  -- The four ways of an update.
  data Way (n n' : OslNode F) : Type 0 where
    no_code : is_empty code ≡ true → n' ≡ record n { code_hash = 0 } → Way n n'
    same_code : is_empty code ≡ false → n' ≡ n → (x.hash code == n'.code_hash) ≡ true → Way n n'
    no_query : query_code x code need_compile ≡ none → n' ≡ cleared n → Way n n'
    queried :
        (params : List (Parameter F)) (read : OslNode F)
        → is_empty code ≡ false
        → add_parameters x.zero_number x.is_material params (cleared n) ≡ some read
        → n' ≡ record (default_output x.is_material read) { code_hash = x.hash code }
        → Way n n'

  abbrev finished : OslNode F → OslNode F × List (ParmEvent F)
  finished read =
      let node = default_output x.is_material read in
      (
        record node { code_hash = x.hash code },
        remove_items 100 0 ++ build_params 1 node.param_list ++ add_or_remove_instance ∷ [],
      )

  by_query :
      (n n' : OslNode F) (events : List (ParmEvent F)) (q : Option (List (Parameter F)))
      → is_empty code ≡ false
      → query_code x code need_compile ≡ q
      → elim q as (λ o. Option (OslNode F × List (ParmEvent F))) [
        | none ↦ some (cleared n, [])
        | some params ↦ do
          read ← add_parameters x.zero_number x.is_material params (cleared n)
          some (finished read)
      ]
        ≡ some (n', events)
      → Way n n'
  by_query n n' events none some_code e h =
      no_query e (sym (ap (λ p. p.0) (some-injective (cleared n, []) (n', events) h)))
  by_query n n' events (some params) some_code e h =
      let step =
        bind_some (add_parameters x.zero_number x.is_material params (cleared n))
          (λ read. some (finished read)) h in
      queried params step.0 some_code step.1
        (sym (ap (λ p. p.0) (some-injective (finished step.0) (n', events) step.2)))

  way :
      (n n' : OslNode F) (events : List (ParmEvent F))
      → update_params_if_needed x code need_compile n ≡ some (n', events)
      → Way n n'
  unfolding update_params_if_needed
  way n n' events h = elim (if_some (is_empty code) h) [
    | inl empty ↦
        no_code empty.0 (
          sym
            (ap (λ p. p.0) (some-injective (record n { code_hash = 0 }, []) (n', events) empty.1)))
    | inr some_code ↦ elim (if_some (x.hash code == n.code_hash) some_code.1) [
      | inl same ↦
          let kept = sym (ap (λ p. p.0) (some-injective (n, []) (n', events) same.1)) in
          same_code some_code.0 kept (rw kept same.0)
      | inr changed ↦
          by_query n n' events (query_code x code need_compile) some_code.0 refl changed.1
    ]
  ]

  default_output-HasInputs :
      (mtl : Bool) (n : OslNode F) → HasInputs n → HasInputs (default_output mtl n)
  default_output-HasInputs mtl n h = ground arith

  Way-HasInputs : (n n' : OslNode F) → HasInputs n → Way n n' → HasInputs n'
  unfolding cleared
  Way-HasInputs n n' h (no_code e same) = rw same h
  Way-HasInputs n n' h (same_code c same e) = rw same h
  Way-HasInputs n n' h (no_query e same) = rw same (refl, tt)
  Way-HasInputs n n' h (queried params read c e same) = rw same (
      default_output-HasInputs x.is_material read
        (add_parameters-HasInputs x.zero_number x.is_material params (cleared n) read (refl, tt) e))

  -- Where the inputs of an OSL node are its parameters that name plugins, and each parameter has a type
  -- that a multi-parameter shows, this is so after an update that reads no default past the end of its
  -- list, whether the code is empty, unchanged, refused or queried anew.
  pub update_params_if_needed-HasInputs :
      (n n' : OslNode F) (events : List (ParmEvent F))
      → HasInputs n
      → update_params_if_needed x code need_compile n ≡ some (n', events)
      → HasInputs n'
  update_params_if_needed-HasInputs n n' events h k = Way-HasInputs n n' h (way n n' events k)

  unchanged :
      (m : OslNode F)
      → is_empty code ≡ false
      → (x.hash code == m.code_hash) ≡ true
      → update_params_if_needed x code need_compile m ≡ some (m, [])
  unfolding update_params_if_needed
  unchanged m c e = rw (c, e) refl

  empty_again :
      (m : OslNode F)
      → is_empty code ≡ true
      → update_params_if_needed x code need_compile m ≡ some (record m { code_hash = 0 }, [])
  unfolding update_params_if_needed
  empty_again m e = rw e refl

  refused_again :
      (n : OslNode F)
      → query_code x code need_compile ≡ none
      → update_params_if_needed x code need_compile (cleared n) ≡ some (cleared n, [])
  unfolding update_params_if_needed cleared
  refused_again n e = ground arith

  again_lem :
      (n n' : OslNode F) → Way n n' → update_params_if_needed x code need_compile n' ≡ some (n', [])
  again_lem n n' (no_code e same) = rw same (empty_again (record n { code_hash = 0 }) e)
  again_lem n n' (same_code c same e) = unchanged n' c e
  again_lem n n' (no_query e same) = rw same (refused_again n e)
  again_lem n n' (queried params read c e same) =
      unchanged n' c (rw same ((==_iff (x.hash code) (x.hash code)).1 refl))

  -- A second update with the same code changes no parameter and no member, whether the first one
  -- found the code empty, unchanged, refused or queried it anew.
  pub update_params_if_needed-update_params_if_needed :
      (n n' : OslNode F) (events : List (ParmEvent F))
      → update_params_if_needed x code need_compile n ≡ some (n', events)
      → update_params_if_needed x code need_compile n' ≡ some (n', [])
  update_params_if_needed-update_params_if_needed n n' events h = again_lem n n' (way n n' events h)
