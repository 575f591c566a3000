-- ===== src/Ramp/Points.antt =====
-- The points of a ramp parameter, and writes to the arrays that are in use.
use vray_for_houdini.Base.{
  ℕ, zero, suc, ◌≡◌, refl, Bool, true, false, ◌||◌, List, [], ◌∷◌, ◌++◌, ◌==◌, Option, some,
  if◌then◌else◌, length, ◌-◌, append_assoc, arith,
}
use vray_for_houdini.Qt.Text.{QString}
use vray_for_houdini.Attrs.Sdk.{Sdk}
use vray_for_houdini.Attrs.RefList.{ptr_array}
use vray_for_houdini.Attrs.Desc.{PluginDesc}
use vray_for_houdini.Mesh.Array.{put, put-append}

-- `mapToVray`, with both enumerations as numbers.
unfoldable pub map_to_vray : ℕ → ℕ
map_to_vray n =
    if n == 1
    then 1
    else if n == 2 || n == 3
    then 2
    else if n == 4
    then 4
    else if n == 5 || n == 6
    then 3
    else 0

-- The node at the time of the export, with `evalInt` at the time 0 too, the exporter, and what new
-- arrays hold.
pub record RampNode (S : Sdk) : Type 0 where
  pub eval_int : QString → ℕ
  pub eval_int_at_zero : QString → ℕ
  pub eval_float_inst : QString → ℕ → ℕ → S.Float
  pub eval_int_inst : QString → ℕ → ℕ
  pub is_parm_time_dependent : QString → Bool
  pub number : ℕ → QString
  pub plugin_name : QString → QString
  pub export_plugin : PluginDesc S → S.Plugin
  pub plugin_value : S.Plugin → S.Value
  pub unset_color : S.Color
  pub unset_float : S.Float
  pub unset_int : ℕ

module _ {S : Sdk} (x : RampNode S) where
  abbrev pub inst_name : QString → ℕ → QString → QString
  inst_name ramp i suffix = ramp ++ x.number i ++ suffix

  -- `opNode.isParmTimeDependent(FmtPosAttrName.arg(ramp).arg(i))` and its kin.
  abbrev pub depends : QString → QString → ℕ → Bool
  depends ramp suffix i = x.is_parm_time_dependent (inst_name ramp i suffix)

module _ {A : Type 0} where
  -- An array that is in use only if the test holds.
  abbrev pub used : Bool → List A → List A
  used b xs = if b then xs else []

  abbrev pub put_if : Bool → List A → ℕ → A → Option (List A)
  put_if true xs i v = put xs i v
  put_if false xs i v = some xs

  pub put_if_lem :
      (b : Bool) (done : List A) (old : A) (rest : List A) (i : ℕ) (v : A)
      → i ≡ length done
      → put_if b (used b (done ++ old ∷ rest)) i v ≡ some (used b (done ++ v ∷ rest))
  put_if_lem true done old rest i v h = put-append done old rest i v h
  put_if_lem false done old rest i v h = refl

  pub put_if_next :
      (b : Bool) (done : List A) (old : A) (n i : ℕ) (v : A)
      → i ≡ suc (length done)
      → put_if b (used b (done ++ ptr_array (suc n) old)) (i - 1) v
        ≡ some (used b ((done ++ v ∷ []) ++ ptr_array n old))
  unfolding ptr_array
  put_if_next b done old n i v h =
      rw (append_assoc) (put_if_lem b done old (ptr_array n old) (i - 1) v (omega arith))

  -- A value for each of `n` points, from the point `i` on.
  abbrev pub at_points : (ℕ → A) → ℕ → ℕ → List A
  at_points f zero i = []
  at_points f (suc n) i = f i ∷ at_points f n (suc i)

-- Whether one of `n` points passes, from the point `i` on.
abbrev pub any_point : (ℕ → Bool) → ℕ → ℕ → Bool
any_point f zero i = false
any_point f (suc n) i = f i || any_point f n (suc i)

pub or_assoc : (a b c : Bool) → ((a || b) || c) ≡ (a || (b || c))
or_assoc true b c = refl
or_assoc false b c = refl

pub or_false : (a : Bool) → (a || false) ≡ a
or_false true = refl
or_false false = refl
