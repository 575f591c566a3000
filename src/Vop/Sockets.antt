-- ===== src/Vop/Sockets.antt =====
-- The sockets of `VOP::NodeBase`, by index and by name: src/vop/vop_node_base.cpp. An index of -1 is
-- `none`, and so is a null label or a name that is left as it is.
use vray_for_houdini.Base.{
  ltb, Bool, true, false, ◌≡◌, refl, ℕ, suc, List, [], ◌∷◌, Option, none, some, if◌then◌else◌,
  length, get_elem?, ◌>>=◌,
}
use vray_for_houdini.Qt.Text.{QString, same_text}

-- The types of sockets and of OSL parameters that the code names.
pub data VopType : Type 0 where
  undef color point vector normal integer float text bsdf surface_shader matrix3 matrix4 : VopType

pub record SocketDesc : Type 0 where
  pub socket_label : QString
  pub socket_type : VopType

pub record PluginInfo : Type 0 where
  pub inputs : List SocketDesc
  pub outputs : List SocketDesc

-- `for (i = 0; i < count; ++i) if (name == sockets[i].socketLabel) return i;`, from `i` on.
unfoldable pub socket_from_name : QString → List SocketDesc → ℕ → Option ℕ
unfolding same_text
socket_from_name name [] i = none
socket_from_name name (s ∷ sockets) i =
    let rest = socket_from_name name sockets (suc i) in
    if same_text name s.socket_label then some i else rest

abbrev pub label_at : List SocketDesc → ℕ → Option QString
label_at sockets i = do s ← get_elem? sockets i; some s.socket_label

abbrev pub type_at : List SocketDesc → ℕ → Option VopType
type_at sockets i = do s ← get_elem? sockets i; some s.socket_type

-- `type_infos` for a socket: its type, and those that are converted to it.
unfoldable pub allowed_types : VopType → List VopType
allowed_types surface_shader = surface_shader ∷ bsdf ∷ []
allowed_types bsdf = bsdf ∷ surface_shader ∷ []
allowed_types color = color ∷ float ∷ []
allowed_types float = float ∷ color ∷ []
allowed_types matrix3 = matrix3 ∷ matrix4 ∷ []
allowed_types t = t ∷ []

-- The test of `willAutoconvertInputType`.
abbrev converts : VopType → Bool
converts surface_shader = true
converts bsdf = true
converts color = true
converts float = true
converts matrix3 = true
converts t = false

by_type :
    (o : Option VopType)
    → elim o as (λ o. Bool) [ none ↦ false | some t ↦ converts t ]
      ≡ ltb 1 (length (elim o as (λ o. List VopType) [ none ↦ [] | some t ↦ allowed_types t ]))
unfolding allowed_types
by_type none = refl
by_type (some surface_shader) = refl
by_type (some bsdf) = refl
by_type (some color) = refl
by_type (some float) = refl
by_type (some matrix3) = refl
by_type (some t) = refl

module _ (info : PluginInfo) where
  abbrev pub ordered_inputs : ℕ
  ordered_inputs = length info.inputs

  abbrev pub max_outputs : ℕ
  max_outputs = length info.outputs

  unfoldable pub get_allowed_input_types : ℕ → List VopType
  unfolding allowed_types
  get_allowed_input_types i = elim (type_at info.inputs i) [ none ↦ [] | some t ↦ allowed_types t ]

  unfoldable pub will_autoconvert_input_type : ℕ → Bool
  will_autoconvert_input_type i = elim (type_at info.inputs i) as (λ o. Bool) [
    | none ↦ false
    | some t ↦ converts t
  ]

  -- An input converts what is connected to it just if it allows more types than its own.
  will_autoconvert_input_type-get_allowed_input_types :
      (i : ℕ) → will_autoconvert_input_type i ≡ ltb 1 (length (get_allowed_input_types i))
  unfolding will_autoconvert_input_type get_allowed_input_types allowed_types
  will_autoconvert_input_type-get_allowed_input_types i = by_type (type_at info.inputs i)
