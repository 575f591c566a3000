-- ===== src/Instances/Pool.antt =====
-- The shared memory block with its table of renderers. A pointer is a number; `live` lists the
-- renderers that are allocated, `auto_commits` those whose commits are automatic. `Env` holds the answers of QSharedMemory and of the AppSDK.
use vray_for_houdini.Base.{
  ℕ, zero, suc, Bool, true, false, ◌&&◌, List, [], ◌∷◌, Option, none, some, ◌==◌, if◌then◌else◌,
}

-- `QSharedMemory::error()`, as far as it is looked at.
pub data MemoryError : Type 0 where
  no_error already_exists other_error : MemoryError

pub record Env : Type 0 where
  -- `create()`, `error()` after it, `attach()`, and `lock()` on an attached block.
  pub created : Bool
  pub error : MemoryError
  pub attaches : Bool
  pub locks : Bool
  -- `new VRay::VRayInit` and `new VRay::VRayRenderer` do not throw.
  pub makes_init : Bool
  pub makes_renderer : Bool

pub record Pool : Type 0 where
  pub is_attached : Bool
  -- `vrayInit` is not null.
  pub has_init : Bool
  pub slots : List (Option ℕ)
  pub live : List ℕ
  pub auto_commits : List ℕ

abbrev pub max_instances : ℕ
max_instances = 256

unfoldable pub null_slots : ℕ → List (Option ℕ)
null_slots zero = []
null_slots (suc n) = none ∷ null_slots n

unfoldable pub clear_shared_memory : Pool → Pool
unfolding null_slots
clear_shared_memory p = record p { has_init = false; slots = null_slots max_instances }

abbrev pub attach : Env → Pool → Pool
attach env p = record p { is_attached = env.attaches }

-- `lock()` fails on a block that is not attached.
abbrev pub lock : Env → Pool → Bool
lock env p = p.is_attached && env.locks

unfoldable pub get_create_shared_memory : Env → Pool → Pool × Bool
unfolding clear_shared_memory
get_create_shared_memory env p =
    if p.is_attached
    then (p, true)
    else if env.created
    then (clear_shared_memory (record p { is_attached = true }), true)
    else elim env.error [
      | MemoryError.no_error ↦ (attach env p, true)
      | MemoryError.already_exists ↦ (attach env p, true)
      | MemoryError.other_error ↦ (p, false)
    ]

-- The loop that stores a renderer in the first free slot; a full table is left as it is.
unfoldable pub track : ℕ → List (Option ℕ) → List (Option ℕ)
track r [] = []
track r (none ∷ slots) = some r ∷ slots
track r (some q ∷ slots) = some q ∷ track r slots

-- `newVRayRenderer`, where `fresh` is the address that an allocation would return: a renderer that is
-- made commits automatically.
unfoldable pub new_renderer : Env → ℕ → Pool → Pool × Option ℕ
unfolding track
new_renderer env fresh p =
    if lock env p
    then if env.makes_renderer
      then (
        record p {
          slots = track fresh p.slots;
          live = fresh ∷ p.live;
          auto_commits = fresh ∷ p.auto_commits;
        },
        some fresh,
      )
      else (p, none)
    else (p, none)

-- The loop that looks a renderer up and clears its slot.
unfoldable pub untrack : ℕ → List (Option ℕ) → Option (List (Option ℕ))
untrack r [] = none
untrack r (none ∷ slots) = elim (untrack r slots) [ none ↦ none | some rest ↦ some (none ∷ rest) ]
untrack r (some q ∷ slots) =
    let rest = untrack r slots in
    if q == r
    then some (none ∷ slots)
    else elim rest [ none ↦ none | some rest ↦ some (some q ∷ rest) ]

-- `delete`
unfoldable pub free : ℕ → List ℕ → List ℕ
free r [] = []
free r (q ∷ live) = if q == r then live else q ∷ free r live

-- `deleteVRayRenderer`: the pool, and what the caller's pointer is afterwards.
unfoldable pub delete_tracked : Env → ℕ → Pool → Pool × Option ℕ
unfolding untrack free
delete_tracked env r p =
    if lock env p
    then elim (untrack r p.slots) [
      | none ↦ (p, some r)
      | some slots ↦ (
        record p { slots = slots; live = free r p.live; auto_commits = free r p.auto_commits },
        none,
      )
    ]
    else (p, some r)

unfoldable pub delete_renderer : Env → Option ℕ → Pool → Pool × Option ℕ
unfolding delete_tracked
delete_renderer env none p = (p, none)
delete_renderer env (some r) p = delete_tracked env r (if p.is_attached then p else attach env p)

-- The loop of `deleteVRayInit`.
unfoldable pub free_all : List (Option ℕ) → List ℕ → List ℕ
unfolding free
free_all [] live = live
free_all (none ∷ slots) live = free_all slots live
free_all (some r ∷ slots) live = free_all slots (free r live)

unfoldable pub clear_all : List (Option ℕ) → List (Option ℕ)
clear_all [] = []
clear_all (s ∷ slots) = none ∷ clear_all slots

-- `deleteVRayInit` on an attached block.
unfoldable pub delete_attached : Env → Pool → Pool
unfolding free_all clear_all
delete_attached env p =
    let p' =
      if lock env p
      then record p {
        has_init = false;
        slots = clear_all p.slots;
        live = free_all p.slots p.live;
        auto_commits = free_all p.slots p.auto_commits;
      }
      else p in
    record p' { is_attached = false }

unfoldable pub delete_init : Env → Pool → Pool
unfolding delete_attached
delete_init env p =
    if p.is_attached
    then delete_attached env p
    else if env.attaches
    then delete_attached env (attach env p)
    else p

-- The locked part of `newVRayInit`: the pool, `vrayInitExist` and `addDummyRenderer`.
unfoldable pub make_init : Env → Pool → Pool × Bool × Bool
make_init env p =
    if lock env p
    then if p.has_init
      then (p, true, false)
      else if env.makes_init
      then (record p { has_init = true }, false, true)
      else (p, false, false)
    else (p, false, false)

-- The dummy renderer: `vrayInitExist` becomes true if it is made.
unfoldable pub add_dummy : Env → ℕ → Pool × Bool × Bool → Pool × Bool
unfolding new_renderer
add_dummy env fresh (p, exists, true) =
    let (p', instance_) = new_renderer env fresh p in
    (p', elim instance_ [ none ↦ exists | some r ↦ true ])
add_dummy env fresh (p, exists, false) = (p, exists)

unfoldable pub new_init : Env → ℕ → Pool → Pool × Bool
unfolding get_create_shared_memory make_init add_dummy
new_init env fresh p = add_dummy env fresh (make_init env (get_create_shared_memory env p).0)
