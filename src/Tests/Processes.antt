-- ===== src/Tests/Processes.antt =====
-- The renderers of a process with a small table.
use vray_for_houdini.Base.{◌≡◌, refl, false, [], ◌∷◌, none, some, arith}
use vray_for_houdini.Instances.Pool.{Env, Pool, new_renderer, delete_renderer, delete_init}
use vray_for_houdini.Instances.Slots.{IsSound, count}
use vray_for_houdini.Instances.Invariant.{here, next, news, deletes, quits, Reach-IsSound}
use vray_for_houdini.Instances.Lifetime.{delete_renderer-new_renderer, new_renderer_full}
use vray_for_houdini.Tests.Sample.{good_env, small_pool}

small_pool-IsSound : IsSound small_pool
small_pool-IsSound = record { once = λ r. ground arith; owned = λ r. ground arith }

abbrev after : Pool
after = (new_renderer good_env 8 small_pool).0

Reach-IsSound_example : IsSound (delete_init good_env (delete_renderer good_env (some 7) after).0)
Reach-IsSound_example =
    Reach-IsSound
      (next (next (next here (news good_env 8 refl)) (deletes good_env (some 7))) (quits good_env))
      small_pool-IsSound

delete_renderer-new_renderer_example :
    let (p', pointer) = new_renderer good_env 8 small_pool in
    (pointer ≡ some 8) × (delete_renderer good_env pointer p' ≡ (small_pool, none))
delete_renderer-new_renderer_example =
    delete_renderer-new_renderer good_env 8 small_pool small_pool-IsSound refl refl refl refl
      (omega arith)

abbrev full_pool : Pool
full_pool = record small_pool { slots = some 7 ∷ [] }

full_pool-IsSound : IsSound full_pool
full_pool-IsSound = record { once = λ r. ground arith; owned = λ r. ground arith }

new_renderer_full_example :
    let (p', pointer) = new_renderer good_env 8 full_pool in
    (pointer ≡ some 8)
    × (p'.slots ≡ full_pool.slots)
    × (count 8 p'.live ≡ 1)
    × (delete_renderer good_env pointer p' ≡ (p', some 8))
new_renderer_full_example =
    new_renderer_full good_env 8 full_pool full_pool-IsSound refl refl refl refl refl

abbrev poor_env : Env
poor_env = record good_env { makes_renderer = false }

abbrev new_pool : Pool
new_pool = record small_pool { has_init = false; slots = none ∷ []; live = []; auto_commits = [] }
