-- ===== src/Instances/Lifetime.antt =====
-- A renderer from its creation to its deletion.
use vray_for_houdini.Base.{ℕ, ◌+◌, ◌<◌, ◌≡◌, true, false, none, some, arith}
use vray_for_houdini.Instances.Pool.{
  Env, Pool, free, new_renderer, delete_renderer, delete_init, new_init,
}
use vray_for_houdini.Instances.Slots.{
  count, count_slots, free_slots, IsSound, track_full, untrack_absent, untrack-track,
  count-free_all, count_slots-clear_all,
}

module _ (env : Env) (fresh : ℕ) (p : Pool) (sound : IsSound p) (unused : count fresh p.live ≡ 0)
    (attached : p.is_attached ≡ true) (locks : env.locks ≡ true)
    (makes : env.makes_renderer ≡ true) where
  -- On a sound, attached pool that can be locked, where the AppSDK makes the renderer at an unused
  -- address and the table has a free slot, a deletion undoes the creation: the pool is as before,
  -- and the caller's pointer is null.
  pub delete_renderer-new_renderer :
      0 < free_slots p.slots
      → let (p', pointer) = new_renderer env fresh p in
        (pointer ≡ some fresh) × (delete_renderer env pointer p' ≡ (p, none))
  unfolding new_renderer delete_renderer free
  delete_renderer-new_renderer room =
      (ground arith, ground (arith, untrack-track fresh p.slots, sound.owned fresh))

  -- On the same pool with a full table the caller still gets a renderer, which a deletion does not
  -- find: it stays allocated, and the caller's pointer stays.
  pub new_renderer_full :
      free_slots p.slots ≡ 0
      → let (p', pointer) = new_renderer env fresh p in
        (pointer ≡ some fresh)
        × (p'.slots ≡ p.slots)
        × (count fresh p'.live ≡ 1)
        × (delete_renderer env pointer p' ≡ (p', some fresh))
  unfolding new_renderer delete_renderer
  new_renderer_full full = (
    ground arith,
    ground (arith, track_full fresh p.slots),
    ground arith,
    ground (arith, track_full fresh p.slots, untrack_absent fresh p.slots, sound.owned fresh),
  )

-- On a sound, attached pool that can be locked, `deleteVRayInit` frees the tracked renderers, and only those, empties the table and detaches.
delete_init_lem :
    (env : Env) (p : Pool) (r : ℕ)
    → IsSound p
    → p.is_attached ≡ true
    → env.locks ≡ true
    → let q = delete_init env p in
      (count_slots r q.slots ≡ 0)
      × (count r q.live + count_slots r p.slots ≡ count r p.live)
      × (q.has_init ≡ false)
      × (q.is_attached ≡ false)
unfolding delete_init
delete_init_lem env p r sound attached locks = (
  ground (arith, count_slots-clear_all r p.slots),
  ground (arith, count-free_all r p.slots p.live sound.owned),
  ground arith,
  ground arith,
)

-- On an attached pool that can be locked and has no `VRayInit`, if that is made and the dummy
-- renderer is not, the first call of `newVRayInit` reports
-- failure and the second, in the same surroundings, success.
new_init_twice :
    (env : Env) (fresh again : ℕ) (p : Pool)
    → p.is_attached ≡ true
    → p.has_init ≡ false
    → env.locks ≡ true
    → env.makes_init ≡ true
    → env.makes_renderer ≡ false
    → ((new_init env fresh p).1 ≡ false) × ((new_init env again (new_init env fresh p).0).1 ≡ true)
unfolding new_init
new_init_twice env fresh again p attached fresh_init locks init renderer =
    (ground arith, ground arith)
