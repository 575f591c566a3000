-- ===== src/Instances/Invariant.antt =====
-- Over the life of the process every tracked renderer is allocated, and none is allocated twice.
use vray_for_houdini.Base.{
  ℕ, ◌+◌, ◌≤◌, ◌<◌, ◌≡◌, refl, Bool, true, false, List, [], ◌∷◌, Option, none, some, ◌==◌,
  if◌then◌else◌, arith, Option-cases, if_intro, inl, inr,
}
use vray_for_houdini.Instances.Pool.{
  Env, Pool, attach, track, untrack, new_renderer, delete_tracked, delete_renderer, delete_attached,
  delete_init, make_init, add_dummy, new_init, get_create_shared_memory, max_instances,
}
use vray_for_houdini.Instances.Slots.{
  count, count_slots, IsSound, count_slots-untrack, count-free, count-free_all,
  count_slots-null_slots, count_slots-clear_all,
}

-- A full table drops the renderer, so a tracked one is never counted more often.
count_slots-track-le :
    (q r : ℕ) (slots : List (Option ℕ))
    → count_slots q (track r slots) ≤ (if r == q then 1 else 0) + count_slots q slots
unfolding track
count_slots-track-le q r [] = omega arith
count_slots-track-le q r (none ∷ slots) = omega arith
count_slots-track-le q r (some s ∷ slots) = ground (arith, count_slots-track-le q r slots)

same-IsSound : (p q : Pool) → IsSound p → q.slots ≡ p.slots → q.live ≡ p.live → IsSound q
same-IsSound p q sound s l = record {
  once = λ r. rw l (sound.once r);
  owned = λ r. rw (s, l) (sound.owned r);
}

new_renderer-IsSound :
    (env : Env) (fresh : ℕ) (p : Pool)
    → IsSound p
    → count fresh p.live ≡ 0
    → IsSound (new_renderer env fresh p).0
unfolding new_renderer
new_renderer-IsSound env fresh p sound unused = record {
  once = λ r. ground (arith, sound.once r);
  owned = λ r. ground (arith, sound.owned r, count_slots-track-le r fresh p.slots);
}

delete_tracked-IsSound :
    (env : Env) (r : ℕ) (p : Pool) → IsSound p → IsSound (delete_tracked env r p).0
unfolding delete_tracked
delete_tracked-IsSound env r p sound = elim (Option-cases (untrack r p.slots)) [
  | inl e ↦ rw (e, delete_tracked) (ground (arith, sound))
  | inr (slots, e) ↦
      let held : 0 < count r p.live =
        ground (arith, count_slots-untrack r r p.slots slots e, sound.owned r) in
      rw (e, delete_tracked)
        (record {
          once = λ q. ground (arith, sound.once q, count-free q r p.live held);
          owned = λ q. ground (
            arith,
            sound.owned q,
            count-free q r p.live held,
            count_slots-untrack q r p.slots slots e,
          );
        })
]

delete_renderer-IsSound :
    (env : Env) (pointer : Option ℕ) (p : Pool)
    → IsSound p
    → IsSound (delete_renderer env pointer p).0
unfolding delete_renderer
delete_renderer-IsSound env none p sound = sound
delete_renderer-IsSound env (some r) p sound =
    delete_tracked-IsSound env r (if p.is_attached then p else attach env p)
      (if_intro IsSound p.is_attached sound (same-IsSound p (attach env p) sound refl refl))

delete_attached-IsSound : (env : Env) (p : Pool) → IsSound p → IsSound (delete_attached env p)
unfolding delete_attached
delete_attached-IsSound env p sound = record {
  once = λ r. ground (arith, sound.once r, count-free_all r p.slots p.live sound.owned);
  owned = λ r. ground (arith, sound.owned r, count_slots-clear_all r p.slots);
}

delete_init-IsSound : (env : Env) (p : Pool) → IsSound p → IsSound (delete_init env p)
unfolding delete_init
delete_init-IsSound env p sound =
    if_intro IsSound p.is_attached (delete_attached-IsSound env p sound) (
      if_intro IsSound env.attaches
        (delete_attached-IsSound env (attach env p) (same-IsSound p (attach env p) sound refl refl))
        sound)

get_create_shared_memory-IsSound :
    (env : Env) (p : Pool)
    → IsSound p
    → IsSound (get_create_shared_memory env p).0
      × ((get_create_shared_memory env p).0.live ≡ p.live)
unfolding get_create_shared_memory
get_create_shared_memory-IsSound env p sound = (
  record {
    once = λ r. ground (arith, sound.once r);
    owned = λ r. ground (arith, sound.owned r, count_slots-null_slots r max_instances);
  },
  ground arith,
)

make_init_same :
    (env : Env) (p : Pool)
    → ((make_init env p).0.slots ≡ p.slots) × ((make_init env p).0.live ≡ p.live)
unfolding make_init
make_init_same env p = ground arith

add_dummy-IsSound :
    (env : Env) (fresh : ℕ) (p : Pool) (exists dummy : Bool)
    → IsSound p
    → count fresh p.live ≡ 0
    → IsSound (add_dummy env fresh (p, exists, dummy)).0
unfolding add_dummy
add_dummy-IsSound env fresh p exists true sound unused =
    new_renderer-IsSound env fresh p sound unused
add_dummy-IsSound env fresh p exists false sound unused = sound

new_init-IsSound :
    (env : Env) (fresh : ℕ) (p : Pool)
    → IsSound p
    → count fresh p.live ≡ 0
    → IsSound (new_init env fresh p).0
unfolding new_init
new_init-IsSound env fresh p sound unused =
    let (sound', live) = get_create_shared_memory-IsSound env p sound in
    let q = (get_create_shared_memory env p).0 in
    let (slots', live') = make_init_same env q in
    add_dummy-IsSound env fresh (make_init env q).0 (make_init env q).1 (make_init env q).2
      (same-IsSound q (make_init env q).0 sound' slots' live') (rw (live', live) unused)

-- One call of the module, from any place of the process. An allocation returns an address that is
-- not in use.
pub data Step (p : Pool) : Pool → Type 0 where
  inits : (env : Env) (fresh : ℕ) → count fresh p.live ≡ 0 → Step p (new_init env fresh p).0
  news : (env : Env) (fresh : ℕ) → count fresh p.live ≡ 0 → Step p (new_renderer env fresh p).0
  deletes : (env : Env) (pointer : Option ℕ) → Step p (delete_renderer env pointer p).0
  quits : (env : Env) → Step p (delete_init env p)

pub data Reach (p : Pool) : Pool → Type 0 where
  here : Reach p p
  next : {q r : Pool} → Reach p q → Step q r → Reach p r

Step-IsSound : {p q : Pool} → Step p q → IsSound p → IsSound q
Step-IsSound {p} (inits env fresh unused) sound = new_init-IsSound env fresh p sound unused
Step-IsSound {p} (news env fresh unused) sound = new_renderer-IsSound env fresh p sound unused
Step-IsSound {p} (deletes env pointer) sound = delete_renderer-IsSound env pointer p sound
Step-IsSound {p} (quits env) sound = delete_init-IsSound env p sound

-- After any calls in any order, from a sound pool: every renderer in the table is allocated, and
-- no renderer is in the table twice.
pub Reach-IsSound : {p q : Pool} → Reach p q → IsSound p → IsSound q
Reach-IsSound here sound = sound
Reach-IsSound (next r s) sound = Step-IsSound s (Reach-IsSound r sound)
