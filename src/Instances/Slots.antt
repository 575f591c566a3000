-- ===== src/Instances/Slots.antt =====
-- Which renderers are tracked and which are allocated.
use vray_for_houdini.Base.{
  ℕ, zero, suc, ◌+◌, ◌≤◌, ◌<◌, ◌≡◌, refl, List, [], ◌∷◌, Option, none, some, ◌==◌, if◌then◌else◌,
  arith, Option-cases, inl, inr,
}
use vray_for_houdini.Instances.Pool.{Pool, track, untrack, free, free_all, clear_all, null_slots}

abbrev pub count : ℕ → List ℕ → ℕ
count r [] = 0
count r (q ∷ live) = (if q == r then 1 else 0) + count r live

abbrev pub count_slots : ℕ → List (Option ℕ) → ℕ
count_slots r [] = 0
count_slots r (none ∷ slots) = count_slots r slots
count_slots r (some q ∷ slots) = (if q == r then 1 else 0) + count_slots r slots

abbrev pub free_slots : List (Option ℕ) → ℕ
free_slots [] = 0
free_slots (none ∷ slots) = suc (free_slots slots)
free_slots (some q ∷ slots) = free_slots slots

-- A renderer is allocated once, and a tracked one is allocated and tracked once.
pub record IsSound (p : Pool) : Type 0 where
  pub once : (r : ℕ) → count r p.live ≤ 1
  pub owned : (r : ℕ) → count_slots r p.slots ≤ count r p.live

pub count_slots-track :
    (q r : ℕ) (slots : List (Option ℕ))
    → 0 < free_slots slots
    → count_slots q (track r slots) ≡ (if r == q then 1 else 0) + count_slots q slots
unfolding track
count_slots-track q r [] h = absurd (omega arith)
count_slots-track q r (none ∷ slots) h = refl
count_slots-track q r (some s ∷ slots) h = ground (arith, count_slots-track q r slots h)

pub track_full : (r : ℕ) (slots : List (Option ℕ)) → free_slots slots ≡ 0 → track r slots ≡ slots
unfolding track
track_full r [] h = refl
track_full r (none ∷ slots) h = absurd (omega arith)
track_full r (some s ∷ slots) h = ground (arith, track_full r slots h)

pub untrack-none_iff :
    (r : ℕ) (slots : List (Option ℕ)) → untrack r slots ≡ none → count_slots r slots ≡ 0
unfolding untrack
untrack-none_iff r [] h = refl
untrack-none_iff r (none ∷ slots) h = ground (arith, untrack-none_iff r slots)
untrack-none_iff r (some s ∷ slots) h = ground (arith, untrack-none_iff r slots)

pub untrack_absent :
    (r : ℕ) (slots : List (Option ℕ)) → count_slots r slots ≡ 0 → untrack r slots ≡ none
unfolding untrack
untrack_absent r [] h = refl
untrack_absent r (none ∷ slots) h = ground (arith, untrack_absent r slots)
untrack_absent r (some s ∷ slots) h = ground (arith, untrack_absent r slots)

pub count_slots-untrack :
    (q r : ℕ) (slots rest : List (Option ℕ))
    → untrack r slots ≡ some rest
    → count_slots q slots ≡ (if r == q then 1 else 0) + count_slots q rest
unfolding untrack
count_slots-untrack q r [] rest h = cc
count_slots-untrack q r (none ∷ slots) rest h = elim (Option-cases (untrack r slots)) [
  | inl e ↦ ground arith
  | inr (t, e) ↦ ground (arith, count_slots-untrack q r slots t e)
]
count_slots-untrack q r (some s ∷ slots) rest h = elim (Option-cases (untrack r slots)) [
  | inl e ↦ ground arith
  | inr (t, e) ↦ ground (arith, count_slots-untrack q r slots t e)
]

-- A renderer that is stored in a table and looked up again leaves the table as it was.
pub untrack-track :
    (r : ℕ) (slots : List (Option ℕ))
    → 0 < free_slots slots
    → count_slots r slots ≡ 0
    → untrack r (track r slots) ≡ some slots
unfolding untrack track
untrack-track r [] h a = absurd (omega arith)
untrack-track r (none ∷ slots) h a = ground arith
untrack-track r (some s ∷ slots) h a = ground (arith, untrack-track r slots h)

pub count-free :
    (q r : ℕ) (live : List ℕ)
    → 0 < count r live
    → count q live ≡ (if r == q then 1 else 0) + count q (free r live)
unfolding free
count-free q r [] h = absurd (omega arith)
count-free q r (s ∷ live) h = ground (arith, count-free q r live)

pub count_slots-null_slots : (r n : ℕ) → count_slots r (null_slots n) ≡ 0
unfolding null_slots
count_slots-null_slots r zero = refl
count_slots-null_slots r (suc n) = count_slots-null_slots r n

pub count_slots-clear_all : (r : ℕ) (slots : List (Option ℕ)) → count_slots r (clear_all slots) ≡ 0
unfolding clear_all
count_slots-clear_all r [] = refl
count_slots-clear_all r (s ∷ slots) = count_slots-clear_all r slots

-- Every tracked renderer is freed once for each of its slots, if it is allocated as often.
pub count-free_all :
    (q : ℕ) (slots : List (Option ℕ)) (live : List ℕ)
    → ((r : ℕ) → count_slots r slots ≤ count r live)
    → count q live ≡ count_slots q slots + count q (free_all slots live)
unfolding free_all
count-free_all q [] live owned = omega arith
count-free_all q (none ∷ slots) live owned = count-free_all q slots live owned
count-free_all q (some r ∷ slots) live owned =
    let held : 0 < count r live = ground (arith, owned r) in
    let rest =
      count-free_all q slots (free r live)
        (λ s. ground (arith, owned s, count-free s r live held)) in
    ground (arith, count-free q r live held, rest)
