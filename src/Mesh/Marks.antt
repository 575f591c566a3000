-- ===== src/Mesh/Marks.antt =====
-- The words of the edge visibility after the loop: each face's mask, as it is read back.
use Prim.Native.Nat.{bit_or}
use vray_for_houdini.Base.{
  ℕ, zero, suc, ◌+◌, ◌*◌, ◌/◌, ◌%◌, ◌≤◌, ◌<◌, ◌≡◌, ◌≢◌, refl, ◌∙◌, Bool, true, false, List, [], ◌∷◌,
  map, arith, ◌==◌, length, ==_iff, Bool-cases, inl, inr,
}
use vray_for_houdini.Attrs.RefList.{ptr_array, item, set_item}
use vray_for_houdini.Mesh.Array.{
  item-set_item_self, item-set_item_ne, length-set_item, item-ptr_array,
}
use vray_for_houdini.Mesh.Bits.{
  shift_mask, read_mask, Holds, bit_or-shift_mask, Holds-add, read_mask-add, read_mask-add_earlier,
}
use vray_for_houdini.Mesh.Shape.{Triangle, edge_mask, bit}

-- A word with the mask of one more face.
abbrev pub marked_word : Triangle → ℕ → List ℕ → ℕ
marked_word t k words = bit_or (item words (k / 10) 0) (shift_mask (edge_mask t) (k % 10))

abbrev pub marked : List Triangle → ℕ → List ℕ → List ℕ
marked [] k words = words
marked (t ∷ ts) k words = marked ts (suc k) (set_item words (k / 10) (marked_word t k words))

-- The mask of the `k`th face.
unfoldable pub mask_at : List ℕ → ℕ → ℕ
unfolding item read_mask
mask_at words k = read_mask (item words (k / 10) 0) (k % 10)

-- The masks of `n` faces, the first the `k`th.
unfoldable pub masks_from : ℕ → ℕ → List ℕ → List ℕ
unfolding mask_at
masks_from zero k words = []
masks_from (suc n) k words = mask_at words k ∷ masks_from n (suc k) words

masks_lt : (a b : Bool) → bit_or (bit_or 1 (bit a * 2)) (bit b * 4) < 8
masks_lt true true = omega arith
masks_lt true false = omega arith
masks_lt false true = omega arith
masks_lt false false = omega arith

edge_mask-lt : (t : Triangle) → edge_mask t < 8
unfolding edge_mask
edge_mask-lt t = masks_lt t.is_first t.is_last

-- The words hold the masks of the first `k` faces only.
pub record AreMarked (k : ℕ) (words : List ℕ) : Type 0 where
  pub here : Holds (item words (k / 10) 0) (k % 10)
  pub later : (i : ℕ) → k / 10 < i → item words i 0 ≡ 0

module _ (t : Triangle) (k : ℕ) (words : List ℕ) (m : AreMarked k words)
    (room : k / 10 < length words) where
  abbrev next_words : List ℕ
  next_words = set_item words (k / 10) (marked_word t k words)

  item_here : item next_words (k / 10) 0 ≡ item words (k / 10) 0 + shift_mask (edge_mask t) (k % 10)
  item_here =
      item-set_item_self words (k / 10) (marked_word t k words) 0 room
      ∙ bit_or-shift_mask (item words (k / 10) 0) (edge_mask t) (k % 10) m.here

  item_elsewhere : (i : ℕ) → i ≢ k / 10 → item next_words i 0 ≡ item words i 0
  item_elsewhere i ne = item-set_item_ne words (k / 10) i (marked_word t k words) 0 room ne

  next_mask : mask_at next_words k ≡ edge_mask t
  unfolding mask_at
  next_mask =
      rw item_here
        (read_mask-add (item words (k / 10) 0) (edge_mask t) (k % 10) m.here (edge_mask-lt t))

  earlier_mask : (j : ℕ) → j < k → mask_at next_words j ≡ mask_at words j
  unfolding mask_at
  earlier_mask j h = elim (Bool-cases (j / 10 == k / 10)) [
    | inl same ↦
        let e : j / 10 ≡ k / 10 = (==_iff _ _).0 same in
        rw (e, item_here)
          (read_mask-add_earlier (item words (k / 10) 0) (edge_mask t) (k % 10) (j % 10)
            (omega arith))
    | inr ne ↦ rw (item_elsewhere (j / 10) (ground arith)) refl
  ]

  next-AreMarked : AreMarked (suc k) next_words
  next-AreMarked = record {
    here = elim (Bool-cases (k % 10 == 9)) [
      | inl full ↦
          let e : k % 10 ≡ 9 = (==_iff _ _).0 full in
          let word : suc k / 10 ≡ suc (k / 10) = omega arith in
          let place : suc k % 10 ≡ 0 = omega arith in
          let empty : item next_words (suc (k / 10)) 0 ≡ 0 =
            item_elsewhere (suc (k / 10)) (omega arith) ∙ m.later (suc (k / 10)) (omega arith) in
          rw (word, place) (unfold Holds in empty)
      | inr room_left ↦
          let ne : k % 10 ≢ 9 = ground arith in
          let word : suc k / 10 ≡ k / 10 = omega arith in
          let place : suc k % 10 ≡ suc (k % 10) = omega arith in
          rw (word, place, item_here)
            (Holds-add (item words (k / 10) 0) (edge_mask t) (k % 10) m.here (edge_mask-lt t))
    ];
    later = λ i h. item_elsewhere i (omega arith) ∙ m.later i (omega arith);
  }

marked_earlier :
    (ts : List Triangle) (k : ℕ) (words : List ℕ)
    → AreMarked k words
    → k + length ts ≤ length words * 10
    → (j : ℕ) → j < k
    → mask_at (marked ts k words) j ≡ mask_at words j
marked_earlier [] k words m room j h = refl
marked_earlier (t ∷ ts) k words m room j h =
    let here : k / 10 < length words = omega arith in
    let next = set_item words (k / 10) (marked_word t k words) in
    let kept : length next ≡ length words =
      length-set_item words (k / 10) (marked_word t k words) in
    marked_earlier ts (suc k) next (next-AreMarked t k words m here) (omega arith) j (omega arith)
    ∙ earlier_mask t k words m here j h

-- The masks are read back as they were written.
pub masks_from-marked :
    (ts : List Triangle) (k : ℕ) (words : List ℕ)
    → AreMarked k words
    → k + length ts ≤ length words * 10
    → masks_from (length ts) k (marked ts k words) ≡ map edge_mask ts
unfolding masks_from
masks_from-marked [] k words m room = refl
masks_from-marked (t ∷ ts) k words m room =
    let here : k / 10 < length words = omega arith in
    let next = set_item words (k / 10) (marked_word t k words) in
    let kept : length next ≡ length words =
      length-set_item words (k / 10) (marked_word t k words) in
    let fits : suc k + length ts ≤ length next * 10 = omega arith in
    let step = next-AreMarked t k words m here in
    let first = next_mask t k words m here in
    rw
      (
        masks_from-marked ts (suc k) next step fits,
        marked_earlier ts (suc k) next step fits k (omega arith),
        first,
      )
      refl

pub new-AreMarked : (n : ℕ) → AreMarked 0 (ptr_array n 0)
unfolding Holds
new-AreMarked n = record { here = item-ptr_array n 0 0; later = λ i h. item-ptr_array n i 0 }
