-- ===== src/Qt/Ordered.antt =====
-- The order of the entries of a QMap with QString keys.
use vray_for_houdini.Base.{subst, if_intro, Bool-cases, ◌≡◌, inl, inr, true, false, [], ◌∷◌, arith}
use vray_for_houdini.Qt.Text.{QString, same_text, less_text, same_text_iff}
use vray_for_houdini.Qt.Map
use vray_for_houdini.Qt.Map.{QMap, text_key}

less_text_trans :
    (r s t : QString) → less_text r s ≡ true → less_text s t ≡ true → less_text r t ≡ true
unfolding less_text
less_text_trans r s [] h k = ground arith
less_text_trans r [] (e ∷ t) h k = ground arith
less_text_trans [] (d ∷ s) (e ∷ t) h k = ground arith
less_text_trans (c ∷ r) (d ∷ s) (e ∷ t) h k = ground (arith, less_text_trans r s t)

less_text_total :
    (s t : QString) → same_text s t ≡ false → less_text t s ≡ false → less_text s t ≡ true
unfolding less_text same_text
less_text_total [] [] h k = ground arith
less_text_total [] (d ∷ t) h k = ground arith
less_text_total (c ∷ s) [] h k = ground arith
less_text_total (c ∷ s) (d ∷ t) h k = ground (arith, less_text_total s t)

module _ {ℓ} {V : Type ℓ} where
  -- Every key is above `k`.
  abbrev pub Above : QString → QMap QString V → Type 0
  Above k [] = Unit
  Above k ((j, v) ∷ m) = (less_text k j ≡ true) × Above k m

  -- The keys ascend, so there is one entry for each.
  abbrev pub IsOrdered : QMap QString V → Type 0
  IsOrdered [] = Unit
  IsOrdered ((k, v) ∷ m) = Above k m × IsOrdered m

  below : (k j : QString) (m : QMap QString V) → less_text k j ≡ true → Above j m → Above k m
  below k j [] h above = tt
  below k j ((i, v) ∷ m) h (first, rest) = (less_text_trans k j i h first, below k j m h rest)

  Above-insert :
      (i k : QString) (v : V) (m : QMap QString V)
      → less_text i k ≡ true
      → Above i m
      → Above i (Map.insert k v m)
  unfolding Map.insert
  Above-insert i k v [] h above = (h, tt)
  Above-insert i k v ((j, w) ∷ m) h (first, rest) =
      if_intro (Above i) (same_text j k) (h, rest)
        (if_intro (Above i) (less_text k j) (h, (first, rest)) (first, Above-insert i k v m h rest))

  Above-remove : (i k : QString) (m : QMap QString V) → Above i m → Above i (Map.remove k m)
  unfolding Map.remove
  Above-remove i k [] above = tt
  Above-remove i k ((j, w) ∷ m) (first, rest) =
      if_intro (Above i) (same_text j k) (Above-remove i k m rest) (first, Above-remove i k m rest)

  pub insert-IsOrdered :
      (k : QString) (v : V) (m : QMap QString V) → IsOrdered m → IsOrdered (Map.insert k v m)
  unfolding Map.insert
  insert-IsOrdered k v [] ordered = (tt, tt)
  insert-IsOrdered k v ((j, w) ∷ m) (above, ordered) = elim (Bool-cases (same_text j k)) [
    | inl e ↦ rw e (subst (λ i. Above i m) ((same_text_iff j k).0 e) above, ordered)
    | inr e ↦ rw e (elim (Bool-cases (less_text k j)) [
      | inl less ↦ rw less ((less, below k j m less above), (above, ordered))
      | inr least ↦
          rw least (
            Above-insert j k v m (less_text_total j k e least) above,
            insert-IsOrdered k v m ordered,
          )
    ])
  ]

  pub remove-IsOrdered :
      (k : QString) (m : QMap QString V) → IsOrdered m → IsOrdered (Map.remove k m)
  unfolding Map.remove
  remove-IsOrdered k [] ordered = tt
  remove-IsOrdered k ((j, w) ∷ m) (above, ordered) =
      if_intro IsOrdered (same_text j k) (remove-IsOrdered k m ordered)
        (Above-remove j k m above, remove-IsOrdered k m ordered)
