-- ===== src/Mesh/Array.antt =====
-- The AppSDK's arrays under reads and writes by index: `none` is an access past the end.
use vray_for_houdini.Base.{
  ℕ, zero, suc, ◌+◌, ◌<◌, ◌≡◌, refl, ap, List, [], ◌∷◌, ◌++◌, Option, none, some, arith, ◌==◌,
  if◌then◌else◌, ==_iff, ◌≢◌, length, length-append, get_elem?, ◌>>=◌, append_assoc,
}
use vray_for_houdini.Attrs.RefList.{ptr_array, item, set_item}

module _ {ℓ} {A : Type ℓ} where
  -- `list[i] = v`
  unfoldable pub put : List A → ℕ → A → Option (List A)
  put [] i v = none
  put (x ∷ xs) zero v = some (v ∷ xs)
  put (x ∷ xs) (suc i) v = do rest ← put xs i v; some (x ∷ rest)

  -- Three writes, from `i` on.
  unfoldable pub put_three : List A → ℕ → A → A → A → Option (List A)
  unfolding put
  put_three xs i a b c = do xs₁ ← put xs i a; xs₂ ← put xs₁ (i + 1) b; put xs₂ (i + 2) c

  pub put-append :
      (done : List A) (x : A) (rest : List A) (i : ℕ) (v : A)
      → i ≡ length done
      → put (done ++ x ∷ rest) i v ≡ some (done ++ v ∷ rest)
  unfolding put
  put-append [] x rest zero v h = refl
  put-append [] x rest (suc i) v h = absurd (omega arith)
  put-append (y ∷ done) x rest zero v h = absurd (omega arith)
  put-append (y ∷ done) x rest (suc i) v h = rw (put-append done x rest i v (omega arith)) refl

  pub length-ptr_array : (n : ℕ) (x : A) → length (ptr_array n x) ≡ n
  unfolding ptr_array
  length-ptr_array zero x = refl
  length-ptr_array (suc n) x = ap suc (length-ptr_array n x)

  pub put_lem : (xs : List A) (i : ℕ) (v : A) → i < length xs → put xs i v ≡ some (set_item xs i v)
  unfolding put set_item
  put_lem [] i v h = absurd (omega arith)
  put_lem (x ∷ xs) zero v h = refl
  put_lem (x ∷ xs) (suc i) v h = rw (put_lem xs i v (omega arith)) refl

  pub get_elem?_lem :
      (xs : List A) (i : ℕ) (d : A) → i < length xs → get_elem? xs i ≡ some (item xs i d)
  unfolding item
  get_elem?_lem [] i d h = absurd (omega arith)
  get_elem?_lem (x ∷ xs) zero d h = refl
  get_elem?_lem (x ∷ xs) (suc i) d h = get_elem?_lem xs i d (omega arith)

  pub item-set_item :
      (xs : List A) (i j : ℕ) (v d : A)
      → i < length xs
      → item (set_item xs i v) j d ≡ (if i == j then v else item xs j d)
  unfolding item set_item
  item-set_item [] i j v d h = absurd (omega arith)
  item-set_item (x ∷ xs) zero zero v d h = refl
  item-set_item (x ∷ xs) (suc i) (suc j) v d h = ground (arith, item-set_item xs i j v d)
  item-set_item (x ∷ xs) i j v d h = ground arith

  pub item-set_item_self :
      (xs : List A) (i : ℕ) (v d : A) → i < length xs → item (set_item xs i v) i d ≡ v
  item-set_item_self xs i v d h = rw ((==_iff i i).1 refl) at (item-set_item xs i i v d h)

  pub item-set_item_ne :
      (xs : List A) (i j : ℕ) (v d : A)
      → i < length xs
      → j ≢ i
      → item (set_item xs i v) j d ≡ item xs j d
  item-set_item_ne xs i j v d h ne = ground (arith, item-set_item xs i j v d h)

  pub length-set_item : (xs : List A) (i : ℕ) (v : A) → length (set_item xs i v) ≡ length xs
  unfolding set_item
  length-set_item [] i v = refl
  length-set_item (x ∷ xs) zero v = refl
  length-set_item (x ∷ xs) (suc i) v = ap suc (length-set_item xs i v)

  pub item-ptr_array : (n i : ℕ) (d : A) → item (ptr_array n d) i d ≡ d
  unfolding item ptr_array
  item-ptr_array zero i d = refl
  item-ptr_array (suc n) zero d = refl
  item-ptr_array (suc n) (suc i) d = item-ptr_array n i d

  -- Three writes at the first of the items that are not written yet.
  pub put_three-append :
      (done : List A) (x y z : A) (rest : List A) (i : ℕ) (a b c : A)
      → i ≡ length done
      → put_three (done ++ x ∷ y ∷ z ∷ rest) i a b c ≡ some (done ++ a ∷ b ∷ c ∷ rest)
  unfolding put_three
  put_three-append done x y z rest i a b c h =
      let first = put-append done x (y ∷ z ∷ rest) i a h in
      let second : put (done ++ a ∷ y ∷ z ∷ rest) (i + 1) b ≡ some (done ++ a ∷ b ∷ z ∷ rest) =
        simp append_assoc at (
          put-append (done ++ a ∷ []) y (z ∷ rest) (i + 1) b
            (omega (arith, length-append done (a ∷ [])))) in
      let third : put (done ++ a ∷ b ∷ z ∷ rest) (i + 2) c ≡ some (done ++ a ∷ b ∷ c ∷ rest) =
        simp append_assoc at (
          put-append (done ++ a ∷ b ∷ []) z rest (i + 2) c
            (omega (arith, length-append done (a ∷ b ∷ [])))) in
      rw first (rw second third)

  pub ptr_array-add : (m n : ℕ) (d : A) → ptr_array (m + n) d ≡ ptr_array m d ++ ptr_array n d
  unfolding ptr_array
  ptr_array-add zero n d = let e : 0 + n ≡ n = omega arith in rw e refl
  ptr_array-add (suc m) n d =
      let e : suc m + n ≡ suc (m + n) = omega arith in rw (e, ptr_array-add m n d) refl
