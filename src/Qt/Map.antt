-- ===== src/Qt/Map.antt =====
-- QMap: an association list in the order of its keys, one entry for each key.
use vray_for_houdini.Base.{
  ℕ, ◌≡◌, refl, ◌↔◌, Bool, true, List, [], ◌∷◌, Option, none, some, arith, ltb, ◌==◌, ==_iff,
  if◌then◌else◌,
}
use vray_for_houdini.Qt.Text.{QString, is_empty, same_text, less_text, same_text_iff}

-- What QMap asks of a key type: equality and `operator<`.
pub record Key {ℓ} (K : Type ℓ) : Type ℓ where
  pub same : K → K → Bool
  pub less : K → K → Bool
  pub same_iff : (a b : K) → (same a b ≡ true) ↔ (a ≡ b)

instance abbrev pub text_key : Key QString
text_key = record { same = same_text; less = less_text; same_iff = same_text_iff }

instance abbrev pub number_key : Key ℕ
number_key = record { same = ◌==◌; less = ltb; same_iff = ==_iff }

abbrev pub QMap {ℓ κ} : Type ℓ → Type κ → Type (ℓ ⊔ κ)
QMap K V = List (K × V)

module _ {ℓ κ} {K : Type ℓ} {V : Type κ} ⦃o : Key K⦄ where
  unfoldable pub find : K → QMap K V → Option V
  find k [] = none
  find k ((j, v) ∷ m) = if o.same j k then some v else find k m

  -- `m[k] = v`
  unfoldable pub insert : K → V → QMap K V → QMap K V
  insert k v [] = (k, v) ∷ []
  insert k v ((j, w) ∷ m) =
      let rest = (j, w) ∷ insert k v m in
      if o.same j k then (k, v) ∷ m else if o.less k j then (k, v) ∷ (j, w) ∷ m else rest

  unfoldable pub remove : K → QMap K V → QMap K V
  remove k [] = []
  remove k ((j, w) ∷ m) = if o.same j k then remove k m else (j, w) ∷ remove k m

  -- `m[k]`, which inserts the default value where the key is missing: the value that is there.
  unfoldable pub find_or : K → V → QMap K V → V
  unfolding find
  find_or k d m = elim (find k m) [ none ↦ d | some v ↦ v ]

  pub remove_absent : (k : K) (m : QMap K V) → find k m ≡ none → remove k m ≡ m
  unfolding find remove
  remove_absent k [] h = refl
  remove_absent k ((j, w) ∷ m) h = ground (arith, remove_absent k m)

  pub find-insert :
      (k j : K) (v : V) (m : QMap K V)
      → find j (insert k v m) ≡ (if o.same k j then some v else find j m)
  unfolding find insert
  find-insert k j v [] = refl
  find-insert k j v ((i, w) ∷ m) =
      ground (arith, o.same_iff k j, o.same_iff i k, o.same_iff i j, find-insert k j v m)

  pub find-remove :
      (k j : K) (m : QMap K V) → find j (remove k m) ≡ (if o.same k j then none else find j m)
  unfolding find remove
  find-remove k j [] = ground arith
  find-remove k j ((i, w) ∷ m) =
      ground (arith, o.same_iff k j, o.same_iff i k, o.same_iff i j, find-remove k j m)

pub same_refl {ℓ} : {K : Type ℓ} ⦃o : Key K⦄ (k : K) → o.same k k ≡ true
same_refl ⦃o⦄ k = (o.same_iff k k).1 refl

module _ {ℓ κ} {K : Type ℓ} {V : Type κ} ⦃o : Key K⦄ where
  -- An entry that is added under a new key and removed again leaves the map as it was.
  pub remove-insert_new :
      (k : K) (v : V) (m : QMap K V) → find k m ≡ none → remove k (insert k v m) ≡ m
  unfolding find insert remove
  remove-insert_new k v [] h = ground (arith, o.same_iff k k)
  remove-insert_new k v ((j, w) ∷ m) h =
      ground (arith, o.same_iff k k, remove_absent k m, remove-insert_new k v m)

  pub find_or-insert :
      (k j : K) (d v : V) (m : QMap K V)
      → find_or j d (insert k v m) ≡ (if o.same k j then v else find_or j d m)
  unfolding find_or
  find_or-insert k j d v m = ground (arith, find-insert k j v m)

  pub find_or-remove :
      (k j : K) (d : V) (m : QMap K V)
      → find_or j d (remove k m) ≡ (if o.same k j then d else find_or j d m)
  unfolding find_or
  find_or-remove k j d m = ground (arith, find-remove k j m)

  pub find_or_empty : (j : K) (d : V) (m : QMap K V) → is_empty m ≡ true → find_or j d m ≡ d
  unfolding find_or find
  find_or_empty j d [] h = refl
  find_or_empty j d (e ∷ m) h = cc

  pub find_empty : (j : K) (m : QMap K V) → is_empty m ≡ true → find j m ≡ none
  unfolding find
  find_empty j [] h = refl
  find_empty j (e ∷ m) h = cc

  -- The last of two writes under one key is the one that counts.
  pub insert-insert : (k : K) (v w : V) (m : QMap K V) → insert k v (insert k w m) ≡ insert k v m
  unfolding insert
  insert-insert k v w [] = ground (arith, o.same_iff k k)
  insert-insert k v w ((j, u) ∷ m) =
      ground (arith, o.same_iff k k, o.same_iff j k, insert-insert k v w m)
