-- ===== src/Mesh/SoupMesh.antt =====
-- The faces of a soup's mesh lead to the vertices of the detail that its polygons have.
use vray_for_houdini.Base.{
  ℕ, zero, suc, ◌+◌, ◌-◌, ◌≤◌, ◌<◌, ◌≡◌, refl, ◌∙◌, List, [], ◌∷◌, map, Option, none, some, arith,
  length, get_elem?, All,
}
use vray_for_houdini.Attrs.RefList.{ptr_array}
use vray_for_houdini.Mesh.Array.{length-ptr_array}
use vray_for_houdini.Mesh.Shape.{Polygon, Triangle, soup_face_count}
use vray_for_houdini.Mesh.Fan.{for_soup-run, soup_triangles, length-soup_triangles}
use vray_for_houdini.Mesh.Faces.{word_count}
use vray_for_houdini.Mesh.Marks.{marked}
use vray_for_houdini.Mesh.Filled.{points, words_room}
use vray_for_houdini.Mesh.Soup.{
  MinMax, no_points, raise, update_min_max_pair, put_soup_face, SoupMesh, take_exactly, copy_range,
  range_vertices, soup_mesh,
}
use vray_for_houdini.Mesh.SoupFaces.{range_after, run-put_soup_face}

abbrev top_of : Option ℕ → ℕ
top_of none = 0
top_of (some h) = h

abbrev Within : MinMax → ℕ → Type 0
Within r p = (r.lowest ≤ p) × (p ≤ top_of r.highest)

raise_lem : (value : ℕ) (o : Option ℕ) → (value ≤ raise value o) × (top_of o ≤ raise value o)
raise_lem value none = omega arith
raise_lem value (some h) = omega arith

raise-lt : (value n : ℕ) (o : Option ℕ) → value < n → top_of o < n → raise value o < n
raise-lt value n none h k = h
raise-lt value n (some x) h k = omega arith

update_min_max_pair_lem :
    (value : ℕ) (r : MinMax)
    → Within (update_min_max_pair value r) value
      × ((update_min_max_pair value r).lowest ≤ r.lowest)
      × (top_of r.highest ≤ top_of (update_min_max_pair value r).highest)
unfolding update_min_max_pair
update_min_max_pair_lem value r = omega (arith, raise_lem value r.highest)

abbrev after_one : Triangle → MinMax → MinMax
after_one t r = range_after (t ∷ []) r

after_one_lem :
    (t : Triangle) (r : MinMax)
    → Within (after_one t r) t.v0.point
      × Within (after_one t r) t.v1.point
      × Within (after_one t r) t.v2.point
      × ((after_one t r).lowest ≤ r.lowest)
      × (top_of r.highest ≤ top_of (after_one t r).highest)
after_one_lem t r =
    let last = update_min_max_pair t.v2.point r in
    let middle = update_min_max_pair t.v1.point last in
    omega (
      arith,
      update_min_max_pair_lem t.v2.point r,
      update_min_max_pair_lem t.v1.point last,
      update_min_max_pair_lem t.v0.point middle,
    )

range_grows :
    (ts : List Triangle) (r : MinMax)
    → ((range_after ts r).lowest ≤ r.lowest)
      × (top_of r.highest ≤ top_of (range_after ts r).highest)
range_grows [] r = omega arith
range_grows (t ∷ ts) r = omega (arith, after_one_lem t r, range_grows ts (after_one t r))

range_covers : (ts : List Triangle) (r : MinMax) → All (Within (range_after ts r)) (points ts)
range_covers [] r = tt
range_covers (t ∷ ts) r =
    let here = after_one_lem t r in
    let grows = range_grows ts (after_one t r) in
    (omega arith, (omega arith, (omega arith, range_covers ts (after_one t r))))

range_below :
    (ts : List Triangle) (r : MinMax) (n : ℕ)
    → All (λ p. p < n) (points ts)
    → top_of r.highest < n
    → top_of (range_after ts r).highest < n
unfolding update_min_max_pair
range_below [] r n h k = k
range_below (t ∷ ts) r n h k = range_below ts (after_one t r) n h.1.1.1 (
    raise-lt t.v0.point n (some (raise t.v1.point (some (raise t.v2.point r.highest)))) h.0 (
      raise-lt t.v1.point n (some (raise t.v2.point r.highest)) h.1.0
        (raise-lt t.v2.point n r.highest h.1.1.0 k)))

range_some :
    (ts : List Triangle) (r : MinMax) (x : ℕ)
    → r.highest ≡ some x
    → (range_after ts r).highest ≡ some (top_of (range_after ts r).highest)
unfolding update_min_max_pair
range_some [] r x h = rw h refl
range_some (t ∷ ts) r x h =
    range_some ts (after_one t r)
      (raise t.v0.point (some (raise t.v1.point (some (raise t.v2.point r.highest))))) refl

-- The range of some triangles, from the start of the loop.
real_range :
    (ts : List Triangle) (n : ℕ)
    → 0 < length ts
    → All (λ p. p < n) (points ts)
    → let r = range_after ts no_points in
      (r.highest ≡ some (top_of r.highest)) × (r.lowest ≤ top_of r.highest) × (top_of r.highest < n)
unfolding update_min_max_pair
real_range [] n some_face h = absurd (omega arith)
real_range (t ∷ ts) n some_face h =
    let here = (range_covers (t ∷ ts) no_points).0 in
    (
      range_some ts (after_one t no_points)
          (raise t.v0.point (some (raise t.v1.point (some (raise t.v2.point none))))) refl,
      omega arith,
      range_below (t ∷ ts) no_points n h (omega (arith, h.0)),
    )

module _ {V : Type 0} where
  agree_cons :
      (x : V) (ys xs : List V) (n : ℕ)
      → ((i : ℕ) → i < n → get_elem? ys i ≡ get_elem? xs i)
      → (i : ℕ) → i < suc n
      → get_elem? (x ∷ ys) i ≡ get_elem? (x ∷ xs) i
  agree_cons x ys xs n h zero k = refl
  agree_cons x ys xs n h (suc i) k = h i (omega arith)

  take_exactly_lem :
      (n : ℕ) (xs : List V)
      → n ≤ length xs
      → (ys : List V) × (take_exactly n xs ≡ some ys)
        × ((i : ℕ) → i < n → get_elem? ys i ≡ get_elem? xs i)
  unfolding take_exactly
  take_exactly_lem zero xs h = ([], refl, λ i k. absurd (omega arith))
  take_exactly_lem (suc n) [] h = absurd (omega arith)
  take_exactly_lem (suc n) (x ∷ xs) h =
      let taken = take_exactly_lem n xs (omega arith) in
      (x ∷ taken.0, rw (taken.1) refl, agree_cons x taken.0 xs n taken.2)

  copy_range_lem :
      (lo n : ℕ) (xs : List V)
      → lo + n ≤ length xs
      → (ys : List V) × (copy_range lo n xs ≡ some ys)
        × ((i : ℕ) → i < n → get_elem? ys i ≡ get_elem? xs (lo + i))
  unfolding copy_range
  copy_range_lem zero n xs h =
      let taken = take_exactly_lem n xs (omega arith) in
      (taken.0, taken.1, λ i k. let e : 0 + i ≡ i = omega arith in rw e (taken.2 i k))
  copy_range_lem (suc lo) n [] h = absurd (omega arith)
  copy_range_lem (suc lo) n (x ∷ xs) h =
      let copied = copy_range_lem lo n xs (omega arith) in
      (
        copied.0,
        copied.1,
        λ i k. let e : suc lo + i ≡ suc (lo + i) = omega arith in rw e (copied.2 i k),
      )

  range_vertices_lem :
      (r : MinMax) (h : ℕ) (all : List V)
      → r.highest ≡ some h
      → range_vertices r all ≡ copy_range r.lowest (h + 1 - r.lowest) all
  unfolding range_vertices
  range_vertices_lem r h all e = ground arith

  shift_back :
      (ys all : List V) (r : MinMax) (n : ℕ) (ps : List ℕ)
      → ((i : ℕ) → i < n → get_elem? ys i ≡ get_elem? all (r.lowest + i))
      → n ≡ top_of r.highest + 1 - r.lowest
      → All (Within r) ps
      → map (get_elem? ys) (map (λ f. f - r.lowest) ps) ≡ map (get_elem? all) ps
  shift_back ys all r n [] agree e h = refl
  shift_back ys all r n (p ∷ ps) agree e h =
      let here : r.lowest + (p - r.lowest) ≡ p = omega arith in
      let found = rw here at (agree (p - r.lowest) (omega arith)) in
      rw (found, shift_back ys all r n ps agree e h.1) refl

  -- A soup with a face, whose points are among the vertices of the detail, gives a mesh within the
  -- bounds of all lists: each of its faces leads to the vertices that the detail has at the points of
  -- the triangle.
  pub soup_mesh_lem :
      (unset : ℕ) (soup : List Polygon) (all : List V)
      → 0 < soup_face_count soup
      → All (λ p. p < length all) (points (soup_triangles soup))
      → (m : SoupMesh V) × (soup_mesh unset soup all ≡ some m)
        × (map (get_elem? m.vertices) m.faces ≡ map (get_elem? all) (points (soup_triangles soup)))
  unfolding soup_mesh
  soup_mesh_lem unset soup all some_face inside =
      let ts = soup_triangles soup in
      let n = soup_face_count soup in
      let count = length-soup_triangles soup in
      let words : List ℕ = ptr_array (word_count n) unset in
      let r = range_after ts no_points in
      let real = real_range ts (length all) (omega arith) inside in
      let copied =
        copy_range_lem r.lowest (top_of r.highest + 1 - r.lowest) all
          (omega (arith, real.1, real.2)) in
      let vertices = range_vertices_lem r (top_of r.highest) all real.0 ∙ copied.1 in
      let ran =
        run-put_soup_face ts [] words 0 0 no_points refl
          (omega (arith, words_room n, length-ptr_array (word_count n) unset)) in
      (
        record {
          faces = map (λ f. f - r.lowest) (points ts);
          edge_visibility = marked ts 0 words;
          vertices = copied.0;
        },
        simp (for_soup-run put_soup_face soup _, rw count at ran, vertices),
        shift_back copied.0 all r (top_of r.highest + 1 - r.lowest) (points ts) copied.2 refl
            (range_covers ts no_points),
      )
