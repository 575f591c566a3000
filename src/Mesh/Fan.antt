-- ===== src/Mesh/Fan.antt =====
-- The triangles of a mesh, as fans of its polygons, and the loops as a run over them.
use vray_for_houdini.Base.{
  ℕ, zero, suc, ◌+◌, ◌-◌, ◌≡◌, refl, ap, Bool, true, false, List, [], ◌∷◌, ◌++◌, Option, none, some,
  arith, ◌==◌, ltb, length, length-append, get_elem?, ◌>>=◌, append_assoc, bind_congr,
}
use vray_for_houdini.Qt.Text.{is_empty}
use vray_for_houdini.Mesh.Shape.{
  Corner, Polygon, GeoPrim, poly, poly_soup, other_prim, Triangle, triangle_at, for_triangles,
  for_polygon, for_soup, for_prim, for_prims, soup_face_count, prim_face_count, face_count,
}

-- The triangles round `apex`: each has two neighbours of the polygon and the apex. The edge to the
-- apex is one of the polygon in the first and the last one only.
abbrev pub fan : Bool → Corner → List Corner → List Triangle
fan first apex [] = []
fan first apex (b ∷ []) = []
fan first apex (b ∷ a ∷ rest) =
    record { v0 = a; v1 = b; v2 = apex; is_first = first; is_last = is_empty rest }
    ∷ fan false apex (a ∷ rest)

abbrev pub polygon_triangles : Polygon → List Triangle
polygon_triangles [] = []
polygon_triangles (apex ∷ corners) = fan true apex corners

abbrev pub soup_triangles : List Polygon → List Triangle
soup_triangles [] = []
soup_triangles (p ∷ ps) = polygon_triangles p ++ soup_triangles ps

abbrev pub prim_triangles : GeoPrim → List Triangle
prim_triangles (poly p) = polygon_triangles p
prim_triangles (poly_soup ps) = soup_triangles ps
prim_triangles other_prim = []

abbrev pub mesh_triangles : List GeoPrim → List Triangle
mesh_triangles [] = []
mesh_triangles (p ∷ ps) = prim_triangles p ++ mesh_triangles ps

get_elem?-append :
    (done : List Corner) (x : Corner) (rest : List Corner) (i : ℕ)
    → i ≡ length done
    → get_elem? (done ++ x ∷ rest) i ≡ some x
get_elem?-append [] x rest zero h = refl
get_elem?-append [] x rest (suc i) h = absurd (omega arith)
get_elem?-append (y ∷ done) x rest zero h = absurd (omega arith)
get_elem?-append (y ∷ done) x rest (suc i) h = get_elem?-append done x rest i (omega arith)

get_elem?-append_second :
    (done : List Corner) (x y : Corner) (rest : List Corner)
    → get_elem? (done ++ x ∷ y ∷ rest) (suc (length done)) ≡ some y
get_elem?-append_second [] x y rest = refl
get_elem?-append_second (z ∷ done) x y rest = get_elem?-append_second done x y rest

last_lem :
    (done : List Corner) (apex b a : Corner) (rest : List Corner)
    → suc (length done) == length (apex ∷ (done ++ b ∷ a ∷ rest)) - 2 ≡ is_empty rest
last_lem done apex b a [] = ground (arith, length-append done (b ∷ a ∷ []))
last_lem done apex b a (c ∷ rest) = ground (arith, length-append done (b ∷ a ∷ c ∷ rest))

triangle_at_lem :
    (done : List Corner) (apex b a : Corner) (rest : List Corner) (p : Polygon) (i : ℕ)
    → p ≡ apex ∷ (done ++ b ∷ a ∷ rest)
    → i ≡ suc (length done)
    → triangle_at p i
      ≡ some (record { v0 = a; v1 = b; v2 = apex; is_first = i == 1; is_last = is_empty rest })
unfolding triangle_at
triangle_at_lem done apex b a rest p i e h =
    let at_b : get_elem? p i ≡ some b =
      rw (e, h) (get_elem?-append done b (a ∷ rest) (length done) refl) in
    let at_a : get_elem? p (i + 1) ≡ some a =
      let next : i + 1 ≡ suc (suc (length done)) = omega arith in
      rw (e, next) (get_elem?-append_second done b a rest) in
    let last : i == length p - 2 ≡ is_empty rest = rw (e, h) (last_lem done apex b a rest) in
    let at_apex : get_elem? p 0 ≡ some apex = rw e in simp (at_a, at_b, at_apex, last)

module _ {S : Type 0} (body : Triangle → S → Option S) where
  -- The body on each triangle, in order.
  unfoldable pub run : List Triangle → S → Option S
  run [] s = some s
  run (t ∷ ts) s = do s' ← body t s; run ts s'

  pub run-append : (xs ys : List Triangle) (s : S) → run (xs ++ ys) s ≡ (run xs s >>= run ys)
  unfolding run
  run-append [] ys s = refl
  run-append (t ∷ xs) ys s =
      elim (body t s) as (λ o. (o >>= run (xs ++ ys)) ≡ (o >>= run xs >>= run ys)) [
        | none ↦ refl
        | some s' ↦ run-append xs ys s'
      ]

  for_triangles-run :
      (rest done : List Corner) (apex b : Corner) (p : Polygon) (i : ℕ) (s : S)
      → p ≡ apex ∷ (done ++ b ∷ rest)
      → i ≡ suc (length done)
      → for_triangles body (length rest) i p s ≡ run (fan (i == 1) apex (b ∷ rest)) s
  unfolding for_triangles run
  for_triangles-run [] done apex b p i s e h = refl
  for_triangles-run (a ∷ rest) done apex b p i s e h =
      let found = triangle_at_lem done apex b a rest p i e h in
      let shifted : suc i == 1 ≡ false = ground arith in
      let t : Triangle = record {
        v0 = a;
        v1 = b;
        v2 = apex;
        is_first = i == 1;
        is_last = is_empty rest;
      } in
      let next = λ (s' : S). rw shifted at (
        for_triangles-run rest (done ++ b ∷ []) apex a p (suc i) s' (rw append_assoc e)
          (omega (arith, length-append done (b ∷ [])))) in
      rw found (bind_congr (body t s) next)

  for_polygon-run : (p : Polygon) (s : S) → for_polygon body p s ≡ run (polygon_triangles p) s
  unfolding for_polygon
  for_polygon-run [] s = unfold run in refl
  for_polygon-run (a ∷ []) s = unfold run in refl
  for_polygon-run (a ∷ b ∷ []) s = unfold run in refl
  for_polygon-run (a ∷ b ∷ c ∷ rest) s =
      let p : Polygon = a ∷ b ∷ c ∷ rest in
      let rounds : length p - 2 ≡ suc (length rest) = omega arith in
      let valid : ltb 2 (length p) ≡ true = ground arith in
      rw (valid, rounds) (for_triangles-run (c ∷ rest) [] a b p 1 s refl refl)

  pub for_soup-run : (ps : List Polygon) (s : S) → for_soup body ps s ≡ run (soup_triangles ps) s
  unfolding for_soup
  for_soup-run [] s = unfold run in refl
  for_soup-run (p ∷ ps) s =
      simp (for_polygon-run p s, run-append (polygon_triangles p) (soup_triangles ps) s)
        (bind_congr (run (polygon_triangles p) s) (for_soup-run ps))

  pub for_prim-run : (p : GeoPrim) (s : S) → for_prim body p s ≡ run (prim_triangles p) s
  unfolding for_prim
  for_prim-run (poly p) s = for_polygon-run p s
  for_prim-run (poly_soup ps) s = for_soup-run ps s
  for_prim-run other_prim s = unfold run in refl

  -- The loops run their body on each triangle of the mesh, in order.
  pub for_prims-run : (ps : List GeoPrim) (s : S) → for_prims body ps s ≡ run (mesh_triangles ps) s
  unfolding for_prims
  for_prims-run [] s = unfold run in refl
  for_prims-run (p ∷ ps) s =
      simp (for_prim-run p s, run-append (prim_triangles p) (mesh_triangles ps) s)
        (bind_congr (run (prim_triangles p) s) (for_prims-run ps))

length-fan :
    (rest : List Corner) (first : Bool) (apex b : Corner)
    → length (fan first apex (b ∷ rest)) ≡ length rest
length-fan [] first apex b = refl
length-fan (a ∷ rest) first apex b = ap suc (length-fan rest false apex a)

length-polygon_triangles : (p : Polygon) → length (polygon_triangles p) ≡ length p - 2
length-polygon_triangles [] = refl
length-polygon_triangles (a ∷ []) = refl
length-polygon_triangles (a ∷ b ∷ rest) = omega (arith, length-fan rest true a b)

pub length-soup_triangles : (ps : List Polygon) → length (soup_triangles ps) ≡ soup_face_count ps
unfolding soup_face_count
length-soup_triangles [] = refl
length-soup_triangles (p ∷ ps) = omega (
  arith,
  length-append (polygon_triangles p) (soup_triangles ps),
  length-polygon_triangles p,
  length-soup_triangles ps,
)

pub length-prim_triangles : (p : GeoPrim) → length (prim_triangles p) ≡ prim_face_count p
length-prim_triangles (poly p) = length-polygon_triangles p
length-prim_triangles (poly_soup ps) = length-soup_triangles ps
length-prim_triangles other_prim = refl

pub length-mesh_triangles : (ps : List GeoPrim) → length (mesh_triangles ps) ≡ face_count ps
unfolding face_count
length-mesh_triangles [] = refl
length-mesh_triangles (p ∷ ps) = omega (
  arith,
  length-append (prim_triangles p) (mesh_triangles ps),
  length-prim_triangles p,
  length-mesh_triangles ps,
)
