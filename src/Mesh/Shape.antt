-- ===== src/Mesh/Shape.antt =====
-- The primitives that the mesh export reads, and its loops over their triangles: each loop of
-- src/export/export/vfh_export_mesh.cpp over primitives, polygons of a soup and corners is
-- `for_prims`, with what stands in the innermost loop as `body`.
use vray_for_houdini.Base.{
  ℕ, zero, suc, ◌+◌, ◌-◌, ◌*◌, Bool, true, false, List, [], ◌∷◌, Option, some, ◌==◌, ltb,
  if◌then◌else◌, length, get_elem?, ◌>>=◌,
}
use Prim.Native.Nat.{bit_or}

-- What `getPointIndex(i)` and `getVertexIndex(i)` give for one corner of a polygon.
pub record Corner : Type 0 where
  pub point : ℕ
  pub vertex : ℕ

abbrev pub Polygon : Type 0
Polygon = List Corner

-- A primitive by its type: GEO_PRIMPOLY, GEO_PRIMPOLYSOUP, and the rest.
pub data GeoPrim : Type 0 where
  poly : Polygon → GeoPrim
  poly_soup : List Polygon → GeoPrim
  other_prim : GeoPrim

-- The corners that one round of the innermost loop reads, in the order in which they are written,
-- and its tests on `i` for the mask of the edges.
pub record Triangle : Type 0 where
  pub v0 : Corner
  pub v1 : Corner
  pub v2 : Corner
  pub is_first : Bool
  pub is_last : Bool

abbrev pub bit : Bool → ℕ
bit true = 1
bit false = 0

-- `edgeMask`
unfoldable pub edge_mask : Triangle → ℕ
edge_mask t = bit_or (bit_or 1 (bit t.is_first * 2)) (bit t.is_last * 4)

unfoldable pub triangle_at : Polygon → ℕ → Option Triangle
triangle_at p i = do
  v0 ← get_elem? p (i + 1)
  v1 ← get_elem? p i
  v2 ← get_elem? p 0
  some (record { v0 = v0; v1 = v1; v2 = v2; is_first = i == 1; is_last = i == length p - 2 })

module _ {S : Type 0} (body : Triangle → S → Option S) where
  -- `for (i = 1; i < vCnt - 1; ++i)`, with `rounds` rounds left.
  unfoldable pub for_triangles : ℕ → ℕ → Polygon → S → Option S
  unfolding triangle_at
  for_triangles zero i p s = some s
  for_triangles (suc rounds) i p s = do
    t ← triangle_at p i
    s' ← body t s
    for_triangles rounds (suc i) p s'

  -- A face is valid only if the vertex count is at least 3.
  unfoldable pub for_polygon : Polygon → S → Option S
  unfolding for_triangles
  for_polygon p s = if ltb 2 (length p) then for_triangles (length p - 2) 1 p s else some s

  unfoldable pub for_soup : List Polygon → S → Option S
  unfolding for_polygon
  for_soup [] s = some s
  for_soup (p ∷ ps) s = do s' ← for_polygon p s; for_soup ps s'

  unfoldable pub for_prim : GeoPrim → S → Option S
  unfolding for_polygon for_soup
  for_prim (poly p) s = for_polygon p s
  for_prim (poly_soup ps) s = for_soup ps s
  for_prim other_prim s = some s

  unfoldable pub for_prims : List GeoPrim → S → Option S
  unfolding for_prim
  for_prims [] s = some s
  for_prims (p ∷ ps) s = do s' ← for_prim p s; for_prims ps s'

-- `getPolySopuFaceCount`
unfoldable pub soup_face_count : List Polygon → ℕ
soup_face_count [] = 0
soup_face_count (p ∷ ps) = length p - 2 + soup_face_count ps

abbrev pub prim_face_count : GeoPrim → ℕ
prim_face_count (poly p) = length p - 2
prim_face_count (poly_soup ps) = soup_face_count ps
prim_face_count other_prim = 0

-- The loop of `getNumFaces`.
unfoldable pub face_count : List GeoPrim → ℕ
unfolding soup_face_count
face_count [] = 0
face_count (p ∷ ps) = prim_face_count p + face_count ps
