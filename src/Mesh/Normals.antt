-- ===== src/Mesh/Normals.antt =====
-- `getVertices`, `getNormals`, `getFaceNormals` and `getVelocities`.
use vray_for_houdini.Base.{
  ℕ, ◌+◌, ◌*◌, Bool, true, false, List, Option, none, some, if◌then◌else◌, ◌>>=◌,
}
use vray_for_houdini.Qt.Text.{is_empty}
use vray_for_houdini.Attrs.RefList.{ptr_array}
use vray_for_houdini.Mesh.Array.{put_three}
use vray_for_houdini.Mesh.Shape.{GeoPrim, Triangle, for_prims}
use vray_for_houdini.Mesh.Faces.{MeshCache, get_num_faces, get_faces}
use vray_for_houdini.Mesh.Attributes.{
  Owner, on_points, on_vertices, on_other, Vectors, Attribute, get_data_from_attribute,
}

-- A geometry detail: its primitives, its points, and its attributes by the call that finds them.
-- `computed_normal` is what `addNormalAttribute` makes, after `GEOcomputeNormals`.
pub record Detail (v : Vectors) : Type 0 where
  pub prim_list : List GeoPrim
  pub positions : Option (Attribute v)
  pub point_normal : Option (Attribute v)
  pub vertex_normal : Option (Attribute v)
  pub internal_normal : Option (Attribute v)
  pub computed_normal : Option (Attribute v)
  pub velocity : Option (Attribute v)

-- A list of indices, and the index of the next write.
pub record Indices : Type 0 where
  pub items : List ℕ
  pub next : ℕ

unfoldable pub put_normals : Triangle → Indices → Option Indices
unfolding put_three
put_normals t b = do
  items ← put_three b.items b.next t.v0.vertex t.v1.vertex t.v2.vertex
  some (record { items = items; next = b.next + 3 })

abbrev pub first_of {ℓ} : {A : Type ℓ} → Option A → Option A → Option A
first_of none b = b
first_of (some a) b = some a

abbrev pub is_some {ℓ} : {A : Type ℓ} → Option A → Bool
is_some none = false
is_some (some a) = true

module _ {v : Vectors} where
  abbrev pub found_normal : Detail v → Option (Attribute v)
  found_normal g = first_of g.point_normal (first_of g.vertex_normal g.internal_normal)

  unfoldable pub get_vertices : Detail v → MeshCache v.V → MeshCache v.V
  unfolding get_data_from_attribute
  get_vertices g m =
      if is_empty m.vertices
      then record m { vertices = (get_data_from_attribute v g.positions m.vertices).1 }
      else m

  unfoldable pub get_velocities : Detail v → MeshCache v.V → MeshCache v.V
  unfolding get_data_from_attribute
  get_velocities g m =
      if is_empty m.velocities
      then record m { velocities = (get_data_from_attribute v g.velocity m.velocities).1 }
      else m

  -- The normals of vertices have faces of their own.
  unfoldable pub get_vertex_faces : Detail v → MeshCache v.V → Option (MeshCache v.V)
  unfolding get_num_faces for_prims put_normals ptr_array
  get_vertex_faces g m =
      let (counted, n) = get_num_faces g.prim_list m in
      do
        filled ←
            for_prims put_normals g.prim_list (record { items = ptr_array (n * 3) 0; next = 0 })
        some (record counted { face_normals = filled.items })

  unfoldable pub get_point_faces : Detail v → MeshCache v.V → Option (MeshCache v.V)
  unfolding get_faces
  get_point_faces g m = do
    filled ← get_faces g.prim_list m
    some (record filled { face_normals = filled.faces })

  abbrev pub faces_by_owner : Owner → Detail v → MeshCache v.V → Option (MeshCache v.V)
  faces_by_owner on_vertices g m = get_vertex_faces g m
  faces_by_owner on_points g m = get_point_faces g m
  faces_by_owner on_other g m = get_point_faces g m

  -- The switch on the owner of the attribute that was read.
  abbrev get_owner_faces : Option (Attribute v) → Detail v → MeshCache v.V → Option (MeshCache v.V)
  get_owner_faces none g m = none
  get_owner_faces (some a) g m = faces_by_owner a.owner g m

  -- The members, and whether a computed attribute is left in the detail.
  unfoldable pub get_normals : Detail v → MeshCache v.V → Option (MeshCache v.V × Bool)
  unfolding get_data_from_attribute get_vertex_faces get_point_faces
  get_normals g m =
      let added = if is_some (found_normal g) then none else g.computed_normal in
      let attr = first_of (found_normal g) added in
      let (ok, values) = get_data_from_attribute v attr m.normals in
      let filled : Option (MeshCache v.V × Bool) = (do
        m' ← get_owner_faces attr g (record m { normals = values })
        some (m', false)) in
      if is_empty m.normals
      then if ok then filled else some (record m { normals = values }, is_some added)
      else some (m, false)

  unfoldable pub get_face_normals :
      Detail v → MeshCache v.V → Option (MeshCache v.V × List ℕ × Bool)
  unfolding get_normals
  get_face_normals g m =
      let filled : Option (MeshCache v.V × List ℕ × Bool) = (do
        r ← get_normals g m
        some (r.0, r.0.face_normals, r.1)) in
      if is_empty m.face_normals then filled else some (m, m.face_normals, false)
