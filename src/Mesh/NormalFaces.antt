-- ===== src/Mesh/NormalFaces.antt =====
-- The faces that index the normals, by the owner of the attribute.
use vray_for_houdini.Base.{
  ℕ, suc, ◌+◌, ◌*◌, ◌≡◌, refl, sym, ◌∙◌, true, false, List, [], ◌∷◌, ◌++◌, Option, none, some,
  arith, ltb, if◌then◌else◌, length, length-append, append_assoc, Bool-cases, inl, inr,
}
use vray_for_houdini.Attrs.RefList.{ptr_array}
use vray_for_houdini.Mesh.Array.{put_three-append}
use vray_for_houdini.Mesh.Shape.{Corner, Triangle, face_count}
use vray_for_houdini.Mesh.Fan.{run, for_prims-run, mesh_triangles, length-mesh_triangles}
use vray_for_houdini.Mesh.Faces.{MeshCache, get_num_faces}
use vray_for_houdini.Mesh.Filled.{
  flatten, ptr_array_three, get_faces_lem, get_faces_empty, flatten_empty,
}
use vray_for_houdini.Mesh.Attributes.{
  Owner, on_points, on_vertices, on_other, Vectors, Attribute, get_data_from_attribute,
}
use vray_for_houdini.Mesh.Normals.{
  Detail, Indices, put_normals, first_of, is_some, found_normal, get_vertex_faces, get_point_faces,
  faces_by_owner, get_normals,
}

abbrev pub index_by : Owner → Corner → ℕ
index_by on_vertices c = c.vertex
index_by on_points c = c.point
index_by on_other c = c.point

run-put_normals :
    (ts : List Triangle) (done : List ℕ) (next : ℕ)
    → next ≡ length done
    → run put_normals ts (record { items = done ++ ptr_array (length ts * 3) 0; next = next })
      ≡ some (record {
        items = done ++ flatten (index_by on_vertices) ts;
        next = next + length ts * 3;
      })
unfolding run put_normals
run-put_normals [] done next e =
    let same : next + 0 ≡ next = omega arith in unfold ptr_array in simp same
run-put_normals (t ∷ ts) done next e =
    let corners = t.v0.vertex ∷ t.v1.vertex ∷ t.v2.vertex ∷ [] in
    let rest =
      run-put_normals ts (done ++ corners) (next + 3) (omega (arith, length-append done corners)) in
    let first =
      put_three-append done 0 0 0 (ptr_array (length ts * 3) 0) next t.v0.vertex t.v1.vertex
        t.v2.vertex e in
    let end : next + 3 + length ts * 3 ≡ next + suc (length ts) * 3 = omega arith in
    rw (ptr_array_three (length ts), first) (simp (append_assoc, end) at rest)

module _ {v : Vectors} (g : Detail v) (m : MeshCache v.V) (new : m.num_faces ≡ none) where
  vertex_faces_lem :
      get_vertex_faces g m
      ≡ some (record m {
        num_faces = some (face_count g.prim_list);
        face_normals = flatten (index_by on_vertices) (mesh_triangles g.prim_list);
      })
  unfolding get_vertex_faces get_num_faces
  vertex_faces_lem =
      let ts = mesh_triangles g.prim_list in
      let n = face_count g.prim_list in
      let start : Indices = record { items = ptr_array (n * 3) 0; next = 0 } in
      let ran = rw (length-mesh_triangles g.prim_list) at (run-put_normals ts [] 0 refl) in
      simp (new, for_prims-run put_normals g.prim_list start ∙ ran)

  point_faces_lem :
      m.faces ≡ []
      → (m' : MeshCache v.V) × (get_point_faces g m ≡ some m')
        × (m'.normals ≡ m.normals)
        × (m'.face_normals ≡ flatten (index_by on_points) (mesh_triangles g.prim_list))
  unfolding get_point_faces
  point_faces_lem empty = elim (Bool-cases (ltb 0 (face_count g.prim_list))) [
    | inl some_face ↦
        let filled = get_faces_lem g.prim_list m empty new (ground arith) in
        (
          record m {
            num_faces = some (face_count g.prim_list);
            faces = flatten (index_by on_points) (mesh_triangles g.prim_list);
            edge_visibility = filled.0;
            face_normals = flatten (index_by on_points) (mesh_triangles g.prim_list);
          },
          rw (filled.1) refl,
          refl,
          refl,
        )
    | inr no_face ↦
        let none_left : face_count g.prim_list ≡ 0 = ground arith in
        let count = length-mesh_triangles g.prim_list in
        let no_points =
          flatten_empty (index_by on_points) (mesh_triangles g.prim_list) (count ∙ none_left) in
        (
          record m { num_faces = some 0; face_normals = m.faces },
          rw (get_faces_empty g.prim_list m new none_left) (rw empty refl),
          refl,
          empty ∙ sym no_points,
        )
  ]

  by_owner_lem :
      (o : Owner)
      → m.faces ≡ []
      → (m' : MeshCache v.V) × (faces_by_owner o g m ≡ some m')
        × (m'.normals ≡ m.normals)
        × (m'.face_normals ≡ flatten (index_by o) (mesh_triangles g.prim_list))
  by_owner_lem on_points empty = point_faces_lem empty
  by_owner_lem on_other empty = point_faces_lem empty
  by_owner_lem on_vertices empty = (
    record m {
      num_faces = some (face_count g.prim_list);
      face_normals = flatten (index_by on_vertices) (mesh_triangles g.prim_list);
    },
    vertex_faces_lem,
    refl,
    refl,
  )

first_of_added {ℓ} :
    {A : Type ℓ} (o c : Option A) → first_of o (if is_some o then none else c) ≡ first_of o c
first_of_added none c = refl
first_of_added (some a) c = refl

-- Where the normal attribute of the detail, or the computed one if none is found, is read,
-- `getNormals`, on members with nothing kept yet, stays within its lists, keeps the values and
-- leaves faces that index them by the vertices of all triangles, or by the points if the attribute
-- is not one of vertices; and no computed attribute stays in the detail.
pub get_normals_lem :
    {v : Vectors} (g : Detail v) (m : MeshCache v.V) (a : Attribute v) (values : List v.V)
    → m.normals ≡ []
    → m.faces ≡ []
    → m.num_faces ≡ none
    → first_of (found_normal g) g.computed_normal ≡ some a
    → get_data_from_attribute v (some a) [] ≡ (true, values)
    → (m' : MeshCache v.V) × (get_normals g m ≡ some (m', false))
      × (m'.normals ≡ values)
      × (m'.face_normals ≡ flatten (index_by a.owner) (mesh_triangles g.prim_list))
unfolding get_normals
get_normals_lem g m a values no_normals no_faces new found read =
    let attr = first_of_added (found_normal g) g.computed_normal ∙ found in
    let owned = by_owner_lem g (record m { normals = values }) new a.owner no_faces in
    (owned.0, simp (attr, no_normals, read, owned.1), owned.2, owned.3)
