-- ===== src/Tests/Meshes.antt =====
-- A mesh of a quadrilateral, a soup and a primitive that is no polygon.
use vray_for_houdini.Base.{
  ℕ, ◌≡◌, refl, ◌*◌, ◌+◌, true, false, List, [], ◌∷◌, Option, none, some, map, arith, length,
}
use vray_for_houdini.Qt.Text.{lit}
use vray_for_houdini.Attrs.RefList.{ptr_array}
use vray_for_houdini.Mesh.Shape.{
  Corner, Polygon, GeoPrim, poly, poly_soup, other_prim, edge_mask, face_count,
}
use vray_for_houdini.Mesh.Fan.{mesh_triangles}
use vray_for_houdini.Mesh.Faces.{MeshCache, reset, get_faces, word_count}
use vray_for_houdini.Mesh.Marks.{masks_from}
use vray_for_houdini.Mesh.Filled.{points, flatten, get_faces_lem}
use vray_for_houdini.Mesh.Attributes.{on_vertices, Vectors, Attribute, get_data_from_attribute}
use vray_for_houdini.Mesh.Normals.{Detail, get_normals}
use vray_for_houdini.Mesh.NormalFaces.{index_by, get_normals_lem}
use vray_for_houdini.Mesh.Materials.{
  MeshPrim, Sources, shapes, MatTable, no_materials, FaceIds, assign_ids, Materials, Exports, asks,
  get_material,
}
use vray_for_houdini.Mesh.FaceIds.{node_of, material_of, face_nodes, assign_ids_lem}
use vray_for_houdini.Mesh.Shared.{get_material-get_material}
use vray_for_houdini.Mesh.Shape.{soup_face_count}
use vray_for_houdini.Mesh.Fan.{soup_triangles}
use vray_for_houdini.Mesh.Soup.{SoupMesh, soup_mesh}
use vray_for_houdini.Mesh.SoupMesh.{soup_mesh_lem}
use vray_for_houdini.Base.{get_elem?}
use vray_for_houdini.Tests.Sample.{sdk}
use vray_for_houdini.Qt.Map

abbrev corner : ℕ → ℕ → Corner
corner p v = record { point = p; vertex = v }

abbrev quad : Polygon
quad = corner 0 0 ∷ corner 1 1 ∷ corner 2 2 ∷ corner 3 3 ∷ []

abbrev edge : Polygon
edge = corner 0 4 ∷ corner 2 5 ∷ []

abbrev side : Polygon
side = corner 0 6 ∷ corner 1 7 ∷ corner 4 8 ∷ []

abbrev prims : List GeoPrim
prims = poly quad ∷ other_prim ∷ poly_soup (edge ∷ side ∷ []) ∷ []

-- Both triangles of the quadrilateral hide the diagonal, and the third one no edge.
mesh_faces :
    get_faces {V = ℕ} prims reset
    ≡ some (record reset {
      num_faces = some 3;
      faces = 2 ∷ 1 ∷ 0 ∷ 3 ∷ 2 ∷ 0 ∷ 4 ∷ 1 ∷ 0 ∷ [];
      edge_visibility = (3 + 5 * 8 + 7 * 64) ∷ [];
    })
unfolding get_faces
mesh_faces = refl

get_faces_lem_example :
    (words : List ℕ) × (get_faces {V = ℕ} prims reset
      ≡ some (record reset {
        num_faces = some (face_count prims);
        faces = points (mesh_triangles prims);
        edge_visibility = words;
      }))
    × (masks_from (face_count prims) 0 words ≡ map edge_mask (mesh_triangles prims))
    × (length words ≡ word_count (face_count prims))
unfolding face_count
get_faces_lem_example = get_faces_lem prims reset refl refl (omega arith)

abbrev soup : List Polygon
soup = edge ∷ side ∷ []

abbrev positions : List ℕ
positions = 10 ∷ 11 ∷ 12 ∷ 13 ∷ 14 ∷ 15 ∷ []

soup_mesh_lem_example :
    (m : SoupMesh ℕ) × (soup_mesh 0 soup positions ≡ some m)
    × (map (get_elem? m.vertices) m.faces
        ≡ map (get_elem? positions) (points (soup_triangles soup)))
unfolding soup_face_count
soup_mesh_lem_example =
    soup_mesh_lem 0 soup positions (omega arith) (omega arith, (omega arith, (omega arith, tt)))

abbrev vectors : Vectors
vectors = record { V = ℕ; of_float = λ x. x; of_int = λ x. x; per_second = λ x. x }

abbrev normal : Attribute vectors
normal = record {
  name = lit "N";
  owner = on_vertices;
  is_valid = true;
  has_tuple = true;
  tuple_size = 3;
  is_float = true;
  is_int = false;
  vectors = some (1 ∷ 2 ∷ 3 ∷ []);
  numbers = none;
}

-- A detail whose normals are computed.
abbrev detail : Detail vectors
detail = record {
  prim_list = prims;
  positions = none;
  point_normal = none;
  vertex_normal = none;
  internal_normal = none;
  computed_normal = some normal;
  velocity = none;
}

get_normals_lem_example :
    (m' : MeshCache ℕ) × (get_normals detail reset ≡ some (m', false))
    × (m'.normals ≡ 1 ∷ 2 ∷ 3 ∷ [])
    × (m'.face_normals ≡ flatten (index_by on_vertices) (mesh_triangles prims))
unfolding get_data_from_attribute
get_normals_lem_example =
    get_normals_lem detail reset normal (1 ∷ 2 ∷ 3 ∷ []) refl refl refl refl refl

abbrev with_material : ℕ → List MeshPrim
with_material node = record { shape = poly quad; styled = some node; by_path = none } ∷ []

abbrev sources : Sources
sources = record { has_style_sheet = false; has_material_path = false; obj_mat_node = none }

assign_ids_lem_example :
    (t : MatTable) × (ids : List ℕ) × (assign_ids sources
        (with_material 7)
        no_materials
        (record { ids = ptr_array (face_count (shapes (with_material 7))) 0; face_index = 0 })
      ≡ some (t, record { ids = ids; face_index = face_count (shapes (with_material 7)) }))
    × (map (λ id. node_of id t.mat_to_mtl_id) ids
        ≡ map (material_of t.mat_to_mtl_id) (face_nodes sources (with_material 7)))
assign_ids_lem_example = assign_ids_lem sources (with_material 7)

abbrev materials : Materials sdk
materials = record {
  export_material = λ node. node;
  export_plugin = λ d. length d.plugin_name;
  plugin_value = λ p. p;
  hash_ids = λ ids. length ids;
  ext_id_name = λ hash. lit "TexExtMaterialID";
  multi_name = λ hash. lit "MtlMulti";
  prim_id = 5;
}

abbrev no_exports : Exports sdk
no_exports = record { kept = []; exported = []; materials = [] }

abbrev table : ℕ → MatTable
table node = record { mat_to_mtl_id = (node, 0) ∷ []; mat_index = 1 }

abbrev two_ids : FaceIds
two_ids = record { ids = 0 ∷ 0 ∷ []; face_index = 2 }

-- Two meshes with one material each.
get_material-get_material_example :
    (done : Exports sdk × Option ℕ) × (get_material materials sources (with_material 7) no_exports
      ≡ some done)
    × (get_material materials sources (with_material 8) done.0
        ≡ some (asks materials (none ∷ some 8 ∷ []) done.0, done.1))
unfolding assign_ids face_count ptr_array Map.find Map.insert
get_material-get_material_example =
    get_material-get_material materials sources sources (with_material 7) (with_material 8)
      (table 7) (table 8) two_ids two_ids no_exports refl refl refl refl refl refl refl
