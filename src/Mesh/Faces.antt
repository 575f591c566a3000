-- ===== src/Mesh/Faces.antt =====
-- The faces of a mesh and the visibility of their edges: `getNumFaces`, `getFaces` and
-- `getEdgeVisibility`, with the members in which they keep their results.
use Prim.Native.Nat.{bit_or}
use vray_for_houdini.Base.{
  ℕ, ◌+◌, ◌*◌, ◌/◌, ◌%◌, List, [], Option, none, some, ltb, if◌then◌else◌, get_elem?, ◌>>=◌,
}
use vray_for_houdini.Qt.Text.{is_empty}
use vray_for_houdini.Attrs.RefList.{ptr_array}
use vray_for_houdini.Mesh.Array.{put, put_three}
use vray_for_houdini.Mesh.Bits.{shift_mask}
use vray_for_houdini.Mesh.Shape.{GeoPrim, Triangle, edge_mask, for_prims, face_count}

-- The lists that the loops fill, with the indices of the next write.
pub record Buffers : Type 0 where
  pub faces : List ℕ
  pub edge_visibility : List ℕ
  pub face_vert_index : ℕ
  pub face_edge_vis_index : ℕ

-- One triangle: three points, and the mask of its edges in the word for ten faces.
unfoldable pub put_face : Triangle → Buffers → Option Buffers
unfolding put put_three edge_mask
put_face t b = do
  faces ← put_three b.faces b.face_vert_index t.v0.point t.v1.point t.v2.point
  word ← get_elem? b.edge_visibility (b.face_edge_vis_index / 10)
  words ←
      put b.edge_visibility (b.face_edge_vis_index / 10)
        (bit_or word (shift_mask (edge_mask t) (b.face_edge_vis_index % 10)))
  some (record {
    faces = faces;
    edge_visibility = words;
    face_vert_index = b.face_vert_index + 3;
    face_edge_vis_index = b.face_edge_vis_index + 1;
  })

-- The words for a number of faces.
abbrev pub word_count : ℕ → ℕ
word_count n = n / 10 + (if ltb 0 (n % 10) then 1 else 0)

-- The lists before the loops. `memset` clears the words; the faces are written before they are read.
abbrev pub new_buffers : ℕ → Buffers
new_buffers n = record {
  faces = ptr_array (n * 3) 0;
  edge_visibility = ptr_array (word_count n) 0;
  face_vert_index = 0;
  face_edge_vis_index = 0;
}

-- The members of MeshExporter that keep results; `num_faces` is `none` for -1. `V` is the type of vectors.
pub record MeshCache (V : Type 0) : Type 0 where
  pub num_faces : Option ℕ
  pub faces : List ℕ
  pub edge_visibility : List ℕ
  pub vertices : List V
  pub normals : List V
  pub face_normals : List ℕ
  pub velocities : List V

-- A count above 0 is not made again.
abbrev pub cached_count : List GeoPrim → Option ℕ → ℕ
cached_count prims none = face_count prims
cached_count prims (some n) = if ltb 0 n then n else face_count prims

module _ {V : Type 0} where
  -- The constructor's values, and `reset`.
  abbrev pub reset : MeshCache V
  reset = record {
    num_faces = none;
    faces = [];
    edge_visibility = [];
    vertices = [];
    normals = [];
    face_normals = [];
    velocities = [];
  }

  unfoldable pub get_num_faces : List GeoPrim → MeshCache V → MeshCache V × ℕ
  unfolding face_count
  get_num_faces prims m =
      let n = cached_count prims m.num_faces in (record m { num_faces = some n }, n)

  unfoldable pub get_faces : List GeoPrim → MeshCache V → Option (MeshCache V)
  unfolding get_num_faces for_prims put_face ptr_array
  get_faces prims m =
      let (counted, n) = get_num_faces prims m in
      let filled : Option (MeshCache V) = (do
        b ← for_prims put_face prims (new_buffers n)
        some (record counted { faces = b.faces; edge_visibility = b.edge_visibility })) in
      if is_empty m.faces then if ltb 0 n then filled else some counted else some m

  unfoldable pub get_edge_visibility : List GeoPrim → MeshCache V → Option (MeshCache V × List ℕ)
  unfolding get_faces
  get_edge_visibility prims m =
      let filled : Option (MeshCache V × List ℕ) = (do
        m' ← get_faces prims m
        some (m', m'.edge_visibility)) in
      if is_empty m.edge_visibility then filled else some (m, m.edge_visibility)
