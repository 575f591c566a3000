-- ===== src/Mesh/Filled.antt =====
-- What `getFaces` leaves: the triangles of all polygons, and the visibility of their edges.

use vray_for_houdini.Base.{
  ℕ, suc, ◌+◌, ◌*◌, ◌/◌, ◌≤◌, ◌<◌, ◌≡◌, refl, ◌∙◌, true, List, [], ◌∷◌, ◌++◌, map, none, some,
  arith, ltb, if◌then◌else◌, length, append_assoc, length-append,
}
use vray_for_houdini.Qt.Text.{is_empty}
use vray_for_houdini.Attrs.RefList.{ptr_array, set_item}
use vray_for_houdini.Mesh.Array.{
  put_three-append, put_lem, get_elem?_lem, length-set_item, length-ptr_array,
}
use vray_for_houdini.Mesh.Shape.{Corner, GeoPrim, Triangle, edge_mask, for_prims, face_count}
use vray_for_houdini.Mesh.Fan.{run, for_prims-run, mesh_triangles, length-mesh_triangles}
use vray_for_houdini.Mesh.Faces.{put_face, new_buffers, word_count, MeshCache, get_faces}
use vray_for_houdini.Mesh.Marks.{marked, marked_word, masks_from, masks_from-marked, new-AreMarked}

-- The corners of some triangles, by their points or by their vertices.
abbrev pub flatten : (Corner → ℕ) → List Triangle → List ℕ
flatten f [] = []
flatten f (t ∷ ts) = f t.v0 ∷ f t.v1 ∷ f t.v2 ∷ flatten f ts

abbrev pub points : List Triangle → List ℕ
points = flatten (λ c. c.point)

pub ptr_array_three : (n : ℕ) → ptr_array {A = ℕ} (suc n * 3) 0 ≡ 0 ∷ 0 ∷ 0 ∷ ptr_array (n * 3) 0
unfolding ptr_array
ptr_array_three n = let e : suc n * 3 ≡ suc (suc (suc (n * 3))) = omega arith in rw e refl

pub put_face_lem :
    (t : Triangle) (done rest words : List ℕ) (at k : ℕ)
    → at ≡ length done
    → k / 10 < length words
    → put_face t (record {
      faces = done ++ 0 ∷ 0 ∷ 0 ∷ rest;
      edge_visibility = words;
      face_vert_index = at;
      face_edge_vis_index = k;
    })
      ≡ some (record {
        faces = done ++ t.v0.point ∷ t.v1.point ∷ t.v2.point ∷ rest;
        edge_visibility = set_item words (k / 10) (marked_word t k words);
        face_vert_index = at + 3;
        face_edge_vis_index = suc k;
      })
unfolding put_face
put_face_lem t done rest words at k e room =
    let next : k + 1 ≡ suc k = omega arith in
    simp (
      next,
      put_three-append done 0 0 0 rest at t.v0.point t.v1.point t.v2.point e,
      get_elem?_lem words (k / 10) 0 room,
      put_lem words (k / 10) (marked_word t k words) room,
    )

run-put_face :
    (ts : List Triangle) (done words : List ℕ) (at k : ℕ)
    → at ≡ length done
    → k + length ts ≤ length words * 10
    → run put_face ts (record {
      faces = done ++ ptr_array (length ts * 3) 0;
      edge_visibility = words;
      face_vert_index = at;
      face_edge_vis_index = k;
    })
      ≡ some (record {
        faces = done ++ points ts;
        edge_visibility = marked ts k words;
        face_vert_index = at + length ts * 3;
        face_edge_vis_index = k + length ts;
      })
unfolding run
run-put_face [] done words at k e room =
    let none_at : at + 0 ≡ at = omega arith in
    let none_k : k + 0 ≡ k = omega arith in unfold ptr_array in simp (none_at, none_k)
run-put_face (t ∷ ts) done words at k e room =
    let here : k / 10 < length words = omega arith in
    let word = marked_word t k words in
    let next =
      run-put_face ts (done ++ t.v0.point ∷ t.v1.point ∷ t.v2.point ∷ [])
        (set_item words (k / 10) word) (at + 3) (suc k)
        (omega (arith, length-append done (t.v0.point ∷ t.v1.point ∷ t.v2.point ∷ [])))
        (omega (arith, length-set_item words (k / 10) word)) in
    let first = put_face_lem t done (ptr_array (length ts * 3) 0) words at k e here in
    let end_at : at + 3 + length ts * 3 ≡ at + suc (length ts) * 3 = omega arith in
    let end_k : suc k + length ts ≡ k + suc (length ts) = omega arith in
    rw (ptr_array_three (length ts), first) (simp (append_assoc, end_at, end_k) at next)

length-marked :
    (ts : List Triangle) (k : ℕ) (words : List ℕ) → length (marked ts k words) ≡ length words
length-marked [] k words = refl
length-marked (t ∷ ts) k words =
    length-marked ts (suc k) (set_item words (k / 10) (marked_word t k words))
    ∙ length-set_item words (k / 10) (marked_word t k words)

pub words_room : (n : ℕ) → n ≤ word_count n * 10
words_room n = ground arith

module _ (prims : List GeoPrim) where
  -- The loops of `getFaces`.
  pub fill_lem :
      for_prims put_face prims (new_buffers (face_count prims))
      ≡ some (record {
        faces = points (mesh_triangles prims);
        edge_visibility =
            marked (mesh_triangles prims) 0 (ptr_array (word_count (face_count prims)) 0);
        face_vert_index = face_count prims * 3;
        face_edge_vis_index = face_count prims;
      })
  fill_lem =
      let n = face_count prims in
      let words : List ℕ = ptr_array (word_count n) 0 in
      let count = length-mesh_triangles prims in
      let start : 0 + n ≡ n = omega arith in
      let start_three : 0 + n * 3 ≡ n * 3 = omega arith in
      let ran =
        run-put_face (mesh_triangles prims) [] words 0 0 refl
          (omega (arith, words_room n, count, length-ptr_array {A = ℕ} (word_count n) 0)) in
      for_prims-run put_face prims (new_buffers n) ∙ (rw (count, start, start_three) at ran)

-- On a mesh with a face and nothing kept yet, `getFaces` stays within its lists; it leaves the
-- points of all triangles of all polygons, in order, and words of which the mask of each face is read
-- back: the first edge is visible, the second in the first triangle of a polygon only and the third
-- in the last one only.
pub get_faces_lem :
    {V : Type 0} (prims : List GeoPrim) (m : MeshCache V)
    → m.faces ≡ []
    → m.num_faces ≡ none
    → 0 < face_count prims
    → (words : List ℕ) × (get_faces prims m
        ≡ some (record m {
          num_faces = some (face_count prims);
          faces = points (mesh_triangles prims);
          edge_visibility = words;
        }))
      × (masks_from (face_count prims) 0 words ≡ map edge_mask (mesh_triangles prims))
      × (length words ≡ word_count (face_count prims))
unfolding get_faces
get_faces_lem prims m empty new some_face =
    let n = face_count prims in
    let ts = mesh_triangles prims in
    let words : List ℕ = ptr_array (word_count n) 0 in
    let count = length-mesh_triangles prims in
    let test : ltb 0 n ≡ true = ground arith in
    let masks =
      masks_from-marked ts 0 words (new-AreMarked (word_count n))
        (omega (arith, words_room n, count, length-ptr_array {A = ℕ} (word_count n) 0)) in
    (
      marked ts 0 words,
      simp (empty, new, test, fill_lem prims),
      rw count at masks,
      length-marked ts 0 words ∙ length-ptr_array (word_count n) 0,
    )

-- A mesh with no face gets no list.
pub get_faces_empty :
    {V : Type 0} (prims : List GeoPrim) (m : MeshCache V)
    → m.num_faces ≡ none
    → face_count prims ≡ 0
    → get_faces prims m
      ≡ (if is_empty m.faces then some (record m { num_faces = some 0 }) else some m)
unfolding get_faces
get_faces_empty prims m new no_face = simp (new, no_face)

pub flatten_empty : (f : Corner → ℕ) (ts : List Triangle) → length ts ≡ 0 → flatten f ts ≡ []
flatten_empty f [] h = refl
flatten_empty f (t ∷ ts) h = absurd (omega arith)
