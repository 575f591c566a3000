-- ===== src/Mesh/SoupFaces.antt =====
-- The mesh of a soup has the corners of its polygons.
use vray_for_houdini.Base.{
  ℕ, suc, ◌+◌, ◌-◌, ◌*◌, ◌/◌, ◌≤◌, ◌<◌, ◌≡◌, List, [], ◌∷◌, ◌++◌, some, arith, length,
  length-append, get_elem?, get_elem?-after, append_assoc,
}
use vray_for_houdini.Attrs.RefList.{ptr_array, set_item}
use vray_for_houdini.Mesh.Array.{length-set_item}
use vray_for_houdini.Mesh.Shape.{Triangle}
use vray_for_houdini.Mesh.Fan.{run}
use vray_for_houdini.Mesh.Marks.{marked, marked_word}
use vray_for_houdini.Mesh.Filled.{points, ptr_array_three, put_face_lem}
use vray_for_houdini.Mesh.Soup.{MinMax, update_min_max_pair, put_soup_face}

-- The range after some triangles.
abbrev pub range_after : List Triangle → MinMax → MinMax
range_after [] r = r
range_after (t ∷ ts) r = range_after ts (
    update_min_max_pair t.v0.point
      (update_min_max_pair t.v1.point (update_min_max_pair t.v2.point r)))

put_soup_face_lem :
    (t : Triangle) (done rest words : List ℕ) (at k : ℕ) (r : MinMax)
    → at ≡ length done
    → k / 10 < length words
    → put_soup_face t (record {
      buffers = record {
        faces = done ++ 0 ∷ 0 ∷ 0 ∷ rest;
        edge_visibility = words;
        face_vert_index = at;
        face_edge_vis_index = k;
      };
      min_max = r;
    })
      ≡ some (record {
        buffers = record {
          faces = done ++ t.v0.point ∷ t.v1.point ∷ t.v2.point ∷ rest;
          edge_visibility = set_item words (k / 10) (marked_word t k words);
          face_vert_index = at + 3;
          face_edge_vis_index = suc k;
        };
        min_max = range_after (t ∷ []) r;
      })
unfolding put_soup_face
put_soup_face_lem t done rest words at k r e room =
    let a = t.v0.point in
    let b = t.v1.point in
    let c = t.v2.point in
    let last : get_elem? (done ++ a ∷ b ∷ c ∷ rest) (at + 3 - 1) ≡ some c = simp append_assoc at (
      get_elem?-after (done ++ a ∷ b ∷ []) c rest (at + 3 - 1)
        (omega (arith, length-append done (a ∷ b ∷ [])))) in
    let middle : get_elem? (done ++ a ∷ b ∷ c ∷ rest) (at + 3 - 2) ≡ some b = simp append_assoc at (
      get_elem?-after (done ++ a ∷ []) b (c ∷ rest) (at + 3 - 2)
        (omega (arith, length-append done (a ∷ [])))) in
    let first = get_elem?-after done a (b ∷ c ∷ rest) (at + 3 - 3) (omega arith) in
    simp (put_face_lem t done rest words at k e room, last, middle, first)

pub run-put_soup_face :
    (ts : List Triangle) (done words : List ℕ) (at k : ℕ) (r : MinMax)
    → at ≡ length done
    → k + length ts ≤ length words * 10
    → run put_soup_face ts (record {
      buffers = record {
        faces = done ++ ptr_array (length ts * 3) 0;
        edge_visibility = words;
        face_vert_index = at;
        face_edge_vis_index = k;
      };
      min_max = r;
    })
      ≡ some (record {
        buffers = record {
          faces = done ++ points ts;
          edge_visibility = marked ts k words;
          face_vert_index = at + length ts * 3;
          face_edge_vis_index = k + length ts;
        };
        min_max = range_after ts r;
      })
unfolding run ptr_array
run-put_soup_face [] done words at k r e room =
    let none_at : at + 0 ≡ at = omega arith in
    let none_k : k + 0 ≡ k = omega arith in simp (none_at, none_k)
run-put_soup_face (t ∷ ts) done words at k r e room =
    let here : k / 10 < length words = omega arith in
    let word = marked_word t k words in
    let corners = t.v0.point ∷ t.v1.point ∷ t.v2.point ∷ [] in
    let next =
      run-put_soup_face ts (done ++ corners) (set_item words (k / 10) word) (at + 3) (suc k)
        (range_after (t ∷ []) r) (omega (arith, length-append done corners))
        (omega (arith, length-set_item words (k / 10) word)) in
    let first = put_soup_face_lem t done (ptr_array (length ts * 3) 0) words at k r e here in
    let end_at : at + 3 + length ts * 3 ≡ at + suc (length ts) * 3 = omega arith in
    let end_k : suc k + length ts ≡ k + suc (length ts) = omega arith in
    rw (ptr_array_three (length ts), first) (simp (append_assoc, end_at, end_k) at next)
