-- ===== src/Mesh/Soup.antt =====
-- A soup as a mesh of its own: `getPolySoupFaces` with the range of its points, and what
-- `asPolySoupPrimitives` takes from the vertices of the detail.
use vray_for_houdini.Base.{
  ℕ, zero, suc, ◌+◌, ◌-◌, ◌*◌, min, max, List, [], ◌∷◌, map, Option, none, some, get_elem?, ◌>>=◌,
}
use vray_for_houdini.Attrs.RefList.{ptr_array}
use vray_for_houdini.Mesh.Shape.{Polygon, Triangle, for_soup, soup_face_count}
use vray_for_houdini.Mesh.Faces.{Buffers, put_face, word_count}

-- `MinMaxPair`: `highest` is `none` for -1.
pub record MinMax : Type 0 where
  pub lowest : ℕ
  pub highest : Option ℕ

-- `{INT_MAX, -1}`
abbrev pub no_points : MinMax
no_points = record { lowest = 2147483647; highest = none }

abbrev pub raise : ℕ → Option ℕ → ℕ
raise value none = value
raise value (some h) = max h value

unfoldable pub update_min_max_pair : ℕ → MinMax → MinMax
update_min_max_pair value r = record {
  lowest = min r.lowest value;
  highest = some (raise value r.highest);
}

pub record SoupBuffers : Type 0 where
  pub buffers : Buffers
  pub min_max : MinMax

unfoldable pub put_soup_face : Triangle → SoupBuffers → Option SoupBuffers
unfolding put_face update_min_max_pair
put_soup_face t s = do
  b ← put_face t s.buffers
  last ← get_elem? b.faces (b.face_vert_index - 1)
  middle ← get_elem? b.faces (b.face_vert_index - 2)
  first ← get_elem? b.faces (b.face_vert_index - 3)
  some (record {
    buffers = b;
    min_max =
        update_min_max_pair first (update_min_max_pair middle (update_min_max_pair last s.min_max));
  })

pub record SoupMesh (V : Type 0) : Type 0 where
  pub faces : List ℕ
  pub edge_visibility : List ℕ
  pub vertices : List V

module _ {V : Type 0} where
  -- The items from the front on: `none` if there are fewer.
  unfoldable pub take_exactly : ℕ → List V → Option (List V)
  take_exactly zero xs = some []
  take_exactly (suc n) [] = none
  take_exactly (suc n) (x ∷ xs) = do rest ← take_exactly n xs; some (x ∷ rest)

  unfoldable pub copy_range : ℕ → ℕ → List V → Option (List V)
  unfolding take_exactly
  copy_range zero n xs = take_exactly n xs
  copy_range (suc i) n [] = none
  copy_range (suc i) n (x ∷ xs) = copy_range i n xs

  -- The vertices in the range of the points; with no point the number of them is negative.
  unfoldable pub range_vertices : MinMax → List V → Option (List V)
  unfolding copy_range
  range_vertices r all = elim r.highest [
    | none ↦ none
    | some h ↦ copy_range r.lowest (h + 1 - r.lowest) all
  ]

  -- `unset` is what the words hold before they are written: they are not cleared here.
  unfoldable pub soup_mesh : ℕ → List Polygon → List V → Option (SoupMesh V)
  unfolding for_soup put_soup_face range_vertices ptr_array soup_face_count
  soup_mesh unset soup all =
      let n = soup_face_count soup in
      let start : SoupBuffers = record {
        buffers = record {
          faces = ptr_array (n * 3) 0;
          edge_visibility = ptr_array (word_count n) unset;
          face_vert_index = 0;
          face_edge_vis_index = 0;
        };
        min_max = no_points;
      } in
      do
        s ← for_soup put_soup_face soup start
        vertices ← range_vertices s.min_max all
        some (record {
          faces = map (λ f. f - s.min_max.lowest) s.buffers.faces;
          edge_visibility = s.buffers.edge_visibility;
          vertices = vertices;
        })
