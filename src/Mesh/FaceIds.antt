-- ===== src/Mesh/FaceIds.antt =====
-- The ids of the faces lead back to the materials of their primitives.
use vray_for_houdini.Base.{
  ℕ, zero, suc, ◌+◌, ◌<◌, ◌≡◌, refl, ap, ◌∙◌, List, [], ◌∷◌, ◌++◌, map, Option, none, some, arith,
  ◌==◌, if◌then◌else◌, length, length-append, append_assoc, Option-cases, inl, inr,
}
use vray_for_houdini.Qt.Map
use vray_for_houdini.Qt.Map.{QMap, number_key, find-insert}
use vray_for_houdini.Attrs.RefList.{ptr_array}
use vray_for_houdini.Mesh.Array.{put-append, ptr_array-add}
use vray_for_houdini.Mesh.Shape.{Triangle, prim_face_count, face_count}
use vray_for_houdini.Mesh.Fan.{run, for_prim-run, prim_triangles, length-prim_triangles}
use vray_for_houdini.Mesh.Materials.{
  MeshPrim, Sources, shapes, poly_mat_node, MatTable, no_materials, face_mtl_id, FaceIds, put_id,
  assign_ids,
}

abbrev pub replicate {ℓ} : {A : Type ℓ} → ℕ → A → List A
replicate zero a = []
replicate (suc n) a = a ∷ replicate n a

-- The material node of each face.
abbrev pub face_nodes : Sources → List MeshPrim → List (Option ℕ)
face_nodes s [] = []
face_nodes s (p ∷ ps) = replicate (prim_face_count p.shape) (poly_mat_node s p) ++ face_nodes s ps

-- The material that an id stands for, as MtlMulti is given it.
unfoldable pub node_of : ℕ → QMap ℕ ℕ → Option ℕ
node_of id [] = none
node_of id ((node, i) ∷ m) = if i == id then some node else node_of id m

-- The material that a face gets: its own, or that of id 0 if it has none.
abbrev pub material_of : QMap ℕ ℕ → Option ℕ → Option ℕ
material_of ids none = node_of 0 ids
material_of ids (some node) = some node

node_of-insert :
    (node x id : ℕ) (m : QMap ℕ ℕ)
    → Map.find node m ≡ none
    → node_of x m ≡ none
    → node_of id (Map.insert node x m) ≡ (if x == id then some node else node_of id m)
unfolding node_of Map.find Map.insert
node_of-insert node x id [] h k = refl
node_of-insert node x id ((j, w) ∷ m) h k = ground (arith, node_of-insert node x id m)

-- Each node is the one that its id stands for, and the ids are those below the next one.
record IsSound (t : MatTable) : Type 0 where
  back :
      (node id : ℕ)
      → Map.find node t.mat_to_mtl_id ≡ some id
      → node_of id t.mat_to_mtl_id ≡ some node
  below : (node id : ℕ) → node_of id t.mat_to_mtl_id ≡ some node → id < t.mat_index

no_materials-IsSound : IsSound no_materials
unfolding node_of Map.find
no_materials-IsSound = record { back = λ node id h. cc; below = λ node id h. cc }

fresh : (t : MatTable) → IsSound t → node_of t.mat_index t.mat_to_mtl_id ≡ none
fresh t s = elim (Option-cases (node_of t.mat_index t.mat_to_mtl_id)) [
  | inl free ↦ free
  | inr (node, taken) ↦ absurd (omega (arith, s.below node t.mat_index taken))
]

face_mtl_id_new :
    (node : ℕ) (t : MatTable)
    → Map.find node t.mat_to_mtl_id ≡ none
    → face_mtl_id (some node) t ≡ (
      record {
        mat_to_mtl_id = Map.insert node t.mat_index t.mat_to_mtl_id;
        mat_index = t.mat_index + 1;
      },
      t.mat_index,
    )
unfolding face_mtl_id
face_mtl_id_new node t new = ground arith

face_mtl_id_old :
    (node id : ℕ) (t : MatTable)
    → Map.find node t.mat_to_mtl_id ≡ some id
    → face_mtl_id (some node) t ≡ (t, id)
unfolding face_mtl_id
face_mtl_id_old node id t old = ground arith

face_mtl_id-IsSound : (o : Option ℕ) (t : MatTable) → IsSound t → IsSound (face_mtl_id o t).0
face_mtl_id-IsSound none t s = unfold face_mtl_id in s
face_mtl_id-IsSound (some node) t s = elim (Option-cases (Map.find node t.mat_to_mtl_id)) [
  | inl new ↦
      let free = fresh t s in
      rw (face_mtl_id_new node t new) (record {
        back = λ k id h. ground (
          arith,
          find-insert node k t.mat_index t.mat_to_mtl_id,
          node_of-insert node t.mat_index id t.mat_to_mtl_id new free,
          s.back k id,
          s.below k id,
        );
        below = λ k id h.
            ground
              (arith, node_of-insert node t.mat_index id t.mat_to_mtl_id new free, s.below k id);
      })
  | inr (id, old) ↦ rw (face_mtl_id_old node id t old) s
]

-- A node has an entry with its id then, and earlier entries stay.
face_mtl_id_found :
    (node : ℕ) (t : MatTable)
    → Map.find node (face_mtl_id (some node) t).0.mat_to_mtl_id ≡ some (face_mtl_id (some node) t).1
face_mtl_id_found node t = elim (Option-cases (Map.find node t.mat_to_mtl_id)) [
  | inl new ↦
      rw (face_mtl_id_new node t new)
        (ground (arith, find-insert node node t.mat_index t.mat_to_mtl_id))
  | inr (id, old) ↦ rw (face_mtl_id_old node id t old) old
]

face_mtl_id_stays :
    (o : Option ℕ) (t : MatTable) (node id : ℕ)
    → Map.find node t.mat_to_mtl_id ≡ some id
    → Map.find node (face_mtl_id o t).0.mat_to_mtl_id ≡ some id
face_mtl_id_stays none t node id h = unfold face_mtl_id in h
face_mtl_id_stays (some k) t node id h = elim (Option-cases (Map.find k t.mat_to_mtl_id)) [
  | inl new ↦
      rw (face_mtl_id_new k t new) (ground (arith, find-insert k node t.mat_index t.mat_to_mtl_id))
  | inr (id', old) ↦ rw (face_mtl_id_old k id' t old) h
]

module _ (s : Sources) where
  -- The table after the loop, and the ids in the order of the faces.
  abbrev pub table_after : List MeshPrim → MatTable → MatTable
  table_after [] t = t
  table_after (p ∷ ps) t = table_after ps (face_mtl_id (poly_mat_node s p) t).0

  abbrev pub ids_from : List MeshPrim → MatTable → List ℕ
  ids_from [] t = []
  ids_from (p ∷ ps) t =
      let (t', id) = face_mtl_id (poly_mat_node s p) t in
      replicate (prim_face_count p.shape) id ++ ids_from ps t'

  table_after-IsSound : (ps : List MeshPrim) (t : MatTable) → IsSound t → IsSound (table_after ps t)
  table_after-IsSound [] t h = h
  table_after-IsSound (p ∷ ps) t h =
      table_after-IsSound ps (face_mtl_id (poly_mat_node s p) t).0
        (face_mtl_id-IsSound (poly_mat_node s p) t h)

  table_after_stays :
      (ps : List MeshPrim) (t : MatTable) (node id : ℕ)
      → Map.find node t.mat_to_mtl_id ≡ some id
      → Map.find node (table_after ps t).mat_to_mtl_id ≡ some id
  table_after_stays [] t node id h = h
  table_after_stays (p ∷ ps) t node id h =
      table_after_stays ps (face_mtl_id (poly_mat_node s p) t).0 node id
        (face_mtl_id_stays (poly_mat_node s p) t node id h)

  id_lem :
      (o : Option ℕ) (ps : List MeshPrim) (t : MatTable)
      → IsSound t
      → let final = (table_after ps (face_mtl_id o t).0).mat_to_mtl_id in
        node_of (face_mtl_id o t).1 final ≡ material_of final o
  id_lem none ps t h = unfold face_mtl_id in refl
  id_lem (some node) ps t h =
      let t' = face_mtl_id (some node) t in
      (table_after-IsSound ps t'.0 (face_mtl_id-IsSound (some node) t h)).back node t'.1
        (table_after_stays ps t'.0 node t'.1 (face_mtl_id_found node t))

  map-replicate :
      (f : ℕ → Option ℕ) (g : Option ℕ → Option ℕ) (n id : ℕ) (o : Option ℕ) (xs : List ℕ)
      (ys : List (Option ℕ))
      → f id ≡ g o
      → map f xs ≡ map g ys
      → map f (replicate n id ++ xs) ≡ map g (replicate n o ++ ys)
  map-replicate f g zero id o xs ys h k = k
  map-replicate f g (suc n) id o xs ys h k = rw (h, map-replicate f g n id o xs ys h k) refl

  ids_lem :
      (ps : List MeshPrim) (t : MatTable)
      → IsSound t
      → let final = (table_after ps t).mat_to_mtl_id in
        map (λ id. node_of id final) (ids_from ps t) ≡ map (material_of final) (face_nodes s ps)
  ids_lem [] t h = refl
  ids_lem (p ∷ ps) t h =
      let t' = face_mtl_id (poly_mat_node s p) t in
      let final = (table_after ps t'.0).mat_to_mtl_id in
      map-replicate (λ id. node_of id final) (material_of final) (prim_face_count p.shape) t'.1
        (poly_mat_node s p) (ids_from ps t'.0) (face_nodes s ps) (id_lem (poly_mat_node s p) ps t h)
        (ids_lem ps t'.0 (face_mtl_id-IsSound (poly_mat_node s p) t h))

  -- The writes of one primitive.
  run-put_id :
      (id : ℕ) (ts : List Triangle) (done rest : List ℕ) (at : ℕ)
      → at ≡ length done
      → run
          (put_id id)
          ts
          (record { ids = done ++ (ptr_array (length ts) 0 ++ rest); face_index = at })
        ≡ some (record {
          ids = done ++ (replicate (length ts) id ++ rest);
          face_index = at + length ts;
        })
  unfolding run put_id ptr_array
  run-put_id id [] done rest at e = let same : at + 0 ≡ at = omega arith in rw same
  run-put_id id (t ∷ ts) done rest at e =
      let next =
        run-put_id id ts (done ++ id ∷ []) rest (at + 1)
          (omega (arith, length-append done (id ∷ []))) in
      let first = put-append done 0 (ptr_array (length ts) 0 ++ rest) at id e in
      let end : at + 1 + length ts ≡ at + suc (length ts) = omega arith in
      rw first (simp (append_assoc, end) at next)

  length-replicate : (n id : ℕ) → length (replicate n id) ≡ n
  length-replicate zero id = refl
  length-replicate (suc n) id = ap suc (length-replicate n id)

  assign_ids-run :
      (ps : List MeshPrim) (t : MatTable) (done : List ℕ) (at : ℕ)
      → at ≡ length done
      → assign_ids s ps t
          (record { ids = done ++ ptr_array (face_count (shapes ps)) 0; face_index = at })
        ≡ some (
          table_after ps t,
          record { ids = done ++ ids_from ps t; face_index = at + face_count (shapes ps) },
        )
  unfolding assign_ids face_count
  assign_ids-run [] t done at e =
      let same : at + 0 ≡ at = omega arith in unfold ptr_array in rw same
  assign_ids-run (p ∷ ps) t done at e =
      let (t', id) = face_mtl_id (poly_mat_node s p) t in
      let n = prim_face_count p.shape in
      let left = face_count (shapes ps) in
      let start : FaceIds = record {
        ids = done ++ (ptr_array n 0 ++ ptr_array left 0);
        face_index = at;
      } in
      let step =
        for_prim-run (put_id id) p.shape start
        ∙ (rw (length-prim_triangles p.shape) at
            (run-put_id id (prim_triangles p.shape) done (ptr_array left 0) at e)) in
      let next =
        assign_ids-run ps t' (done ++ replicate n id) (at + n)
          (omega (arith, length-append done (replicate n id), length-replicate n id)) in
      let end : at + n + left ≡ at + (n + left) = omega arith in
      rw (ptr_array-add {A = ℕ} n left 0, step) (simp (append_assoc, end) at next)

-- The loop of `getMaterial` stays within its list. With the table that it leaves, the
-- ids lead each face to the material of its own primitive; a face with no material gets id 0, and so
-- the material of that id.
pub assign_ids_lem :
    (s : Sources) (prims : List MeshPrim)
    → (t : MatTable) × (ids : List ℕ) × (assign_ids s prims no_materials
          (record { ids = ptr_array (face_count (shapes prims)) 0; face_index = 0 })
        ≡ some (t, record { ids = ids; face_index = face_count (shapes prims) }))
      × (map (λ id. node_of id t.mat_to_mtl_id) ids
          ≡ map (material_of t.mat_to_mtl_id) (face_nodes s prims))
assign_ids_lem s prims =
    let n = face_count (shapes prims) in
    let start : 0 + n ≡ n = omega arith in
    (
      table_after s prims no_materials,
      ids_from s prims no_materials,
      rw start at (assign_ids-run s prims no_materials [] 0 refl),
      ids_lem s prims no_materials no_materials-IsSound,
    )
