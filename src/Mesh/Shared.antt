-- ===== src/Mesh/Shared.antt =====
-- What `getMaterial` makes of a mesh whose faces have the same ids as those of an earlier one.
use vray_for_houdini.Base.{
  ℕ, ◌≡◌, ap, sym, ◌∙◌, false, List, [], ◌∷◌, ◌++◌, append_assoc, Option, some, arith, ◌==◌, ==_iff,
}
use Prim.Native.Nat.{bit_xor}
use vray_for_houdini.Qt.Text.{is_empty}
use vray_for_houdini.Qt.Map
use vray_for_houdini.Qt.Map.{QMap, number_key, find-insert}
use vray_for_houdini.Attrs.RefList.{ptr_array}
use vray_for_houdini.Attrs.Sdk.{Sdk}
use vray_for_houdini.Attrs.Desc.{PluginDesc}
use vray_for_houdini.Mesh.Shape.{face_count}
use vray_for_houdini.Mesh.Materials.{
  MeshPrim, Sources, shapes, MatTable, FaceIds, no_materials, assign_ids, Materials, Exports, asks,
  nodes_of, keep_plugin, ext_id_desc, multi_desc, material_lists, export_multi, get_material,
}

module _ {S : Sdk} (x : Materials S) where
  keep_plugin_kept :
      (hash : ℕ) (d : PluginDesc S) (e : Exports S) (p : S.Plugin)
      → Map.find hash e.kept ≡ some p
      → keep_plugin x hash d e ≡ (e, p)
  unfolding keep_plugin
  keep_plugin_kept hash d e p h = ground arith

  -- The plugin is kept then.
  keep_plugin_keeps :
      (hash : ℕ) (d : PluginDesc S) (e : Exports S)
      → Map.find hash (keep_plugin x hash d e).0.kept ≡ some (keep_plugin x hash d e).1
  unfolding keep_plugin
  keep_plugin_keeps hash d e =
      ground (arith, ==_iff hash hash, find-insert hash hash (x.export_plugin d) e.kept)

  keep_plugin_stays :
      (hash k : ℕ) (d : PluginDesc S) (e : Exports S) (p : S.Plugin)
      → Map.find k e.kept ≡ some p
      → Map.find k (keep_plugin x hash d e).0.kept ≡ some p
  unfolding keep_plugin
  keep_plugin_stays hash k d e p h =
      ground (arith, ==_iff hash k, find-insert hash k (x.export_plugin d) e.kept)

  -- Two plugins that are kept are found again, whatever materials were exported in between.
  keep_twice :
      (h k : ℕ) (d first : PluginDesc S) (second : S.Plugin → PluginDesc S) (e : Exports S)
      (nodes : List (Option ℕ))
      → let done = keep_plugin x k first (keep_plugin x h d e).0 in
        let again = keep_plugin x h d (asks x nodes done.0) in
        keep_plugin x k (second again.1) again.0 ≡ (asks x nodes done.0, done.1)
  keep_twice h k d first second e nodes =
      let ext = keep_plugin x h d e in
      let done = keep_plugin x k first ext.0 in
      let again =
        keep_plugin_kept h d (asks x nodes done.0) ext.1
          (keep_plugin_stays k h first ext.0 ext.1 (keep_plugin_keeps h d e)) in
      rw again (
        keep_plugin_kept k (second ext.1) (asks x nodes done.0) done.1
          (keep_plugin_keeps k first ext.0))

  export_multi_again :
      (t u : MatTable) (ids : List ℕ) (e : Exports S) (nodes : List (Option ℕ))
      → let done = export_multi x t ids e in
        export_multi x u ids (asks x nodes done.0)
        ≡ (asks x (nodes ++ nodes_of x u.mat_to_mtl_id) done.0, done.1)
  unfolding export_multi
  export_multi_again t u ids e nodes =
      let hash = x.hash_ids ids in
      let multi = bit_xor hash x.prim_id in
      let done = export_multi x t ids e in
      let all = append_assoc done.0.materials nodes (nodes_of x u.mat_to_mtl_id) in
      let lists = λ (v : MatTable). material_lists x v.mat_to_mtl_id in
      rw all (
        keep_twice hash multi (ext_id_desc x ids)
          (multi_desc x multi (lists t).0 (lists t).1
            (keep_plugin x hash (ext_id_desc x ids) (asks x (nodes_of x t.mat_to_mtl_id) e)).1)
          (λ id_gen. multi_desc x multi (lists u).0 (lists u).1 id_gen)
          (asks x (nodes_of x t.mat_to_mtl_id) e) (nodes ++ nodes_of x u.mat_to_mtl_id))

  -- The result of `getMaterial` where the loop finds a material.
  get_material_lem :
      (s : Sources) (prims : List MeshPrim) (t : MatTable) (f : FaceIds) (e : Exports S)
      → face_count (shapes prims) == 0 ≡ false
      → assign_ids s prims no_materials
          (record { ids = ptr_array (face_count (shapes prims)) 0; face_index = 0 })
        ≡ some (t, f)
      → is_empty t.mat_to_mtl_id ≡ false
      → get_material x s prims e
        ≡ some (
          (export_multi x t f.ids (asks x (s.obj_mat_node ∷ []) e)).0,
          some (export_multi x t f.ids (asks x (s.obj_mat_node ∷ []) e)).1,
        )
  unfolding get_material
  get_material_lem s prims t f e some_face ran found = simp (some_face, ran, found)

  -- Once `getMaterial` has run for a mesh with a material on some face, a second call, for another
  -- such mesh with the same ids of its faces and the same primitive id, calls `exportMaterial` for
  -- its object's material and for each material of its own, but exports no TexExtMaterialID and no
  -- MtlMulti: the result is the plugin of the first mesh's materials.
  pub get_material-get_material :
      (s r : Sources) (prims others : List MeshPrim) (t u : MatTable) (f g : FaceIds)
      (e : Exports S)
      → face_count (shapes prims) == 0 ≡ false
      → face_count (shapes others) == 0 ≡ false
      → assign_ids s prims no_materials
          (record { ids = ptr_array (face_count (shapes prims)) 0; face_index = 0 })
        ≡ some (t, f)
      → assign_ids r others no_materials
          (record { ids = ptr_array (face_count (shapes others)) 0; face_index = 0 })
        ≡ some (u, g)
      → is_empty t.mat_to_mtl_id ≡ false
      → is_empty u.mat_to_mtl_id ≡ false
      → f.ids ≡ g.ids
      → (done : Exports S × Option S.Plugin) × (get_material x s prims e ≡ some done)
        × (get_material x r others done.0
            ≡ some (asks x (r.obj_mat_node ∷ nodes_of x u.mat_to_mtl_id) done.0, done.1))
  get_material-get_material s r prims others t u f g e some_f some_g ran_f ran_g found_t found_u
        same =
      let asked = asks x (s.obj_mat_node ∷ []) e in
      let done = export_multi x t f.ids asked in
      (
        (done.0, some done.1),
        get_material_lem s prims t f e some_f ran_f found_t,
        get_material_lem r others u g done.0 some_g ran_g found_u
            ∙ rw (sym same) (
                ap (λ again. some (again.0, some again.1))
                  (export_multi_again t u f.ids asked (r.obj_mat_node ∷ []))),
      )
