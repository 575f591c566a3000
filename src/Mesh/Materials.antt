-- ===== src/Mesh/Materials.antt =====
-- `getMaterial`: the material of each face, and the plugins that tell them apart.
use Prim.Native.Nat.{bit_xor}
use vray_for_houdini.Base.{
  ℕ, ◌+◌, Bool, List, [], ◌∷◌, ◌++◌, Option, none, some, ◌==◌, if◌then◌else◌, ◌>>=◌,
}
use vray_for_houdini.Qt.Text.{QString, lit, is_empty}
use vray_for_houdini.Qt.Map
use vray_for_houdini.Qt.Map.{QMap, number_key}
use vray_for_houdini.Attrs.Sdk.{Sdk}
use vray_for_houdini.Attrs.Attr.{q_values, q_ints, ref_ints, a_plugin}
use vray_for_houdini.Attrs.Desc.{PluginDesc, plugin_desc, add_arg}
use vray_for_houdini.Attrs.RefList.{ptr_array}
use vray_for_houdini.Mesh.Array.{put}
use vray_for_houdini.Mesh.Shape.{GeoPrim, Triangle, for_prim, face_count}
use vray_for_houdini.Mesh.Normals.{first_of}

-- A primitive with the material nodes that lead to it: `styled` is the node that `polyMaterial` has
-- once its styler's overrides are merged, and `by_path` the one that its material attribute names.
pub record MeshPrim : Type 0 where
  pub shape : GeoPrim
  pub styled : Option ℕ
  pub by_path : Option ℕ

-- Which attributes there are, and the material node of the object.
pub record Sources : Type 0 where
  pub has_style_sheet : Bool
  pub has_material_path : Bool
  pub obj_mat_node : Option ℕ

abbrev pub shapes : List MeshPrim → List GeoPrim
shapes [] = []
shapes (p ∷ ps) = p.shape ∷ shapes ps

-- `polyMatNode`. What `appendStyleSheet` reads goes into `polyMaterial` and is not read again.
unfoldable pub poly_mat_node : Sources → MeshPrim → Option ℕ
poly_mat_node s p =
    first_of (first_of p.styled s.obj_mat_node)
      (if s.has_style_sheet then none else if s.has_material_path then p.by_path else none)

-- `matToMtlId` and `matIndex`
pub record MatTable : Type 0 where
  pub mat_to_mtl_id : QMap ℕ ℕ
  pub mat_index : ℕ

abbrev pub no_materials : MatTable
no_materials = record { mat_to_mtl_id = []; mat_index = 0 }

-- `faceMtlID`
unfoldable pub face_mtl_id : Option ℕ → MatTable → MatTable × ℕ
face_mtl_id none t = (t, 0)
face_mtl_id (some node) t = elim (Map.find node t.mat_to_mtl_id) [
  | some id ↦ (t, id)
  | none ↦ (
    record {
      mat_to_mtl_id = Map.insert node t.mat_index t.mat_to_mtl_id;
      mat_index = t.mat_index + 1;
    },
    t.mat_index,
  )
]

-- `face_mtlIDs` and `faceIndex`
pub record FaceIds : Type 0 where
  pub ids : List ℕ
  pub face_index : ℕ

unfoldable pub put_id : ℕ → Triangle → FaceIds → Option FaceIds
unfolding put
put_id id t f = do
  ids ← put f.ids f.face_index id
  some (record { ids = ids; face_index = f.face_index + 1 })

-- The loop over the primitives.
unfoldable pub assign_ids :
    Sources → List MeshPrim → MatTable → FaceIds → Option (MatTable × FaceIds)
unfolding poly_mat_node face_mtl_id for_prim put_id
assign_ids s [] t f = some (t, f)
assign_ids s (p ∷ ps) t f =
    let (t', id) = face_mtl_id (poly_mat_node s p) t in
    do f' ← for_prim (put_id id) p.shape f; assign_ids s ps t' f'

-- The rest of the exporter: what it exports for a material node, a plugin for a description, the
-- hash of a list of ids, the plugin as a value, and the plugins of the object that are kept by hash.
pub record Materials (S : Sdk) : Type 0 where
  pub export_material : Option ℕ → Option S.Plugin
  pub export_plugin : PluginDesc S → S.Plugin
  pub plugin_value : S.Plugin → S.Value
  pub hash_ids : List ℕ → ℕ
  pub ext_id_name : ℕ → QString
  pub multi_name : ℕ → QString
  pub prim_id : ℕ

-- `PluginCache`, the descriptions that are exported, and the nodes that `exportMaterial` is called
-- for.
pub record Exports (S : Sdk) : Type 0 where
  pub kept : QMap ℕ S.Plugin
  pub exported : List (PluginDesc S)
  pub materials : List (Option ℕ)

module _ {S : Sdk} (x : Materials S) where
  -- A plugin that is kept under a hash, or the one of the description, which is kept then.
  unfoldable pub keep_plugin : ℕ → PluginDesc S → Exports S → Exports S × S.Plugin
  keep_plugin hash desc e = elim (Map.find hash e.kept) [
    | some plugin ↦ (e, plugin)
    | none ↦ (
      record e {
        kept = Map.insert hash (x.export_plugin desc) e.kept;
        exported = e.exported ++ desc ∷ [];
      },
      x.export_plugin desc,
    )
  ]

  -- Calls of `exportMaterial`.
  abbrev pub asks : List (Option ℕ) → Exports S → Exports S
  asks nodes e = record e { materials = e.materials ++ nodes }

  -- The nodes of a table, in order.
  abbrev pub nodes_of : QMap ℕ ℕ → List (Option ℕ)
  nodes_of [] = []
  nodes_of ((node, id) ∷ m) = some node ∷ nodes_of m

  -- `materialList` and `idsList`: a material with no plugin is left out.
  unfoldable pub material_lists : QMap ℕ ℕ → List S.Value × List ℕ
  material_lists [] = ([], [])
  material_lists ((node, id) ∷ m) =
      let (values, ids) = material_lists m in
      elim (x.export_material (some node)) [
        | none ↦ (values, ids)
        | some plugin ↦ (x.plugin_value plugin ∷ values, id ∷ ids)
      ]

  unfoldable pub ext_id_desc : List ℕ → PluginDesc S
  unfolding plugin_desc add_arg
  ext_id_desc ids =
      add_arg S (plugin_desc S (x.ext_id_name (x.hash_ids ids)) (lit "TexExtMaterialID"))
        (lit "ids_list") (ref_ints ids 0)

  unfoldable pub multi_desc : ℕ → List S.Value → List ℕ → S.Plugin → PluginDesc S
  unfolding plugin_desc add_arg
  multi_desc hash values ids id_gen =
      let d = plugin_desc S (x.multi_name hash) (lit "MtlMulti") in
      let d = add_arg S d (lit "mtls_list") (q_values values 0) in
      let d = add_arg S d (lit "ids_list") (q_ints ids 0) in
      add_arg S d (lit "mtlid_gen") (a_plugin id_gen)

  -- What follows the loop, if a face has a material: every material is exported first.
  unfoldable pub export_multi : MatTable → List ℕ → Exports S → Exports S × S.Plugin
  unfolding keep_plugin material_lists ext_id_desc multi_desc
  export_multi t ids e =
      let hash = x.hash_ids ids in
      let (e', id_gen) = keep_plugin hash (ext_id_desc ids) (asks (nodes_of t.mat_to_mtl_id) e) in
      let (values, mtl_ids) = material_lists t.mat_to_mtl_id in
      let multi_hash = bit_xor hash x.prim_id in
      keep_plugin multi_hash (multi_desc multi_hash values mtl_ids id_gen) e'

  unfoldable pub get_material :
      Sources → List MeshPrim → Exports S → Option (Exports S × Option S.Plugin)
  unfolding assign_ids export_multi ptr_array face_count
  get_material s prims e =
      let n = face_count (shapes prims) in
      let object_material = x.export_material s.obj_mat_node in
      let asked = asks (s.obj_mat_node ∷ []) e in
      let found : Option (Exports S × Option S.Plugin) = (do
        done ← assign_ids s prims no_materials (record { ids = ptr_array n 0; face_index = 0 })
        some (
            if is_empty done.0.mat_to_mtl_id
            then (asked, object_material)
            else let multi = export_multi done.0 done.1.ids asked in (multi.0, some multi.1))) in
      if n == 0 then some (e, none) else found
