-- ===== src/Lib.antt =====
-- A model of V-Ray for Houdini, the plugin that exports Houdini scenes to the V-Ray AppSDK, and its
-- correctness theorems.
--
-- Parts of the program and their files. A description of a plugin (PluginDesc) gathers attributes;
-- the plugin exporter sets them on an AppSDK plugin; the renderer behind the exporter is one of the
-- process's renderer instances; GPU modes ask the device selection for the devices to use; a scene
-- that is written to a file can be submitted to V-Ray Cloud; geometry that is loaded for a viewport
-- or an export goes through the detail cache; the parameters of a node are a list of templates that
-- is built by calls or read from a .ds file; the geometry of a detail becomes the lists of a mesh; and a
-- node of OSL code has the parameters and sockets of its code.
--   Qt/         QString, QStringList and QMap, as far as the program uses them.
--   Attrs/      src/export/vfh_plugin_attrs.h and .cpp: VfhAttrValue (Value), PluginAttr (Attr),
--               PluginDesc (Desc), toRefList (RefList); sequences of edits (Edits).
--   Exporter/   src/export/vfh_plugin_exporter.h and .cpp: VRayPluginRenderer with its calls as a
--               trace (State, Renderer), exportPluginProperties (Setting, Properties), exportPlugin
--               and removePlugin (Plugins), setRendererMode (Mode). What they call is stated in
--               Calls, PluginCalls and ModeCalls, the overloads in Coherence, the life of a
--               renderer in Session.
--   Instances/  src/lib/vfh_vray_instances.cpp: the shared table of renderers (Pool), what is
--               tracked and allocated (Slots, Invariant), one renderer's life (Lifetime).
--   Cache/      src/gu/vfh_gu_cache.h: DetailCachePrototype (Detail), its counters (References,
--               Runs), releases (Release) and lookups (Lookups, Transparency).
--   Gpu/        src/utils/vfh_gpu_device_select.cpp: devices and the stored choice (Select, Stored).
--   Cloud/      src/export/vfh_vray_cloud.h and .cpp: Job and its command line (Job, Options), the
--               client and the files (Desk), the upload window (Window, Upload), submitJob and
--               isClientAvailable (Submit, Outcome).
--   Prm/        src/utils/vfh_prm_templates.h and .cpp: PRMList (List), layouts of nested folders and
--               the list that they are built into (Layout, Counts, Steps, Built), DsFilesLocations
--               and addFromFile (Files, Lookup).
--   View/       src/export/vfh_export_view.h and .cpp: ViewParams and its comparisons (Params, Changes),
--               the descriptions of the view's plugins (Plugins), exportView (Export), a view that
--               is exported twice (Repeat), what a reset leaves (Scene, Reset) and changes that are not
--               exported (Stale).
--   Mesh/       src/export/export/vfh_export_mesh.h and .cpp: polygons, soups and the walk over their
--               triangles (Shape), words of edge marks (Bits), getFaces and its kin (Faces),
--               getDataFromAttribute (Attributes), getNormals (Normals), getMaterial (Materials), and
--               the geometry of asPolySoupPrimitives (Soup). Fan, Marks and Filled state what the
--               lists hold, NormalFaces, FaceIds, Shared and SoupMesh what follows from it.
--   Vop/        src/vop/vop_node_base.cpp: the sockets of NodeBase (Sockets). src/vop/vop_node_osl.h and
--               .cpp: getOSLCode and the metadata (Osl/Query), the parameters that a query gives
--               (Osl/Node), updateParamsIfNeeded (Osl/Update), the inputs and outputs (Osl/Slots) and
--               asPluginDesc (Osl/Export). Kinds, Inputs and Updated are about the update, SlotNames
--               about names and indices, Exported about the export.
--   Ramp/       src/export/utils/vfh_tex_utils.h and .cpp: the points of a ramp parameter (Points),
--               exportRampAttribute (Colors) and what it exports (Colored); the first loop of
--               getCurveData (Curve), its spline (Spline) and the rest of it (Handles). Arrays,
--               Written and Placed are about accesses by index, Solved, Curves, Handled and Overflow
--               about the results of getCurveData.
--   Overrides/  src/export/export/vfh_material_override.h and .cpp: PrimMaterial and the overrides by
--               attributes (Items), appendOverrideValues (Styles), appendMaterialOverrides (Channels),
--               and what they keep (Kept, Loaded, Layers).
--   Base/, Tests/  shared names; sample data and runs.
--
-- Operations are functions from a state to a new state and a result, named after the source's.
-- A method that calls the AppSDK appends the call to the trace of its renderer; what the AppSDK, Qt
-- and Houdini answer are the fields of records (Sdk, Api, Env, Machine, Numerals, Builder, Reader,
-- ViewContext, Vectors, Materials, Shading, Shown, RampNode, Floats, Houdini), which every theorem
-- takes as arguments.
-- The exports of textures by the view, and of materials by a mesh, are recorded as calls; the plugins
-- that they make are the exporter's, outside of these parts. While the question of a closing upload window
-- is open, what its process reports is a list that is handled before the answer.
-- A pointer is a number or none. Where code reads or writes a list at an index, none is the result for
-- an index past the end. An int is its 32-bit pattern.
-- Loops are structural recursion over the list that is walked, or over the number of their rounds, so
-- no fuel is used; the table of renderers is a list of slots of any length, which clearing makes 256 long.
--
-- Not modelled: assertions (vassert) and debug output; the showing of the frame buffer and its state
-- stream; painting and layout of windows; the walk over Houdini's nodes in the scene exporter;
-- map channels, hair, volumes and instances; the node and primitive classes, which are glue over
-- Houdini's toolkit.
pub mod Base
pub mod Qt
pub mod Attrs
pub mod Instances
pub mod Cache
pub mod Gpu
pub mod Exporter
pub mod Cloud
pub mod Prm
pub mod View
pub mod Tests
pub mod Mesh
pub mod Overrides
pub mod Ramp
pub mod Vop
