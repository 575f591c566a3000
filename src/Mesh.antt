-- ===== src/Mesh.antt =====
-- The export of meshes: src/export/export/vfh_export_mesh.h and vfh_export_mesh.cpp.
pub mod Array
pub mod Bits
pub mod Shape
pub mod Fan
pub mod Faces
pub mod Marks
pub mod Filled
pub mod Attributes
pub mod Normals
pub mod NormalFaces
pub mod Materials
pub mod FaceIds
pub mod Shared
pub mod Soup
pub mod SoupFaces
pub mod SoupMesh
