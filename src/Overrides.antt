-- ===== src/Overrides.antt =====
-- The material of a primitive with its overrides: src/export/export/vfh_material_override.h and .cpp.
pub mod Items
pub mod Styles
pub mod Channels
pub mod Kept
pub mod Loaded
pub mod Layers
