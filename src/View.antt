-- ===== src/View.antt =====
-- The export of the view: src/export/vfh_export_view.h and src/export/vfh_export_view.cpp.
pub mod Params
pub mod Changes
pub mod Plugins
pub mod Export
pub mod Repeat
pub mod Stale
pub mod Scene
pub mod Reset
