-- ===== src/Prm.antt =====
-- Parameter templates: src/utils/vfh_prm_templates.h and src/utils/vfh_prm_templates.cpp.
pub mod List
pub mod Counts
pub mod Layout
pub mod Steps
pub mod Built
pub mod Files
pub mod Lookup
