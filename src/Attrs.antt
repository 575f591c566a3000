-- ===== src/Attrs.antt =====
-- Plugin attributes: src/export/vfh_plugin_attrs.h and src/export/vfh_plugin_attrs.cpp.
pub mod Sdk
pub mod RefList
pub mod Value
pub mod Attr
pub mod Desc
pub mod Edits
