-- ===== src/Exporter.antt =====
-- The export of plugins through the V-Ray AppSDK: src/export/vfh_plugin_exporter.h and
-- src/export/vfh_plugin_exporter.cpp.
pub mod Setting
pub mod Coherence
pub mod State
pub mod Properties
pub mod Calls
pub mod Renderer
pub mod Plugins
pub mod Mode
pub mod PluginCalls
pub mod ModeCalls
pub mod Session
