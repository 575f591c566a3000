-- ===== src/Cloud.antt =====
-- The submission of a scene to V-Ray Cloud: src/export/vfh_vray_cloud.h and
-- src/export/vfh_vray_cloud.cpp.
pub mod Job
pub mod Options
pub mod Desk
pub mod Window
pub mod Upload
pub mod Submit
pub mod Outcome
